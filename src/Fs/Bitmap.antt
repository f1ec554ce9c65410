-- ===== src/Fs/Bitmap.antt =====
-- The bitmap of free blocks (fs/fs.c): `alloc_block_num` and `free_block`.
use raspberry3_mos.Base.{
  ℕ, zero, suc, ◌+◌, ◌-◌, ◌*◌, ◌/◌, ◌%◌, ◌^◌, bit_and, bit_or, ◌≤◌, ◌<◌, ◌≡◌, ◌≢◌, refl, sym, subst,
  ◌∙◌, ap, ◌⊎◌, inl, inr, true, false, ◌&&◌, ◌||◌, leb, ◌==◌, not, if◌then◌else◌, Bool-cases, arith,
}
use raspberry3_mos.Base.Bits.{
  testbit, testbit-bit_and, testbit-bit_or, testbit-pow, testbit-mod, testbit-others, bit_and-pow,
  pow-pos,
}
use raspberry3_mos.Pmap.{all_ones}
use raspberry3_mos.Fs.{
  Fs, ok, err, e_no_disk, s_nblocks, store64, bitmap_word, bit_is_set, set_bitmap_word, free_block,
  alloc_from, alloc_block_num,
}

bit_is_set-testbit : (b : ℕ) (s : Fs) → bit_is_set b s ≡ testbit (bitmap_word b s) (b % 64)
bit_is_set-testbit b s = ground (arith, bit_and-pow (bitmap_word b s) (b % 64), pow-pos (b % 64))

-- A write of one word of the bitmap, seen from every block
pub bitmap_word-set :
    (b c v : ℕ) (s : Fs)
    → bitmap_word c (set_bitmap_word b v s)
      ≡ (if (c / 64) == (b / 64) then v % 2 ^ 64 else bitmap_word c s)
unfolding set_bitmap_word store64
bitmap_word-set b c v s = elim (Bool-cases ((c / 64) == (b / 64))) [
  | inl same ↦ let q : c / 64 ≡ b / 64 = ground arith in rw q (ground arith)
  | inr other ↦ ground arith
]

-- Of the state, only the bits of the bitmap change.
pub record Kept (b : ℕ) (s t : Fs) : Type 0 where
  pub nblocks : s_nblocks t ≡ s_nblocks s
  pub super : t.super ≡ s.super
  pub bitmap : t.bitmap ≡ s.bitmap
  pub others : (c : ℕ) → c ≢ b → bit_is_set c t ≡ bit_is_set c s
  pub memory :
      (a : ℕ) → a ≢ s.bitmap + 8 * (b / 64) → a ≢ s.bitmap + 8 * (b / 64) + 4 → t.word a ≡ s.word a

bits-set :
    (b c v : ℕ) (s : Fs)
    → bit_is_set c (set_bitmap_word b v s)
      ≡ (if (c / 64) == (b / 64) then testbit v (c % 64) else bit_is_set c s)
bits-set b c v s =
    bit_is_set-testbit c (set_bitmap_word b v s) ∙ elim (Bool-cases ((c / 64) == (b / 64))) [
      | inl same ↦
          ap (λ w. testbit w (c % 64)) (bitmap_word-set b c v s ∙ rw same refl)
          ∙ testbit-mod 64 v (c % 64) (omega arith)
          ∙ rw same refl
      | inr other ↦
          ap (λ w. testbit w (c % 64)) (bitmap_word-set b c v s ∙ rw other refl)
          ∙ sym (bit_is_set-testbit c s)
          ∙ rw other refl
    ]

same_word :
    (b c : ℕ) (s : Fs) → c / 64 ≡ b / 64 → testbit (bitmap_word b s) (c % 64) ≡ bit_is_set c s
same_word b c s q =
    ap (λ k. testbit (s.word (s.bitmap + 8 * k) + 2 ^ 32 * s.word (s.bitmap + 8 * k + 4)) (c % 64))
      (sym q)
    ∙ sym (bit_is_set-testbit c s)

-- Setting and clearing the bit of block `b`
abbrev pub set_bit : ℕ → Fs → Fs
set_bit b s = set_bitmap_word b (bit_or (bitmap_word b s) (2 ^ (b % 64))) s

abbrev pub clear_bit : ℕ → Fs → Fs
clear_bit b s = set_bitmap_word b (bit_and (bitmap_word b s) (all_ones - 2 ^ (b % 64))) s

pub bit_is_set-set_bit :
    (b c : ℕ) (s : Fs) → bit_is_set c (set_bit b s) ≡ (if c == b then true else bit_is_set c s)
bit_is_set-set_bit b c s =
    let word = bitmap_word b s in
    let joined = testbit-bit_or word (2 ^ (b % 64)) (c % 64) in
    let pow = testbit-pow (b % 64) (c % 64) in
    bits-set b c (bit_or word (2 ^ (b % 64))) s ∙ elim (Bool-cases ((c / 64) == (b / 64))) [
      | inl same ↦
          let q : c / 64 ≡ b / 64 = ground arith in
          let own = same_word b c s q in ground (arith, joined, pow, own)
      | inr other ↦ ground arith
    ]

pub bit_is_set-clear_bit :
    (b c : ℕ) (s : Fs) → bit_is_set c (clear_bit b s) ≡ (if c == b then false else bit_is_set c s)
bit_is_set-clear_bit b c s =
    let word = bitmap_word b s in
    let joined = testbit-bit_and word (all_ones - 2 ^ (b % 64)) (c % 64) in
    let others = testbit-others 64 (b % 64) (c % 64) (omega arith) (omega arith) in
    bits-set b c (bit_and word (all_ones - 2 ^ (b % 64))) s
    ∙ elim (Bool-cases ((c / 64) == (b / 64))) [
      | inl same ↦
          let q : c / 64 ≡ b / 64 = ground arith in
          let own = same_word b c s q in ground (arith, joined, others, own)
      | inr other ↦ ground arith
    ]

-- A write to the bitmap leaves the number of blocks alone where the superblock lies below it.
kept_nblocks :
    (b v : ℕ) (s : Fs) → s.super + 4 < s.bitmap → s_nblocks (set_bitmap_word b v s) ≡ s_nblocks s
unfolding set_bitmap_word store64
kept_nblocks b v s h = ground arith

pub kept_memory :
    (b v a : ℕ) (s : Fs)
    → a ≢ s.bitmap + 8 * (b / 64)
    → a ≢ s.bitmap + 8 * (b / 64) + 4
    → (set_bitmap_word b v s).word a ≡ s.word a
unfolding set_bitmap_word store64
kept_memory b v a s h l = ground arith

kept_pointers :
    (b v : ℕ) (s : Fs)
    → ((set_bitmap_word b v s).super ≡ s.super) × ((set_bitmap_word b v s).bitmap ≡ s.bitmap)
unfolding set_bitmap_word
kept_pointers b v s = (refl, refl)

set_bit-Kept : (b : ℕ) (s : Fs) → s.super + 4 < s.bitmap → Kept b s (set_bit b s)
set_bit-Kept b s h = record {
  nblocks = kept_nblocks b _ s h;
  super = (kept_pointers b _ s).0;
  bitmap = (kept_pointers b _ s).1;
  others = λ c ne. bit_is_set-set_bit b c s ∙ ground arith;
  memory = λ a ne nf. kept_memory b _ a s ne nf;
}

clear_bit-Kept : (b : ℕ) (s : Fs) → s.super + 4 < s.bitmap → Kept b s (clear_bit b s)
clear_bit-Kept b s h = record {
  nblocks = kept_nblocks b _ s h;
  super = (kept_pointers b _ s).0;
  bitmap = (kept_pointers b _ s).1;
  others = λ c ne. bit_is_set-clear_bit b c s ∙ ground arith;
  memory = λ a ne nf. kept_memory b _ a s ne nf;
}

-- What `alloc_block_num` leaves where it returns `b`.
pub record Allocated (s : Fs) (b : ℕ) (t : Fs) : Type 0 where
  pub low : 3 ≤ b
  pub inside : b < s_nblocks s
  pub was_free : bit_is_set b s ≡ true
  pub now_used : bit_is_set b t ≡ false
  pub first : (c : ℕ) → 3 ≤ c → c < b → bit_is_set c s ≡ false
  pub kept : Kept b s t

-- The loop stops at the first block that is free, from `b` on, or finds none among `n`.
abbrev Search : ℕ → ℕ → Fs → Type 0
Search n b s =
    ((c : ℕ) × (alloc_from n b s ≡ ok c (clear_bit c s))
      × (b ≤ c)
      × (c < b + n)
      × (bit_is_set c s ≡ true)
      × ((d : ℕ) → b ≤ d → d < c → bit_is_set d s ≡ false))
    ⊎ ((alloc_from n b s ≡ err e_no_disk s)
        × ((d : ℕ) → b ≤ d → d < b + n → bit_is_set d s ≡ false))

one_more :
    (b c : ℕ) (s : Fs)
    → bit_is_set b s ≡ false
    → ((d : ℕ) → b + 1 ≤ d → d < c → bit_is_set d s ≡ false)
    → (d : ℕ) → b ≤ d
    → d < c
    → bit_is_set d s ≡ false
one_more b c s used first d h l = elim (Bool-cases (d == b)) [
  | inl same ↦ let q : d ≡ b = ground arith in rw q used
  | inr other ↦ first d (ground arith) l
]

alloc_from-Search : (n b : ℕ) (s : Fs) → Search n b s
unfolding alloc_from
alloc_from-Search zero b s = inr (refl, λ d h l. absurd (omega arith))
alloc_from-Search (suc n) b s = elim (Bool-cases (bit_is_set b s)) [
  | inl free ↦
      inl (
        b,
        rw (alloc_from, free) refl,
        omega arith,
        omega arith,
        free,
        λ d h l. absurd (omega arith),
      )
  | inr used ↦ later used (alloc_from-Search n (b + 1) s)
]
  where
    later : bit_is_set b s ≡ false → Search n (b + 1) s → Search (suc n) b s
    later used (inl (c, run, low, high, free, first)) =
        inl
          (c, rw (alloc_from, used) run, omega arith, omega arith, free, one_more b c s used first)
    later used (inr (run, full)) =
        inr
          (rw (alloc_from, used) run, λ d h l. one_more b (b + 1 + n) s used full d h (omega arith))

-- `alloc_block_num` returns the lowest free block from 3 on and marks it as used, and no other, or
-- returns -E_NO_DISK and changes nothing, where every block from 3 on is used. The superblock lies
-- below the bitmap.
pub alloc_block_num_lem :
    (s : Fs)
    → s.super + 4 < s.bitmap
    → ((b : ℕ) × (t : Fs) × (alloc_block_num s ≡ ok b t) × Allocated s b t)
      ⊎ ((alloc_block_num s ≡ err e_no_disk s)
          × ((c : ℕ) → 3 ≤ c → c < s_nblocks s → bit_is_set c s ≡ false))
unfolding alloc_block_num
alloc_block_num_lem s h = by_search (alloc_from-Search (s_nblocks s - 3) 3 s)
  where
    by_search :
        Search (s_nblocks s - 3) 3 s
        → ((b : ℕ) × (t : Fs) × (alloc_block_num s ≡ ok b t) × Allocated s b t)
          ⊎ ((alloc_block_num s ≡ err e_no_disk s)
              × ((c : ℕ) → 3 ≤ c → c < s_nblocks s → bit_is_set c s ≡ false))
    by_search (inl (b, run, low, high, free, first)) = inl (
      b,
      clear_bit b s,
      run,
      record {
        low = low;
        inside = omega arith;
        was_free = free;
        now_used = bit_is_set-clear_bit b b s ∙ ground arith;
        first = first;
        kept = clear_bit-Kept b s h;
      },
    )
    by_search (inr (run, full)) = inr (run, λ c low high. full c low (omega arith))

pub alloc_block_num-Allocated :
    (s t : Fs) (b : ℕ) → s.super + 4 < s.bitmap → alloc_block_num s ≡ ok b t → Allocated s b t
alloc_block_num-Allocated s t b h e = by_result (alloc_block_num_lem s h)
  where
    by_result :
        ((c : ℕ) × (u : Fs) × (alloc_block_num s ≡ ok c u) × Allocated s c u)
          ⊎ ((alloc_block_num s ≡ err e_no_disk s)
              × ((c : ℕ) → 3 ≤ c → c < s_nblocks s → bit_is_set c s ≡ false))
        → Allocated s b t
    by_result (inl (c, u, run, made)) =
        let number : c ≡ b = cc in
        let state : u ≡ t = cc in
        subst (λ (k : ℕ). Allocated s k t) number (subst (λ (v : Fs). Allocated s c v) state made)
    by_result (inr (run, full)) = cc

pub free_block-set_bit :
    (b : ℕ) (s : Fs) → b ≢ 0 → b < s_nblocks s → free_block b s ≡ ok tt (set_bit b s)
unfolding free_block
free_block-set_bit b s pos inside =
    let fine : ((b == 0) || (not (s.super == 0) && leb (s_nblocks s) b)) ≡ false = ground arith in
    rw fine refl

-- `free_block` of a block that `alloc_block_num` returned gives the bitmap back as it was. The
-- superblock lies below the bitmap.
pub free_block-alloc_block_num :
    (s t : Fs) (b : ℕ)
    → s.super + 4 < s.bitmap
    → alloc_block_num s ≡ ok b t
    → (u : Fs) × (free_block b t ≡ ok tt u) × ((c : ℕ) → bit_is_set c u ≡ bit_is_set c s)
free_block-alloc_block_num s t b h e =
    let made = alloc_block_num-Allocated s t b h e in
    let inside : b < s_nblocks t = omega (arith, made.inside, made.kept.nblocks) in
    (
      set_bit b t,
      free_block-set_bit b t (omega (arith, made.low)) inside,
      λ c. bit_is_set-set_bit b c t ∙ elim (Bool-cases (c == b)) [
        | inl same ↦
            let q : c ≡ b = ground arith in
            rw same (sym made.was_free ∙ ap (λ k. bit_is_set k s) (sym q))
        | inr other ↦ rw other (made.kept.others c (ground arith))
      ],
    )
