-- ===== src/Pmap/Search.antt =====
-- The two loops of `page_alloc` (mm/pmap.c): where the search stops.
use mathlib.Core.Path.{subst}
use raspberry3_mos.Base.{
  ℕ, zero, suc, ◌+◌, ◌-◌, ◌%◌, ◌^◌, ◌≤◌, ◌<◌, ◌≡◌, refl, sym, ◌∙◌, ap, ◌⊎◌, inl, inr, true, false,
  none, some, bit_and, ltb, ◌==◌, Bool-cases, Option-cases, arith,
}
use raspberry3_mos.Base.Bits.{testbit, testbit-bit_and, testbit-zero, testbit-pow}
use raspberry3_mos.Pmap.{
  Kmem, int_bit, all_ones, find_bit, free_bit, take_page, alloc_from, page_alloc,
}

pub int_bit-low : (j : ℕ) → j < 31 → int_bit j ≡ 2 ^ j
unfolding int_bit
int_bit-low j h =
    let small : j % 32 ≡ j = omega arith in
    let plain : (j == 31) ≡ false = ground arith in rw small (rw plain)

pub testbit-int_bit : (j : ℕ) → j < 32 → testbit (int_bit j) j ≡ true
unfolding testbit int_bit
testbit-int_bit j h = elim (Bool-cases (j == 31)) [
  | inl top ↦ let e : j ≡ 31 = ground arith in rw e refl
  | inr low ↦ rw (int_bit-low j (ground arith)) (testbit-pow j j ∙ ground arith)
]

-- The mask of `j` repeats from 32 on.
int_bit-again : (j : ℕ) → int_bit (j + 32) ≡ int_bit j
unfolding int_bit
int_bit-again j = let e : (j + 32) % 32 ≡ j % 32 = omega arith in rw e refl

-- Every mask below `j` meets the word.
abbrev pub Missed : ℕ → ℕ → Type 0
Missed word j = (k : ℕ) → k < j → (bit_and word (int_bit k) == 0) ≡ false

Missed-next :
    (word j : ℕ) → Missed word j → (bit_and word (int_bit j) == 0) ≡ false → Missed word (j + 1)
Missed-next word j m e k h = elim (Bool-cases (k == j)) [
  | inl same ↦ let q : k ≡ j = ground arith in rw q e
  | inr other ↦ m k (ground arith)
]

find_bit-first :
    (word n j : ℕ) {b : ℕ}
    → Missed word j
    → find_bit word n j ≡ some b
    → Missed word b × ((bit_and word (int_bit b) == 0) ≡ true) × (b < j + n)
unfolding find_bit
find_bit-first word zero j m e = cc
find_bit-first word (suc n) j {b} m e = elim (Bool-cases (bit_and word (int_bit j) == 0)) [
  | inl hit ↦
      let q : j ≡ b = ground arith in
      subst (λ b. Missed word b × ((bit_and word (int_bit b) == 0) ≡ true) × (b < j + suc n)) q
        (m, hit, omega arith)
  | inr miss ↦
      let later : find_bit word n (j + 1) ≡ some b = rw miss at e in
      let ih = find_bit-first word n (j + 1) (Missed-next word j m miss) later in
      (ih.0, ih.1, omega (arith, ih.2))
]

pub find_bit-none : (word n j : ℕ) → Missed word j → find_bit word n j ≡ none → Missed word (j + n)
unfolding find_bit
find_bit-none word zero j m e k h = m k (omega arith)
find_bit-none word (suc n) j m e k h = elim (Bool-cases (bit_and word (int_bit j) == 0)) [
  | inl hit ↦ ground arith
  | inr miss ↦
      find_bit-none word n (j + 1) (Missed-next word j m miss) (rw miss at e) k (omega arith)
]

-- The bit that is found is one of the lower 32, and is clear.
pub free_bit-low : (word : ℕ) {b : ℕ} → free_bit word ≡ some b → (b < 32) × (testbit word b ≡ false)
unfolding free_bit
free_bit-low word {b} e =
    let (missed, clear, below) = find_bit-first word 64 0 (λ k h. absurd (omega arith)) e in
    let low : b < 32 = elim (Bool-cases (ltb b 32)) [
      | inl small ↦ ground arith
      | inr large ↦
          let q : b - 32 + 32 ≡ b = ground arith in
          let same : int_bit b ≡ int_bit (b - 32) = ap int_bit (sym q) ∙ int_bit-again (b - 32) in
          let hit : (bit_and word (int_bit (b - 32)) == 0) ≡ true = rw same at clear in
          let miss = missed (b - 32) (ground arith) in cc
    ] in
    let none_left : bit_and word (int_bit b) ≡ 0 = ground arith in
    let bits : testbit (bit_and word (int_bit b)) b ≡ false = rw none_left (testbit-zero b) in
    (low, ground (arith, testbit-bit_and word (int_bit b) b, testbit-int_bit b low))

-- Where `alloc_from` stops.
alloc_from-some :
    (n i : ℕ) (s : Kmem) {r : ℕ × Kmem}
    → alloc_from n i s ≡ some r
    → (k j : ℕ) × (k < i + n) × (free_bit (s.vis k) ≡ some j) × (take_page s k j ≡ r)
unfolding alloc_from
alloc_from-some zero i s e = cc
alloc_from-some (suc n) i s {r} e = elim (Bool-cases (s.vis i == all_ones)) [
  | inl full ↦
      let (k, j, h, f, t) = alloc_from-some n (i + 1) s (rw full at e) in (k, j, omega arith, f, t)
  | inr room ↦ elim (Option-cases (free_bit (s.vis i))) [
    | inl miss ↦
        let (k, j, h, f, t) = alloc_from-some n (i + 1) s (rw (room, miss) at e) in
        (k, j, omega arith, f, t)
    | inr (j, hit) ↦
        let got : some (take_page s i j) ≡ some r = rw (room, hit) at e in
        (i, j, omega arith, hit, cc)
  ]
]

-- Where `alloc_from` fails: each word is full, or no mask of the inner loop is clear.
pub alloc_from-none :
    (n i : ℕ) (s : Kmem)
    → alloc_from n i s ≡ none
    → (k : ℕ) → i ≤ k
    → k < i + n
    → (s.vis k ≡ all_ones) ⊎ (free_bit (s.vis k) ≡ none)
unfolding alloc_from
alloc_from-none zero i s e k g h = absurd (omega arith)
alloc_from-none (suc n) i s e k g h = elim (Bool-cases (s.vis i == all_ones)) [
  | inl full ↦ elim (Bool-cases (i == k)) [
    | inl here ↦ ground arith
    | inr later ↦ alloc_from-none n (i + 1) s (rw full at e) k (ground arith) (omega arith)
  ]
  | inr room ↦ elim (Option-cases (free_bit (s.vis i))) [
    | inl miss ↦ elim (Bool-cases (i == k)) [
      | inl here ↦ let q : i ≡ k = ground arith in inr (rw (← q) miss)
      | inr later ↦
          alloc_from-none n (i + 1) s (rw (room, miss) at e) k (ground arith) (omega arith)
    ]
    | inr (j, hit) ↦ let stuck : some (take_page s i j) ≡ none = rw (room, hit) at e in cc
  ]
]

-- The page that `page_alloc` takes: its word, its bit and the new state.
pub record Taken (s : Kmem) (r : ℕ × Kmem) : Type 0 where
  pub word : ℕ
  pub bit : ℕ
  pub word_in : word < 4096
  pub bit_in : bit < 32
  pub clear : testbit (s.vis word) bit ≡ false
  pub result : take_page s word bit ≡ r

pub page_alloc-Taken : (s : Kmem) {r : ℕ × Kmem} → page_alloc s ≡ some r → Taken s r
unfolding page_alloc
page_alloc-Taken s e =
    let (k, j, h, f, t) = alloc_from-some 4096 0 s e in
    let (low, clear) = free_bit-low (s.vis k) f in
    record { word = k; bit = j; word_in = h; bit_in = low; clear = clear; result = t }
