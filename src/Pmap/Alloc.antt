-- ===== src/Pmap/Alloc.antt =====
-- `page_alloc` and `page_free` (mm/pmap.c) on the bitmap of allocated pages.
use mathlib.Core.Path.{subst}
use raspberry3_mos.Base.{
  ℕ, ◌+◌, ◌*◌, ◌/◌, ◌%◌, ◌^◌, ◌<◌, ◌≡◌, refl, ap, Bool, true, false, some, if◌then◌else◌, arith,
}
use raspberry3_mos.Base.Bits.{testbit, testbit-bit_or}
use raspberry3_mos.Pmap.{Kmem, by2pg, page2kva, int_bit, take_page, page_alloc}
use raspberry3_mos.Pmap.Search.{testbit-int_bit, page_alloc-Taken}
use raspberry3_mos.Pmap.Zero.{within, bzero-words}

-- The page `pp` is marked as allocated.
abbrev pub is_used : Kmem → ℕ → Bool
is_used s pp = testbit (s.vis (pp / 64)) (pp % 64)

-- What `page_alloc` promises of the page `r.0` and the state `r.1` that it leaves.
pub record Fresh (s : Kmem) (r : ℕ × Kmem) : Type 0 where
  pub in_range : r.0 < 2 ^ 18
  pub was_free : is_used s r.0 ≡ false
  pub now_used : is_used r.1 r.0 ≡ true
  pub others : (q : ℕ) → is_used s q ≡ true → is_used r.1 q ≡ true
  pub zeroed :
      (a : ℕ)
      → a % 8 ≡ 0
      → r.1.cell a ≡ (if within a (page2kva r.0) (page2kva r.0 + by2pg) then 0 else s.cell a)
  pub same : r.1.pages ≡ s.pages

module _ (s : Kmem) (i j : ℕ) (h : i < 4096) (l : j < 32)
    (clear : testbit (s.vis i) j ≡ false) where
  word_of : (i * 64 + j) / 64 ≡ i
  word_of = omega arith

  bit_of : (i * 64 + j) % 64 ≡ j
  bit_of = omega arith

  now_used_lem : testbit ((take_page s i j).1.vis i) j ≡ true
  unfolding take_page
  now_used_lem = ground (arith, testbit-bit_or (s.vis i) (int_bit j) j, testbit-int_bit j l)

  others_lem : (q : ℕ) → is_used s q ≡ true → is_used (take_page s i j).1 q ≡ true
  unfolding take_page
  others_lem q u = ground (arith, testbit-bit_or (s.vis i) (int_bit j) (q % 64))

  zeroed_lem :
      (a : ℕ)
      → a % 8 ≡ 0
      → (take_page s i j).1.cell a
        ≡ (if within a (page2kva (i * 64 + j)) (page2kva (i * 64 + j) + by2pg) then 0 else s.cell a)
  unfolding take_page page2kva
  zeroed_lem a g = bzero-words (page2kva (i * 64 + j)) 512 s.cell a (aligned (i * 64 + j)) g
    where
      aligned : (pp : ℕ) → page2kva pp % 8 ≡ 0
      aligned pp = omega arith

  take_page-Fresh : Fresh s (take_page s i j)
  unfolding take_page
  take_page-Fresh = record {
    in_range = omega arith;
    was_free = rw (word_of, bit_of) clear;
    now_used = rw (word_of, bit_of) now_used_lem;
    others = others_lem;
    zeroed = zeroed_lem;
    same = refl;
  }

-- The page that `page_alloc` returns was free and is marked as used, no used page becomes free,
-- its 4096 bytes are zero, every other word of memory and every descriptor is as before.
pub page_alloc-Fresh :
    (s : Kmem) {pp : ℕ} {t : Kmem} → page_alloc s ≡ some (pp, t) → Fresh s (pp, t)
page_alloc-Fresh s e =
    let found = page_alloc-Taken s e in
    subst (Fresh s) found.result
      (take_page-Fresh s found.word found.bit found.word_in found.bit_in found.clear)

-- A page that `page_alloc` returns lies among the lower 32 of the 64 pages of its bitmap word.
pub page_alloc-low_half :
    (s : Kmem) {pp : ℕ} {t : Kmem} → page_alloc s ≡ some (pp, t) → pp % 64 < 32
unfolding take_page
page_alloc-low_half s e =
    let found = page_alloc-Taken s e in
    let page = ap (λ r. r.0) found.result in omega (arith, found.bit_in, page)
