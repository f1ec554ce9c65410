-- ===== src/Pmap/Free.antt =====
-- `page_free` and `page_decref` (mm/pmap.c), and what a freed page leaves behind.
use raspberry3_mos.Base.{
  ℕ, zero, suc, ◌+◌, ◌-◌, ◌*◌, ◌/◌, ◌%◌, ◌^◌, ◌≤◌, ◌<◌, ◌≡◌, ◌≢◌, refl, subst, ◌∙◌, ap, inl, inr,
  Bool, true, false, ◌&&◌, ◌||◌, none, some, bit_and, ltb, ◌==◌, not, if◌then◌else◌, Bool-cases,
  arith,
}
use raspberry3_mos.Base.Bits.{
  testbit, testbit-bit_and, testbit-bit_or, testbit-zero, testbit-pow, testbit-complement,
  testbit-others, bit_and-pow,
}
use raspberry3_mos.Pmap.{
  Kmem, int_bit, all_ones, free_bit, take_page, page_alloc, page_free, drop_ref, page_decref,
}
use raspberry3_mos.Pmap.Search.{int_bit-low, page_alloc-Taken, alloc_from-none, find_bit-none}
use raspberry3_mos.Pmap.Alloc.{is_used, page_alloc-Fresh, page_alloc-low_half}

or_false : (b : Bool) → (b || false) ≡ b
or_false true = refl
or_false false = refl

or_true : (b : Bool) → (b || true) ≡ true
or_true true = refl
or_true false = refl

-- `page_free` marks the page `pp` as free if nobody refers to it, and otherwise changes nothing;
-- every other page, the descriptors and the words of memory are as before.
pub page_free_lem :
    (s : Kmem) (pp q : ℕ)
    → (is_used (page_free pp s) q
        ≡ (if ((s.pages pp).ref == 0) && (q == pp) then false else is_used s q))
      × ((page_free pp s).pages ≡ s.pages)
      × ((page_free pp s).cell ≡ s.cell)
unfolding page_free
page_free_lem s pp q =
    let others = testbit-others 64 (pp % 64) (q % 64) (omega arith) (omega arith) in
    let word = s.vis (pp / 64) in
    let bits = testbit-bit_and word (all_ones - 2 ^ (pp % 64)) (q % 64) in
    (ground (arith, others, bits), ground arith, ground arith)

-- `page_decref` of a page with a count below 2 ^ 32 takes one reference away, modulo 2 ^ 32, and
-- frees the page exactly when it was the last; other pages stay as they were.
pub page_decref_lem :
    (s : Kmem) (pp q : ℕ)
    → (s.pages pp).ref < 2 ^ 32
    → (is_used (page_decref pp s) q
        ≡ (if ((s.pages pp).ref == 1) && (q == pp) then false else is_used s q))
      × (((page_decref pp s).pages pp).ref ≡ ((s.pages pp).ref + 2 ^ 32 - 1) % 2 ^ 32)
unfolding page_decref drop_ref
page_decref_lem s pp q h =
    let (used, pages, cell) = page_free_lem (drop_ref pp s) pp q in
    (ground (arith, used), ground (arith, pages))

full_word : (k : ℕ) → k < 64 → testbit all_ones k ≡ true
full_word k h = testbit-complement 64 0 k (omega arith) h ∙ ap not (testbit-zero k)

-- `page_alloc` fails only when every page is used, but for those that are last of the lower half
-- of their bitmap word, or lie in the upper half.
pub page_alloc-none :
    (s : Kmem) (pp : ℕ) → page_alloc s ≡ none → pp < 2 ^ 18 → pp % 64 < 31 → is_used s pp ≡ true
unfolding page_alloc free_bit
page_alloc-none s pp e h l =
    elim (alloc_from-none 4096 0 s e (pp / 64) (omega arith) (omega arith)) [
      | inl full ↦ rw full (full_word (pp % 64) (omega arith))
      | inr miss ↦
          let word = s.vis (pp / 64) in
          let met =
            find_bit-none word 64 0 (λ k g. absurd (omega arith)) miss (pp % 64) (omega arith) in
          let met' : (bit_and word (2 ^ (pp % 64)) == 0) ≡ false =
            rw (int_bit-low (pp % 64) l) at met in
          ground (arith, bit_and-pow word (pp % 64))
    ]

take_page-marks :
    (s : Kmem) (i j q : ℕ)
    → j < 64
    → is_used (take_page s i j).1 q ≡ (
        is_used s q
        || ((q / 64 == (take_page s i j).0 / 64)
            && testbit (int_bit ((take_page s i j).0 % 64)) (q % 64)))
unfolding take_page
take_page-marks s i j q h =
    let word : (i * 64 + j) / 64 ≡ i = omega arith in
    let bit : (i * 64 + j) % 64 ≡ j = omega arith in
    rw (word, bit)
      (ground (arith, testbit-bit_or (s.vis i) (int_bit j) (q % 64), or_false (is_used s q)))

-- `page_alloc` adds the bits of its mask to the word of the page that it returns.
page_alloc-marks :
    (s : Kmem) {pp : ℕ} {t : Kmem} (q : ℕ)
    → page_alloc s ≡ some (pp, t)
    → is_used t q ≡ (is_used s q || ((q / 64 == pp / 64) && testbit (int_bit (pp % 64)) (q % 64)))
page_alloc-marks s q e =
    let found = page_alloc-Taken s e in
    subst
      (λ r.
        is_used r.1 q
        ≡ (is_used s q || ((q / 64 == r.0 / 64) && testbit (int_bit (r.0 % 64)) (q % 64))))
      found.result (take_page-marks s found.word found.bit q (omega (arith, found.bit_in)))

every : ℕ → (ℕ → Bool) → Bool
every zero p = true
every (suc n) p = p n && every n p

every-at : (n : ℕ) (p : ℕ → Bool) (k : ℕ) → every n p ≡ true → k < n → p k ≡ true
unfolding every
every-at zero p k h l = absurd (omega arith)
every-at (suc n) p k h l = ground (arith, every-at n p k)

-- The mask of bit 31 reaches to bit 63.
sign_bits : (k : ℕ) → 31 ≤ k → k < 64 → testbit (int_bit 31) k ≡ true
sign_bits k g h = ground (arith, every-at 64 (λ k. ltb k 31 || testbit (int_bit 31) k) k table h)
  where
    table : every 64 (λ k. ltb k 31 || testbit (int_bit 31) k) ≡ true
    table = unfold every testbit int_bit in refl

-- `page_alloc` and then `page_free`, for a page whose count of references was 0 and that is not last
-- of the lower half of its word: the bitmap marks the same pages as before.
pub page_free-page_alloc :
    (s : Kmem) {pp : ℕ} {t : Kmem}
    → page_alloc s ≡ some (pp, t)
    → (s.pages pp).ref ≡ 0
    → pp % 64 ≢ 31
    → (q : ℕ) → is_used (page_free pp t) q ≡ is_used s q
page_free-page_alloc s {pp} {t} e free plain q =
    let fresh = page_alloc-Fresh s e in
    let low : pp % 64 < 31 = omega (arith, page_alloc-low_half s e) in
    let mask : testbit (int_bit (pp % 64)) (q % 64) ≡ (pp % 64 == q % 64) =
      rw (int_bit-low (pp % 64) low) (testbit-pow (pp % 64) (q % 64)) in
    let unref : (t.pages pp).ref ≡ 0 = ap (λ f. (f pp).ref) fresh.same ∙ free in
    elim (Bool-cases (q == pp)) [
      | inl here ↦
          let p : q ≡ pp = ground arith in
          rw p (ground (arith, (page_free_lem t pp pp).0, fresh.was_free))
      | inr other ↦
          ground (arith, (page_free_lem t pp q).0, page_alloc-marks s q e, or_false (is_used s q))
    ]

-- Where `page_alloc` has returned a page that is last of the lower half of its bitmap word and whose
-- count of references was 0, `page_free` makes that page free and changes no other bit of the bitmap,
-- and the 32 pages of the upper half of the word, which `page_alloc` has marked with it, stay marked as
-- used.
pub page_free-leak :
    (s : Kmem) {pp : ℕ} {t : Kmem}
    → page_alloc s ≡ some (pp, t)
    → (s.pages pp).ref ≡ 0
    → pp % 64 ≡ 31
    → (is_used (page_free pp t) pp ≡ false)
      × ((q : ℕ) → q ≢ pp → is_used (page_free pp t) q ≡ is_used t q)
      × ((q : ℕ) → q / 64 ≡ pp / 64 → 32 ≤ q % 64 → is_used (page_free pp t) q ≡ true)
page_free-leak s {pp} {t} e free last =
    let unref : (t.pages pp).ref ≡ 0 = ap (λ f. (f pp).ref) (page_alloc-Fresh s e).same ∙ free in
    (
      ground (arith, (page_free_lem t pp pp).0),
      (λ q ne. ground (arith, (page_free_lem t pp q).0)),
      λ q same upper.
          let mask : testbit (int_bit (pp % 64)) (q % 64) ≡ true =
            rw last (sign_bits (q % 64) (omega arith) (omega arith)) in
          let other : (q == pp) ≡ false = ground arith in
          ground (arith, (page_free_lem t pp q).0, page_alloc-marks s q e, or_true (is_used s q)),
    )
