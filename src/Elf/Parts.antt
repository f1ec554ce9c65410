-- ===== src/Elf/Parts.antt =====
-- What one part of a segment gets (kernel/env.c `load_icode_mapper`): its page, and its bytes there.
use raspberry3_mos.Base.{
  ℕ, ◌+◌, ◌-◌, ◌%◌, ◌^◌, ◌≡◌, ◌≢◌, refl, sym, ◌∙◌, ap, Bool, Option, none, some, true, false, ◌==◌,
  if◌then◌else◌, arith,
}
use raspberry3_mos.Pmap.{Kmem, page2kva, page_alloc}
use raspberry3_mos.Pmap.Zero.{within}
use raspberry3_mos.PageTable.{pte_user, page_lookup, page_insert}
use raspberry3_mos.User.Bytes.Copies.{Apart}
use raspberry3_mos.Elf.{Loading, done, failed}
use raspberry3_mos.Elf.Run.{after, >>=-cong}
use raspberry3_mos.Elf.Pages.{
  byte_at, Fill, copies, zeros, fill_page, new_page, own_page, fill_shared, fill_new,
}
use raspberry3_mos.Elf.Bytes.Copies.{bcopy_lem}
use raspberry3_mos.Elf.Bytes.Zeros.{bzero_lem}

module _ (pgdir : ℕ) where
  module _ (a : ℕ) (k : ℕ → Kmem → Loading Kmem (Unit {0})) (s : Kmem) where
    -- `k` on the page that was allocated, mapped at `a`; on the page that was found there, or a new one
    unfoldable pub fresh_page : Option (ℕ × Kmem) → Loading Kmem (Unit {0})
    fresh_page none = failed 1 s
    fresh_page (some (p, t)) = k p (page_insert pgdir p a pte_user t).1

    unfoldable pub the_page : Option (ℕ × ℕ) → Loading Kmem (Unit {0})
    the_page none = fresh_page (page_alloc s)
    the_page (some (p, pte)) = k p s

    new_page-fresh : after k (new_page pgdir a s) ≡ fresh_page (page_alloc s)
    unfolding new_page
    new_page-fresh = go (page_alloc s)
      where
        go :
            (r : Option (ℕ × Kmem))
            → after k (elim r [
              | none ↦ failed 1 s
              | some (p, t) ↦ done p (page_insert pgdir p a pte_user t).1
            ])
              ≡ fresh_page r
        go none = unfold fresh_page in refl
        go (some (p, t)) = unfold fresh_page in refl

    own_page-the : after k (own_page pgdir a s) ≡ the_page (page_lookup pgdir a s)
    unfolding own_page
    own_page-the = go (page_lookup pgdir a s)
      where
        go :
            (o : Option (ℕ × ℕ))
            → after k (elim o [ none ↦ new_page pgdir a s | some (p, pte) ↦ done p s ]) ≡ the_page o
        go none = unfold the_page in new_page-fresh
        go (some (p, pte)) = unfold the_page in refl

  -- The `len` bytes from `i` on, which lie in one page: where they begin on it the page is a new one, and
  -- otherwise the one that is mapped there, or a new one if there is none. The bytes go to their place in
  -- the page.
  unfoldable pub part : Fill → ℕ → ℕ → ℕ → Kmem → Loading Kmem (Unit {0})
  part fill va i len s =
      let a = (va + i) % 2 ^ 64 in
      the_page a (λ p t. done tt (fill_page fill i (page2kva p + a % 4096) len t)) s
        (if a % 4096 == 0 then none else page_lookup pgdir a s)

  pub part-new :
      (fill : Fill) (va i len : ℕ) (s : Kmem)
      → (va + i) % 4096 ≡ 0
      → part fill va i len s ≡ fill_new pgdir fill va i len s
  unfolding part fill_new the_page
  part-new fill va i len s page =
      let a = (va + i) % 2 ^ 64 in
      let first = λ (p : ℕ) (t : Kmem). done tt (fill_page fill i (page2kva p + a % 4096) len t) in
      let start : (a % 4096 == 0) ≡ true = ground arith in
      let same = λ (p : ℕ) (t : Kmem).
        let place : page2kva p + a % 4096 ≡ page2kva p = omega arith in
        ap (λ (b : ℕ). done tt (fill_page fill i b len t)) place in
      ap (λ (b : Bool). the_page a first s (if b then none else page_lookup pgdir a s)) start
      ∙ sym (new_page-fresh a first s)
      ∙ >>=-cong (new_page pgdir a s) first (λ p t. done tt (fill_page fill i (page2kva p) len t))
          same

  pub part-shared :
      (fill : Fill) (va i len : ℕ) (s : Kmem)
      → (va + i) % 4096 ≢ 0
      → part fill va i len s ≡ fill_shared pgdir fill va i len s
  unfolding part fill_shared
  part-shared fill va i len s page =
      let a = (va + i) % 2 ^ 64 in
      let k = λ (p : ℕ) (t : Kmem). done tt (fill_page fill i (page2kva p + a % 4096) len t) in
      let start : (a % 4096 == 0) ≡ false = ground arith in
      ap (λ (b : Bool). the_page a k s (if b then none else page_lookup pgdir a s)) start
      ∙ sym (own_page-the a k s)

-- The bytes that `fill_page` leaves from `a` on: those of the image `bin` from its byte `i` on, where
-- they lie apart, or zeros. All others are as before.
abbrev pub FillsBytes : ℕ → Type 0
FillsBytes bin =
    (i a len : ℕ) (t : Kmem) (b : ℕ)
    → (Apart (bin + i) a len
        → byte_at (fill_page (copies bin) i a len t).cell b
          ≡ (if within b a (a + len) then byte_at t.cell (bin + i + (b - a)) else byte_at t.cell b))
      × (byte_at (fill_page zeros i a len t).cell b
          ≡ (if within b a (a + len) then 0 else byte_at t.cell b))

pub fill_page-bytes : (bin : ℕ) → FillsBytes bin
unfolding fill_page
fill_page-bytes bin i a len t b =
    ((λ apart. bcopy_lem (bin + i) a len t.cell b apart), bzero_lem a len t.cell b)
