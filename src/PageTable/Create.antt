-- ===== src/PageTable/Create.antt =====
-- A walk that creates the tables that are missing: where it leads, and what it leaves alone.
use raspberry3_mos.Base.{
  ℕ, zero, suc, ◌+◌, ◌%◌, ◌^◌, ◌<◌, ◌≡◌, ◌≢◌, ap, Bool, true, false, ◌||◌, bit_or, ltb, ◌==◌,
  if◌then◌else◌, arith,
}
use raspberry3_mos.Pmap.{Kmem, kernbase, page2kva, add_ref, by2pg}
use raspberry3_mos.Pmap.Alloc.{is_used, Fresh}
use raspberry3_mos.Pmap.Zero.{within}
use raspberry3_mos.PageTable.{is_valid, slot, link_table, pte_user}
use raspberry3_mos.PageTable.Frames.{
  frame, is_valid-odd, InFrame, IsDescriptor, frame-pa, frame-user, odd-user,
}
use raspberry3_mos.PageTable.Reaches.{Reaches, OffPath}

-- The frames that a walk has passed, and one more.
abbrev pub add : ℕ → (ℕ → Bool) → ℕ → Bool
add f seen g = (g == f) || seen g

-- The tables that a walk from frame `f` finds are allocated frames, each another one than those
-- before it.
abbrev pub Sound : ℕ → ℕ → ℕ → ℕ → Kmem → (ℕ → Bool) → Type 0
Sound zero level va f s seen = (is_used s f ≡ true) × (seen f ≡ false)
Sound (suc n) level va f s seen =
    (is_used s f ≡ true)
    × (seen f ≡ false)
    × (is_valid (s.cell (slot (page2kva f) (level + 1) va)) ≡ true
        → Sound n (level + 1) va (frame (s.cell (slot (page2kva f) (level + 1) va))) s (add f seen))

-- Every descriptor names its own frame.
abbrev pub Descriptors : Kmem → Type 0
Descriptors s = (q : ℕ) → q < 2 ^ 18 → IsDescriptor q (s.pages q).pa

pub record Walked (n level va f pte : ℕ) (s t : Kmem) (seen : ℕ → Bool) : Type 0 where
  pub reaches : Reaches n level va (page2kva f) t.cell pte
  pub off : OffPath n level va (page2kva f) t.cell pte
  pub last : ℕ
  pub last_new : seen last ≡ false
  pub last_in : InFrame last pte
  pub kept : (g : ℕ) → seen g ≡ true → (a : ℕ) → InFrame g a → t.cell a ≡ s.cell a
  pub same_pa : (q : ℕ) → (t.pages q).pa ≡ (s.pages q).pa
  pub same_ref : (q : ℕ) → is_used s q ≡ true → (t.pages q).ref ≡ (s.pages q).ref

-- What a table that `pgdir_walk` has just made looks like.
pub record Linked (va here pp : ℕ) (s u : Kmem) : Type 0 where
  pub names : frame (u.cell here) ≡ pp
  pub is_on : is_valid (u.cell here) ≡ true
  pub pages : (q : ℕ) → (u.pages q).pa ≡ (s.pages q).pa
  pub refs : (q : ℕ) → q ≢ pp → (u.pages q).ref ≡ (s.pages q).ref
  pub used : is_used u pp ≡ true
  pub was_free : is_used s pp ≡ false
  pub others : (q : ℕ) → is_used s q ≡ true → is_used u q ≡ true
  pub empty : (a : ℕ) → a ≢ here → InFrame pp a → u.cell a ≡ 0
  pub kept : (g a : ℕ) → a ≢ here → g ≢ pp → InFrame g a → u.cell a ≡ s.cell a

value-frame :
    (pp pa : ℕ) (b : Bool) → IsDescriptor pp pa → frame (if b then bit_or pa pte_user else pa) ≡ pp
value-frame pp pa true d = frame-user d
value-frame pp pa false d = frame-pa d

value-odd :
    (pp pa : ℕ) (b : Bool) → IsDescriptor pp pa → (if b then bit_or pa pte_user else pa) % 2 ≡ 1
value-odd pp pa true d = odd-user d
value-odd pp pa false d = d.valid_bit

outside : (g pp a : ℕ) → g ≢ pp → InFrame g a → within a (page2kva pp) (page2kva pp + by2pg) ≡ false
unfolding page2kva
outside g pp a ne h = ground arith

pub link_table-Linked :
    (va here pp : ℕ) (s t : Kmem)
    → Descriptors s
    → Fresh s (pp, t)
    → Linked va here pp s (link_table va here pp t)
unfolding link_table add_ref
link_table-Linked va here pp s t d fresh =
    let pas : (q : ℕ) → (t.pages q).pa ≡ (s.pages q).pa = λ q. ap (λ f. (f q).pa) fresh.same in
    let own : IsDescriptor pp (t.pages pp).pa = rw (pas pp) (d pp fresh.in_range) in
    record {
      names = ground (arith, value-frame pp (t.pages pp).pa (ltb va kernbase) own);
      is_on = ground (
        arith,
        is_valid-odd (if ltb va kernbase then bit_or (t.pages pp).pa pte_user else (t.pages pp).pa)
            (value-odd pp (t.pages pp).pa (ltb va kernbase) own),
      );
      pages = λ q. ground (arith, pas q, pas pp);
      refs = λ q ne. ground (arith, ap (λ h. (h q).ref) fresh.same);
      used = fresh.now_used;
      was_free = fresh.was_free;
      others = fresh.others;
      empty = λ a ne h. ground (arith, fresh.zeroed a h.2);
      kept = λ g a ne other h. ground (arith, fresh.zeroed a h.2, outside g pp a other h);
    }
