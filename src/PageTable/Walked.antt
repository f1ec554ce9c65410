-- ===== src/PageTable/Walked.antt =====
-- What a successful `page_lookup` and its walk (mm/pmap.c) have seen.
use raspberry3_mos.Base.{ℕ, zero, suc, ◌+◌, ◌≡◌, inl, inr, false, some, Bool-cases, arith}
use raspberry3_mos.Pmap.{Kmem}
use raspberry3_mos.PageTable.{
  is_valid, slot, Walk, entry, no_memory, absent, walk_levels, pgdir_walk, page_lookup, found_page,
  pa2page,
}
use raspberry3_mos.PageTable.Reaches.{Reaches}

-- A walk that creates nothing and ends at an entry has found valid entries on its way.
Reaches-walk_levels :
    (n level va addr pte : ℕ) (s : Kmem)
    → (walk_levels n false level va addr s).0 ≡ entry pte
    → Reaches n level va addr s.cell pte
unfolding walk_levels
Reaches-walk_levels zero level va addr pte s e = cc
Reaches-walk_levels (suc n) level va addr pte s e =
    elim (Bool-cases (is_valid (s.cell (slot addr (level + 1) va)))) [
      | inl on ↦ (on, Reaches-walk_levels n (level + 1) va _ pte s (rw (on, walk_levels) at e))
      | inr off ↦ let clash : absent ≡ entry pte = rw (off, walk_levels) at e in cc
    ]

found_page-some :
    (w : Walk) (pp pte : ℕ) (s : Kmem)
    → found_page w s ≡ some (pp, pte)
    → (w ≡ entry pte) × (pa2page (s.cell pte) ≡ pp)
unfolding found_page
found_page-some (entry p) pp pte s e = ground arith
found_page-some no_memory pp pte s e = cc
found_page-some absent pp pte s e = cc

-- What a successful `page_lookup` has seen.
pub lookup-Reaches :
    (pgdir va pp pte : ℕ) (s : Kmem)
    → page_lookup pgdir va s ≡ some (pp, pte)
    → Reaches 2 0 va pgdir s.cell pte
unfolding page_lookup pgdir_walk
lookup-Reaches pgdir va pp pte s e =
    let seen = found_page-some (walk_levels 2 false 0 va pgdir s).0 pp pte s e in
    Reaches-walk_levels 2 0 va pgdir pte s seen.0
