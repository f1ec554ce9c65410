-- ===== src/PageTable/Remove.antt =====
-- `page_remove`, and `page_lookup` behind it.
use raspberry3_mos.Base.{
  ℕ, ◌+◌, ◌-◌, ◌%◌, ◌<◌, ◌^◌, ◌≡◌, true, false, ◌&&◌, none, some, ◌==◌, if◌then◌else◌, arith,
}
use raspberry3_mos.Pmap.{Kmem, update, page2kva, page_free, drop_ref, page_decref}
use raspberry3_mos.Pmap.Alloc.{is_used}
use raspberry3_mos.Pmap.Free.{page_free_lem, page_decref_lem}
use raspberry3_mos.PageTable.{pgdir_walk, page_lookup, found_page, page_remove}
use raspberry3_mos.PageTable.Reaches.{Reaches, walk_levels-Reaches, Reaches-update}
use raspberry3_mos.PageTable.Create.{Sound, Descriptors}
use raspberry3_mos.PageTable.Insert.{pgdir_walk-Walked}
use raspberry3_mos.PageTable.Walked.{lookup-Reaches}

-- A path through valid entries that ends at an entry with no VALID bit.
lookup-invalid :
    (pgdir va pte : ℕ) (s : Kmem)
    → Reaches 2 0 va pgdir s.cell pte
    → s.cell pte ≡ 0
    → page_lookup pgdir va s ≡ none
unfolding page_lookup pgdir_walk found_page
lookup-invalid pgdir va pte s r zero_entry =
    let walked = walk_levels-Reaches 2 0 va pgdir pte s false r in
    rw walked (rw zero_entry (ground arith))

-- `page_remove` of a mapped address, whose page has a count of references below 2 ^ 32: `page_lookup`
-- then finds nothing there, the entry is 0, the page's count is one lower modulo 2 ^ 32, the page is
-- free if the count was 1, and otherwise it and every other page are used exactly if they were. The
-- tables on the way are allocated frames, each another one than those before it, and the descriptors
-- name their frames.
pub page_lookup-page_remove :
    (f pp va pte : ℕ) (s : Kmem)
    → Descriptors s
    → Sound 2 0 va f s (λ g. false)
    → page_lookup (page2kva f) va s ≡ some (pp, pte)
    → (s.pages pp).ref < 2 ^ 32
    → (page_lookup (page2kva f) va (page_remove (page2kva f) va s) ≡ none)
      × ((page_remove (page2kva f) va s).cell pte ≡ 0)
      × ((q : ℕ)
          → is_used (page_remove (page2kva f) va s) q
            ≡ (if ((s.pages pp).ref == 1) && (q == pp) then false else is_used s q))
      × (((page_remove (page2kva f) va s).pages pp).ref ≡ ((s.pages pp).ref + 2 ^ 32 - 1) % 2 ^ 32)
unfolding page_remove page_decref drop_ref pgdir_walk
page_lookup-page_remove f pp va pte s d sound e h =
    let path = lookup-Reaches (page2kva f) va pp pte s e in
    let walked = walk_levels-Reaches 2 0 va (page2kva f) pte s true path in
    let w = pgdir_walk-Walked f pte va s s d sound walked in
    let freed = page_free pp (drop_ref pp s) in
    let left : Kmem = record freed { cell = update freed.cell pte 0 } in
    let same : freed.cell ≡ s.cell = (page_free_lem (drop_ref pp s) pp pp).2 in
    let kept : Reaches 2 0 va (page2kva f) (update freed.cell pte 0) pte =
      rw same (Reaches-update 2 0 va (page2kva f) pte s.cell pte 0 path w.off) in
    let result : page_remove (page2kva f) va s ≡ left = rw (e, page_remove) in
    let cleared : left.cell pte ≡ 0 = ground arith in
    rw result (
      lookup-invalid (page2kva f) va pte left kept cleared,
      cleared,
      (λ q. (page_decref_lem s pp q h).0),
      (page_decref_lem s pp pp h).1,
    )
