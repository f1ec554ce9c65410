-- ===== src/PageTable/Tests.antt =====
-- Mapping and unmapping a page below an empty directory.
use raspberry3_mos.Base.{
  ℕ, ◌+◌, ◌-◌, ◌*◌, ◌%◌, ◌^◌, ◌≡◌, refl, Bool, true, false, ◌&&◌, none, some, inl, inr, ◌==◌,
  if◌then◌else◌, arith,
}
use raspberry3_mos.Base.Bits.{testbit}
use raspberry3_mos.Pmap.{
  Kmem, find_bit, free_bit, take_page, alloc_from, page_alloc, add_ref, page2kva, bzero,
}
use raspberry3_mos.Pmap.Alloc.{is_used}
use raspberry3_mos.PageTable.{
  page_insert, page_lookup, page_remove, map_page, pgdir_walk, walk_levels, link_table, write_entry,
  found_page, slot, level_index, kaddr, pte_addr, pa2page,
}
use raspberry3_mos.PageTable.Create.{Sound, Descriptors}
use raspberry3_mos.PageTable.Insert.{Inserted, page_lookup-page_insert}
use raspberry3_mos.PageTable.Remove.{page_lookup-page_remove}

-- Pages 0 to 4 are used; page 4 is an empty page directory.
abbrev empty_dir : Kmem
empty_dir = record {
  vis = λ i. if i == 0 then 31 else 0;
  pages = λ i. record { pa = i * 4096 + 0x703; ref = 0 };
  cell = λ a. 0;
}

-- The same with tables 5 and 6 that map the address 0x80000000 to page 3.
abbrev mapped_dir : Kmem
mapped_dir = record {
  vis = λ i. if i == 0 then 127 else 0;
  pages = λ i. record { pa = i * 4096 + 0x703; ref = 1 };
  cell = λ a.
      if a == 0xffffff8000004010
      then 0x5743
      else if a == 0xffffff8000005000
      then 0x6743
      else if a == 0xffffff8000006000
      then 0x3703
      else 0;
}

Descriptors-empty : Descriptors empty_dir
Descriptors-empty q h = record { frame_bits = omega arith; valid_bit = omega arith; small = h }

Descriptors-mapped : Descriptors mapped_dir
Descriptors-mapped q h = record { frame_bits = omega arith; valid_bit = omega arith; small = h }

abbrev inserted : Bool × Kmem
inserted = page_insert (page2kva 4) 3 0x80000000 0 empty_dir

lookup_empty : page_lookup (page2kva 4) 0x80000000 empty_dir ≡ none
unfolding page_lookup pgdir_walk walk_levels slot level_index page2kva found_page
lookup_empty = refl

insert_runs : inserted ≡ (true, inserted.1)
unfolding page_insert map_page pgdir_walk walk_levels slot level_index page2kva page_lookup
    found_page page_alloc alloc_from free_bit find_bit take_page link_table bzero kaddr pte_addr
    add_ref write_entry
insert_runs = refl

lookup_mapped : page_lookup (page2kva 4) 0x80000000 mapped_dir ≡ some (3, 0xffffff8000006000)
unfolding page_lookup pgdir_walk walk_levels slot level_index page2kva found_page kaddr pte_addr
    pa2page
lookup_mapped = refl

Sound-empty : Sound 2 0 0x80000000 4 empty_dir (λ g. false)
unfolding testbit
Sound-empty = (refl, refl, λ on. cc)

Sound-mapped : Sound 2 0 0x80000000 4 mapped_dir (λ g. false)
unfolding testbit slot level_index page2kva
Sound-mapped = (refl, refl, λ on. (refl, refl, λ on. (refl, refl)))

abbrev inserted_again : Bool × Kmem
inserted_again = page_insert (page2kva 4) 3 0x80000000 0x40 mapped_dir

insert_again_runs : inserted_again ≡ (true, inserted_again.1)
unfolding page_insert map_page pgdir_walk walk_levels slot level_index page2kva page_lookup
    found_page kaddr pte_addr pa2page write_entry
insert_again_runs = refl

page_lookup-page_insert_example :
    Inserted 4 3 0x80000000 0x40
      (page_lookup (page2kva 4) 0x80000000 mapped_dir)
      mapped_dir
      inserted_again.1
unfolding testbit
page_lookup-page_insert_example =
    page_lookup-page_insert 4 3 0x80000000 0x40 mapped_dir inserted_again.1 Descriptors-mapped
      Sound-mapped refl (omega arith) refl (inr (0xffffff8000006000, lookup_mapped))
      insert_again_runs

-- The same where nothing is mapped.
insert_empty :
    Inserted 4 3 0x80000000 0 (page_lookup (page2kva 4) 0x80000000 empty_dir) empty_dir inserted.1
unfolding testbit
insert_empty =
    page_lookup-page_insert 4 3 0x80000000 0 empty_dir inserted.1 Descriptors-empty Sound-empty refl
      (omega arith) refl (inl lookup_empty) insert_runs

page_lookup-page_remove_example :
    (page_lookup (page2kva 4) 0x80000000 (page_remove (page2kva 4) 0x80000000 mapped_dir) ≡ none)
    × ((page_remove (page2kva 4) 0x80000000 mapped_dir).cell 0xffffff8000006000 ≡ 0)
    × ((q : ℕ)
        → is_used (page_remove (page2kva 4) 0x80000000 mapped_dir) q
          ≡ (if ((mapped_dir.pages 3).ref == 1) && (q == 3) then false else is_used mapped_dir q))
    × (((page_remove (page2kva 4) 0x80000000 mapped_dir).pages 3).ref
        ≡ ((mapped_dir.pages 3).ref + 2 ^ 32 - 1) % 2 ^ 32)
page_lookup-page_remove_example =
    page_lookup-page_remove 4 3 0x80000000 0xffffff8000006000 mapped_dir Descriptors-mapped
      Sound-mapped lookup_mapped (omega arith)
