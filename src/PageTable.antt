-- ===== src/PageTable.antt =====
-- Page tables (mm/pmap.c): the walk of the three levels, and the functions that map, look up and
-- unmap a page. A pointer into a table is the kernel address of its 64-bit entry; 0 is the null
-- pointer. The flush of the TLB changes nothing that is modelled.
pub mod Frames
pub mod Reaches
pub mod Create
pub mod Walked
pub mod Insert
pub mod Remove
mod Tests
use raspberry3_mos.Base.{
  ℕ, zero, suc, ◌+◌, ◌*◌, ◌/◌, ◌%◌, ◌^◌, bit_and, bit_or, Bool, true, false, ◌&&◌, ◌||◌, Option,
  none, some, ltb, ◌==◌, not, if◌then◌else◌,
}
use raspberry3_mos.Pmap.{
  Page, Kmem, update, kernbase, by2pg, page_alloc, page_free, drop_ref, add_ref,
}

abbrev pub valid : ℕ
valid = 1

abbrev pub table : ℕ
table = 2

abbrev pub pte_user : ℕ
pte_user = 0x40

-- `(*addr) & VALID`
abbrev pub is_valid : ℕ → Bool
is_valid entry = not (bit_and entry valid == 0)

-- `PTE_ADDR`, `KADDR` and `pa2page`
unfoldable pub pte_addr : ℕ → ℕ
pte_addr pte = bit_and pte 0x3ffff000

unfoldable pub kaddr : ℕ → ℕ
kaddr pa = (pa + kernbase) % 2 ^ 64

unfoldable pub pa2page : ℕ → ℕ
pa2page pa = pa % 2 ^ 32 / 2 ^ 12

-- `GET_L1_INDEX`, `GET_L2_INDEX` and `GET_L3_INDEX`
unfoldable pub level_index : ℕ → ℕ → ℕ
level_index level va =
    if level == 1
    then va / 2 ^ 30 % 512
    else if level == 2
    then va / 2 ^ 21 % 512
    else va / 2 ^ 12 % 512

-- The entry of table `addr` for `va`; a table is an array of u64.
unfoldable pub slot : ℕ → ℕ → ℕ → ℕ
slot addr level va = addr + 8 * level_index level va

-- How `pgdir_walk` ends: with -1, with `*ppte = 0`, or with the address of the entry.
pub data Walk : Type 0 where
  no_memory : Walk
  absent : Walk
  entry : ℕ → Walk

-- `(*addr) = pp->pa; if (va < KERNBASE) (*addr) |= PTE_USER; pp->ref++;`
unfoldable pub link_table : ℕ → ℕ → ℕ → Kmem → Kmem
link_table va addr pp s =
    let pa = (s.pages pp).pa in
    let value = if ltb va kernbase then bit_or pa pte_user else pa in
    add_ref pp (record s { cell = update s.cell addr value })

-- The loop of `pgdir_walk` with `n` levels left, and the step to the last level.
unfoldable pub walk_levels : ℕ → Bool → ℕ → ℕ → ℕ → Kmem → Walk × Kmem
walk_levels zero create level va addr s = (entry (slot addr 3 va), s)
walk_levels (suc n) create level va addr s =
    let here = slot addr (level + 1) va in
    elim (is_valid (s.cell here)) [
      | true ↦ walk_levels n create (level + 1) va (kaddr (pte_addr (s.cell here))) s
      | false ↦ elim create [
        | false ↦ (absent, s)
        | true ↦ elim (page_alloc s) [
          | none ↦ (no_memory, s)
          | some (pp, t) ↦
              let u = link_table va here pp t in
              walk_levels n true (level + 1) va (kaddr (pte_addr (u.cell here))) u
        ]
      ]
    ]

unfoldable pub pgdir_walk : ℕ → ℕ → Bool → Kmem → Walk × Kmem
pgdir_walk pgdir va create s = walk_levels 2 create 0 va pgdir s

-- The page that `va` is mapped to, and the address of its entry.
unfoldable pub found_page : Walk → Kmem → Option (ℕ × ℕ)
found_page no_memory s = none
found_page absent s = none
found_page (entry pte) s =
    if (pte == 0) || not (is_valid (s.cell pte)) then none else some (pa2page (s.cell pte), pte)

-- `page_lookup`; a walk that creates nothing leaves the state alone.
unfoldable pub page_lookup : ℕ → ℕ → Kmem → Option (ℕ × ℕ)
unfolding found_page
page_lookup pgdir va s = found_page (pgdir_walk pgdir va false s).0 s

unfoldable pub page_remove : ℕ → ℕ → Kmem → Kmem
page_remove pgdir va s = elim (page_lookup pgdir va s) [
  | none ↦ s
  | some (pp, pte) ↦
      let freed = page_free pp (drop_ref pp s) in record freed { cell = update freed.cell pte 0 }
]

unfoldable pub write_entry : ℕ → ℕ → ℕ → Kmem → Kmem
write_entry pte pp perm s = record s {
  cell = update s.cell pte (bit_or (s.pages pp).pa (bit_or perm valid));
}

-- The end of `page_insert`: the new entry and the reference, or -1 where the walk fails. A walk
-- that creates tables never ends with `absent`.
unfoldable pub finish_map : ℕ → ℕ → Walk × Kmem → Bool × Kmem
finish_map pp perm (entry pte, t) = (true, add_ref pp (write_entry pte pp perm t))
finish_map pp perm (no_memory, t) = (false, t)
finish_map pp perm (absent, t) = (false, t)

unfoldable pub map_page : ℕ → ℕ → ℕ → ℕ → Kmem → Bool × Kmem
unfolding finish_map
map_page pgdir pp va perm s = finish_map pp perm (pgdir_walk pgdir va true s)

-- `page_insert`; `true` is the return value 0 and `false` is -1. Its first walk and the tests after
-- it are those of `page_lookup`.
unfoldable pub page_insert : ℕ → ℕ → ℕ → ℕ → Kmem → Bool × Kmem
page_insert pgdir pp va perm s = elim (page_lookup pgdir va s) [
  | none ↦ map_page pgdir pp va perm s
  | some (old, pte) ↦
      if old == pp
      then (true, write_entry pte pp perm s)
      else map_page pgdir pp va perm (page_remove pgdir va s)
]

-- `page_out`, which maps a page at the address of a fault. `none` is a panic.
unfoldable pub fault_table : ℕ → ℕ → ℕ → ℕ
fault_table user_pgdir kern_pgdir va =
    if bit_and va (2 ^ 39) == 0
    then (user_pgdir + kernbase) % 2 ^ 64
    else (kern_pgdir + kernbase) % 2 ^ 64

-- The entry that `page_out` writes at each level that lacks one.
unfoldable pub fill_entry : ℕ → ℕ → ℕ → Kmem → Kmem
fill_entry va addr pp s =
    let perm = if ltb va kernbase then pte_user else 0 in
    let t = add_ref pp s in
    record t {
      cell = update t.cell addr (bit_or (bit_or (bit_or (t.pages pp).pa table) valid) perm);
    }

-- `(!((*addr) & VALID)) || (level == 3 && va < KERNBASE && (!((*addr) & PTE_USER)))`
unfoldable pub lacks_entry : ℕ → ℕ → ℕ → Bool
lacks_entry level va value =
    not (is_valid value) || ((level == 3) && (ltb va kernbase && (bit_and value pte_user == 0)))

unfoldable pub fill_levels : ℕ → ℕ → ℕ → ℕ → Kmem → Option Kmem
fill_levels zero level va addr s = some s
fill_levels (suc n) level va addr s =
    let here = slot addr (level + 1) va in
    elim (lacks_entry (level + 1) va (s.cell here)) [
      | false ↦ fill_levels n (level + 1) va (kaddr (pte_addr (s.cell here))) s
      | true ↦ elim (page_alloc s) [
        | none ↦ none
        | some (pp, t) ↦
            let u = fill_entry va here pp t in
            fill_levels n (level + 1) va (kaddr (pte_addr (u.cell here))) u
      ]
    ]

unfoldable pub page_out : ℕ → ℕ → ℕ → Kmem → Option Kmem
page_out user_pgdir kern_pgdir va s =
    if ltb (bit_and va 0x7fffffffff) by2pg
    then none
    else fill_levels 3 0 va (fault_table user_pgdir kern_pgdir va) s
