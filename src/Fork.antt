-- ===== src/Fork.antt =====
-- `fork` (user/fork.c) with its handler of page faults, and `set_pgfault_handler` (user/pgfault.c):
-- the pages of the caller are shared with the child and copied when one of them writes.
pub mod Share
pub mod Loop
pub mod Copy
mod Tests
use raspberry3_mos.Base.{
  ℕ, zero, suc, ◌+◌, ◌-◌, ◌*◌, ◌/◌, ◌%◌, ◌^◌, bit_and, bit_or, Bool, true, false, ◌==◌, not,
  if◌then◌else◌, Option, none, some,
}
use raspberry3_mos.Pmap.{update}
use raspberry3_mos.Env.{ustacktop}
use raspberry3_mos.PageTable.{pte_user}
use raspberry3_mos.Fd.{Pte}
use raspberry3_mos.User.{
  Machine, Result, gives, refuses, panics, M, pure, ◌>>=◌, ◌>>◌, or_panic, pte_ro, pte_library,
  user_perm, has_bit, mem_alloc, mem_map, mem_unmap, set_handler, set_runnable,
}

abbrev pub uxstacktop : ℕ
uxstacktop = 0x7f00000000

-- `user_bcopy` of a page, between two that are mapped
unfoldable pub copy_page : ℕ → ℕ → M (Unit {0})
copy_page src dst m = elim (m.entry 0 (src / 4096)) [
  | none ↦ panics
  | some p ↦ elim (m.entry 0 (dst / 4096)) [
    | none ↦ panics
    | some q ↦ gives tt (record m { bytes = update m.bytes q.frame (m.bytes p.frame) })
  ]
]

-- The entry of the caller for an address has PTE_RO; an entry that is not there reads as 0.
abbrev pub is_read_only : ℕ → Machine → Bool
is_read_only va m = elim (m.entry 0 (va / 4096)) [ none ↦ false | some p ↦ has_bit p.perm pte_ro ]

-- What `pgfault` does for a page at `va`
unfoldable pub replace_page : ℕ → M (Unit {0})
replace_page va = do
  or_panic (mem_alloc 0 ustacktop user_perm)
  copy_page va ustacktop
  or_panic (mem_map 0 ustacktop 0 va user_perm)
  or_panic (mem_unmap 0 ustacktop)

unfoldable pub pgfault : ℕ → M (Unit {0})
pgfault va m = if not (is_read_only va m) then panics else replace_page (va / 4096 * 4096) m

-- The pages that are not libraries'
unfoldable pub protect : ℕ → ℕ → ℕ → M (Unit {0})
protect envid va perm = do
  or_panic (mem_map 0 va envid va (bit_or perm pte_ro))
  if not (has_bit perm pte_ro) then or_panic (mem_map 0 va 0 va (bit_or perm pte_ro)) else pure tt

-- `duppage`, where `perm` is what `GET_PTE_PERM` takes from the entry
unfoldable pub duppage : ℕ → ℕ → ℕ → M (Unit {0})
duppage envid va perm =
    if va == uxstacktop - 4096
    then pure tt
    else if has_bit perm pte_library
    then or_panic (mem_map 0 va envid va perm)
    else protect envid va perm

-- A round of the three loops of `fork`, for the page number `p`, which is `(i << 18) + (j << 9) + k`
unfoldable pub dup_entry : ℕ → ℕ → M (Unit {0})
dup_entry envid p m = if p / 2 ^ 18 == 256 then gives tt m else elim (m.entry 0 p) [
  | none ↦ gives tt m
  | some e ↦ if not (has_bit e.perm pte_user) then gives tt m else duppage envid (p * 4096) e.perm m
]

unfoldable pub dup_pages : ℕ → ℕ → ℕ → M (Unit {0})
dup_pages zero envid p = pure tt
dup_pages (suc n) envid p = do dup_entry envid p; dup_pages n envid (p + 1)

-- `set_pgfault_handler`; `fn` is the address of `__asm_pgfault_handler`. An error is reported, and
-- the handler is not set then.
unfoldable pub set_pgfault_handler : ℕ → M (Unit {0})
set_pgfault_handler fn m =
    if m.pgfault_set
    then gives tt m
    else elim ((mem_alloc 0 (uxstacktop - 4096) user_perm >> set_handler 0 fn uxstacktop) m) [
      | gives x t ↦ gives tt (record t { pgfault_set = true })
      | refuses e t ↦ gives tt t
      | panics ↦ panics
    ]

-- The number of page numbers: 512 entries in each of three levels
abbrev pub space_pages : ℕ
space_pages = 2 ^ 27

unfoldable pub start_child : ℕ → ℕ → M ℕ
start_child fn envid = do
  or_panic (mem_alloc envid (uxstacktop - 4096) user_perm)
  or_panic (set_handler envid fn uxstacktop)
  or_panic (set_runnable envid)
  pure envid

-- `fork`, where `newenvid` is what `syscall_env_alloc` returns
unfoldable pub fork : ℕ → ℕ → M ℕ
fork fn newenvid = do
  set_pgfault_handler fn
  if newenvid == 0 then pure 0 else (do dup_pages space_pages newenvid 0; start_child fn newenvid)
