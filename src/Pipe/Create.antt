-- ===== src/Pipe/Create.antt =====
-- `pipe`, `_pipeisclosed`, `pipeisclosed` and `pipeclose` (user/pipe.c) over the address space of the
-- caller. `r` of `pipe` is a u64, so that its tests of a result for a negative number never hold; the
-- two that compare the result of the call itself make `r` 1.
use raspberry3_mos.Base.{
  ℕ, zero, suc, ◌+◌, ◌-◌, ◌*◌, ◌/◌, ◌%◌, ◌^◌, Bool, true, false, ltb, leb, ◌&&◌, ◌==◌, not,
  if◌then◌else◌, Option, none, some,
}
use raspberry3_mos.Pmap.{update}
use raspberry3_mos.Pmap.Zero.{within}
use raspberry3_mos.Fd.{index2fd, fd2num, fd2data, maxfd}
use raspberry3_mos.User.{
  Machine, gives, refuses, panics, M, pure, ◌>>=◌, ◌>>◌, mem_alloc, mem_map, mem_unmap,
}

-- `VALID | PTE_RW | PTE_LIBRARY | PTE_USER`
abbrev pub pipe_perm : ℕ
pipe_perm = 1 + 2 ^ 55 + 2 ^ 6

abbrev pub dev_pipe : ℕ
dev_pipe = 112

abbrev pub has_page : ℕ → Machine → Bool
has_page va m = elim (m.entry 0 (va / 4096)) [ none ↦ false | some p ↦ true ]

-- `fd_alloc`, with `n` descriptors left
unfoldable pub free_fd : ℕ → ℕ → Machine → Option ℕ
free_fd zero fdno m = none
free_fd (suc n) fdno m =
    let later = free_fd n (fdno + 1) m in
    if not (has_page (index2fd fdno) m) then some (index2fd fdno) else later

-- A u32 stored at an address of the caller
unfoldable pub store_u32 : ℕ → ℕ → M (Unit {0})
store_u32 va v m = elim (m.entry 0 (va / 4096)) [
  | none ↦ panics
  | some p ↦
      let start = va % 4096 in
      let old = m.bytes p.frame in
      gives tt (record m {
        bytes =
            update m.bytes p.frame
              (λ o. if within o start (start + 4) then v / 2 ^ (8 * (o - start)) % 256 else old o);
      })
]

-- A call whose result nothing looks at
abbrev pub drop : M (Unit {0}) → M (Unit {0})
drop call m = elim (call m) [ gives x t ↦ gives tt t | refuses e t ↦ gives tt t | panics ↦ panics ]

-- A page for the descriptor `fd`: `false` where there is no memory
unfoldable pub end_at : ℕ → M (Bool × ℕ)
end_at fd m = elim (mem_alloc 0 fd pipe_perm m) [
  | gives x t ↦ gives (true, fd) t
  | refuses e t ↦ gives (false, fd) t
  | panics ↦ panics
]

-- `*fd` behind `fd_alloc`: where no descriptor is free it keeps the value that it had, `unset`.
abbrev pub fd_or : ℕ → Option ℕ → ℕ
fd_or unset none = unset
fd_or unset (some va) = va

unfoldable pub alloc_end : ℕ → M (Bool × ℕ)
alloc_end unset m = end_at (fd_or unset (free_fd (maxfd - 1) 0 m)) m

-- The fields of the two descriptors: `O_RDONLY` is 0, `O_WRONLY` 1.
unfoldable pub set_ends : ℕ → ℕ → M (Unit {0})
set_ends fd0 fd1 = do
  store_u32 fd0 dev_pipe
  store_u32 (fd0 + 16) 0
  store_u32 fd1 dev_pipe
  store_u32 (fd1 + 16) 1

-- The ring, and the descriptors
unfoldable pub join_ends : ℕ → ℕ → M (Option (ℕ × ℕ))
join_ends fd0 fd1 = do
  drop (mem_alloc 0 (fd2data fd0) pipe_perm)
  drop (mem_map 0 (fd2data fd0) 0 (fd2data fd1) pipe_perm)
  set_ends fd0 fd1
  pure (some (fd2num fd0, fd2num fd1))

-- `pipe`: the two numbers for the result 0, and `none` for the result 1
unfoldable pub pipe : ℕ → ℕ → M (Option (ℕ × ℕ))
pipe unset0 unset1 = do
  first ← alloc_end unset0
  if not first.0 then pure none else (do
    second ← alloc_end unset1
    if not second.0 then drop (mem_unmap 0 first.1) >> pure none else join_ends first.1 second.1)

-- A look at the two reference counts, between two readings of `env_runs`
pub record Look : Type 0 where
  pub runs : ℕ
  pub fdref : ℕ
  pub pref : ℕ
  pub runs_after : ℕ

-- The loop of `_pipeisclosed`, which looks again where the environment has run on in between
unfoldable pub is_closed : ℕ → (ℕ → Look) → ℕ → Option Bool
is_closed zero look t = none
is_closed (suc n) look t =
    let again = is_closed n look (t + 1) in
    if (look t).runs == (look t).runs_after then some ((look t).fdref == (look t).pref) else again

-- `pipeisclosed`, where an error of `fd_lookup` is the result 1 of the comparison
unfoldable pub pipeisclosed : ℕ → (ℕ → Look) → ℕ → Machine → Option Bool
pipeisclosed n look fdnum m =
    if leb maxfd fdnum && ltb fdnum (2 ^ 31)
    then some true
    else if not (has_page (index2fd fdnum) m)
    then some true
    else is_closed n look 0

-- `pipeclose`
unfoldable pub pipeclose : ℕ → M (Unit {0})
pipeclose fd = drop (mem_unmap 0 fd) >> drop (mem_unmap 0 (fd2data fd))
