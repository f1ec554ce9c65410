-- ===== src/Spawn/Load.antt =====
-- `usr_load_elf` (user/spawn.c): the pages of a segment, filled through the page `BUFPAGE` of the caller.
-- `read o n` is what `seek` to the byte `o` and `readn` of `n` bytes leave in `buf`, or the negative of
-- their error. `i` is an int, kept as its 32-bit word: where it is added to or compared with a u64,
-- `as_u64` extends its sign, so that a loop over a size below 2 ^ 64 - 2 ^ 31 ends at the latest when
-- `i` is 2 ^ 31 or more. Each round but the last adds a page, so it takes fewer than 2 ^ 20 rounds; a
-- loop that takes more counts as a panic.
use raspberry3_mos.Base.{
  ℕ, zero, suc, ◌+◌, ◌-◌, ◌/◌, ◌%◌, ◌^◌, ◌⊎◌, inl, inr, ltb, if◌then◌else◌, none, some,
}
use raspberry3_mos.Pmap.{update}
use raspberry3_mos.Pmap.Zero.{within}
use raspberry3_mos.Elf.Pages.{sum64, page_offset, min, rounds}
use raspberry3_mos.Serve.{as_u64}
use raspberry3_mos.User.{
  gives, refuses, panics, M, pure, ◌>>=◌, ◌>>◌, user_perm, mem_alloc, mem_map, mem_unmap,
}

-- The fields of a `Phdr` that are used
pub record Program : Type 0 where
  pub vaddr : ℕ
  pub memsz : ℕ
  pub filesz : ℕ
  pub offset : ℕ

abbrev pub bufpage : ℕ
bufpage = 4096

-- `user_bcopy` and `user_bzero` to the page that is mapped at `BUFPAGE`: `size` bytes from `start` on
unfoldable pub put_range : (ℕ → ℕ) → ℕ → ℕ → M (Unit {0})
put_range buf start size m = elim (m.entry 0 (bufpage / 4096)) [
  | none ↦ panics
  | some p ↦
      let old = m.bytes p.frame in
      gives tt (record m {
        bytes =
            update m.bytes p.frame
              (λ o. if within o start (start + size) then buf (o - start) else old o);
      })
]

-- The page of the child at `va`, changed through `BUFPAGE`
unfoldable pub change_page : ℕ → ℕ → (ℕ → ℕ) → ℕ → ℕ → M (Unit {0})
change_page child va buf start size = do
  mem_map child va 0 bufpage user_perm
  put_range buf start size
  mem_unmap 0 bufpage

module _ (read : ℕ → ℕ → ℕ ⊎ (ℕ → ℕ)) (child : ℕ) where
  unfoldable pub read_file : ℕ → ℕ → M (ℕ → ℕ)
  read_file o n m = elim (read o n) [ inl e ↦ refuses e m | inr buf ↦ gives buf m ]

  -- A new page with `size` bytes of the file from `start` on
  unfoldable pub load_page : ℕ → ℕ → ℕ → ℕ → M (Unit {0})
  load_page va o start size =
      mem_alloc child va user_perm
      >> (read_file o size >>= λ buf. change_page child va buf start size)

  unfoldable pub load_first : Program → M ℕ
  load_first ph =
      let start = page_offset (sum64 ph.vaddr 0) in
      let size = min ph.filesz (4096 - start) in
      if ltb 0 start then load_page ph.vaddr ph.offset start size >> pure size else pure 0

  -- `i += size`
  abbrev pub add_int : ℕ → ℕ → ℕ
  add_int i size = (i + size) % 2 ^ 32

  unfoldable pub load_rest : ℕ → Program → ℕ → M ℕ
  load_rest zero ph i m = if ltb (as_u64 i) ph.filesz then panics else gives i m
  load_rest (suc n) ph i m =
      let size = min (ph.filesz - as_u64 i) 4096 in
      let next =
        (load_page (sum64 ph.vaddr (as_u64 i)) (sum64 ph.offset (as_u64 i)) 0 size
            >> load_rest n ph (add_int i size))
          m in
      if ltb (as_u64 i) ph.filesz then next else gives i m

  unfoldable pub clear_edge : Program → ℕ → M ℕ
  clear_edge ph i =
      let va = sum64 ph.vaddr (as_u64 i) in
      let start = page_offset va in
      let size = min ((ph.memsz + 2 ^ 64 - as_u64 i) % 2 ^ 64) (4096 - start) in
      if ltb 0 start
      then change_page child va (λ o. 0) start size >> pure (add_int i size)
      else pure i

  unfoldable pub clear_rest : ℕ → Program → ℕ → M (Unit {0})
  clear_rest zero ph i m = if ltb (as_u64 i) ph.memsz then panics else gives tt m
  clear_rest (suc n) ph i m =
      let size = min 4096 (ph.memsz - as_u64 i) in
      let next =
        (mem_alloc child (sum64 ph.vaddr (as_u64 i)) user_perm >> clear_rest n ph (add_int i size))
          m in
      if ltb (as_u64 i) ph.memsz then next else gives tt m

  unfoldable pub usr_load_elf : Program → M (Unit {0})
  usr_load_elf ph = do
    first ← load_first ph
    i ← load_rest rounds ph first
    j ← clear_edge ph i
    clear_rest rounds ph j
