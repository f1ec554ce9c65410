-- ===== src/Fd/Calls.antt =====
-- Reading, writing and copying of descriptors (user/fd.c).
use raspberry3_mos.Base.{
  ℕ, zero, suc, ◌+◌, ◌-◌, ◌*◌, ◌/◌, ◌%◌, ◌^◌, bit_and, ltb, ◌==◌, if◌then◌else◌, none, some, List,
  [],
}
use raspberry3_mos.Pmap.{update}
use raspberry3_mos.Fs.{e_inval}
use raspberry3_mos.Fd.{
  Proc, Result, returns, fails, aborts, unfinished, Stat, Dev, index2fd, fd2data, map_mask, ◌>>=◌,
  fd_at, set_fd, mem_unmap, mem_map, fd_lookup, lookup, close, ignore,
}

-- The pages of a descriptor's data, `PDMAP / BY2PG`, 512 in each of 512 tables
abbrev pub data_pages : ℕ
data_pages = 512 * 512

abbrev pub o_accmode : ℕ
o_accmode = 3

abbrev pub o_rdonly : ℕ
o_rdonly = 0

abbrev pub o_wronly : ℕ
o_wronly = 1

module _ {W : Type 0} where
  -- `pte & (VALID | PTE_RW | PTE_LIBRARY | PTE_USER)`
  abbrev pub perm_of : ℕ → Proc W → ℕ
  perm_of va s = elim (s.page (va / 4096)) [ none ↦ 0 | some p ↦ bit_and p.perm map_mask ]

  -- A page of the loops of `dup`, if it is mapped; the result of `syscall_mem_map` is dropped.
  unfoldable pub copy_page : ℕ → ℕ → Proc W → Result W (Unit {0})
  copy_page ova nva s = elim (s.page (ova / 4096)) [
    | none ↦ returns tt s
    | some p ↦ ignore (mem_map ova nva (bit_and p.perm map_mask)) s
  ]

  -- The two loops of `dup`, with `n` pages left
  unfoldable pub copy_pages : ℕ → ℕ → ℕ → Proc W → Result W (Unit {0})
  copy_pages zero ova nva = returns tt
  copy_pages (suc n) ova nva = do x ← copy_page ova nva; copy_pages n (ova + 4096) (nva + 4096)

  unfoldable pub unmap_pages : ℕ → ℕ → Proc W → Proc W
  unmap_pages zero va s = s
  unmap_pages (suc n) va s = unmap_pages n (va + 4096) (mem_unmap va s)

  -- The end of `dup`
  unfoldable pub share_fd : ℕ → ℕ → ℕ → ℕ → Proc W → Result W ℕ
  share_fd oldfd newfd nva newfdnum s = elim (mem_map oldfd newfd (perm_of oldfd s) s) [
    | returns x t ↦ returns newfdnum t
    | fails e t ↦ fails e (unmap_pages data_pages nva (mem_unmap newfd t))
    | aborts ↦ aborts
    | unfinished ↦ unfinished
  ]

  unfoldable pub dup : List (Dev W) → ℕ → ℕ → Proc W → Result W ℕ
  dup devtab oldfdnum newfdnum = do
    oldfd ← fd_lookup oldfdnum
    x ← ignore (close devtab newfdnum)
    y ← copy_pages data_pages (fd2data oldfd) (fd2data (index2fd newfdnum))
    share_fd oldfd (index2fd newfdnum) (fd2data (index2fd newfdnum)) newfdnum

  -- `fd->fd_offset += r` where `r` is positive
  unfoldable pub advance : ℕ → ℕ → Proc W → Proc W
  advance fd r s =
      let v = fd_at fd s in
      if r == 0 then s else set_fd fd (record v { fd_offset = (v.fd_offset + r) % 2 ^ 64 }) s

  -- `((char *)buf)[r] = '\0'`
  unfoldable pub put_nul : ℕ → Proc W → Proc W
  put_nul a s = record s { mem = update s.mem (a % 2 ^ 64) 0 }

  unfoldable pub read_dev : ℕ → Dev W → ℕ → ℕ → Proc W → Result W ℕ
  read_dev fd dev buf n s =
      elim (dev.dev_read fd buf (n % 2 ^ 32) ((fd_at fd s).fd_offset % 2 ^ 32) s) [
        | returns r t ↦ returns r (put_nul (buf + r) (advance fd r t))
        | fails e t ↦ fails e (put_nul (buf + (2 ^ 64 - e)) t)
        | aborts ↦ aborts
        | unfinished ↦ unfinished
      ]

  unfoldable pub read : List (Dev W) → ℕ → ℕ → ℕ → Proc W → Result W ℕ
  read devtab fdnum buf n = do
    (fd, dev) ← lookup devtab fdnum
    λ s.
        if bit_and (fd_at fd s).fd_omode o_accmode == o_wronly
        then fails e_inval s
        else read_dev fd dev buf n s

  -- `readn` behind `tot` bytes
  unfoldable pub readn_from : ℕ → List (Dev W) → ℕ → ℕ → ℕ → ℕ → Proc W → Result W ℕ
  readn_from zero devtab fdnum buf n tot s = unfinished
  readn_from (suc k) devtab fdnum buf n tot s =
      let next =
        (do
          m ← read devtab fdnum (buf + tot) (n - tot)
          let rest = readn_from k devtab fdnum buf n (tot + m)
          if m == 0 then returns tot else rest)
          s in
      if ltb tot n then next else returns tot s

  unfoldable pub readn : List (Dev W) → ℕ → ℕ → ℕ → Proc W → Result W ℕ
  readn devtab fdnum buf n s = readn_from (n + 1) devtab fdnum buf n 0 s

  unfoldable pub write_dev : ℕ → Dev W → ℕ → ℕ → Proc W → Result W ℕ
  write_dev fd dev buf n s =
      elim (dev.dev_write fd buf (n % 2 ^ 32) ((fd_at fd s).fd_offset % 2 ^ 32) s) [
        | returns r t ↦ returns r (advance fd r t)
        | fails e t ↦ fails e t
        | aborts ↦ aborts
        | unfinished ↦ unfinished
      ]

  unfoldable pub write : List (Dev W) → ℕ → ℕ → ℕ → Proc W → Result W ℕ
  write devtab fdnum buf n = do
    (fd, dev) ← lookup devtab fdnum
    λ s.
        if bit_and (fd_at fd s).fd_omode o_accmode == o_rdonly
        then fails e_inval s
        else write_dev fd dev buf n s

  unfoldable pub seek : ℕ → ℕ → Proc W → Result W (Unit {0})
  seek fdnum offset = do
    fd ← fd_lookup fdnum
    λ s. let v = fd_at fd s in returns tt (set_fd fd (record v { fd_offset = offset }) s)

  unfoldable pub fstat : List (Dev W) → ℕ → Proc W → Result W Stat
  fstat devtab fdnum = do
    (fd, dev) ← lookup devtab fdnum
    dev.dev_stat fd (record { st_name = []; st_size = 0; st_isdir = 0; st_dev = dev.dev_id })
