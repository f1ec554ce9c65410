-- ===== src/Files/Device.antt =====
-- Opening, reading, writing, truncating and closing of files (user/file.c). A file's blocks are mapped
-- from `fd2data` of its descriptor on.
use raspberry3_mos.Base.{
  ℕ, zero, suc, ◌+◌, ◌-◌, ◌*◌, ◌/◌, ◌%◌, ◌^◌, ltb, leb, ◌==◌, not, if◌then◌else◌, List,
}
use raspberry3_mos.Fs.{e_inval, e_no_disk}
use raspberry3_mos.Serve.{as_u64}
use raspberry3_mos.Serve.Requests.{dev_file}
use raspberry3_mos.User.Bytes.{user_bcopy}
use raspberry3_mos.Fd.{
  Proc, Result, returns, fails, aborts, unfinished, Stat, Dev, fd2num, fd2data, ◌>>=◌, is_mapped,
  fd_at, mem_unmap, fd_alloc, fd_lookup, ignore,
}
use raspberry3_mos.Fd.{close}
use raspberry3_mos.Fd.Calls.{fstat}
use raspberry3_mos.Files.{
  Request, Answer, Client, maxfilesize, info_at, set_size_at, fsipc_open, fsipc_map, fsipc_set_size,
  fsipc_close, fsipc_dirty, fsipc_create, fsipc_remove, fsipc_sync,
}

-- `ROUND(a, BY2PG)`, in u64
abbrev pub round_page : ℕ → ℕ
round_page a = (a + 4095) / 4096 * 4096

-- A u32 counter that moves by a page needs no more rounds than this to reach 2 ^ 32 - 4096.
abbrev pub page_rounds : ℕ
page_rounds = 2 ^ 20 + 1

abbrev pub u32_next : ℕ → ℕ
u32_next i = (i + 4096) % 2 ^ 32

module _ {S : Type 0} (answer : Request → S → Answer × S) where
  -- The loops over `fsipc_map`: `i` is below `limit` when it is read as `wide` says, a u32 in `open` and
  -- an int in `ftruncate`. From 2 ^ 32 - 4096 on a u32 wraps, and the loop does not end.
  unfoldable pub map_from :
      ℕ → (ℕ → ℕ) → ℕ → ℕ → ℕ → ℕ → Proc (Client S) → Result (Client S) (Unit {0})
  map_from zero wide fileid i limit va s = if ltb (wide i) limit then unfinished else returns tt s
  map_from (suc n) wide fileid i limit va s =
      let next =
        (do
          x ← fsipc_map answer fileid i ((va + wide i) % 2 ^ 64)
          map_from n wide fileid (u32_next i) limit va)
          s in
      if ltb (wide i) limit then next else returns tt s

  -- `open`: where the file server refuses a block, the pages that it has sent stay mapped.
  unfoldable pub open_path : List ℕ → ℕ → Proc (Client S) → Result (Client S) ℕ
  open_path path mode = do
    fd ← fd_alloc
    r ← fsipc_open answer path mode fd
    λ s.
        let info = info_at fd s in
        (do
          x ← map_from page_rounds (λ i. i) info.f_fileid 0 info.f_size (fd2data fd)
          returns (fd2num fd))
          s

  unfoldable pub dirty_from : ℕ → ℕ → ℕ → ℕ → Proc (Client S) → Result (Client S) (Unit {0})
  dirty_from zero fileid i size s = if ltb i size then unfinished else returns tt s
  dirty_from (suc n) fileid i size s =
      let next =
        (do x ← ignore (fsipc_dirty answer fileid i); dirty_from n fileid (u32_next i) size) s in
      if ltb i size then next else returns tt s

  unfoldable pub unmap_from :
      ℕ → (ℕ → ℕ) → ℕ → ℕ → ℕ → Proc (Client S) → Result (Client S) (Unit {0})
  unmap_from zero wide i limit va s = if ltb (wide i) limit then unfinished else returns tt s
  unmap_from (suc n) wide i limit va s =
      let next = unmap_from n wide (u32_next i) limit va (mem_unmap ((va + wide i) % 2 ^ 64) s) in
      if ltb (wide i) limit then next else returns tt s

  unfoldable pub file_close : ℕ → Proc (Client S) → Result (Client S) ℕ
  file_close fd s =
      let info = info_at fd s in
      (do
        x ← dirty_from page_rounds info.f_fileid 0 info.f_size
        r ← fsipc_close answer info.f_fileid
        y ← unmap_from page_rounds (λ i. i) 0 info.f_size (fd2data fd)
        returns 0)
        s

  -- `offset + n` is a u32.
  unfoldable pub file_read : ℕ → ℕ → ℕ → ℕ → Proc (Client S) → Result (Client S) ℕ
  file_read fd buf n offset s =
      let size = (info_at fd s).f_size in
      let count = if ltb size ((offset + n) % 2 ^ 32) then size - offset else n in
      if ltb size offset
      then returns 0 s
      else returns count
          (record s { mem = user_bcopy ((fd2data fd + offset) % 2 ^ 64) buf count s.mem })

  -- `read_map`: the address of the mapped byte
  unfoldable pub read_map : ℕ → ℕ → Proc (Client S) → Result (Client S) ℕ
  read_map fdnum offset = do
    fd ← fd_lookup fdnum
    λ s.
        let va = (fd2data fd + offset) % 2 ^ 64 in
        if not ((fd_at fd s).fd_dev_id == dev_file)
        then fails e_inval s
        else if leb maxfilesize offset
        then fails e_no_disk s
        else if not (is_mapped va s)
        then fails e_no_disk s
        else returns va s

  -- The two loops of `ftruncate`; where the server refuses a block it gets the old size again, and
  -- where it takes the new one the descriptor keeps it.
  unfoldable pub map_grown : ℕ → ℕ → ℕ → ℕ → Proc (Client S) → Result (Client S) (Unit {0})
  map_grown fileid oldsize size va s =
      elim (map_from page_rounds as_u64 fileid (round_page oldsize % 2 ^ 32) (round_page size) va
        s) [
          | returns x t ↦ returns tt t
          | fails e t ↦ (do x ← ignore (fsipc_set_size answer fileid oldsize); (λ u. fails e u)) t
          | aborts ↦ aborts
          | unfinished ↦ unfinished
        ]

  unfoldable pub truncate_fd : ℕ → ℕ → Proc (Client S) → Result (Client S) ℕ
  truncate_fd fd size s =
      let info = info_at fd s in
      (do
        r ← fsipc_set_size answer info.f_fileid size
        x ← map_grown info.f_fileid info.f_size size (fd2data fd)
        y ← unmap_from page_rounds as_u64 (round_page size) (round_page info.f_size) (fd2data fd)
        returns 0)
        (set_size_at fd size s)

  unfoldable pub ftruncate : ℕ → ℕ → Proc (Client S) → Result (Client S) ℕ
  ftruncate fdnum size s =
      let checked =
        (do
          fd ← fd_lookup fdnum
          λ t.
              if not ((fd_at fd t).fd_dev_id == dev_file)
              then fails e_inval t
              else truncate_fd fd size t)
          s in
      if ltb maxfilesize size then fails e_no_disk s else checked

  -- The file gets the size `tot` where it is smaller.
  unfoldable pub make_room : ℕ → ℕ → Proc (Client S) → Result (Client S) ℕ
  make_room fd tot s =
      if ltb (info_at fd s).f_size tot then ftruncate (fd2num fd) tot s else returns 0 s

  unfoldable pub put_bytes : ℕ → ℕ → ℕ → ℕ → Proc (Client S) → Result (Client S) ℕ
  put_bytes fd buf n offset s =
      returns n (record s { mem = user_bcopy buf ((fd2data fd + offset) % 2 ^ 64) n s.mem })

  -- `tot` is a u32.
  unfoldable pub file_write : ℕ → ℕ → ℕ → ℕ → Proc (Client S) → Result (Client S) ℕ
  file_write fd buf n offset s =
      let tot = (offset + n) % 2 ^ 32 in
      if ltb maxfilesize tot
      then fails e_no_disk s
      else (do r ← make_room fd tot; put_bytes fd buf n offset) s

  unfoldable pub file_stat : ℕ → Stat → Proc (Client S) → Result (Client S) Stat
  file_stat fd st s =
      let info = info_at fd s in
      returns
        (record st {
          st_name = info.f_name;
          st_size = info.f_size;
          st_isdir = if info.f_type == 1 then 1 else 0;
        })
        s

  unfoldable pub devfile : Dev (Client S)
  devfile = record {
    dev_id = dev_file;
    dev_read = λ fd buf n offset. file_read fd buf n offset;
    dev_write = λ fd buf n offset. file_write fd buf n offset;
    dev_close = λ fd. file_close fd;
    dev_stat = λ fd st. file_stat fd st;
  }

  unfoldable pub create : List ℕ → ℕ → Proc (Client S) → Result (Client S) ℕ
  create path filetype = do r ← fsipc_create answer path filetype; returns 0

  unfoldable pub remove : List ℕ → Proc (Client S) → Result (Client S) ℕ
  remove path = fsipc_remove answer path

  unfoldable pub sync : Proc (Client S) → Result (Client S) ℕ
  sync = fsipc_sync answer

  -- `stat` of user/fd.c, which drops the result of `close`
  unfoldable pub stat : List (Dev (Client S)) → List ℕ → Proc (Client S) → Result (Client S) Stat
  stat devtab path = do
    fd ← open_path path 0
    λ s. elim (fstat devtab fd s) [
      | returns st t ↦ (do x ← ignore (close devtab fd); returns st) t
      | fails e t ↦ (do x ← ignore (close devtab fd); (λ u. fails e u)) t
      | aborts ↦ aborts
      | unfinished ↦ unfinished
    ]
