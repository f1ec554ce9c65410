-- ===== src/Files.antt =====
-- The device of files of a user program (user/file.c) and its requests to the file server
-- (user/fsipc.c). `f_fileid` and the file of a `struct Filefd` are kept by page beside the
-- descriptors of Fd.antt, and the bytes of a block at the address at which it is mapped. A path is the
-- list of its characters; an int is its 32-bit pattern.
pub mod Device
pub mod Mapped
pub mod Reads
pub mod Opens
pub mod Grows
pub mod Writes
mod Tests
use raspberry3_mos.Base.{
  ℕ, zero, suc, ◌+◌, ◌-◌, ◌*◌, ◌/◌, ◌%◌, ◌^◌, bit_and, bit_or, Bool, true, false, ◌&&◌, ◌||◌, ltb,
  leb, ◌==◌, not, if◌then◌else◌, Option, none, some, List, [], ◌∷◌,
}
use raspberry3_mos.Base.{length}
use raspberry3_mos.Pmap.{update}
use raspberry3_mos.Pmap.Zero.{within}
use raspberry3_mos.Fs.Dir.{e_bad_path}
use raspberry3_mos.Serve.{maxpathlen}
use raspberry3_mos.Fd.{Fd, Proc, Result, returns, fails, aborts, unfinished, ◌>>=◌}

-- `NINDIRECT * BY2BLK`, with `NINDIRECT` being `BY2BLK / 4`
abbrev pub maxfilesize : ℕ
maxfilesize = 4096 / 4 * 4096

-- `f_fileid` and the fields of `f_file` that a program reads
pub record Info : Type 0 where
  pub f_fileid : ℕ
  pub f_name : List ℕ
  pub f_size : ℕ
  pub f_type : ℕ

-- The requests, with what the page of each holds
pub data Request : Type 0 where
  req_open : List ℕ → ℕ → Request
  req_map : ℕ → ℕ → Request
  req_set_size : ℕ → ℕ → Request
  req_close : ℕ → Request
  req_dirty : ℕ → ℕ → Request
  req_remove : List ℕ → Request
  req_sync : Request
  req_create : List ℕ → ℕ → Request

-- What is on a page that the server sends: a `struct Filefd`, or the bytes of a block
pub data Contents : Type 0 where
  filefd : Fd → Info → Contents
  block : (ℕ → ℕ) → Contents

pub record Sent : Type 0 where
  pub frame : ℕ
  pub contents : Contents

-- `ipc_value` as an int, `ipc_perm`, and the page, if one is sent
pub record Answer : Type 0 where
  pub value : ℕ
  pub perm : ℕ
  pub page : Option Sent

-- The server's state, and the files of the descriptors by page
pub record Client (S : Type 0) : Type 0 where
  pub server : S
  pub infos : ℕ → Info

abbrev pub blank_info : Info
blank_info = record { f_fileid = 0; f_name = []; f_size = 0; f_type = 0 }

abbrev pub is_negative : ℕ → Bool
is_negative r = leb (2 ^ 31) r

-- `VALID | PTE_RW | PTE_LIBRARY | PTE_USER` are the bits 0, 55 and 6 (`PTE_RW` is 0).
abbrev pub is_block_perm : ℕ → Bool
is_block_perm perm = bit_and perm (2 ^ 64 - 1 - (2 ^ 55 + 2 ^ 6)) == 1

module _ {S : Type 0} where
  abbrev pub info_at : ℕ → Proc (Client S) → Info
  info_at fd s = elim (s.page (fd / 4096)) [ none ↦ blank_info | some p ↦ s.world.infos p.frame ]

  -- `f->f_file.f_size = size`
  unfoldable pub set_size_at : ℕ → ℕ → Proc (Client S) → Proc (Client S)
  set_size_at fd size s = elim (s.page (fd / 4096)) [
    | none ↦ s
    | some p ↦
        let w = s.world in
        let old = w.infos p.frame in
        record s {
          world = record w { infos = update w.infos p.frame (record old { f_size = size }) };
        }
  ]

  unfoldable pub put_contents : ℕ → ℕ → Contents → Proc (Client S) → Proc (Client S)
  put_contents frame dstva (filefd v info) s =
      let w = s.world in
      record s {
        fds = update s.fds frame v;
        world = record w { infos = update w.infos frame info };
      }
  put_contents frame dstva (block bytes) s =
      let start = dstva / 4096 * 4096 in
      record s { mem = λ a. if within a start (start + 4096) then bytes (a - start) else s.mem a }

  -- The page of an answer, mapped at the address that `syscall_ipc_recv` was called with
  unfoldable pub receive : ℕ → Answer → Proc (Client S) → Proc (Client S)
  unfolding put_contents
  receive dstva a s = elim a.page [
    | none ↦ s
    | some p ↦ put_contents p.frame dstva p.contents (record s {
      page = update s.page (dstva / 4096) (some (record { frame = p.frame; perm = a.perm }));
    })
  ]

module _ {S : Type 0} (answer : Request → S → Answer × S) where
  -- `ipc_send` to the file server, which waits until it listens, and `ipc_recv`: the int and the
  -- permissions of the answer
  unfoldable pub fsipc : Request → ℕ → Proc (Client S) → Result (Client S) (ℕ × ℕ)
  unfolding receive
  fsipc req dstva s =
      let w = s.world in
      let (a, server) = answer req w.server in
      let t = receive dstva a (record s { world = record w { server = server } }) in
      if is_negative a.value then fails (2 ^ 32 - a.value) t else returns (a.value, a.perm) t

  -- A request of which only the int matters
  abbrev pub fsipc_int : Request → ℕ → Proc (Client S) → Result (Client S) ℕ
  fsipc_int req dstva = do (r, perm) ← fsipc req dstva; returns r

  unfoldable pub fsipc_open : List ℕ → ℕ → ℕ → Proc (Client S) → Result (Client S) ℕ
  fsipc_open path omode fd s =
      if leb maxpathlen (length path)
      then fails e_bad_path s
      else fsipc_int (req_open path omode) fd s

  unfoldable pub fsipc_map : ℕ → ℕ → ℕ → Proc (Client S) → Result (Client S) (Unit {0})
  fsipc_map fileid offset dstva = do
    (r, perm) ← fsipc (req_map fileid offset) dstva
    if is_block_perm perm then returns tt else (λ s. aborts)

  unfoldable pub fsipc_set_size : ℕ → ℕ → Proc (Client S) → Result (Client S) ℕ
  fsipc_set_size fileid size = fsipc_int (req_set_size fileid size) 0

  unfoldable pub fsipc_close : ℕ → Proc (Client S) → Result (Client S) ℕ
  fsipc_close fileid = fsipc_int (req_close fileid) 0

  unfoldable pub fsipc_dirty : ℕ → ℕ → Proc (Client S) → Result (Client S) ℕ
  fsipc_dirty fileid offset = fsipc_int (req_dirty fileid offset) 0

  -- The test is against MAXFILESIZE, and the path stands behind 4 bytes of the page `fsipcbuf`: a
  -- longer path is written behind the page.
  unfoldable pub fsipc_create : List ℕ → ℕ → Proc (Client S) → Result (Client S) ℕ
  fsipc_create path filetype s =
      if leb maxfilesize (length path)
      then fails e_bad_path s
      else if ltb 4096 (4 + length path + 1)
      then aborts
      else fsipc_int (req_create path filetype) 0 s

  unfoldable pub fsipc_remove : List ℕ → Proc (Client S) → Result (Client S) ℕ
  fsipc_remove path s =
      if leb maxpathlen (length path) then fails e_bad_path s else fsipc_int (req_remove path) 0 s

  unfoldable pub fsipc_sync : Proc (Client S) → Result (Client S) ℕ
  fsipc_sync = fsipc_int req_sync 0
