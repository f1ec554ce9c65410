-- ===== src/Serve.antt =====
-- The file server's requests (fs/serv.c): the state and the table of open files.
pub mod Requests
pub mod Table
pub mod Answers
mod Tests
use raspberry3_mos.Base.{
  ℕ, zero, suc, ◌+◌, ◌-◌, ◌*◌, ◌/◌, ◌%◌, ◌^◌, bit_and, Bool, true, false, ◌&&◌, ◌||◌, ltb, leb,
  ◌==◌, not, if◌then◌else◌, List, [], ◌∷◌,
}
use raspberry3_mos.Pmap.{update}
use raspberry3_mos.Fs.{Fs, Outcome, ok, err, panics, faults, M, e_unspecified, e_inval, by2blk}
use raspberry3_mos.Fs.File.{file_get_block, file_set_size, file_close, file_dirty, fs_sync}
use raspberry3_mos.Fs.Dir.{load8, file_open, file_remove, file_create}
use raspberry3_mos.Syscall.{minus}

abbrev pub e_max_open : ℕ
e_max_open = 8

abbrev pub maxopen : ℕ
maxopen = 1024

abbrev pub fileva : ℕ
fileva = 0x60000000

abbrev pub maxpathlen : ℕ
maxpathlen = 1024

-- `struct Filefd` on the page of an open file: its file is a copy of the 64 words of a `struct File`.
pub record Filefd : Type 0 where
  pub fd_dev_id : ℕ
  pub fd_offset : ℕ
  pub fd_omode : ℕ
  pub f_fileid : ℕ
  pub f_file : ℕ → ℕ

-- `struct Open`
pub record Open : Type 0 where
  pub o_file : ℕ
  pub o_fileid : ℕ
  pub o_mode : ℕ
  pub o_ff : ℕ

-- A call of `ipc_send`
pub record Reply : Type 0 where
  pub envid : ℕ
  pub value : ℕ
  pub srcva : ℕ
  pub perm : ℕ

-- The server: its file system, `opentab`, the pages of the open files by their index in it, what
-- `pageref` says of them, and its answers, the last one first. Clients change `refs` when they map
-- and unmap the pages.
pub record Server : Type 0 where
  pub fs : Fs
  pub opentab : ℕ → Open
  pub ff : ℕ → Filefd
  pub refs : ℕ → ℕ
  pub replies : List Reply

-- The loop of `serve_init` from entry `i` on; `va` is a u32.
unfoldable pub init_table : ℕ → ℕ → ℕ → (ℕ → Open) → ℕ → Open
init_table zero i va tab = tab
init_table (suc n) i va tab =
    init_table n (i + 1) ((va + 4096) % 2 ^ 32)
      (update tab i (let o = tab i in record o { o_fileid = i; o_ff = va }))

unfoldable pub serve_init : Server → Server
serve_init sv = record sv { opentab = init_table maxopen 0 fileva sv.opentab }

abbrev pub blank_page : Filefd
blank_page = record { fd_dev_id = 0; fd_offset = 0; fd_omode = 0; f_fileid = 0; f_file = λ a. 0 }

-- How `open_alloc` ends: with an entry, or with the negative of an error code.
pub data Alloc : Type 0 where
  entry : ℕ → Server → Alloc
  refused : ℕ → Server → Alloc

-- `case 1` of `open_alloc`
unfoldable pub take_entry : ℕ → Server → Server
take_entry i sv =
    let o = sv.opentab i in
    record sv {
      opentab = update sv.opentab i (record o { o_fileid = (o.o_fileid + maxopen) % 2 ^ 32 });
      ff = update sv.ff i blank_page;
    }

-- `case 0`: a page for the entry
unfoldable pub add_page : ℕ → Server → Alloc
unfolding take_entry
add_page i sv =
    let fs = sv.fs in
    let asked = record sv { fs = record fs { requests = fs.requests + 1 } } in
    if fs.grants fs.requests
    then entry i (take_entry i (record asked { refs = update sv.refs i 1 }))
    else refused e_unspecified asked

-- The loop of `open_alloc`
unfoldable pub open_from : ℕ → ℕ → Server → Alloc
unfolding add_page
open_from zero i sv = refused e_max_open sv
open_from (suc n) i sv =
    let later = open_from n (i + 1) sv in
    if sv.refs i == 0
    then add_page i sv
    else if sv.refs i == 1
    then entry i (take_entry i sv)
    else later

unfoldable pub open_alloc : Server → Alloc
open_alloc sv = open_from maxopen 0 sv

-- `open_lookup`: the index of the entry, or `false` for -E_INVAL
unfoldable pub open_lookup : ℕ → Server → Bool × ℕ
open_lookup fileid sv =
    let i = fileid % maxopen in
    if (sv.refs i == 1) || not ((sv.opentab i).o_fileid == fileid) then (false, 0) else (true, i)

-- The u64 of an int result; a negative one is an error.
unfoldable pub as_u64 : ℕ → ℕ
as_u64 r = if leb (2 ^ 31) r then r + (2 ^ 64 - 2 ^ 32) else r
