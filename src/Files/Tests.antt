-- ===== src/Files/Tests.antt =====
-- A file server with one file of 5000 bytes, whose byte `a` is `a`, and a program that opens it.
use raspberry3_mos.Base.{
  ℕ, ◌+◌, ◌*◌, ◌/◌, ◌^◌, ◌<◌, inl, true, ◌≤◌, ◌≡◌, refl, ◌⊎◌, ◌==◌, if◌then◌else◌, Option, none,
  some, [], ◌∷◌, arith,
}
use raspberry3_mos.Serve.{as_u64}
use raspberry3_mos.User.Bytes.Copies.{copied, user_bcopy_lem}
use raspberry3_mos.User.Bytes.{user_bcopy}
use raspberry3_mos.Fd.{Fd, Pte, Proc, returns, index2fd, fd2data, fd_alloc, alloc_fd}
use raspberry3_mos.Files.{
  Request, req_open, req_map, req_set_size, req_close, req_dirty, req_remove, req_sync, req_create,
  Answer, Client, Info, info_at, filefd, block,
}
use raspberry3_mos.Files.Device.{open_path, file_read, file_write}
use raspberry3_mos.Files.Mapped.{BlockSent}
use raspberry3_mos.Files.Opens.{OpenSent, open_path-file_read}
use raspberry3_mos.Files.Grows.{IsFile}
use raspberry3_mos.Files.Writes.{file_write-file_read}

abbrev device_id : ℕ
device_id = 102

abbrev file_info : Info
file_info = record { f_fileid = 7; f_name = 97 ∷ []; f_size = 5000; f_type = 0 }

abbrev file_fd : Fd
file_fd = record { fd_dev_id = device_id; fd_offset = 0; fd_omode = 2 }

abbrev block_perm : ℕ
block_perm = 1 + 2 ^ 55 + 2 ^ 6

abbrev fine : Answer
fine = record { value = 0; perm = 0; page = none }

abbrev one_file : Request → Unit {0} → Answer × Unit {0}
one_file (req_open path mode) sv = (
  record {
    value = 0;
    perm = block_perm;
    page = some (record { frame = 9; contents = filefd file_fd file_info });
  },
  tt,
)
one_file (req_map fileid i) sv = (
  record {
    value = 0;
    perm = block_perm;
    page = some (record { frame = 20 + i / 4096; contents = block (λ o. i + o) });
  },
  tt,
)
one_file (req_set_size fileid size) sv = (fine, tt)
one_file (req_close fileid) sv = (fine, tt)
one_file (req_dirty fileid i) sv = (fine, tt)
one_file (req_remove path) sv = (fine, tt)
one_file req_sync sv = (fine, tt)
one_file (req_create path filetype) sv = (fine, tt)

abbrev Always : Unit {0} → Type 0
Always sv = Unit {0}

abbrev program : (ℕ → Option Pte) → Proc (Client (Unit {0}))
program page = record {
  page = page;
  fds = λ f. file_fd;
  mem = λ a. a * 2;
  world = record { server = tt; infos = λ f. file_info };
  accepts = λ n. true;
  requests = 0;
}

opened : OpenSent one_file Always file_info file_fd (λ a. a) (97 ∷ []) 2 tt
opened = record {
  value = 0;
  perm = block_perm;
  frame = 9;
  later = tt;
  run = refl;
  taken = refl;
  good = tt;
}

sent : (i : ℕ) → BlockSent one_file Always 7 (λ a. a) i tt
sent i = record {
  value = 0;
  perm = block_perm;
  frame = 20 + i / 4096;
  bytes = λ o. i + o;
  later = tt;
  run = refl;
  taken = refl;
  allowed = refl;
  holds = λ o h. refl;
  good = tt;
}

free_descriptor : fd_alloc (program (λ q. none)) ≡ returns (index2fd 0) (program (λ q. none))
unfolding fd_alloc alloc_fd as_u64
free_descriptor = refl

-- A read of 100 bytes, 40 of which are there
open_path-file_read_example :
    (t : Proc (Client (Unit {0}))) × (u : Proc (Client (Unit {0}))) × (open_path one_file
        (97 ∷ [])
        2
        (program (λ q. none))
      ≡ returns 0 t)
    × (file_read one_file (index2fd 0) 8192 100 4960 t ≡ returns 40 u)
    × ((j : ℕ) → j < 40 → u.mem (8192 + j) ≡ 4960 + j)
open_path-file_read_example =
    open_path-file_read one_file Always file_info file_fd (λ a. a) 0 (97 ∷ []) 2 8192 100 4960
      (program (λ q. none)) (omega arith) free_descriptor (omega arith) opened
      (λ i sv g w h. sent i) (omega arith) (omega arith) (omega arith) (omega arith)

abbrev with_page : Proc (Client (Unit {0}))
with_page =
    program (λ q. if q == 0x70000 then some (record { frame = 9; perm = block_perm }) else none)

with_page-IsFile : IsFile 0 (record { frame = 9; perm = block_perm }) with_page
unfolding as_u64
with_page-IsFile = record { number = omega arith; page = refl; device = refl }

size_known : (info_at (index2fd 0) with_page).f_fileid ≡ 7
unfolding as_u64
size_known = refl

-- A write of 20 bytes over the end of the file
file_write-file_read_example :
    (t : Proc (Client (Unit {0}))) × (u : Proc (Client (Unit {0}))) × (file_write one_file
        (index2fd 0)
        4096
        20
        4990
        with_page
      ≡ returns 20 t)
    × (file_read one_file (index2fd 0) 8192 20 4990 t ≡ returns 20 u)
    × ((j : ℕ) → j < 20 → u.mem (8192 + j) ≡ with_page.mem (4096 + j))
    × ((a : ℕ)
        → a < (info_at (index2fd 0) with_page).f_size
        → (a < 4990) ⊎ (5010 ≤ a)
        → t.mem (fd2data (index2fd 0) + a) ≡ with_page.mem (fd2data (index2fd 0) + a))
file_write-file_read_example =
    file_write-file_read one_file Always 7 (λ a. a) 0 4096 8192 20 4990
      (record { frame = 9; perm = block_perm }) with_page with_page-IsFile size_known
      (record { value = 0; perm = 0; later = tt; run = refl; taken = refl; good = tt })
      (λ i sv g w h. sent i) (omega arith) (omega arith) (omega arith)

abbrev numbers : ℕ → ℕ
numbers a = a

-- Eight bytes, four of them over the source
user_bcopy_lem_example : user_bcopy 16 12 8 numbers 13 ≡ copied 16 12 8 numbers 13
user_bcopy_lem_example = user_bcopy_lem 16 12 8 numbers 13 (inl (omega arith))
