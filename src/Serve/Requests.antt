-- ===== src/Serve/Requests.antt =====
-- The requests of the file server (fs/serv.c): one function per request, and the loop of `serve`.
use raspberry3_mos.Base.{
  ℕ, zero, suc, ◌+◌, ◌-◌, ◌/◌, ◌^◌, bit_and, leb, ◌==◌, if◌then◌else◌, List, [], ◌∷◌,
}
use raspberry3_mos.Pmap.{update}
use raspberry3_mos.Fs.{ok, err, panics, faults, M, e_inval, by2blk}
use raspberry3_mos.Fs.File.{file_get_block, file_set_size, file_close, file_dirty, fs_sync}
use raspberry3_mos.Fs.Dir.{load8, file_open, file_remove, file_create}
use raspberry3_mos.Syscall.{minus}
use raspberry3_mos.Fs.{e_inval}
use raspberry3_mos.Serve.{maxpathlen, Open, Server, entry, refused, open_alloc, open_lookup, as_u64}

-- How a request ends: with an answer, or where a call of the file system does not return.
pub data Served : Type 0 where
  served : Server → Served
  stopped : Served

-- `ipc_send`
unfoldable pub send : ℕ → ℕ → ℕ → ℕ → Server → Server
send envid value srcva perm sv = record sv {
  replies = (record { envid = envid; value = value; srcva = srcva; perm = perm }) ∷ sv.replies;
}

-- `ipc_send(envid, r, 0, 0)` for the error `r`
unfoldable pub send_error : ℕ → ℕ → Server → Served
unfolding send
send_error envid r sv = served (send envid (minus r) 0 0 sv)

unfoldable pub send_done : ℕ → Server → Served
unfolding send
send_done envid sv = served (send envid 0 0 0 sv)

-- A call of the file system; an error is the answer to the request.
unfoldable pub call : {A : Type 0} → M A → ℕ → (A → Server → Served) → Server → Served
unfolding send_error
call m envid f sv = elim (m sv.fs) [
  | ok a t ↦ f a (record sv { fs = t })
  | err r t ↦ send_error envid r (record sv { fs = t })
  | panics ↦ stopped
  | faults ↦ stopped
]

-- The path in a request, whose last byte the server sets to 0: the characters from `a` on before
-- the first 0, at most `n`.
unfoldable pub req_path : ℕ → (ℕ → ℕ) → ℕ → List ℕ
req_path zero page a = []
req_path (suc n) page a =
    let rest = req_path n page (a + 1) in if load8 page a == 0 then [] else load8 page a ∷ rest

-- `VALID | PTE_RW | PTE_LIBRARY | PTE_USER`
abbrev pub page_perm : ℕ
page_perm = 1 + 2 ^ 55 + 0x40

abbrev pub dev_file : ℕ
dev_file = 102

-- The end of `serve_open`
unfoldable pub fill_filefd : ℕ → ℕ → ℕ → Server → Server
fill_filefd i f omode sv =
    let o = sv.opentab i in
    let page = sv.ff i in
    record sv {
      opentab = update sv.opentab i (record o { o_file = f; o_mode = omode });
      ff = update sv.ff i (record page {
        f_file = λ a. sv.fs.word (f + a);
        f_fileid = o.o_fileid;
        fd_omode = omode;
        fd_dev_id = dev_file;
      });
    }

-- The rest of `serve_open` with the entry `i`, whose file id has come back as an int
unfoldable pub opened_entry : ℕ → (ℕ → ℕ) → ℕ → Server → Served
unfolding fill_filefd send
opened_entry envid page i sv =
    let fileid = (sv.opentab i).o_fileid in
    if leb (2 ^ 31) fileid
    then served (send envid (as_u64 fileid) 0 0 sv)
    else call (file_open (req_path (maxpathlen - 1) page 0)) envid
        (λ f u.
          let v = fill_filefd i f (page maxpathlen) u in
          served (send envid 0 (v.opentab i).o_ff page_perm v))
        sv

unfoldable pub serve_open : ℕ → (ℕ → ℕ) → Server → Served
unfolding send_error
serve_open envid page sv = elim (open_alloc sv) [
  | refused r t ↦ send_error envid r t
  | entry i t ↦ opened_entry envid page i t
]

-- The entry of the file that a request names, or the answer -E_INVAL
unfoldable pub with_open : ℕ → ℕ → (Open → Server → Served) → Server → Served
unfolding send_error
with_open envid fileid f sv =
    let (good, i) = open_lookup fileid sv in
    if good then f (sv.opentab i) sv else send_error envid e_inval sv

unfoldable pub serve_map : ℕ → (ℕ → ℕ) → Server → Served
unfolding with_open send
serve_map envid page = with_open envid (page 0) (λ o.
    call (file_get_block o.o_file (page 4 / by2blk)) envid
      (λ blk t. served (send envid 0 blk page_perm t)))

unfoldable pub serve_set_size : ℕ → (ℕ → ℕ) → Server → Served
unfolding with_open send_done
serve_set_size envid page =
    with_open envid (page 0)
      (λ o. call (file_set_size o.o_file (page 4)) envid (λ x. send_done envid))

unfoldable pub serve_close : ℕ → (ℕ → ℕ) → Server → Served
unfolding with_open send_done
serve_close envid page =
    with_open envid (page 0) (λ o. call (file_close o.o_file) envid (λ x. send_done envid))

unfoldable pub serve_remove : ℕ → (ℕ → ℕ) → Server → Served
unfolding send_done
serve_remove envid page =
    call (file_remove (req_path (maxpathlen - 1) page 0)) envid (λ x. send_done envid)

unfoldable pub serve_create : ℕ → (ℕ → ℕ) → Server → Served
unfolding send_done
serve_create envid page =
    call (file_create (req_path (maxpathlen - 1) page 4) (page 0)) envid (λ f. send_done envid)

unfoldable pub serve_dirty : ℕ → (ℕ → ℕ) → Server → Served
unfolding with_open send_done
serve_dirty envid page =
    with_open envid (page 0) (λ o. call (file_dirty o.o_file (page 4)) envid (λ x. send_done envid))

unfoldable pub serve_sync : ℕ → Server → Served
unfolding send_done
serve_sync envid = call fs_sync envid (λ x. send_done envid)

-- The `switch` of `serve`; an unknown request gets no answer.
unfoldable pub dispatch : ℕ → ℕ → (ℕ → ℕ) → Server → Served
dispatch req whom page sv =
    if req == 1
    then serve_open whom page sv
    else if req == 2
    then serve_map whom page sv
    else if req == 3
    then serve_set_size whom page sv
    else if req == 4
    then serve_close whom page sv
    else if req == 5
    then serve_dirty whom page sv
    else if req == 6
    then serve_remove whom page sv
    else if req == 7
    then serve_sync whom sv
    else if req == 8
    then serve_create whom page sv
    else served sv

-- One round of the loop of `serve`, for the request that `ipc_recv` has got.
unfoldable pub serve_request : ℕ → ℕ → ℕ → (ℕ → ℕ) → Server → Served
serve_request req whom perm page sv =
    if bit_and perm 1 == 0 then served sv else dispatch req whom page sv
