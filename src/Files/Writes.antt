-- ===== src/Files/Writes.antt =====
-- A write to a file (user/file.c) that grows with it, and a read of what was written.
use raspberry3_mos.Base.{
  ℕ, ◌+◌, ◌*◌, ◌/◌, ◌%◌, ◌^◌, ◌≤◌, ◌<◌, ◌≡◌, refl, sym, subst, ◌∙◌, ap, ◌⊎◌, inl, inr, false, ltb,
  Option, some, Bool-cases, arith,
}
use raspberry3_mos.Pmap.{update-same}
use raspberry3_mos.Serve.Requests.{dev_file}
use raspberry3_mos.Fd.{
  Fd, Pte, Proc, returns, filebase, fdtable, index2fd, fd2data, fd_at, fd_lookup,
}
use raspberry3_mos.Fd.Run.{>>=-step}
use raspberry3_mos.Files.{Request, Answer, Client, Info, maxfilesize, info_at, set_size_at}
use raspberry3_mos.Files.Device.{
  round_page, truncate_fd, ftruncate, make_room, file_read, file_write,
}
use raspberry3_mos.Files.Mapped.{BlockSent}
use raspberry3_mos.Files.Reads.{count_of, file_read_lem, file_write-BytesWritten}
use raspberry3_mos.Files.Opens.{info_at-page, fd_at-page, index2fd_lem, fd2num_lem, fd2data_lem}
use raspberry3_mos.Files.Grows.{
  IsFile, SizeSet, Grown, fd_lookup-file, with_size, set_size_at-page, grow_steps,
  grow_steps-BlocksMapped,
}

module _ {S : Type 0} (answer : Request → S → Answer × S) (Good : S → Type 0) (fileid : ℕ)
    (content : ℕ → ℕ) where
  truncate_fd-Grown :
      (k size : ℕ) (p : Pte) (s : Proc (Client S))
      → IsFile k p s
      → (info_at (index2fd k) s).f_fileid ≡ fileid
      → SizeSet answer Good fileid size s.world.server
      → ((i : ℕ) (sv : S)
          → Good sv
          → i % 4096 ≡ 0
          → i < round_page size
          → BlockSent answer Good fileid content i sv)
      → (info_at (index2fd k) s).f_size ≤ size
      → size ≤ maxfilesize
      → (t : Proc (Client S)) × (truncate_fd answer (index2fd k) size s ≡ returns 0 t)
        × Grown answer Good fileid content k size p s t
  unfolding truncate_fd
  truncate_fd-Grown k size p s f id b sends grows small =
      let low = f.number in
      let fd = index2fd k in
      let va = fd2data fd in
      let old = (info_at fd s).f_size in
      let place : va ≡ filebase + k * 2 ^ 30 = fd2data_lem k low in
      let page : fd ≡ fdtable + k * 4096 = index2fd_lem k low in
      let sized = with_size size p s in
      let (t, run, done) =
        grow_steps-BlocksMapped answer Good fileid content old size va sized b sends grows small
          (omega arith) (omega arith) in
      let still : t.page (fd / 4096) ≡ some p = done.pages (fd / 4096) (omega arith) ∙ f.page in
      let w = s.world.infos p.frame in
      (
        t,
        ap (λ (i : ℕ). grow_steps answer i old size va (set_size_at fd size s)) id
            ∙ ap (grow_steps answer fileid old size va) (set_size_at-page fd size p s f.page)
            ∙ run,
        record {
          is_file = record {
            number = low;
            page = still;
            device = ap (λ (g : ℕ → Fd). (g p.frame).fd_dev_id) done.fds ∙ f.device;
          };
          size_set =
              ap (λ (x : Info). x.f_size) (info_at-page fd p t still)
              ∙ ap (λ (g : ℕ → Info). (g p.frame).f_size) done.infos
              ∙ ap (λ (x : Info). x.f_size)
                  (update-same s.world.infos p.frame p.frame (record w { f_size = size }) refl);
          below = λ a h. done.below a h;
          bytes = λ a h inside. done.bytes a h (omega arith);
          good = done.good;
        },
      )

  ftruncate-Grown :
      (k size : ℕ) (p : Pte) (s : Proc (Client S))
      → IsFile k p s
      → (info_at (index2fd k) s).f_fileid ≡ fileid
      → SizeSet answer Good fileid size s.world.server
      → ((i : ℕ) (sv : S)
          → Good sv
          → i % 4096 ≡ 0
          → i < round_page size
          → BlockSent answer Good fileid content i sv)
      → (info_at (index2fd k) s).f_size ≤ size
      → size ≤ maxfilesize
      → (t : Proc (Client S)) × (ftruncate answer k size s ≡ returns 0 t)
        × Grown answer Good fileid content k size p s t
  unfolding ftruncate
  ftruncate-Grown k size p s f id b sends grows small =
      let fd = index2fd k in
      let (t, run, grown) = truncate_fd-Grown k size p s f id b sends grows small in
      let fits : ltb maxfilesize size ≡ false = ground arith in
      let device : (fd_at fd s).fd_dev_id ≡ dev_file =
        ap (λ (v : Fd). v.fd_dev_id) (fd_at-page fd p s f.page) ∙ f.device in
      (t, rw fits (>>=-step (fd_lookup k) _ s (fd_lookup-file k p s f) ∙ rw device run), grown)

  -- What `make_room` leaves of the memory below the bytes that it adds
  pub record HasRoom (k tot : ℕ) (p : Pte) (s t : Proc (Client S)) : Type 0 where
    pub is_file : IsFile k p t
    pub enough : tot ≤ (info_at (index2fd k) t).f_size
    pub below :
        (a : ℕ) → a < fd2data (index2fd k) + (info_at (index2fd k) s).f_size → t.mem a ≡ s.mem a

  make_room-HasRoom :
      (k tot : ℕ) (p : Pte) (s : Proc (Client S))
      → IsFile k p s
      → (info_at (index2fd k) s).f_fileid ≡ fileid
      → SizeSet answer Good fileid tot s.world.server
      → ((i : ℕ) (sv : S)
          → Good sv
          → i % 4096 ≡ 0
          → i < round_page tot
          → BlockSent answer Good fileid content i sv)
      → tot ≤ maxfilesize
      → (t : Proc (Client S)) × (make_room answer (index2fd k) tot s ≡ returns 0 t)
        × HasRoom k tot p s t
  unfolding make_room
  make_room-HasRoom k tot p s f id b sends small =
      let fd = index2fd k in
      let old = (info_at fd s).f_size in
      elim (Bool-cases (ltb old tot)) [
        | inr enough ↦ (
          s,
          rw (make_room, enough) refl,
          record { is_file = f; enough = ground arith; below = λ a h. refl },
        )
        | inl more ↦
            let (t, run, grown) = ftruncate-Grown k tot p s f id b sends (ground arith) small in
            let set = grown.size_set in
            (
              t,
              rw (make_room, more)
                  (ap (λ (n : ℕ). ftruncate answer n tot s) (fd2num_lem k f.number) ∙ run),
              record {
                is_file = grown.is_file;
                enough = omega arith;
                below = λ a h. grown.below a (omega arith);
              },
            )
      ]

  -- A write of `n` bytes at any offset with `offset + n` up to the largest size comes to its end and
  -- returns `n`, where the file server takes a new size and sends the blocks that come with it: the
  -- file has room for the bytes, where it was smaller. A read of `n` bytes at the same offset then gets
  -- those that were written, and the bytes that the file had before the write stand where they
  -- stood, but for those that were written over. Both buffers are below the descriptors' data.
  pub file_write-file_read :
      (k buf buf' n offset : ℕ) (p : Pte) (s : Proc (Client S))
      → IsFile k p s
      → (info_at (index2fd k) s).f_fileid ≡ fileid
      → SizeSet answer Good fileid (offset + n) s.world.server
      → ((i : ℕ) (sv : S)
          → Good sv
          → i % 4096 ≡ 0
          → i < round_page (offset + n)
          → BlockSent answer Good fileid content i sv)
      → offset + n ≤ maxfilesize
      → buf + n < filebase
      → buf' + n < filebase
      → (t : Proc (Client S)) × (u : Proc (Client S)) × (file_write answer
            (index2fd k)
            buf
            n
            offset
            s
          ≡ returns n t)
        × (file_read answer (index2fd k) buf' n offset t ≡ returns n u)
        × ((j : ℕ) → j < n → u.mem (buf' + j) ≡ s.mem (buf + j))
        × ((a : ℕ)
            → a < (info_at (index2fd k) s).f_size
            → (a < offset) ⊎ (offset + n ≤ a)
            → t.mem (fd2data (index2fd k) + a) ≡ s.mem (fd2data (index2fd k) + a))
  file_write-file_read k buf buf' n offset p s f id b sends small low low' =
      let number = f.number in
      let fd = index2fd k in
      let va = fd2data fd in
      let place : va ≡ filebase + k * 2 ^ 30 = fd2data_lem k number in
      let (m, made, room) = make_room-HasRoom k (offset + n) p s f id b sends small in
      let (t, wrote, put) =
        file_write-BytesWritten answer fd buf n offset 0 s m small (omega arith) (inr (omega arith))
          made in
      let info : info_at fd t ≡ info_at fd m =
        info_at-page fd p t
          (ap (λ (g : ℕ → Option Pte). g (fd / 4096)) put.pages ∙ room.is_file.page)
        ∙ ap (λ (w : Client S). w.infos p.frame) put.world
        ∙ sym (info_at-page fd p m room.is_file.page) in
      let size : (info_at fd t).f_size ≡ (info_at fd m).f_size = ap (λ (w : Info). w.f_size) info in
      let enough = room.enough in
      let count : count_of (info_at fd t).f_size n offset ≡ n =
        let all : ltb (info_at fd t).f_size (offset + n) ≡ false = ground arith in rw all refl in
      elim (file_read_lem answer fd buf' n offset t (omega arith) (omega arith)
        (inl (omega arith))) [
          | inl (behind, ran) ↦ absurd (omega arith)
          | inr (upto, u, ran, bytes) ↦ (
            t,
            u,
            wrote,
            ran ∙ ap (λ (c : ℕ). returns c u) count,
            (λ j h.
                bytes.got j (subst (λ (c : ℕ). j < c) (sym count) h)
                ∙ put.put j h
                ∙ room.below (buf + j) (omega arith)),
            (λ a inside h.
                put.others (va + a)
                  (elim h [ inl l ↦ inl (omega arith) | inr r ↦ inr (omega arith) ])
                ∙ room.below (va + a) (omega arith)),
          )
        ]
