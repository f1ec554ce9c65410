-- ===== src/Files/Opens.antt =====
-- `open` (user/file.c), and a read of the file that it has opened.
use raspberry3_mos.Base.{
  ℕ, ◌+◌, ◌*◌, ◌/◌, ◌%◌, ◌^◌, ◌≤◌, ◌<◌, ◌≡◌, ◌≢◌, refl, sym, subst, ◌∙◌, ap, inl, inr, false, leb,
  Option, none, some, List, length, arith,
}
use raspberry3_mos.Pmap.{update, update-same, update-other}
use raspberry3_mos.Serve.{maxpathlen, as_u64}
use raspberry3_mos.Fd.{
  Fd, Pte, Proc, returns, filebase, fdtable, index2fd, fd2num, fd2data, blank_fd, fd_at, fd_alloc,
  ◌>>=◌,
}
use raspberry3_mos.Fd.Run.{>>=-step}
use raspberry3_mos.Files.{
  Request, req_open, Answer, Client, Info, filefd, blank_info, maxfilesize, is_negative, info_at,
  receive, fsipc, fsipc_open,
}
use raspberry3_mos.Files.Device.{page_rounds, map_from, open_path, file_read}
use raspberry3_mos.Files.Mapped.{BlockSent, map_from-BlocksMapped}
use raspberry3_mos.Files.Reads.{count_of, file_read_lem}

pub index2fd_lem : (k : ℕ) → k < 32 → index2fd k ≡ fdtable + k * 4096
unfolding as_u64
index2fd_lem k h = let small : leb (2 ^ 31) k ≡ false = ground arith in rw small (omega arith)

pub fd2num_lem : (k : ℕ) → k < 32 → fd2num (index2fd k) ≡ k
unfolding fd2num
fd2num_lem k h = rw (index2fd_lem k h) (omega arith)

pub fd2data_lem : (k : ℕ) → k < 32 → fd2data (index2fd k) ≡ filebase + k * 2 ^ 30
unfolding fd2data as_u64
fd2data_lem k h =
    let small : leb (2 ^ 31) k ≡ false = ground arith in
    rw (fd2num_lem k h) (rw small (omega arith))

module _ {S : Type 0} where
  pub info_at-page :
      (fd : ℕ) (p : Pte) (s : Proc (Client S))
      → s.page (fd / 4096) ≡ some p
      → info_at fd s ≡ s.world.infos p.frame
  info_at-page fd p s h =
      ap (λ (o : Option Pte). elim o [ none ↦ blank_info | some q ↦ s.world.infos q.frame ]) h

  pub fd_at-page :
      (fd : ℕ) (p : Pte) (s : Proc (Client S))
      → s.page (fd / 4096) ≡ some p
      → fd_at fd s ≡ s.fds p.frame
  fd_at-page fd p s h =
      ap (λ (o : Option Pte). elim o [ none ↦ blank_fd | some q ↦ s.fds q.frame ]) h

module _ {S : Type 0} (answer : Request → S → Answer × S) (Good : S → Type 0) (info : Info) (v : Fd)
    (content : ℕ → ℕ) where
  -- The server's answer to the request to open a file
  pub record OpenSent (path : List ℕ) (mode : ℕ) (sv : S) : Type 0 where
    pub value : ℕ
    pub perm : ℕ
    pub frame : ℕ
    pub later : S
    pub run : answer (req_open path mode) sv ≡ (
      record {
        value = value;
        perm = perm;
        page = some (record { frame = frame; contents = filefd v info });
      },
      later,
    )
    pub taken : is_negative value ≡ false
    pub good : Good later

  -- The process behind it
  abbrev with_fd :
      ℕ
      → (path : List ℕ) (mode : ℕ) (sv : S) → OpenSent path mode sv
      → Proc (Client S)
      → Proc (Client S)
  with_fd fd path mode sv b s =
      let w = s.world in
      record s {
        world = record w { server = b.later; infos = update w.infos b.frame info };
        page = update s.page (fd / 4096) (some (record { frame = b.frame; perm = b.perm }));
        fds = update s.fds b.frame v;
      }

  fsipc-fd :
      (fd : ℕ) (path : List ℕ) (mode : ℕ) (s : Proc (Client S))
      (b : OpenSent path mode s.world.server)
      → fsipc answer (req_open path mode) fd s
        ≡ returns (b.value, b.perm) (with_fd fd path mode s.world.server b s)
  unfolding fsipc receive
  fsipc-fd fd path mode s b = rw b.run (rw b.taken refl)

  fsipc_open-fd :
      (fd : ℕ) (path : List ℕ) (mode : ℕ) (s : Proc (Client S))
      (b : OpenSent path mode s.world.server)
      → length path < maxpathlen
      → fsipc_open answer path mode fd s ≡ returns b.value (with_fd fd path mode s.world.server b s)
  unfolding fsipc_open
  fsipc_open-fd fd path mode s b short =
      let fits : leb maxpathlen (length path) ≡ false = ground arith in
      rw fits (>>=-step (fsipc answer (req_open path mode) fd) _ s (fsipc-fd fd path mode s b))

  -- The descriptor `k` is open: its page has come from the server, and the file's bytes stand at
  -- `fd2data`, and what was mapped below the descriptors' data has been left alone.
  pub record Opened (k : ℕ) (s t : Proc (Client S)) : Type 0 where
    pub descriptor : fd_at (index2fd k) t ≡ v
    pub file : info_at (index2fd k) t ≡ info
    pub bytes : (a : ℕ) → a < info.f_size → t.mem (fd2data (index2fd k) + a) ≡ content a
    pub below : (a : ℕ) → a < fd2data (index2fd k) → t.mem a ≡ s.mem a
    pub pages : (q : ℕ) → q < filebase / 4096 → q ≢ index2fd k / 4096 → t.page q ≡ s.page q

  open_path-Opened :
      (k : ℕ) (path : List ℕ) (mode : ℕ) (s : Proc (Client S))
      → k < 32
      → fd_alloc s ≡ returns (index2fd k) s
      → length path < maxpathlen
      → OpenSent path mode s.world.server
      → ((i : ℕ) (sv : S)
          → Good sv
          → i % 4096 ≡ 0
          → i < info.f_size
          → BlockSent answer Good info.f_fileid content i sv)
      → info.f_size ≤ maxfilesize
      → (t : Proc (Client S)) × (open_path answer path mode s ≡ returns k t) × Opened k s t
  unfolding open_path
  open_path-Opened k path mode s low free short b sends small =
      let fd = index2fd k in
      let va = fd2data fd in
      let u = with_fd fd path mode s.world.server b s in
      let place : va ≡ filebase + k * 2 ^ 30 = fd2data_lem k low in
      let page : fd ≡ fdtable + k * 4096 = index2fd_lem k low in
      let here : u.page (fd / 4096) ≡ some (record { frame = b.frame; perm = b.perm }) =
        update-same s.page (fd / 4096) (fd / 4096)
          (some (record { frame = b.frame; perm = b.perm })) refl in
      let p : Pte = record { frame = b.frame; perm = b.perm } in
      let infos = update-same s.world.infos b.frame b.frame info refl in
      let known : info_at fd u ≡ info = info_at-page fd p u here ∙ infos in
      let (t, run, done) =
        map_from-BlocksMapped answer Good info.f_fileid content page_rounds (λ i. i) 0 info.f_size
          va u (λ i h. refl) sends b.good (omega arith) (omega arith) refl (omega arith) small
          (omega arith) in
      let still : t.page (fd / 4096) ≡ some p = done.pages (fd / 4096) (omega arith) ∙ here in
      let start : va + 0 ≡ va = omega arith in
      (
        t,
        >>=-step fd_alloc _ s free
            ∙ >>=-step (fsipc_open answer path mode fd) _ s (fsipc_open-fd fd path mode s b short)
            ∙ ap
                (λ (w : Info).
                  (map_from answer page_rounds (λ i. i) w.f_fileid 0 w.f_size va >>= λ x.
                  returns (fd2num fd))
                    u)
                known
            ∙ >>=-step (map_from answer page_rounds (λ i. i) info.f_fileid 0 info.f_size va)
                (λ x. returns (fd2num fd)) u run
            ∙ ap (λ (n : ℕ). returns n t) (fd2num_lem k low),
        record {
          descriptor =
              fd_at-page fd p t still
              ∙ ap (λ (f : ℕ → Fd). f b.frame) done.fds
              ∙ update-same s.fds b.frame b.frame v refl;
          file = info_at-page fd p t still ∙ ap (λ (f : ℕ → Info). f b.frame) done.infos ∙ infos;
          bytes = λ a h. done.bytes a (omega arith) h;
          below = λ a h. done.below a (omega arith);
          pages = λ q h other.
              done.pages q (omega arith) ∙ update-other s.page (fd / 4096) q (some p) other;
        },
      )

  -- `open` of a path that is not too long comes to its end, where a descriptor is free and the file
  -- server sends the descriptor's page and each block of the file, which is not too large; it returns
  -- the first free descriptor. A read of `n` bytes at an offset up to the size, into a buffer below
  -- the descriptors' data, then gets the bytes of the file from there on: all `n`, or as many as the
  -- file has.
  pub open_path-file_read :
      (k : ℕ) (path : List ℕ) (mode buf n offset : ℕ) (s : Proc (Client S))
      → k < 32
      → fd_alloc s ≡ returns (index2fd k) s
      → length path < maxpathlen
      → OpenSent path mode s.world.server
      → ((i : ℕ) (sv : S)
          → Good sv
          → i % 4096 ≡ 0
          → i < info.f_size
          → BlockSent answer Good info.f_fileid content i sv)
      → info.f_size ≤ maxfilesize
      → offset ≤ info.f_size
      → offset + n < 2 ^ 32
      → buf + n < filebase
      → (t : Proc (Client S)) × (u : Proc (Client S)) × (open_path answer path mode s ≡ returns k t)
        × (file_read answer (index2fd k) buf n offset t ≡ returns (count_of info.f_size n offset) u)
        × ((j : ℕ) → j < count_of info.f_size n offset → u.mem (buf + j) ≡ content (offset + j))
  open_path-file_read k path mode buf n offset s low free short b sends small inside no_wrap
        buffer =
      let fd = index2fd k in
      let (t, run, op) = open_path-Opened k path mode s low free short b sends small in
      let place : fd2data fd ≡ filebase + k * 2 ^ 30 = fd2data_lem k low in
      let size : (info_at fd t).f_size ≡ info.f_size = ap (λ (w : Info). w.f_size) op.file in
      let count : count_of (info_at fd t).f_size n offset ≡ count_of info.f_size n offset =
        ap (λ (z : ℕ). count_of z n offset) size in
      elim (file_read_lem answer fd buf n offset t no_wrap (omega arith) (inl (omega arith))) [
        | inl (behind, ran) ↦ absurd (omega arith)
        | inr (upto, u, ran, bytes) ↦ (
          t,
          u,
          run,
          ran ∙ ap (λ (c : ℕ). returns c u) count,
          λ j h.
              let mine : j < count_of (info_at fd t).f_size n offset =
                subst (λ (c : ℕ). j < c) (sym count) h in
              let within_file : offset + j < info.f_size = ground arith in
              let sum : fd2data fd + offset + j ≡ fd2data fd + (offset + j) = omega arith in
              bytes.got j mine ∙ ap t.mem sum ∙ op.bytes (offset + j) within_file,
        )
      ]
