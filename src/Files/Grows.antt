-- ===== src/Files/Grows.antt =====
-- `ftruncate` to a larger size (user/file.c), and a write behind the end of a file with it.
use raspberry3_mos.Base.{
  ℕ, zero, suc, ◌+◌, ◌/◌, ◌%◌, ◌^◌, ◌≤◌, ◌<◌, ◌≡◌, refl, ◌∙◌, ap, true, false, ltb, leb, Option,
  none, some, arith,
}
use raspberry3_mos.Pmap.{update}
use raspberry3_mos.Serve.{as_u64}
use raspberry3_mos.Serve.Requests.{dev_file}
use raspberry3_mos.Fd.{
  Pte, Proc, Result, returns, fails, aborts, unfinished, index2fd, fd2data, fd_lookup, is_mapped,
  ◌>>=◌, ignore,
}
use raspberry3_mos.Fd.Run.{>>=-step}
use raspberry3_mos.Files.{
  Request, req_set_size, Answer, Client, maxfilesize, is_negative, info_at, set_size_at, receive,
  fsipc, fsipc_set_size,
}
use raspberry3_mos.Files.Device.{page_rounds, round_page, map_from, unmap_from, map_grown}
use raspberry3_mos.Files.Mapped.{BlockSent, BlocksMapped, map_from-BlocksMapped}

pub as_u64-small : (k : ℕ) → k < 2 ^ 31 → as_u64 k ≡ k
unfolding as_u64
as_u64-small k h = let small : leb (2 ^ 31) k ≡ false = ground arith in rw small refl

-- The descriptor `k` of a file is on the page `p`.
pub record IsFile {S : Type 0} (k : ℕ) (p : Pte) (s : Proc (Client S)) : Type 0 where
  pub number : k < 32
  pub page : s.page (index2fd k / 4096) ≡ some p
  pub device : (s.fds p.frame).fd_dev_id ≡ dev_file

module _ {S : Type 0} where
  pub fd_lookup-file :
      (k : ℕ) (p : Pte) (s : Proc (Client S))
      → IsFile k p s
      → fd_lookup k s ≡ returns (index2fd k) s
  unfolding fd_lookup
  fd_lookup-file k p s f =
      let low = f.number in
      let small : leb 32 k ≡ false = ground arith in
      let mapped : is_mapped (index2fd k) s ≡ true =
        ap (λ (o : Option Pte). elim o [ none ↦ false | some q ↦ true ]) f.page in
      rw small (rw mapped refl)

  abbrev pub with_size : ℕ → Pte → Proc (Client S) → Proc (Client S)
  with_size size p s =
      let w = s.world in
      let old = w.infos p.frame in
      record s {
        world = record w { infos = update w.infos p.frame (record old { f_size = size }) };
      }

  pub set_size_at-page :
      (fd size : ℕ) (p : Pte) (s : Proc (Client S))
      → s.page (fd / 4096) ≡ some p
      → set_size_at fd size s ≡ with_size size p s
  unfolding set_size_at
  set_size_at-page fd size p s h = rw (set_size_at, h) refl

  abbrev pub with_server : S → Proc (Client S) → Proc (Client S)
  with_server later s = let w = s.world in record s { world = record w { server = later } }

module _ {S : Type 0} (answer : Request → S → Answer × S) where
  map_grown-step :
      (fileid old size va : ℕ) (s t : Proc (Client S))
      → map_from answer page_rounds as_u64 fileid (round_page old % 2 ^ 32) (round_page size) va s
        ≡ returns tt t
      → map_grown answer fileid old size va s ≡ returns tt t
  unfolding map_grown
  map_grown-step fileid old size va s t h = ap finish h
    where
      finish : Result (Client S) (Unit {0}) → Result (Client S) (Unit {0})
      finish r = elim r [
        | returns x t ↦ returns tt t
        | fails e t ↦ (do x ← ignore (fsipc_set_size answer fileid old); (λ u. fails e u)) t
        | aborts ↦ aborts
        | unfinished ↦ unfinished
      ]

  unmap_from-none :
      (n : ℕ) (wide : ℕ → ℕ) (i limit va : ℕ) (s : Proc (Client S))
      → ltb (wide i) limit ≡ false
      → unmap_from answer n wide i limit va s ≡ returns tt s
  unfolding unmap_from
  unmap_from-none zero wide i limit va s stop = rw stop refl
  unmap_from-none (suc n) wide i limit va s stop = rw stop refl

  -- The requests and mappings of a larger size, behind the store to `f_size`
  abbrev pub grow_steps : ℕ → ℕ → ℕ → ℕ → Proc (Client S) → Result (Client S) ℕ
  grow_steps fid old size va = do
    r ← fsipc_set_size answer fid size
    x ← map_grown answer fid old size va
    y ← unmap_from answer page_rounds as_u64 (round_page size) (round_page old) va
    returns 0

module _ {S : Type 0} (answer : Request → S → Answer × S) (Good : S → Type 0) (fileid : ℕ) where
  -- The server's answer to a new size
  pub record SizeSet (size : ℕ) (sv : S) : Type 0 where
    pub value : ℕ
    pub perm : ℕ
    pub later : S
    pub run :
        answer (req_set_size fileid size) sv
        ≡ (record { value = value; perm = perm; page = none }, later)
    pub taken : is_negative value ≡ false
    pub good : Good later

  fsipc-size :
      (size : ℕ) (s : Proc (Client S)) (b : SizeSet size s.world.server)
      → fsipc answer (req_set_size fileid size) 0 s
        ≡ returns (b.value, b.perm) (with_server b.later s)
  unfolding fsipc receive
  fsipc-size size s b = rw b.run (rw b.taken refl)

  fsipc_set_size-step :
      (size : ℕ) (s : Proc (Client S)) (b : SizeSet size s.world.server)
      → fsipc_set_size answer fileid size s ≡ returns b.value (with_server b.later s)
  unfolding fsipc_set_size
  fsipc_set_size-step size s b =
      >>=-step (fsipc answer (req_set_size fileid size) 0) _ s (fsipc-size size s b)

module _ {S : Type 0} (answer : Request → S → Answer × S) (Good : S → Type 0) (fileid : ℕ)
    (content : ℕ → ℕ) where
  -- The blocks of a file that has grown are mapped behind the ones that it had.
  pub record Grown (k size : ℕ) (p : Pte) (s t : Proc (Client S)) : Type 0 where
    pub is_file : IsFile k p t
    pub size_set : (info_at (index2fd k) t).f_size ≡ size
    pub below :
        (a : ℕ)
        → a < fd2data (index2fd k) + round_page (info_at (index2fd k) s).f_size
        → t.mem a ≡ s.mem a
    pub bytes :
        (a : ℕ)
        → round_page (info_at (index2fd k) s).f_size ≤ a
        → a < size
        → t.mem (fd2data (index2fd k) + a) ≡ content a
    pub good : Good t.world.server

  pub grow_steps-BlocksMapped :
      (old size va : ℕ) (s : Proc (Client S)) (b : SizeSet answer Good fileid size s.world.server)
      → ((i : ℕ) (sv : S)
          → Good sv
          → i % 4096 ≡ 0
          → i < round_page size
          → BlockSent answer Good fileid content i sv)
      → old ≤ size
      → size ≤ maxfilesize
      → va % 4096 ≡ 0
      → va < 2 ^ 62
      → (t : Proc (Client S)) × (grow_steps answer fileid old size va s ≡ returns 0 t)
        × BlocksMapped answer Good fileid content va
            (round_page old)
            (round_page size)
            (with_server b.later s)
            t
  grow_steps-BlocksMapped old size va s b sends grows small page low =
      let u = with_server b.later s in
      let i = round_page old in
      let start : i % 2 ^ 32 ≡ i = omega arith in
      let (t, run, done) =
        map_from-BlocksMapped answer Good fileid content page_rounds as_u64 i (round_page size) va u
          as_u64-small sends b.good page low (omega arith) (omega arith) (omega arith)
          (omega arith) in
      let mapped = map_grown-step answer fileid old size va u t (
        ap (λ (k : ℕ). map_from answer page_rounds as_u64 fileid k (round_page size) va u) start
        ∙ run) in
      let wide = as_u64-small (round_page size) (omega arith) in
      let stop : ltb (as_u64 (round_page size)) (round_page old) ≡ false =
        ap (λ (k : ℕ). ltb k (round_page old)) wide ∙ ground arith in
      let unmap = unmap_from answer page_rounds as_u64 (round_page size) (round_page old) va in
      (
        t,
        >>=-step (fsipc_set_size answer fileid size)
              (λ r. map_grown answer fileid old size va >>= λ x. (unmap >>= λ y. returns 0)) s
              (fsipc_set_size-step answer Good fileid size s b)
            ∙ >>=-step (map_grown answer fileid old size va) (λ x. unmap >>= λ y. returns 0) u
                mapped
            ∙ >>=-step unmap (λ y. returns 0) t
                (unmap_from-none answer page_rounds as_u64 (round_page size) (round_page old) va t
                  stop),
        done,
      )
