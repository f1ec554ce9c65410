-- ===== src/Files/Mapped.antt =====
-- The loops over `fsipc_map` (user/file.c, user/fsipc.c): what they map, and what they leave alone.
use raspberry3_mos.Base.{
  ℕ, zero, suc, ◌+◌, ◌-◌, ◌*◌, ◌/◌, ◌%◌, ◌^◌, ◌≤◌, ◌<◌, ◌≡◌, refl, sym, ◌∙◌, ap, inl, inr, true,
  false, ltb, leb, if◌then◌else◌, some, Bool-cases, arith,
}
use raspberry3_mos.Pmap.{update, update-other}
use raspberry3_mos.Pmap.Zero.{within}
use raspberry3_mos.Fd.{Proc, returns}
use raspberry3_mos.Fd.Run.{>>=-step}
use raspberry3_mos.Files.{
  Request, req_map, Answer, Client, block, maxfilesize, is_negative, is_block_perm, receive, fsipc,
  fsipc_map,
}
use raspberry3_mos.Files.Device.{u32_next, map_from}

module _ {S : Type 0} (answer : Request → S → Answer × S) (Good : S → Type 0) (fileid : ℕ)
    (content : ℕ → ℕ) where
  -- The server's answer to a request for the block at the byte `i` of the file
  pub record BlockSent (i : ℕ) (sv : S) : Type 0 where
    pub value : ℕ
    pub perm : ℕ
    pub frame : ℕ
    pub bytes : ℕ → ℕ
    pub later : S
    pub run : answer (req_map fileid i) sv ≡ (
      record {
        value = value;
        perm = perm;
        page = some (record { frame = frame; contents = block bytes });
      },
      later,
    )
    pub taken : is_negative value ≡ false
    pub allowed : is_block_perm perm ≡ true
    pub holds : (o : ℕ) → o < 4096 → bytes o ≡ content (i + o)
    pub good : Good later

  -- The process behind it
  abbrev with_block : ℕ → (i : ℕ) (sv : S) → BlockSent i sv → Proc (Client S) → Proc (Client S)
  with_block dstva i sv b s =
      let w = s.world in
      let start = dstva / 4096 * 4096 in
      record s {
        world = record w { server = b.later };
        page = update s.page (dstva / 4096) (some (record { frame = b.frame; perm = b.perm }));
        mem = λ a. if within a start (start + 4096) then b.bytes (a - start) else s.mem a;
      }

  fsipc-block :
      (dstva i : ℕ) (s : Proc (Client S)) (b : BlockSent i s.world.server)
      → fsipc answer (req_map fileid i) dstva s
        ≡ returns (b.value, b.perm) (with_block dstva i s.world.server b s)
  unfolding fsipc receive
  fsipc-block dstva i s b = rw b.run (rw b.taken refl)

  fsipc_map-block :
      (dstva i : ℕ) (s : Proc (Client S)) (b : BlockSent i s.world.server)
      → fsipc_map answer fileid i dstva s ≡ returns tt (with_block dstva i s.world.server b s)
  unfolding fsipc_map
  fsipc_map-block dstva i s b =
      let allowed = b.allowed in
      >>=-step (fsipc answer (req_map fileid i) dstva) _ s (fsipc-block dstva i s b)
      ∙ rw allowed refl

  -- The blocks from the byte `i` on and below `limit` are mapped, at `va`.
  pub record BlocksMapped (va i limit : ℕ) (s t : Proc (Client S)) : Type 0 where
    pub good : Good t.world.server
    pub infos : t.world.infos ≡ s.world.infos
    pub fds : t.fds ≡ s.fds
    pub pages : (q : ℕ) → q < (va + i) / 4096 → t.page q ≡ s.page q
    pub below : (a : ℕ) → a < va + i → t.mem a ≡ s.mem a
    pub bytes : (a : ℕ) → i ≤ a → a < limit → t.mem (va + a) ≡ content a

  with_block-mem :
      (va i : ℕ) (s : Proc (Client S)) (b : BlockSent i s.world.server) (a : ℕ)
      → va % 4096 ≡ 0
      → i % 4096 ≡ 0
      → (with_block (va + i) i s.world.server b s).mem a
        ≡ (if within a (va + i) (va + i + 4096) then b.bytes (a - (va + i)) else s.mem a)
  with_block-mem va i s b a page whole =
      let start : (va + i) / 4096 * 4096 ≡ va + i = omega arith in
      ap (λ (k : ℕ). if within a k (k + 4096) then b.bytes (a - k) else s.mem a) start

  nothing-BlocksMapped :
      (va i limit : ℕ) (s : Proc (Client S))
      → Good s.world.server
      → limit ≤ i
      → BlocksMapped va i limit s s
  nothing-BlocksMapped va i limit s good done = record {
    good = good;
    infos = refl;
    fds = refl;
    pages = λ q h. refl;
    below = λ a h. refl;
    bytes = λ a low high. absurd (omega arith);
  }

  join-BlocksMapped :
      (va i limit : ℕ) (s t : Proc (Client S)) (b : BlockSent i s.world.server)
      → va % 4096 ≡ 0
      → i % 4096 ≡ 0
      → BlocksMapped va (i + 4096) limit (with_block (va + i) i s.world.server b s) t
      → BlocksMapped va i limit s t
  join-BlocksMapped va i limit s t b page whole rest = record {
    good = rest.good;
    infos = rest.infos;
    fds = rest.fds;
    pages = λ q h.
        rest.pages q (omega arith)
        ∙ update-other s.page ((va + i) / 4096) q (some (record { frame = b.frame; perm = b.perm }))
            (omega arith);
    below = λ a h.
        let out : within a (va + i) (va + i + 4096) ≡ false = ground arith in
        rest.below a (omega arith) ∙ with_block-mem va i s b a page whole ∙ rw out refl;
    bytes = λ a low high. elim (Bool-cases (leb (i + 4096) a)) [
      | inl later ↦ rest.bytes a (ground arith) high
      | inr here ↦
          let inside : within (va + a) (va + i) (va + i + 4096) ≡ true = ground arith in
          let offset : va + a - (va + i) ≡ a - i = omega arith in
          let place : i + (a - i) ≡ a = omega arith in
          rest.below (va + a) (ground arith)
          ∙ with_block-mem va i s b (va + a) page whole
          ∙ rw inside (ap b.bytes offset ∙ b.holds (a - i) (ground arith) ∙ ap content place)
    ];
  }

  map_from-more :
      (n : ℕ) (wide : ℕ → ℕ) (i limit va : ℕ) (s u : Proc (Client S))
      → ltb (wide i) limit ≡ true
      → fsipc_map answer fileid i ((va + wide i) % 2 ^ 64) s ≡ returns tt u
      → map_from answer (suc n) wide fileid i limit va s
        ≡ map_from answer n wide fileid (u32_next i) limit va u
  unfolding map_from
  map_from-more n wide i limit va s u more first =
      rw more (>>=-step (fsipc_map answer fileid i ((va + wide i) % 2 ^ 64)) _ s first)

  map_from-stop :
      (n : ℕ) (wide : ℕ → ℕ) (i limit va : ℕ) (s : Proc (Client S))
      → ltb (wide i) limit ≡ false
      → map_from answer n wide fileid i limit va s ≡ returns tt s
  unfolding map_from
  map_from-stop zero wide i limit va s stop = rw stop refl
  map_from-stop (suc n) wide i limit va s stop = rw stop refl

  -- The loop over the blocks comes to its end where the server sends each of them, and maps them.
  pub map_from-BlocksMapped :
      (n : ℕ) (wide : ℕ → ℕ) (i limit va : ℕ) (s : Proc (Client S))
      → ((k : ℕ) → k < 2 ^ 31 → wide k ≡ k)
      → ((k : ℕ) (sv : S) → Good sv → k % 4096 ≡ 0 → k < limit → BlockSent k sv)
      → Good s.world.server
      → va % 4096 ≡ 0
      → va < 2 ^ 62
      → i % 4096 ≡ 0
      → limit ≤ i + 4096 * n
      → limit ≤ maxfilesize
      → i ≤ maxfilesize
      → (t : Proc (Client S)) × (map_from answer n wide fileid i limit va s ≡ returns tt t)
        × BlocksMapped va i limit s t
  map_from-BlocksMapped zero wide i limit va s reads sends good page low whole enough small start =
      let is : wide i ≡ i = reads i (omega arith) in
      let stop : ltb (wide i) limit ≡ false = rw is (ground arith) in
      (
        s,
        map_from-stop 0 wide i limit va s stop,
        nothing-BlocksMapped va i limit s good (omega arith),
      )
  map_from-BlocksMapped (suc n) wide i limit va s reads sends good page low whole enough small
        start =
      let is : wide i ≡ i = reads i (omega arith) in
      elim (Bool-cases (ltb (wide i) limit)) [
        | inr stop ↦
            let done : ltb i limit ≡ false = sym (ap (λ (k : ℕ). ltb k limit) is) ∙ stop in
            (
              s,
              map_from-stop (suc n) wide i limit va s stop,
              nothing-BlocksMapped va i limit s good (ground arith),
            )
        | inl more ↦
            let before : ltb i limit ≡ true = sym (ap (λ (k : ℕ). ltb k limit) is) ∙ more in
            let b = sends i s.world.server good whole (ground arith) in
            let u = with_block (va + i) i s.world.server b s in
            let next : u32_next i ≡ i + 4096 = ground arith in
            let place : (va + wide i) % 2 ^ 64 ≡ va + i = rw is (omega arith) in
            let (t, run, rest) =
              map_from-BlocksMapped n wide (i + 4096) limit va u reads sends b.good page low
                (omega arith) (omega arith) small (ground arith) in
            let first : fsipc_map answer fileid i ((va + wide i) % 2 ^ 64) s ≡ returns tt u =
              ap (λ (a : ℕ). fsipc_map answer fileid i a s) place
              ∙ fsipc_map-block (va + i) i s b in
            (
              t,
              map_from-more n wide i limit va s u more first
                  ∙ ap (λ (k : ℕ). map_from answer n wide fileid k limit va u) next
                  ∙ run,
              join-BlocksMapped va i limit s t b page whole rest,
            )
      ]
