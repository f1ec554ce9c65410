-- ===== src/Spawn/Loaded.antt =====
-- `usr_load_elf` (user/spawn.c) leaves the segment in the memory of the new program.
use raspberry3_mos.Base.{
  ℕ, zero, suc, ◌+◌, ◌-◌, ◌*◌, ◌/◌, ◌%◌, ◌^◌, ◌≤◌, ◌<◌, ◌≡◌, ◌≢◌, refl, subst, ◌∙◌, ap, ◌⊎◌, inl,
  inr, true, false, ltb, ◌==◌, if◌then◌else◌, Option, none, some, Bool-cases, Option-cases, arith,
}
use raspberry3_mos.Pmap.{update-same}
use raspberry3_mos.Pmap.Zero.{within}
use raspberry3_mos.Fd.{Pte}
use raspberry3_mos.Elf.Pages.{sum64, page_offset, min}
use raspberry3_mos.User.{Machine, gives, pure, ◌>>=◌, user_perm, mem_alloc}
use raspberry3_mos.User.Run.{>>=-step}
use raspberry3_mos.User.Calls.{mem_alloc-step}
use raspberry3_mos.Files.Grows.{as_u64-small}
use raspberry3_mos.Spawn.Load.{Program, change_page, read_file, load_page, load_first, load_rest}
use raspberry3_mos.Spawn.View.{
  Alone, view, patched, changed, change_page-step, changed-Alone, changed-view, with_zeros,
  with_zeros-at, with_zeros-Alone, with_zeros-view,
}

module _ (frame : ℕ → ℕ) (child : ℕ) (read : ℕ → ℕ → ℕ ⊎ (ℕ → ℕ)) (file : ℕ → ℕ) where
  -- The file gives the bytes that are asked for, and the kernel's frames differ.
  pub record Grants : Type 0 where
    pub reads : (o n : ℕ) → read o n ≡ inr (λ j. file (o + j))
    pub differ : (i j : ℕ) → frame i ≡ frame j → i ≡ j
    pub other : child ≢ 0

  -- The byte `k` of a segment
  abbrev pub content : Program → ℕ → ℕ
  content ph k = if ltb k ph.filesz then file (ph.offset + k) else 0

  -- The first `i` bytes of the segment are where the child sees them.
  pub record Loaded (ph : Program) (i : ℕ) (m : Machine) : Type 0 where
    pub alone : Alone frame child m
    pub bytes : (k : ℕ) → k < i → view frame child m (ph.vaddr + k) ≡ some (content ph k)

  pub more-Loaded :
      (ph : Program) (i size : ℕ) (m t : Machine)
      → Loaded ph i m
      → Alone frame child t
      → ((k : ℕ) → k < i → view frame child t (ph.vaddr + k) ≡ view frame child m (ph.vaddr + k))
      → ((k : ℕ) → i ≤ k → k < i + size → view frame child t (ph.vaddr + k) ≡ some (content ph k))
      → Loaded ph (i + size) t
  more-Loaded ph i size m t before alone old new = record {
    alone = alone;
    bytes = λ k h. elim (Bool-cases (ltb k i)) [
      | inl low ↦ old k (ground arith) ∙ before.bytes k (ground arith)
      | inr high ↦ new k (ground arith) h
    ];
  }

  load_page-step :
      (va o start size : ℕ) (m : Machine)
      → Grants
      → Alone frame child m
      → (t : Machine) × (load_page read child va o start size m ≡ gives tt t)
        × Alone frame child t
        × ((a : ℕ)
            → view frame child t a
              ≡ patched frame child va
                  (λ j. file (o + j))
                  start
                  size
                  (λ q. 0)
                  (view frame child m)
                  a)
  unfolding load_page read_file
  load_page-step va o start size m g al =
      let buf = λ (j : ℕ). file (o + j) in
      let f = frame m.requests in
      let p : Pte = record { frame = f; perm = user_perm } in
      let s = with_zeros frame child va m in
      let als = with_zeros-Alone frame child va m g.differ al in
      let t = changed frame child f buf start size s in
      let own : (va / 4096 == va / 4096) ≡ true = ground arith in
      let here : s.entry child (va / 4096) ≡ some p =
        with_zeros-at frame child va m (va / 4096) ∙ rw own refl in
      let zeroed : ◌≡◌ {A = ℕ → ℕ} (s.bytes f) (λ q. 0) = update-same m.bytes f f (λ q. 0) refl in
      let got : read_file read child o size s ≡ gives buf s = rw (read_file, g.reads o size) refl in
      (
        t,
        >>=-step (mem_alloc child va user_perm)
              (λ x. read_file read child o size >>= λ b. change_page child va b start size) m
              (mem_alloc-step child va user_perm f m al.known (al.answers m.requests))
            ∙ >>=-step (read_file read child o size) (λ b. change_page child va b start size) s got
            ∙ change_page-step frame child va buf start size s p als here,
        changed-Alone frame child f buf start size s g.other als,
        λ a.
            changed-view frame child va buf start size s p a g.other als here
            ∙ ap (λ (w : ℕ → ℕ). patched frame child va buf start size w (view frame child s) a)
                zeroed
            ∙ elim (Bool-cases (a / 4096 == va / 4096)) [
              | inl inside ↦ rw inside refl
              | inr outside ↦ rw outside (with_zeros-view frame child va m a al ∙ rw outside refl)
            ],
      )

  pub load_first-Loaded :
      (ph : Program) (m : Machine)
      → Grants
      → Alone frame child m
      → ph.vaddr + ph.filesz + 8192 < 2 ^ 64
      → (i : ℕ) × (t : Machine) × (load_first read child ph m ≡ gives i t)
        × Loaded ph i t
        × (i ≤ ph.filesz)
        × (((ph.vaddr + i) % 4096 ≡ 0) ⊎ (ph.filesz ≤ i))
  unfolding load_first
  load_first-Loaded ph m g al low =
      let va = ph.vaddr in
      let plain : (va + 0) % 2 ^ 64 ≡ va = omega arith in
      elim (Bool-cases (ltb 0 (page_offset va))) [
        | inr page ↦ (
          0,
          m,
          rw plain (rw page refl),
          record { alone = al; bytes = λ k h. absurd (omega arith) },
          omega arith,
          inl (ground arith),
        )
        | inl part ↦
            let start = page_offset va in
            let size = min ph.filesz (4096 - start) in
            let (t, run, alone, sees) = load_page-step va ph.offset start size m g al in
            (
              size,
              t,
              rw plain (
                  rw part (
                    >>=-step (load_page read child va ph.offset start size) (λ x. pure size) m
                      run)),
              record {
                alone = alone;
                bytes = λ k h.
                    let page : ((va + k) / 4096 == va / 4096) ≡ true = ground arith in
                    let inside : within ((va + k) % 4096) start (start + size) ≡ true =
                      ground arith in
                    let place : ph.offset + ((va + k) % 4096 - start) ≡ ph.offset + k =
                      ground arith in
                    let known : ltb k ph.filesz ≡ true = ground arith in
                    sees (va + k)
                    ∙ rw page (rw inside (rw known (ap (λ (j : ℕ). some (file j)) place)));
              },
              ground arith,
              ground arith,
            )
      ]

  -- A page of the file behind the bytes that are there
  load_round :
      (ph : Program) (i : ℕ) (m : Machine)
      → Grants
      → Loaded ph i m
      → ph.vaddr + ph.filesz + 8192 < 2 ^ 64
      → ph.offset + ph.filesz < 2 ^ 64
      → i < ph.filesz
      → (ph.vaddr + i) % 4096 ≡ 0
      → (t : Machine) × (load_page read child
            (sum64 ph.vaddr i)
            (sum64 ph.offset i)
            0
            (min (ph.filesz - i) 4096)
            m
          ≡ gives tt t)
        × Loaded ph (i + min (ph.filesz - i) 4096) t
  load_round ph i m g before low small more aligned =
      let va = ph.vaddr in
      let size = min (ph.filesz - i) 4096 in
      let at_va : sum64 va i ≡ va + i = omega arith in
      let at_file : sum64 ph.offset i ≡ ph.offset + i = omega arith in
      let (t, run, alone, sees) = load_page-step (va + i) (ph.offset + i) 0 size m g before.alone in
      (
        t,
        ap (λ (a : ℕ). load_page read child a (sum64 ph.offset i) 0 size m) at_va
            ∙ ap (λ (o : ℕ). load_page read child (va + i) o 0 size m) at_file
            ∙ run,
        more-Loaded ph i size m t before alone
            (λ k h.
              let page : ((va + k) / 4096 == (va + i) / 4096) ≡ false = ground arith in
              sees (va + k) ∙ rw page refl)
            (λ k l h.
              let page : ((va + k) / 4096 == (va + i) / 4096) ≡ true = ground arith in
              let inside : within ((va + k) % 4096) 0 (0 + size) ≡ true = ground arith in
              let place : ph.offset + i + ((va + k) % 4096 - 0) ≡ ph.offset + k = ground arith in
              let known : ltb k ph.filesz ≡ true = ground arith in
              sees (va + k) ∙ rw page (rw inside (rw known (ap (λ (j : ℕ). some (file j)) place)))),
      )

  -- The loop where `i` is not negative
  load_rest-stop :
      (n : ℕ) (ph : Program) (i : ℕ) (m : Machine)
      → i < 2 ^ 31
      → ltb i ph.filesz ≡ false
      → load_rest read child n ph i m ≡ gives i m
  unfolding load_rest
  load_rest-stop zero ph i m plain stop = rw (as_u64-small i plain) (rw stop refl)
  load_rest-stop (suc n) ph i m plain stop = rw (as_u64-small i plain) (rw stop refl)

  load_rest-step :
      (n : ℕ) (ph : Program) (i : ℕ) (m t : Machine)
      → ph.filesz < 2 ^ 31
      → ltb i ph.filesz ≡ true
      → load_page read child (sum64 ph.vaddr i) (sum64 ph.offset i) 0 (min (ph.filesz - i) 4096) m
        ≡ gives tt t
      → load_rest read child (suc n) ph i m
        ≡ load_rest read child n ph (i + min (ph.filesz - i) 4096) t
  unfolding load_rest
  load_rest-step n ph i m t plain more run =
      let size = min (ph.filesz - i) 4096 in
      let next : (i + size) % 2 ^ 32 ≡ i + size = ground arith in
      rw (as_u64-small i (ground arith)) (
        rw more (
          >>=-step (load_page read child (sum64 ph.vaddr i) (sum64 ph.offset i) 0 size)
            (λ x. load_rest read child n ph ((i + size) % 2 ^ 32)) m run
          ∙ ap (λ (j : ℕ). load_rest read child n ph j t) next))

  pub load_rest-Loaded :
      (n : ℕ) (ph : Program) (i : ℕ) (m : Machine)
      → Grants
      → Loaded ph i m
      → ph.vaddr + ph.filesz + 8192 < 2 ^ 64
      → ph.offset + ph.filesz < 2 ^ 64
      → ph.filesz < 2 ^ 31
      → i ≤ ph.filesz
      → ((ph.vaddr + i) % 4096 ≡ 0) ⊎ (ph.filesz ≤ i)
      → ph.filesz ≤ i + 4096 * n
      → (t : Machine) × (load_rest read child n ph i m ≡ gives ph.filesz t) × Loaded ph ph.filesz t
  load_rest-Loaded zero ph i m g before low small plain upto page enough =
      let stop : ltb i ph.filesz ≡ false = ground arith in
      let e : i ≡ ph.filesz = omega arith in
      (
        m,
        load_rest-stop zero ph i m (omega arith) stop ∙ ap (λ (j : ℕ). gives j m) e,
        subst (λ (j : ℕ). Loaded ph j m) e before,
      )
  load_rest-Loaded (suc n) ph i m g before low small plain upto page enough =
      elim (Bool-cases (ltb i ph.filesz)) [
        | inr stop ↦
            let e : i ≡ ph.filesz = ground arith in
            (
              m,
              load_rest-stop (suc n) ph i m (omega arith) stop ∙ ap (λ (j : ℕ). gives j m) e,
              subst (λ (j : ℕ). Loaded ph j m) e before,
            )
        | inl more ↦
            let size = min (ph.filesz - i) 4096 in
            let start : (ph.vaddr + i) % 4096 ≡ 0 = ground arith in
            let next : ((ph.vaddr + (i + size)) % 4096 ≡ 0) ⊎ (ph.filesz ≤ i + size) =
              ground arith in
            let (t, run, later) = load_round ph i m g before low small (ground arith) start in
            let (u, runs, done) =
              load_rest-Loaded n ph (i + size) t g later low small plain (ground arith) next
                (ground arith) in
            (u, load_rest-step n ph i m t plain more run ∙ runs, done)
      ]

  -- The page at the end of the file's bytes, where these end within one
  pub edge_page :
      (ph : Program) (m : Machine)
      → Loaded ph ph.filesz m
      → 0 < ph.filesz
      → (ph.vaddr + ph.filesz) % 4096 ≢ 0
      → (p : Pte) × (m.entry child ((ph.vaddr + ph.filesz) / 4096) ≡ some p)
  edge_page ph m before some_bytes within_page =
      elim (Option-cases (m.entry child ((ph.vaddr + ph.filesz) / 4096))) [
        | inr (p, here) ↦ (p, here)
        | inl empty ↦
            let last = ph.filesz - 1 in
            let same : (ph.vaddr + last) / 4096 ≡ (ph.vaddr + ph.filesz) / 4096 = omega arith in
            let none_there : m.entry child ((ph.vaddr + last) / 4096) ≡ none =
              ap (m.entry child) same ∙ empty in
            let sees = before.bytes last (omega arith) in
            let nothing : view frame child m (ph.vaddr + last) ≡ none =
              ap
                (λ (o : Option Pte). elim o [
                  | none ↦ none
                  | some q ↦ some (m.bytes q.frame ((ph.vaddr + last) % 4096))
                ])
                none_there in
            absurd cc
      ]
