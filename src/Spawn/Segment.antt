-- ===== src/Spawn/Segment.antt =====
-- The zeros of a segment, and `usr_load_elf` (user/spawn.c) as a whole.
use raspberry3_mos.Base.{
  ℕ, zero, suc, ◌+◌, ◌-◌, ◌*◌, ◌/◌, ◌%◌, ◌^◌, ◌≤◌, ◌<◌, ◌≡◌, refl, sym, subst, ◌∙◌, ap, ◌⊎◌, inl,
  inr, true, false, ltb, ◌==◌, some, Bool-cases, arith,
}
use raspberry3_mos.Pmap.Zero.{within}
use raspberry3_mos.Elf.Pages.{sum64, page_offset, min, rounds}
use raspberry3_mos.User.{Machine, gives, pure, ◌>>=◌, user_perm, mem_alloc}
use raspberry3_mos.User.Run.{>>=-step}
use raspberry3_mos.User.Calls.{mem_alloc-step}
use raspberry3_mos.Files.Grows.{as_u64-small}
use raspberry3_mos.Spawn.Load.{
  Program, change_page, load_first, load_rest, clear_edge, clear_rest, usr_load_elf,
}
use raspberry3_mos.Spawn.View.{
  Alone, view, view-page, changed, change_page-step, changed-Alone, changed-view, with_zeros,
  with_zeros-Alone, with_zeros-view,
}
use raspberry3_mos.Spawn.Loaded.{
  Grants, Loaded, more-Loaded, load_first-Loaded, load_rest-Loaded, edge_page,
}

module _ (frame : ℕ → ℕ) (child : ℕ) (read : ℕ → ℕ → ℕ ⊎ (ℕ → ℕ)) (file : ℕ → ℕ) where
  -- `clear_edge` where `i` is not negative
  clear_edge-none :
      (ph : Program) (i : ℕ) (m : Machine)
      → ph.vaddr + ph.memsz + 8192 < 2 ^ 64
      → ph.memsz < 2 ^ 31
      → i ≤ ph.memsz
      → ltb 0 (page_offset (ph.vaddr + i)) ≡ false
      → clear_edge read child ph i m ≡ gives i m
  unfolding clear_edge
  clear_edge-none ph i m low plain fits page =
      let at_va : sum64 ph.vaddr i ≡ ph.vaddr + i = omega arith in
      rw (as_u64-small i (omega arith)) (rw at_va (rw page refl))

  clear_edge-step :
      (ph : Program) (i : ℕ) (m t : Machine)
      → ph.vaddr + ph.memsz + 8192 < 2 ^ 64
      → ph.memsz < 2 ^ 31
      → i ≤ ph.memsz
      → ltb 0 (page_offset (ph.vaddr + i)) ≡ true
      → change_page child
          (ph.vaddr + i)
          (λ o. 0)
          (page_offset (ph.vaddr + i))
          (min (ph.memsz - i) (4096 - page_offset (ph.vaddr + i)))
          m
        ≡ gives tt t
      → clear_edge read child ph i m
        ≡ gives (i + min (ph.memsz - i) (4096 - page_offset (ph.vaddr + i))) t
  unfolding clear_edge
  clear_edge-step ph i m t low plain fits part run =
      let va = ph.vaddr + i in
      let start = page_offset va in
      let size = min (ph.memsz - i) (4096 - start) in
      let at_va : sum64 ph.vaddr i ≡ va = omega arith in
      let left : (ph.memsz + 2 ^ 64 - i) % 2 ^ 64 ≡ ph.memsz - i = omega arith in
      let next : (i + size) % 2 ^ 32 ≡ i + size = ground arith in
      rw (as_u64-small i (omega arith)) (
        rw (at_va, left)
          (rw part (
            >>=-step (change_page child va (λ o. 0) start size) (λ x. pure ((i + size) % 2 ^ 32)) m
              run
            ∙ ap (λ (j : ℕ). gives j t) next)))

  clear_edge-Loaded :
      (ph : Program) (m : Machine)
      → Grants frame child read file
      → Loaded frame child read file ph ph.filesz m
      → ph.vaddr + ph.memsz + 8192 < 2 ^ 64
      → ph.memsz < 2 ^ 31
      → 0 < ph.filesz
      → ph.filesz ≤ ph.memsz
      → (i : ℕ) × (t : Machine) × (clear_edge read child ph ph.filesz m ≡ gives i t)
        × Loaded frame child read file ph i t
        × (ph.filesz ≤ i)
        × (i ≤ ph.memsz)
        × (((ph.vaddr + i) % 4096 ≡ 0) ⊎ (ph.memsz ≤ i))
  clear_edge-Loaded ph m g before low plain some_bytes fits =
      let va = ph.vaddr in
      let i = ph.filesz in
      let start = page_offset (va + i) in
      let size = min (ph.memsz - i) (4096 - start) in
      elim (Bool-cases (ltb 0 start)) [
        | inr page ↦ (
          i,
          m,
          clear_edge-none ph i m low plain fits page,
          before,
          omega arith,
          fits,
          inl (ground arith),
        )
        | inl part ↦
            let (p, here) = edge_page frame child read file ph m before some_bytes (ground arith) in
            let t = changed frame child p.frame (λ o. 0) start size m in
            let sees = λ (a : ℕ).
              changed-view frame child (va + i) (λ o. 0) start size m p a g.other before.alone
                here in
            (
              i + size,
              t,
              clear_edge-step ph i m t low plain fits part
                  (change_page-step frame child (va + i) (λ o. 0) start size m p before.alone here),
              more-Loaded frame child read file ph i size m t before
                  (changed-Alone frame child p.frame (λ o. 0) start size m g.other before.alone)
                  (λ k h. elim (Bool-cases ((va + k) / 4096 == (va + i) / 4096)) [
                    | inr away ↦ sees (va + k) ∙ rw away refl
                    | inl same ↦
                        let outside : within ((va + k) % 4096) start (start + size) ≡ false =
                          ground arith in
                        let q : (va + k) / 4096 ≡ (va + i) / 4096 = ground arith in
                        sees (va + k)
                        ∙ rw same (
                            rw outside (
                              sym
                                (view-page frame child m (va + k) p (ap (m.entry child) q ∙ here))))
                  ])
                  (λ k l h.
                    let page : ((va + k) / 4096 == (va + i) / 4096) ≡ true = ground arith in
                    let inside : within ((va + k) % 4096) start (start + size) ≡ true =
                      ground arith in
                    let zero_byte : ltb k ph.filesz ≡ false = ground arith in
                    sees (va + k) ∙ rw page (rw inside (rw zero_byte refl))),
              ground arith,
              ground arith,
              ground arith,
            )
      ]

  -- The loop where `i` is not negative
  clear_rest-stop :
      (n : ℕ) (ph : Program) (i : ℕ) (m : Machine)
      → i < 2 ^ 31
      → ltb i ph.memsz ≡ false
      → clear_rest read child n ph i m ≡ gives tt m
  unfolding clear_rest
  clear_rest-stop zero ph i m plain stop = rw (as_u64-small i plain) (rw stop refl)
  clear_rest-stop (suc n) ph i m plain stop = rw (as_u64-small i plain) (rw stop refl)

  clear_rest-step :
      (n : ℕ) (ph : Program) (i : ℕ) (m t : Machine)
      → ph.vaddr + ph.memsz + 8192 < 2 ^ 64
      → ph.memsz < 2 ^ 31
      → ltb i ph.memsz ≡ true
      → mem_alloc child (ph.vaddr + i) user_perm m ≡ gives tt t
      → clear_rest read child (suc n) ph i m
        ≡ clear_rest read child n ph (i + min 4096 (ph.memsz - i)) t
  unfolding clear_rest
  clear_rest-step n ph i m t low plain more run =
      let size = min 4096 (ph.memsz - i) in
      let here : i < ph.memsz = ground arith in
      let at_va : sum64 ph.vaddr i ≡ ph.vaddr + i = omega arith in
      let next : (i + size) % 2 ^ 32 ≡ i + size = ground arith in
      rw (as_u64-small i (omega arith)) (
        rw (more, at_va)
          (>>=-step (mem_alloc child (ph.vaddr + i) user_perm)
              (λ x. clear_rest read child n ph ((i + size) % 2 ^ 32)) m run
            ∙ ap (λ (j : ℕ). clear_rest read child n ph j t) next))

  clear_rest-Loaded :
      (n : ℕ) (ph : Program) (i : ℕ) (m : Machine)
      → Grants frame child read file
      → Loaded frame child read file ph i m
      → ph.vaddr + ph.memsz + 8192 < 2 ^ 64
      → ph.memsz < 2 ^ 31
      → ph.filesz ≤ i
      → i ≤ ph.memsz
      → ((ph.vaddr + i) % 4096 ≡ 0) ⊎ (ph.memsz ≤ i)
      → ph.memsz ≤ i + 4096 * n
      → (t : Machine) × (clear_rest read child n ph i m ≡ gives tt t)
        × Loaded frame child read file ph ph.memsz t
  clear_rest-Loaded zero ph i m g before low plain behind upto page enough =
      let stop : ltb i ph.memsz ≡ false = ground arith in
      let e : i ≡ ph.memsz = omega arith in
      (
        m,
        clear_rest-stop zero ph i m (omega arith) stop,
        subst (λ (j : ℕ). Loaded frame child read file ph j m) e before,
      )
  clear_rest-Loaded (suc n) ph i m g before low plain behind upto page enough =
      elim (Bool-cases (ltb i ph.memsz)) [
        | inr stop ↦
            let e : i ≡ ph.memsz = ground arith in
            (
              m,
              clear_rest-stop (suc n) ph i m (omega arith) stop,
              subst (λ (j : ℕ). Loaded frame child read file ph j m) e before,
            )
        | inl more ↦
            let va = ph.vaddr in
            let size = min 4096 (ph.memsz - i) in
            let start : (va + i) % 4096 ≡ 0 = ground arith in
            let next : ((va + (i + size)) % 4096 ≡ 0) ⊎ (ph.memsz ≤ i + size) = ground arith in
            let al = before.alone in
            let t = with_zeros frame child (va + i) m in
            let sees = λ (a : ℕ). with_zeros-view frame child (va + i) m a al in
            let later =
              more-Loaded frame child read file ph i size m t before
                (with_zeros-Alone frame child (va + i) m g.differ al)
                (λ k h.
                  let away : ((va + k) / 4096 == (va + i) / 4096) ≡ false = ground arith in
                  sees (va + k) ∙ rw away refl)
                (λ k l h.
                  let here : ((va + k) / 4096 == (va + i) / 4096) ≡ true = ground arith in
                  let zero_byte : ltb k ph.filesz ≡ false = ground arith in
                  sees (va + k) ∙ rw here (rw zero_byte refl)) in
            let (u, runs, done) =
              clear_rest-Loaded n ph (i + size) t g later low plain (ground arith) (ground arith)
                next (ground arith) in
            (
              u,
              clear_rest-step n ph i m t low plain more (
                    mem_alloc-step child (va + i) user_perm (frame m.requests) m al.known
                      (al.answers m.requests))
                  ∙ runs,
              done,
            )
      ]

  -- For a segment with bytes in the file and no fewer in memory, of less than 2 ^ 31 bytes, `usr_load_elf`
  -- comes to its end, where the kernel answers each request with a frame that no page of the child has,
  -- and the file can be read. From `vaddr` on the child then sees the bytes of the file, and zeros behind
  -- them up to `memsz`, wherever in a page the segment begins and its bytes end. Addresses and offsets in the file
  -- do not wrap around, and the child is another environment than the caller.
  pub usr_load_elf_lem :
      (ph : Program) (m : Machine)
      → Grants frame child read file
      → Alone frame child m
      → ph.vaddr + ph.memsz + 8192 < 2 ^ 64
      → ph.offset + ph.filesz < 2 ^ 64
      → ph.memsz < 2 ^ 31
      → 0 < ph.filesz
      → ph.filesz ≤ ph.memsz
      → (t : Machine) × (usr_load_elf read child ph m ≡ gives tt t)
        × ((k : ℕ)
            → k < ph.filesz
            → view frame child t (ph.vaddr + k) ≡ some (file (ph.offset + k)))
        × ((k : ℕ) → ph.filesz ≤ k → k < ph.memsz → view frame child t (ph.vaddr + k) ≡ some 0)
  unfolding usr_load_elf
  usr_load_elf_lem ph m g al low small size some_bytes fits =
      let (i, a, run1, first, upto, page) =
        load_first-Loaded frame child read file ph m g al (omega arith) in
      let (b, run2, whole) =
        load_rest-Loaded frame child read file rounds ph i a g first (omega arith) small
          (omega arith) upto page (omega arith) in
      let (j, c, run3, edge, behind, fits', page') =
        clear_edge-Loaded ph b g whole low size some_bytes fits in
      let (t, run4, done) =
        clear_rest-Loaded rounds ph j c g edge low size behind fits' page' (omega arith) in
      let last = λ (x : ℕ). clear_rest read child rounds ph x in
      (
        t,
        >>=-step (load_first read child ph)
              (λ x. load_rest read child rounds ph x >>= λ y. (clear_edge read child ph y >>= last))
              m run1
            ∙ >>=-step (load_rest read child rounds ph i) (λ y. clear_edge read child ph y >>= last)
                a run2
            ∙ >>=-step (clear_edge read child ph ph.filesz) last b run3
            ∙ run4,
        (λ k h.
            let known : ltb k ph.filesz ≡ true = ground arith in
            done.bytes k (omega arith) ∙ rw known refl),
        (λ k l h.
            let zero_byte : ltb k ph.filesz ≡ false = ground arith in
            done.bytes k h ∙ rw zero_byte refl),
      )
