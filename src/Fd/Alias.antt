-- ===== src/Fd/Alias.antt =====
-- Descriptors that share a page (user/fd.c): what `dup` makes.
use raspberry3_mos.Base.{
  ℕ, ◌+◌, ◌/◌, ◌^◌, ◌<◌, ◌≡◌, refl, sym, subst, ◌∙◌, ap, inl, inr, true, false, ◌&&◌, ltb, leb,
  ◌==◌, Option, none, some, List, Bool-cases, Option-cases, arith,
}
use raspberry3_mos.Pmap.{update, update-same, update-other}
use raspberry3_mos.Fs.{e_unspecified, e_inval}
use raspberry3_mos.Fd.{
  Fd, Pte, Proc, Result, returns, fails, aborts, unfinished, Dev, maxfd, index2fd, fd2data, fd_at,
  is_mapped, set_fd, mem_unmap, mem_map, fd_lookup, close, ignore,
}
use raspberry3_mos.Fd.Run.{after, >>=-returns}
use raspberry3_mos.Fd.Calls.{data_pages, perm_of, copy_pages, share_fd, dup, seek, unmap_pages}

module _ {W : Type 0} where
  -- Two addresses map the same page.
  abbrev pub Shared : ℕ → ℕ → Proc W → Type 0
  Shared a b s =
      (p : Pte) × (q : Pte) × (s.page (a / 4096) ≡ some p)
      × (s.page (b / 4096) ≡ some q)
      × (p.frame ≡ q.frame)

  -- A mapped page is shared with where it came from, whether the two places are one or not.
  mapped-Shared :
      (src dst perm : ℕ) (s t : Proc W) (p : Pte)
      → s.page (src / 4096) ≡ some p
      → t.page ≡ update s.page (dst / 4096) (some (record { frame = p.frame; perm = perm }))
      → Shared src dst t
  mapped-Shared src dst perm s t p from made =
      let q : Pte = record { frame = p.frame; perm = perm } in
      let there : t.page (dst / 4096) ≡ some q =
        ap (λ (f : ℕ → Option Pte). f (dst / 4096)) made
        ∙ update-same s.page (dst / 4096) (dst / 4096) (some q) refl in
      elim (Bool-cases (src / 4096 == dst / 4096)) [
        | inl same ↦
            let e : dst / 4096 ≡ src / 4096 = ground arith in
            (q, q, subst (λ (k : ℕ). t.page k ≡ some q) e there, there, refl)
        | inr other ↦ (
          p,
          q,
          ap (λ (f : ℕ → Option Pte). f (src / 4096)) made
              ∙ update-other s.page (dst / 4096) (src / 4096) (some q) (ground arith)
              ∙ from,
          there,
          refl,
        )
      ]

  abbrev asked : Proc W → Proc W
  asked s = record s { requests = s.requests + 1 }

  mem_map-none :
      (src dst perm : ℕ) (s : Proc W)
      → s.page (src / 4096) ≡ none
      → mem_map src dst perm s ≡ fails e_unspecified (asked s)
  unfolding mem_map
  mem_map-none src dst perm s h = rw (mem_map, h) refl

  mem_map-accepted :
      (src dst perm : ℕ) (s : Proc W) (p : Pte)
      → s.page (src / 4096) ≡ some p
      → s.accepts s.requests ≡ true
      → mem_map src dst perm s
        ≡ returns tt (
            let t = asked s in
            record t {
              page = update s.page (dst / 4096) (some (record { frame = p.frame; perm = perm }));
            })
  unfolding mem_map
  mem_map-accepted src dst perm s p h accepted = rw (mem_map, h) (rw accepted refl)

  mem_map-refused :
      (src dst perm : ℕ) (s : Proc W) (p : Pte)
      → s.page (src / 4096) ≡ some p
      → s.accepts s.requests ≡ false
      → mem_map src dst perm s ≡ fails e_unspecified (asked s)
  unfolding mem_map
  mem_map-refused src dst perm s p h refused = rw (mem_map, h) (rw refused refl)

  abbrev state : {A : Type 0} → Result W A → Proc W → Proc W
  state (returns a t) s = t
  state (fails e t) s = t
  state aborts s = s
  state unfinished s = s

  mem_map-Shared :
      (src dst perm : ℕ) (s t : Proc W) (x : Unit {0})
      → mem_map src dst perm s ≡ returns x t
      → Shared src dst t
  mem_map-Shared src dst perm s t x h = elim (Option-cases (s.page (src / 4096))) [
    | inl empty ↦ let e = mem_map-none src dst perm s empty in absurd cc
    | inr (p, there) ↦ elim (Bool-cases (s.accepts s.requests)) [
      | inl accepted ↦
          let e = mem_map-accepted src dst perm s p there accepted in
          mapped-Shared src dst perm s t p there
            (ap (λ (r : Result W (Unit {0})). (state r s).page) (sym h ∙ e))
      | inr refused ↦ let e = mem_map-refused src dst perm s p there refused in absurd cc
    ]
  ]

  abbrev ended : ℕ → ℕ → ℕ → Result W (Unit {0}) → Result W ℕ
  ended newfd nva num (returns x t) = returns num t
  ended newfd nva num (fails e t) = fails e (unmap_pages data_pages nva (mem_unmap newfd t))
  ended newfd nva num aborts = aborts
  ended newfd nva num unfinished = unfinished

  by_map :
      (m : Result W (Unit {0})) (newfd nva num r : ℕ) (t : Proc W)
      → ended newfd nva num m ≡ returns r t
      → (num ≡ r) × ((x : Unit {0}) × (m ≡ returns x t))
  by_map (returns x u) newfd nva num r t h = (cc, (x, cc))
  by_map (fails e u) newfd nva num r t h = cc
  by_map aborts newfd nva num r t h = cc
  by_map unfinished newfd nva num r t h = cc

  share_fd-Shared :
      (oldfd newfd nva num r : ℕ) (s t : Proc W)
      → share_fd oldfd newfd nva num s ≡ returns r t
      → (num ≡ r) × Shared oldfd newfd t
  unfolding share_fd
  share_fd-Shared oldfd newfd nva num r s t h =
      let made = by_map (mem_map oldfd newfd (perm_of oldfd s) s) newfd nva num r t h in
      (made.0, mem_map-Shared oldfd newfd (perm_of oldfd s) s t (made.1).0 (made.1).1)

  fd_lookup-mapped :
      (fdnum : ℕ) (p : Pte) (s : Proc W)
      → fdnum < maxfd
      → s.page (index2fd fdnum / 4096) ≡ some p
      → fd_lookup fdnum s ≡ returns (index2fd fdnum) s
  unfolding fd_lookup
  fd_lookup-mapped fdnum p s low there =
      let inside : (leb maxfd fdnum && ltb fdnum (2 ^ 31)) ≡ false = ground arith in
      let full : is_mapped (index2fd fdnum) s ≡ true = rw (is_mapped, there) refl in
      rw (fd_lookup, inside) (rw full refl)

  fd_lookup-index :
      (fdnum a : ℕ) (s t : Proc W)
      → fdnum < maxfd
      → fd_lookup fdnum s ≡ returns a t
      → a ≡ index2fd fdnum
  unfolding fd_lookup
  fd_lookup-index fdnum a s t low h =
      let inside : (leb maxfd fdnum && ltb fdnum (2 ^ 31)) ≡ false = ground arith in
      elim (Option-cases (s.page (index2fd fdnum / 4096))) [
        | inl empty ↦
            let gone : is_mapped (index2fd fdnum) s ≡ false = rw (is_mapped, empty) refl in
            let e : fd_lookup fdnum s ≡ fails e_inval s = rw (fd_lookup, inside) (rw gone refl) in
            absurd cc
        | inr (p, there) ↦
            let e : fd_lookup fdnum s ≡ returns (index2fd fdnum) s =
              fd_lookup-mapped fdnum p s low there in
            cc
      ]

  fd_at-page :
      (b : ℕ) (q : Pte) (s : Proc W) → s.page (b / 4096) ≡ some q → fd_at b s ≡ s.fds q.frame
  fd_at-page b q s there = rw (fd_at, there) refl

  set_fd-page :
      (a : ℕ) (p : Pte) (v : Fd) (s : Proc W)
      → s.page (a / 4096) ≡ some p
      → set_fd a v s ≡ record s { fds = update s.fds p.frame v }
  unfolding set_fd
  set_fd-page a p v s here = rw (set_fd, here) refl

  fd_at-set_fd :
      (a b : ℕ) (v : Fd) (s : Proc W)
      → Shared a b s
      → (fd_at a (set_fd a v s) ≡ v) × (fd_at b (set_fd a v s) ≡ v)
  fd_at-set_fd a b v s (p, q, here, there, same) =
      let t : Proc W = record s { fds = update s.fds p.frame v } in
      let made : set_fd a v s ≡ t = set_fd-page a p v s here in
      (
        ap (fd_at a) made ∙ fd_at-page a p t here ∙ update-same s.fds p.frame p.frame v refl,
        ap (fd_at b) made ∙ fd_at-page b q t there ∙ update-same s.fds p.frame q.frame v (sym same),
      )

  seek-mapped :
      (fdnum offset : ℕ) (t : Proc W)
      → fd_lookup fdnum t ≡ returns (index2fd fdnum) t
      → seek fdnum offset t
        ≡ returns tt (
            set_fd
              (index2fd fdnum)
              (let v = fd_at (index2fd fdnum) t in record v { fd_offset = offset })
              t)
  unfolding seek
  seek-mapped fdnum offset t h =
      ap
        (after (λ fd s.
          let v = fd_at fd s in returns tt (set_fd fd (record v { fd_offset = offset }) s)))
        h

  -- Two numbers whose descriptors share a page: a `seek` in the first is seen in both.
  seek-Shared :
      (m n offset : ℕ) (t : Proc W)
      → m < maxfd
      → Shared (index2fd m) (index2fd n) t
      → (u : Proc W) × (seek m offset t ≡ returns tt u)
        × (fd_at (index2fd n) u ≡ fd_at (index2fd m) u)
        × ((fd_at (index2fd n) u).fd_offset ≡ offset)
  seek-Shared m n offset t l shared =
      let v = fd_at (index2fd m) t in
      let both =
        fd_at-set_fd (index2fd m) (index2fd n) (record v { fd_offset = offset }) t shared in
      (
        _,
        seek-mapped m offset t (fd_lookup-mapped m shared.0 t l shared.2),
        both.1 ∙ sym both.0,
        ap (λ (w : Fd). w.fd_offset) both.1,
      )

  -- A descriptor that `dup` returns and the one it has copied are one: a `seek` in the old number and a
  -- `seek` in the new one each succeed, and leave both with the same descriptor and the offset sought. The
  -- two numbers are below 32.
  pub seek-dup :
      (devtab : List (Dev W)) (oldfdnum newfdnum r offset : ℕ) (s t : Proc W)
      → oldfdnum < maxfd
      → newfdnum < maxfd
      → dup devtab oldfdnum newfdnum s ≡ returns r t
      → (r ≡ newfdnum)
        × ((u : Proc W) × (seek oldfdnum offset t ≡ returns tt u)
            × (fd_at (index2fd newfdnum) u ≡ fd_at (index2fd oldfdnum) u)
            × ((fd_at (index2fd newfdnum) u).fd_offset ≡ offset))
        × ((u : Proc W) × (seek newfdnum offset t ≡ returns tt u)
            × (fd_at (index2fd oldfdnum) u ≡ fd_at (index2fd newfdnum) u)
            × ((fd_at (index2fd oldfdnum) u).fd_offset ≡ offset))
  unfolding dup
  seek-dup devtab oldfdnum newfdnum r offset s t l m h =
      let (a, s1, found, h1) = >>=-returns (fd_lookup oldfdnum) _ s h in
      let (x, s2, closed, h2) = >>=-returns (ignore (close devtab newfdnum)) _ s1 h1 in
      let (y, s3, copied, h3) =
        >>=-returns (copy_pages data_pages (fd2data a) (fd2data (index2fd newfdnum))) _ s2 h2 in
      let number = fd_lookup-index oldfdnum a s s1 l found in
      let made =
        share_fd-Shared a (index2fd newfdnum) (fd2data (index2fd newfdnum)) newfdnum r s3 t h3 in
      let shared : Shared (index2fd oldfdnum) (index2fd newfdnum) t =
        subst (λ (k : ℕ). Shared k (index2fd newfdnum) t) number made.1 in
      let (p, q, here, there, one) = shared in
      (
        sym made.0,
        seek-Shared oldfdnum newfdnum offset t l shared,
        seek-Shared newfdnum oldfdnum offset t m (q, p, there, here, sym one),
      )
