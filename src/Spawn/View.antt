-- ===== src/Spawn/View.antt =====
-- The bytes that a new program sees, through the steps of `usr_load_elf` (user/spawn.c).
use raspberry3_mos.Base.{
  ℕ, ◌+◌, ◌-◌, ◌/◌, ◌%◌, ◌≤◌, ◌≡◌, ◌≢◌, refl, sym, ◌∙◌, ap, ◌⊎◌, inl, inr, true, ◌==◌,
  if◌then◌else◌, Option, none, some, Bool-cases, Option-cases, arith,
}
use raspberry3_mos.Pmap.{update, update-same, update-other}
use raspberry3_mos.Pmap.Zero.{within}
use raspberry3_mos.Fd.{Pte}
use raspberry3_mos.User.{Machine, gives, ◌>>◌, user_perm, set_entry, asked, mem_map, mem_unmap}
use raspberry3_mos.User.Run.{>>=-step}
use raspberry3_mos.User.Calls.{set_entry-at, mem_map-step, mem_unmap-step}
use raspberry3_mos.Spawn.Load.{bufpage, put_range, change_page}

module _ (frame : ℕ → ℕ) (child : ℕ) where
  -- The kernel answers the request `n` with the frame `frame n`, which the child does not have before,
  -- and no two pages of the child are one frame.
  pub record Alone (m : Machine) : Type 0 where
    pub answers : (n : ℕ) → m.answer n ≡ some (frame n)
    pub caller : m.known 0 ≡ true
    pub known : m.known child ≡ true
    pub fresh : (n q : ℕ) (p : Pte) → m.requests ≤ n → m.entry child q ≡ some p → p.frame ≢ frame n
    pub apart :
        (q r : ℕ) (p s : Pte)
        → m.entry child q ≡ some p
        → m.entry child r ≡ some s
        → p.frame ≡ s.frame
        → q ≡ r

  -- The byte that the child sees at an address, if a page is there
  abbrev pub view : Machine → ℕ → Option ℕ
  view m a = elim (m.entry child (a / 4096)) [
    | none ↦ none
    | some p ↦ some (m.bytes p.frame (a % 4096))
  ]

  pub view-page :
      (m : Machine) (a : ℕ) (p : Pte)
      → m.entry child (a / 4096) ≡ some p
      → view m a ≡ some (m.bytes p.frame (a % 4096))
  view-page m a p h =
      ap (λ (o : Option Pte). elim o [ none ↦ none | some q ↦ some (m.bytes q.frame (a % 4096)) ]) h

  -- Where only the bytes of a frame change that is not the page's, the view does not.
  pub view-kept :
      (m t : Machine) (a : ℕ)
      → t.entry child (a / 4096) ≡ m.entry child (a / 4096)
      → ((p : Pte) → m.entry child (a / 4096) ≡ some p → t.bytes p.frame ≡ m.bytes p.frame)
      → view t a ≡ view m a
  view-kept m t a same bytes = elim (Option-cases (m.entry child (a / 4096))) [
    | inl empty ↦
        ap (λ (o : Option Pte). elim o [ none ↦ none | some q ↦ some (t.bytes q.frame (a % 4096)) ])
          (same ∙ empty)
        ∙ sym (
            ap
              (λ (o : Option Pte). elim o [
                | none ↦ none
                | some q ↦ some (m.bytes q.frame (a % 4096))
              ])
              empty)
    | inr (p, here) ↦
        view-page t a p (same ∙ here)
        ∙ ap (λ (w : ℕ → ℕ). some (w (a % 4096))) (bytes p here)
        ∙ sym (view-page m a p here)
  ]

  -- The state behind `change_page`, for the frame `f`
  abbrev pub changed : ℕ → (ℕ → ℕ) → ℕ → ℕ → Machine → Machine
  changed f buf start size m =
      let a = set_entry 0 1 (some (record { frame = f; perm = user_perm })) (asked m) in
      let b = record a {
        bytes =
            update m.bytes f
              (λ o. if within o start (start + size) then buf (o - start) else m.bytes f o);
      } in
      set_entry 0 1 none b

  put_range-step :
      (buf : ℕ → ℕ) (start size : ℕ) (m : Machine) (p : Pte)
      → m.entry 0 1 ≡ some p
      → put_range buf start size m
        ≡ gives tt (record m {
          bytes =
              update m.bytes p.frame
                (λ o. if within o start (start + size) then buf (o - start) else m.bytes p.frame o);
        })
  unfolding put_range
  put_range-step buf start size m p h = rw (put_range, h) refl

  pub change_page-step :
      (va : ℕ) (buf : ℕ → ℕ) (start size : ℕ) (m : Machine) (p : Pte)
      → Alone m
      → m.entry child (va / 4096) ≡ some p
      → change_page child va buf start size m ≡ gives tt (changed p.frame buf start size m)
  unfolding change_page
  change_page-step va buf start size m p al here =
      let d : Pte = record { frame = p.frame; perm = user_perm } in
      let a = set_entry 0 1 (some d) (asked m) in
      let b : Machine = record a {
        bytes =
            update m.bytes p.frame
              (λ o. if within o start (start + size) then buf (o - start) else m.bytes p.frame o);
      } in
      >>=-step (mem_map child va 0 bufpage user_perm)
        (λ x. put_range buf start size >> mem_unmap 0 bufpage) m
        (mem_map-step child va 0 bufpage user_perm (frame m.requests) p m al.known al.caller here
          (al.answers m.requests))
      ∙ >>=-step (put_range buf start size) (λ x. mem_unmap 0 bufpage) a
          (put_range-step buf start size a d (set_entry-at 0 1 (some d) (asked m) 0 1))
      ∙ mem_unmap-step 0 bufpage b al.caller

  changed-entries :
      (f : ℕ) (buf : ℕ → ℕ) (start size : ℕ) (m : Machine)
      → child ≢ 0
      → (changed f buf start size m).entry child ≡ m.entry child
  changed-entries f buf start size m ne =
      let d : Option Pte = some (record { frame = f; perm = user_perm }) in
      let e = update m.entry 0 (update (m.entry 0) 1 d) in
      update-other e 0 child (update (e 0) 1 none) ne
      ∙ update-other m.entry 0 child (update (m.entry 0) 1 d) ne

  pub changed-Alone :
      (f : ℕ) (buf : ℕ → ℕ) (start size : ℕ) (m : Machine)
      → child ≢ 0
      → Alone m
      → Alone (changed f buf start size m)
  changed-Alone f buf start size m ne al =
      let same = changed-entries f buf start size m ne in
      let entries : (q : ℕ) → (changed f buf start size m).entry child q ≡ m.entry child q =
        λ q. ap (λ (w : ℕ → Option Pte). w q) same in
      record {
        answers = al.answers;
        caller = al.caller;
        known = al.known;
        fresh = λ n q p later h. al.fresh n q p (omega arith) (sym (entries q) ∙ h);
        apart = λ q r p s h k. al.apart q r p s (sym (entries q) ∙ h) (sym (entries r) ∙ k);
      }

  -- What the child sees where `size` bytes of a page are changed
  abbrev pub patched : ℕ → (ℕ → ℕ) → ℕ → ℕ → (ℕ → ℕ) → (ℕ → Option ℕ) → ℕ → Option ℕ
  patched va buf start size old before a =
      if a / 4096 == va / 4096
      then some (
          if within (a % 4096) start (start + size) then buf (a % 4096 - start) else old (a % 4096))
      else before a

  pub changed-view :
      (va : ℕ) (buf : ℕ → ℕ) (start size : ℕ) (m : Machine) (p : Pte) (a : ℕ)
      → child ≢ 0
      → Alone m
      → m.entry child (va / 4096) ≡ some p
      → view (changed p.frame buf start size m) a
        ≡ patched va buf start size (m.bytes p.frame) (view m) a
  changed-view va buf start size m p a ne al here =
      let t = changed p.frame buf start size m in
      let new =
        λ (o : ℕ). if within o start (start + size) then buf (o - start) else m.bytes p.frame o in
      let same : t.entry child (a / 4096) ≡ m.entry child (a / 4096) =
        ap (λ (w : ℕ → Option Pte). w (a / 4096)) (changed-entries p.frame buf start size m ne) in
      elim (Bool-cases (a / 4096 == va / 4096)) [
        | inl inside ↦
            let q : a / 4096 ≡ va / 4096 = ground arith in
            rw inside (
              view-page t a p (same ∙ ap (m.entry child) q ∙ here)
              ∙ ap (λ (w : ℕ → ℕ). some (w (a % 4096)))
                  (update-same m.bytes p.frame p.frame new refl))
        | inr outside ↦
            let q : a / 4096 ≢ va / 4096 = ground arith in
            rw outside (
              view-kept m t a same (λ r h.
                update-other m.bytes p.frame r.frame new
                  (λ e. q (al.apart (a / 4096) (va / 4096) r p h here e))))
      ]

  -- The child with a new page of zeros
  abbrev pub with_zeros : ℕ → Machine → Machine
  with_zeros va m =
      set_entry child (va / 4096) (some (record { frame = frame m.requests; perm = user_perm }))
        (let t = asked m in record t { bytes = update m.bytes (frame m.requests) (λ o. 0) })

  pub with_zeros-at :
      (va : ℕ) (m : Machine) (q : ℕ)
      → (with_zeros va m).entry child q ≡ (
          if q == va / 4096
          then some (record { frame = frame m.requests; perm = user_perm })
          else m.entry child q)
  with_zeros-at va m q =
      let own : (child == child) ≡ true = ground arith in
      set_entry-at child (va / 4096) (some (record { frame = frame m.requests; perm = user_perm }))
        (let t = asked m in record t { bytes = update m.bytes (frame m.requests) (λ o. 0) }) child q
      ∙ rw own refl

  -- An entry of the child is the new one, or one that it had
  with_zeros-cases :
      (va : ℕ) (m : Machine) (q : ℕ) (p : Pte)
      → (with_zeros va m).entry child q ≡ some p
      → ((q ≡ va / 4096) × (p.frame ≡ frame m.requests))
        ⊎ ((q ≢ va / 4096) × (m.entry child q ≡ some p))
  with_zeros-cases va m q p h = elim (Bool-cases (q == va / 4096)) [
    | inl new ↦
        let e : ◌≡◌ {A = Option Pte} (some (record { frame = frame m.requests; perm = user_perm }))
            (some p) =
          sym (with_zeros-at va m q ∙ rw new refl) ∙ h in
        inl (ground arith, sym (ap (λ (o : Option Pte). elim o [ none ↦ 0 | some x ↦ x.frame ]) e))
    | inr old ↦ inr (ground arith, sym (with_zeros-at va m q ∙ rw old refl) ∙ h)
  ]

  pub with_zeros-Alone :
      (va : ℕ) (m : Machine)
      → ((i j : ℕ) → frame i ≡ frame j → i ≡ j)
      → Alone m
      → Alone (with_zeros va m)
  with_zeros-Alone va m differ al = record {
    answers = al.answers;
    caller = al.caller;
    known = al.known;
    fresh = λ n q p later h. elim (with_zeros-cases va m q p h) [
      | inl (here, f) ↦
          λ e. let i : m.requests ≡ n = differ m.requests n (sym f ∙ e) in absurd (omega arith)
      | inr (other, old) ↦ al.fresh n q p (omega arith) old
    ];
    apart = λ q r p s h k e. elim (with_zeros-cases va m q p h) [
      | inl (q_new, f) ↦ elim (with_zeros-cases va m r s k) [
        | inl (r_new, g) ↦ q_new ∙ sym r_new
        | inr (r_old, old) ↦ absurd (al.fresh m.requests r s (omega arith) old (sym e ∙ f))
      ]
      | inr (q_old, old) ↦ elim (with_zeros-cases va m r s k) [
        | inl (r_new, g) ↦ absurd (al.fresh m.requests q p (omega arith) old (e ∙ g))
        | inr (r_old, old') ↦ al.apart q r p s old old' e
      ]
    ];
  }

  pub with_zeros-view :
      (va : ℕ) (m : Machine) (a : ℕ)
      → Alone m
      → view (with_zeros va m) a ≡ (if a / 4096 == va / 4096 then some 0 else view m a)
  with_zeros-view va m a al =
      let f = frame m.requests in
      let t = with_zeros va m in
      elim (Bool-cases (a / 4096 == va / 4096)) [
        | inl inside ↦ rw inside (
            view-page t a (record { frame = f; perm = user_perm })
              (with_zeros-at va m (a / 4096) ∙ rw inside refl)
            ∙ ap (λ (w : ℕ → ℕ). some (w (a % 4096))) (update-same m.bytes f f (λ o. 0) refl))
        | inr outside ↦ rw outside (
            view-kept m t a (with_zeros-at va m (a / 4096) ∙ rw outside refl) (λ p h.
              update-other m.bytes f p.frame (λ o. 0)
                (al.fresh m.requests (a / 4096) p (omega arith) h)))
      ]
