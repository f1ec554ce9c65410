-- ===== src/Fork/Loop.antt =====
-- What `fork` (user/fork.c) leaves: each page of the caller that a user may read is in both address
-- spaces, and read-only in both unless it is a library's.
use raspberry3_mos.Base.{
  ℕ, zero, suc, ◌+◌, ◌-◌, ◌/◌, ◌≤◌, ◌<◌, ◌≡◌, ◌≢◌, refl, sym, ◌∙◌, ap, ◌⊎◌, inl, inr, Bool, true,
  false, ◌==◌, if◌then◌else◌, Option, some, Bool-cases, arith,
}
use raspberry3_mos.Pmap.{update, update-same, update-other}
use raspberry3_mos.Fd.{Pte}
use raspberry3_mos.User.{Machine, gives, M, pure, ◌>>◌, or_panic, set_entry, asked}
use raspberry3_mos.User.Calls.{set_entry-at, mem_alloc-step, set_handler-step, set_runnable-step}
use raspberry3_mos.User.Run.{>>=-step, or_panic-step}
use raspberry3_mos.Fork.Share.{Grants, Passed, child_entry, caller_entry, dup_entry-Passed}
use raspberry3_mos.User.{user_perm, mem_alloc, set_handler, set_runnable}
use raspberry3_mos.Fork.{
  set_pgfault_handler, start_child, space_pages, fork, uxstacktop, dup_entry, dup_pages,
}

-- The page numbers from `lo` on and below `hi` have been passed on, and nothing else has changed.
pub record Shares (envid lo hi : ℕ) (m t : Machine) : Type 0 where
  pub child :
      (q : ℕ) → lo ≤ q → q < hi → t.entry envid q ≡ child_entry q (m.entry 0 q) (m.entry envid q)
  pub caller : (q : ℕ) → lo ≤ q → q < hi → t.entry 0 q ≡ caller_entry q (m.entry 0 q)
  pub outside :
      (q : ℕ)
      → (q < lo) ⊎ (hi ≤ q)
      → (t.entry envid q ≡ m.entry envid q) × (t.entry 0 q ≡ m.entry 0 q)
  pub others : (e : ℕ) → e ≢ 0 → e ≢ envid → t.entry e ≡ m.entry e
  pub bytes : t.bytes ≡ m.bytes
  pub answer : t.answer ≡ m.answer
  pub known : t.known ≡ m.known

Grants-kept :
    (envid : ℕ) (m t : Machine)
    → Grants envid m
    → t.answer ≡ m.answer
    → t.known ≡ m.known
    → Grants envid t
Grants-kept envid m t g answer known = record {
  granted =
      λ n. let (f, yields) = g.granted n in (f, ap (λ (a : ℕ → Option ℕ). a n) answer ∙ yields);
  caller = ap (λ (k : ℕ → Bool). k 0) known ∙ g.caller;
  child = ap (λ (k : ℕ → Bool). k envid) known ∙ g.child;
}

join-Shares :
    (envid n p : ℕ) (m t u : Machine)
    → Passed envid p m
        (child_entry p (m.entry 0 p) (m.entry envid p))
        (caller_entry p (m.entry 0 p))
        t
    → Shares envid (p + 1) (p + 1 + n) t u
    → Shares envid p (p + suc n) m u
join-Shares envid n p m t u one rest = record {
  child = λ q low high. elim (Bool-cases (q == p)) [
    | inl same ↦
        let e : q ≡ p = ground arith in
        let here : t.entry envid q ≡ child_entry p (m.entry 0 p) (m.entry envid p) =
          one.child q ∙ rw same refl in
        (rest.outside q (inl (omega arith))).0
        ∙ here
        ∙ ap (λ (k : ℕ). child_entry k (m.entry 0 k) (m.entry envid k)) (sym e)
    | inr other ↦
        let mine : t.entry 0 q ≡ m.entry 0 q = one.caller q ∙ rw other refl in
        let theirs : t.entry envid q ≡ m.entry envid q = one.child q ∙ rw other refl in
        rest.child q (ground arith) (omega arith)
        ∙ ap (λ (o : Option Pte). child_entry q o (t.entry envid q)) mine
        ∙ ap (child_entry q (m.entry 0 q)) theirs
  ];
  caller = λ q low high. elim (Bool-cases (q == p)) [
    | inl same ↦
        let e : q ≡ p = ground arith in
        let here : t.entry 0 q ≡ caller_entry p (m.entry 0 p) = one.caller q ∙ rw same refl in
        (rest.outside q (inl (omega arith))).1
        ∙ here
        ∙ ap (λ (k : ℕ). caller_entry k (m.entry 0 k)) (sym e)
    | inr other ↦
        let mine : t.entry 0 q ≡ m.entry 0 q = one.caller q ∙ rw other refl in
        rest.caller q (ground arith) (omega arith) ∙ ap (caller_entry q) mine
  ];
  outside = λ q out.
      let other : (q == p) ≡ false = ground arith in
      let mine : t.entry 0 q ≡ m.entry 0 q = one.caller q ∙ rw other refl in
      let theirs : t.entry envid q ≡ m.entry envid q = one.child q ∙ rw other refl in
      let far : (q < p + 1) ⊎ (p + 1 + n ≤ q) = elim out [
        | inl l ↦ inl (omega arith)
        | inr h ↦ inr (omega arith)
      ] in
      ((rest.outside q far).0 ∙ theirs, (rest.outside q far).1 ∙ mine);
  others = λ e a b. rest.others e a b ∙ one.others e a b;
  bytes = rest.bytes ∙ one.bytes;
  answer = rest.answer ∙ one.answer;
  known = rest.known ∙ one.known;
}

-- The loops of `fork` over `n` page numbers from `p` on come to their end, and share the pages.
pub dup_pages-Shares :
    (n envid p : ℕ) (m : Machine)
    → Grants envid m
    → envid ≢ 0
    → (t : Machine) × (dup_pages n envid p m ≡ gives tt t) × Shares envid p (p + n) m t
unfolding dup_pages
dup_pages-Shares zero envid p m g ne = (
  m,
  refl,
  record {
    child = λ q low high. absurd (omega arith);
    caller = λ q low high. absurd (omega arith);
    outside = λ q out. (refl, refl);
    others = λ e a b. refl;
    bytes = refl;
    answer = refl;
    known = refl;
  },
)
dup_pages-Shares (suc n) envid p m g ne =
    let (t, run, one) = dup_entry-Passed envid p m g ne in
    let (u, runs, rest) =
      dup_pages-Shares n envid (p + 1) t (Grants-kept envid m t g one.answer one.known) ne in
    (
      u,
      >>=-step (dup_entry envid p) (λ x. dup_pages n envid (p + 1)) m run ∙ runs,
      join-Shares envid n p m t u one rest,
    )

abbrev pub stack_page : ℕ
stack_page = (uxstacktop - 4096) / 4096

-- What `fork` leaves for the child `envid`, whose stack for exceptions is the frame `f`
pub record Forked (fn envid f : ℕ) (m t : Machine) : Type 0 where
  pub child :
      (q : ℕ)
      → q < space_pages
      → q ≢ stack_page
      → t.entry envid q ≡ child_entry q (m.entry 0 q) (m.entry envid q)
  pub caller : (q : ℕ) → q < space_pages → t.entry 0 q ≡ caller_entry q (m.entry 0 q)
  pub stack : t.entry envid stack_page ≡ some (record { frame = f; perm = user_perm })
  pub bytes : (g : ℕ) → g ≢ f → t.bytes g ≡ m.bytes g
  pub handler : t.handlers envid ≡ some (fn, uxstacktop)
  pub runnable : t.runnable envid ≡ true

-- The state behind `start_child`
abbrev started : ℕ → ℕ → ℕ → Machine → Machine
started fn envid f m =
    let s =
      set_entry envid stack_page (some (record { frame = f; perm = user_perm }))
        (let t = asked m in record t { bytes = update m.bytes f (λ o. 0) }) in
    record s {
      handlers = update s.handlers envid (some (fn, uxstacktop));
      runnable = update s.runnable envid true;
    }

start_child-step :
    (fn envid f : ℕ) (m : Machine)
    → m.known envid ≡ true
    → m.answer m.requests ≡ some f
    → start_child fn envid m ≡ gives envid (started fn envid f m)
unfolding start_child
start_child-step fn envid f m known yields =
    let top = uxstacktop - 4096 in
    let page : Option Pte = some (record { frame = f; perm = user_perm }) in
    let a = asked m in
    let s : Machine =
      set_entry envid stack_page page (record a { bytes = update m.bytes f (λ o. 0) }) in
    let u : Machine = record s { handlers = update s.handlers envid (some (fn, uxstacktop)) } in
    >>=-step (or_panic (mem_alloc envid top user_perm))
      (λ x.
        or_panic (set_handler envid fn uxstacktop) >> (or_panic (set_runnable envid) >> pure envid))
      m
      (or_panic-step (mem_alloc envid top user_perm) m
        (mem_alloc-step envid top user_perm f m known yields))
    ∙ >>=-step (or_panic (set_handler envid fn uxstacktop))
        (λ x. or_panic (set_runnable envid) >> pure envid) s
        (or_panic-step (set_handler envid fn uxstacktop) s
          (set_handler-step envid fn uxstacktop s known))
    ∙ >>=-step (or_panic (set_runnable envid)) (λ x. pure envid) u
        (or_panic-step (set_runnable envid) u (set_runnable-step envid u known))

set_pgfault_handler-set :
    (fn : ℕ) (m : Machine) → m.pgfault_set ≡ true → set_pgfault_handler fn m ≡ gives tt m
unfolding set_pgfault_handler
set_pgfault_handler-set fn m set = rw set refl

started-Forked :
    (fn envid f : ℕ) (m t : Machine)
    → envid ≢ 0
    → Shares envid 0 space_pages m t
    → Forked fn envid f m (started fn envid f t)
started-Forked fn envid f m t ne sh =
    let page : Option Pte = some (record { frame = f; perm = user_perm }) in
    let own : (envid == envid) ≡ true = ground arith in
    let zero_other : (0 == envid) ≡ false = ground arith in
    record {
      child = λ q low diff.
          let other : (q == stack_page) ≡ false = ground arith in
          set_entry-at envid stack_page page t envid q
          ∙ rw own (rw other (sh.child q (omega arith) low));
      caller = λ q low.
          set_entry-at envid stack_page page t 0 q ∙ rw zero_other (sh.caller q (omega arith) low);
      stack = set_entry-at envid stack_page page t envid stack_page ∙ rw own refl;
      bytes =
          λ g diff. update-other t.bytes f g (λ o. 0) diff ∙ ap (λ (b : ℕ → ℕ → ℕ). b g) sh.bytes;
      handler = update-same t.handlers envid envid (some (fn, uxstacktop)) refl;
      runnable = update-same t.runnable envid envid true refl;
    }

-- Where the kernel has memory for every request, `fork` returns the child's id to the caller, with
-- its handler of page faults set before, and leaves what `Forked` says: every page of the caller that
-- a user may access, but for the page table's own entries and the stack for exceptions, is in both
-- address spaces, in the same frame; in both it is read-only, unless it is a library's, which both
-- keep as it was. The child has its own stack for exceptions, its handler, and may run.
pub fork_lem :
    (fn envid : ℕ) (m : Machine)
    → Grants envid m
    → envid ≢ 0
    → m.pgfault_set ≡ true
    → (f : ℕ) × (t : Machine) × (fork fn envid m ≡ gives envid t) × Forked fn envid f m t
unfolding fork
fork_lem fn envid m g ne set =
    let (t, run, sh) = dup_pages-Shares space_pages envid 0 m g ne in
    let kept_grants = Grants-kept envid m t g sh.answer sh.known in
    let (f, yields) = kept_grants.granted t.requests in
    let other : (envid == 0) ≡ false = ground arith in
    let rest : M ℕ = dup_pages space_pages envid 0 >> start_child fn envid in
    (
      f,
      started fn envid f t,
      >>=-step (set_pgfault_handler fn) (λ x. if envid == 0 then pure 0 else rest) m
            (set_pgfault_handler-set fn m set)
          ∙ rw other (
              >>=-step (dup_pages space_pages envid 0) (λ x. start_child fn envid) m run
              ∙ start_child-step fn envid f t kept_grants.child yields),
      started-Forked fn envid f m t ne sh,
    )
