-- ===== src/Fork/Share.antt =====
-- What one round of the loops of `fork` (user/fork.c) leaves.
use raspberry3_mos.Base.{
  ℕ, ◌-◌, ◌*◌, ◌/◌, ◌^◌, bit_or, ◌≡◌, ◌≢◌, refl, sym, subst, ◌∙◌, ap, inl, inr, Bool, true, false,
  ◌&&◌, ◌==◌, not, if◌then◌else◌, Option, none, some, Bool-cases, Option-cases, arith,
}
use raspberry3_mos.Pmap.{update, update-other}
use raspberry3_mos.PageTable.{pte_user}
use raspberry3_mos.Fd.{Pte}
use raspberry3_mos.User.{
  Machine, gives, pure, or_panic, pte_ro, pte_library, has_bit, set_entry, asked, mem_map,
}
use raspberry3_mos.User.Calls.{set_entry-at, mem_map-step}
use raspberry3_mos.User.Run.{>>=-step, or_panic-step}
use raspberry3_mos.Fork.{uxstacktop, protect, duppage, dup_entry}

-- The page `p` with the entry `e` goes to the child.
abbrev pub passes : ℕ → Pte → Bool
passes p e =
    not (p / 2 ^ 18 == 256) && (not (p * 4096 == uxstacktop - 4096) && has_bit e.perm pte_user)

-- The entry that the child gets, and the one that the caller keeps
abbrev pub shared : Pte → Pte
shared e = record {
  frame = e.frame;
  perm = if has_bit e.perm pte_library then e.perm else bit_or e.perm pte_ro;
}

abbrev pub kept : Pte → Pte
kept e =
    if has_bit e.perm pte_library
    then e
    else if has_bit e.perm pte_ro
    then e
    else record { frame = e.frame; perm = bit_or e.perm pte_ro }

abbrev pub child_entry : ℕ → Option Pte → Option Pte → Option Pte
child_entry p none old = old
child_entry p (some e) old = if passes p e then some (shared e) else old

abbrev pub caller_entry : ℕ → Option Pte → Option Pte
caller_entry p none = none
caller_entry p (some e) = if passes p e then some (kept e) else some e

-- The kernel has memory for every request, and the caller may name itself and the child.
pub record Grants (envid : ℕ) (m : Machine) : Type 0 where
  pub granted : (n : ℕ) → (f : ℕ) × (m.answer n ≡ some f)
  pub caller : m.known 0 ≡ true
  pub child : m.known envid ≡ true

-- The entries for one page change, `c` in the child and `k` in the caller.
pub record Passed (envid p : ℕ) (m : Machine) (c k : Option Pte) (t : Machine) : Type 0 where
  pub child : (q : ℕ) → t.entry envid q ≡ (if q == p then c else m.entry envid q)
  pub caller : (q : ℕ) → t.entry 0 q ≡ (if q == p then k else m.entry 0 q)
  pub others : (e : ℕ) → e ≢ 0 → e ≢ envid → t.entry e ≡ m.entry e
  pub bytes : t.bytes ≡ m.bytes
  pub answer : t.answer ≡ m.answer
  pub known : t.known ≡ m.known

nothing-Passed : (envid p : ℕ) (m : Machine) → Passed envid p m (m.entry envid p) (m.entry 0 p) m
nothing-Passed envid p m = record {
  child = λ q. elim (Bool-cases (q == p)) [
    | inl same ↦ let e : q ≡ p = ground arith in rw same (ap (m.entry envid) e)
    | inr other ↦ rw other refl
  ];
  caller = λ q. elim (Bool-cases (q == p)) [
    | inl same ↦ let e : q ≡ p = ground arith in rw same (ap (m.entry 0) e)
    | inr other ↦ rw other refl
  ];
  others = λ e a b. refl;
  bytes = refl;
  answer = refl;
  known = refl;
}

set_child-Passed :
    (envid p : ℕ) (m : Machine) (c : Option Pte)
    → envid ≢ 0
    → Passed envid p m c (m.entry 0 p) (set_entry envid p c (asked m))
set_child-Passed envid p m c ne =
    let same = nothing-Passed envid p m in
    let own : (envid == envid) ≡ true = ground arith in
    let zero_other : (0 == envid) ≡ false = ground arith in
    record {
      child = λ q. set_entry-at envid p c (asked m) envid q ∙ rw own refl;
      caller = λ q. set_entry-at envid p c (asked m) 0 q ∙ rw zero_other (same.caller q);
      others = λ e a b. update-other m.entry envid e (update (m.entry envid) p c) b;
      bytes = refl;
      answer = refl;
      known = refl;
    }

set_caller-Passed :
    (envid p : ℕ) (m t : Machine) (c k v : Option Pte)
    → envid ≢ 0
    → Passed envid p m c k t
    → Passed envid p m c v (set_entry 0 p v (asked t))
set_caller-Passed envid p m t c k v ne passed =
    let other : (envid == 0) ≡ false = ground arith in
    record {
      child = λ q. set_entry-at 0 p v (asked t) envid q ∙ rw other (passed.child q);
      caller = λ q. elim (Bool-cases (q == p)) [
        | inl same ↦ set_entry-at 0 p v (asked t) 0 q ∙ rw same refl
        | inr diff ↦
            let old : t.entry 0 q ≡ m.entry 0 q = passed.caller q ∙ rw diff refl in
            set_entry-at 0 p v (asked t) 0 q ∙ rw diff old
      ];
      others = λ e a b. update-other t.entry 0 e (update (t.entry 0) p v) a ∙ passed.others e a b;
      bytes = passed.bytes;
      answer = passed.answer;
      known = passed.known;
    }

-- The write to the child's address space, with a permission
to_child :
    (envid p perm : ℕ) (m : Machine) (e : Pte)
    → Grants envid m
    → envid ≢ 0
    → m.entry 0 p ≡ some e
    → (t : Machine) × (or_panic (mem_map 0 (p * 4096) envid (p * 4096) perm) m ≡ gives tt t)
      × Passed envid p m (some (record { frame = e.frame; perm = perm })) (m.entry 0 p) t
to_child envid p perm m e g ne here =
    let (f, yields) = g.granted m.requests in
    let page : p * 4096 / 4096 ≡ p = omega arith in
    let c : Option Pte = some (record { frame = e.frame; perm = perm }) in
    let run : mem_map 0 (p * 4096) envid (p * 4096) perm m
        ≡ gives tt (set_entry envid p c (asked m)) =
      mem_map-step 0 (p * 4096) envid (p * 4096) perm f e m g.caller g.child
        (ap (m.entry 0) page ∙ here) yields
      ∙ ap (λ (q : ℕ). gives tt (set_entry envid q c (asked m))) page in
    (
      set_entry envid p c (asked m),
      or_panic-step (mem_map 0 (p * 4096) envid (p * 4096) perm) m run,
      set_child-Passed envid p m c ne,
    )

-- The write to the caller's own, behind it
to_caller :
    (envid p perm : ℕ) (m t : Machine) (e : Pte) (c : Option Pte)
    → Grants envid m
    → envid ≢ 0
    → m.entry 0 p ≡ some e
    → Passed envid p m c (m.entry 0 p) t
    → (u : Machine) × (or_panic (mem_map 0 (p * 4096) 0 (p * 4096) perm) t ≡ gives tt u)
      × Passed envid p m c (some (record { frame = e.frame; perm = perm })) u
to_caller envid p perm m t e c g ne here passed =
    let (f, yields) = g.granted t.requests in
    let page : p * 4096 / 4096 ≡ p = omega arith in
    let own : (p == p) ≡ true = ground arith in
    let k : Option Pte = some (record { frame = e.frame; perm = perm }) in
    let caller : t.known 0 ≡ true = ap (λ (f : ℕ → Bool). f 0) passed.known ∙ g.caller in
    let entry : t.entry 0 p ≡ some e = passed.caller p ∙ rw own here in
    let run : mem_map 0 (p * 4096) 0 (p * 4096) perm t ≡ gives tt (set_entry 0 p k (asked t)) =
      mem_map-step 0 (p * 4096) 0 (p * 4096) perm f e t caller caller (ap (t.entry 0) page ∙ entry)
        (ap (λ (a : ℕ → Option ℕ). a t.requests) passed.answer ∙ yields)
      ∙ ap (λ (q : ℕ). gives tt (set_entry 0 q k (asked t))) page in
    (
      set_entry 0 p k (asked t),
      or_panic-step (mem_map 0 (p * 4096) 0 (p * 4096) perm) t run,
      set_caller-Passed envid p m t c (m.entry 0 p) k ne passed,
    )

abbrev protected : Pte → Pte
protected e = record { frame = e.frame; perm = bit_or e.perm pte_ro }

protect-Passed :
    (envid p : ℕ) (m : Machine) (e : Pte)
    → Grants envid m
    → envid ≢ 0
    → m.entry 0 p ≡ some e
    → (t : Machine) × (protect envid (p * 4096) e.perm m ≡ gives tt t)
      × Passed envid p m
          (some (protected e))
          (some (if has_bit e.perm pte_ro then e else protected e))
          t
unfolding protect
protect-Passed envid p m e g ne here =
    let perm = bit_or e.perm pte_ro in
    let (t, run, passed) = to_child envid p perm m e g ne here in
    let first =
      >>=-step (or_panic (mem_map 0 (p * 4096) envid (p * 4096) perm))
        (λ x.
          if not (has_bit e.perm pte_ro)
          then or_panic (mem_map 0 (p * 4096) 0 (p * 4096) perm)
          else pure tt)
        m run in
    elim (Bool-cases (has_bit e.perm pte_ro)) [
      | inl ro ↦ (
        t,
        first ∙ rw ro refl,
        rw ro (subst (λ (k : Option Pte). Passed envid p m (some (protected e)) k t) here passed),
      )
      | inr rw_page ↦
          let (u, again, both) =
            to_caller envid p perm m t e (some (protected e)) g ne here passed in
          (u, first ∙ rw rw_page again, rw rw_page both)
    ]

dup_entry-none : (envid p : ℕ) (m : Machine) → m.entry 0 p ≡ none → dup_entry envid p m ≡ gives tt m
unfolding dup_entry
dup_entry-none envid p m empty = elim (Bool-cases (p / 2 ^ 18 == 256)) [
  | inl self ↦ rw self refl
  | inr other ↦ rw other (rw (dup_entry, empty) refl)
]

-- A page that the tests of `fork` and `duppage` leave out
dup_entry-stays :
    (envid p : ℕ) (m : Machine) (e : Pte)
    → m.entry 0 p ≡ some e
    → passes p e ≡ false
    → dup_entry envid p m ≡ gives tt m
unfolding dup_entry duppage
dup_entry-stays envid p m e here stays = elim (Bool-cases (p / 2 ^ 18 == 256)) [
  | inl self ↦ rw self refl
  | inr other ↦ rw other (elim (Bool-cases (has_bit e.perm pte_user)) [
    | inr kernel ↦ rw (dup_entry, here) (rw kernel refl)
    | inl user ↦
        let top : (p * 4096 == uxstacktop - 4096) ≡ true = ground arith in
        rw (dup_entry, here) (rw user (rw top refl))
  ])
]

dup_entry-goes :
    (envid p : ℕ) (m : Machine) (e : Pte)
    → m.entry 0 p ≡ some e
    → passes p e ≡ true
    → dup_entry envid p m
      ≡ (if has_bit e.perm pte_library
            then or_panic (mem_map 0 (p * 4096) envid (p * 4096) e.perm)
            else protect envid (p * 4096) e.perm)
          m
unfolding dup_entry duppage
dup_entry-goes envid p m e here goes =
    let other : (p / 2 ^ 18 == 256) ≡ false = ground arith in
    let below : (p * 4096 == uxstacktop - 4096) ≡ false = ground arith in
    let user : has_bit e.perm pte_user ≡ true = ground arith in
    rw other (rw (dup_entry, here) (rw user (rw below refl)))

pub dup_entry-Passed :
    (envid p : ℕ) (m : Machine)
    → Grants envid m
    → envid ≢ 0
    → (t : Machine) × (dup_entry envid p m ≡ gives tt t)
      × Passed envid p m
          (child_entry p (m.entry 0 p) (m.entry envid p))
          (caller_entry p (m.entry 0 p))
          t
dup_entry-Passed envid p m g ne = elim (Option-cases (m.entry 0 p)) [
  | inl empty ↦ (
    m,
    dup_entry-none envid p m empty,
    subst
        (λ (o : Option Pte).
          Passed envid p m (child_entry p o (m.entry envid p)) (caller_entry p o) m)
        (sym empty)
        (subst (λ (o : Option Pte). Passed envid p m (m.entry envid p) o m) empty
          (nothing-Passed envid p m)),
  )
  | inr (e, here) ↦ elim (Bool-cases (passes p e)) [
    | inr stays ↦ (
      m,
      dup_entry-stays envid p m e here stays,
      subst
          (λ (o : Option Pte).
            Passed envid p m (child_entry p o (m.entry envid p)) (caller_entry p o) m)
          (sym here)
          (rw (passes, stays)
            (subst (λ (o : Option Pte). Passed envid p m (m.entry envid p) o m) here
              (nothing-Passed envid p m))),
    )
    | inl goes ↦ elim (Bool-cases (has_bit e.perm pte_library)) [
      | inl library ↦
          let (t, run, passed) = to_child envid p e.perm m e g ne here in
          (
            t,
            dup_entry-goes envid p m e here goes ∙ rw library run,
            subst
                (λ (o : Option Pte).
                  Passed envid p m (child_entry p o (m.entry envid p)) (caller_entry p o) t)
                (sym here)
                (rw (passes, goes)
                  (rw library
                    (subst (λ (o : Option Pte). Passed envid p m (some e) o t) here passed))),
          )
      | inr private ↦
          let (t, run, passed) = protect-Passed envid p m e g ne here in
          (
            t,
            dup_entry-goes envid p m e here goes ∙ rw private run,
            subst
                (λ (o : Option Pte).
                  Passed envid p m (child_entry p o (m.entry envid p)) (caller_entry p o) t)
                (sym here) (rw (passes, goes) (rw private passed)),
          )
    ]
  ]
]
