-- ===== src/Sched/Conserve.antt =====
-- The scheduler loses no environment and duplicates none, and runs only what can run.
use mathlib.Core.List.{Perm, append_assoc, perm_middle, perm_append_singleton}
use mathlib.Core.Option.{some-injective}
use mathlib.Core.List.Perm
use raspberry3_mos.Base.{
  ℕ, zero, suc, ◌-◌, ◌≡◌, refl, sym, ◌∙◌, ap, subst, inl, inr, true, Option, none, some, List, [],
  ◌∷◌, ◌++◌, Bool-cases, Option-cases, arith,
}
use raspberry3_mos.Sched.{
  Sched, Attr, env_runnable, queue, set_queue, insert_tail, Pick, picked, no_env, out_of_fuel,
  can_run, put_back, turn, take_first, round, sched_loop, sched_pick, spend,
}

-- All environments that the scheduler holds: the one at hand and both queues.
abbrev pub held : Option ℕ → Sched → List ℕ
held none s = s.q0 ++ s.q1
held (some e) s = e ∷ (s.q0 ++ s.q1)

insert_tail-held :
    (k e : ℕ) (s : Sched)
    → Perm (held none (set_queue k (insert_tail e (queue k s)) s)) (e ∷ held none s)
insert_tail-held zero e s = perm_middle_of s.q0 s.q1
  where
    perm_middle_of : (q r : List ℕ) → Perm ((q ++ (e ∷ [])) ++ r) (e ∷ (q ++ r))
    perm_middle_of q r = rw append_assoc (perm_middle q r)
insert_tail-held (suc k) e s = rw (← append_assoc) (perm_append_singleton e (s.q0 ++ s.q1))

remove_first-held :
    (k e : ℕ) (q : List ℕ) (s : Sched)
    → queue k s ≡ e ∷ q
    → Perm (e ∷ held none (set_queue k q s)) (held none s)
remove_first-held zero e q s h = rw h (Perm.refl _)
remove_first-held (suc k) e q s h = rw h (Perm.symm (perm_middle s.q0 q))

put_back-held : (next : Option ℕ) (s : Sched) → Perm (held none (put_back next s)) (held next s)
unfolding put_back
put_back-held none s = Perm.refl _
put_back-held (some e) s = insert_tail-held (1 - s.point) e s

turn-held : (s : Sched) → held none (turn s) ≡ held none s
unfolding turn
turn-held s = ground arith

take_first-held :
    (a : Attr) (k : List ℕ) (s : Sched) {e : ℕ} {t : Sched}
    → queue s.point s ≡ k
    → take_first a k s ≡ some (e, t)
    → Perm (held (some e) t) (held none s)
unfolding take_first
take_first-held a [] s q h = cc
take_first-held a (x ∷ k) s {e} {t} q h =
    let made : ◌≡◌ {A = ℕ × Sched} (x, record (set_queue s.point k s) { count = a.pri x }) (e, t) =
      some-injective _ _ h in
    subst (λ (r : ℕ × Sched). Perm (held (some r.0) r.1) (held none s)) made
      (remove_first-held s.point x k s q)

round-held :
    (a : Attr) (next : Option ℕ) (s : Sched) {e : ℕ} {t : Sched}
    → round a next s ≡ some (e, t)
    → Perm (held (some e) t) (held next s)
unfolding round
round-held a next s h =
    let u = turn (put_back next s) in
    Perm.trans (take_first-held a (queue u.point u) u refl h)
      (rw (turn-held (put_back next s)) (put_back-held next s))

-- What a pick says of the environments held before.
abbrev Conserves : Attr → Option ℕ → Sched → Pick → Type 0
Conserves a next s (picked e t) =
    Perm (held (some e) t) (held next s) × (can_run a (some e) t ≡ true)
Conserves a next s no_env = Unit {0}
Conserves a next s out_of_fuel = Unit {0}

Conserves-trans :
    (a : Attr) (next : Option ℕ) (s : Sched) (e : ℕ) (t : Sched) (p : Pick)
    → Perm (held (some e) t) (held next s)
    → Conserves a (some e) t p
    → Conserves a next s p
Conserves-trans a next s e t (picked d u) h (perm, runs) = (Perm.trans perm h, runs)
Conserves-trans a next s e t no_env h c = tt
Conserves-trans a next s e t out_of_fuel h c = tt

sched_loop-Conserves :
    (fuel : ℕ) (a : Attr) (next : Option ℕ) (s : Sched)
    → Conserves a next s (sched_loop fuel a next s)
unfolding sched_loop
sched_loop-Conserves zero a next s = tt
sched_loop-Conserves (suc fuel) a none s = elim (Option-cases (round a none s)) [
  | inl q ↦ rw (q, sched_loop) tt
  | inr ((e, t), q) ↦
      rw (q, sched_loop)
        (Conserves-trans a none s e t (sched_loop fuel a (some e) t) (round-held a none s q)
          (sched_loop-Conserves fuel a (some e) t))
]
sched_loop-Conserves (suc fuel) a (some c) s = elim (Bool-cases (can_run a (some c) s)) [
  | inl ready ↦ rw (ready, sched_loop) (Perm.refl _, ready)
  | inr later ↦ elim (Option-cases (round a (some c) s)) [
    | inl q ↦ rw (later, q, sched_loop) tt
    | inr ((e, t), q) ↦
        rw (later, q, sched_loop)
          (Conserves-trans a (some c) s e t (sched_loop fuel a (some e) t)
            (round-held a (some c) s q) (sched_loop-Conserves fuel a (some e) t))
  ]
]

spend-Conserves :
    (a : Attr) (next : Option ℕ) (s : Sched) (p : Pick) {e : ℕ} {t : Sched}
    → Conserves a next s p
    → spend p ≡ picked e t
    → Perm (held (some e) t) (held next s) × (a.status e ≡ env_runnable)
unfolding spend can_run
spend-Conserves a next s (picked d u) {e} {t} (perm, runs) h =
    let same : d ≡ e = cc in
    let left : record u { count = u.count - 1 } ≡ t = cc in
    let runs' : a.status d ≡ env_runnable = ground arith in
    (
      subst (λ (k : Sched). Perm (held (some e) k) (held next s)) left
          (subst (λ k. Perm (held (some k) u) (held next s)) same perm),
      ap a.status (sym same) ∙ runs',
    )
spend-Conserves a next s no_env c h = cc
spend-Conserves a next s out_of_fuel c h = cc

-- `sched_yield` runs an environment that is runnable, loses none and duplicates none: the one that
-- runs and both queues hold what they and the current one held before, each as often.
pub sched_pick-Conserves :
    (fuel : ℕ) (a : Attr) (curenv : Option ℕ) (s : Sched) {e : ℕ} {t : Sched}
    → sched_pick fuel a curenv s ≡ picked e t
    → Perm (held (some e) t) (held curenv s) × (a.status e ≡ env_runnable)
unfolding sched_pick
sched_pick-Conserves fuel a curenv s h =
    spend-Conserves a curenv s (sched_loop fuel a curenv s) (sched_loop-Conserves fuel a curenv s) h
