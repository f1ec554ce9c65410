-- ===== src/Sched/Runs.antt =====
-- The loop of the scheduler ends: it neither panics nor goes on while something can run.
use raspberry3_mos.Base.{
  ℕ, zero, suc, ◌+◌, ◌*◌, ◌≤◌, ◌<◌, ◌≡◌, ◌≢◌, refl, inl, inr, Bool, true, false, ◌||◌, Option, none,
  some, List, [], ◌∷◌, ◌++◌, ◌==◌, not, length, length-append, has, Bool-cases, arith,
}
use raspberry3_mos.Sched.{
  Sched, Attr, env_runnable, Pick, picked, no_env, out_of_fuel, can_run, put_back, turn, take_first,
  round, sched_loop, sched_pick, spend,
}
use raspberry3_mos.Sched.Conserve.{held}

-- The state with the queue `cur` at `point` and `oth` at the other place.
abbrev sched_at : Bool → List ℕ → List ℕ → ℕ → Sched
sched_at false cur oth n = record { q0 = cur; q1 = oth; point = 0; count = n }
sched_at true cur oth n = record { q0 = oth; q1 = cur; point = 1; count = n }

abbrev back : Option ℕ → List ℕ → List ℕ
back none oth = oth
back (some c) oth = oth ++ (c ∷ [])

round-cons :
    (a : Attr) (next : Option ℕ) (p : Bool) (e : ℕ) (q oth : List ℕ) (n : ℕ)
    → round a next (sched_at p (e ∷ q) oth n) ≡ some (e, sched_at p q (back next oth) (a.pri e))
unfolding round put_back turn take_first
round-cons a none false e q oth n = refl
round-cons a none true e q oth n = refl
round-cons a (some c) false e q oth n = refl
round-cons a (some c) true e q oth n = refl

round-nil :
    (a : Attr) (next : Option ℕ) (p : Bool) (e : ℕ) (r oth : List ℕ) (n : ℕ)
    → back next oth ≡ e ∷ r
    → round a next (sched_at p [] oth n) ≡ some (e, sched_at (not p) r [] (a.pri e))
unfolding round put_back turn take_first
round-nil a none false e r oth n h = rw h
round-nil a none true e r oth n h = rw h
round-nil a (some c) false e r oth n h = rw h
round-nil a (some c) true e r oth n h = rw h

has-append : (g : ℕ) (q r : List ℕ) → has g (q ++ r) ≡ (has g q || has g r)
has-append g [] r = refl
has-append g (x ∷ q) r = ground (arith, has-append g q r)

-- Where something held stands: in one queue, or behind the other once the current one is put back.
has-held :
    (g : ℕ) (next : Option ℕ) (q0 q1 : List ℕ) (point n : ℕ)
    → has g (held next (record { q0 = q0; q1 = q1; point = point; count = n })) ≡ true
    → ((has g (back next q1) || has g q0) ≡ true) × ((has g (back next q0) || has g q1) ≡ true)
has-held g none q0 q1 point n h =
    (ground (arith, has-append g q0 q1), ground (arith, has-append g q0 q1))
has-held g (some c) q0 q1 point n h = (
  ground (arith, has-append g q0 q1, has-append g q1 (c ∷ [])),
  ground (arith, has-append g q0 q1, has-append g q0 (c ∷ [])),
)

data IsPicked : Pick → Type 0 where
  is_picked : (e : ℕ) (t : Sched) → IsPicked (picked e t)

-- `g` is runnable and has a time slice.
module _ (a : Attr) (g : ℕ) (runnable : a.status g ≡ env_runnable) (slice : a.pri g ≢ 0) where
  next_round :
      (fuel : ℕ) (next : Option ℕ) (s : Sched) (e : ℕ) (t : Sched)
      → round a next s ≡ some (e, t)
      → IsPicked (sched_loop fuel a (some e) t)
      → IsPicked (sched_loop (suc fuel) a next s)
  unfolding sched_loop
  next_round fuel none s e t h i = rw (h, sched_loop) i
  next_round fuel (some c) s e t h i = elim (Bool-cases (can_run a (some c) s)) [
    | inl ready ↦ rw (ready, sched_loop) (is_picked c s)
    | inr later ↦ rw (later, h, sched_loop) i
  ]

  can_run-now :
      (e : ℕ) (p : Bool) (q oth : List ℕ)
      → g ≡ e
      → can_run a (some e) (sched_at p q oth (a.pri e)) ≡ true
  unfolding can_run
  can_run-now e false q oth h = rw (← h) (ground arith)
  can_run-now e true q oth h = rw (← h) (ground arith)

  ready_now :
      (fuel e : ℕ) (p : Bool) (q oth : List ℕ)
      → (g == e) ≡ true
      → IsPicked (sched_loop (suc fuel) a (some e) (sched_at p q oth (a.pri e)))
  unfolding sched_loop
  ready_now fuel e p q oth h = rw (can_run-now e p q oth (ground arith), sched_loop) (is_picked e _)

  in_current :
      (fuel : ℕ) (next : Option ℕ) (p : Bool) (cur oth : List ℕ) (n : ℕ)
      → has g cur ≡ true
      → length cur + 1 ≤ fuel
      → IsPicked (sched_loop fuel a next (sched_at p cur oth n))
  in_current fuel next p [] oth n h f = cc
  in_current zero next p (e ∷ q) oth n h f = absurd (omega arith)
  in_current (suc zero) next p (e ∷ q) oth n h f = absurd (omega arith)
  in_current (suc (suc fuel)) next p (e ∷ q) oth n h f =
      next_round (suc fuel) next _ e _ (round-cons a next p e q oth n) (elim (Bool-cases (g == e)) [
        | inl same ↦ ready_now fuel e p q (back next oth) same
        | inr other ↦
            in_current (suc fuel) (some e) p q (back next oth) (a.pri e) (rw other at h)
              (omega arith)
      ])

  has-back :
      (next : Option ℕ) (e : ℕ) (oth : List ℕ) → has g oth ≡ true → has g (back (some e) oth) ≡ true
  has-back next e oth h = ground (arith, has-append g oth (e ∷ []))

  length-back : (next : Option ℕ) (oth : List ℕ) → length (back next oth) ≤ length oth + 1
  length-back none oth = omega arith
  length-back (some c) oth = omega (arith, length-append oth (c ∷ []))

  in_turned :
      (fuel : ℕ) (next : Option ℕ) (p : Bool) (oth other : List ℕ) (n : ℕ)
      → back next oth ≡ other
      → has g other ≡ true
      → length other + 1 ≤ fuel
      → IsPicked (sched_loop fuel a next (sched_at p [] oth n))
  in_turned fuel next p oth [] n q h f = cc
  in_turned zero next p oth (e ∷ r) n q h f = absurd (omega arith)
  in_turned (suc zero) next p oth (e ∷ r) n q h f = absurd (omega arith)
  in_turned (suc (suc fuel)) next p oth (e ∷ r) n q h f =
      next_round (suc fuel) next _ e _ (round-nil a next p e r oth n q)
        (elim (Bool-cases (g == e)) [
          | inl same ↦ ready_now fuel e (not p) r [] same
          | inr other ↦
              in_current (suc fuel) (some e) (not p) r [] (a.pri e) (rw other at h) (omega arith)
        ])

  in_other :
      (fuel : ℕ) (next : Option ℕ) (p : Bool) (cur oth : List ℕ) (n : ℕ)
      → has g (back next oth) ≡ true
      → 2 * length cur + length oth + 2 ≤ fuel
      → IsPicked (sched_loop fuel a next (sched_at p cur oth n))
  in_other fuel next p [] oth n h f =
      in_turned fuel next p oth (back next oth) n refl h (omega (arith, length-back next oth))
  in_other zero next p (e ∷ q) oth n h f = absurd (omega arith)
  in_other (suc fuel) next p (e ∷ q) oth n h f =
      next_round fuel next _ e _ (round-cons a next p e q oth n) (
        in_other fuel (some e) p q (back next oth) (a.pri e) (has-back next e (back next oth) h)
          (omega (arith, length-back next oth)))

  anywhere :
      (fuel : ℕ) (next : Option ℕ) (p : Bool) (cur oth : List ℕ) (n : ℕ)
      → (has g (back next oth) || has g cur) ≡ true
      → 2 * length cur + length oth + 2 ≤ fuel
      → IsPicked (sched_loop fuel a next (sched_at p cur oth n))
  anywhere fuel next p cur oth n h f = elim (Bool-cases (has g cur)) [
    | inl here ↦ in_current fuel next p cur oth n here (omega arith)
    | inr there ↦ in_other fuel next p cur oth n (ground arith) f
  ]

  by_point :
      (fuel : ℕ) (next : Option ℕ) (q0 q1 : List ℕ) (point n : ℕ)
      → point < 2
      → has g (held next (record { q0 = q0; q1 = q1; point = point; count = n })) ≡ true
      → 2 * (length q0 + length q1) + 2 ≤ fuel
      → IsPicked (sched_loop fuel a next (record { q0 = q0; q1 = q1; point = point; count = n }))
  by_point fuel next q0 q1 zero n l h f =
      anywhere fuel next false q0 q1 n (has-held g next q0 q1 0 n h).0 (omega arith)
  by_point fuel next q0 q1 (suc zero) n l h f =
      anywhere fuel next true q1 q0 n (has-held g next q0 q1 1 n h).1 (omega arith)
  by_point fuel next q0 q1 (suc (suc k)) n l h f = absurd (omega arith)

spend-picked : (p : Pick) → IsPicked p → (e : ℕ) × (t : Sched) × (spend p ≡ picked e t)
unfolding spend
spend-picked (picked e t) i = (e, _, refl)
spend-picked no_env (i) = elim i [ ]
spend-picked out_of_fuel (i) = elim i [ ]

-- While some environment at hand or in a queue is runnable and has a time slice, `sched_yield` picks an
-- environment: it does not panic, and twice the length of the queues and two rounds are enough.
pub sched_pick-picked :
    (fuel : ℕ) (a : Attr) (curenv : Option ℕ) (s : Sched) (g : ℕ)
    → s.point < 2
    → has g (held curenv s) ≡ true
    → a.status g ≡ env_runnable
    → a.pri g ≢ 0
    → 2 * (length s.q0 + length s.q1) + 2 ≤ fuel
    → (e : ℕ) × (t : Sched) × (sched_pick fuel a curenv s ≡ picked e t)
unfolding sched_pick
sched_pick-picked fuel a curenv s g l h runnable slice f =
    spend-picked _ (by_point a g runnable slice fuel curenv s.q0 s.q1 s.point s.count l h f)
