-- ===== src/Sched/Tests.antt =====
-- The scheduler on three environments: 0 sleeps, 1 and 2 are runnable.
use mathlib.Core.List.{Perm}
use raspberry3_mos.Base.{ℕ, ◌≡◌, refl, none, some, [], ◌∷◌, ◌==◌, if◌then◌else◌, arith}
use raspberry3_mos.Sched.{
  Sched, Attr, env_runnable, picked, no_env, can_run, put_back, turn, take_first, round, spend,
  sched_loop, sched_pick,
}
use raspberry3_mos.Sched.Conserve.{held, sched_pick-Conserves}
use raspberry3_mos.Sched.Runs.{sched_pick-picked}

abbrev attr : Attr
attr = record { status = λ e. if e == 0 then 2 else 1; pri = λ e. e }

abbrev start : Sched
start = record { q0 = 0 ∷ 1 ∷ []; q1 = 2 ∷ []; point = 0; count = 0 }

abbrev empty : Sched
empty = record { q0 = []; q1 = []; point = 0; count = 0 }

abbrev second : Sched
second = record { q0 = []; q1 = 2 ∷ 0 ∷ []; point = 0; count = 0 }

first_pick : sched_pick 8 attr none start ≡ picked 1 second
unfolding sched_pick spend sched_loop can_run round put_back turn take_first
first_pick = refl

-- With its slice used up the environment 1 goes to the other queue, and the queues change places.
second_pick :
    sched_pick 8 attr (some 1) second
    ≡ picked 2 (record { q0 = []; q1 = 0 ∷ 1 ∷ []; point = 1; count = 1 })
unfolding sched_pick spend sched_loop can_run round put_back turn take_first
second_pick = refl

no_pick : sched_pick 8 attr none empty ≡ no_env
unfolding sched_pick spend sched_loop can_run round put_back turn take_first
no_pick = refl

sched_pick-Conserves_example :
    Perm (held (some 1) second) (held none start) × (attr.status 1 ≡ env_runnable)
sched_pick-Conserves_example = sched_pick-Conserves 8 attr none start first_pick

sched_pick-picked_example : (e : ℕ) × (t : Sched) × (sched_pick 8 attr none start ≡ picked e t)
sched_pick-picked_example =
    sched_pick-picked 8 attr none start 2 (omega arith) refl refl (omega arith) (omega arith)
