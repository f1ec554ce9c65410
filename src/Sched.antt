-- ===== src/Sched.antt =====
-- The scheduler (kernel/sched.c). An environment is its index in `envs`, and a run queue of
-- include/queue.h is the list of its elements in order.
pub mod Conserve
pub mod Runs
mod Tests
use raspberry3_mos.Base.{
  ℕ, zero, suc, ◌+◌, ◌-◌, Bool, true, false, ◌&&◌, ◌||◌, Option, none, some, List, [], ◌∷◌, ◌++◌,
  ◌==◌, not, if◌then◌else◌,
}

-- `env_sched_list[0]` and `[1]`, and the static variables `point` and `count`.
pub record Sched : Type 0 where
  pub q0 : List ℕ
  pub q1 : List ℕ
  pub point : ℕ
  pub count : ℕ

-- The fields of `struct Env` that the scheduler reads.
pub record Attr : Type 0 where
  pub status : ℕ → ℕ
  pub pri : ℕ → ℕ

abbrev pub env_free : ℕ
env_free = 0

abbrev pub env_runnable : ℕ
env_runnable = 1

abbrev pub env_not_runnable : ℕ
env_not_runnable = 2

-- `env_sched_list[p]`
abbrev pub queue : ℕ → Sched → List ℕ
queue zero s = s.q0
queue (suc p) s = s.q1

abbrev pub set_queue : ℕ → List ℕ → Sched → Sched
set_queue zero q s = record s { q0 = q }
set_queue (suc p) q s = record s { q1 = q }

-- `LIST_INSERT_TAIL`
abbrev pub insert_tail : ℕ → List ℕ → List ℕ
insert_tail e q = q ++ (e ∷ [])

abbrev pub is_empty : List ℕ → Bool
is_empty [] = true
is_empty (x ∷ q) = false

-- The environment that was picked, with the state behind it; a panic; or no more fuel.
pub data Pick : Type 0 where
  picked : ℕ → Sched → Pick
  no_env : Pick
  out_of_fuel : Pick

-- The condition of the loop, negated: `next` may run.
unfoldable pub can_run : Attr → Option ℕ → Sched → Bool
can_run a none s = false
can_run a (some e) s = not (s.count == 0) && (a.status e == env_runnable)

-- `if (next_env != NULL) LIST_INSERT_TAIL(&env_sched_list[point^1], next_env, sched_link)`
unfoldable pub put_back : Option ℕ → Sched → Sched
put_back none s = s
put_back (some e) s = set_queue (1 - s.point) (insert_tail e (queue (1 - s.point) s)) s

-- `if (LIST_EMPTY(&env_sched_list[point])) point = 1 - point`
unfoldable pub turn : Sched → Sched
turn s = if is_empty (queue s.point s) then record s { point = 1 - s.point } else s

-- `next_env = LIST_FIRST(...); LIST_REMOVE(...); count = next_env->pri`
unfoldable pub take_first : Attr → List ℕ → Sched → Option (ℕ × Sched)
take_first a [] s = none
take_first a (e ∷ q) s = some (e, record (set_queue s.point q s) { count = a.pri e })

-- One round of the loop body; `none` is the panic.
unfoldable pub round : Attr → Option ℕ → Sched → Option (ℕ × Sched)
round a next s = let t = turn (put_back next s) in take_first a (queue t.point t) t

-- The loop of `sched_yield`.
unfoldable pub sched_loop : ℕ → Attr → Option ℕ → Sched → Pick
sched_loop zero a next s = out_of_fuel
sched_loop (suc fuel) a next s = elim next [
  | none ↦ elim (round a none s) [ none ↦ no_env | some (e, t) ↦ sched_loop fuel a (some e) t ]
  | some c ↦ elim (can_run a (some c) s) [
    | true ↦ picked c s
    | false ↦ elim (round a (some c) s) [
      | none ↦ no_env
      | some (e, t) ↦ sched_loop fuel a (some e) t
    ]
  ]
]

-- `count --` before `env_run`
unfoldable pub spend : Pick → Pick
spend (picked e t) = picked e (record t { count = t.count - 1 })
spend no_env = no_env
spend out_of_fuel = out_of_fuel

-- `sched_yield` up to its call of `env_run`
unfoldable pub sched_pick : ℕ → Attr → Option ℕ → Sched → Pick
sched_pick fuel a curenv s = spend (sched_loop fuel a curenv s)
