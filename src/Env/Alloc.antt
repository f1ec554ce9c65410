-- ===== src/Env/Alloc.antt =====
-- `env_init` and `env_alloc`.
use raspberry3_mos.Base.{
  ℕ, zero, suc, ◌+◌, ◌*◌, ◌%◌, ◌^◌, ◌<◌, ◌≡◌, ◌≢◌, refl, sym, subst, ◌∙◌, ap, inl, inr, Bool, false,
  some, List, [], ◌∷◌, ltb, ◌==◌, if◌then◌else◌, Option-cases, arith,
}
use raspberry3_mos.Pmap.{Kmem}
use raspberry3_mos.Sched.{env_free, env_runnable}
use raspberry3_mos.Env.Ids.{envid2env_lem}
use raspberry3_mos.Env.{
  Env, Kernel, no_page, made, nenv, envx, envid2env, init_envs, env_init, env_setup_vm, alloc_first,
  env_alloc, ustacktop, place_env,
}

-- The numbers from `i` on, `n` of them.
abbrev pub from : ℕ → ℕ → List ℕ
from i zero = []
from i (suc n) = i ∷ from (suc i) n

init_envs-free :
    (i n : ℕ) (envs : ℕ → Env)
    → ((init_envs i envs (from i n)).1 ≡ from 0 (i + n))
      × ((e : ℕ)
          → ((init_envs i envs (from i n)).0 e).status
            ≡ (if ltb e i then env_free else (envs e).status))
unfolding init_envs
init_envs-free zero n envs = (ap (from 0) (omega arith), λ e. ground arith)
init_envs-free (suc i) n envs =
    let old = envs i in
    let envs' = λ (j : ℕ). if j == i then record old { status = env_free } else envs j in
    let (free, status) = init_envs-free i (suc n) envs' in
    (free ∙ ap (from 0) (omega arith), λ e. status e ∙ ground arith)

-- `env_init` marks all `NENV` environments as free, puts each once on the free list, in the order
-- of their indices, and empties both run queues.
pub env_init_lem :
    (k : Kernel)
    → ((env_init k).free_list ≡ from 0 nenv)
      × ((e : ℕ) → e < nenv → ((env_init k).envs e).status ≡ env_free)
      × ((env_init k).sched.q0 ≡ [])
      × ((env_init k).sched.q1 ≡ [])
unfolding env_init
env_init_lem k =
    let (free, status) = init_envs-free nenv 0 k.envs in
    (free, λ e h. status e ∙ ground arith, refl, refl)

pub alloc_first-made :
    (image parent : ℕ) (free_list : List ℕ) (k : Kernel) {e : ℕ} {t : Kernel}
    → alloc_first image parent free_list k ≡ made e t
    → (free : List ℕ) × (pgdir : ℕ) × (s : Kmem) × (free_list ≡ e ∷ free)
      × (place_env e free pgdir parent s k ≡ t)
unfolding alloc_first
alloc_first-made image parent [] k h = cc
alloc_first-made image parent (d ∷ free) k {e} {t} h =
    elim (Option-cases (env_setup_vm image k.mem)) [
      | inl failed ↦ let clash : no_page ≡ made e t = rw (failed, alloc_first) at h in cc
      | inr ((pgdir, s), got) ↦
          let placed : made d (place_env d free pgdir parent s k) ≡ made e t =
            rw (got, alloc_first) at h in
          let same : d ≡ e = cc in
          let state : place_env d free pgdir parent s k ≡ t = cc in
          (free, pgdir, s, ap (λ j. j ∷ free) same, rw same at state)
    ]

module _ (e : ℕ) (free : List ℕ) (pgdir parent c : ℕ) (s : Kmem) (k : Kernel) where
  abbrev pub placed_env : Kernel
  placed_env = place_env e free pgdir parent s k

  placed_id :
      e < nenv
      → k.next_env_id + 1 < 2 ^ 21
      → (e ≡ envx (placed_env.envs e).id) × ((placed_env.envs e).id ≢ 0)
  unfolding place_env
  placed_id small room =
      let id : (placed_env.envs e).id ≡ (k.next_env_id + 1) % 2 ^ 32 * 2 ^ 11 % 2 ^ 32 + e =
        ground arith in
      omega arith

  placed_parent :
      parent ≡ (k.envs c).id
      → parent < 2 ^ 32
      → c ≢ e
      → (placed_env.envs e).parent_id ≡ (placed_env.envs c).id
  unfolding place_env
  placed_parent own low ne = ground arith

  placed_status :
      ((placed_env.envs e).status ≡ env_runnable) × ((placed_env.envs e).tf.sp_el0 ≡ ustacktop)
  unfolding place_env
  placed_status = (ground arith, ground arith)

  pub placed_others : (d : ℕ) → d ≢ e → placed_env.envs d ≡ k.envs d
  unfolding place_env
  placed_others d ne = let other : (d == e) ≡ false = ground arith in rw other

  pub placed_same : (placed_env.curenv ≡ k.curenv) × (placed_env.free_list ≡ free)
  unfolding place_env
  placed_same = (refl, refl)

  pub placed-found :
      (checkperm : Bool)
      → e < nenv
      → k.next_env_id + 1 < 2 ^ 21
      → k.curenv ≡ some c
      → parent ≡ (k.envs c).id
      → parent < 2 ^ 32
      → c ≢ e
      → envid2env (placed_env.envs e).id checkperm placed_env ≡ some e
  placed-found checkperm small room cur own low ne =
      let (index, pos) = placed_id small room in
      (envid2env_lem (placed_env.envs e).id checkperm placed_env c e pos (placed_same.0 ∙ cur)).1 (
        index,
        λ q. let clash : ◌≡◌ {A = ℕ} 1 0 = sym placed_status.0 ∙ q in absurd (omega arith),
        refl,
        λ p. inr (placed_parent own low ne),
      )

-- Where `env_alloc` succeeds for the current environment as parent, it takes the first free one: its
-- identifier leads back to it by `envid2env` with and without the permission check, it is runnable
-- and starts at the top of the user stack, and no other environment has changed. The counter of
-- identifiers is below 2 ^ 21 - 1.
pub env_alloc_lem :
    (image parent c e : ℕ) (k t : Kernel) (checkperm : Bool)
    → env_alloc image parent k ≡ made e t
    → e < nenv
    → k.next_env_id + 1 < 2 ^ 21
    → k.curenv ≡ some c
    → parent ≡ (k.envs c).id
    → parent < 2 ^ 32
    → c ≢ e
    → (envid2env (t.envs e).id checkperm t ≡ some e)
      × (k.free_list ≡ e ∷ t.free_list)
      × ((t.envs e).status ≡ env_runnable)
      × ((t.envs e).tf.sp_el0 ≡ ustacktop)
      × ((d : ℕ) → d ≢ e → t.envs d ≡ k.envs d)
unfolding env_alloc
env_alloc_lem image parent c e k t checkperm h small room cur own low ne =
    let (free, pgdir, s, list, placed) = alloc_first-made image parent k.free_list k h in
    subst
      (λ (t : Kernel).
        (envid2env (t.envs e).id checkperm t ≡ some e)
        × (k.free_list ≡ e ∷ t.free_list)
        × ((t.envs e).status ≡ env_runnable)
        × ((t.envs e).tf.sp_el0 ≡ ustacktop)
        × ((d : ℕ) → d ≢ e → t.envs d ≡ k.envs d))
      placed
      (
        placed-found e free pgdir parent c s k checkperm small room cur own low ne,
        list ∙ ap (λ j. e ∷ j) (sym (placed_same e free pgdir parent c s k).1),
        (placed_status e free pgdir parent c s k).0,
        (placed_status e free pgdir parent c s k).1,
        placed_others e free pgdir parent c s k,
      )
