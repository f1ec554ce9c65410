-- ===== src/Syscall/Fork.antt =====
-- `sys_env_alloc` (kernel/syscall_all.c), the system call below `fork`.
use raspberry3_mos.Base.{
  ℕ, ◌+◌, ◌*◌, ◌%◌, inr, ◌^◌, ◌<◌, ◌≡◌, ◌≢◌, refl, sym, ◌∙◌, ap, Bool, false, some, List, ◌∷◌, ◌==◌,
  arith,
}
use raspberry3_mos.Pmap.{Kmem}
use raspberry3_mos.Sched.{env_not_runnable, insert_tail}
use raspberry3_mos.Env.{
  Kernel, NewEnv, no_free_env, no_page, made, nenv, envid2env, env_alloc, place_env,
}
use raspberry3_mos.Env.Ids.{envid2env_lem}
use raspberry3_mos.Env.Alloc.{alloc_first-made, placed_others}
use raspberry3_mos.Syscall.{
  Outcome, returns, panics, minus, set_result, answer, start_child, sys_env_alloc,
}
use raspberry3_mos.Syscall.Ipc.{if_false, with_current-some}

-- The state `t` after the environment `c` has made the child `e` from the state `k`.
pub record Forked (c e : ℕ) (k t : Kernel) : Type 0 where
  pub parent_result : t.trap.regs 0 ≡ (t.envs e).id
  pub child_result : (t.envs e).tf.regs 0 ≡ 0
  pub child_regs : (r : ℕ) → r ≢ 0 → (t.envs e).tf.regs r ≡ k.trap.regs r
  pub child_resumes : (t.envs e).tf.elr_el1 ≡ k.trap.elr_el1
  pub asleep : (t.envs e).status ≡ env_not_runnable
  pub same_pri : (t.envs e).pri ≡ (k.envs c).pri
  pub queued : t.sched.q0 ≡ insert_tail e k.sched.q0
  pub unlisted : k.free_list ≡ e ∷ t.free_list
  pub findable : (checkperm : Bool) → envid2env (t.envs e).id checkperm t ≡ some e
  pub others : (d : ℕ) → d ≢ e → t.envs d ≡ k.envs d

module _ (c e : ℕ) (free : List ℕ) (pgdir : ℕ) (s : Kmem) (k : Kernel) where
  abbrev child_state : Kernel
  child_state =
      let u = start_child c e (place_env e free pgdir (k.envs c).id s k) in
      set_result (u.envs e).id u

  child-others : (d : ℕ) → d ≢ e → child_state.envs d ≡ k.envs d
  unfolding start_child set_result
  child-others d ne =
      let other : (d == e) ≡ false = ground arith in
      if_false _ _ other ∙ placed_others e free pgdir (k.envs c).id c s k d ne

  child_found :
      (checkperm : Bool)
      → e < nenv
      → k.next_env_id + 1 < 2 ^ 21
      → k.curenv ≡ some c
      → c ≢ e
      → envid2env (child_state.envs e).id checkperm child_state ≡ some e
  unfolding start_child place_env set_result
  child_found checkperm small room cur ne =
      let id : (child_state.envs e).id ≡ (k.next_env_id + 1) % 2 ^ 32 * 2 ^ 11 % 2 ^ 32 + e =
        ground arith in
      let status : (child_state.envs e).status ≡ env_not_runnable = ground arith in
      let parent : (child_state.envs e).parent_id ≡ (child_state.envs c).id = ground arith in
      let pos : (child_state.envs e).id ≢ 0 = omega arith in
      (envid2env_lem (child_state.envs e).id checkperm child_state c e pos cur).1 (
        omega arith,
        λ q. let clash : ◌≡◌ {A = ℕ} 2 0 = sym status ∙ q in absurd (omega arith),
        refl,
        λ p. inr parent,
      )

child-Forked :
    (c e : ℕ) (free : List ℕ) (pgdir : ℕ) (s : Kmem) (k : Kernel)
    → e < nenv
    → k.next_env_id + 1 < 2 ^ 21
    → k.curenv ≡ some c
    → c ≢ e
    → k.free_list ≡ e ∷ free
    → Forked c e k (child_state c e free pgdir s k)
unfolding start_child place_env set_result
child-Forked c e free pgdir s k small room cur ne list = record {
  parent_result = refl;
  child_result = ground arith;
  child_regs = λ r nonzero. ground arith;
  child_resumes = ground arith;
  asleep = ground arith;
  same_pri = ground arith;
  queued = refl;
  unlisted = list;
  findable = λ checkperm. child_found c e free pgdir s k checkperm small room cur ne;
  others = child-others c e free pgdir s k;
}

-- Where `env_alloc` succeeds, `sys_env_alloc` returns the child's identifier to the caller and 0 to
-- the child, which has the caller's other registers, its program counter and its priority, waits,
-- not runnable, at the end of the first run queue, and can be found by its identifier; no other
-- environment changes. The counter of identifiers is below 2 ^ 21 - 1.
pub sys_env_alloc_lem :
    (image c e : ℕ) (k t : Kernel)
    → k.curenv ≡ some c
    → env_alloc image (k.envs c).id k ≡ made e t
    → e < nenv
    → k.next_env_id + 1 < 2 ^ 21
    → c ≢ e
    → (u : Kernel) × (sys_env_alloc image k ≡ returns u) × Forked c e k u
unfolding env_alloc sys_env_alloc
sys_env_alloc_lem image c e k t cur h small room ne =
    let (free, pgdir, s, list, placed) = alloc_first-made image (k.envs c).id k.free_list k h in
    (
      child_state c e free pgdir s k,
      with_current-some k _ cur ∙ forked (h ∙ ap (made e) (sym placed)),
      child-Forked c e free pgdir s k small room cur ne list,
    )
  where
    forked :
        {u : Kernel}
        → env_alloc image (k.envs c).id k ≡ made e u
        → (elim (env_alloc image (k.envs c).id k) [
          | no_free_env ↦ answer (minus 1) k
          | no_page ↦ panics
          | made d t ↦ let u = start_child c d t in answer (u.envs d).id u
        ])
          ≡ returns (set_result ((start_child c e u).envs e).id (start_child c e u))
    forked q =
        ap
          (λ (n : NewEnv).
            let y : Outcome = elim n [
              | no_free_env ↦ answer (minus 1) k
              | no_page ↦ panics
              | made d t ↦ let u = start_child c d t in answer (u.envs d).id u
            ] in
            y)
          q
