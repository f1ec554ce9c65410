-- ===== src/Syscall/Ipc.antt =====
-- `sys_ipc_recv` and `sys_ipc_can_send` (kernel/syscall_all.c) together.
use raspberry3_mos.Base.{
  ℕ, ◌<◌, ◌≡◌, ◌≢◌, refl, sym, ◌∙◌, ap, inl, inr, Bool, true, false, Option, none, some, leb, ◌==◌,
  if◌then◌else◌, Bool-cases, arith,
}
use raspberry3_mos.Pmap.{kernbase}
use raspberry3_mos.PageTable.{page_lookup}
use raspberry3_mos.Sched.{
  env_runnable, env_not_runnable, Pick, picked, no_env, out_of_fuel, sched_pick,
}
use raspberry3_mos.Sched.Conserve.{sched_pick-Conserves}
use raspberry3_mos.Env.{Env, Kernel, envx, envid2env}
use raspberry3_mos.Syscall.{
  Outcome, returns, enters, panics, faults, spins, minus, e_ipc_not_recv, set_result, answer,
  with_current, with_env, env_run, attr, sched_yield, sys_yield, await_message, sys_ipc_recv,
  deliver, send_page, sys_ipc_can_send,
}

pub if_false {ℓ} : {A : Type ℓ} {b : Bool} (x y : A) → b ≡ false → (if b then x else y) ≡ y
if_false x y h = ap (λ b. if b then x else y) h

if_true {ℓ} : {A : Type ℓ} {b : Bool} (x y : A) → b ≡ true → (if b then x else y) ≡ x
if_true x y h = ap (λ b. if b then x else y) h

pub with_current-some :
    (k : Kernel) {c : ℕ} (f : ℕ → Outcome) → k.curenv ≡ some c → with_current k f ≡ f c
unfolding with_current
with_current-some k f h =
    ap (λ (o : Option ℕ). let y : Outcome = elim o [ none ↦ faults | some d ↦ f d ] in y) h

with_env-some :
    (envid : ℕ) (check : Bool) (k : Kernel) {e : ℕ} (f : ℕ → Outcome)
    → envid2env envid check k ≡ some e
    → with_env envid check k f ≡ f e
unfolding with_env
with_env-some envid check k f h =
    ap
      (λ (o : Option ℕ).
        let y : Outcome = elim o [
          | none ↦ if envid == 0 then faults else answer (minus 1) k
          | some d ↦ f d
        ] in
        y)
      h

-- Environment `r` waits as `sys_ipc_recv` has left it.
abbrev pub Waits : ℕ → ℕ → Kernel → Type 0
Waits r dstva k =
    ((k.envs r).ipc_recving ≡ 1)
    × ((k.envs r).ipc_dstva ≡ dstva)
    × ((k.envs r).status ≡ env_not_runnable)

pub await_message-Waits : (r dstva : ℕ) (k : Kernel) → Waits r dstva (await_message r dstva k)
unfolding await_message
await_message-Waits r dstva k = (ground arith, ground arith, ground arith)

-- The environment `v` with the status of `w` and those of its fields that a message fills
abbrev pub filled : Env → Env → Env
filled v w = record v {
  status = w.status;
  ipc_value = w.ipc_value;
  ipc_from = w.ipc_from;
  ipc_recving = w.ipc_recving;
  ipc_perm = w.ipc_perm;
}

-- What the receiver `r` of a message holds.
pub record Delivered (c r value perm : ℕ) (k t : Kernel) : Type 0 where
  pub content : (t.envs r).ipc_value ≡ value
  pub sender : (t.envs r).ipc_from ≡ (k.envs c).id
  pub rights : (t.envs r).ipc_perm ≡ perm
  pub taken : (t.envs r).ipc_recving ≡ 0
  pub awake : (t.envs r).status ≡ env_runnable
  -- The five fields above are the only ones of the receiver that may differ.
  pub rest : t.envs r ≡ filled (k.envs r) (t.envs r)
  pub others : (d : ℕ) → d ≢ r → t.envs d ≡ k.envs d
  -- Memory, the free list, the run queue, `curenv` and `next_env_id` are as before.
  pub elsewhere : t ≡ record k { envs = t.envs; trap = t.trap }

deliver-Delivered :
    (c r value perm : ℕ) (k : Kernel) → Delivered c r value perm k (deliver c r value perm k)
unfolding deliver
deliver-Delivered c r value perm k = record {
  content = ground arith;
  sender = ground arith;
  rights = ground arith;
  taken = ground arith;
  awake = ground arith;
  rest = let own : (r == r) ≡ true = ground arith in rw own refl;
  others = λ d ne. let other : (d == r) ≡ false = ground arith in rw other;
  elsewhere = refl;
}

envid2env-deliver :
    (envid c r value perm : ℕ) (k : Kernel)
    → envid ≢ 0
    → envid2env envid false k ≡ some r
    → envid2env envid false (set_result 0 (deliver c r value perm k)) ≡ some r
unfolding envid2env deliver set_result
envid2env-deliver envid c r value perm k ne h =
    let here : envx envid ≡ r = ground arith in ground arith

send_page-unmapped :
    (c r srcva perm : ℕ) (u : Kernel)
    → page_lookup (u.envs c).pgdir srcva u.mem ≡ none
    → send_page c r srcva perm u ≡ answer (minus 1) u
unfolding send_page
send_page-unmapped c r srcva perm u h = rw (h, send_page)

send_page-none :
    (c r value srcva perm : ℕ) (k : Kernel)
    → c ≢ r
    → page_lookup (k.envs c).pgdir srcva k.mem ≡ none
    → send_page c r srcva perm (deliver c r value perm k)
      ≡ answer (minus 1) (deliver c r value perm k)
unfolding deliver
send_page-none c r value srcva perm k ne h =
    let kept = (deliver-Delivered c r value perm k).others c ne in
    send_page-unmapped c r srcva perm (deliver c r value perm k)
      (ap (λ v. page_lookup v.pgdir srcva k.mem) kept ∙ h)

-- A message without a page to a receiver that waits after `sys_ipc_recv`: the call returns 0, and the
-- receiver holds the value, the sender and the permissions, receives no more and may run. All other
-- fields of the receiver, all other environments, memory, the lists of environments and the current
-- environment are as before. A further message to it in that state is refused. The identifier is not
-- 0, and of the further message the address is one of user space.
pub ipc_rendezvous :
    (envid c r dstva value perm : ℕ) (k : Kernel)
    → k.curenv ≡ some c
    → envid ≢ 0
    → envid2env envid false k ≡ some r
    → Waits r dstva k
    → (t : Kernel) × (sys_ipc_can_send envid value 0 perm k ≡ returns t)
      × (t.trap.regs 0 ≡ 0)
      × Delivered c r value perm k t
      × ((value' srcva perm' : ℕ)
          → srcva < kernbase
          → sys_ipc_can_send envid value' srcva perm' t ≡ answer (minus e_ipc_not_recv) t)
unfolding sys_ipc_can_send set_result
ipc_rendezvous envid c r dstva value perm k cur ne found waits =
    let t = set_result 0 (deliver c r value perm k) in
    let d = deliver-Delivered c r value perm k in
    (
      t,
      run,
      refl,
      record {
        content = d.content;
        sender = d.sender;
        rights = d.rights;
        taken = d.taken;
        awake = d.awake;
        rest = d.rest;
        others = d.others;
        elsewhere = unfold deliver in refl;
      },
      second,
    )
  where
    busy : ((k.envs r).ipc_recving == 0) ≡ false
    busy = ground (arith, waits.0)

    run : sys_ipc_can_send envid value 0 perm k ≡ returns (set_result 0 (deliver c r value perm k))
    run = with_env-some envid false k _ found ∙ if_false _ _ busy ∙ with_current-some k _ cur

    second :
        (value' srcva perm' : ℕ)
        → srcva < kernbase
        → sys_ipc_can_send envid value' srcva perm' (set_result 0 (deliver c r value perm k))
          ≡ answer (minus e_ipc_not_recv) (set_result 0 (deliver c r value perm k))
    second value' srcva perm' low =
        let inside : leb kernbase srcva ≡ false = ground arith in
        let again = envid2env-deliver envid c r value perm k ne found in
        let idle : ((deliver c r value perm k).envs r).ipc_recving ≡ 0 =
          (deliver-Delivered c r value perm k).taken in
        if_false _ _ inside
        ∙ with_env-some envid false (set_result 0 (deliver c r value perm k)) _ again
        ∙ if_true _ _ (ap (λ n. n == 0) idle)

-- A message with a page of user space that the sender has not mapped, to another environment that
-- waits: the call returns -1, and yet the receiver holds the value and may run, as after a message
-- that was sent.
pub ipc_unmapped_page :
    (envid c r dstva value srcva perm : ℕ) (k : Kernel)
    → k.curenv ≡ some c
    → envid2env envid false k ≡ some r
    → Waits r dstva k
    → srcva < kernbase
    → srcva ≢ 0
    → c ≢ r
    → page_lookup (k.envs c).pgdir srcva k.mem ≡ none
    → (t : Kernel) × (sys_ipc_can_send envid value srcva perm k ≡ returns t)
      × (t.trap.regs 0 ≡ minus 1)
      × Delivered c r value perm k t
unfolding sys_ipc_can_send set_result
ipc_unmapped_page envid c r dstva value srcva perm k cur found waits low nonzero ne unmapped =
    let t = set_result (minus 1) (deliver c r value perm k) in
    let d = deliver-Delivered c r value perm k in
    let inside : leb kernbase srcva ≡ false = ground arith in
    let busy : ((k.envs r).ipc_recving == 0) ≡ false = ground (arith, waits.0) in
    let page : (srcva == 0) ≡ false = ground arith in
    (
      t,
      if_false _ _ inside
          ∙ with_env-some envid false k _ found
          ∙ if_false _ _ busy
          ∙ with_current-some k _ cur
          ∙ if_false _ _ page
          ∙ send_page-none c r value srcva perm k ne unmapped,
      refl,
      record {
        content = d.content;
        sender = d.sender;
        rights = d.rights;
        taken = d.taken;
        awake = d.awake;
        rest = d.rest;
        others = d.others;
        elsewhere = unfold deliver in refl;
      },
    )

-- The environment that `sched_yield` enters was runnable.
entered-runnable :
    (fuel : ℕ) (k t : Kernel) (p : Pick)
    → sched_pick fuel (attr k) k.curenv k.sched ≡ p
    → sched_yield fuel k ≡ enters t
    → (e : ℕ) × (t.curenv ≡ some e) × ((k.envs e).status ≡ env_runnable)
unfolding sched_yield env_run
entered-runnable fuel k t (picked e s) q h =
    let ran : enters (env_run e (record k { sched = s })) ≡ enters t = rw (q, sched_yield) at h in
    let same : env_run e (record k { sched = s }) ≡ t = cc in
    (
      e,
      sym (ap (λ (u : Kernel). u.curenv) same),
      (sched_pick-Conserves fuel (attr k) k.curenv k.sched q).1,
    )
entered-runnable fuel k t no_env q h =
    let clash : panics ≡ enters t = rw (q, sched_yield) at h in cc
entered-runnable fuel k t out_of_fuel q h =
    let clash : spins ≡ enters t = rw (q, sched_yield) at h in cc

-- `sys_ipc_recv` blocks: the environment that it enters is another one than the caller.
pub sys_ipc_recv-blocks :
    (fuel dstva c : ℕ) (k t : Kernel)
    → k.curenv ≡ some c
    → sys_ipc_recv fuel dstva k ≡ enters t
    → t.curenv ≢ some c
unfolding sys_ipc_recv sys_yield
sys_ipc_recv-blocks fuel dstva c k t cur h same = elim (Bool-cases (leb kernbase dstva)) [
  | inl bad ↦ let clash : returns k ≡ enters t = rw (bad, sys_ipc_recv) at h in cc
  | inr fine ↦
      let waiting = await_message c dstva k in
      let yields : sched_yield fuel waiting ≡ enters t =
        sym (with_current-some k (λ c. sys_yield fuel (await_message c dstva k)) cur)
        ∙ (rw (fine, sys_ipc_recv) at h) in
      let (e, now, ready) =
        entered-runnable fuel waiting t
          (sched_pick fuel (attr waiting) waiting.curenv waiting.sched) refl yields in
      let self : some e ≡ some c = sym now ∙ same in
      let asleep = (await_message-Waits c dstva k).2 in
      let mine : e ≡ c = cc in
      let status : (waiting.envs c).status ≡ env_runnable =
        ap (λ d. (waiting.envs d).status) (sym mine) ∙ ready in
      absurd (omega arith)
]
