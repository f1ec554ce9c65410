-- ===== src/Syscall.antt =====
-- System calls (kernel/syscall_all.c), with `env_run`, `env_destroy` and `sched_yield` below them.
-- Register 0 of the frame at `*TRAPSP` is the result that the caller sees.
pub mod Devices
pub mod Ipc
pub mod Fork
mod Tests
use raspberry3_mos.Base.{
  ℕ, zero, suc, ◌+◌, ◌-◌, ◌*◌, ◌/◌, ◌%◌, ◌^◌, Bool, true, false, ◌&&◌, ◌||◌, Option, none, some,
  List, [], ◌∷◌, ltb, leb, ◌==◌, not, if◌then◌else◌,
}
use raspberry3_mos.Pmap.{Page, Kmem, update, kernbase, page_alloc}
use raspberry3_mos.PageTable.{page_insert, page_lookup, page_remove, pa2page, pte_addr}
use raspberry3_mos.Sched.{
  Sched, Attr, env_free, env_runnable, env_not_runnable, picked, no_env, out_of_fuel, sched_pick,
  insert_tail,
}
use raspberry3_mos.Env.{
  Trapframe, Env, Kernel, set_env, no_free_env, no_page, made, envid2env, env_alloc, free_env,
}

-- How a handler ends: it returns to the caller, `env_run` enters an environment, the kernel panics or
-- reads through a null `curenv`, or the scheduler's loop has used up its fuel.
pub data Outcome : Type 0 where
  returns : Kernel → Outcome
  enters : Kernel → Outcome
  panics : Outcome
  faults : Outcome
  spins : Outcome

-- `-n` in a u64 register
abbrev pub minus : ℕ → ℕ
minus n = 2 ^ 64 - n

abbrev pub e_inval : ℕ
e_inval = 3

abbrev pub e_ipc_not_recv : ℕ
e_ipc_not_recv = 6

-- `(*TRAPSP)->regs[0] = v`
unfoldable pub set_result : ℕ → Kernel → Kernel
set_result v k = record k { trap = record (k.trap) { regs = update k.trap.regs 0 v } }

abbrev pub answer : ℕ → Kernel → Outcome
answer v k = returns (set_result v k)

unfoldable pub with_current : Kernel → (ℕ → Outcome) → Outcome
with_current k f = elim k.curenv [ none ↦ faults | some c ↦ f c ]

-- `if (curenv) bcopy(*TRAPSP, &(curenv->tf), sizeof(struct Trapframe))`
unfoldable pub save_frame : Kernel → Kernel
save_frame k = elim k.curenv [
  | none ↦ k
  | some c ↦ let v = k.envs c in set_env c (record v { tf = k.trap }) k
]

-- `env_run`; the switch of the hardware's table base is not modelled.
unfoldable pub env_run : ℕ → Kernel → Kernel
unfolding save_frame
env_run e k =
    let s = save_frame k in
    let v = s.envs e in
    let tf = record (v.tf) { count_down = 62500 * 2 } in
    record (set_env e (record v { env_runs = (v.env_runs + 1) % 2 ^ 64; tf = tf }) s) {
      curenv = some e;
      trap = tf;
    }

abbrev pub attr : Kernel → Attr
attr k = record { status = λ e. (k.envs e).status; pri = λ e. (k.envs e).pri }

unfoldable pub sched_yield : ℕ → Kernel → Outcome
sched_yield fuel k = elim (sched_pick fuel (attr k) k.curenv k.sched) [
  | picked e s ↦ enters (env_run e (record k { sched = s }))
  | no_env ↦ panics
  | out_of_fuel ↦ spins
]

-- `env_destroy`, with what the caller does after it where it returns.
unfoldable pub env_destroy : ℕ → ℕ → (Kernel → Outcome) → Kernel → Outcome
env_destroy fuel e rest k =
    let t = free_env e k in
    let yielded = sched_yield fuel (record t { curenv = none }) in
    elim k.curenv [ none ↦ rest t | some c ↦ if c == e then yielded else rest t ]

-- The environment that `envid2env` finds; otherwise -1 is the result of the call, and the null
-- pointer for envid 0 is read through.
unfoldable pub with_env : ℕ → Bool → Kernel → (ℕ → Outcome) → Outcome
with_env envid checkperm k f = elim (envid2env envid checkperm k) [
  | none ↦ if envid == 0 then faults else answer (minus 1) k
  | some e ↦ f e
]

unfoldable pub sys_getenvid : Kernel → Outcome
unfolding with_current set_result
sys_getenvid k = with_current k (λ c. answer (k.envs c).id k)

unfoldable pub sys_yield : ℕ → Kernel → Outcome
sys_yield fuel k = sched_yield fuel k

unfoldable pub sys_env_destroy : ℕ → ℕ → Kernel → Outcome
sys_env_destroy fuel envid k = with_env envid true k (λ e. env_destroy fuel e (λ t. answer 0 t) k)

unfoldable pub sys_set_pgfault_handler : ℕ → ℕ → ℕ → Kernel → Outcome
sys_set_pgfault_handler envid func xstacktop k = with_env envid true k (λ e.
    let v = k.envs e in
    answer 0 (set_env e (record v { pgfault_handler = func; xstacktop = xstacktop }) k))

-- The result of `page_insert` as that of the call.
unfoldable pub insert_answer : ℕ → ℕ → ℕ → ℕ → Kernel → Outcome
insert_answer pgdir pp va perm k =
    let (done, s) = page_insert pgdir pp va perm k.mem in
    answer (if done then 0 else minus 1) (record k { mem = s })

unfoldable pub sys_mem_alloc : ℕ → ℕ → ℕ → Kernel → Outcome
unfolding insert_answer
sys_mem_alloc envid va perm k =
    if leb kernbase va
    then answer (minus 1) k
    else with_env envid true k (λ e. elim (page_alloc k.mem) [
      | none ↦ answer (minus 1) k
      | some (pp, s) ↦ insert_answer (k.envs e).pgdir pp va perm (record k { mem = s })
    ])

-- `ROUNDDOWN(va, BY2PG)`
abbrev pub round_page : ℕ → ℕ
round_page va = va - va % 4096

unfoldable pub sys_mem_map : ℕ → ℕ → ℕ → ℕ → ℕ → Kernel → Outcome
unfolding insert_answer
sys_mem_map srcid srcva dstid dstva perm k =
    if leb kernbase srcva || leb kernbase dstva
    then answer (minus 1) k
    else with_env srcid false k (λ src. with_env dstid false k (λ dst.
      elim (page_lookup (k.envs src).pgdir (round_page srcva) k.mem) [
        | none ↦ answer (minus 1) k
        | some (page, pte) ↦
            let pp = pa2page (pte_addr (k.mem.cell pte)) in
            insert_answer (k.envs dst).pgdir pp (round_page dstva) perm k
      ]))

-- On success register 0 keeps what it held.
unfoldable pub sys_mem_unmap : ℕ → ℕ → Kernel → Outcome
sys_mem_unmap envid va k =
    if leb kernbase va
    then answer (minus 1) k
    else with_env envid false k
        (λ e. returns (record k { mem = page_remove (k.envs e).pgdir va k.mem }))

-- What `sys_env_alloc` does with the environment `e` that `env_alloc` has made for `c`.
unfoldable pub start_child : ℕ → ℕ → Kernel → Kernel
start_child c e k =
    let v = k.envs e in
    let tf = record (k.trap) { regs = update k.trap.regs 0 0 } in
    let child = record v {
      status = env_not_runnable;
      pri = (k.envs c).pri;
      parent_id = (k.envs c).id;
      tf = tf;
    } in
    let s = k.sched in record (set_env e child k) { sched = record s { q0 = insert_tail e s.q0 } }

unfoldable pub sys_env_alloc : ℕ → Kernel → Outcome
sys_env_alloc image k = with_current k (λ c. elim (env_alloc image (k.envs c).id k) [
  | no_free_env ↦ answer (minus 1) k
  | no_page ↦ panics
  | made e t ↦ let u = start_child c e t in answer (u.envs e).id u
])

abbrev pub set_status : ℕ → ℕ → Kernel → Kernel
set_status e status k = let v = k.envs e in set_env e (record v { status = status }) k

unfoldable pub sys_set_env_status : ℕ → ℕ → ℕ → Kernel → Outcome
sys_set_env_status fuel envid status k =
    if not (status == env_runnable)
      && (not (status == env_not_runnable) && not (status == env_free))
    then answer (minus 1) k
    else with_env envid true k (λ e.
      if status == env_free
      then env_destroy fuel e (λ t. answer 0 (set_status e status t)) k
      else answer 0 (set_status e status k))

unfoldable pub sys_set_trapframe : Kernel → Outcome
sys_set_trapframe k = answer 0 k

-- `sys_ipc_recv` up to its `sys_yield`
unfoldable pub await_message : ℕ → ℕ → Kernel → Kernel
await_message c dstva k =
    let v = k.envs c in
    set_env c (record v { ipc_recving = 1; ipc_dstva = dstva; status = env_not_runnable }) k

unfoldable pub sys_ipc_recv : ℕ → ℕ → Kernel → Outcome
sys_ipc_recv fuel dstva k =
    if leb kernbase dstva
    then returns k
    else with_current k (λ c. sys_yield fuel (await_message c dstva k))

-- The fields of the receiver that a message fills; it may run again.
unfoldable pub deliver : ℕ → ℕ → ℕ → ℕ → Kernel → Kernel
deliver c e value perm k =
    let v = k.envs e in
    set_env e
      (record v {
        ipc_value = value;
        ipc_from = (k.envs c).id;
        ipc_perm = perm;
        ipc_recving = 0;
        status = env_runnable;
      })
      k

-- The page at `srcva`, mapped at the address that the receiver gave; the result of `page_insert` is
-- dropped.
unfoldable pub send_page : ℕ → ℕ → ℕ → ℕ → Kernel → Outcome
send_page c e srcva perm k = elim (page_lookup (k.envs c).pgdir srcva k.mem) [
  | none ↦ answer (minus 1) k
  | some (pp, pte) ↦
      let (done, s) = page_insert (k.envs e).pgdir pp (k.envs e).ipc_dstva perm k.mem in
      answer 0 (record k { mem = s })
]

unfoldable pub sys_ipc_can_send : ℕ → ℕ → ℕ → ℕ → Kernel → Outcome
sys_ipc_can_send envid value srcva perm k =
    if leb kernbase srcva
    then answer (minus 1) k
    else with_env envid false k (λ e.
      if (k.envs e).ipc_recving == 0
      then answer (minus e_ipc_not_recv) k
      else with_current k (λ c.
        let t = deliver c e value perm k in
        if srcva == 0 then answer 0 t else send_page c e srcva perm t))

unfoldable pub sys_get_pageref : ℕ → Kernel → Outcome
sys_get_pageref num k =
    if leb (2 ^ 18) num then answer (minus e_inval) k else answer (k.mem.pages num).ref k
