-- ===== src/Syscall/Tests.antt =====
-- System calls on a small kernel.
use raspberry3_mos.Base.{
  ℕ, ◌<◌, ◌≡◌, ◌≢◌, refl, false, none, some, [], ◌∷◌, ◌==◌, if◌then◌else◌, arith,
}
use raspberry3_mos.Pmap.{kernbase}
use raspberry3_mos.PageTable.{page_lookup, pgdir_walk, walk_levels, slot, level_index, found_page}
use raspberry3_mos.Sched.{sched_pick, sched_loop, round, put_back, turn, take_first, can_run, spend}
use raspberry3_mos.Env.{Kernel, envid2env}
use raspberry3_mos.Env.Tests.{blank, kernel, after, env_alloc_runs}
use raspberry3_mos.Syscall.{
  returns, enters, minus, e_ipc_not_recv, answer, env_run, await_message, sys_ipc_recv,
  sys_ipc_can_send, sys_yield, with_current, sched_yield, sys_env_alloc,
}
use raspberry3_mos.Syscall.Ipc.{Delivered, ipc_rendezvous, ipc_unmapped_page, sys_ipc_recv-blocks}
use raspberry3_mos.Syscall.Fork.{Forked, sys_env_alloc_lem}

-- Environment 1, with the identifier 4097, waits for a message.
abbrev waiting : Kernel
waiting = record kernel {
  envs = λ e.
      if e == 1 then record blank { id = 4097; status = 2; ipc_recving = 1 } else kernel.envs e;
}

waiting-found : envid2env 4097 false waiting ≡ some 1
unfolding envid2env
waiting-found = refl

ipc_rendezvous_example :
    (t : Kernel) × (sys_ipc_can_send 4097 7 0 0 waiting ≡ returns t)
    × (t.trap.regs 0 ≡ 0)
    × Delivered 0 1 7 0 waiting t
    × ((value' srcva perm' : ℕ)
        → srcva < kernbase
        → sys_ipc_can_send 4097 value' srcva perm' t ≡ answer (minus e_ipc_not_recv) t)
ipc_rendezvous_example =
    ipc_rendezvous 4097 0 1 0 7 0 waiting refl (omega arith) waiting-found (refl, refl, refl)

sys_env_alloc_lem_example :
    (u : Kernel) × (sys_env_alloc 1 kernel ≡ returns u) × Forked 0 1 kernel u
sys_env_alloc_lem_example =
    sys_env_alloc_lem 1 0 1 kernel after refl env_alloc_runs (omega arith) (omega arith)
      (omega arith)

nothing : page_lookup 0 4096 waiting.mem ≡ none
unfolding page_lookup pgdir_walk walk_levels slot level_index found_page
nothing = refl

ipc_unmapped_page_example :
    (t : Kernel) × (sys_ipc_can_send 4097 7 4096 0 waiting ≡ returns t)
    × (t.trap.regs 0 ≡ minus 1)
    × Delivered 0 1 7 0 waiting t
ipc_unmapped_page_example =
    ipc_unmapped_page 4097 0 1 0 7 4096 0 waiting refl waiting-found (refl, refl, refl)
      (omega arith) (omega arith) (omega arith) nothing

-- Environment 1 can run and stands in the first queue.
abbrev ready : Kernel
ready = record kernel {
  envs = λ e. if e == 1 then record blank { id = 4097; status = 1 } else kernel.envs e;
  sched = record { q0 = 1 ∷ []; q1 = []; point = 0; count = 1 };
}

-- The state in which environment 1 has been entered.
abbrev entered : Kernel
entered =
    let blocked = await_message 0 0 ready in
    env_run 1 (record blocked { sched = record { q0 = []; q1 = 0 ∷ []; point = 0; count = 0 } })

recv_enters : sys_ipc_recv 4 0 ready ≡ enters entered
unfolding sys_ipc_recv sys_yield with_current sched_yield await_message sched_pick sched_loop round
    put_back turn take_first can_run spend
recv_enters = refl

sys_ipc_recv-blocks_example : entered.curenv ≢ some 0
sys_ipc_recv-blocks_example = sys_ipc_recv-blocks 4 0 0 ready entered refl recv_enters
