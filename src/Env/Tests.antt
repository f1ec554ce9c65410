-- ===== src/Env/Tests.antt =====
-- Identifiers, and an environment that is made, on a small kernel.
use raspberry3_mos.Base.{
  ℕ, ◌+◌, ◌*◌, ◌≡◌, ◌≢◌, ◌↔◌, refl, true, none, some, [], ◌∷◌, ◌==◌, if◌then◌else◌, arith,
}
use raspberry3_mos.Pmap.{Kmem, find_bit, free_bit, take_page, alloc_from, page_alloc}
use raspberry3_mos.Sched.{env_free, env_runnable}
use raspberry3_mos.Env.{
  Trapframe, Env, Kernel, made, envx, mkenvid, envid2env, env_setup_vm, place_env, alloc_first,
  env_alloc, ustacktop,
}
use raspberry3_mos.Env.Ids.{Owns, mkenvid_lem, envid2env_lem}
use raspberry3_mos.Env.Alloc.{env_alloc_lem}

abbrev pub frame : Trapframe
frame = record { far_el1 = 0; sp_el0 = 0; elr_el1 = 0; spsr_el1 = 0; count_down = 0; regs = λ r. 0 }

abbrev pub blank : Env
blank = record {
  tf = frame;
  id = 0;
  parent_id = 0;
  status = 0;
  pgdir = 0;
  pgdir_pa = 0;
  pri = 1;
  ipc_value = 0;
  ipc_from = 0;
  ipc_recving = 0;
  ipc_dstva = 0;
  ipc_perm = 0;
  pgfault_handler = 0;
  xstacktop = 0;
  env_runs = 0;
}

-- Environment 0 runs with the identifier 2048.
abbrev pub kernel : Kernel
kernel = record {
  mem = record {
    vis = λ i. if i == 0 then 31 else 0;
    pages = λ i. record { pa = i * 4096 + 0x703; ref = 0 };
    cell = λ a. 0;
  };
  envs = λ e. if e == 0 then record blank { id = 2048; status = 1 } else blank;
  free_list = 1 ∷ 2 ∷ [];
  sched = record { q0 = []; q1 = []; point = 0; count = 1 };
  curenv = some 0;
  next_env_id = 1;
  trap = frame;
}

abbrev setup : ℕ × Kmem
setup = elim (env_setup_vm 1 kernel.mem) [ none ↦ (0, kernel.mem) | some r ↦ r ]

abbrev pub after : Kernel
after = place_env 1 (2 ∷ []) setup.0 2048 setup.1 kernel

pub env_alloc_runs : env_alloc 1 2048 kernel ≡ made 1 after
unfolding env_alloc alloc_first env_setup_vm page_alloc alloc_from free_bit find_bit take_page
env_alloc_runs = refl

mkenvid_lem_example :
    (envx (mkenvid 1 kernel).0 ≡ 1)
    × ((mkenvid 1 kernel).0 ≢ 0)
    × ((mkenvid 1 kernel).0 ≡ (mkenvid 1 after).0
        → (kernel.next_env_id ≡ after.next_env_id) × ◌≡◌ {A = ℕ} 1 1)
unfolding place_env
mkenvid_lem_example =
    mkenvid_lem 1 1 kernel after (omega arith) (omega arith) (omega arith) (omega arith)

envid2env_lem_example : (envid2env 2048 true kernel ≡ some 0) ↔ (
    (0 ≡ envx 2048)
    × ((kernel.envs 0).status ≢ env_free)
    × ((kernel.envs 0).id ≡ 2048)
    × (true ≡ true → Owns kernel 0 0))
envid2env_lem_example = envid2env_lem 2048 true kernel 0 0 (omega arith) refl

env_alloc_lem_example :
    (envid2env (after.envs 1).id true after ≡ some 1)
    × (kernel.free_list ≡ 1 ∷ after.free_list)
    × ((after.envs 1).status ≡ env_runnable)
    × ((after.envs 1).tf.sp_el0 ≡ ustacktop)
    × ((d : ℕ) → d ≢ 1 → after.envs d ≡ kernel.envs d)
env_alloc_lem_example =
    env_alloc_lem 1 2048 0 1 kernel after true env_alloc_runs (omega arith) (omega arith) refl refl
      (omega arith) (omega arith)
