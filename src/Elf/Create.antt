-- ===== src/Elf/Create.antt =====
-- Creation of an environment with a program: kernel/env.c `load_icode`, `env_create_priority` and
-- `env_create`.
use raspberry3_mos.Base.{ℕ, ◌%◌, ◌^◌}
use raspberry3_mos.Pmap.{Kmem, update}
use raspberry3_mos.Sched.{queue, set_queue, insert_tail}
use raspberry3_mos.Env.{Kernel, no_free_env, no_page, made, env_alloc}
use raspberry3_mos.Elf.{Loading, done, failed, load_elf}
use raspberry3_mos.Elf.Pages.{byte_at, load_icode_mapper}

unfoldable pub kernel_load_elf : ℕ → ℕ → ℕ → Kmem → Loading Kmem ℕ
kernel_load_elf pgdir binary size =
    load_elf (λ s. byte_at s.cell) (load_icode_mapper pgdir) binary size

abbrev pub set_elr : ℕ → ℕ → Kernel → Kernel
set_elr e entry k =
    let v = k.envs e in
    let tf = v.tf in
    record k { envs = update k.envs e (record v { tf = record tf { elr_el1 = entry } }) }

-- `load_icode`, which drops the result of `load_elf`; `unset` is the value of `entry_point` before.
unfoldable pub load_icode : ℕ → ℕ → ℕ → ℕ → Kernel → Kernel
load_icode unset e binary size k = elim (kernel_load_elf (k.envs e).pgdir binary size k.mem) [
  | done entry s ↦ set_elr e entry (record k { mem = s })
  | failed r s ↦ set_elr e unset (record k { mem = s })
]

-- How the creation ends: it returns, or panics in `env_setup_vm`.
pub data Creation : Type 0 where
  returned : Kernel → Creation
  panicked : Creation

unfoldable pub start_program : ℕ → ℕ → ℕ → ℕ → ℕ → Kernel → Kernel
start_program unset e binary size priority k =
    let v = k.envs e in
    let t =
      load_icode unset e binary size
        (record k { envs = update k.envs e (record v { pri = priority % 2 ^ 32 }) }) in
    record t { sched = set_queue 0 (insert_tail e (queue 0 t.sched)) t.sched }

-- `image` is the number of pages of the boot image. Without a free environment nothing happens.
unfoldable pub env_create_priority : ℕ → ℕ → ℕ → ℕ → ℕ → Kernel → Creation
env_create_priority image unset binary size priority k = elim (env_alloc image 0 k) [
  | no_free_env ↦ returned k
  | no_page ↦ panicked
  | made e t ↦ returned (start_program unset e binary size priority t)
]

unfoldable pub env_create : ℕ → ℕ → ℕ → ℕ → Kernel → Creation
env_create image unset binary size k = env_create_priority image unset binary size 1 k
