-- ===== src/Env.antt =====
-- Environments (kernel/env.c): `envs`, the list of free ones, identifiers, creation and destruction.
-- An environment is its index in `envs`.
pub mod Ids
pub mod Alloc
pub mod Tests
use raspberry3_mos.Base.{
  ℕ, zero, suc, ◌+◌, ◌-◌, ◌*◌, ◌/◌, ◌%◌, ◌^◌, bit_and, bit_or, Bool, true, false, ◌&&◌, ◌||◌,
  Option, none, some, List, [], ◌∷◌, ltb, ◌==◌, not, if◌then◌else◌,
}
use raspberry3_mos.Pmap.{Page, Kmem, update, kernbase, page2kva, page_alloc, add_ref, page_decref}
use raspberry3_mos.PageTable.{
  is_valid, pte_addr, kaddr, pa2page, level_index, page_insert, page_remove, pte_user,
}
use raspberry3_mos.Sched.{Sched, env_free, env_runnable}

-- `struct Trapframe`
pub record Trapframe : Type 0 where
  pub far_el1 : ℕ
  pub sp_el0 : ℕ
  pub elr_el1 : ℕ
  pub spsr_el1 : ℕ
  pub count_down : ℕ
  pub regs : ℕ → ℕ

-- `struct Env`, less its two list links
pub record Env : Type 0 where
  pub tf : Trapframe
  pub id : ℕ
  pub parent_id : ℕ
  pub status : ℕ
  pub pgdir : ℕ
  pub pgdir_pa : ℕ
  pub pri : ℕ
  pub ipc_value : ℕ
  pub ipc_from : ℕ
  pub ipc_recving : ℕ
  pub ipc_dstva : ℕ
  pub ipc_perm : ℕ
  pub pgfault_handler : ℕ
  pub xstacktop : ℕ
  pub env_runs : ℕ

-- The variables of the kernel: memory, `envs`, `env_free_list`, `env_sched_list` with the static
-- variables of the scheduler, `curenv`, the static `next_env_id`, and the frame at `*TRAPSP`.
pub record Kernel : Type 0 where
  pub mem : Kmem
  pub envs : ℕ → Env
  pub free_list : List ℕ
  pub sched : Sched
  pub curenv : Option ℕ
  pub next_env_id : ℕ
  pub trap : Trapframe

abbrev pub log2nenv : ℕ
log2nenv = 10

abbrev pub nenv : ℕ
nenv = 2 ^ log2nenv

-- `ENVX`: the low bits of an identifier
abbrev pub envx : ℕ → ℕ
envx envid = envid % nenv

abbrev pub set_env : ℕ → Env → Kernel → Kernel
set_env e v k = record k { envs = update k.envs e v }

-- The loop of `env_init`, from `NENV - 1` down to 0.
unfoldable pub init_envs : ℕ → (ℕ → Env) → List ℕ → (ℕ → Env) × List ℕ
init_envs zero envs free = (envs, free)
init_envs (suc i) envs free =
    let old = envs i in init_envs i (update envs i (record old { status = env_free })) (i ∷ free)

unfoldable pub env_init : Kernel → Kernel
env_init k =
    let (envs, free) = init_envs nenv k.envs [] in
    record k {
      envs = envs;
      free_list = free;
      sched = record { q0 = []; q1 = []; point = k.sched.point; count = k.sched.count };
    }

-- `(++next_env_id << (1 + LOG2NENV)) | idx`, a u32; the index fits below the shift.
unfoldable pub mkenvid : ℕ → Kernel → ℕ × Kernel
mkenvid e k =
    let next = (k.next_env_id + 1) % 2 ^ 32 in
    (next * 2 ^ (1 + log2nenv) % 2 ^ 32 + e, record k { next_env_id = next })

-- `e != curenv && e->parent_id != curenv->id`; the kernel calls it with a current environment.
unfoldable pub is_foreign : Kernel → ℕ → Bool
is_foreign k e = elim k.curenv [
  | none ↦ true
  | some c ↦ not (e == c) && not ((k.envs e).parent_id == (k.envs c).id)
]

-- `envid2env`: what goes to `*penv`. The null pointer is `none`: the return value is then -1, but
-- for envid 0, where `curenv` is the answer and the return value always 0.
unfoldable pub envid2env : ℕ → Bool → Kernel → Option ℕ
unfolding is_foreign
envid2env envid checkperm k =
    let e = envx envid in
    if envid == 0
    then k.curenv
    else if ((k.envs e).status == env_free) || not ((k.envs e).id == envid)
    then none
    else if checkperm && is_foreign k e
    then none
    else some e

abbrev pub uvpt : ℕ
uvpt = 0x4000000000

abbrev pub ustacktop : ℕ
ustacktop = 0x3f000000 - 4096

-- `PTE_RW | PTE_USER | PTE_LIBRARY`
abbrev pub boot_perm : ℕ
boot_perm = pte_user + 2 ^ 55

-- `for (i = 0; i < PTE2PT; i++) pgdir[i] = 0`
unfoldable pub clear_table : ℕ → ℕ → (ℕ → ℕ) → ℕ → ℕ
clear_table zero addr cell = cell
clear_table (suc n) addr cell = clear_table n (addr + 8) (update cell addr 0)

-- Mapping the pages of the boot image, `n` of them left; the result of `page_insert` is dropped.
unfoldable pub map_image : ℕ → ℕ → ℕ → Kmem → Kmem
map_image zero i pgdir s = s
map_image (suc n) i pgdir s =
    map_image n (i + 1) pgdir (page_insert pgdir i (i * 2 ^ 12) boot_perm s).1

-- `env_setup_vm`: the new page directory; `none` is the panic. `image` is `init_end / 4096`, which
-- the linker sets.
unfoldable pub env_setup_vm : ℕ → Kmem → Option (ℕ × Kmem)
unfolding clear_table map_image
env_setup_vm image s = elim (page_alloc s) [
  | none ↦ none
  | some (p, t) ↦
      let u = add_ref p t in
      let pgdir = page2kva p in
      let table = clear_table 512 pgdir u.cell in
      let self = bit_or (u.pages p).pa pte_user in
      some (
        pgdir,
        map_image image 0 pgdir
            (record u { cell = update table (pgdir + 8 * level_index 1 uvpt) self }),
      )
]

-- How `env_alloc` ends: with -1, in the panic of `env_setup_vm`, or with a new environment.
pub data NewEnv : Type 0 where
  no_free_env : NewEnv
  no_page : NewEnv
  made : ℕ → Kernel → NewEnv

-- The fields that `env_alloc` sets, with the page directory that `env_setup_vm` has made.
unfoldable pub fill_env : ℕ → ℕ → ℕ → ℕ → Env → Env
fill_env id parent pgdir status v = record v {
  tf = record (v.tf) { spsr_el1 = 0x340; sp_el0 = ustacktop };
  id = id;
  parent_id = parent % 2 ^ 32;
  status = status;
  pgdir = pgdir;
  pgdir_pa = pgdir - kernbase;
}

-- The environment `e` taken off the free list, with its directory `pgdir` and its identifier.
unfoldable pub place_env : ℕ → List ℕ → ℕ → ℕ → Kmem → Kernel → Kernel
unfolding fill_env mkenvid
place_env e free pgdir parent s k =
    let (id, t) = mkenvid e (record k { free_list = free; mem = s }) in
    set_env e (fill_env id parent pgdir env_runnable (t.envs e)) t

unfoldable pub alloc_first : ℕ → ℕ → List ℕ → Kernel → NewEnv
alloc_first image parent [] k = no_free_env
alloc_first image parent (e ∷ free) k = elim (env_setup_vm image k.mem) [
  | none ↦ no_page
  | some (pgdir, s) ↦ made e (place_env e free pgdir parent s k)
]

unfoldable pub env_alloc : ℕ → ℕ → Kernel → NewEnv
env_alloc image parent k = alloc_first image parent k.free_list k

-- The three loops of `env_free`; `n` rounds are left.
unfoldable pub free_pages : ℕ → ℕ → ℕ → ℕ → ℕ → ℕ → Kmem → Kmem
free_pages zero pgdir pt2 i j m s = s
free_pages (suc n) pgdir pt2 i j m s = free_pages n pgdir pt2 i j (m + 1) (
    if is_valid (s.cell (pt2 + 8 * m))
    then page_remove pgdir (i * 2 ^ 30 + j * 2 ^ 21 + m * 2 ^ 12) s
    else s)

-- `pt1[j] = 0; page_decref(pa2page(pa2))`
unfoldable pub clear_entry : ℕ → ℕ → Kmem → Kmem
clear_entry addr pa s = page_decref (pa2page pa) (record s { cell = update s.cell addr 0 })

unfoldable pub free_middle : ℕ → ℕ → ℕ → ℕ → ℕ → Kmem → Kmem
free_middle zero pgdir pt1 i j s = s
free_middle (suc n) pgdir pt1 i j s =
    let pa2 = pte_addr (s.cell (pt1 + 8 * j)) in
    free_middle n pgdir pt1 i (j + 1) (
      if is_valid (s.cell (pt1 + 8 * j))
      then clear_entry (pt1 + 8 * j) pa2 (free_pages 512 pgdir (kaddr pa2) i j 0 s)
      else s)

unfoldable pub free_tables : ℕ → ℕ → ℕ → Kmem → Kmem
free_tables zero pgdir i s = s
free_tables (suc n) pgdir i s =
    let pa1 = pte_addr (s.cell (pgdir + 8 * i)) in
    free_tables n pgdir (i + 1) (
      if is_valid (s.cell (pgdir + 8 * i))
      then clear_entry (pgdir + 8 * i) pa1 (free_middle 512 pgdir (kaddr pa1) i 0 s)
      else s)

-- `env_free`; the environment stays in the run queue that it may stand in.
unfoldable pub free_env : ℕ → Kernel → Kernel
free_env e k =
    let v = k.envs e in
    let self = v.pgdir + 8 * level_index 1 uvpt in
    let s = free_tables 512 v.pgdir 0 (record (k.mem) { cell = update k.mem.cell self 0 }) in
    let t = page_decref (pa2page v.pgdir_pa) s in
    record k {
      mem = t;
      envs = update k.envs e (record v { pgdir = 0; pgdir_pa = 0; status = env_free });
      free_list = e ∷ k.free_list;
    }
