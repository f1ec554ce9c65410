-- ===== src/User.antt =====
-- What a user program sees of the machine (user/syscall_lib.c): the address spaces of the
-- environments that it names, the bytes in the pages, and the system calls that change them. A page is
-- a frame; the environment 0 is the caller.
pub mod Run
pub mod Calls
pub mod Bytes
use raspberry3_mos.Base.{
  ℕ, suc, ◌+◌, ◌-◌, ◌*◌, ◌/◌, ◌%◌, ◌^◌, bit_and, bit_or, Bool, true, false, ◌&&◌, ◌==◌, not,
  if◌then◌else◌, Option, none, some,
}
use raspberry3_mos.Pmap.{update}
use raspberry3_mos.Fs.{e_unspecified}
use raspberry3_mos.Fd.{Pte}

-- `entry e p` is the entry of the environment `e` for the page number `p`. `answer n` is the kernel's
-- answer to the request `n` for memory: a frame, or none. `known` are the environments that the
-- caller may name.
pub record Machine : Type 0 where
  pub entry : ℕ → ℕ → Option Pte
  pub bytes : ℕ → ℕ → ℕ
  pub answer : ℕ → Option ℕ
  pub requests : ℕ
  pub known : ℕ → Bool
  pub handlers : ℕ → Option (ℕ × ℕ)
  pub runnable : ℕ → Bool
  pub pgfault_set : Bool

-- How a function ends: with a result, with the negative of an error, or in `user_panic`.
pub data Result (A : Type 0) : Type 0 where
  gives : A → Machine → Result A
  refuses : ℕ → Machine → Result A
  panics : Result A

abbrev pub M : Type 0 → Type 0
M A = Machine → Result A

abbrev pub pure : {A : Type 0} → A → M A
pure a m = gives a m

infixl 5 ◌>>=◌ ◌>>◌
abbrev pub ◌>>=◌ : {A B : Type 0} → M A → (A → M B) → M B
◌>>=◌ m f s = elim (m s) [ gives a t ↦ f a t | refuses e t ↦ refuses e t | panics ↦ panics ]

abbrev pub ◌>>◌ : {A B : Type 0} → M A → M B → M B
m >> k = m >>= λ _. k

-- `if (call < 0) user_panic(...)`
abbrev pub or_panic : {A : Type 0} → M A → M A
or_panic m s = elim (m s) [ gives a t ↦ gives a t | refuses e t ↦ panics | panics ↦ panics ]

abbrev pub pte_ro : ℕ
pte_ro = 2 ^ 7

abbrev pub pte_library : ℕ
pte_library = 2 ^ 55

-- `VALID | PTE_RW | PTE_USER`
abbrev pub user_perm : ℕ
user_perm = 1 + 2 ^ 6

-- `perm & bit`, for a bit
abbrev pub has_bit : ℕ → ℕ → Bool
has_bit perm bit = not (bit_and perm bit == 0)

abbrev pub set_entry : ℕ → ℕ → Option Pte → Machine → Machine
set_entry env p e m = record m { entry = update m.entry env (update (m.entry env) p e) }

-- The answer to the next request
abbrev pub asked : Machine → Machine
asked m = record m { requests = m.requests + 1 }

-- `syscall_mem_alloc`: a page of zeros
unfoldable pub mem_alloc : ℕ → ℕ → ℕ → M (Unit {0})
mem_alloc env va perm m =
    if m.known env
    then elim (m.answer m.requests) [
      | none ↦ refuses e_unspecified (asked m)
      | some f ↦
          let t = asked m in
          gives tt (
            set_entry env (va / 4096) (some (record { frame = f; perm = perm }))
              (record t { bytes = update m.bytes f (λ o. 0) }))
    ]
    else refuses e_unspecified m

-- `syscall_mem_map`
unfoldable pub mem_map : ℕ → ℕ → ℕ → ℕ → ℕ → M (Unit {0})
mem_map src srcva dst dstva perm m =
    if m.known src && m.known dst
    then elim (m.entry src (srcva / 4096)) [
      | none ↦ refuses e_unspecified m
      | some p ↦ elim (m.answer m.requests) [
        | none ↦ refuses e_unspecified (asked m)
        | some f ↦ gives tt (
            set_entry dst (dstva / 4096) (some (record { frame = p.frame; perm = perm })) (asked m))
      ]
    ]
    else refuses e_unspecified m

-- `syscall_mem_unmap`; the kernel reports no error for an environment that it knows.
unfoldable pub mem_unmap : ℕ → ℕ → M (Unit {0})
mem_unmap env va m =
    if m.known env then gives tt (set_entry env (va / 4096) none m) else refuses e_unspecified m

-- `syscall_set_pgfault_handler`
unfoldable pub set_handler : ℕ → ℕ → ℕ → M (Unit {0})
set_handler env fn top m =
    if m.known env
    then gives tt (record m { handlers = update m.handlers env (some (fn, top)) })
    else refuses e_unspecified m

-- `syscall_set_env_status(env, ENV_RUNNABLE)`
unfoldable pub set_runnable : ℕ → M (Unit {0})
set_runnable env m =
    if m.known env
    then gives tt (record m { runnable = update m.runnable env true })
    else refuses e_unspecified m
