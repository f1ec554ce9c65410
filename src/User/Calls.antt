-- ===== src/User/Calls.antt =====
-- The system calls of User.antt where the kernel grants them.
use raspberry3_mos.Base.{
  ℕ, ◌/◌, ◌≡◌, refl, inl, inr, true, ◌==◌, if◌then◌else◌, Option, none, some, Bool-cases,
}
use raspberry3_mos.Pmap.{update}
use raspberry3_mos.Fd.{Pte}
use raspberry3_mos.User.{
  Machine, gives, set_entry, asked, mem_alloc, mem_map, mem_unmap, set_handler, set_runnable,
}

pub set_entry-at :
    (env p : ℕ) (e : Option Pte) (m : Machine) (d q : ℕ)
    → (set_entry env p e m).entry d q
      ≡ (if d == env then (if q == p then e else m.entry env q) else m.entry d q)
set_entry-at env p e m d q = elim (Bool-cases (d == env)) [
  | inl same ↦ rw same refl
  | inr other ↦ rw other refl
]

pub mem_alloc-step :
    (env va perm f : ℕ) (m : Machine)
    → m.known env ≡ true
    → m.answer m.requests ≡ some f
    → mem_alloc env va perm m
      ≡ gives tt (
          set_entry env
            (va / 4096)
            (some (record { frame = f; perm = perm }))
            (let t = asked m in record t { bytes = update m.bytes f (λ o. 0) }))
unfolding mem_alloc
mem_alloc-step env va perm f m known yields = rw (mem_alloc, known) (rw yields refl)

pub mem_map-step :
    (src srcva dst dstva perm f : ℕ) (e : Pte) (m : Machine)
    → m.known src ≡ true
    → m.known dst ≡ true
    → m.entry src (srcva / 4096) ≡ some e
    → m.answer m.requests ≡ some f
    → mem_map src srcva dst dstva perm m
      ≡ gives tt
          (set_entry dst (dstva / 4096) (some (record { frame = e.frame; perm = perm })) (asked m))
unfolding mem_map
mem_map-step src srcva dst dstva perm f e m s d h a = rw (mem_map, s) (rw d (rw h (rw a refl)))

pub mem_unmap-step :
    (env va : ℕ) (m : Machine)
    → m.known env ≡ true
    → mem_unmap env va m ≡ gives tt (set_entry env (va / 4096) none m)
unfolding mem_unmap
mem_unmap-step env va m known = rw (mem_unmap, known) refl

pub set_handler-step :
    (env fn top : ℕ) (m : Machine)
    → m.known env ≡ true
    → set_handler env fn top m
      ≡ gives tt (record m { handlers = update m.handlers env (some (fn, top)) })
unfolding set_handler
set_handler-step env fn top m known = rw (set_handler, known) refl

pub set_runnable-step :
    (env : ℕ) (m : Machine)
    → m.known env ≡ true
    → set_runnable env m ≡ gives tt (record m { runnable = update m.runnable env true })
unfolding set_runnable
set_runnable-step env m known = rw (set_runnable, known) refl
