-- ===== src/Spawn/Spawned.antt =====
-- `spawn`, `spawn_valist` and `spawnl` (user/spawn.c). Opening and reading the program's file are
-- parameters, as in Spawn/Load: `header` is the `Ehdr` that is read, `program k` the `Phdr` number `k`, if
-- it can be read. Writing the name of the file, by `strcat` through a null pointer, is left out.
use raspberry3_mos.Base.{
  ℕ, zero, suc, ◌+◌, ◌*◌, ◌%◌, ◌^◌, ◌⊎◌, inl, inr, ◌==◌, not, if◌then◌else◌, none, some, List,
}
use raspberry3_mos.Elf.{pt_load}
use raspberry3_mos.Fork.{space_pages}
use raspberry3_mos.User.{
  gives, refuses, panics, M, pure, ◌>>=◌, ◌>>◌, or_panic, pte_library, user_perm, has_bit, mem_map,
  set_runnable,
}
use raspberry3_mos.Spawn.{init_stack}
use raspberry3_mos.Spawn.Load.{Program, usr_load_elf}

-- The fields of the `Ehdr` that are used
pub record Header : Type 0 where
  pub phentsize : ℕ
  pub phoff : ℕ
  pub phnum : ℕ

-- `VALID | PTE_RW | PTE_USER | PTE_LIBRARY`
abbrev pub library_perm : ℕ
library_perm = user_perm + pte_library

abbrev pub text_entry : ℕ
text_entry = 0x00a00000

-- A round of the three loops over the pages, and the loops
unfoldable pub share_entry : ℕ → ℕ → M (Unit {0})
share_entry child p m = elim (m.entry 0 p) [
  | none ↦ gives tt m
  | some e ↦
      if not (has_bit e.perm pte_library)
      then gives tt m
      else mem_map 0 (p * 4096) child (p * 4096) library_perm m
]

unfoldable pub share_pages : ℕ → ℕ → ℕ → M (Unit {0})
share_pages zero child p = pure tt
share_pages (suc n) child p = share_entry child p >> share_pages n child (p + 1)

-- `esp` behind `init_stack`, whose result is dropped: `unset` where it is not set
unfoldable pub stack_or : ℕ → ℕ → List (List ℕ) → M ℕ
stack_or unset child argv m = elim (init_stack child argv m) [
  | gives esp t ↦ gives (elim esp [ none ↦ unset | some a ↦ a ]) t
  | refuses e t ↦ gives unset t
  | panics ↦ panics
]

-- What the child starts with: its id, and what goes to `elr_el1` and `sp_el0` of its frame
pub record Child : Type 0 where
  pub id : ℕ
  pub elr_el1 : ℕ
  pub sp_el0 : ℕ

module _ (read : ℕ → ℕ → ℕ ⊎ (ℕ → ℕ)) (program : ℕ → ℕ ⊎ (ℕ × Program)) where
  -- The loop over the program headers, from the one at `text_start` on: its type and its fields
  unfoldable pub load_programs : ℕ → ℕ → Header → ℕ → M (Unit {0})
  load_programs zero child h text_start m = gives tt m
  load_programs (suc n) child h text_start m =
      let rest = load_programs n child h ((text_start + h.phentsize) % 2 ^ 64) in
      elim (program text_start) [
        | inl e ↦ refuses e m
        | inr (kind, ph) ↦
            if kind == pt_load then (usr_load_elf read child ph >> rest) m else rest m
      ]

  -- `spawn` behind the reading of the header, where `child` is what `syscall_env_alloc` returns
  unfoldable pub spawn : ℕ → Header → ℕ → List (List ℕ) → M Child
  spawn unset h child argv = do
    esp ← stack_or unset child argv
    load_programs h.phnum child h h.phoff
    share_pages space_pages child 0
    set_runnable child
    pure (record { id = child; elr_el1 = text_entry; sp_el0 = esp })

  -- `spawn_valist`: the same steps, where an error is a panic
  unfoldable pub spawn_valist : ℕ → Header → ℕ → List (List ℕ) → M Child
  spawn_valist unset h child argv = do
    esp ← stack_or unset child argv
    or_panic (load_programs h.phnum child h h.phoff)
    or_panic (share_pages space_pages child 0)
    or_panic (set_runnable child)
    pure (record { id = child; elr_el1 = text_entry; sp_el0 = esp })
