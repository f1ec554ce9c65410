-- ===== src/Spawn/Tests.antt =====
-- The stack of a program with two arguments, and a segment of a program
use raspberry3_mos.Base.{ℕ, ◌+◌, ◌-◌, ◌≡◌, refl, true, none, some, List, [], ◌∷◌, arith}
use raspberry3_mos.Base.{◌≤◌, ◌<◌, ◌⊎◌, inr}
use raspberry3_mos.Spawn.Load.{Program, usr_load_elf}
use raspberry3_mos.Spawn.View.{Alone, view}
use raspberry3_mos.Spawn.Loaded.{Grants}
use raspberry3_mos.Spawn.Segment.{usr_load_elf_lem}
use raspberry3_mos.User.{Machine, gives}
use raspberry3_mos.Spawn.{text_size, in_child, args_at, init_stack}
use raspberry3_mos.Spawn.Stack.{Fits, StackGiven, init_stack_lem}

-- `ls -l`
abbrev two_args : List (List ℕ)
two_args = (108 ∷ 115 ∷ []) ∷ (45 ∷ 108 ∷ []) ∷ []

two_args-Fits : Fits two_args
unfolding text_size
two_args-Fits = omega arith

abbrev empty_spaces : Machine
empty_spaces = record {
  entry = λ e p. none;
  bytes = λ f o. f;
  answer = λ n. some (50 + n);
  requests = 0;
  known = λ e. true;
  handlers = λ e. none;
  runnable = λ e. true;
  pgfault_set = true;
}

init_stack_lem_example :
    (t : Machine) × (init_stack 3 two_args empty_spaces
      ≡ gives (some (in_child (args_at two_args - 16))) t)
    × StackGiven 3 50 two_args empty_spaces t
init_stack_lem_example =
    init_stack_lem 3 50 51 two_args empty_spaces two_args-Fits (omega arith) refl refl refl refl

-- A segment of 9000 bytes, 5000 of them in the file, that begins within a page
abbrev segment : Program
segment = record { vaddr = 5000; memsz = 9000; filesz = 5000; offset = 64 }

abbrev frames : ℕ → ℕ
frames n = 50 + n

abbrev reads_bytes : ℕ → ℕ → ℕ ⊎ (ℕ → ℕ)
reads_bytes o n = inr (λ j. o + j)

abbrev bytes_of_file : ℕ → ℕ
bytes_of_file a = a

empty_spaces-Alone : Alone frames 3 empty_spaces
empty_spaces-Alone = record {
  answers = λ n. refl;
  caller = refl;
  known = refl;
  fresh = λ n q p later h. absurd cc;
  apart = λ q r p s h k e. absurd cc;
}

segment-Grants : Grants frames 3 reads_bytes bytes_of_file
segment-Grants = record { reads = λ o n. refl; differ = λ i j h. omega arith; other = omega arith }

usr_load_elf_lem_example :
    (t : Machine) × (usr_load_elf reads_bytes 3 segment empty_spaces ≡ gives tt t)
    × ((k : ℕ) → k < 5000 → view frames 3 t (5000 + k) ≡ some (64 + k))
    × ((k : ℕ) → 5000 ≤ k → k < 9000 → view frames 3 t (5000 + k) ≡ some 0)
usr_load_elf_lem_example =
    usr_load_elf_lem frames 3 reads_bytes bytes_of_file segment empty_spaces segment-Grants
      empty_spaces-Alone (omega arith) (omega arith) (omega arith) (omega arith) (omega arith)
