-- ===== src/Print/User.antt =====
-- The copy of lib/print.c and lib/printf.c that the user programs link (user/writef.c). It is the
-- same code under other names.
use raspberry3_mos.Base.{ℕ, Bool, List}
use raspberry3_mos.Print.{print_num, print_char, print_string}
use raspberry3_mos.Print.Format.{Arg, Printout, lp_print}
use raspberry3_mos.Print.Format.Console.{myoutput, printf}

abbrev pub user_print_num : (ℕ → ℕ) → ℕ → ℕ → Bool → ℕ → Bool → ℕ → Bool → ℕ × (ℕ → ℕ)
user_print_num = print_num

abbrev pub user_print_char : (ℕ → ℕ) → ℕ → ℕ → Bool → ℕ × (ℕ → ℕ)
user_print_char = print_char

abbrev pub user_print_string : (ℕ → ℕ) → List ℕ → ℕ → Bool → ℕ × (ℕ → ℕ)
user_print_string = print_string

abbrev pub user_lp_print : ℕ → (ℕ → ℕ) → List ℕ → List Arg → Printout
user_lp_print = lp_print

abbrev pub user_myoutput : List ℕ → List ℕ
user_myoutput = myoutput

abbrev pub writef : (ℕ → ℕ) → List ℕ → List Arg → List ℕ
writef = printf
