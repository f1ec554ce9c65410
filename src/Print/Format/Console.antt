-- ===== src/Print/Format/Console.antt =====
-- `myoutput` and `printf` (lib/printf.c): what reaches the console.
use raspberry3_mos.Base.{
  ℕ, suc, ◌≡◌, refl, ◌∙◌, ap, inl, inr, Bool, true, false, ◌&&◌, ◌==◌, not, if◌then◌else◌, List, [],
  ◌∷◌, ◌++◌, length, Bool-cases, arith,
}
use raspberry3_mos.Print.Format.{
  Arg, Printout, output, done, fatal_error, bad_argument, out_of_fuel, lp_print,
}

-- "fatal error in lp_Print!"
abbrev pub the_fatal_msg : List ℕ
the_fatal_msg =
    102 ∷ 97 ∷ 116 ∷ 97 ∷ 108 ∷ 32 ∷ 101 ∷ 114 ∷ 114 ∷ 111 ∷ 114 ∷ 32 ∷ 105 ∷ 110 ∷ 32 ∷ 108 ∷ 112
    ∷ 95 ∷ 80 ∷ 114 ∷ 105 ∷ 110 ∷ 116 ∷ 33 ∷ []

-- The loop of `myoutput`
unfoldable pub add_returns : List ℕ → List ℕ
add_returns [] = []
add_returns (c ∷ s) = let rest = add_returns s in if c == 10 then 13 ∷ 10 ∷ rest else c ∷ rest

-- `(l==1) && (s[0] == '\0')`
unfoldable pub is_nul : List ℕ → Bool
is_nul [] = false
is_nul (c ∷ []) = c == 0
is_nul (c ∷ d ∷ s) = false

unfoldable pub myoutput : List ℕ → List ℕ
unfolding add_returns is_nul
myoutput s = if is_nul s then [] else add_returns s

-- The characters that the calls of `output` put on the console.
unfoldable pub console : Printout → List ℕ
console (output s rest) = myoutput s ++ console rest
console done = []
console fatal_error = myoutput the_fatal_msg
console bad_argument = []
console out_of_fuel = []

unfoldable pub printf : (ℕ → ℕ) → List ℕ → List Arg → List ℕ
printf buf fmt args = console (lp_print (suc (length fmt)) buf fmt args)

-- A text without `%`
abbrev pub is_literal : List ℕ → Bool
is_literal [] = true
is_literal (c ∷ s) = (not (c == 37) && not (c == 0)) && is_literal s

myoutput-char :
    (c : ℕ) (rest : List ℕ)
    → (c == 0) ≡ false
    → myoutput (c ∷ []) ++ rest ≡ (if c == 10 then 13 ∷ 10 ∷ rest else c ∷ rest)
unfolding myoutput is_nul add_returns
myoutput-char c rest h = elim (Bool-cases (c == 10)) [
  | inl line ↦ rw (h, line) refl
  | inr plain ↦ rw (h, plain) refl
]

printf-char :
    (buf : ℕ → ℕ) (c : ℕ) (fmt : List ℕ) (args : List Arg)
    → (c == 37) ≡ false
    → printf buf (c ∷ fmt) args ≡ myoutput (c ∷ []) ++ printf buf fmt args
unfolding printf lp_print console
printf-char buf c fmt args plain = rw (console, plain) refl

add_returns-char :
    (c : ℕ) (s rest : List ℕ)
    → (if c == 10 then 13 ∷ 10 ∷ (add_returns s ++ rest) else c ∷ (add_returns s ++ rest))
      ≡ add_returns (c ∷ s) ++ rest
unfolding add_returns
add_returns-char c s rest = elim (Bool-cases (c == 10)) [
  | inl line ↦ rw line refl
  | inr plain ↦ rw plain refl
]

-- The part of a format before its first `%` reaches the console as it is, with a carriage return
-- before each line feed, and the rest is printed as a format of its own with the same arguments; the
-- format is a C string, so no character is 0.
pub printf-literal :
    (buf : ℕ → ℕ) (s fmt : List ℕ) (args : List Arg)
    → is_literal s ≡ true
    → printf buf (s ++ fmt) args ≡ add_returns s ++ printf buf fmt args
unfolding add_returns
printf-literal buf [] fmt args h = refl
printf-literal buf (c ∷ s) fmt args h =
    let plain : (c == 37) ≡ false = ground arith in
    let nonzero : (c == 0) ≡ false = ground arith in
    let rest = printf-literal buf s fmt args (ground arith) in
    printf-char buf c (s ++ fmt) args plain
    ∙ myoutput-char c (printf buf (s ++ fmt) args) nonzero
    ∙ ap (λ r. if c == 10 then 13 ∷ 10 ∷ r else c ∷ r) rest
    ∙ add_returns-char c s (printf buf fmt args)
