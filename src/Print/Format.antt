-- ===== src/Print/Format.antt =====
-- `lp_Print` (lib/print.c). The format and the strings among the arguments are the characters before
-- the terminating 0.
pub mod Ends
pub mod Console
use raspberry3_mos.Base.{
  ℕ, zero, suc, ◌+◌, ◌-◌, ◌*◌, ◌/◌, ◌%◌, ◌^◌, Bool, true, false, ◌&&◌, ◌||◌, ltb, leb, ◌==◌, not,
  if◌then◌else◌, List, [], ◌∷◌, Option, none, some,
}
use raspberry3_mos.Print.{zero_digit, print_num, print_char, print_string}

abbrev pub lp_max_buf : ℕ
lp_max_buf = 100

-- A variable argument: a register, or a string that it points to.
pub data Arg : Type 0 where
  number : ℕ → Arg
  string : List ℕ → Arg

-- The calls of `output` in their order, and how they end: with the return, in the loop behind the
-- message of a fatal error, at an argument that is missing or of another type, or without fuel.
pub data Printout : Type 0 where
  output : List ℕ → Printout → Printout
  done : Printout
  fatal_error : Printout
  bad_argument : Printout
  out_of_fuel : Printout

-- The first `n` characters of a buffer, from `i` on.
unfoldable pub text : ℕ → ℕ → (ℕ → ℕ) → List ℕ
text zero i buf = []
text (suc n) i buf = buf i ∷ text n (i + 1) buf

-- `OUTPUT(arg, buf, length)`
unfoldable pub output_buf : ℕ × (ℕ → ℕ) → Printout → Printout
unfolding text
output_buf (len, buf) rest =
    if ltb lp_max_buf len then fatal_error else output (text len 0 buf) rest

abbrev pub is_digit : ℕ → Bool
is_digit c = leb 48 c && leb c 57

-- The loops that read a width.
unfoldable pub parse_width : ℕ → List ℕ → ℕ × List ℕ
parse_width width [] = (width, [])
parse_width width (c ∷ fmt) =
    let rest = parse_width (width * 2 ^ 3 + width * 2 + c - 48) fmt in
    if is_digit c then rest else (width, c ∷ fmt)

-- `-` or `0` with a width behind it.
unfoldable pub parse_flag : List ℕ → Bool × (ℕ × List ℕ)
parse_flag [] = (false, (0, []))
parse_flag (c ∷ fmt) =
    if (c == 45) || (c == 48) then (c == 45, parse_width 0 fmt) else (false, (0, c ∷ fmt))

-- `.` with digits behind it, which go on with the width.
unfoldable pub parse_prec : ℕ × List ℕ → ℕ × List ℕ
parse_prec (width, []) = (width, [])
parse_prec (width, c ∷ fmt) = if c == 46 then parse_width width fmt else (width, c ∷ fmt)

unfoldable pub parse_long : List ℕ → Bool × List ℕ
parse_long [] = (false, [])
parse_long (c ∷ fmt) = if c == 108 then (true, fmt) else (false, c ∷ fmt)

-- What stands between `%` and the conversion.
pub record Spec : Type 0 where
  pub ladjust : Bool
  pub width : ℕ
  pub long_flag : Bool

-- `num`, as the bits of a long: an int is extended with its sign.
unfoldable pub arg_num : Bool → ℕ → ℕ
arg_num true v = v % 2 ^ 64
arg_num false v = if ltb (v % 2 ^ 32) (2 ^ 31) then v % 2 ^ 32 else 2 ^ 64 - 2 ^ 32 + v % 2 ^ 32

-- The conversions of numbers: the base, whether it is signed, and the case of the digits.
unfoldable pub num_format : ℕ → Option (ℕ × Bool × Bool)
num_format c =
    if c == 98
    then some (2, false, false)
    else if (c == 100) || (c == 68)
    then some (10, true, false)
    else if (c == 111) || (c == 79)
    then some (8, false, false)
    else if (c == 117) || (c == 85)
    then some (10, false, false)
    else if c == 120
    then some (16, false, false)
    else if c == 88
    then some (16, false, true)
    else none

-- A number printed by `PrintNum`, with `-num` where it is signed and negative.
unfoldable pub print_arg : (ℕ → ℕ) → ℕ → Bool → Bool → Spec → ℕ → ℕ × (ℕ → ℕ)
print_arg buf base signed upcase sp v =
    let num = arg_num sp.long_flag v in
    if signed && leb (2 ^ 63) num
    then print_num buf (2 ^ 64 - num) base true sp.width sp.ladjust zero_digit upcase
    else print_num buf num base false sp.width sp.ladjust zero_digit upcase

-- `__builtin_va_arg` for a number and for a string
unfoldable pub take_number : List Arg → (ℕ → List Arg → Printout) → Printout
take_number [] f = bad_argument
take_number (number v ∷ args) f = f v args
take_number (string s ∷ args) f = bad_argument

unfoldable pub take_string : List Arg → (List ℕ → List Arg → Printout) → Printout
take_string [] f = bad_argument
take_string (number v ∷ args) f = bad_argument
take_string (string s ∷ args) f = f s args

-- The cases of the `switch` that print no number; `go` is the rest of the loop.
unfoldable pub convert_other : (ℕ → ℕ) → ℕ → Spec → List Arg → (List Arg → Printout) → Printout
convert_other buf c sp args go =
    if c == 99
    then take_number args
        (λ v rest. output_buf (print_char buf (v % 2 ^ 8) sp.width sp.ladjust) (go rest))
    else if c == 115
    then take_string args (λ s rest. output_buf (print_string buf s sp.width sp.ladjust) (go rest))
    else output (c ∷ []) (go args)

-- The `switch`.
unfoldable pub convert : (ℕ → ℕ) → ℕ → Spec → List Arg → (List Arg → Printout) → Printout
convert buf c sp args go = elim (num_format c) [
  | some (base, signed, upcase) ↦
      take_number args (λ v rest. output_buf (print_arg buf base signed upcase sp v) (go rest))
  | none ↦ convert_other buf c sp args go
]

-- The format behind a `%`: the specification and what follows it.
unfoldable pub parse_spec : List ℕ → Spec × List ℕ
parse_spec fmt =
    let (ladjust, after_flag) = parse_flag fmt in
    let (width, after_width) = parse_prec after_flag in
    let (long_flag, rest) = parse_long after_width in
    (record { ladjust = ladjust; width = width; long_flag = long_flag }, rest)

-- The loop of `lp_Print`, with the buffer's contents at the start of each conversion, which it writes
-- over.
unfoldable pub lp_print : ℕ → (ℕ → ℕ) → List ℕ → List Arg → Printout
lp_print zero buf fmt args = out_of_fuel
lp_print (suc n) buf [] args = output (0 ∷ []) done
lp_print (suc n) buf (c ∷ fmt) args = elim (c == 37) [
  | false ↦ output (c ∷ []) (lp_print n buf fmt args)
  | true ↦ elim (parse_spec fmt).1 [
    | [] ↦ lp_print n buf [] args
    | d ∷ rest ↦ convert buf d (parse_spec fmt).0 args (λ left. lp_print n buf rest left)
  ]
]
