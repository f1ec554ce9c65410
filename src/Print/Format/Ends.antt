-- ===== src/Print/Format/Ends.antt =====
-- The loop of `lp_Print` (lib/print.c) ends.
use raspberry3_mos.Base.{
  ℕ, zero, suc, ◌+◌, ◌-◌, ◌*◌, ◌^◌, ◌≤◌, ◌<◌, ◌≡◌, refl, inl, inr, Bool, true, false, ◌||◌, ltb,
  ◌==◌, List, [], ◌∷◌, length, Bool-cases, Option-cases, arith,
}
use raspberry3_mos.Print.Format.{
  Arg, number, string, Printout, output, done, fatal_error, bad_argument, out_of_fuel, output_buf,
  is_digit, lp_max_buf, parse_width, parse_flag, parse_prec, parse_long, Spec, take_number,
  take_string, convert_other, convert, parse_spec, lp_print, num_format,
}

-- The output comes to an end without running out of fuel.
abbrev pub completes : Printout → Bool
completes (output s rest) = completes rest
completes done = true
completes fatal_error = true
completes bad_argument = true
completes out_of_fuel = false

parse_width-shorter : (width : ℕ) (fmt : List ℕ) → length (parse_width width fmt).1 ≤ length fmt
unfolding parse_width
parse_width-shorter width [] = omega arith
parse_width-shorter width (c ∷ fmt) =
    let rest = parse_width-shorter (width * 2 ^ 3 + width * 2 + c - 48) fmt in
    elim (Bool-cases (is_digit c)) [
      | inl more ↦ rw more (omega (arith, rest))
      | inr last ↦ rw last (omega arith)
    ]

parse_flag-shorter : (fmt : List ℕ) → length (parse_flag fmt).1.1 ≤ length fmt
unfolding parse_flag
parse_flag-shorter [] = omega arith
parse_flag-shorter (c ∷ fmt) =
    let rest = parse_width-shorter 0 fmt in
    elim (Bool-cases ((c == 45) || (c == 48))) [
      | inl more ↦ rw more (omega (arith, rest))
      | inr last ↦ rw last (omega arith)
    ]

parse_prec-shorter : (width : ℕ) (fmt : List ℕ) → length (parse_prec (width, fmt)).1 ≤ length fmt
unfolding parse_prec
parse_prec-shorter width [] = omega arith
parse_prec-shorter width (c ∷ fmt) =
    let rest = parse_width-shorter width fmt in
    elim (Bool-cases (c == 46)) [
      | inl more ↦ rw more (omega (arith, rest))
      | inr last ↦ rw last (omega arith)
    ]

parse_long-shorter : (fmt : List ℕ) → length (parse_long fmt).1 ≤ length fmt
unfolding parse_long
parse_long-shorter [] = omega arith
parse_long-shorter (c ∷ fmt) = elim (Bool-cases (c == 108)) [
  | inl more ↦ rw more (omega arith)
  | inr last ↦ rw last (omega arith)
]

parse_spec-shorter : (fmt : List ℕ) → length (parse_spec fmt).1 ≤ length fmt
unfolding parse_spec
parse_spec-shorter fmt =
    let width = (parse_flag fmt).1.0 in
    let rest = (parse_flag fmt).1.1 in
    omega (
      arith,
      parse_flag-shorter fmt,
      parse_prec-shorter width rest,
      parse_long-shorter (parse_prec (width, rest)).1,
    )

output_buf-completes :
    (r : ℕ × (ℕ → ℕ)) (rest : Printout)
    → completes rest ≡ true
    → completes (output_buf r rest) ≡ true
unfolding output_buf
output_buf-completes (len, buf) rest h = elim (Bool-cases (ltb lp_max_buf len)) [
  | inl long ↦ rw long refl
  | inr short ↦ rw short h
]

take_number-completes :
    (args : List Arg) (f : ℕ → List Arg → Printout)
    → ((v : ℕ) (rest : List Arg) → completes (f v rest) ≡ true)
    → completes (take_number args f) ≡ true
unfolding take_number
take_number-completes [] f h = refl
take_number-completes (number v ∷ args) f h = h v args
take_number-completes (string s ∷ args) f h = refl

take_string-completes :
    (args : List Arg) (f : List ℕ → List Arg → Printout)
    → ((s : List ℕ) (rest : List Arg) → completes (f s rest) ≡ true)
    → completes (take_string args f) ≡ true
unfolding take_string
take_string-completes [] f h = refl
take_string-completes (number v ∷ args) f h = refl
take_string-completes (string s ∷ args) f h = h s args

convert_other-completes :
    (buf : ℕ → ℕ) (c : ℕ) (sp : Spec) (args : List Arg) (go : List Arg → Printout)
    → ((rest : List Arg) → completes (go rest) ≡ true)
    → completes (convert_other buf c sp args go) ≡ true
unfolding convert_other
convert_other-completes buf c sp args go h = elim (Bool-cases (c == 99)) [
  | inl char ↦
      rw (completes, char)
        (take_number-completes args _ (λ v rest. output_buf-completes _ (go rest) (h rest)))
  | inr not_char ↦ elim (Bool-cases (c == 115)) [
    | inl text ↦
        rw (completes, not_char, text)
          (take_string-completes args _ (λ s rest. output_buf-completes _ (go rest) (h rest)))
    | inr plain ↦ rw (completes, not_char, plain) (h args)
  ]
]

convert-completes :
    (buf : ℕ → ℕ) (c : ℕ) (sp : Spec) (args : List Arg) (go : List Arg → Printout)
    → ((rest : List Arg) → completes (go rest) ≡ true)
    → completes (convert buf c sp args go) ≡ true
unfolding convert
convert-completes buf c sp args go h = elim (Option-cases (num_format c)) [
  | inl other ↦ rw (completes, other) (convert_other-completes buf c sp args go h)
  | inr ((base, signed, upcase), num) ↦
      rw (completes, num)
        (take_number-completes args _ (λ v rest. output_buf-completes _ (go rest) (h rest)))
]

-- The loop of `lp_Print` ends: with one more round than the format has characters it returns, or
-- stops at a fatal error or a bad argument.
pub lp_print-completes :
    (n : ℕ) (buf : ℕ → ℕ) (fmt : List ℕ) (args : List Arg)
    → length fmt < n
    → completes (lp_print n buf fmt args) ≡ true
unfolding lp_print
lp_print-completes zero buf fmt args h = absurd (omega arith)
lp_print-completes (suc n) buf [] args h = refl
lp_print-completes (suc n) buf (c ∷ fmt) args h = elim (Bool-cases (c == 37)) [
  | inr plain ↦ rw (completes, plain) (lp_print-completes n buf fmt args (omega arith))
  | inl percent ↦
      let shorter = parse_spec-shorter fmt in
      let ends : (rest : List ℕ) (left : List Arg)
          → length rest ≤ length fmt
          → completes (lp_print n buf rest left) ≡ true =
        λ rest left l. lp_print-completes n buf rest left (omega (arith, l, h)) in
      rw (completes, percent) (behind (parse_spec fmt).1 (parse_spec fmt).0 shorter ends)
]
  where
    behind :
        (rest : List ℕ) (sp : Spec)
        → length rest ≤ length fmt
        → ((rest : List ℕ) (left : List Arg)
            → length rest ≤ length fmt
            → completes (lp_print n buf rest left) ≡ true)
        → completes (elim rest [
          | [] ↦ lp_print n buf [] args
          | d ∷ rest ↦ convert buf d sp args (λ left. lp_print n buf rest left)
        ])
          ≡ true
    behind [] sp l ends = ends [] args l
    behind (d ∷ rest) sp l ends =
        convert-completes buf d sp args (λ left. lp_print n buf rest left)
          (λ left. ends rest left (omega (arith, l)))
