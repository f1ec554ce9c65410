-- ===== src/Print/Tests.antt =====
-- Numbers and strings printed into a buffer of spaces.
use raspberry3_mos.Base.{ℕ, ◌+◌, ◌-◌, ◌≡◌, refl, true, false, List, [], ◌∷◌, map, arith}
use raspberry3_mos.Print.{
  zero_digit, put_digits, fill, add_sign, add_padding, reverse, finish_num, print_num,
}
use raspberry3_mos.Print.Digits.{read_digits}
use raspberry3_mos.Print.Format.{
  number, parse_spec, parse_flag, parse_width, parse_prec, parse_long, num_format, convert,
  take_number, output_buf, text, print_arg, arg_num, lp_print,
}
use raspberry3_mos.Print.Format.Ends.{completes, lp_print-completes}
use raspberry3_mos.Print.Format.Console.{printf, console, myoutput, is_nul, add_returns}
use raspberry3_mos.Print.Num.{Printed, sign, zone, undigit, print_num_lem}

-- "-0001f"
negative :
    map (print_num (λ i. 32) 31 16 true 6 false 48 false).1 (0 ∷ 1 ∷ 2 ∷ 3 ∷ 4 ∷ 5 ∷ [])
    ≡ 45 ∷ 48 ∷ 48 ∷ 48 ∷ 49 ∷ 102 ∷ []
unfolding print_num put_digits add_sign add_padding fill reverse finish_num
negative = refl

print_num_lem_example :
    (p : Printed false 16 31 true 6 false (print_num (λ i. 32) 31 16 true 6 false zero_digit false))
    × (read_digits 16 p.n (λ k. undigit (
          (print_num (λ i. 32) 31 16 true 6 false zero_digit false).1
            (zone false 6 (p.n + sign true) - 1 - k)))
        ≡ 31)
print_num_lem_example =
    print_num_lem (λ i. 32) 31 16 true 6 false false (omega arith) (omega arith) (omega arith)

-- "n=%04d" and a line feed
abbrev fmt : List ℕ
fmt = 110 ∷ 61 ∷ 37 ∷ 48 ∷ 52 ∷ 100 ∷ 10 ∷ []

printf_runs : printf (λ i. 0) fmt (number 42 ∷ []) ≡ 110 ∷ 61 ∷ 48 ∷ 48 ∷ 52 ∷ 50 ∷ 13 ∷ 10 ∷ []
unfolding printf lp_print console myoutput is_nul add_returns parse_spec parse_flag parse_width
    parse_prec parse_long num_format convert take_number output_buf text print_arg arg_num print_num
    put_digits add_sign add_padding fill reverse finish_num
printf_runs = refl

lp_print-completes_example : completes (lp_print 8 (λ i. 0) fmt (number 42 ∷ [])) ≡ true
lp_print-completes_example = lp_print-completes 8 (λ i. 0) fmt (number 42 ∷ []) (omega arith)
