-- ===== src/Print.antt =====
-- Formatted output (lib/print.c). A buffer is a function from positions to characters, and a
-- function that fills one returns the length that it reports and the buffer.
pub mod Buffer
pub mod Digits
pub mod Num
pub mod Text
pub mod Format
pub mod User
mod Tests
use raspberry3_mos.Base.{
  ℕ, zero, suc, ◌+◌, ◌-◌, ◌*◌, ◌/◌, ◌%◌, Bool, true, false, ◌&&◌, ltb, leb, ◌==◌, not,
  if◌then◌else◌, List, [], ◌∷◌, length, Option, none, some,
}
use raspberry3_mos.Pmap.{update}

abbrev pub space : ℕ
space = 32

abbrev pub minus_sign : ℕ
minus_sign = 45

abbrev pub zero_digit : ℕ
zero_digit = 48

-- The character for the digit `tmp`.
abbrev pub digit : Bool → ℕ → ℕ
digit upcase tmp =
    if leb tmp 9 then zero_digit + tmp else if upcase then 65 + tmp - 10 else 97 + tmp - 10

-- The do-while loop of `PrintNum`: `p` is the position after the last digit.
unfoldable pub put_digits : ℕ → Bool → ℕ → ℕ → ℕ → (ℕ → ℕ) → ℕ × (ℕ → ℕ)
put_digits zero upcase base u p buf = (p, buf)
put_digits (suc n) upcase base u p buf =
    let next = update buf p (digit upcase (u % base)) in
    let rest = put_digits n upcase base (u / base) (p + 1) next in
    if u / base == 0 then (p + 1, next) else rest

-- `for (; i < length; i++) buf[i] = c`, with `n` rounds left.
unfoldable pub fill : ℕ → ℕ → ℕ → (ℕ → ℕ) → ℕ → ℕ
fill zero i c buf = buf
fill (suc n) i c buf = fill n (i + 1) c (update buf i c)

-- `if (negFlag) *p++ = '-'`
unfoldable pub add_sign : Bool → ℕ × (ℕ → ℕ) → ℕ × (ℕ → ℕ)
add_sign false (p, buf) = (p, buf)
add_sign true (p, buf) = (p + 1, update buf p minus_sign)

-- The padding of the reversed number of `actual` characters up to `len`.
unfoldable pub add_padding : Bool → Bool → ℕ → ℕ → ℕ → (ℕ → ℕ) → ℕ → ℕ
add_padding neg ladjust padc actual len buf =
    if neg && (not ladjust && (padc == zero_digit))
    then update (fill (len - 1 - (actual - 1)) (actual - 1) padc buf) (len - 1) minus_sign
    else fill (len - actual) actual padc buf

-- The loop that reverses the characters from `begin` to `end`.
unfoldable pub reverse : ℕ → ℕ → ℕ → (ℕ → ℕ) → ℕ → ℕ
reverse zero begin end buf = buf
reverse (suc n) begin end buf =
    if ltb begin end
    then reverse n (begin + 1) (end - 1) (update (update buf begin (buf end)) end (buf begin))
    else buf

-- `PrintNum` after the sign.
unfoldable pub finish_num : Bool → Bool → ℕ → ℕ → ℕ × (ℕ → ℕ) → ℕ × (ℕ → ℕ)
finish_num neg ladjust padc width (actual, buf) =
    let len = if ltb width actual then actual else width in
    let pad = if ladjust then space else padc in
    let end = if ladjust then actual - 1 else len - 1 in
    (len, reverse len 0 end (add_padding neg ladjust pad actual len buf))

-- `PrintNum`; a number below 2 ^ 64 has at most 64 digits.
unfoldable pub print_num : (ℕ → ℕ) → ℕ → ℕ → Bool → ℕ → Bool → ℕ → Bool → ℕ × (ℕ → ℕ)
print_num buf u base neg width ladjust padc upcase =
    finish_num neg ladjust padc width (add_sign neg (put_digits 64 upcase base u 0 buf))

-- `PrintChar`
unfoldable pub print_char : (ℕ → ℕ) → ℕ → ℕ → Bool → ℕ × (ℕ → ℕ)
print_char buf c width ladjust =
    let len = if ltb width 1 then 1 else width in
    (
      len,
      if ladjust
          then fill (len - 1) 1 space (update buf 0 c)
          else update (fill (len - 1) 0 space buf) (len - 1) c,
    )

-- The loop that copies the string `s` to the positions from `i` on.
unfoldable pub copy : List ℕ → ℕ → (ℕ → ℕ) → ℕ → ℕ
copy [] i buf = buf
copy (c ∷ s) i buf = copy s (i + 1) (update buf i c)

-- `PrintString`
unfoldable pub print_string : (ℕ → ℕ) → List ℕ → ℕ → Bool → ℕ × (ℕ → ℕ)
print_string buf s width ladjust =
    let n = length s in
    let len = if ltb width n then n else width in
    (
      len,
      if ladjust
          then fill (len - n) n space (copy s 0 buf)
          else copy s (len - n) (fill (len - n) 0 space buf),
    )
