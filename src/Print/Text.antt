-- ===== src/Print/Text.antt =====
-- `PrintString` and `PrintChar` (lib/print.c).
use raspberry3_mos.Base.{
  ℕ, ◌-◌, ◌<◌, ◌≡◌, refl, ap, Bool, true, false, ltb, if◌then◌else◌, List, length, arith,
}
use raspberry3_mos.Print.{fill, copy, space, print_string}
use raspberry3_mos.Print.Buffer.{fill_lem, copy_lem, char_at}
use raspberry3_mos.Print.Num.{full_width}

-- `PrintString` reports the width or the length of the string, if that is larger, and fills the
-- buffer up to it: with the string and spaces behind it where it is adjusted to the left, with
-- spaces and the string behind them otherwise. The position `i` is below that width.
pub print_string_lem :
    (buf : ℕ → ℕ) (s : List ℕ) (width : ℕ) (ladjust : Bool) (i : ℕ)
    → i < full_width width (length s)
    → ((print_string buf s width ladjust).0 ≡ full_width width (length s))
      × ((print_string buf s width ladjust).1 i ≡ (
          if ladjust
          then if ltb i (length s) then char_at s i else space
          else if ltb i (full_width width (length s) - length s)
          then space
          else char_at s (i - (full_width width (length s) - length s))))
unfolding print_string
print_string_lem buf s width true i h =
    let n = length s in
    let len = full_width width n in
    let filled = fill_lem (len - n) n space (copy s 0 buf) i in
    let copied = copy_lem s 0 buf i in
    let start : char_at s (i - 0) ≡ char_at s i = ap (char_at s) (omega arith) in
    (refl, ground (arith, filled, copied, start))
print_string_lem buf s width false i h =
    let n = length s in
    let len = full_width width n in
    let filled = fill_lem (len - n) 0 space buf i in
    let copied = copy_lem s (len - n) (fill (len - n) 0 space buf) i in
    (refl, ground (arith, filled, copied))
