-- ===== src/Print/Num.antt =====
-- `PrintNum` (lib/print.c) as a whole.
use native.Mathlib.Nat.{mod-lt}
use raspberry3_mos.Base.{
  ℕ, zero, suc, ◌+◌, ◌-◌, ◌%◌, ◌^◌, ◌≤◌, ◌<◌, ◌≡◌, ◌≢◌, refl, sym, subst, ◌∙◌, ap, ◌⊎◌, inl, inr,
  Bool, true, false, ◌&&◌, ltb, leb, ◌==◌, if◌then◌else◌, Bool-cases, arith,
}
use raspberry3_mos.Print.{
  digit, space, minus_sign, zero_digit, put_digits, add_sign, add_padding, reverse, finish_num,
  print_num,
}
use raspberry3_mos.Print.Buffer.{fill_lem, reverse_lem}
use raspberry3_mos.Print.Digits.{
  shifted, read_digits, read_digits-shifted, Written, put_digits-Written,
}

-- The width of a sign
abbrev pub sign : Bool → ℕ
sign false = 0
sign true = 1

-- The width that is reported.
abbrev pub full_width : ℕ → ℕ → ℕ
full_width width actual = if ltb width actual then actual else width

-- The end of the number in the text: the spaces of a number that is adjusted to the left follow it.
abbrev pub zone : Bool → ℕ → ℕ → ℕ
zone false width actual = full_width width actual
zone true width actual = actual

-- The buffer before it is reversed, with `n` digits, up to `len`.
padded :
    (neg ladjust : Bool) (n width : ℕ) (buf : ℕ → ℕ) (j : ℕ)
    → 1 ≤ n
    → (neg ≡ true → buf n ≡ minus_sign)
    → j < full_width width (n + sign neg)
    → add_padding neg ladjust
        (if ladjust then space else zero_digit)
        (n + sign neg)
        (full_width width (n + sign neg))
        buf
        j
      ≡ (if ltb j n
          then buf j
          else if neg && (j == zone ladjust width (n + sign neg) - 1)
          then minus_sign
          else if ltb j (zone ladjust width (n + sign neg))
          then zero_digit
          else space)
unfolding add_padding
padded false false n width buf j h s l =
    fill_lem (full_width width (n + 0) - (n + 0)) (n + 0) zero_digit buf j ∙ ground arith
padded false true n width buf j h s l =
    fill_lem (full_width width (n + 0) - (n + 0)) (n + 0) space buf j ∙ ground arith
padded true false n width buf j h s l =
    let len = full_width width (n + 1) in
    let filled = fill_lem (len - 1 - (n + 1 - 1)) (n + 1 - 1) zero_digit buf j in
    ground (arith, filled)
padded true true n width buf j h s l =
    let len = full_width width (n + 1) in
    let filled = fill_lem (len - (n + 1)) (n + 1) space buf j in
    let signed = s refl in
    elim (Bool-cases (j == n)) [
      | inl here ↦ let same : buf j ≡ buf n = ap buf (ground arith) in ground (arith, filled)
      | inr other ↦ ground (arith, filled)
    ]

-- The character at position `i` of the text of a number with `n` digits whose part without spaces
-- ends at `z`.
abbrev pub shown : Bool → ℕ → ℕ → Bool → ℕ → ℕ → ℕ → ℕ
shown upcase base u neg n z i =
    if leb z i
    then space
    else if neg && (i == 0)
    then minus_sign
    else if ltb i (z - n)
    then zero_digit
    else digit upcase (shifted base (z - 1 - i) u % base)

-- The text `r` of the number `u`.
pub record Printed (upcase : Bool) (base u : ℕ) (neg : Bool) (width : ℕ) (ladjust : Bool)
    (r : ℕ × (ℕ → ℕ)) : Type 0 where
  pub n : ℕ
  pub some_digit : 1 ≤ n
  pub whole : shifted base n u ≡ 0
  pub shortest : (n ≡ 1) ⊎ (shifted base (n - 1) u ≢ 0)
  pub width_of : r.0 ≡ full_width width (n + sign neg)
  pub chars :
      (i : ℕ) → i < r.0 → r.1 i ≡ shown upcase base u neg n (zone ladjust width (n + sign neg)) i

-- The digits and the sign, before the padding.
signed :
    (neg : Bool) (n : ℕ) (buf : ℕ → ℕ)
    → ((add_sign neg (n, buf)).0 ≡ n + sign neg)
      × ((j : ℕ) → j < n → (add_sign neg (n, buf)).1 j ≡ buf j)
      × (neg ≡ true → (add_sign neg (n, buf)).1 n ≡ minus_sign)
unfolding add_sign
signed false n buf = (omega arith, λ j l. refl, λ q. cc)
signed true n buf = (refl, λ j l. ground arith, λ q. ground arith)

-- The reversed buffer.
turned :
    (upcase : Bool) (base u : ℕ) (neg : Bool) (n z len : ℕ) (buf c : ℕ → ℕ)
    → 1 ≤ n
    → n + sign neg ≤ z
    → z ≤ len
    → ((j : ℕ) → j < n → buf j ≡ digit upcase (shifted base j u % base))
    → ((j : ℕ)
        → j < len
        → c j ≡ (
            if ltb j n
            then buf j
            else if neg && (j == z - 1)
            then minus_sign
            else if ltb j z
            then zero_digit
            else space))
    → (i : ℕ) → i < len
    → reverse len 0 (z - 1) c i ≡ shown upcase base u neg n z i
turned upcase base u neg n z len buf c h fits inside digits padding i l =
    let turn = reverse_lem len 0 (z - 1) c i (omega arith) in
    elim (Bool-cases (leb z i)) [
      | inl after ↦ let same = padding i l in ground (arith, turn, same)
      | inr before ↦
          let pos : c (0 + (z - 1) - i) ≡ c (z - 1 - i) = ap c (omega arith) in
          let same = padding (z - 1 - i) (ground arith) in
          by_sign neg (ground arith) fits (ground (arith, turn, pos)) same
    ]
  where
    by_sign :
        (neg : Bool)
        → i < z
        → n + sign neg ≤ z
        → reverse len 0 (z - 1) c i ≡ c (z - 1 - i)
        → c (z - 1 - i) ≡ (
            if ltb (z - 1 - i) n
            then buf (z - 1 - i)
            else if neg && ((z - 1 - i) == z - 1)
            then minus_sign
            else if ltb (z - 1 - i) z
            then zero_digit
            else space)
        → reverse len 0 (z - 1) c i ≡ shown upcase base u neg n z i
    by_sign false before fits turn same = elim (Bool-cases (ltb (z - 1 - i) n)) [
      | inl low ↦ let own = digits (z - 1 - i) (ground arith) in ground (arith, turn, same, own)
      | inr high ↦ ground (arith, turn, same)
    ]
    by_sign true before fits turn same = elim (Bool-cases (ltb (z - 1 - i) n)) [
      | inl low ↦ let own = digits (z - 1 - i) (ground arith) in ground (arith, turn, same, own)
      | inr high ↦ ground (arith, turn, same)
    ]

-- `PrintNum` behind the sign, on a buffer that holds the digits, lowest first, and the sign.
finish_num-chars :
    (upcase : Bool) (base u : ℕ) (neg : Bool) (width : ℕ) (ladjust : Bool) (n : ℕ) (buf : ℕ → ℕ)
    → 1 ≤ n
    → ((j : ℕ) → j < n → buf j ≡ digit upcase (shifted base j u % base))
    → (neg ≡ true → buf n ≡ minus_sign)
    → (i : ℕ) → i < full_width width (n + sign neg)
    → (finish_num neg ladjust zero_digit width (n + sign neg, buf)).1 i
      ≡ shown upcase base u neg n (zone ladjust width (n + sign neg)) i
unfolding finish_num
finish_num-chars upcase base u neg width ladjust n buf h digits minus i l =
    by_adjustment ladjust (λ j inside. padded neg ladjust n width buf j h minus inside)
  where
    by_adjustment :
        (ladjust : Bool)
        → ((j : ℕ)
            → j < full_width width (n + sign neg)
            → add_padding neg ladjust
                (if ladjust then space else zero_digit)
                (n + sign neg)
                (full_width width (n + sign neg))
                buf
                j
              ≡ (if ltb j n
                  then buf j
                  else if neg && (j == zone ladjust width (n + sign neg) - 1)
                  then minus_sign
                  else if ltb j (zone ladjust width (n + sign neg))
                  then zero_digit
                  else space))
        → (finish_num neg ladjust zero_digit width (n + sign neg, buf)).1 i
          ≡ shown upcase base u neg n (zone ladjust width (n + sign neg)) i
    by_adjustment false padding =
        turned upcase base u neg n (full_width width (n + sign neg))
          (full_width width (n + sign neg)) buf _ h (ground arith) (omega arith) digits padding i l
    by_adjustment true padding =
        turned upcase base u neg n (n + sign neg) (full_width width (n + sign neg)) buf _ h
          (omega arith) (ground arith) digits padding i l

signed_pair :
    (neg : Bool) (p n : ℕ) (buf : ℕ → ℕ)
    → p ≡ n
    → (n + sign neg, (add_sign neg (n, buf)).1) ≡ add_sign neg (p, buf)
unfolding add_sign
signed_pair false p n buf h = ap (λ k. (k, buf)) (omega arith)
signed_pair true p n buf h = ap (λ k. add_sign true (k, buf)) (sym h)

-- The digits with their sign and padding.
finish_num-Printed :
    (upcase : Bool) (base u : ℕ) (neg : Bool) (width : ℕ) (ladjust : Bool) (buf : ℕ → ℕ)
    → (p : ℕ) → (b : ℕ → ℕ) → Written upcase base u 0 buf (p, b)
    → Printed upcase base u neg width ladjust
        (finish_num neg ladjust zero_digit width (add_sign neg (p, b)))
unfolding finish_num
finish_num-Printed upcase base u neg width ladjust buf p b w =
    let n : ℕ = suc w.m in
    let (length_of, kept, minus) = signed neg n b in
    subst
      (λ (r : ℕ × (ℕ → ℕ)).
        Printed upcase base u neg width ladjust (finish_num neg ladjust zero_digit width r))
      (signed_pair neg p n b (w.next ∙ omega arith))
      record {
        n = n;
        some_digit = omega arith;
        whole = w.whole;
        shortest = at_least w.m w.shortest;
        width_of = refl;
        chars =
            finish_num-chars upcase base u neg width ladjust n (add_sign neg (n, b)).1 (omega arith)
              (λ j small. kept j small ∙ w.chars j ∙ from_start j small) minus;
      }
  where
    from_start :
        (j : ℕ)
        → j < suc w.m
        → (if leb 0 j && ltb j (0 + suc w.m)
            then digit upcase (shifted base (j - 0) u % base)
            else buf j)
          ≡ digit upcase (shifted base j u % base)
    from_start j small =
        let start : j - 0 ≡ j = omega arith in
        let same = ap (λ k. digit upcase (shifted base k u % base)) start in ground (arith, same)

    at_least :
        (m : ℕ) → (m ≡ 0) ⊎ (shifted base m u ≢ 0) → (suc m ≡ 1) ⊎ (shifted base (suc m - 1) u ≢ 0)
    at_least m (inl only) = inl (ap suc only)
    at_least m (inr high) =
        let same : m ≡ suc m - 1 = omega arith in
        inr (λ q. high (ap (λ k. shifted base k u) same ∙ q))

print_num-Printed :
    (buf : ℕ → ℕ) (u base : ℕ) (neg : Bool) (width : ℕ) (ladjust upcase : Bool)
    → 2 ≤ base
    → u < 2 ^ 64
    → Printed upcase base u neg width ladjust
        (print_num buf u base neg width ladjust zero_digit upcase)
unfolding print_num
print_num-Printed buf u base neg width ladjust upcase h l =
    let (p, b) = put_digits 64 upcase base u 0 buf in
    finish_num-Printed upcase base u neg width ladjust buf p b
      (put_digits-Written 63 upcase base u 0 buf h l)

-- The value of a digit's character
abbrev pub undigit : ℕ → ℕ
undigit c = if leb c 57 then c - 48 else if leb c 90 then c + 10 - 65 else c + 10 - 97

undigit-digit : (upcase : Bool) (d : ℕ) → d < 36 → undigit (digit upcase d) ≡ d
undigit-digit false d h = ground arith
undigit-digit true d h = ground arith

read_digits_cong :
    (base m : ℕ) (f g : ℕ → ℕ)
    → ((k : ℕ) → k < m → f k ≡ g k)
    → read_digits base m f ≡ read_digits base m g
read_digits_cong base zero f g h = refl
read_digits_cong base (suc m) f g h =
    let rest =
      read_digits_cong base m (λ k. f (suc k)) (λ k. g (suc k)) (λ k l. h (suc k) (omega arith)) in
    ground (arith, h 0 (omega arith), rest)

zone_bounds :
    (ladjust : Bool) (width actual : ℕ)
    → (actual ≤ zone ladjust width actual) × (zone ladjust width actual ≤ full_width width actual)
zone_bounds false width actual = (ground arith, ground arith)
zone_bounds true width actual = (ground arith, ground arith)

shown-digit :
    (upcase : Bool) (base u : ℕ) (neg : Bool) (n z k : ℕ)
    → n + sign neg ≤ z
    → k < n
    → shown upcase base u neg n z (z - 1 - k) ≡ digit upcase (shifted base k u % base)
shown-digit upcase base u neg n z k h l =
    let place : z - 1 - (z - 1 - k) ≡ k = omega arith in
    by_sign neg h (ap (λ j. digit upcase (shifted base j u % base)) place)
  where
    by_sign :
        (neg : Bool)
        → n + sign neg ≤ z
        → digit upcase (shifted base (z - 1 - (z - 1 - k)) u % base)
          ≡ digit upcase (shifted base k u % base)
        → shown upcase base u neg n z (z - 1 - k) ≡ digit upcase (shifted base k u % base)
    by_sign false h same = ground (arith, same)
    by_sign true h same = ground (arith, same)

-- The digits of a printed text, read from the right end of the number, give the number back.
Printed-read :
    (upcase : Bool) (base u : ℕ) (neg : Bool) (width : ℕ) (ladjust : Bool) (r : ℕ × (ℕ → ℕ))
    → 2 ≤ base
    → base ≤ 36
    → (p : Printed upcase base u neg width ladjust r)
    → read_digits base p.n (λ k. undigit (r.1 (zone ladjust width (p.n + sign neg) - 1 - k))) ≡ u
Printed-read upcase base u neg width ladjust r h l p =
    read_digits_cong base p.n _ (λ k. shifted base k u % base) each
    ∙ read_digits-shifted base p.n u p.whole
  where
    each :
        (k : ℕ)
        → k < p.n
        → undigit (r.1 (zone ladjust width (p.n + sign neg) - 1 - k)) ≡ shifted base k u % base
    each k small =
        let bounds = zone_bounds ladjust width (p.n + sign neg) in
        let z = zone ladjust width (p.n + sign neg) in
        let inside : z - 1 - k < r.0 = omega (arith, bounds.0, bounds.1, p.width_of, small) in
        let small_digit = mod-lt (shifted base k u) {m = base} (omega arith) in
        ap undigit
          (p.chars (z - 1 - k) inside ∙ shown-digit upcase base u neg p.n z k bounds.0 small)
        ∙ undigit-digit upcase (shifted base k u % base) (omega (arith, small_digit))

-- `PrintNum` of a number below 2 ^ 64 in a base from 2 to 36 with the padding "0" writes the digits
-- of the number without leading zeros and reports the width or the length of the text, if that is
-- larger: adjusted to the left, the sign and the digits come first and spaces follow; otherwise the
-- sign comes first and zeros stand between it and the digits. The digits read from the right end of
-- the number give the number back.
pub print_num_lem :
    (buf : ℕ → ℕ) (u base : ℕ) (neg : Bool) (width : ℕ) (ladjust upcase : Bool)
    → 2 ≤ base
    → base ≤ 36
    → u < 2 ^ 64
    → (p : Printed upcase base u neg width ladjust
        (print_num buf u base neg width ladjust zero_digit upcase))
      × (read_digits base p.n (λ k. undigit (
            (print_num buf u base neg width ladjust zero_digit upcase).1
              (zone ladjust width (p.n + sign neg) - 1 - k)))
          ≡ u)
print_num_lem buf u base neg width ladjust upcase h l small =
    let p = print_num-Printed buf u base neg width ladjust upcase h small in
    (p, Printed-read upcase base u neg width ladjust _ h l p)
