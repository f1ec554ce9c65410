-- ===== src/Print/Digits.antt =====
-- The digits that `PrintNum` (lib/print.c) writes, lowest first.
use native.Mathlib.Nat.{div-add-mod, div-lt_iff_lt-mul, mul-le-mul_left}
use raspberry3_mos.Base.{
  ℕ, zero, suc, ◌+◌, ◌-◌, ◌*◌, ◌/◌, ◌%◌, ◌^◌, ◌≤◌, ◌<◌, ◌≡◌, ◌≢◌, refl, sym, ◌∙◌, ap, ◌⊎◌, inl, inr,
  Bool, true, false, ◌&&◌, ltb, leb, ◌==◌, if◌then◌else◌, Bool-cases, arith,
}
use raspberry3_mos.Print.{digit, put_digits}
use raspberry3_mos.Pmap.{update}

-- `u` without its lowest `k` digits.
abbrev pub shifted : ℕ → ℕ → ℕ → ℕ
shifted base zero u = u
shifted base (suc k) u = shifted base k (u / base)

-- The number with the `m` digits `f`, lowest first.
abbrev pub read_digits : ℕ → ℕ → (ℕ → ℕ) → ℕ
read_digits base zero f = 0
read_digits base (suc m) f = f 0 + base * read_digits base m (λ k. f (suc k))

pub read_digits-shifted :
    (base m u : ℕ) → shifted base m u ≡ 0 → read_digits base m (λ k. shifted base k u % base) ≡ u
read_digits-shifted base zero u h = sym h
read_digits-shifted base (suc m) u h =
    ap (λ d. u % base + base * d) (read_digits-shifted base m (u / base) h)
    ∙ omega (arith, div-add-mod u base)

-- What the loop leaves: `suc m` digits of `u` from `p` on, the highest of which is not 0 unless it is
-- the only one, with the rest of the buffer as it was.
pub record Written (upcase : Bool) (base u p : ℕ) (buf : ℕ → ℕ) (r : ℕ × (ℕ → ℕ)) : Type 0 where
  pub m : ℕ
  pub next : r.0 ≡ p + suc m
  pub whole : shifted base (suc m) u ≡ 0
  pub shortest : (m ≡ 0) ⊎ (shifted base m u ≢ 0)
  pub chars :
      (j : ℕ)
      → r.1 j ≡ (
          if leb p j && ltb j (p + suc m)
          then digit upcase (shifted base (j - p) u % base)
          else buf j)

halved : (base u w : ℕ) → 2 ≤ base → u < w * 2 → u / base < w
halved base u w h l =
    (div-lt_iff_lt-mul {k = base} {x = u} {y = w} (omega arith)).1
      (omega (arith, mul-le-mul_left w h))

-- A round before those that write the higher digits.
next-Written :
    (upcase : Bool) (base u p : ℕ) (buf : ℕ → ℕ) (r : ℕ × (ℕ → ℕ))
    → (u / base == 0) ≡ false
    → Written upcase base (u / base) (p + 1) (update buf p (digit upcase (u % base))) r
    → Written upcase base u p buf r
next-Written upcase base u p buf r more rest = record {
  m = suc rest.m;
  next = omega (arith, rest.next);
  whole = rest.whole;
  shortest = inr (by_length rest.m rest.shortest);
  chars = λ j. rest.chars j ∙ elim (Bool-cases (leb (p + 1) j && ltb j (p + 1 + suc rest.m))) [
    | inl inside ↦
        let low : j - p ≡ suc (j - (p + 1)) = ground arith in
        let same = ap (λ k. digit upcase (shifted base k u % base)) low in ground (arith, same)
    | inr other ↦ elim (Bool-cases (j == p)) [
      | inl here ↦
          let low : j - p ≡ 0 = ground arith in
          let same = ap (λ k. digit upcase (shifted base k u % base)) low in ground (arith, same)
      | inr outer ↦ ground arith
    ]
  ];
}
  where
    by_length : (m : ℕ) → (m ≡ 0) ⊎ (shifted base m (u / base) ≢ 0) → shifted base m (u / base) ≢ 0
    by_length m (inl only) q =
        let top : u / base ≡ 0 = ap (λ k. shifted base k (u / base)) (sym only) ∙ q in ground arith
    by_length m (inr high) q = high q

last-Written :
    (upcase : Bool) (base u p : ℕ) (buf : ℕ → ℕ)
    → u / base ≡ 0
    → Written upcase base u p buf (p + 1, update buf p (digit upcase (u % base)))
last-Written upcase base u p buf last = record {
  m = 0;
  next = refl;
  whole = last;
  shortest = inl refl;
  chars = λ j. elim (Bool-cases (j == p)) [
    | inl here ↦
        let low : j - p ≡ 0 = ground arith in
        let same = ap (λ k. digit upcase (shifted base k u % base)) low in ground (arith, same)
    | inr other ↦ ground arith
  ];
}

pub put_digits-Written :
    (n : ℕ) (upcase : Bool) (base u p : ℕ) (buf : ℕ → ℕ)
    → 2 ≤ base
    → u < 2 ^ suc n
    → Written upcase base u p buf (put_digits (suc n) upcase base u p buf)
unfolding put_digits
put_digits-Written zero upcase base u p buf h l =
    let low : u / base ≡ 0 = omega (arith, halved base u 1 h l) in
    let last : (u / base == 0) ≡ true = ground arith in
    rw last (last-Written upcase base u p buf low)
put_digits-Written (suc n) upcase base u p buf h l =
    let next = update buf p (digit upcase (u % base)) in
    let rest =
      put_digits-Written n upcase base (u / base) (p + 1) next h
        (halved base u (2 ^ suc n) h (omega arith)) in
    elim (Bool-cases (u / base == 0)) [
      | inl last ↦ rw last (last-Written upcase base u p buf (ground arith))
      | inr more ↦ rw more (next-Written upcase base u p buf _ more rest)
    ]
