-- ===== src/Pmap/Zero.antt =====
-- `bzero` (kernel/main.c) over a range of whole words.
use raspberry3_mos.Base.{
  ℕ, zero, suc, ◌+◌, ◌-◌, ◌*◌, ◌%◌, ◌≤◌, ◌≡◌, refl, ◌∙◌, Bool, true, false, ◌&&◌, ltb, leb, ◌==◌,
  if◌then◌else◌, arith,
}
use raspberry3_mos.Pmap.{clear_int, zero_ints, zero_chars, bzero}

-- The two stores that clear one word.
pub clear_word :
    (b : ℕ) (cell : ℕ → ℕ) (a : ℕ)
    → b % 8 ≡ 0
    → clear_int (b + 4) (clear_int b cell) a ≡ (if a == b then 0 else cell a)
unfolding clear_int
clear_word b cell a h =
    let low : b - b % 8 ≡ b = omega arith in
    let high : b + 4 - (b + 4) % 8 ≡ b = omega arith in
    let upper : ((b + 4) % 8 == 0) ≡ false = ground arith in
    let half : ((b + 4) % 8 == 4) ≡ true = ground arith in
    let lower : (b % 8 == 0) ≡ true = ground arith in
    rw (upper, half, lower, high, low) (ground arith)

abbrev pub within : ℕ → ℕ → ℕ → Bool
within a b max = leb b a && ltb a max

zero_ints-words :
    (n fuel b max : ℕ) (cell : ℕ → ℕ)
    → b % 8 ≡ 0
    → max ≡ b + 8 * n
    → 2 * n ≤ fuel
    → ((zero_ints fuel b max cell).0 ≡ max)
      × ((a : ℕ)
          → a % 8 ≡ 0
          → (zero_ints fuel b max cell).1 a ≡ (if within a b max then 0 else cell a))
unfolding zero_ints
zero_ints-words zero zero b max cell h e f = (omega arith, λ a g. ground arith)
zero_ints-words zero (suc fuel) b max cell h e f = (ground arith, λ a g. ground arith)
zero_ints-words (suc n) zero b max cell h e f = absurd (omega arith)
zero_ints-words (suc n) (suc zero) b max cell h e f = absurd (omega arith)
zero_ints-words (suc n) (suc (suc fuel)) b max cell h e f =
    let ih =
      zero_ints-words n fuel (b + 4 + 4) max (clear_int (b + 4) (clear_int b cell)) (omega arith)
        (omega arith) (omega arith) in
    let first : ltb (b + 3) max ≡ true = ground arith in
    let second : ltb (b + 4 + 3) max ≡ true = ground arith in
    rw (first, second) (ih.0, λ a g. ih.1 a g ∙ ground (arith, clear_word b cell a h))

zero_chars-done : (fuel b : ℕ) (cell : ℕ → ℕ) → zero_chars fuel b b cell ≡ cell
unfolding zero_chars
zero_chars-done zero b cell = refl
zero_chars-done (suc fuel) b cell = ground arith

-- On a range of whole words `bzero` clears each of them and no other.
pub bzero-words :
    (b n : ℕ) (cell : ℕ → ℕ) (a : ℕ)
    → b % 8 ≡ 0
    → a % 8 ≡ 0
    → bzero b (8 * n) cell a ≡ (if within a b (b + 8 * n) then 0 else cell a)
unfolding bzero
bzero-words b n cell a h g =
    let run = zero_ints-words n (8 * n) b (b + 8 * n) cell h refl (omega arith) in
    rw run.0 (rw zero_chars-done (run.1 a g))
