-- ===== src/Base/Bits.antt =====
-- Bits of machine words: a bit by its index, and the laws of `bit_and` and `bit_or` at variables.
use Prim.Native.Nat.{
  ℕ, zero, suc, ◌+◌, ◌-◌, ◌*◌, ◌/◌, ◌%◌, ◌^◌, ◌≤◌, ◌<◌, min, max, bit_and, bit_or, digits,
  bit_and-bitwise, bit_or-bitwise,
}
use mathlib.Core.Path.{◌≡◌, refl, sym, ◌∙◌, ap}
use mathlib.Core.Bool.{Bool, false, ◌&&◌, ◌||◌}
use native.Mathlib.Omega.{arith}
use native.Mathlib.Nat.{
  pow-suc, div-div-eq-div-mul, div-add-mod, mod-lt, mod-eq_of_lt, add-mul-mod_self_right,
}
use raspberry3_mos.Base.Tests.{◌==◌, not, if◌then◌else◌}

-- `digits` recurs on fuel; any two amounts that cover the left number agree.
module _ (z : ℕ → ℕ) (f : ℕ → ℕ → ℕ) where
  digits-enough : (b x m n : ℕ) → x ≤ n → x ≤ m → digits z f m x b ≡ digits z f n x b
  digits-enough b zero zero zero u v = refl
  digits-enough b zero zero (suc n) u v = refl
  digits-enough b zero (suc m) zero u v = refl
  digits-enough b zero (suc m) (suc n) u v = refl
  digits-enough b (suc x) zero n u v = absurd (omega arith)
  digits-enough b (suc x) (suc m) zero u v = absurd (omega arith)
  digits-enough b (suc x) (suc m) (suc n) u v =
      rw (digits-enough (b / 2) (suc x / 2) m n (omega arith) (omega arith))

-- The lowest digit of a conjunction, and the rest.
pub bit_and_step : (a b : ℕ) → bit_and a b ≡ bit_and (a / 2) (b / 2) * 2 + min (a % 2) (b % 2)
bit_and_step zero b = omega (arith, bit_and-bitwise 0 b, bit_and-bitwise 0 (b / 2))
bit_and_step (suc a) b = omega (
  arith,
  bit_and-bitwise (suc a) b,
  bit_and-bitwise (suc a / 2) (b / 2),
  digits-enough (λ y. 0) min (b / 2) (suc a / 2) a (suc a / 2) (omega arith) (omega arith),
)

-- The lowest digit of a disjunction, and the rest.
pub bit_or_step : (a b : ℕ) → bit_or a b ≡ bit_or (a / 2) (b / 2) * 2 + max (a % 2) (b % 2)
bit_or_step zero b = omega (arith, bit_or-bitwise 0 b, bit_or-bitwise 0 (b / 2))
bit_or_step (suc a) b = omega (
  arith,
  bit_or-bitwise (suc a) b,
  bit_or-bitwise (suc a / 2) (b / 2),
  digits-enough (λ y. y) max (b / 2) (suc a / 2) a (suc a / 2) (omega arith) (omega arith),
)

and_zero-below : (bound w : ℕ) → w < bound → bit_and w 0 ≡ 0
and_zero-below zero w h = absurd (omega arith)
and_zero-below (suc bound) zero h = refl
and_zero-below (suc bound) (suc w) h =
    omega (arith, bit_and_step (suc w) 0, and_zero-below bound (suc w / 2) (omega arith))

pub bit_and-zero : (w : ℕ) → bit_and w 0 ≡ 0
bit_and-zero w = and_zero-below (suc w) w (omega arith)

-- Bit `j` of `w`.
unfoldable pub testbit : ℕ → ℕ → Bool
testbit w zero = w % 2 == 1
testbit w (suc j) = testbit (w / 2) j

pub testbit-bit_and : (a b k : ℕ) → testbit (bit_and a b) k ≡ (testbit a k && testbit b k)
unfolding testbit
testbit-bit_and a b zero = ground (arith, bit_and_step a b)
testbit-bit_and a b (suc k) =
    let half : bit_and a b / 2 ≡ bit_and (a / 2) (b / 2) = omega (arith, bit_and_step a b) in
    rw half (testbit-bit_and (a / 2) (b / 2) k)

pub testbit-bit_or : (a b k : ℕ) → testbit (bit_or a b) k ≡ (testbit a k || testbit b k)
unfolding testbit
testbit-bit_or a b zero = ground (arith, bit_or_step a b)
testbit-bit_or a b (suc k) =
    let half : bit_or a b / 2 ≡ bit_or (a / 2) (b / 2) = omega (arith, bit_or_step a b) in
    rw half (testbit-bit_or (a / 2) (b / 2) k)

pub testbit-zero : (k : ℕ) → testbit 0 k ≡ false
unfolding testbit
testbit-zero zero = refl
testbit-zero (suc k) = testbit-zero k

pub testbit-pow : (j k : ℕ) → testbit (2 ^ j) k ≡ (j == k)
unfolding testbit
testbit-pow zero zero = refl
testbit-pow zero (suc k) = testbit-zero k ∙ ground arith
testbit-pow (suc j) zero = ground (arith, pow-suc 2 j)
testbit-pow (suc j) (suc k) =
    let half : 2 ^ suc j / 2 ≡ 2 ^ j = omega (arith, pow-suc 2 j) in
    rw half (testbit-pow j k ∙ ground arith)

-- The complement within `n` bits.
pub testbit-complement :
    (n w k : ℕ) → w < 2 ^ n → k < n → testbit (2 ^ n - 1 - w) k ≡ not (testbit w k)
unfolding testbit
testbit-complement zero w k h l = absurd (omega arith)
testbit-complement (suc n) w zero h l = ground (arith, pow-suc 2 n)
testbit-complement (suc n) w (suc k) h l =
    let half : (2 ^ suc n - 1 - w) / 2 ≡ 2 ^ n - 1 - w / 2 = omega (arith, pow-suc 2 n) in
    rw half (testbit-complement n (w / 2) k (omega (arith, pow-suc 2 n)) (omega arith))

-- `w & (1 << j)` is zero or the one bit.
pub bit_and-pow : (w j : ℕ) → bit_and w (2 ^ j) ≡ (if testbit w j then 2 ^ j else 0)
unfolding testbit
bit_and-pow w zero = ground (arith, bit_and_step w 1, bit_and-zero (w / 2))
bit_and-pow w (suc j) =
    ground (arith, bit_and_step w (2 ^ suc j), pow-suc 2 j, half, bit_and-pow (w / 2) j)
  where
    half : bit_and (w / 2) (2 ^ suc j / 2) ≡ bit_and (w / 2) (2 ^ j)
    half = ap (bit_and (w / 2)) (omega (arith, pow-suc 2 j))

pub pow-pos : (k : ℕ) → 0 < 2 ^ k
pow-pos zero = omega arith
pow-pos (suc k) = omega (arith, pow-suc 2 k, pow-pos k)

-- Binary digits of a remainder by an even number.
mod-double : (w n : ℕ) → 0 < n → w % (n * 2) ≡ (w / 2 % n) * 2 + w % 2
mod-double w n h =
    let q = w / 2 / n in
    let r = (w / 2 % n) * 2 + w % 2 in
    let split : w ≡ r + q * (n * 2) = grind (arith, div-add-mod (w / 2) n) in
    let small : r < n * 2 = omega (arith, mod-lt (w / 2) h) in
    ap (λ x. x % (n * 2)) split ∙ add-mul-mod_self_right r q (n * 2) ∙ mod-eq_of_lt small

-- `w & (2 ^ k - 1)` keeps the low `k` bits.
pub bit_and-ones : (k w : ℕ) → bit_and w (2 ^ k - 1) ≡ w % 2 ^ k
bit_and-ones zero w = omega (arith, bit_and-zero w)
bit_and-ones (suc k) w =
    let half : (2 ^ suc k - 1) / 2 ≡ 2 ^ k - 1 = omega (arith, pow-suc 2 k, pow-pos k) in
    omega (
      arith,
      bit_and_step w (2 ^ suc k - 1),
      ap (bit_and (w / 2)) half,
      bit_and-ones k (w / 2),
      ap (λ m. w % m) (pow-suc 2 k),
      mod-double w (2 ^ k) (pow-pos k),
      pow-suc 2 k,
      pow-pos k,
    )

-- A mask that starts at bit `k`.
pub bit_and-shifted : (k w m : ℕ) → bit_and w (m * 2 ^ k) ≡ bit_and (w / 2 ^ k) m * 2 ^ k
bit_and-shifted zero w m =
    let mask : m * 1 ≡ m = omega arith in
    let word : w / 1 ≡ w = omega arith in
    omega (arith, ap (bit_and w) mask, ap (λ n. bit_and n m) word)
bit_and-shifted (suc k) w m =
    let even : m * 2 ^ suc k ≡ (m * 2 ^ k) * 2 = grind (arith, pow-suc 2 k) in
    let half : m * 2 ^ suc k / 2 ≡ m * 2 ^ k = omega (arith, even) in
    let deep : w / 2 / 2 ^ k ≡ w / 2 ^ suc k =
      div-div-eq-div-mul w 2 (2 ^ k) ∙ ap (λ n. w / n) (omega (arith, pow-suc 2 k)) in
    let tail : bit_and w (m * 2 ^ suc k) ≡ bit_and (w / 2) (m * 2 ^ k) * 2 =
      omega (arith, bit_and_step w (m * 2 ^ suc k), ap (bit_and (w / 2)) half, even) in
    let inner : bit_and (w / 2) (m * 2 ^ k) ≡ bit_and (w / 2 ^ suc k) m * 2 ^ k =
      bit_and-shifted k (w / 2) m ∙ ap (λ n. bit_and n m * 2 ^ k) deep in
    let high = bit_and (w / 2 ^ suc k) m in
    omega (arith, tail, inner, ap (λ n. high * n) (pow-suc 2 k))

-- `x & 0x3ffff000`, the frame address in a page table entry.
pub bit_and-frame : (x : ℕ) → bit_and x 0x3ffff000 ≡ (x / 4096 % 0x40000) * 4096
bit_and-frame x = bit_and-shifted 12 x 0x3ffff ∙ ap (λ n. n * 4096) (bit_and-ones 18 (x / 4096))

pub bit_and-one : (x : ℕ) → bit_and x 1 ≡ x % 2
bit_and-one x = bit_and-ones 1 x

pub pow-lt : (j n : ℕ) → j < n → 2 ^ j < 2 ^ n
pow-lt j zero h = absurd (omega arith)
pow-lt zero (suc n) h = omega (arith, pow-suc 2 n, pow-pos n)
pow-lt (suc j) (suc n) h = omega (arith, pow-suc 2 n, pow-suc 2 j, pow-lt j n (omega arith))

or_zero-below : (bound w : ℕ) → w < bound → bit_or w 0 ≡ w
or_zero-below zero w h = absurd (omega arith)
or_zero-below (suc bound) zero h = refl
or_zero-below (suc bound) (suc w) h =
    omega (arith, bit_or_step (suc w) 0, or_zero-below bound (suc w / 2) (omega arith))

pub bit_or-zero : (w : ℕ) → bit_or w 0 ≡ w
bit_or-zero w = or_zero-below (suc w) w (omega arith)

-- Shifting and masking a disjunction.
pub bit_or-div : (k a b : ℕ) → bit_or a b / 2 ^ k ≡ bit_or (a / 2 ^ k) (b / 2 ^ k)
bit_or-div zero a b =
    let left : a / 1 ≡ a = omega arith in
    let right : b / 1 ≡ b = omega arith in
    let whole : bit_or a b / 1 ≡ bit_or a b = omega arith in rw (left, right) whole
bit_or-div (suc k) a b =
    let deep : (w : ℕ) → w / 2 ^ suc k ≡ w / 2 / 2 ^ k =
      λ w. ap (λ n. w / n) (omega (arith, pow-suc 2 k)) ∙ sym (div-div-eq-div-mul w 2 (2 ^ k)) in
    let half : bit_or a b / 2 ≡ bit_or (a / 2) (b / 2) = omega (arith, bit_or_step a b) in
    rw (deep (bit_or a b), deep a, deep b, half) (bit_or-div k (a / 2) (b / 2))

pub bit_or-mod : (k a b : ℕ) → b % 2 ^ k ≡ 0 → bit_or a b % 2 ^ k ≡ a % 2 ^ k
bit_or-mod zero a b h = omega arith
bit_or-mod (suc k) a b h =
    let split : (w : ℕ) → w % 2 ^ suc k ≡ (w / 2 % 2 ^ k) * 2 + w % 2 =
      λ w. ap (λ n. w % n) (pow-suc 2 k) ∙ mod-double w (2 ^ k) (pow-pos k) in
    let half : bit_or a b / 2 ≡ bit_or (a / 2) (b / 2) = omega (arith, bit_or_step a b) in
    omega (
      arith,
      bit_or_step a b,
      split (bit_or a b),
      split a,
      split b,
      ap (λ n. n % 2 ^ k) half,
      bit_or-mod k (a / 2) (b / 2) (omega (arith, split b)),
    )

-- Bit 0 of a disjunction with an odd number.
pub bit_or-odd : (a b : ℕ) → b % 2 ≡ 1 → bit_or a b % 2 ≡ 1
bit_or-odd a b h = omega (arith, bit_or_step a b)

pub testbit-mod : (n w k : ℕ) → k < n → testbit (w % 2 ^ n) k ≡ testbit w k
testbit-mod n w k h =
    ap (λ v. testbit v k) (sym (bit_and-ones n w))
    ∙ testbit-bit_and w (2 ^ n - 1) k
    ∙ ground (arith, testbit-complement n 0 k (pow-pos n) h, testbit-zero k)

-- The mask that has every bit but `j`
pub testbit-others : (n j k : ℕ) → j < n → k < n → testbit (2 ^ n - 1 - 2 ^ j) k ≡ not (j == k)
testbit-others n j k h l =
    testbit-complement n (2 ^ j) k (pow-lt j n h) l ∙ ap not (testbit-pow j k)
