-- ===== src/Elf/Bytes.antt =====
-- The bytes of the words of kernel memory, and the store of one byte in `bcopy` and `bzero`
-- (kernel/main.c).
pub mod Copies
pub mod Zeros
use raspberry3_mos.Base.{
  ℕ, zero, suc, ◌+◌, ◌-◌, ◌*◌, ◌/◌, ◌%◌, ◌^◌, ◌<◌, ◌≡◌, refl, sym, ◌∙◌, ap, fun_ext, inl, inr,
  false, ◌==◌, if◌then◌else◌, Bool-cases, arith,
}
use raspberry3_mos.Pmap.{update, clear_char}
use raspberry3_mos.Elf.Pages.{byte_at, put_byte}

-- Byte `k` of the word `x`, and `x` with the byte `j` set to `v`: by shifts, and digit by digit
abbrev pub byte_of : ℕ → ℕ → ℕ
byte_of k x = x / 2 ^ (8 * k) % 256

abbrev with_byte : ℕ → ℕ → ℕ → ℕ
with_byte j v x = let lane = 2 ^ (8 * j) in x / (lane * 256) * (lane * 256) + v * lane + x % lane

digit : ℕ → ℕ → ℕ
digit zero x = x % 256
digit (suc k) x = digit k (x / 256)

with_digit : ℕ → ℕ → ℕ → ℕ
with_digit zero v x = x / 256 * 256 + v
with_digit (suc j) v x = with_digit j v (x / 256) * 256 + x % 256

digit-with_digit :
    (j k v x : ℕ) → v < 256 → digit k (with_digit j v x) ≡ (if k == j then v else digit k x)
unfolding digit with_digit
digit-with_digit zero zero v x small = omega arith
digit-with_digit zero (suc k) v x small =
    let rest : (x / 256 * 256 + v) / 256 ≡ x / 256 = omega arith in
    let other : (suc k == 0) ≡ false = ground arith in rw other (ap (digit k) rest)
digit-with_digit (suc j) zero v x small =
    let other : (0 == suc j) ≡ false = ground arith in rw other (omega arith)
digit-with_digit (suc j) (suc k) v x small =
    let rest : (with_digit j v (x / 256) * 256 + x % 256) / 256 ≡ with_digit j v (x / 256) =
      omega arith in
    let same : (suc k == suc j) ≡ (k == j) = ground arith in
    rw same (ap (digit k) rest ∙ digit-with_digit j k v (x / 256) small)

-- A statement about the eight bytes of a word
pub by_bytes :
    (P : ℕ → Type 0) → P 0 → P 1 → P 2 → P 3 → P 4 → P 5 → P 6 → P 7 → (k : ℕ) → k < 8 → P k
by_bytes P a b c d e f g h zero l = a
by_bytes P a b c d e f g h (suc zero) l = b
by_bytes P a b c d e f g h (suc (suc zero)) l = c
by_bytes P a b c d e f g h (suc (suc (suc zero))) l = d
by_bytes P a b c d e f g h (suc (suc (suc (suc zero)))) l = e
by_bytes P a b c d e f g h (suc (suc (suc (suc (suc zero))))) l = f
by_bytes P a b c d e f g h (suc (suc (suc (suc (suc (suc zero)))))) l = g
by_bytes P a b c d e f g h (suc (suc (suc (suc (suc (suc (suc zero))))))) l = h
by_bytes P a b c d e f g h (suc (suc (suc (suc (suc (suc (suc (suc k)))))))) l =
    absurd (omega arith)

byte_of-digit : (x k : ℕ) → k < 8 → byte_of k x ≡ digit k x
unfolding digit
byte_of-digit x =
    by_bytes (λ k. byte_of k x ≡ digit k x) (omega arith) (omega arith) (omega arith) (omega arith)
      (omega arith) (omega arith) (omega arith) (omega arith)

with_byte-digit : (v x j : ℕ) → j < 8 → with_byte j v x ≡ with_digit j v x
unfolding with_digit
with_byte-digit v x =
    by_bytes (λ j. with_byte j v x ≡ with_digit j v x) (omega arith) (omega arith) (omega arith)
      (omega arith) (omega arith) (omega arith) (omega arith) (omega arith)

byte_of-with_byte :
    (j k v x : ℕ)
    → j < 8
    → k < 8
    → v < 256
    → byte_of k (with_byte j v x) ≡ (if k == j then v else byte_of k x)
byte_of-with_byte j k v x low low' small =
    ap (byte_of k) (with_byte-digit v x j low)
    ∙ byte_of-digit (with_digit j v x) k low'
    ∙ digit-with_digit j k v x small
    ∙ ap (λ (n : ℕ). if k == j then v else n) (sym (byte_of-digit x k low'))

-- The bytes behind a store of a byte
byte_at-word :
    (a n : ℕ) (f : ℕ → ℕ) (cell : ℕ → ℕ) (b : ℕ)
    → byte_of (b % 8) n ≡ (if b % 8 == a % 8 then f b else byte_of (b % 8) (cell (a - a % 8)))
    → byte_at (update cell (a - a % 8) n) b ≡ (if b == a then f b else byte_at cell b)
byte_at-word a n f cell b h = elim (Bool-cases (b - b % 8 == a - a % 8)) [
  | inl same ↦
      let word : b - b % 8 ≡ a - a % 8 = ground arith in
      let lanes : (b % 8 == a % 8) ≡ (b == a) = ground arith in
      rw same
        (h ∙ rw lanes (ap (λ (w : ℕ). if b == a then f b else byte_of (b % 8) (cell w)) (sym word)))
  | inr other ↦ let apart : (b == a) ≡ false = ground arith in rw other (rw apart refl)
]

pub byte_at-put_byte :
    (a v : ℕ) (cell : ℕ → ℕ) (b : ℕ)
    → v < 256
    → byte_at (put_byte a v cell) b ≡ update (byte_at cell) a v b
unfolding put_byte
byte_at-put_byte a v cell b small =
    byte_at-word a (with_byte (a % 8) v (cell (a - a % 8))) (λ b. v) cell b
      (byte_of-with_byte (a % 8) (b % 8) v (cell (a - a % 8)) (omega arith) (omega arith) small)

pub put_byte-bytes :
    (a v : ℕ) (cell : ℕ → ℕ) → v < 256 → byte_at (put_byte a v cell) ≡ update (byte_at cell) a v
put_byte-bytes a v cell small = fun_ext (λ b. byte_at-put_byte a v cell b small)

pub byte_at-clear_char :
    (a : ℕ) (cell : ℕ → ℕ) (b : ℕ) → byte_at (clear_char a cell) b ≡ update (byte_at cell) a 0 b
unfolding clear_char
byte_at-clear_char a cell b =
    let x = cell (a - a % 8) in
    let lane = 2 ^ (8 * (a % 8)) in
    let same : x / (lane * 256) * (lane * 256) + x % lane ≡ with_byte (a % 8) 0 x = omega arith in
    byte_at-word a (x / (lane * 256) * (lane * 256) + x % lane) (λ b. 0) cell b
      (ap (byte_of (b % 8)) same
        ∙ byte_of-with_byte (a % 8) (b % 8) 0 x (omega arith) (omega arith) (omega arith))
