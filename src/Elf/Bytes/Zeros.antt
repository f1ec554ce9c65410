-- ===== src/Elf/Bytes/Zeros.antt =====
-- The bytes that `bzero` (kernel/main.c) leaves.
use raspberry3_mos.Base.{
  ℕ, zero, suc, ◌+◌, ◌-◌, ◌*◌, ◌/◌, ◌%◌, ◌^◌, ◌≤◌, ◌<◌, ◌≡◌, refl, sym, ◌∙◌, ap, inl, inr, false,
  ltb, ◌==◌, if◌then◌else◌, Bool-cases, arith,
}
use raspberry3_mos.Pmap.{update, clear_int, clear_char, zero_ints, zero_chars, bzero}
use raspberry3_mos.Pmap.Zero.{within}
use raspberry3_mos.Elf.Pages.{byte_at}
use raspberry3_mos.Elf.Bytes.{byte_of, by_bytes, byte_at-clear_char}

-- `bzero` over the bytes
low_half :
    (x k : ℕ) → k < 8 → byte_of k (x / 2 ^ 32 * 2 ^ 32) ≡ (if ltb k 4 then 0 else byte_of k x)
low_half x =
    by_bytes (λ k. byte_of k (x / 2 ^ 32 * 2 ^ 32) ≡ (if ltb k 4 then 0 else byte_of k x))
      (omega arith) (omega arith) (omega arith) (omega arith) (omega arith) (omega arith)
      (omega arith) (omega arith)

high_half : (x k : ℕ) → k < 8 → byte_of k (x % 2 ^ 32) ≡ (if ltb k 4 then byte_of k x else 0)
high_half x =
    by_bytes (λ k. byte_of k (x % 2 ^ 32) ≡ (if ltb k 4 then byte_of k x else 0)) (omega arith)
      (omega arith) (omega arith) (omega arith) (omega arith) (omega arith) (omega arith)
      (omega arith)

clear_chars :
    (b : ℕ) (cell : ℕ → ℕ) (a : ℕ)
    → byte_at (clear_char (b + 3) (clear_char (b + 2) (clear_char (b + 1) (clear_char b cell)))) a
      ≡ (if within a b (b + 4) then 0 else byte_at cell a)
clear_chars b cell a =
    let c0 = clear_char b cell in
    let c1 = clear_char (b + 1) c0 in
    let c2 = clear_char (b + 2) c1 in
    byte_at-clear_char (b + 3) c2 a
    ∙ ap (λ (n : ℕ). if a == b + 3 then 0 else n) (byte_at-clear_char (b + 2) c1 a)
    ∙ ap (λ (n : ℕ). if a == b + 3 then 0 else if a == b + 2 then 0 else n)
        (byte_at-clear_char (b + 1) c0 a)
    ∙ ap
        (λ (n : ℕ). if a == b + 3 then 0 else if a == b + 2 then 0 else if a == b + 1 then 0 else n)
        (byte_at-clear_char b cell a)
    ∙ ground arith

-- Half of a word, cleared as one
clear_half :
    (b n : ℕ) (cell : ℕ → ℕ) (a : ℕ)
    → b % 4 ≡ 0
    → byte_of (a % 8) n
      ≡ (if within (a % 8) (b % 8) (b % 8 + 4) then 0 else byte_of (a % 8) (cell (b - b % 8)))
    → byte_at (update cell (b - b % 8) n) a ≡ (if within a b (b + 4) then 0 else byte_at cell a)
clear_half b n cell a h e = elim (Bool-cases (a - a % 8 == b - b % 8)) [
  | inl same ↦
      let word : a - a % 8 ≡ b - b % 8 = ground arith in
      let lanes : within (a % 8) (b % 8) (b % 8 + 4) ≡ within a b (b + 4) = ground arith in
      rw same (
        e
        ∙ rw lanes
            (ap (λ (w : ℕ). if within a b (b + 4) then 0 else byte_of (a % 8) (cell w)) (sym word)))
  | inr other ↦ let apart : within a b (b + 4) ≡ false = ground arith in rw other (rw apart refl)
]

byte_at-clear_int :
    (b : ℕ) (cell : ℕ → ℕ) (a : ℕ)
    → byte_at (clear_int b cell) a ≡ (if within a b (b + 4) then 0 else byte_at cell a)
unfolding clear_int
byte_at-clear_int b cell a =
    let x = cell (b - b % 8) in
    let k = a % 8 in
    elim (Bool-cases (b % 8 == 0)) [
      | inl first ↦
          let lane : b % 8 ≡ 0 = ground arith in
          let part : within k (b % 8) (b % 8 + 4) ≡ ltb k 4 = ground arith in
          rw first (
            clear_half b (x / 2 ^ 32 * 2 ^ 32) cell a (omega arith)
              (rw part (low_half x k (omega arith))))
      | inr not_first ↦ elim (Bool-cases (b % 8 == 4)) [
        | inl second ↦
            let lane : b % 8 ≡ 4 = ground arith in
            let part : (if within k (b % 8) (b % 8 + 4) then 0 else byte_of k x)
                ≡ (if ltb k 4 then byte_of k x else 0) =
              ground arith in
            rw not_first (
              rw second (
                clear_half b (x % 2 ^ 32) cell a (omega arith)
                  (high_half x k (omega arith) ∙ sym part)))
        | inr odd ↦ rw not_first (rw odd (clear_chars b cell a))
      ]
    ]

zero_ints-bytes :
    (fuel b max : ℕ) (cell : ℕ → ℕ) (a : ℕ)
    → (b ≤ (zero_ints fuel b max cell).0)
      × (max ≤ b → (zero_ints fuel b max cell).0 ≡ b)
      × (b ≤ max → (zero_ints fuel b max cell).0 ≤ max)
      × (byte_at (zero_ints fuel b max cell).1 a
          ≡ (if within a b (zero_ints fuel b max cell).0 then 0 else byte_at cell a))
unfolding zero_ints
zero_ints-bytes zero b max cell a =
    let out : within a b b ≡ false = ground arith in
    (omega arith, (λ h. refl), (λ h. h), rw out refl)
zero_ints-bytes (suc fuel) b max cell a = elim (Bool-cases (ltb (b + 3) max)) [
  | inr stop ↦
      let out : within a b b ≡ false = ground arith in
      rw stop (omega arith, (λ h. refl), (λ h. h), rw out refl)
  | inl more ↦
      let ih = zero_ints-bytes fuel (b + 4) max (clear_int b cell) a in
      let low = ih.0 in
      let one = byte_at-clear_int b cell a in
      let last = (zero_ints fuel (b + 4) max (clear_int b cell)).0 in
      rw more (
        omega arith,
        (λ h. absurd (ground arith)),
        (λ h. ih.2 (ground arith)),
        ih.3 ∙ ground (arith, one),
      )
]

zero_chars-bytes :
    (fuel b max : ℕ) (cell : ℕ → ℕ) (a : ℕ)
    → max ≤ b + fuel
    → byte_at (zero_chars fuel b max cell) a ≡ (if within a b max then 0 else byte_at cell a)
unfolding zero_chars
zero_chars-bytes zero b max cell a enough =
    let out : within a b max ≡ false = ground arith in rw out refl
zero_chars-bytes (suc fuel) b max cell a enough = elim (Bool-cases (ltb b max)) [
  | inr stop ↦ let out : within a b max ≡ false = ground arith in rw stop (rw out refl)
  | inl more ↦ rw more (
      zero_chars-bytes fuel (b + 1) max (clear_char b cell) a (omega arith)
      ∙ ground (arith, byte_at-clear_char b cell a))
]

-- `bzero` clears the bytes of the range and no other.
pub bzero_lem :
    (b len : ℕ) (cell : ℕ → ℕ) (a : ℕ)
    → byte_at (bzero b len cell) a ≡ (if within a b (b + len) then 0 else byte_at cell a)
unfolding bzero
bzero_lem b len cell a =
    let r = zero_ints len b (b + len) cell in
    let (low, stay, high, bytes) = zero_ints-bytes len b (b + len) cell a in
    let upto = high (omega arith) in
    zero_chars-bytes len r.0 (b + len) r.1 a (omega arith) ∙ ground (arith, bytes)
