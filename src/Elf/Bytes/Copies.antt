-- ===== src/Elf/Bytes/Copies.antt =====
-- The bytes that `bcopy` (kernel/main.c) leaves.
use raspberry3_mos.Base.{
  ℕ, zero, suc, ◌+◌, ◌-◌, ◌<◌, ◌≡◌, refl, ◌∙◌, ap, fun_ext, inl, inr, ltb, Bool-cases, arith,
}
use raspberry3_mos.Pmap.{update}
use raspberry3_mos.Pmap.Zero.{within}
use raspberry3_mos.Elf.Pages.{byte_at, put_byte, put_int, copy_ints, copy_bytes, bcopy}
use raspberry3_mos.Elf.Bytes.{byte_at-put_byte, put_byte-bytes}
use raspberry3_mos.User.Bytes.{copy_int, move_ints, move_chars}
use raspberry3_mos.User.Bytes.Copies.{Apart, copied, move_ints-done, after_ints}

-- `bcopy` against `user_bcopy`, over the bytes
four_bytes :
    (src dst : ℕ) (m : ℕ → ℕ) (a : ℕ)
    → update
        (update (update (update m dst (m src)) (dst + 1) (m (src + 1))) (dst + 2) (m (src + 2)))
        (dst + 3)
        (m (src + 3))
        a
      ≡ copy_int src dst m a
four_bytes src dst m a = elim (Bool-cases (within a dst (dst + 4))) [
  | inr out ↦ ground arith
  | inl inside ↦
      let k = a - dst in
      let from : a ≡ dst + k = ground arith in let low : k < 4 = ground arith in ground arith
]

byte_at-put_int :
    (src dst : ℕ) (cell : ℕ → ℕ) (a : ℕ)
    → byte_at (put_int src dst cell) a ≡ copy_int src dst (byte_at cell) a
unfolding put_int
byte_at-put_int src dst cell a =
    let m = byte_at cell in
    let c0 = put_byte dst (m src) cell in
    let c1 = put_byte (dst + 1) (m (src + 1)) c0 in
    let c2 = put_byte (dst + 2) (m (src + 2)) c1 in
    let s0 = put_byte-bytes dst (m src) cell (omega arith) in
    let s1 = put_byte-bytes (dst + 1) (m (src + 1)) c0 (omega arith) in
    let s2 = put_byte-bytes (dst + 2) (m (src + 2)) c1 (omega arith) in
    byte_at-put_byte (dst + 3) (m (src + 3)) c2 a (omega arith)
    ∙ ap (λ (f : ℕ → ℕ). update f (dst + 3) (m (src + 3)) a)
        (s2
          ∙ ap (λ (f : ℕ → ℕ). update f (dst + 2) (m (src + 2)))
              (s1 ∙ ap (λ (f : ℕ → ℕ). update f (dst + 1) (m (src + 1))) s0))
    ∙ four_bytes src dst m a

copy_ints-bytes :
    (fuel src dst max : ℕ) (cell : ℕ → ℕ)
    → ◌≡◌ {A = ℕ × ℕ × (ℕ → ℕ)}
        (
          (copy_ints fuel src dst max cell).0,
          (copy_ints fuel src dst max cell).1,
          byte_at (copy_ints fuel src dst max cell).2,
        )
        (move_ints fuel src dst max (byte_at cell))
unfolding copy_ints move_ints
copy_ints-bytes zero src dst max cell = refl
copy_ints-bytes (suc fuel) src dst max cell = elim (Bool-cases (ltb (dst + 3) max)) [
  | inr stop ↦ rw stop refl
  | inl more ↦ rw more (
      copy_ints-bytes fuel (src + 4) (dst + 4) max (put_int src dst cell)
      ∙ ap (move_ints fuel (src + 4) (dst + 4) max) (fun_ext (byte_at-put_int src dst cell)))
]

copy_bytes-bytes :
    (fuel src dst max : ℕ) (cell : ℕ → ℕ)
    → byte_at (copy_bytes fuel src dst max cell) ≡ move_chars fuel src dst max (byte_at cell)
unfolding copy_bytes move_chars
copy_bytes-bytes zero src dst max cell = refl
copy_bytes-bytes (suc fuel) src dst max cell = elim (Bool-cases (ltb dst max)) [
  | inr stop ↦ rw stop refl
  | inl more ↦
      let next = put_byte dst (byte_at cell src) cell in
      let same : byte_at next ≡ update (byte_at cell) dst (byte_at cell src) =
        fun_ext (λ a. byte_at-put_byte dst (byte_at cell src) cell a (omega arith)) in
      rw more (
        copy_bytes-bytes fuel (src + 1) (dst + 1) max next
        ∙ ap (move_chars fuel (src + 1) (dst + 1) max) same)
]

-- `bcopy` leaves the bytes from `src` on at `dst`, and every other byte as it was.
pub bcopy_lem :
    (src dst len : ℕ) (cell : ℕ → ℕ) (a : ℕ)
    → Apart src dst len
    → byte_at (bcopy src dst len cell) a ≡ copied src dst len (byte_at cell) a
unfolding bcopy
bcopy_lem src dst len cell a apart =
    let r = copy_ints len src dst (dst + len) cell in
    let (k, d) = move_ints-done len src dst len (byte_at cell) apart in
    let ints = copy_ints-bytes len src dst (dst + len) cell ∙ d.ends in
    let place : r.0 ≡ src + k = ap (λ q. q.0) ints in
    let target : r.1 ≡ dst + k = ap (λ q. q.1) ints in
    let bytes : byte_at r.2 ≡ copied src dst k (byte_at cell) = ap (λ q. q.2) ints in
    ap (λ (f : ℕ → ℕ). f a) (copy_bytes-bytes len r.0 r.1 (dst + len) r.2)
    ∙ rw (place, target, bytes) (after_ints src dst len (byte_at cell) a k apart d.bound)
