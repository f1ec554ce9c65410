-- ===== src/User/Bytes/Copies.antt =====
-- What `user_bcopy` and `user_bzero` (user/fork.c) leave in memory.
use raspberry3_mos.Base.{
  ℕ, zero, suc, ◌+◌, ◌-◌, ◌%◌, ◌^◌, ◌≤◌, ◌<◌, ◌≡◌, refl, ◌∙◌, ap, fun_ext, ◌⊎◌, inl, inr, true,
  false, ◌&&◌, ltb, ◌==◌, if◌then◌else◌, Bool-cases, arith,
}
use raspberry3_mos.Pmap.{update}
use raspberry3_mos.Pmap.Zero.{within}
use raspberry3_mos.User.Bytes.{
  move_ints, move_chars, user_bcopy, bzero_rounds, zero_bytes, user_bzero,
}

-- A copy from the first byte on reads no byte that it has written: the target is below the source,
-- or behind its end.
abbrev pub Apart : ℕ → ℕ → ℕ → Type 0
Apart src dst len = (dst ≤ src) ⊎ (src + len ≤ dst)

happly : {f g : ℕ → ℕ} → f ≡ g → (a : ℕ) → f a ≡ g a
happly h a = ap (λ (f : ℕ → ℕ). f a) h

-- Memory with `len` bytes copied
abbrev pub copied : ℕ → ℕ → ℕ → (ℕ → ℕ) → ℕ → ℕ
copied src dst len mem a = if within a dst (dst + len) then mem (src + (a - dst)) else mem a

copied-empty : (src dst : ℕ) (mem : ℕ → ℕ) (a : ℕ) → mem a ≡ copied src dst 0 mem a
copied-empty src dst mem a = let out : within a dst (dst + 0) ≡ false = ground arith in rw out refl

-- A copy of `len` bytes behind one of `k` bytes
copied-join :
    (src dst k len n : ℕ) (mem : ℕ → ℕ) (a : ℕ)
    → k + len ≡ n
    → Apart src dst n
    → copied (src + k) (dst + k) len (copied src dst k mem) a ≡ copied src dst n mem a
copied-join src dst k len n mem a total apart =
    elim (Bool-cases (within a (dst + k) (dst + k + len))) [
      | inl late ↦
          let whole : within a dst (dst + n) ≡ true = ground arith in
          let unread : within (src + k + (a - (dst + k))) dst (dst + k) ≡ false = elim apart [
            | inl below ↦ ground arith
            | inr above ↦ ground arith
          ] in
          let place : src + k + (a - (dst + k)) ≡ src + (a - dst) = ground arith in
          rw late (rw whole (rw unread (ap mem place)))
      | inr not_late ↦
          let same : within a dst (dst + k) ≡ within a dst (dst + n) = ground arith in
          rw not_late (rw same refl)
    ]

first-copied :
    (src dst : ℕ) (mem : ℕ → ℕ) (a : ℕ) → update mem dst (mem src) a ≡ copied src dst 1 mem a
first-copied src dst mem a = elim (Bool-cases (a == dst)) [
  | inl same ↦
      let inside : within a dst (dst + 1) ≡ true = ground arith in
      let place : src ≡ src + (a - dst) = ground arith in rw same (rw inside (ap mem place))
  | inr other ↦
      let outside : within a dst (dst + 1) ≡ false = ground arith in rw other (rw outside refl)
]

move_chars-none : (fuel src dst : ℕ) (mem : ℕ → ℕ) → move_chars fuel src dst (dst + 0) mem ≡ mem
unfolding move_chars
move_chars-none zero src dst mem = refl
move_chars-none (suc fuel) src dst mem =
    let stop : ltb dst (dst + 0) ≡ false = ground arith in rw stop refl

move_chars-some :
    (fuel src dst len : ℕ) (mem : ℕ → ℕ)
    → move_chars (suc fuel) src dst (dst + suc len) mem
      ≡ move_chars fuel (src + 1) (dst + 1) (dst + 1 + len) (copied src dst 1 mem)
unfolding move_chars
move_chars-some fuel src dst len mem =
    let more : ltb dst (dst + suc len) ≡ true = ground arith in
    let max : dst + suc len ≡ dst + 1 + len = omega arith in
    let one : update mem dst (mem src) ≡ copied src dst 1 mem =
      fun_ext (first-copied src dst mem) in
    rw more (rw max (rw one refl))

move_chars-copied :
    (fuel src dst len : ℕ) (mem : ℕ → ℕ) (a : ℕ)
    → Apart src dst len
    → len ≤ fuel
    → move_chars fuel src dst (dst + len) mem a ≡ copied src dst len mem a
move_chars-copied fuel src dst zero mem a apart enough =
    happly (move_chars-none fuel src dst mem) a ∙ copied-empty src dst mem a
move_chars-copied zero src dst (suc len) mem a apart enough = absurd (omega arith)
move_chars-copied (suc fuel) src dst (suc len) mem a apart enough =
    let rest : Apart (src + 1) (dst + 1) len = elim apart [
      | inl l ↦ inl (omega arith)
      | inr r ↦ inr (omega arith)
    ] in
    happly (move_chars-some fuel src dst len mem) a
    ∙ move_chars-copied fuel (src + 1) (dst + 1) len (copied src dst 1 mem) a rest (omega arith)
    ∙ copied-join src dst 1 len (suc len) mem a (omega arith) apart

-- The integers copied, `k` of `len` bytes
pub record IntsDone (fuel src dst len : ℕ) (mem : ℕ → ℕ) (k : ℕ) : Type 0 where
  pub bound : k ≤ len
  pub ends : move_ints fuel src dst (dst + len) mem ≡ (src + k, dst + k, copied src dst k mem)

no_ints :
    (fuel src dst len : ℕ) (mem : ℕ → ℕ)
    → move_ints fuel src dst (dst + len) mem ≡ (src, dst, mem)
    → IntsDone fuel src dst len mem 0
no_ints fuel src dst len mem run =
    let s : src ≡ src + 0 = omega arith in
    let d : dst ≡ dst + 0 = omega arith in
    let c : mem ≡ copied src dst 0 mem = fun_ext (copied-empty src dst mem) in
    record { bound = omega arith; ends = run ∙ (λ i. (s i, d i, c i)) }

move_ints-more :
    (fuel src dst len n : ℕ) (mem : ℕ → ℕ)
    → 4 + n ≡ len
    → move_ints (suc fuel) src dst (dst + len) mem
      ≡ move_ints fuel (src + 4) (dst + 4) (dst + 4 + n) (copied src dst 4 mem)
unfolding move_ints
move_ints-more fuel src dst len n mem total =
    let more : ltb (dst + 3) (dst + len) ≡ true = ground arith in
    let max : dst + len ≡ dst + 4 + n = omega arith in rw more (rw max refl)

move_ints-stop :
    (fuel src dst len : ℕ) (mem : ℕ → ℕ)
    → ltb (dst + 3) (dst + len) ≡ false
    → move_ints fuel src dst (dst + len) mem ≡ (src, dst, mem)
unfolding move_ints
move_ints-stop zero src dst len mem stop = refl
move_ints-stop (suc fuel) src dst len mem stop = rw stop refl

move_ints-zero :
    (src dst len : ℕ) (mem : ℕ → ℕ) → move_ints zero src dst (dst + len) mem ≡ (src, dst, mem)
unfolding move_ints
move_ints-zero src dst len mem = refl

pub move_ints-done :
    (fuel src dst len : ℕ) (mem : ℕ → ℕ)
    → Apart src dst len
    → (k : ℕ) × IntsDone fuel src dst len mem k
move_ints-done zero src dst len mem apart =
    (0, no_ints 0 src dst len mem (move_ints-zero src dst len mem))
move_ints-done (suc fuel) src dst len mem apart = elim (Bool-cases (ltb (dst + 3) (dst + len))) [
  | inr stop ↦
      (0, no_ints (suc fuel) src dst len mem (move_ints-stop (suc fuel) src dst len mem stop))
  | inl more ↦
      let n = len - 4 in
      let total : 4 + n ≡ len = ground arith in
      let rest : Apart (src + 4) (dst + 4) n = elim apart [
        | inl l ↦ inl (omega arith)
        | inr r ↦ inr (omega arith)
      ] in
      let (k, d) = move_ints-done fuel (src + 4) (dst + 4) n (copied src dst 4 mem) rest in
      let low = d.bound in
      let part : Apart src dst (4 + k) = elim apart [ inl l ↦ inl l | inr r ↦ inr (omega arith) ] in
      let s : src + 4 + k ≡ src + (4 + k) = omega arith in
      let t : dst + 4 + k ≡ dst + (4 + k) = omega arith in
      let c : copied (src + 4) (dst + 4) k (copied src dst 4 mem) ≡ copied src dst (4 + k) mem =
        fun_ext (λ a. copied-join src dst 4 k (4 + k) mem a refl part) in
      (
        4 + k,
        record {
          bound = omega arith;
          ends = move_ints-more fuel src dst len n mem total ∙ d.ends ∙ (λ i. (s i, t i, c i));
        },
      )
]

-- The two loops of `user_bcopy`, the first of which may have copied nothing
pub after_ints :
    (src dst len : ℕ) (mem : ℕ → ℕ) (a k : ℕ)
    → Apart src dst len
    → k ≤ len
    → move_chars len (src + k) (dst + k) (dst + len) (copied src dst k mem) a
      ≡ copied src dst len mem a
after_ints src dst len mem a k apart low =
    let max : dst + len ≡ dst + k + (len - k) = omega arith in
    let rest : Apart (src + k) (dst + k) (len - k) = elim apart [
      | inl l ↦ inl (omega arith)
      | inr r ↦ inr (omega arith)
    ] in
    ap (λ (e : ℕ). move_chars len (src + k) (dst + k) e (copied src dst k mem) a) max
    ∙ move_chars-copied len (src + k) (dst + k) (len - k) (copied src dst k mem) a rest
        (omega arith)
    ∙ copied-join src dst k (len - k) len mem a (omega arith) apart

-- `user_bcopy` comes to its end and leaves the `len` bytes from `src` on at `dst`, and every other byte
-- as it was, where the target is below the source or behind its end; where both are multiples of 4 it
-- copies integers first, which makes no difference.
pub user_bcopy_lem :
    (src dst len : ℕ) (mem : ℕ → ℕ) (a : ℕ)
    → Apart src dst len
    → user_bcopy src dst len mem a ≡ copied src dst len mem a
unfolding user_bcopy
user_bcopy_lem src dst len mem a apart = elim (Bool-cases ((src % 4 == 0) && (dst % 4 == 0))) [
  | inr odd ↦ rw odd (move_chars-copied len src dst len mem a apart (omega arith))
  | inl even ↦
      let (k, d) = move_ints-done len src dst len mem apart in
      rw even (rw d.ends (after_ints src dst len mem a k apart d.bound))
]

zero_bytes_lem :
    (m p : ℕ) (mem : ℕ → ℕ) (a : ℕ)
    → zero_bytes m p mem a ≡ (if within a p (p + m) then 0 else mem a)
unfolding zero_bytes
zero_bytes_lem zero p mem a = ground arith
zero_bytes_lem (suc m) p mem a = zero_bytes_lem m (p + 1) (update mem p 0) a ∙ ground arith

-- `user_bzero` clears the `n` bytes from `v` on and no other, for a count below 2 ^ 31.
pub user_bzero_lem :
    (v n : ℕ) (mem : ℕ → ℕ) (a : ℕ)
    → n < 2 ^ 31
    → user_bzero v n mem a ≡ (if within a v (v + n) then 0 else mem a)
unfolding user_bzero bzero_rounds
user_bzero_lem v n mem a small =
    let rounds : bzero_rounds n ≡ n = ground arith in rw rounds (zero_bytes_lem n v mem a)
