-- ===== src/Pipe/Calls.antt =====
-- `piperead` and `pipewrite` (user/pipe.c) where they need not wait.
use mathlib.Core.List.{append_assoc, append-nil}
use raspberry3_mos.Base.{
  ℕ, zero, suc, ◌+◌, ◌-◌, ◌^◌, ◌≤◌, ◌<◌, ◌≡◌, refl, sym, ◌∙◌, ap, inl, inr, Bool, true, false, ◌&&◌,
  ◌||◌, not, List, [], ◌∷◌, ◌++◌, length, some, Bool-cases, arith, take,
}
use raspberry3_mos.Pipe.{
  Pipe, by2pipe, is_empty, is_full, read_byte, write_byte, wait_byte, read_bytes, piperead,
  pipewrite,
}
use raspberry3_mos.Pipe.Fifo.{bytes, contents, Sound, read_byte-Sound, write_byte-Sound}

module _ (turn : ℕ → Pipe → Pipe) (closed : ℕ → Pipe → Bool) where
  read_bytes_lem :
      (fuel : ℕ) (first : Bool) (n t : ℕ) (p : Pipe)
      → Sound p
      → p.p_wpos < 2 ^ 64
      → (first && is_empty p) ≡ false
      → n ≤ fuel
      → (q : Pipe) × (read_bytes turn closed fuel first n t p ≡ some (take n (contents p), q))
        × (take n (contents p) ++ contents q ≡ contents p)
  unfolding read_bytes
  read_bytes_lem fuel first zero t p s room go h = (p, refl, refl)
  read_bytes_lem zero first (suc n) t p s room go h = absurd (omega arith)
  read_bytes_lem (suc fuel) first (suc n) t p s room go h = elim (Bool-cases (is_empty p)) [
    | inl empty ↦
        let later : (not first || closed t p) ≡ true = ground arith in
        let none_left : p.p_wpos - p.p_rpos ≡ 0 = ground arith in
        let nothing : contents p ≡ [] = ap (λ k. bytes k p.p_rpos p.p_buf) none_left in
        (
          p,
          rw (read_bytes, empty, later)
              (ap (λ (c : List ℕ). some (take (suc n) c, p)) (sym nothing)),
          ap (λ c. take (suc n) c ++ contents p) nothing,
        )
    | inr some_byte ↦
        let (sound, same, taken) = read_byte-Sound p s room some_byte in
        let (q, run, queue) =
          read_bytes_lem fuel false n t (read_byte p).1 sound (omega (arith, same, room)) refl
            (omega arith) in
        (
          q,
          rw (read_bytes, some_byte, run)
              (ap (λ (c : List ℕ). some (take (suc n) c, q)) (sym taken)),
          ap (λ c. take (suc n) c ++ contents q) taken
              ∙ ap (λ r. (read_byte p).0 ∷ r) queue
              ∙ sym taken,
        )
  ]

  -- With at least one byte in the ring `piperead` returns at once: it takes the first `n` bytes, or
  -- all where there are fewer, and leaves the others. The ends are in order and at most 32 apart, the
  -- position of the writer is below 2 ^ 64, and the fuel is above `n`.
  pub piperead_lem :
      (fuel n : ℕ) (p : Pipe)
      → Sound p
      → p.p_wpos < 2 ^ 64
      → is_empty p ≡ false
      → n < fuel
      → (q : Pipe) × (piperead turn closed fuel n p ≡ some (take n (contents p), q))
        × (take n (contents p) ++ contents q ≡ contents p)
  unfolding piperead wait_byte
  piperead_lem zero n p s room ready h = absurd (omega arith)
  piperead_lem (suc fuel) n p s room ready h =
      let go : (true && is_empty p) ≡ false = ready in
      let (q, run, queue) = read_bytes_lem (suc fuel) true n 0 p s room go (omega arith) in
      (q, rw (piperead, wait_byte, ready) run, queue)

  -- With room for all bytes in the ring `pipewrite` returns at once, after it has put them behind
  -- those that were there. The ends are in order and at most 32 apart, the position of the writer
  -- stays below 2 ^ 64, and the fuel is at least the number of bytes.
  pub pipewrite_lem :
      (fuel t : ℕ) (ws : List ℕ) (p : Pipe)
      → Sound p
      → p.p_wpos + length ws < 2 ^ 64
      → p.p_wpos + length ws ≤ p.p_rpos + by2pipe
      → length ws ≤ fuel
      → (q : Pipe) × (pipewrite turn closed fuel t ws p ≡ some (true, q))
        × (contents q ≡ contents p ++ ws)
  unfolding pipewrite
  pipewrite_lem fuel t [] p s room free h = (p, refl, sym (append-nil (contents p)))
  pipewrite_lem zero t (b ∷ ws) p s room free h = absurd (omega arith)
  pipewrite_lem (suc fuel) t (b ∷ ws) p s room free h =
      let below : p.p_wpos < p.p_rpos + by2pipe = omega arith in
      let not_full : is_full p ≡ false = ground (arith, s.ordered, below) in
      let (sound, next, kept, grown) = write_byte-Sound b p s (omega arith) not_full in
      let (q, run, queue) =
        pipewrite_lem fuel t ws (write_byte b p) sound (omega (arith, next, room))
          (omega (arith, next, kept, free)) (omega arith) in
      (
        q,
        rw (pipewrite, not_full) run,
        queue ∙ ap (λ r. r ++ ws) grown ∙ append_assoc (contents p) (b ∷ []) ws,
      )
