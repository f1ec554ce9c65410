-- ===== src/Pipe.antt =====
-- Pipes of user programs (user/pipe.c): a page with a ring of 32 bytes that two environments share.
pub mod Create
pub mod Made
pub mod Fifo
pub mod Calls
mod Tests
use raspberry3_mos.Base.{
  ℕ, zero, suc, ◌+◌, ◌-◌, ◌*◌, ◌%◌, ◌^◌, Bool, true, false, ◌&&◌, ◌||◌, ltb, ◌==◌, not,
  if◌then◌else◌, List, [], ◌∷◌, Option, none, some,
}
use raspberry3_mos.Pmap.{update}

abbrev pub by2pipe : ℕ
by2pipe = 32

-- `struct Pipe`
pub record Pipe : Type 0 where
  pub p_rpos : ℕ
  pub p_wpos : ℕ
  pub p_buf : ℕ → ℕ

abbrev pub is_empty : Pipe → Bool
is_empty p = p.p_rpos == p.p_wpos

-- `p_wpos - p_rpos == BY2PIPE`, in u64
abbrev pub is_full : Pipe → Bool
is_full p = (p.p_wpos + 2 ^ 64 - p.p_rpos) % 2 ^ 64 == by2pipe

unfoldable pub read_byte : Pipe → ℕ × Pipe
read_byte p = (p.p_buf (p.p_rpos % by2pipe), record p { p_rpos = (p.p_rpos + 1) % 2 ^ 64 })

unfoldable pub write_byte : ℕ → Pipe → Pipe
write_byte b p = record p {
  p_buf = update p.p_buf (p.p_wpos % by2pipe) b;
  p_wpos = (p.p_wpos + 1) % 2 ^ 64;
}

-- `turn t` is what other environments do to the pipe in the call number `t` of `syscall_yield`, and
-- `closed t` is the answer of `_pipeisclosed` before it. A loop that waits too long has no result.
module _ (turn : ℕ → Pipe → Pipe) (closed : ℕ → Pipe → Bool) where
  -- The loop of `piperead` before the first byte, with `true` where there is one and `false` where
  -- the pipe is closed.
  unfoldable pub wait_byte : ℕ → ℕ → Pipe → Option (Bool × ℕ × Pipe)
  wait_byte zero t p = none
  wait_byte (suc fuel) t p = elim (is_empty p) [
    | false ↦ some (true, t, p)
    | true ↦ elim (closed t p) [
      | true ↦ some (false, t, p)
      | false ↦ wait_byte fuel (t + 1) (turn t p)
    ]
  ]

  -- The loop over the bytes, `n` of them left; `first` holds as long as `i` is 0.
  unfoldable pub read_bytes : ℕ → Bool → ℕ → ℕ → Pipe → Option (List ℕ × Pipe)
  read_bytes fuel first zero t p = some ([], p)
  read_bytes zero first (suc n) t p = none
  read_bytes (suc fuel) first (suc n) t p = elim (is_empty p) [
    | true ↦ elim (not first || closed t p) [
      | true ↦ some ([], p)
      | false ↦ read_bytes fuel first (suc n) (t + 1) (turn t p)
    ]
    | false ↦ elim (read_bytes fuel false n t (read_byte p).1) [
      | none ↦ none
      | some (bytes, q) ↦ some ((read_byte p).0 ∷ bytes, q)
    ]
  ]

  -- `piperead`: the bytes put into the buffer, as many as the result says.
  unfoldable pub piperead : ℕ → ℕ → Pipe → Option (List ℕ × Pipe)
  piperead fuel n p = elim (wait_byte fuel 0 p) [
    | none ↦ none
    | some (ready, t, q) ↦ elim ready [ true ↦ read_bytes fuel true n t q | false ↦ some ([], q) ]
  ]

  -- The loop of `pipewrite`; `true` for the result `n`, `false` for the 0 of a closed pipe, which is
  -- also the result behind bytes that were written.
  unfoldable pub pipewrite : ℕ → ℕ → List ℕ → Pipe → Option (Bool × Pipe)
  pipewrite fuel t [] p = some (true, p)
  pipewrite zero t (b ∷ bytes) p = none
  pipewrite (suc fuel) t (b ∷ bytes) p = elim (is_full p) [
    | true ↦ elim (closed t p) [
      | true ↦ some (false, p)
      | false ↦ pipewrite fuel (t + 1) (b ∷ bytes) (turn t p)
    ]
    | false ↦ pipewrite fuel t bytes (write_byte b p)
  ]
