-- ===== src/User/Bytes.antt =====
-- `user_bcopy` and `user_bzero` (user/fork.c) over the bytes of an address space: `mem a` is the byte
-- at the address `a`, and a range of addresses does not pass the end of the space.
pub mod Copies
use raspberry3_mos.Base.{
  ℕ, zero, suc, ◌+◌, ◌-◌, ◌*◌, ◌%◌, ◌^◌, Bool, ◌&&◌, ltb, leb, ◌==◌, if◌then◌else◌,
}
use raspberry3_mos.Pmap.{update}
use raspberry3_mos.Pmap.Zero.{within}

-- `*(int *)dst = *(int *)src`, which reads its four bytes before it writes them
abbrev pub copy_int : ℕ → ℕ → (ℕ → ℕ) → ℕ → ℕ
copy_int src dst mem a = if within a dst (dst + 4) then mem (src + (a - dst)) else mem a

-- `while (dst + 3 < max)`, then `while (dst < max)`; each round moves `dst` on, so `len` rounds do.
unfoldable pub move_ints : ℕ → ℕ → ℕ → ℕ → (ℕ → ℕ) → ℕ × ℕ × (ℕ → ℕ)
move_ints zero src dst max mem = (src, dst, mem)
move_ints (suc fuel) src dst max mem =
    let rest = move_ints fuel (src + 4) (dst + 4) max (copy_int src dst mem) in
    if ltb (dst + 3) max then rest else (src, dst, mem)

unfoldable pub move_chars : ℕ → ℕ → ℕ → ℕ → (ℕ → ℕ) → ℕ → ℕ
move_chars zero src dst max mem = mem
move_chars (suc fuel) src dst max mem =
    let rest = move_chars fuel (src + 1) (dst + 1) max (update mem dst (mem src)) in
    if ltb dst max then rest else mem

unfoldable pub user_bcopy : ℕ → ℕ → ℕ → (ℕ → ℕ) → ℕ → ℕ
user_bcopy src dst len mem =
    let max = dst + len in
    let (s, d, m) =
      if (src % 4 == 0) && (dst % 4 == 0) then move_ints len src dst max mem else (src, dst, mem) in
    move_chars len s d max m

-- The rounds of `while (--m >= 0)`: `m` is an `int`, and a count from 2 ^ 31 on is a negative one.
unfoldable pub bzero_rounds : ℕ → ℕ
bzero_rounds n = let m = n % 2 ^ 32 in if ltb m (2 ^ 31) then m else 0

unfoldable pub zero_bytes : ℕ → ℕ → (ℕ → ℕ) → ℕ → ℕ
zero_bytes zero p mem = mem
zero_bytes (suc m) p mem = zero_bytes m (p + 1) (update mem p 0)

unfoldable pub user_bzero : ℕ → ℕ → (ℕ → ℕ) → ℕ → ℕ
user_bzero v n mem = zero_bytes (bzero_rounds n) v mem
