-- ===== src/Strings.antt =====
-- String routines of user programs (user/string.c) on a memory of bytes. The fuel of a loop over a
-- string bounds its characters; without it there is no result.
pub mod Laws
mod Tests
use raspberry3_mos.Base.{
  ℕ, zero, suc, ◌+◌, Bool, true, false, ◌&&◌, ltb, ◌==◌, not, if◌then◌else◌, Option, none, some,
}
use raspberry3_mos.Pmap.{update}

unfoldable pub strlen : ℕ → (ℕ → ℕ) → ℕ → Option ℕ
strlen zero mem s = none
strlen (suc fuel) mem s = elim (mem s == 0) [
  | true ↦ some 0
  | false ↦ elim (strlen fuel mem (s + 1)) [ none ↦ none | some n ↦ some (suc n) ]
]

-- The memory behind the copy; the result of the call is `dst`.
unfoldable pub strcpy : ℕ → (ℕ → ℕ) → ℕ → ℕ → Option (ℕ → ℕ)
strcpy zero mem dst src = none
strcpy (suc fuel) mem dst src = elim (mem src == 0) [
  | true ↦ some (update mem dst (mem src))
  | false ↦ strcpy fuel (update mem dst (mem src)) (dst + 1) (src + 1)
]

-- 0 is the null pointer.
unfoldable pub strchr : ℕ → (ℕ → ℕ) → ℕ → ℕ → Option ℕ
strchr zero mem s c = none
strchr (suc fuel) mem s c = elim (mem s == 0) [
  | true ↦ some 0
  | false ↦ elim (mem s == c) [ true ↦ some s | false ↦ strchr fuel mem (s + 1) c ]
]

-- The memory behind the copy of `len` bytes
unfoldable pub memcpy : ℕ → (ℕ → ℕ) → ℕ → ℕ → ℕ → ℕ
memcpy zero mem dest src = mem
memcpy (suc len) mem dest src = memcpy len (update mem dest (mem src)) (dest + 1) (src + 1)

-- The results -1, 0 and 1 of `strcmp`
pub data Order : Type 0 where
  less : Order
  equal : Order
  greater : Order

-- The comparison of the characters at which the loop of `strcmp` ends.
abbrev pub compare_chars : ℕ → ℕ → Order
compare_chars c d = if ltb c d then less else if ltb d c then greater else equal

unfoldable pub strcmp : ℕ → (ℕ → ℕ) → ℕ → ℕ → Option Order
strcmp zero mem p q = none
strcmp (suc fuel) mem p q = elim (not (mem p == 0) && (mem p == mem q)) [
  | true ↦ strcmp fuel mem (p + 1) (q + 1)
  | false ↦ some (compare_chars (mem p) (mem q))
]

-- `while (*src) *tmp++ = *src++`: the memory and the pointer `tmp` behind it
unfoldable pub copy_chars : ℕ → (ℕ → ℕ) → ℕ → ℕ → Option ((ℕ → ℕ) × ℕ)
copy_chars zero mem tmp src = none
copy_chars (suc fuel) mem tmp src = elim (mem src == 0) [
  | true ↦ some (mem, tmp)
  | false ↦ copy_chars fuel (update mem tmp (mem src)) (tmp + 1) (src + 1)
]

-- The memory behind `strcat`, which writes at the global pointer `ret` and returns it.
unfoldable pub strcat : ℕ → (ℕ → ℕ) → ℕ → ℕ → ℕ → Option (ℕ → ℕ)
strcat fuel mem ret p q = elim (copy_chars fuel mem ret p) [
  | none ↦ none
  | some first ↦ elim (copy_chars fuel first.0 first.1 q) [
    | none ↦ none
    | some second ↦ some (update second.0 second.1 0)
  ]
]
