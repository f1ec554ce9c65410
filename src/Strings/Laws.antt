-- ===== src/Strings/Laws.antt =====
-- The routines of user/string.c on strings in memory.
use raspberry3_mos.Base.{
  ℕ, zero, suc, ◌+◌, ◌-◌, ◌≤◌, ◌<◌, ◌≡◌, ◌≢◌, refl, ◌∙◌, ap, ◌⊎◌, inl, inr, true, false, ◌&&◌, leb,
  ltb, ◌==◌, not, if◌then◌else◌, some, List, [], ◌∷◌, length, Bool-cases, arith,
}
use raspberry3_mos.Strings.{
  strlen, strcpy, strcmp, memcpy, Order, less, equal, greater, compare_chars,
}

-- The characters `s` stand at `p`, with a 0 behind them.
abbrev pub Holds : (ℕ → ℕ) → ℕ → List ℕ → Type 0
Holds mem p [] = mem p ≡ 0
Holds mem p (c ∷ s) = (mem p ≡ c) × (c ≢ 0) × Holds mem (p + 1) s

-- `strlen` of a string in memory is its length, with more fuel than that.
pub strlen_lem :
    (fuel : ℕ) (mem : ℕ → ℕ) (p : ℕ) (s : List ℕ)
    → Holds mem p s
    → length s < fuel
    → strlen fuel mem p ≡ some (length s)
unfolding strlen
strlen_lem zero mem p s h l = absurd (omega arith)
strlen_lem (suc fuel) mem p [] h l =
    let nul : (mem p == 0) ≡ true = ground arith in rw (strlen, nul) refl
strlen_lem (suc fuel) mem p (c ∷ s) h l =
    let char : (mem p == 0) ≡ false = ground (arith, h.0, h.1) in
    let rest = strlen_lem fuel mem (p + 1) s h.2 (omega arith) in rw (strlen, char, rest) refl

-- The lexicographic order of strings
abbrev pub compare_strings : List ℕ → List ℕ → Order
compare_strings [] [] = equal
compare_strings [] (d ∷ t) = less
compare_strings (c ∷ s) [] = greater
compare_strings (c ∷ s) (d ∷ t) = if c == d then compare_strings s t else compare_chars c d

-- `strcmp` of two strings in memory is their lexicographic order, with more fuel than the first has
-- characters.
pub strcmp_lem :
    (fuel : ℕ) (mem : ℕ → ℕ) (p q : ℕ) (s t : List ℕ)
    → Holds mem p s
    → Holds mem q t
    → length s < fuel
    → strcmp fuel mem p q ≡ some (compare_strings s t)
unfolding strcmp
strcmp_lem zero mem p q s t h g l = absurd (omega arith)
strcmp_lem (suc fuel) mem p q [] [] h g l =
    let stop : (not (mem p == 0) && (mem p == mem q)) ≡ false = ground (arith, h) in
    let tie : compare_chars (mem p) (mem q) ≡ equal = ground (arith, h, g) in
    rw (strcmp, stop) (ap (λ o. some o) tie)
strcmp_lem (suc fuel) mem p q [] (d ∷ t) h g l =
    let stop : (not (mem p == 0) && (mem p == mem q)) ≡ false = ground (arith, h) in
    let below : compare_chars (mem p) (mem q) ≡ less = ground (arith, h, g.0, g.1) in
    rw (strcmp, stop) (ap (λ o. some o) below)
strcmp_lem (suc fuel) mem p q (c ∷ s) [] h g l =
    let stop : (not (mem p == 0) && (mem p == mem q)) ≡ false = ground (arith, h.0, h.1, g) in
    let more : compare_chars (mem p) (mem q) ≡ greater = ground (arith, h.0, h.1, g) in
    rw (strcmp, stop) (ap (λ o. some o) more)
strcmp_lem (suc fuel) mem p q (c ∷ s) (d ∷ t) h g l = elim (Bool-cases (c == d)) [
  | inl same ↦
      let go : (not (mem p == 0) && (mem p == mem q)) ≡ true = ground (arith, h.0, h.1, g.0) in
      let rest = strcmp_lem fuel mem (p + 1) (q + 1) s t h.2 g.2 (omega arith) in
      rw (strcmp, go, same) rest
  | inr other ↦
      let stop : (not (mem p == 0) && (mem p == mem q)) ≡ false = ground (arith, h.0, h.1, g.0) in
      let tie : compare_chars (mem p) (mem q) ≡ compare_chars c d =
        ap (λ k. compare_chars k (mem q)) h.0 ∙ ap (λ k. compare_chars c k) g.0 in
      rw (strcmp, stop, other) (ap (λ o. some o) tie)
]

-- `memcpy` to a place at or before the start of the range that it copies, or behind its end, copies
-- the bytes as they were, and all other memory stays.
pub memcpy_lem :
    (len : ℕ) (mem : ℕ → ℕ) (dest src a : ℕ)
    → (dest ≤ src) ⊎ (src + len ≤ dest)
    → memcpy len mem dest src a
      ≡ (if leb dest a && ltb a (dest + len) then mem (src + (a - dest)) else mem a)
unfolding memcpy
memcpy_lem zero mem dest src a h = ground arith
memcpy_lem (suc len) mem dest src a h =
    let rest =
      memcpy_lem len (λ j. if j == dest then mem src else mem j) (dest + 1) (src + 1) a (next h) in
    rest ∙ elim (Bool-cases (leb (dest + 1) a && ltb a (dest + 1 + len))) [
      | inl inside ↦
          let place : src + 1 + (a - (dest + 1)) ≡ src + (a - dest) = ground arith in
          let same : mem (src + 1 + (a - (dest + 1))) ≡ mem (src + (a - dest)) = ap mem place in
          let kept : ((src + 1 + (a - (dest + 1))) == dest) ≡ false = beyond h inside in
          ground (arith, same, kept)
      | inr outside ↦ elim (Bool-cases (a == dest)) [
        | inl here ↦
            let first : mem src ≡ mem (src + (a - dest)) = ap mem (ground arith) in
            ground (arith, first)
        | inr other ↦ ground arith
      ]
    ]
  where
    next : (dest ≤ src) ⊎ (src + suc len ≤ dest) → (dest + 1 ≤ src + 1) ⊎ (src + 1 + len ≤ dest + 1)
    next (inl before) = inl (omega arith)
    next (inr after) = inr (omega arith)

    beyond :
        (dest ≤ src) ⊎ (src + suc len ≤ dest)
        → (leb (dest + 1) a && ltb a (dest + 1 + len)) ≡ true
        → ((src + 1 + (a - (dest + 1))) == dest) ≡ false
    beyond (inl before) inside = ground arith
    beyond (inr after) inside = ground arith

Holds-update :
    (mem : ℕ → ℕ) (p a v : ℕ) (s : List ℕ)
    → (a < p) ⊎ (p + length s < a)
    → Holds mem p s
    → Holds (λ j. if j == a then v else mem j) p s
Holds-update mem p a v [] out h = let far : (p == a) ≡ false = apart out in rw far h
  where
    apart : (a < p) ⊎ (p + 0 < a) → (p == a) ≡ false
    apart (inl before) = ground arith
    apart (inr after) = ground arith
Holds-update mem p a v (c ∷ s) out h =
    let far : (p == a) ≡ false = apart out in
    (rw far h.0, h.1, Holds-update mem (p + 1) a v s (next out) h.2)
  where
    apart : (a < p) ⊎ (p + suc (length s) < a) → (p == a) ≡ false
    apart (inl before) = ground arith
    apart (inr after) = ground arith

    next : (a < p) ⊎ (p + suc (length s) < a) → (a < p + 1) ⊎ (p + 1 + length s < a)
    next (inl before) = inl (omega arith)
    next (inr after) = inr (omega arith)

-- `strcpy` of a string to a place at or before its start, or behind its end, is `memcpy` of its
-- characters and the 0 behind them, with more fuel than it has characters.
pub strcpy-memcpy :
    (fuel : ℕ) (mem : ℕ → ℕ) (dst src : ℕ) (s : List ℕ)
    → Holds mem src s
    → (dst ≤ src) ⊎ (src + length s < dst)
    → length s < fuel
    → strcpy fuel mem dst src ≡ some (memcpy (suc (length s)) mem dst src)
unfolding strcpy memcpy
strcpy-memcpy zero mem dst src s h out l = absurd (omega arith)
strcpy-memcpy (suc fuel) mem dst src [] h out l =
    let nul : (mem src == 0) ≡ true = ground (arith, h) in rw (strcpy, nul) refl
strcpy-memcpy (suc fuel) mem dst src (c ∷ s) h out l =
    let char : (mem src == 0) ≡ false = ground (arith, h.0, h.1) in
    let kept = Holds-update mem (src + 1) dst (mem src) s (beside out) h.2 in
    let rest =
      strcpy-memcpy fuel (λ j. if j == dst then mem src else mem j) (dst + 1) (src + 1) s kept
        (next out) (omega arith) in
    rw (strcpy, char) rest
  where
    beside :
        (dst ≤ src) ⊎ (src + suc (length s) < dst) → (dst < src + 1) ⊎ (src + 1 + length s < dst)
    beside (inl before) = inl (omega arith)
    beside (inr after) = inr (omega arith)

    next :
        (dst ≤ src) ⊎ (src + suc (length s) < dst)
        → (dst + 1 ≤ src + 1) ⊎ (src + 1 + length s < dst + 1)
    next (inl before) = inl (omega arith)
    next (inr after) = inr (omega arith)
