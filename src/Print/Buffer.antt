-- ===== src/Print/Buffer.antt =====
-- The loops of lib/print.c that fill, copy and reverse parts of a buffer.
use raspberry3_mos.Base.{
  ℕ, zero, suc, ◌+◌, ◌-◌, ◌≤◌, ◌<◌, ◌≡◌, refl, sym, ◌∙◌, ap, inl, inr, false, ◌&&◌, ltb, leb, ◌==◌,
  if◌then◌else◌, List, [], ◌∷◌, length, Bool-cases, arith,
}
use raspberry3_mos.Print.{fill, reverse, copy}

pub fill_lem :
    (n i c : ℕ) (buf : ℕ → ℕ) (j : ℕ)
    → fill n i c buf j ≡ (if leb i j && ltb j (i + n) then c else buf j)
unfolding fill
fill_lem zero i c buf j = ground arith
fill_lem (suc n) i c buf j =
    fill_lem n (i + 1) c (λ k. if k == i then c else buf k) j ∙ ground arith

-- The two characters that a round swaps.
swap_ends :
    (begin end j : ℕ) (buf : ℕ → ℕ)
    → begin < end
    → (leb (begin + 1) j && leb j (end - 1)) ≡ false
    → (if j == end then buf begin else (if j == begin then buf end else buf j))
      ≡ (if leb begin j && leb j end then buf (begin + end - j) else buf j)
swap_ends begin end j buf more out = elim (Bool-cases (j == end)) [
  | inl last ↦
      let pos : begin + end - j ≡ begin = ground arith in
      let same = ap buf pos in ground (arith, same)
  | inr inner ↦ elim (Bool-cases (j == begin)) [
    | inl first ↦
        let pos : (begin + end - j) ≡ end = ground arith in
        let same = ap buf pos in ground (arith, same)
    | inr other ↦ ground arith
  ]
]

middle :
    (begin end j : ℕ) (buf : ℕ → ℕ)
    → end ≤ begin
    → buf j ≡ (if leb begin j && leb j end then buf (begin + end - j) else buf j)
middle begin end j buf h = elim (Bool-cases (leb begin j && leb j end)) [
  | inl inside ↦ let pos : begin + end - j ≡ j = ground arith in rw inside (ap buf (sym pos))
  | inr out ↦ rw out refl
]

-- With one round for each two characters the loop reverses the characters from `begin` to `end`.
pub reverse_lem :
    (n begin end : ℕ) (buf : ℕ → ℕ) (j : ℕ)
    → end ≤ begin + n
    → reverse n begin end buf j
      ≡ (if leb begin j && leb j end then buf (begin + end - j) else buf j)
unfolding reverse
reverse_lem zero begin end buf j h = middle begin end j buf (omega arith)
reverse_lem (suc n) begin end buf j h = elim (Bool-cases (ltb begin end)) [
  | inl more ↦
      let pos : begin + 1 + (end - 1) - j ≡ begin + end - j = ground arith in
      let swapped =
        λ (k : ℕ). if k == end then buf begin else if k == begin then buf end else buf k in
      let rest = reverse_lem n (begin + 1) (end - 1) swapped j (ground arith) in
      rw more (
        rest ∙ elim (Bool-cases (leb (begin + 1) j && leb j (end - 1))) [
          | inl inside ↦ rw (inside, pos) (ground arith)
          | inr out ↦ rw out (swap_ends begin end j buf (ground arith) out)
        ])
  | inr done ↦ rw done (middle begin end j buf (ground arith))
]

-- The character of a string at a position
abbrev pub char_at : List ℕ → ℕ → ℕ
char_at [] k = 0
char_at (c ∷ s) zero = c
char_at (c ∷ s) (suc k) = char_at s k

pub copy_lem :
    (s : List ℕ) (i : ℕ) (buf : ℕ → ℕ) (j : ℕ)
    → copy s i buf j ≡ (if leb i j && ltb j (i + length s) then char_at s (j - i) else buf j)
unfolding copy
copy_lem [] i buf j = ground arith
copy_lem (c ∷ s) i buf j =
    copy_lem s (i + 1) (λ k. if k == i then c else buf k) j ∙ elim (Bool-cases (j == i)) [
      | inl here ↦
          let first : j - i ≡ 0 = ground arith in
          let same = ap (char_at (c ∷ s)) first in ground (arith, same)
      | inr other ↦ elim (Bool-cases (leb i j)) [
        | inl after ↦
            let later : j - i ≡ suc (j - (i + 1)) = ground arith in
            let same = ap (char_at (c ∷ s)) later in ground (arith, same)
        | inr before ↦ ground arith
      ]
    ]
