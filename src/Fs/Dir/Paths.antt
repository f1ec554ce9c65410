-- ===== src/Fs/Dir/Paths.antt =====
-- `walk_path` (fs/fs.c) against a walk over the names of a path.
use mathlib.Core.List.{append_assoc, append-nil}
use raspberry3_mos.Base.{
  ℕ, zero, suc, ◌+◌, ◌≤◌, ◌<◌, ◌≡◌, refl, sym, ◌∙◌, ap, inl, inr, Bool, true, false, leb, ◌==◌,
  if◌then◌else◌, Bool-cases, arith, List, [], ◌∷◌, ◌++◌, length,
}
use raspberry3_mos.Fs.{Fs, Outcome, ok, err, panics, faults, M}
use raspberry3_mos.Fs.File.{e_not_found, field, f_type}
use raspberry3_mos.Fs.Dir.{
  e_bad_path, ftype_dir, maxnamelen, slash, dir_lookup, skip_slash, split_name, Walk, found,
  missing, failed, not_found, walk_names, walk_path,
}

-- The names of a path, with the characters of an unfinished one in front.
abbrev pub words : List ℕ → List ℕ → List (List ℕ)
words [] [] = []
words (d ∷ name) [] = (d ∷ name) ∷ []
words [] (c ∷ p) = if c == slash then words [] p else words (c ∷ []) p
words (d ∷ name) (c ∷ p) =
    if c == slash then (d ∷ name) ∷ words [] p else words ((d ∷ name) ++ (c ∷ [])) p

-- An error at a name, with the names behind it
abbrev pub miss : ℕ → List ℕ → List (List ℕ) → ℕ → Walk
miss dir name [] r = if r == e_not_found then missing dir name else failed r
miss dir name (n ∷ names) r = failed r

-- The walk from the file `file` in `dir` along names.
unfoldable pub walk_words : List (List ℕ) → ℕ → ℕ → M Walk
walk_words [] dir file s = ok (found dir file) s
walk_words (name ∷ names) dir file s = elim (leb maxnamelen (length name)) [
  | true ↦ ok (failed e_bad_path) s
  | false ↦ elim (field file f_type s == ftype_dir) [
    | false ↦ ok (failed e_not_found) s
    | true ↦ elim (dir_lookup file name s) [
      | ok f t ↦ walk_words names file f t
      | err r t ↦ ok (miss file name names r) t
      | panics ↦ panics
      | faults ↦ faults
    ]
  ]
]

words-skip_slash : (p : List ℕ) → words [] (skip_slash p) ≡ words [] p
unfolding skip_slash
words-skip_slash [] = refl
words-skip_slash (c ∷ p) = elim (Bool-cases (c == slash)) [
  | inl cut ↦ rw cut (words-skip_slash p)
  | inr other ↦ rw other (rw other refl)
]

-- A name that has begun ends at the next slash.
words-split_name :
    (d : ℕ) (name p : List ℕ)
    → words (d ∷ name) p ≡ ((d ∷ name) ++ (split_name p).0) ∷ words [] (skip_slash (split_name p).1)
unfolding split_name
words-split_name d name [] =
    ap (λ (q : List ℕ). (d ∷ q) ∷ []) (sym (append-nil name))
    ∙ ap (λ (r : List (List ℕ)). (d ∷ (name ++ [])) ∷ r) (sym (words-skip_slash []))
words-split_name d name (c ∷ p) = elim (Bool-cases (c == slash)) [
  | inl cut ↦
      let rest : words [] (skip_slash (c ∷ p)) ≡ words [] p =
        words-skip_slash (c ∷ p) ∙ rw cut refl in
      rw cut (
        ap (λ (q : List ℕ). (d ∷ q) ∷ words [] p) (sym (append-nil name))
        ∙ ap (λ (r : List (List ℕ)). (d ∷ (name ++ [])) ∷ r) (sym rest))
  | inr other ↦ rw other (
      words-split_name d (name ++ (c ∷ [])) p
      ∙ ap (λ (q : List ℕ). (d ∷ q) ∷ words [] (skip_slash (split_name p).1))
          (append_assoc name (c ∷ []) (split_name p).0))
]

abbrev starts_slash : List ℕ → Bool
starts_slash [] = false
starts_slash (c ∷ p) = c == slash

starts_slash-skip_slash : (p : List ℕ) → starts_slash (skip_slash p) ≡ false
unfolding skip_slash
starts_slash-skip_slash [] = refl
starts_slash-skip_slash (c ∷ p) = elim (Bool-cases (c == slash)) [
  | inl cut ↦ rw cut (starts_slash-skip_slash p)
  | inr other ↦ rw other other
]

length-skip_slash : (p : List ℕ) → length (skip_slash p) ≤ length p
unfolding skip_slash
length-skip_slash [] = omega arith
length-skip_slash (c ∷ p) = ground (arith, length-skip_slash p)

length-split_name : (p : List ℕ) → length (split_name p).1 ≤ length p
unfolding split_name
length-split_name [] = omega arith
length-split_name (c ∷ p) = ground (arith, length-split_name p)

shorter_name :
    (c : ℕ) (p : List ℕ) → (c == slash) ≡ false → length (split_name (c ∷ p)).1 ≤ length p
unfolding split_name
shorter_name c p other = rw other (length-split_name p)

-- The first name of a path that does not start with a slash
words-first :
    (c : ℕ) (p : List ℕ)
    → (c == slash) ≡ false
    → words [] (c ∷ p) ≡ (split_name (c ∷ p)).0 ∷ words [] (skip_slash (split_name (c ∷ p)).1)
unfolding split_name
words-first c p other = rw other (words-split_name c [] p)

miss-not_found :
    (dir : ℕ) (name p : List ℕ) (r : ℕ)
    → starts_slash p ≡ false
    → not_found dir name p r ≡ miss dir name (words [] p) r
unfolding not_found
miss-not_found dir name [] r h = refl
miss-not_found dir name (c ∷ p) r h = rw (words-first c p h) refl

-- One round, with the rest of the walk given
round-words :
    (n c : ℕ) (p : List ℕ) (dir file : ℕ) (s : Fs)
    → (c == slash) ≡ false
    → ((f : ℕ) (t : Fs)
        → walk_names n (skip_slash (split_name (c ∷ p)).1) file f t
          ≡ walk_words (words [] (skip_slash (split_name (c ∷ p)).1)) file f t)
    → walk_names (suc n) (c ∷ p) dir file s
      ≡ walk_words
          ((split_name (c ∷ p)).0 ∷ words [] (skip_slash (split_name (c ∷ p)).1))
          dir
          file
          s
unfolding walk_names walk_words
round-words n c p dir file s other rest =
    let name = (split_name (c ∷ p)).0 in
    elim (Bool-cases (leb maxnamelen (length name))) [
      | inl long ↦ rw (walk_names, walk_words, long) refl
      | inr short ↦ elim (Bool-cases (field file f_type s == ftype_dir)) [
        | inr plain ↦ rw (walk_names, walk_words, short, plain) refl
        | inl is_dir ↦
            rw (walk_names, walk_words, short, is_dir) (by_lookup (dir_lookup file name s))
      ]
    ]
  where
    by_lookup :
        (r : Outcome ℕ)
        → (elim r [
          | ok f t ↦ walk_names n (skip_slash (split_name (c ∷ p)).1) file f t
          | err r t ↦
              ok (not_found file (split_name (c ∷ p)).0 (skip_slash (split_name (c ∷ p)).1) r) t
          | panics ↦ panics
          | faults ↦ faults
        ])
          ≡ (elim r [
            | ok f t ↦ walk_words (words [] (skip_slash (split_name (c ∷ p)).1)) file f t
            | err r t ↦
                ok
                  (miss file
                    (split_name (c ∷ p)).0
                    (words [] (skip_slash (split_name (c ∷ p)).1))
                    r)
                  t
            | panics ↦ panics
            | faults ↦ faults
          ])
    by_lookup (ok f t) = rest f t
    by_lookup (err r t) =
        ap (λ (w : Walk). ok w t)
          (miss-not_found file (split_name (c ∷ p)).0 (skip_slash (split_name (c ∷ p)).1) r
            (starts_slash-skip_slash (split_name (c ∷ p)).1))
    by_lookup panics = refl
    by_lookup faults = refl

walk_names-words :
    (n : ℕ) (path : List ℕ) (dir file : ℕ) (s : Fs)
    → length path < n
    → starts_slash path ≡ false
    → walk_names n path dir file s ≡ walk_words (words [] path) dir file s
unfolding walk_names walk_words
walk_names-words zero path dir file s h other = absurd (omega arith)
walk_names-words (suc n) [] dir file s h other = refl
walk_names-words (suc n) (c ∷ p) dir file s h other =
    let rest = skip_slash (split_name (c ∷ p)).1 in
    let shorter : length rest < n =
      omega (arith, length-skip_slash (split_name (c ∷ p)).1, shorter_name c p other) in
    rw (words-first c p other) (
      round-words n c p dir file s other (λ f t.
        walk_names-words n rest file f t shorter (starts_slash-skip_slash (split_name (c ∷ p)).1)))

-- `walk_path` is the walk from the root along the names between the slashes of the path, however many
-- slashes stand together: it never runs out of fuel.
pub walk_path-words :
    (path : List ℕ) (s : Fs) → walk_path path s ≡ walk_words (words [] path) 0 (s.super + 8) s
unfolding walk_path
walk_path-words path s =
    walk_names-words (suc (length path)) (skip_slash path) 0 (s.super + 8) s
      (omega (arith, length-skip_slash path)) (starts_slash-skip_slash path)
    ∙ ap (λ (w : List (List ℕ)). walk_words w 0 (s.super + 8) s) (words-skip_slash path)
