-- ===== src/Links/Spine.antt =====
-- When the pointers of include/queue.h from a place on are those of a list.
use raspberry3_mos.Base.{
  ℕ, ◌≡◌, ◌≢◌, refl, sym, subst, ◌∙◌, ap, inl, inr, true, false, ◌==◌, Option, none, some, List, [],
  ◌∷◌, has, if◌then◌else◌, Bool-cases, arith,
}
use raspberry3_mos.Pmap.{update-same, update-other}
use raspberry3_mos.Links.{Place, head, next, Links, load, store, set_prev}

-- The elements of the list are linked in both directions.
abbrev pub Spine : Links → Place → List ℕ → Type 0
Spine s p [] = load p s ≡ none
Spine s p (x ∷ l) = (load p s ≡ some x) × (s.le_prev x ≡ p) × Spine s (next x) l

abbrev pub Distinct : List ℕ → Type 0
Distinct [] = Unit {0}
Distinct (x ∷ l) = (has x l ≡ false) × Distinct l

-- The place is not in an element of the list.
abbrev pub Apart : Place → List ℕ → Type 0
Apart (head h) l = Unit {0}
Apart (next d) l = has d l ≡ false

-- The two states agree on the element.
abbrev pub Same : Links → Links → ℕ → Type 0
Same s t x = (t.le_next x ≡ s.le_next x) × (t.le_prev x ≡ s.le_prev x)

pub has-ne : (x y : ℕ) (l : List ℕ) → has x l ≡ true → has y l ≡ false → x ≢ y
has-ne x y l h n e = let both : has y l ≡ true = subst (λ (k : ℕ). has k l ≡ true) e h in absurd cc

pub Spine-frame :
    (s t : Links) (p : Place) (l : List ℕ)
    → load p t ≡ load p s
    → ((x : ℕ) → has x l ≡ true → Same s t x)
    → Spine s p l
    → Spine t p l
Spine-frame s t p [] same others sp = same ∙ sp
Spine-frame s t p (x ∷ l) same others (first, back, rest) =
    let here = others x ground arith in
    (
      same ∙ first,
      here.1 ∙ back,
      Spine-frame s t (next x) l here.0 (λ y h. others y (ground arith)) rest,
    )

-- What a place reads after a write of another element's pointer
pub load-next :
    (p : Place) (d : ℕ) (v : Option ℕ) (s : Links) (l : List ℕ)
    → Apart p l
    → has d l ≡ true
    → load p (store (next d) v s) ≡ load p s
load-next (head h) d v s l apart in_list = refl
load-next (next e) d v s l apart in_list =
    update-other s.le_next d e v (λ q. has-ne d e l in_list apart (sym q))

pub load-store : (p : Place) (v : Option ℕ) (s : Links) → load p (store p v s) ≡ v
load-store (head h) v s = update-same s.lh_first h h v refl
load-store (next d) v s = update-same s.le_next d d v refl

pub prev-store : (p : Place) (v : Option ℕ) (s : Links) → (store p v s).le_prev ≡ s.le_prev
prev-store (head h) v s = refl
prev-store (next d) v s = refl

-- A write at a place, seen from an element that it is not in
pub next-store :
    (p : Place) (v : Option ℕ) (s : Links) (x : ℕ)
    → p ≢ next x
    → (store p v s).le_next x ≡ s.le_next x
next-store (head h) v s x ne = refl
next-store (next d) v s x ne = update-other s.le_next d x v (λ q. ne (ap next (sym q)))

pub Apart-ne : (p : Place) (x : ℕ) (l : List ℕ) → Apart p l → has x l ≡ true → p ≢ next x
Apart-ne (head h) x l apart inside e = absurd cc
Apart-ne (next d) x l apart inside e = let same : d ≡ x = cc in has-ne x d l inside apart (sym same)

pub Apart-rest : (p : Place) (x : ℕ) (l : List ℕ) → Apart p (x ∷ l) → Apart p l
Apart-rest (head h) x l apart = tt
Apart-rest (next d) x l apart = ground arith

-- The place `p` is made to point to `f`, and `f` back to it.
abbrev pub link : Place → ℕ → Links → Links
link p f s = store p (some f) (set_prev f p s)

pub link-Spine :
    (s : Links) (p : Place) (f : ℕ) (r : List ℕ)
    → Apart p (f ∷ r)
    → has f r ≡ false
    → Spine s (next f) r
    → Spine (link p f s) p (f ∷ r)
link-Spine s p f r apart once rest =
    let t = set_prev f p s in
    let back : (store p (some f) t).le_prev f ≡ p =
      ap (λ (g : ℕ → Place). g f) (prev-store p (some f) t) ∙ update-same s.le_prev f f p refl in
    (
      load-store p (some f) t,
      back,
      Spine-frame s (store p (some f) t) (next f) r
          (next-store p (some f) t f (Apart-ne p f (f ∷ r) apart (ground arith)))
          (λ x inside. (
            next-store p (some f) t x (Apart-ne p x (f ∷ r) apart (ground arith)),
            ap (λ (g : ℕ → Place). g x) (prev-store p (some f) t)
                ∙ update-other s.le_prev f x p (has-ne x f r inside once),
          ))
          rest,
    )

abbrev pub remove : ℕ → List ℕ → List ℕ
remove e [] = []
remove e (x ∷ l) = let rest = remove e l in if e == x then l else x ∷ rest

-- The element of a list is linked to its successor in the list and to a place before it.
pub has-next :
    (s : Links) (p : Place) (l : List ℕ) (e f : ℕ)
    → Spine s p l
    → has e l ≡ true
    → s.le_next e ≡ some f
    → has f l ≡ true
has-next s p [] e f sp inside step = absurd cc
has-next s p (x ∷ []) e f (first, back, rest) inside step =
    let same : e ≡ x = ground arith in absurd cc
has-next s p (x ∷ y ∷ l) e f (first, back, rest) inside step = elim (Bool-cases (e == x)) [
  | inl same ↦ let q : e ≡ x = ground arith in let successor : f ≡ y = cc in ground arith
  | inr other ↦ let later = has-next s (next x) (y ∷ l) e f rest (ground arith) step in ground arith
]
