-- ===== src/Links/Remove.antt =====
-- `LIST_REMOVE` (include/queue.h) on the pointers of a list.
use raspberry3_mos.Base.{
  ℕ, ◌≡◌, ◌≢◌, refl, sym, subst, ◌∙◌, ap, ◌⊎◌, inl, inr, true, false, ◌==◌, Option, none, some,
  List, [], ◌∷◌, has, Bool-cases, arith,
}
use raspberry3_mos.Pmap.{update-other}
use raspberry3_mos.Links.{Place, head, next, Links, load, store, set_prev_of, list_remove}
use raspberry3_mos.Links.Spine.{
  Spine, Distinct, Apart, Same, has-ne, load-store, prev-store, Apart-ne, Apart-rest, link-Spine,
  remove, has-next,
}

-- `LIST_REMOVE` of an element whose pointers are known
abbrev unlink : Place → Option ℕ → Links → Links
unlink p v s = store p v (set_prev_of v p s)

unlink-Spine :
    (s : Links) (p : Place) (e : ℕ) (l : List ℕ)
    → Apart p (e ∷ l)
    → Distinct l
    → Spine s (next e) l
    → Spine (unlink p (s.le_next e) s) p l
unlink-Spine s p e [] apart once sp =
    subst (λ (v : Option ℕ). load p (unlink p v s) ≡ none) (sym sp) (load-store p none s)
unlink-Spine s p e (f ∷ r) apart once (first, back, rest) =
    subst (λ (v : Option ℕ). Spine (unlink p v s) p (f ∷ r)) (sym first)
      (link-Spine s p f r (Apart-rest p e (f ∷ r) apart) once.0 rest)

has-later : (x y : ℕ) (l : List ℕ) → has y l ≡ true → has y (x ∷ l) ≡ true
has-later x y l h = ground arith

load-other : (p q : Place) (v : Option ℕ) (s : Links) → p ≢ q → load p (store q v s) ≡ load p s
load-other (head h) (head k) v s ne = update-other s.lh_first k h v (λ e. ne (ap head e))
load-other (head h) (next d) v s ne = refl
load-other (next d) (head h) v s ne = refl
load-other (next d) (next e) v s ne = update-other s.le_next e d v (λ q. ne (ap next q))

load-prev : (p q : Place) (v : Option ℕ) (s : Links) → load p (set_prev_of v q s) ≡ load p s
load-prev (head h) q none s = refl
load-prev (head h) q (some e) s = refl
load-prev (next d) q none s = refl
load-prev (next d) q (some e) s = refl

prev-kept :
    (s : Links) (p : Place) (v : Option ℕ) (x : ℕ)
    → ((f : ℕ) → v ≡ some f → f ≢ x)
    → (set_prev_of v p s).le_prev x ≡ s.le_prev x
prev-kept s p none x ne = refl
prev-kept s p (some f) x ne = update-other s.le_prev f x p (λ e. ne f refl (sym e))

pub list_remove-load :
    (s : Links) (e : ℕ) (p : Place) → p ≢ s.le_prev e → load p (list_remove e s) ≡ load p s
unfolding list_remove
list_remove-load s e p ne =
    load-other p (s.le_prev e) (s.le_next e) (set_prev_of (s.le_next e) (s.le_prev e) s) ne
    ∙ load-prev p (s.le_prev e) (s.le_next e) s

pub list_remove-prev :
    (s : Links) (e x : ℕ)
    → ((f : ℕ) → s.le_next e ≡ some f → f ≢ x)
    → (list_remove e s).le_prev x ≡ s.le_prev x
unfolding list_remove
list_remove-prev s e x ne =
    ap (λ (g : ℕ → Place). g x)
      (prev-store (s.le_prev e) (s.le_next e) (set_prev_of (s.le_next e) (s.le_prev e) s))
    ∙ prev-kept s (s.le_prev e) (s.le_next e) x ne

-- The place of an element behind the first is the link of an element before it.
has-prev :
    (s : Links) (x : ℕ) (l : List ℕ) (e : ℕ)
    → Spine s (next x) l
    → has e l ≡ true
    → (y : ℕ) × (s.le_prev e ≡ next y) × (has y (x ∷ l) ≡ true)
has-prev s x [] e sp inside = absurd cc
has-prev s x (z ∷ l) e (first, back, rest) inside = elim (Bool-cases (e == z)) [
  | inl same ↦ let q : e ≡ z = ground arith in (x, cc, ground arith)
  | inr other ↦
      let found = has-prev s z l e rest (ground arith) in
      (found.0, found.1, has-later x found.0 (z ∷ l) found.2)
]

remove_here :
    (s : Links) (p : Place) (x : ℕ) (l : List ℕ)
    → Apart p (x ∷ l)
    → Distinct l
    → s.le_prev x ≡ p
    → Spine s (next x) l
    → Spine (list_remove x s) p l
unfolding list_remove
remove_here s p x l apart once back rest =
    subst (λ (q : Place). Spine (unlink q (s.le_next x) s) p l) (sym back)
      (unlink-Spine s p x l apart once rest)

-- `LIST_REMOVE` takes the element out of the list that it is in.
pub list_remove-Spine :
    (s : Links) (p : Place) (l : List ℕ) (e : ℕ)
    → Apart p l
    → Distinct l
    → Spine s p l
    → has e l ≡ true
    → Spine (list_remove e s) p (remove e l)
list_remove-Spine s p [] e apart once sp inside = absurd cc
list_remove-Spine s p (x ∷ l) e apart once (first, back, rest) inside = elim (Bool-cases (e == x)) [
  | inl same ↦
      let q : x ≡ e = ground arith in
      rw same (
        subst (λ (k : ℕ). Spine (list_remove k s) p l) q
          (remove_here s p x l apart once.1 back rest))
  | inr other ↦
      let here : has e l ≡ true = ground arith in
      let (y, place, before) = has-prev s x l e rest here in
      rw other (
        list_remove-load s e p (λ e. Apart-ne p y (x ∷ l) apart before (e ∙ place)) ∙ first,
        list_remove-prev s e x
              (λ f step. has-ne f x l (has-next s (next x) l e f rest here step) once.0)
            ∙ back,
        list_remove-Spine s (next x) l e once.0 once.1 rest here,
      )
]

-- The place of an element of a list
place_of :
    (s : Links) (h : ℕ) (l : List ℕ) (e : ℕ)
    → Spine s (head h) l
    → has e l ≡ true
    → (s.le_prev e ≡ head h) ⊎ ((y : ℕ) × (s.le_prev e ≡ next y) × (has y l ≡ true))
place_of s h [] e sp inside = absurd cc
place_of s h (z ∷ l) e (first, back, rest) inside = elim (Bool-cases (e == z)) [
  | inl same ↦ let q : e ≡ z = ground arith in inl cc
  | inr other ↦ inr (has-prev s z l e rest (ground arith))
]

-- It changes no other element, and no head of another list.
pub list_remove-Same :
    (s : Links) (h : ℕ) (l : List ℕ) (e : ℕ)
    → Spine s (head h) l
    → has e l ≡ true
    → ((x : ℕ) → has x l ≡ false → Same s (list_remove e s) x)
      × ((k : ℕ) → k ≢ h → (list_remove e s).lh_first k ≡ s.lh_first k)
list_remove-Same s h l e sp inside =
    let place = place_of s h l e sp inside in
    (
      λ x out. (
        list_remove-load s e (next x) (elim place [
          | inl first ↦ λ q. absurd cc
          | inr (y, back, before) ↦ λ q. has-ne y x l before out cc
        ]),
        list_remove-prev s e x
            (λ f step. has-ne f x l (has-next s (head h) l e f sp inside step) out),
      ),
      λ k ne.
          list_remove-load s e (head k)
            (elim place [ inl first ↦ λ q. ne cc | inr (y, back, before) ↦ λ q. absurd cc ]),
    )
