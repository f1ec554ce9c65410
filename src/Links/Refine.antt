-- ===== src/Links/Refine.antt =====
-- The pointers of include/queue.h implement lists: `Rep` says which lists the heads stand for, and the
-- macros keep it as the operations on lists do.
use raspberry3_mos.Base.{
  ℕ, ◌≤◌, ◌≡◌, ◌≢◌, refl, subst, inl, inr, true, false, ◌==◌, none, some, List, [], ◌∷◌, ◌++◌, has,
  length, Bool-cases, arith,
}
use raspberry3_mos.Pmap.{update, update-same, update-other}
use raspberry3_mos.Sched.{insert_tail}
use raspberry3_mos.Links.{
  head, Links, list_init, list_insert_head, list_remove, Op, init, at_head, at_tail, remove_from,
  perform, perform_all,
}
use raspberry3_mos.Links.Spine.{Spine, Distinct, Spine-frame, remove}
use raspberry3_mos.Links.Insert.{
  Around, list_insert_head-Spine, list_insert_head-Around, list_insert_tail_lem,
}
use raspberry3_mos.Links.Remove.{list_remove-Spine, list_remove-Same}

-- The pointers are those of the lists `q`, by their heads; no element stands in two lists or twice in one.
pub record Rep (s : Links) (q : ℕ → List ℕ) : Type 0 where
  pub spines : (h : ℕ) → Spine s (head h) (q h)
  pub distinct : (h : ℕ) → Distinct (q h)
  pub single : (h k x : ℕ) → has x (q h) ≡ true → has x (q k) ≡ true → h ≡ k

-- What the macros do to the lists
unfoldable pub change : Op → (ℕ → List ℕ) → ℕ → List ℕ
change (init h) q = update q h []
change (at_head h e) q = update q h (e ∷ q h)
change (at_tail h e) q = update q h (insert_tail e (q h))
change (remove_from h e) q = update q h (remove e (q h))

unfoldable pub change_all : List Op → (ℕ → List ℕ) → ℕ → List ℕ
change_all [] q = q
change_all (o ∷ os) q = change_all os (change o q)

-- An element is inserted that is in no list, and removed from the list that it is in; `n` is the
-- length of a list at most, where it is run through.
unfoldable pub Allowed : ℕ → Op → (ℕ → List ℕ) → Type 0
Allowed n (init h) q = Unit {0}
Allowed n (at_head h e) q = (k : ℕ) → has e (q k) ≡ false
Allowed n (at_tail h e) q = ((k : ℕ) → has e (q k) ≡ false) × (length (q h) ≤ n)
Allowed n (remove_from h e) q = has e (q h) ≡ true

unfoldable pub AllAllowed : ℕ → List Op → (ℕ → List ℕ) → Type 0
AllAllowed n [] q = Unit {0}
AllAllowed n (o ∷ os) q = Allowed n o q × AllAllowed n os (change o q)

at-update :
    (P : ℕ → List ℕ → Type 0) (q : ℕ → List ℕ) (h : ℕ) (m : List ℕ) (k : ℕ)
    → P h m
    → (k ≢ h → P k (q k))
    → P k (update q h m k)
at-update P q h m k here there = elim (Bool-cases (k == h)) [
  | inl same ↦ let e : h ≡ k = ground arith in rw same (subst (λ (j : ℕ). P j m) e here)
  | inr other ↦ rw other (there (ground arith))
]

-- A change of the list `h`, whose new elements were in no other list
Rep-update :
    (s t : Links) (q : ℕ → List ℕ) (h : ℕ) (l m : List ℕ)
    → Rep s q
    → Around h l s t
    → ((k x : ℕ) → k ≢ h → has x (q k) ≡ true → has x l ≡ false)
    → Spine t (head h) m
    → Distinct m
    → ((k x : ℕ) → k ≢ h → has x (q k) ≡ true → has x m ≡ false)
    → Rep t (update q h m)
Rep-update s t q h l m rep around apart sp once new = record {
  spines = λ k.
      at-update (λ j a. Spine t (head j) a) q h m k sp
        (λ ne.
          Spine-frame s t (head k) (q k) (around.1 k ne)
            (λ x inside. around.0 x (apart k x ne inside)) (rep.spines k));
  distinct = λ k. at-update (λ j a. Distinct a) q h m k once (λ ne. rep.distinct k);
  single = λ i k x.
      at-update (λ j a. has x a ≡ true → has x (update q h m k) ≡ true → j ≡ k) q h m i
        (at-update (λ j a. has x m ≡ true → has x a ≡ true → h ≡ j) q h m k (λ a b. refl)
          (λ ne a b. let c = new k x ne b in absurd cc))
        (λ ni.
          at-update (λ j a. has x (q i) ≡ true → has x a ≡ true → i ≡ j) q h m k
            (λ a b. let c = new i x ni a in absurd cc) (λ nk. rep.single i k x));
}

has-remove : (x e : ℕ) (l : List ℕ) → has x l ≡ false → has x (remove e l) ≡ false
has-remove x e [] out = refl
has-remove x e (y ∷ l) out = ground (arith, has-remove x e l)

remove-Distinct : (e : ℕ) (l : List ℕ) → Distinct l → Distinct (remove e l)
remove-Distinct e [] once = once
remove-Distinct e (x ∷ l) once = elim (Bool-cases (e == x)) [
  | inl same ↦ rw same once.1
  | inr other ↦ rw other (has-remove x e l once.0, remove-Distinct e l once.1)
]

has-append : (x e : ℕ) (l : List ℕ) → has x l ≡ false → x ≢ e → has x (l ++ (e ∷ [])) ≡ false
has-append x e [] out ne = ground arith
has-append x e (y ∷ l) out ne = ground (arith, has-append x e l)

append-Distinct : (e : ℕ) (l : List ℕ) → Distinct l → has e l ≡ false → Distinct (l ++ (e ∷ []))
append-Distinct e [] once out = (refl, tt)
append-Distinct e (x ∷ l) once out =
    (has-append x e l once.0 (ground arith), append-Distinct e l once.1 (ground arith))

-- Of two lists with different heads, an element of one is not in the other.
other_list :
    (s : Links) (q : ℕ → List ℕ) (h k x : ℕ)
    → Rep s q
    → k ≢ h
    → has x (q k) ≡ true
    → has x (q h) ≡ false
other_list s q h k x rep ne inside = elim (Bool-cases (has x (q h))) [
  | inl both ↦ absurd (ne (rep.single k h x inside both))
  | inr out ↦ out
]

-- An element that is in no list is none of those in another one.
fresh :
    (s : Links) (q : ℕ → List ℕ) (h e k x : ℕ)
    → Rep s q
    → ((j : ℕ) → has e (q j) ≡ false)
    → k ≢ h
    → has x (q k) ≡ true
    → (x ≢ e) × (has x (q h) ≡ false)
fresh s q h e k x rep out ne inside = (
  λ same.
      let both : has e (q k) ≡ true = subst (λ (j : ℕ). has j (q k) ≡ true) same inside in
      let none_there = out k in absurd cc,
  other_list s q h k x rep ne inside,
)

perform-Rep :
    (n : ℕ) (o : Op) (s : Links) (q : ℕ → List ℕ)
    → Rep s q
    → Allowed n o q
    → (t : Links) × (perform n o s ≡ some t) × Rep t (change o q)
unfolding perform change Allowed list_init
perform-Rep n (init h) s q rep allowed = (
  list_init h s,
  refl,
  Rep-update s (list_init h s) q h [] [] rep
      (λ x out. (refl, refl), λ k ne. update-other s.lh_first h k none ne) (λ k x ne inside. refl)
      (update-same s.lh_first h h none refl) tt (λ k x ne inside. refl),
)
perform-Rep n (at_head h e) s q rep out = (
  list_insert_head h e s,
  refl,
  Rep-update s (list_insert_head h e s) q h (e ∷ q h) (e ∷ q h) rep
      (list_insert_head-Around s h e (q h) (rep.spines h))
      (λ k x ne inside.
        let new = fresh s q h e k x rep out ne inside in ground (arith, new.0, new.1))
      (list_insert_head-Spine s h e (q h) (rep.distinct h) (out h) (rep.spines h))
      (out h, rep.distinct h)
      (λ k x ne inside.
        let new = fresh s q h e k x rep out ne inside in ground (arith, new.0, new.1)),
)
perform-Rep n (at_tail h e) s q rep (out, long) =
    let (t, run, sp, around) =
      list_insert_tail_lem n h e (q h) s (rep.distinct h) (out h) (rep.spines h) long in
    (
      t,
      run,
      Rep-update s t q h (e ∷ q h) (q h ++ (e ∷ [])) rep around
          (λ k x ne inside.
            let new = fresh s q h e k x rep out ne inside in ground (arith, new.0, new.1))
          sp (append-Distinct e (q h) (rep.distinct h) (out h))
          (λ k x ne inside.
            let new = fresh s q h e k x rep out ne inside in has-append x e (q h) new.1 new.0),
    )
perform-Rep n (remove_from h e) s q rep inside = (
  list_remove e s,
  refl,
  Rep-update s (list_remove e s) q h (q h) (remove e (q h)) rep
      (list_remove-Same s h (q h) e (rep.spines h) inside)
      (λ k x ne here. other_list s q h k x rep ne here)
      (list_remove-Spine s (head h) (q h) e tt (rep.distinct h) (rep.spines h) inside)
      (remove-Distinct e (q h) (rep.distinct h))
      (λ k x ne here. has-remove x e (q h) (other_list s q h k x rep ne here)),
)

-- Any sequence of uses of the macros, in which an element is inserted that is in no list, and removed
-- from the list that it is in, runs to its end, and the pointers that it leaves are those of the lists
-- that the same operations on lists give. `n` is the length of a list at most whose tail is sought.
pub perform_all-Rep :
    (n : ℕ) (os : List Op) (s : Links) (q : ℕ → List ℕ)
    → Rep s q
    → AllAllowed n os q
    → (t : Links) × (perform_all n os s ≡ some t) × Rep t (change_all os q)
unfolding perform_all change_all AllAllowed
perform_all-Rep n [] s q rep allowed = (s, refl, rep)
perform_all-Rep n (o ∷ os) s q rep (one, rest) =
    let (t, run, kept) = perform-Rep n o s q rep one in
    let (u, runs, made) = perform_all-Rep n os t (change o q) kept rest in
    (u, rw (perform_all, run) runs, made)
