-- ===== src/Links/Insert.antt =====
-- `LIST_INSERT_HEAD`, `LIST_INSERT_AFTER` and `LIST_INSERT_TAIL` (include/queue.h) on the pointers of a list.
use raspberry3_mos.Base.{
  ℕ, zero, suc, ◌<◌, ◌≤◌, ◌≡◌, ◌≢◌, refl, sym, subst, ◌∙◌, ap, fun_ext, true, false, Option, none,
  some, List, [], ◌∷◌, ◌++◌, has, length, arith,
}
use raspberry3_mos.Pmap.{update, update-same, update-other}
use raspberry3_mos.Links.{
  Place, head, next, Links, load, store, set_prev, set_prev_of, list_insert_head, list_insert_tail,
  seek_tail, link_tail,
}
use raspberry3_mos.Links.Spine.{Spine, Distinct, Apart, Same, has-ne, load-store, link, link-Spine}

-- `LIST_INSERT_HEAD` for the first element `v`
abbrev insert_before : Option ℕ → ℕ → ℕ → Links → Links
insert_before v h e s =
    set_prev e (head h) (store (head h) (some e) (set_prev_of v (next e) (store (next e) v s)))

pub list_insert_head-Spine :
    (s : Links) (h e : ℕ) (l : List ℕ)
    → Distinct l
    → has e l ≡ false
    → Spine s (head h) l
    → Spine (list_insert_head h e s) (head h) (e ∷ l)
unfolding list_insert_head
list_insert_head-Spine s h e [] once out sp =
    subst (λ (v : Option ℕ). Spine (insert_before v h e s) (head h) (e ∷ [])) (sym sp)
      (link-Spine (store (next e) none s) (head h) e [] tt refl (load-store (next e) none s))
list_insert_head-Spine s h e (f ∷ r) once out (first, back, rest) =
    let inner = link-Spine s (next e) f r out once.0 rest in
    subst (λ (v : Option ℕ). Spine (insert_before v h e s) (head h) (e ∷ f ∷ r)) (sym first)
      (link-Spine (link (next e) f s) (head h) e (f ∷ r) tt out inner)

-- The elements outside the list, and the other heads, are as before.
abbrev pub Around : ℕ → List ℕ → Links → Links → Type 0
Around h l s t =
    ((x : ℕ) → has x l ≡ false → Same s t x) × ((k : ℕ) → k ≢ h → t.lh_first k ≡ s.lh_first k)

pub list_insert_head-Around :
    (s : Links) (h e : ℕ) (l : List ℕ)
    → Spine s (head h) l
    → Around h (e ∷ l) s (list_insert_head h e s)
unfolding list_insert_head
list_insert_head-Around s h e [] sp =
    subst (λ (v : Option ℕ). Around h (e ∷ []) s (insert_before v h e s)) (sym sp)
      (
        λ x out.
            let ne : x ≢ e = ground arith in
            (update-other s.le_next e x none ne, update-other s.le_prev e x (head h) ne),
        λ k ne. update-other s.lh_first h k (some e) ne,
      )
list_insert_head-Around s h e (f ∷ r) (first, back, rest) =
    subst (λ (v : Option ℕ). Around h (e ∷ f ∷ r) s (insert_before v h e s)) (sym first)
      (
        λ x out.
            let ne : x ≢ e = ground arith in
            let nf : x ≢ f = ground arith in
            (
              update-other s.le_next e x (some f) ne,
              update-other (update s.le_prev f (next e)) e x (head h) ne
                  ∙ update-other s.le_prev f x (next e) nf,
            ),
        λ k ne. update-other s.lh_first h k (some e) ne,
      )

abbrev last : ℕ → List ℕ → ℕ
last x [] = x
last x (y ∷ r) = last y r

has-last : (x : ℕ) (r : List ℕ) → has (last x r) (x ∷ r) ≡ true
has-last x [] = ground arith
has-last x (y ∷ r) = ground (arith, has-last y r)

store-store :
    (e : ℕ) (v w : Option ℕ) (s : Links)
    → store (next e) w (store (next e) v s) ≡ store (next e) w s
store-store e v w s =
    let same : update (update s.le_next e v) e w ≡ update s.le_next e w =
      fun_ext (λ j. ground arith) in
    ap (λ (f : ℕ → Option ℕ). record s { le_next = f }) same

seek_stop :
    (n e x : ℕ) (u : Links)
    → u.le_next e ≡ some x
    → u.le_next x ≡ none
    → seek_tail (suc n) e u ≡ some u
unfolding seek_tail
seek_stop n e x u h g = rw (seek_tail, h) (rw g refl)

seek_go :
    (n e x y : ℕ) (u : Links)
    → u.le_next e ≡ some x
    → u.le_next x ≡ some y
    → seek_tail (suc n) e u ≡ seek_tail n e (store (next e) (some y) u)
unfolding seek_tail
seek_go n e x y u h g = rw (seek_tail, h) (rw g refl)

-- The loop of `LIST_INSERT_TAIL` ends at the last element.
seek_tail_lem :
    (n e x : ℕ) (r : List ℕ) (s : Links)
    → Spine s (next x) r
    → has e (x ∷ r) ≡ false
    → length r < n
    → seek_tail n e (store (next e) (some x) s) ≡ some (store (next e) (some (last x r)) s)
seek_tail_lem zero e x r s sp out l = absurd (omega arith)
seek_tail_lem (suc n) e x [] s sp out l =
    let ne : x ≢ e = ground arith in
    seek_stop n e x (store (next e) (some x) s) (load-store (next e) (some x) s)
      (update-other s.le_next e x (some x) ne ∙ sp)
seek_tail_lem (suc n) e x (y ∷ r) s (first, back, rest) out l =
    let ne : x ≢ e = ground arith in
    seek_go n e x y (store (next e) (some x) s) (load-store (next e) (some x) s)
      (update-other s.le_next e x (some x) ne ∙ first)
    ∙ ap (seek_tail n e) (store-store e (some x) (some y) s)
    ∙ seek_tail_lem n e y r s rest (ground arith) (omega arith)

-- The state `t` has `e` behind the element `y` of the state `s`.
record Appended (s : Links) (y e : ℕ) (t : Links) : Type 0 where
  heads : (h : ℕ) → t.lh_first h ≡ s.lh_first h
  ends : t.le_next e ≡ none
  back : t.le_prev e ≡ next y
  joins : t.le_next y ≡ some e
  nexts : (x : ℕ) → x ≢ e → x ≢ y → t.le_next x ≡ s.le_next x
  prevs : (x : ℕ) → x ≢ e → t.le_prev x ≡ s.le_prev x

-- What `LIST_INSERT_TAIL` writes, where the last element is `y`
abbrev append : ℕ → ℕ → Links → Links
append y e s =
    let t = store (next e) (some y) s in
    store (next e) none (set_prev e (next y) (store (next y) (some e) t))

append-Appended : (s : Links) (y e : ℕ) → y ≢ e → Appended s y e (append y e s)
append-Appended s y e ne =
    let once = update s.le_next e (some y) in
    let twice = update once y (some e) in
    record {
      heads = λ h. refl;
      ends = update-same twice e e none refl;
      back = update-same s.le_prev e e (next y) refl;
      joins = update-other twice e y none ne ∙ update-same once y y (some e) refl;
      nexts = λ x a b.
          update-other twice e x none a
          ∙ update-other once y x (some e) b
          ∙ update-other s.le_next e x (some y) a;
      prevs = λ x a. update-other s.le_prev e x (next y) a;
    }

Appended-load :
    (s t : Links) (p : Place) (e x : ℕ) (r : List ℕ)
    → Appended s (last x r) e t
    → Apart p (e ∷ x ∷ r)
    → load p t ≡ load p s
Appended-load s t (head h) e x r made apart = made.heads h
Appended-load s t (next d) e x r made apart =
    let inside : has (last x r) (e ∷ x ∷ r) ≡ true = ground (arith, has-last x r) in
    made.nexts d (ground arith) (λ q. has-ne (last x r) d (e ∷ x ∷ r) inside apart (sym q))

Appended-Spine :
    (s t : Links) (p : Place) (e x : ℕ) (r : List ℕ)
    → Appended s (last x r) e t
    → Apart p (e ∷ x ∷ r)
    → Distinct (x ∷ r)
    → has e (x ∷ r) ≡ false
    → Spine s p (x ∷ r)
    → Spine t p ((x ∷ r) ++ (e ∷ []))
Appended-Spine s t p e x [] made apart once out (first, back, rest) = (
  Appended-load s t p e x [] made apart ∙ first,
  made.prevs x (ground arith) ∙ back,
  (made.joins, made.back, made.ends),
)
Appended-Spine s t p e x (z ∷ r) made apart once out (first, back, rest) = (
  Appended-load s t p e x (z ∷ r) made apart ∙ first,
  made.prevs x (ground arith) ∙ back,
  Appended-Spine s t (next x) e z r made (ground (arith, once.0)) once.1 (ground arith) rest,
)

link_step :
    (e x : ℕ) (u : Links)
    → u.le_next e ≡ some x
    → link_tail e u ≡ some (store (next e) none (set_prev e (next x) (store (next x) (some e) u)))
unfolding link_tail
link_step e x u h = rw (link_tail, h) refl

insert_tail_none :
    (n h e : ℕ) (s : Links)
    → s.lh_first h ≡ none
    → list_insert_tail n h e s ≡ some (list_insert_head h e s)
unfolding list_insert_tail
insert_tail_none n h e s first = rw (list_insert_tail, first) refl

insert_tail_some :
    (n h e x : ℕ) (s t : Links)
    → s.lh_first h ≡ some x
    → seek_tail n e (store (next e) (some x) s) ≡ some t
    → list_insert_tail n h e s ≡ link_tail e t
unfolding list_insert_tail
insert_tail_some n h e x s t first found = rw (list_insert_tail, first) (rw found refl)

insert_tail_run :
    (n h e x : ℕ) (r : List ℕ) (s : Links)
    → s.lh_first h ≡ some x
    → Spine s (next x) r
    → has e (x ∷ r) ≡ false
    → length r < n
    → list_insert_tail n h e s ≡ some (append (last x r) e s)
insert_tail_run n h e x r s first rest out l =
    let t = store (next e) (some (last x r)) s in
    insert_tail_some n h e x s t first (seek_tail_lem n e x r s rest out l)
    ∙ link_step e (last x r) t (load-store (next e) (some (last x r)) s)

-- `LIST_INSERT_TAIL` puts the element at the end, in as many rounds as the list has elements.
pub list_insert_tail_lem :
    (n h e : ℕ) (l : List ℕ) (s : Links)
    → Distinct l
    → has e l ≡ false
    → Spine s (head h) l
    → length l ≤ n
    → (t : Links) × (list_insert_tail n h e s ≡ some t)
      × Spine t (head h) (l ++ (e ∷ []))
      × Around h (e ∷ l) s t
list_insert_tail_lem n h e [] s once out sp long = (
  list_insert_head h e s,
  insert_tail_none n h e s sp,
  list_insert_head-Spine s h e [] tt out sp,
  list_insert_head-Around s h e [] sp,
)
list_insert_tail_lem n h e (x ∷ r) s once out (first, back, rest) long =
    let ends : last x r ≢ e = has-ne (last x r) e (x ∷ r) (has-last x r) out in
    let made : Appended s (last x r) e (append (last x r) e s) =
      append-Appended s (last x r) e ends in
    (
      append (last x r) e s,
      insert_tail_run n h e x r s first rest out (omega arith),
      Appended-Spine s (append (last x r) e s) (head h) e x r made tt once out (first, back, rest),
      (
        λ y gone.
            let ne : y ≢ e = ground arith in
            let away : has y (x ∷ r) ≡ false = ground arith in
            (
              made.nexts y ne (λ q. has-ne (last x r) y (x ∷ r) (has-last x r) away (sym q)),
              made.prevs y ne,
            ),
        λ k ne. made.heads k,
      ),
    )
