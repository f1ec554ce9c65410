-- ===== src/Links.antt =====
-- The pointers of the intrusive lists (include/queue.h), for one link field of the elements. An
-- element is a number; a null pointer is `none`. The macros of a head and an element change the
-- pointers in the order of the code.
pub mod Spine
pub mod Remove
pub mod Insert
pub mod Refine
mod Tests
use raspberry3_mos.Base.{ℕ, zero, suc, ◌==◌, Option, none, some, List, [], ◌∷◌, if◌then◌else◌}
use raspberry3_mos.Pmap.{update}

-- Where a pointer to an element stands: `lh_first` of a list, or `le_next` of an element
pub data Place : Type 0 where
  head : ℕ → Place
  next : ℕ → Place

pub record Links : Type 0 where
  pub lh_first : ℕ → Option ℕ
  pub le_next : ℕ → Option ℕ
  pub le_prev : ℕ → Place

-- `*p`, and `*p = v`
abbrev pub load : Place → Links → Option ℕ
load (head h) s = s.lh_first h
load (next e) s = s.le_next e

abbrev pub store : Place → Option ℕ → Links → Links
store (head h) v s = record s { lh_first = update s.lh_first h v }
store (next e) v s = record s { le_next = update s.le_next e v }

abbrev pub set_prev : ℕ → Place → Links → Links
set_prev e p s = record s { le_prev = update s.le_prev e p }

-- `if (v) v->field.le_prev = p`
abbrev pub set_prev_of : Option ℕ → Place → Links → Links
set_prev_of none p s = s
set_prev_of (some e) p s = set_prev e p s

unfoldable pub list_init : ℕ → Links → Links
list_init h s = store (head h) none s

unfoldable pub list_insert_head : ℕ → ℕ → Links → Links
list_insert_head h e s =
    let linked = store (next e) (s.lh_first h) s in
    set_prev e (head h) (store (head h) (some e) (set_prev_of (s.lh_first h) (next e) linked))

-- The loop of `LIST_INSERT_TAIL`; without fuel, and at a null pointer, it ends in `none`.
unfoldable pub seek_tail : ℕ → ℕ → Links → Option Links
seek_tail zero e s = none
seek_tail (suc n) e s = elim (s.le_next e) [
  | none ↦ none
  | some x ↦ elim (s.le_next x) [
    | none ↦ some s
    | some y ↦ seek_tail n e (store (next e) (some y) s)
  ]
]

-- What `LIST_INSERT_TAIL` does behind its loop, where `le_next` of `e` is the last element
unfoldable pub link_tail : ℕ → Links → Option Links
link_tail e s = elim (s.le_next e) [
  | none ↦ none
  | some x ↦ some (store (next e) none (set_prev e (next x) (store (next x) (some e) s)))
]

unfoldable pub list_insert_tail : ℕ → ℕ → ℕ → Links → Option Links
list_insert_tail n h e s = elim (s.lh_first h) [
  | none ↦ some (list_insert_head h e s)
  | some x ↦ elim (seek_tail n e (store (next e) (some x) s)) [
    | none ↦ none
    | some t ↦ link_tail e t
  ]
]

unfoldable pub list_remove : ℕ → Links → Links
list_remove e s =
    let fixed = set_prev_of (s.le_next e) (s.le_prev e) s in store (s.le_prev e) (s.le_next e) fixed

-- A use of a macro on the list `h` and the element `e`
pub data Op : Type 0 where
  init : ℕ → Op
  at_head : ℕ → ℕ → Op
  at_tail : ℕ → ℕ → Op
  remove_from : ℕ → ℕ → Op

unfoldable pub perform : ℕ → Op → Links → Option Links
perform n (init h) s = some (list_init h s)
perform n (at_head h e) s = some (list_insert_head h e s)
perform n (at_tail h e) s = list_insert_tail n h e s
perform n (remove_from h e) s = some (list_remove e s)

unfoldable pub perform_all : ℕ → List Op → Links → Option Links
perform_all n [] s = some s
perform_all n (o ∷ os) s = elim (perform n o s) [ none ↦ none | some t ↦ perform_all n os t ]
