-- ===== src/User/Run.antt =====
-- Running a `do` block of User.antt, step by step.
use raspberry3_mos.Base.{◌≡◌, ap}
use raspberry3_mos.User.{Machine, Result, gives, refuses, panics, M, ◌>>=◌, or_panic}

module _ {A B : Type 0} where
  abbrev after : (A → M B) → Result A → Result B
  after f (gives a t) = f a t
  after f (refuses e t) = refuses e t
  after f panics = panics

  pub >>=-step :
      (m : M A) (f : A → M B) (s : Machine) {a : A} {t : Machine}
      → m s ≡ gives a t
      → (m >>= f) s ≡ f a t
  >>=-step m f s h = ap (after f) h

module _ {A : Type 0} where
  abbrev handled : Result A → Result A
  handled (gives a t) = gives a t
  handled (refuses e t) = panics
  handled panics = panics

  pub or_panic-step :
      (m : M A) (s : Machine) {a : A} {t : Machine} → m s ≡ gives a t → or_panic m s ≡ gives a t
  or_panic-step m s h = ap handled h
