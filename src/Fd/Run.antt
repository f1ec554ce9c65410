-- ===== src/Fd/Run.antt =====
-- Running a `do` block of Fd.antt, step by step.
use raspberry3_mos.Base.{◌≡◌, refl, ap}
use raspberry3_mos.Fd.{Proc, Result, returns, fails, aborts, unfinished, ◌>>=◌}

module _ {W : Type 0} where
  abbrev pub after : {A B : Type 0} → (A → Proc W → Result W B) → Result W A → Result W B
  after f (returns a u) = f a u
  after f (fails e u) = fails e u
  after f aborts = aborts
  after f unfinished = unfinished

  by_first :
      {A B : Type 0} (r : Result W A) (f : A → Proc W → Result W B) {b : B} {t : Proc W}
      → after f r ≡ returns b t
      → (a : A) × (u : Proc W) × (r ≡ returns a u) × (f a u ≡ returns b t)
  by_first (returns a u) f h = (a, u, refl, h)
  by_first (fails e u) f h = cc
  by_first aborts f h = cc
  by_first unfinished f h = cc

  pub >>=-returns :
      {A B : Type 0} (m : Proc W → Result W A) (f : A → Proc W → Result W B) (s : Proc W) {b : B}
      {t : Proc W}
      → (m >>= f) s ≡ returns b t
      → (a : A) × (u : Proc W) × (m s ≡ returns a u) × (f a u ≡ returns b t)
  >>=-returns m f s h = by_first (m s) f h

  pub >>=-step :
      {A B : Type 0} (m : Proc W → Result W A) (f : A → Proc W → Result W B) (s : Proc W) {a : A}
      {u : Proc W}
      → m s ≡ returns a u
      → (m >>= f) s ≡ f a u
  >>=-step m f s h = ap (after f) h
