-- ===== src/Fs/Run.antt =====
-- Successful runs of a sequence of calls in the file server.
use raspberry3_mos.Base.{◌≡◌, refl, ap, ℕ}
use raspberry3_mos.Fs.{Fs, Outcome, ok, err, panics, faults, M, ◌>>=◌, on_err}

module _ {A B : Type 0} where
  -- What `>>=` does with an outcome.
  abbrev after : (A → M B) → Outcome A → Outcome B
  after f (ok a u) = f a u
  after f (err e u) = err e u
  after f panics = panics
  after f faults = faults

  by_first :
      (r : Outcome A) (f : A → M B) {b : B} {t : Fs}
      → after f r ≡ ok b t
      → (a : A) × (u : Fs) × (r ≡ ok a u) × (f a u ≡ ok b t)
  by_first (ok a u) f h = (a, u, refl, h)
  by_first (err e u) f h = cc
  by_first panics f h = cc
  by_first faults f h = cc

  pub >>=-ok :
      (m : M A) (f : A → M B) (s : Fs) {b : B} {t : Fs}
      → (m >>= f) s ≡ ok b t
      → (a : A) × (u : Fs) × (m s ≡ ok a u) × (f a u ≡ ok b t)
  >>=-ok m f s h = by_first (m s) f h

  pub >>=-step :
      (m : M A) (f : A → M B) (s : Fs) {a : A} {u : Fs} → m s ≡ ok a u → (m >>= f) s ≡ f a u
  >>=-step m f s h = ap (after f) h

  pub >>=-panics : (m : M A) (f : A → M B) (s : Fs) → m s ≡ panics → (m >>= f) s ≡ panics
  >>=-panics m f s h = ap (after f) h

module _ {A : Type 0} where
  abbrev pub handle : (ℕ → M A) → Outcome A → Outcome A
  handle g (ok a u) = ok a u
  handle g (err e u) = g e u
  handle g panics = panics
  handle g faults = faults

  pub on_err-run :
      (m : M A) (g : ℕ → M A) (s : Fs) {r : Outcome A} → m s ≡ r → on_err m g s ≡ handle g r
  on_err-run m g s h = ap (handle g) h
