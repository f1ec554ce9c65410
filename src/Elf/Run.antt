-- ===== src/Elf/Run.antt =====
-- Running a `do` block of Elf.antt.
use raspberry3_mos.Base.{◌≡◌, refl}
use raspberry3_mos.Elf.{Loading, done, failed, ◌>>=◌}

module _ {S A B : Type 0} where
  abbrev pub after : (A → S → Loading S B) → Loading S A → Loading S B
  after f (done a t) = f a t
  after f (failed r t) = failed r t

  -- Two runs that begin alike, and go on alike from every state that the first part may leave
  pub >>=-alike :
      (r : Loading S A) (f g : A → S → Loading S B) (Kept : S → Type 0)
      → ((a : A) (t : S) → r ≡ done a t → Kept t)
      → ((a : A) (t : S) → Kept t → f a t ≡ g a t)
      → after f r ≡ after g r
  >>=-alike (done a t) f g Kept kept same = same a t (kept a t refl)
  >>=-alike (failed r t) f g Kept kept same = refl

  -- Where the whole is done, its first part is.
  pub done-first :
      (r : Loading S A) (f : A → S → Loading S B) {b : B} {u : S}
      → after f r ≡ done b u
      → (a : A) × (t : S) × (r ≡ done a t) × (f a t ≡ done b u)
  done-first (done a t) f h = (a, t, refl, h)
  done-first (failed r t) f h = cc

  pub >>=-cong :
      (r : Loading S A) (f g : A → S → Loading S B)
      → ((a : A) (t : S) → f a t ≡ g a t)
      → after f r ≡ after g r
  >>=-cong (done a t) f g same = same a t
  >>=-cong (failed r t) f g same = refl

module _ {S A B C : Type 0} where
  pub >>=-assoc :
      (r : Loading S A) (f : A → S → Loading S B) (g : B → S → Loading S C)
      → after g (after f r) ≡ after (λ a. f a >>= g) r
  >>=-assoc (done a t) f g = refl
  >>=-assoc (failed r t) f g = refl
