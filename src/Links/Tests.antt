-- ===== src/Links/Tests.antt =====
-- Two lists that are filled and emptied.
use raspberry3_mos.Base.{◌≡◌, refl, none, some, List, [], ◌∷◌, arith}
use raspberry3_mos.Links.{head, Links, Op, at_head, at_tail, remove_from, perform_all}
use raspberry3_mos.Links.Refine.{Rep, change, change_all, Allowed, AllAllowed, perform_all-Rep}

abbrev empty : Links
empty = record { lh_first = λ h. none; le_next = λ e. none; le_prev = λ e. head 0 }

empty-Rep : Rep empty (λ h. [])
empty-Rep = record { spines = λ h. refl; distinct = λ h. tt; single = λ h k x a b. absurd cc }

abbrev steps : List Op
steps = at_head 0 5 ∷ at_tail 0 7 ∷ at_tail 1 9 ∷ remove_from 0 5 ∷ []

lists_run : change_all steps (λ h. []) 0 ≡ 7 ∷ []
unfolding change_all change
lists_run = refl

steps-AllAllowed : AllAllowed 2 steps (λ h. [])
unfolding AllAllowed Allowed change
steps-AllAllowed =
    (λ k. refl, ((λ k. ground arith, omega arith), ((λ k. ground arith, omega arith), (refl, tt))))

perform_all-Rep_example :
    (t : Links) × (perform_all 2 steps empty ≡ some t) × Rep t (change_all steps (λ h. []))
perform_all-Rep_example = perform_all-Rep 2 steps empty (λ h. []) empty-Rep steps-AllAllowed
