-- ===== src/Strings/Tests.antt =====
-- The strings "hi" at 10 and "ho" at 20.
use raspberry3_mos.Base.{ℕ, ◌≡◌, refl, ◌==◌, if◌then◌else◌, none, some, Option, List, [], ◌∷◌}
use raspberry3_mos.Strings.{strcat, copy_chars, strchr}

abbrev mem : ℕ → ℕ
mem a =
    if (a == 10)
    then 104
    else if a == 11
    then 105
    else if a == 20
    then 104
    else if a == 21
    then 111
    else 0

strchr_runs : strchr 3 mem 20 111 ≡ some 21
unfolding strchr
strchr_runs = refl

-- The text at 10 and that at 20 end up behind `ret`, here 40.
abbrev read_4 : Option (ℕ → ℕ) → List ℕ
read_4 none = []
read_4 (some m) = m 40 ∷ m 41 ∷ m 42 ∷ m 43 ∷ m 44 ∷ []

strcat_runs : read_4 (strcat 3 mem 40 10 20) ≡ 104 ∷ 105 ∷ 104 ∷ 111 ∷ 0 ∷ []
unfolding strcat copy_chars
strcat_runs = refl
