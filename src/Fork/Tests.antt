-- ===== src/Fork/Tests.antt =====
-- A machine with one page of the caller, shared with the child 3 and then written.
use raspberry3_mos.Base.{ℕ, ◌+◌, ◌≡◌, refl, true, false, ◌==◌, if◌then◌else◌, none, some, arith}
use raspberry3_mos.User.{Machine, gives}
use raspberry3_mos.Fork.{fork, pgfault}
use raspberry3_mos.Fork.Share.{Grants}
use raspberry3_mos.Fork.Loop.{Forked, fork_lem}
use raspberry3_mos.Fork.Copy.{Copied, pgfault_lem}

abbrev one_page : ℕ → Machine
one_page perm = record {
  entry = λ e p.
      if (e == 0)
      then (if p == 5 then some (record { frame = 7; perm = perm }) else none)
      else none;
  bytes = λ f o. f + o;
  answer = λ n. some (100 + n);
  requests = 0;
  known = λ e. true;
  handlers = λ e. none;
  runnable = λ e. false;
  pgfault_set = true;
}

one_page-Grants : (perm : ℕ) → Grants 3 (one_page perm)
one_page-Grants perm = record { granted = λ n. (100 + n, refl); caller = refl; child = refl }

fork_lem_example :
    (f : ℕ) × (t : Machine) × (fork 9 3 (one_page 65) ≡ gives 3 t) × Forked 9 3 f (one_page 65) t
fork_lem_example = fork_lem 9 3 (one_page 65) (one_page-Grants 65) (omega arith) refl

-- A write at the byte 12 of the page, when it is shared
pgfault_lem_example :
    (t : Machine) × (pgfault 20492 (one_page 193) ≡ gives tt t)
    × Copied 5 100 (record { frame = 7; perm = 193 }) (one_page 193) t
pgfault_lem_example =
    pgfault_lem 20492 100 101 (record { frame = 7; perm = 193 }) (one_page 193) (omega arith) refl
      refl refl refl refl (omega arith)
