-- ===== src/Fd/Ends.antt =====
-- The loop of `readn` (user/fd.c) ends.
use raspberry3_mos.Base.{
  ℕ, zero, suc, ◌+◌, ◌-◌, ◌<◌, ◌≤◌, ◌≡◌, ◌≢◌, refl, sym, ◌∙◌, inl, inr, ltb, ◌==◌, if◌then◌else◌,
  List, Bool-cases, arith,
}
use raspberry3_mos.Fd.{Proc, Result, returns, fails, aborts, unfinished, Dev}
use raspberry3_mos.Fd.Run.{after}
use raspberry3_mos.Fd.Calls.{read, readn_from, readn}

module _ {W : Type 0} where
  -- What `readn` does with the result of a `read`, where `rest` are the rounds behind it
  abbrev more : ℕ → (ℕ → Proc W → Result W ℕ) → ℕ → Proc W → Result W ℕ
  more tot rest m = let next = rest m in if m == 0 then returns tot else next

  more-ends :
      (r : Result W ℕ) (tot : ℕ) (rest : ℕ → Proc W → Result W ℕ)
      → r ≢ unfinished
      → ((m : ℕ) (u : Proc W) → m ≢ 0 → rest m u ≢ unfinished)
      → after (more tot rest) r ≢ unfinished
  more-ends (returns m u) tot rest ends later e = elim (Bool-cases (m == 0)) [
    | inl none_left ↦
        let q : more tot rest m u ≡ returns tot u = rw (more, none_left) refl in absurd cc
    | inr some_left ↦
        let q : more tot rest m u ≡ rest m u = rw (more, some_left) refl in
        later m u (ground arith) (sym q ∙ e)
  ]
  more-ends (fails c u) tot rest ends later e = cc
  more-ends aborts tot rest ends later e = cc
  more-ends unfinished tot rest ends later e = ends refl

  -- Where the calls of `read` end, so does the loop: each round but the last has read a byte at least.
  readn_from-ends :
      (k : ℕ) (devtab : List (Dev W)) (fdnum buf n tot : ℕ) (s : Proc W)
      → ((b m : ℕ) (u : Proc W) → read devtab fdnum b m u ≢ unfinished)
      → 1 ≤ k
      → n < tot + k
      → readn_from k devtab fdnum buf n tot s ≢ unfinished
  unfolding readn_from
  readn_from-ends zero devtab fdnum buf n tot s ends some_left enough = absurd (omega arith)
  readn_from-ends (suc k) devtab fdnum buf n tot s ends some_left enough =
      elim (Bool-cases (ltb tot n)) [
        | inl before ↦
            let round =
              more-ends (read devtab fdnum (buf + tot) (n - tot) s) tot
                (λ m. readn_from k devtab fdnum buf n (tot + m)) (ends (buf + tot) (n - tot) s)
                (λ m u pos.
                  readn_from-ends k devtab fdnum buf n (tot + m) u ends (ground arith)
                    (ground arith)) in
            rw before round
        | inr behind ↦ rw behind (λ e. cc)
      ]

  -- Where the calls of `read` come to an end, `readn` does.
  pub readn-ends :
      (devtab : List (Dev W)) (fdnum buf n : ℕ) (s : Proc W)
      → ((b m : ℕ) (u : Proc W) → read devtab fdnum b m u ≢ unfinished)
      → readn devtab fdnum buf n s ≢ unfinished
  unfolding readn
  readn-ends devtab fdnum buf n s ends =
      readn_from-ends (n + 1) devtab fdnum buf n 0 s ends (omega arith) (omega arith)
