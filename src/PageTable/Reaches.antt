-- ===== src/PageTable/Reaches.antt =====
-- A walk over tables that exist, and which writes to memory leave it as it is.
use raspberry3_mos.Base.{ℕ, zero, suc, ◌+◌, ◌≡◌, ◌≢◌, ap, Bool, true, arith}
use raspberry3_mos.Pmap.{Kmem, update}
use raspberry3_mos.PageTable.{is_valid, pte_addr, kaddr, slot, entry, walk_levels}

-- From table `addr` valid entries lead to the entry `pte` of the last level.
abbrev pub Reaches : ℕ → ℕ → ℕ → ℕ → (ℕ → ℕ) → ℕ → Type 0
Reaches zero level va addr cell pte = slot addr 3 va ≡ pte
Reaches (suc n) level va addr cell pte =
    (is_valid (cell (slot addr (level + 1) va)) ≡ true)
    × Reaches n (level + 1) va (kaddr (pte_addr (cell (slot addr (level + 1) va)))) cell pte

-- The address `a` holds none of the entries that lead there.
abbrev pub OffPath : ℕ → ℕ → ℕ → ℕ → (ℕ → ℕ) → ℕ → Type 0
OffPath zero level va addr cell a = Unit {0}
OffPath (suc n) level va addr cell a =
    (a ≢ slot addr (level + 1) va)
    × OffPath n (level + 1) va (kaddr (pte_addr (cell (slot addr (level + 1) va)))) cell a

pub walk_levels-Reaches :
    (n level va addr pte : ℕ) (s : Kmem) (create : Bool)
    → Reaches n level va addr s.cell pte
    → walk_levels n create level va addr s ≡ (entry pte, s)
unfolding walk_levels
walk_levels-Reaches zero level va addr pte s create r = ap (λ p. (entry p, s)) r
walk_levels-Reaches (suc n) level va addr pte s create (v, r) =
    rw (v, walk_levels) (walk_levels-Reaches n (level + 1) va _ pte s create r)

pub Reaches-update :
    (n level va addr pte : ℕ) (cell : ℕ → ℕ) (a v : ℕ)
    → Reaches n level va addr cell pte
    → OffPath n level va addr cell a
    → Reaches n level va addr (update cell a v) pte
Reaches-update zero level va addr pte cell a v r o = r
Reaches-update (suc n) level va addr pte cell a v (w, r) (ne, o) =
    let same : update cell a v (slot addr (level + 1) va) ≡ cell (slot addr (level + 1) va) =
      ground arith in
    rw same (w, Reaches-update n (level + 1) va _ pte cell a v r o)
