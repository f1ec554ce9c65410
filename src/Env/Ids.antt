-- ===== src/Env/Ids.antt =====
-- Identifiers of environments: `mkenvid` and `envid2env`.
use raspberry3_mos.Base.{
  ℕ, ◌+◌, ◌^◌, ◌<◌, ◌≡◌, ◌≢◌, ◌↔◌, refl, ◌⊎◌, inl, inr, Bool, true, false, ◌&&◌, some, ◌==◌, not,
  Bool-cases, arith,
}
use raspberry3_mos.Sched.{env_free}
use raspberry3_mos.Env.{Kernel, nenv, envx, mkenvid, is_foreign, envid2env}

-- The identifier of environment `e` leads back to `e`, is not 0, and the identifiers made before the
-- counter reaches 2 ^ 21 - 1 are all different.
pub mkenvid_lem :
    (e d : ℕ) (k l : Kernel)
    → e < nenv
    → d < nenv
    → k.next_env_id + 1 < 2 ^ 21
    → l.next_env_id + 1 < 2 ^ 21
    → (envx (mkenvid e k).0 ≡ e)
      × ((mkenvid e k).0 ≢ 0)
      × ((mkenvid e k).0 ≡ (mkenvid d l).0 → (k.next_env_id ≡ l.next_env_id) × (e ≡ d))
unfolding mkenvid
mkenvid_lem e d k l he hd hk hl = (omega arith, omega arith, λ q. (omega arith, omega arith))

-- `c` may act on the environment `e`: it is `e` or its parent.
abbrev pub Owns : Kernel → ℕ → ℕ → Type 0
Owns k c e = (e ≡ c) ⊎ ((k.envs e).parent_id ≡ (k.envs c).id)

foreign-Owns : (k : Kernel) (c e : ℕ) → k.curenv ≡ some c → (is_foreign k e ≡ false) ↔ Owns k c e
unfolding is_foreign
foreign-Owns k c e q = rw q (by_tests (Bool-cases (e == c)), from_either)
  where
    by_tests :
        ((e == c) ≡ true) ⊎ ((e == c) ≡ false)
        → (not (e == c) && not ((k.envs e).parent_id == (k.envs c).id)) ≡ false
        → Owns k c e
    by_tests (inl same) h = inl (ground arith)
    by_tests (inr other) h = inr (ground arith)

    from_either : Owns k c e → (not (e == c) && not ((k.envs e).parent_id == (k.envs c).id)) ≡ false
    from_either (inl same) = ground arith
    from_either (inr child) = ground arith

-- `envid2env` with an identifier other than 0 finds exactly the environment at its index that is
-- live and bears it, and with the permission check only if it is the current one or its child.
pub envid2env_lem :
    (envid : ℕ) (checkperm : Bool) (k : Kernel) (c e : ℕ)
    → envid ≢ 0
    → k.curenv ≡ some c
    → (envid2env envid checkperm k ≡ some e) ↔ (
        (e ≡ envx envid)
        × ((k.envs e).status ≢ env_free)
        × ((k.envs e).id ≡ envid)
        × (checkperm ≡ true → Owns k c e))
unfolding envid2env
envid2env_lem envid checkperm k c e h q = (forward, backward)
  where
    own : (is_foreign k (envx envid) ≡ false) ↔ Owns k c (envx envid)
    own = foreign-Owns k c (envx envid) q

    forward :
        envid2env envid checkperm k ≡ some e
        → (e ≡ envx envid)
          × ((k.envs e).status ≢ env_free)
          × ((k.envs e).id ≡ envid)
          × (checkperm ≡ true → Owns k c e)
    forward g =
        let same : envx envid ≡ e = ground arith in
        rw (← same) (refl, ground arith, ground arith, λ p. own.0 (ground arith))

    backward :
        (e ≡ envx envid)
          × ((k.envs e).status ≢ env_free)
          × ((k.envs e).id ≡ envid)
          × (checkperm ≡ true → Owns k c e)
        → envid2env envid checkperm k ≡ some e
    backward (here, live, bears, may) = elim (Bool-cases checkperm) [
      | inl p ↦ let mine : Owns k c (envx envid) = rw here at (may p) in ground (arith, own.1 mine)
      | inr p ↦ ground arith
    ]
