-- ===== src/Driver/Pools.antt =====
-- New of driver.go. A pool is the number of the call that made it: 0 for the driver's own, and after
-- it those of the replicas in their order.
use jack_courier_driver_pglg.Prelude.{
  ℕ, suc, ◌≡◌, ◌≢◌, refl, List, [], ◌∷◌, ◌++◌, Bool, Bytes, map, ◌==◌, arith, Bool-cases, inl, inr,
  All, All-append, map-append, if◌then◌else◌,
}
use mathlib.Core.Path.{subst}
use jack_courier_driver_pglg.Errors.{Result, ok, err, create_pool, create_replica_pool}
use jack_courier_driver_pglg.Config.{Config, ReplicaConfig, set_defaults, validate}

pub record ReplicaPool : Type 0 where
  pub name : Bytes
  pub pool : ℕ
  pub subscription_name : Bytes

pub record NewDriver : Type 0 where
  pub cfg : Config
  pub pool : ℕ
  pub replica_pools : List ReplicaPool

-- pool.Close()
unfoldable pub close_pool : ℕ → List ℕ → List ℕ
close_pool p [] = []
close_pool p (q ∷ qs) = if p == q then qs else q ∷ close_pool p qs

unfoldable pub close_replica_pools : List ReplicaPool → List ℕ → List ℕ
close_replica_pools [] open_pools = open_pools
close_replica_pools (r ∷ rs) open_pools = close_replica_pools rs (close_pool r.pool open_pools)

-- `opens` tells whether pgxpool.New takes a connection string.
module _ (opens : Bytes → Bool) where
  -- The loop over the replicas: the pools so far, the number of the next, and the open pools.
  unfoldable pub open_replicas :
      Config → List ReplicaConfig → List ReplicaPool → ℕ → List ℕ → Result NewDriver × List ℕ
  open_replicas c [] prev n open_pools =
      (ok (record { cfg = c; pool = 0; replica_pools = prev }), open_pools)
  open_replicas c (r ∷ rs) prev n open_pools =
      let rest =
        open_replicas c rs
          (prev ++ record { name = r.name; pool = n; subscription_name = r.subscription_name } ∷ [])
          (suc n) (open_pools ++ n ∷ []) in
      if opens r.conn_string
      then rest
      else (err (create_replica_pool r.name), close_pool 0 (close_replica_pools prev open_pools))

  unfoldable pub open_pools_of : Config → Result NewDriver × List ℕ
  open_pools_of c =
      if opens c.conn_string
      then open_replicas c c.replicas [] 1 (0 ∷ [])
      else (err create_pool, [])

  unfoldable pub after_validate : Config → Result (Unit {0}) → Result NewDriver × List ℕ
  unfolding open_pools_of
  after_validate c (err e) = (err e, [])
  after_validate c (ok u) = open_pools_of c

  -- New, with the pools that are open when it returns
  unfoldable pub new_driver : Config → Result NewDriver × List ℕ
  unfolding after_validate
  new_driver c = after_validate (set_defaults c) (validate (set_defaults c))

-- The pools that a driver has.
abbrev pub pools_of : List ReplicaPool → List ℕ
pools_of rs = map (λ (r : ReplicaPool). r.pool) rs

-- An error leaves no pool open, and a driver has exactly the open ones.
abbrev pub Owned : Result NewDriver × List ℕ → Type 0
Owned (err e, open_pools) = open_pools ≡ []
Owned (ok d, open_pools) = open_pools ≡ d.pool ∷ pools_of d.replica_pools

close_own :
    (r : ReplicaPool) (ps : List ℕ) → 0 ≢ r.pool → close_pool r.pool (0 ∷ r.pool ∷ ps) ≡ 0 ∷ ps
unfolding close_pool
close_own r ps h = ground arith

close_all :
    (rs : List ReplicaPool)
    → All (λ (r : ReplicaPool). 0 ≢ r.pool) rs
    → close_replica_pools rs (0 ∷ pools_of rs) ≡ 0 ∷ []
unfolding close_replica_pools
close_all [] h = refl
close_all (r ∷ rs) h = rw (close_own r (pools_of rs) h.0) (close_all rs h.1)

module _ (opens : Bytes → Bool) where
  open_replicas-Owned :
      (c : Config) (rs : List ReplicaConfig) (prev : List ReplicaPool) (n : ℕ)
      → All (λ (r : ReplicaPool). 0 ≢ r.pool) prev
      → 0 ≢ n
      → Owned (open_replicas opens c rs prev n (0 ∷ pools_of prev))
  unfolding open_replicas
  open_replicas-Owned c [] prev n h new = refl
  open_replicas-Owned c (r ∷ rs) prev n h new = elim (Bool-cases (opens r.conn_string)) [
    | inr refused ↦ rw refused (rw (close_all prev h) (unfold close_pool in refl))
    | inl taken ↦
        let q : ReplicaPool = record {
          name = r.name;
          pool = n;
          subscription_name = r.subscription_name;
        } in
        rw taken (
          subst (λ ps. Owned (open_replicas opens c rs (prev ++ q ∷ []) (suc n) (0 ∷ ps)))
            (map-append (λ (p : ReplicaPool). p.pool) prev (q ∷ []))
            (open_replicas-Owned c rs (prev ++ q ∷ []) (suc n)
              (All-append _ prev (q ∷ []) h (new, tt)) (λ e. absurd (omega arith))))
  ]

  -- Whatever the config and whichever pool cannot be made: when New returns an error no pool is left
  -- open, and when it returns a driver the open pools are the driver's own and its replicas'.
  pub new_driver-Owned : (c : Config) → Owned (new_driver opens c)
  unfolding new_driver open_pools_of after_validate
  new_driver-Owned c = go (set_defaults c) (validate (set_defaults c))
    where
      opened : (d : Config) → Owned (open_pools_of opens d)
      opened d = elim (Bool-cases (opens d.conn_string)) [
        | inr refused ↦ rw refused refl
        | inl taken ↦
            rw taken (open_replicas-Owned d d.replicas [] 1 tt (λ e. absurd (omega arith)))
      ]

      go : (d : Config) (v : Result (Unit {0})) → Owned (after_validate opens d v)
      go d (err e) = refl
      go d (ok u) = opened d
