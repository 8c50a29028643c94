-- ===== src/Driver/Lifetime.antt =====
-- New and Run of driver.go in a row: the pools that are open in the end. Run closes them when it
-- returns, whatever the error.
use jack_courier_driver_pglg.Prelude.{ℕ, ◌≡◌, refl, List, [], ◌∷◌, Bool, Option, Bytes, arith}
use jack_courier_driver_pglg.Errors.{Result, ok, err}
use jack_courier_driver_pglg.Row.{Lsn}
use jack_courier_driver_pglg.Wal.{Decoders}
use jack_courier_driver_pglg.Config.{Config, limits}
use jack_courier_driver_pglg.Driver.{World, Ran, SessionInputs, run_sessions}
use jack_courier_driver_pglg.Driver.Pools.{
  ReplicaPool, NewDriver, close_pool, close_replica_pools, new_driver, pools_of, Owned,
  new_driver-Owned,
}

-- The deferred function of Run.
unfoldable pub close_pools : NewDriver → List ℕ → List ℕ
unfolding close_pool close_replica_pools
close_pools d open_pools = close_replica_pools d.replica_pools (close_pool d.pool open_pools)

-- A run of the driver, with the pools that are open after it: `ok` where it has not returned.
abbrev pub Served : Type 0
Served = Result (Unit {0}) × World × List ℕ

unfoldable pub returned : NewDriver → List ℕ → Ran → Served
unfolding close_pools
returned d open_pools (ok u, w) = (ok u, w, open_pools)
returned d open_pools (err e, w) = (err e, w, close_pools d open_pools)

module _ (lib : Decoders) (show_lsn : Lsn → Bytes) (parse_lsn : Bytes → Option Lsn) where
  unfoldable pub run_driver : NewDriver → List ℕ → List SessionInputs → World → Served
  unfolding returned run_sessions
  run_driver d open_pools is w =
      returned d open_pools (run_sessions lib (limits d.cfg) show_lsn parse_lsn is w)

  unfoldable pub run_made : List SessionInputs → World → Result NewDriver × List ℕ → Served
  unfolding run_driver
  run_made is w (err e, open_pools) = (err e, w, open_pools)
  run_made is w (ok d, open_pools) = run_driver d open_pools is w

  -- New, and Run where it makes a driver
  unfoldable pub serve : (Bytes → Bool) → Config → List SessionInputs → World → Served
  unfolding run_made new_driver
  serve opens c is w = run_made is w (new_driver opens c)

close_first : (p : ℕ) (ps : List ℕ) → close_pool p (p ∷ ps) ≡ ps
unfolding close_pool
close_first p ps = ground arith

close_each : (rs : List ReplicaPool) → close_replica_pools rs (pools_of rs) ≡ []
unfolding close_replica_pools
close_each [] = refl
close_each (r ∷ rs) = rw (close_first r.pool (pools_of rs)) (close_each rs)

-- The pools that are open after `r`: none where it has returned, else those of the driver.
abbrev pub Kept : Result NewDriver → Served → Type 0
Kept (ok d) (ok u, w, open_pools) = open_pools ≡ d.pool ∷ pools_of d.replica_pools
Kept made (_, w, open_pools) = open_pools ≡ []

close_pools-owned : (d : NewDriver) → close_pools d (d.pool ∷ pools_of d.replica_pools) ≡ []
unfolding close_pools
close_pools-owned d =
    rw (close_first d.pool (pools_of d.replica_pools)) (close_each d.replica_pools)

returned-Kept :
    (d : NewDriver) (open_pools : List ℕ) (r : Ran)
    → open_pools ≡ d.pool ∷ pools_of d.replica_pools
    → Kept (ok d) (returned d open_pools r)
unfolding returned
returned-Kept d open_pools (ok u, w) own = own
returned-Kept d open_pools (err e, w) own = rw own (close_pools-owned d)

module _ (lib : Decoders) (show_lsn : Lsn → Bytes) (parse_lsn : Bytes → Option Lsn) where
  run_made-Kept :
      (is : List SessionInputs) (w : World) (r : Result NewDriver × List ℕ)
      → Owned r
      → Kept r.0 (run_made lib show_lsn parse_lsn is w r)
  unfolding run_made run_driver
  run_made-Kept is w (err e, open_pools) own = own
  run_made-Kept is w (ok d, open_pools) own =
      returned-Kept d open_pools (run_sessions lib (limits d.cfg) show_lsn parse_lsn is w) own

  -- No pool outlives the driver: whatever the config, whichever pool cannot be made and whatever its
  -- sessions meet, no pool is open once New has returned an error or Run has returned, and while Run
  -- has not returned the open pools are exactly the driver's own and its replicas'.
  pub serve-Kept :
      (opens : Bytes → Bool) (c : Config) (is : List SessionInputs) (w : World)
      → Kept (new_driver opens c).0 (serve lib show_lsn parse_lsn opens c is w)
  unfolding serve
  serve-Kept opens c is w = run_made-Kept is w (new_driver opens c) (new_driver-Owned opens c)
