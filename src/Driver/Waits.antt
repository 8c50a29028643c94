-- ===== src/Driver/Waits.antt =====
-- The waits of Run between its sessions (driver.go): after a busy slot the retry delay with its
-- jitter, after any other error the backoff, which Run makes once.
pub mod Bounds
use jack_courier_driver_pglg.Prelude.{
  ℕ, zero, suc, ◌+◌, ◌*◌, ◌-◌, ◌^◌, ◌%◌, ◌≤◌, ◌<◌, ◌≡◌, refl, List, [], ◌∷◌, Bool, true, false,
  Option, none, some, Bytes, ℤ, pos, negsuc, sub_ℕ, wrap_int64, is_positive, All, arith,
  if◌then◌else◌,
}
use jack_courier_driver_pglg.Errors.{Error, Result, ok, err, slot_busy, connect, cancelled}
use jack_courier_driver_pglg.Row.{Lsn}
use jack_courier_driver_pglg.Wal.{Decoders, WalConsumer, new_wal_consumer}
use jack_courier_driver_pglg.Stream.{Limits}
use jack_courier_driver_pglg.Backoff.{Backoff, next}
use jack_courier_driver_pglg.Config.{Config, magnitude}
use jack_courier_driver_pglg.Driver.{World, Ran, SessionInputs, run_once, after_error}

-- rand.Int64N(int64(2*jitter+1)) - jitter + delay, for a draw of rand.Int64N; none where it panics,
-- as its argument is not positive.
unfoldable pub busy_delay : ℕ → ℕ → ℕ → Option ℤ
busy_delay delay jitter draw =
    if is_positive (wrap_int64 (pos (2 * jitter + 1)))
    then some (wrap_int64 (sub_ℕ (delay + draw) jitter))
    else none

-- The random numbers of one wait, of Int64N and of Float64.
pub record Draws : Type 0 where
  pub jitter : ℕ
  pub fraction : ℕ

-- The backoff after some waits.
abbrev pub backoff_at : Config → ℕ → Backoff
backoff_at c n = record {
  initial = magnitude c.reconnect_initial_delay;
  max_delay = magnitude c.reconnect_max_delay;
  attempt = n;
}

unfoldable pub wait_after : Config → Draws → Error → ℕ → Option ℤ
unfolding busy_delay next
wait_after c d slot_busy n =
    busy_delay (magnitude c.slot_busy_retry_delay) (magnitude c.slot_busy_retry_jitter) d.jitter
wait_after c d e n = some (pos (next d.fraction (backoff_at c n)).0)

-- A wait, with the error before it.
abbrev pub Waited : Type 0
Waited = Error × Option ℤ

-- `k` gives the waits after this one.
unfoldable pub waits_on : Ran → (World → List Waited) → List Waited
waits_on (ok u, w) k = k w
waits_on (err e, w) k = []

unfoldable pub waits_after :
    Config → SessionInputs → Draws → Ran → (World → List Waited) → List Waited
unfolding wait_after waits_on
waits_after c i d (ok u, w) k = []
waits_after c i d (err e, w) k =
    if i.stopped then [] else (e, wait_after c d e w.attempt) ∷ waits_on (after_error i e w) k

module _ (lib : Decoders) (cfg : Limits) (show_lsn : Lsn → Bytes)
    (parse_lsn : Bytes → Option Lsn) where
  -- The waits of Run over its sessions, in their order.
  unfoldable pub run_waits : Config → List (SessionInputs × Draws) → World → List Waited
  unfolding waits_after
  run_waits c [] w = []
  run_waits c ((i, d) ∷ is) w =
      waits_after c i d (run_once lib cfg show_lsn parse_lsn i w) (run_waits c is)
