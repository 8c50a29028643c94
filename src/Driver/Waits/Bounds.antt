-- ===== src/Driver/Waits/Bounds.antt =====
-- How long Run waits between its sessions.
use mathlib.Core.Path.{subst}
use jack_courier_driver_pglg.Prelude.{
  ℕ, suc, ◌+◌, ◌*◌, ◌^◌, ◌≤◌, ◌<◌, ◌≡◌, refl, List, [], ◌∷◌, Bool, true, false, Option, some, Bytes,
  ℤ, pos, sub_ℕ, All, arith, if◌then◌else◌,
}
use jack_courier_driver_pglg.Errors.{Error, Result, ok, err, slot_busy, connect}
use jack_courier_driver_pglg.Row.{Lsn}
use jack_courier_driver_pglg.Wal.{Decoders, WalConsumer, new_wal_consumer}
use jack_courier_driver_pglg.Stream.{Limits}
use jack_courier_driver_pglg.Backoff.Delays.{InRange, capped, next-InRange}
use jack_courier_driver_pglg.Config.{Config, magnitude}
use jack_courier_driver_pglg.Driver.{
  World, Ran, SessionInputs, Starting, unidentified, refused, started, start_streaming, stream,
  close_session, with_cursor, run_once, after_error,
}
use jack_courier_driver_pglg.Driver.Waits.{
  Draws, Waited, backoff_at, busy_delay, wait_after, waits_after, waits_on, run_waits,
}

-- The retry delay give or take the jitter.
abbrev pub NearRetry : Config → Option ℤ → Type 0
NearRetry c w =
    (k : ℕ) × (k ≤ 2 * magnitude c.slot_busy_retry_jitter)
    × (w
        ≡ some (sub_ℕ (magnitude c.slot_busy_retry_delay + k) (magnitude c.slot_busy_retry_jitter)))

-- From three quarters of the capped exponential delay after `n` waits up to the whole of it.
abbrev pub BacksOff : Config → ℕ → Option ℤ → Type 0
BacksOff c n w = (d : ℕ) × (w ≡ some (pos d)) × InRange (capped (backoff_at c n)) d

-- The waits in a row, the first after `n` waits of the backoff.
abbrev pub InTurn : Config → ℕ → List Waited → Type 0
InTurn c n [] = Unit
InTurn c n ((slot_busy, w) ∷ ws) = NearRetry c w × InTurn c n ws
InTurn c n ((e, w) ∷ ws) = BacksOff c n w × InTurn c (suc n) ws

-- What rand gives, for the jitter of a config.
abbrev pub Drawn : Config → Draws → Type 0
Drawn c d = (d.jitter < 2 * magnitude c.slot_busy_retry_jitter + 1) × (d.fraction < 2 ^ 53)

-- The durations leave room in an int64.
pub record HasRoom (c : Config) : Type 0 where
  pub jitter : magnitude c.slot_busy_retry_jitter < 2 ^ 62
  pub delay : magnitude c.slot_busy_retry_delay + magnitude c.slot_busy_retry_jitter < 2 ^ 63

busy_delay-near :
    (delay jitter k : ℕ)
    → jitter < 2 ^ 62
    → delay + jitter < 2 ^ 63
    → k < 2 * jitter + 1
    → busy_delay delay jitter k ≡ some (sub_ℕ (delay + k) jitter)
unfolding busy_delay
busy_delay-near delay jitter k small room h = ground arith

attempt-stream :
    (lib : Decoders) (cfg : Limits) (i : SessionInputs) (l : Lsn) (w : World) (c : WalConsumer)
    (s : Starting)
    → (stream lib cfg i l w (start_streaming s l c)).1.attempt ≡ w.attempt
unfolding stream start_streaming close_session
attempt-stream lib cfg i l w c unidentified = refl
attempt-stream lib cfg i l w c (refused b) = refl
attempt-stream lib cfg i l w c started = refl

attempt-with_cursor :
    (lib : Decoders) (cfg : Limits) (i : SessionInputs) (w : World) (r : Result Lsn)
    → (with_cursor lib cfg i w r).1.attempt ≡ w.attempt
unfolding with_cursor
attempt-with_cursor lib cfg i w (err e) = refl
attempt-with_cursor lib cfg i w (ok l) = go i.connect_ok
  where
    go :
        (b : Bool)
        → (if b
            then stream lib cfg i l w (start_streaming i.starting l new_wal_consumer)
            else (err connect, w)).1.attempt
          ≡ w.attempt
    go true = attempt-stream lib cfg i l w new_wal_consumer i.starting
    go false = refl

wait_after-InTurn :
    (c : Config) (d : Draws) (e : Error) (i : SessionInputs) (w : World) (ws : List Waited)
    → HasRoom c
    → Drawn c d
    → InTurn c (after_error i e w).1.attempt ws
    → InTurn c w.attempt ((e, wait_after c d e w.attempt) ∷ ws)
unfolding wait_after after_error
wait_after-InTurn c d slot_busy i w ws room h rest =
    ((d.jitter, omega arith, busy_delay-near _ _ d.jitter room.jitter room.delay h.0), rest)
wait_after-InTurn c d e i w ws room h rest = ((_, refl, next-InRange d.fraction _ h.1), rest)

waits_after-InTurn :
    (c : Config) (i : SessionInputs) (d : Draws) (r : Ran) (k : World → List Waited)
    → HasRoom c
    → Drawn c d
    → ((w : World) → InTurn c w.attempt (k w))
    → InTurn c r.1.attempt (waits_after c i d r k)
unfolding waits_after
waits_after-InTurn c i d (ok u, w) k room h f = tt
waits_after-InTurn c i d (err e, w) k room h f = go i.stopped
  where
    rest : (r : Ran) → InTurn c r.1.attempt (waits_on r k)
    rest (ok u, w') = unfold waits_on in f w'
    rest (err x, w') = unfold waits_on in tt

    go :
        (b : Bool)
        → InTurn c w.attempt
            (if b then [] else (e, wait_after c d e w.attempt) ∷ waits_on (after_error i e w) k)
    go true = tt
    go false = wait_after-InTurn c d e i w _ room h (rest (after_error i e w))

module _ (lib : Decoders) (cfg : Limits) (show_lsn : Lsn → Bytes) (parse_lsn : Bytes → Option Lsn)
    (c : Config) (room : HasRoom c) where
  attempt-run_once :
      (i : SessionInputs) (w : World)
      → (run_once lib cfg show_lsn parse_lsn i w).1.attempt ≡ w.attempt
  unfolding run_once
  attempt-run_once i w = attempt-with_cursor lib cfg i w _

  -- For any random numbers, Run waits after a busy slot for the retry delay give or take the jitter,
  -- and after any other error from three quarters of the capped exponential delay up to the whole
  -- of it; the exponent counts all the errors of the latter kind since the start of Run and is never
  -- reset. It needs that the delays leave room in an int64.
  pub run_waits-InTurn :
      (is : List (SessionInputs × Draws)) (w : World)
      → All (λ (p : SessionInputs × Draws). Drawn c p.1) is
      → InTurn c w.attempt (run_waits lib cfg show_lsn parse_lsn c is w)
  unfolding run_waits
  run_waits-InTurn [] w h = tt
  run_waits-InTurn ((i, d) ∷ is) w h =
      let r = run_once lib cfg show_lsn parse_lsn i w in
      subst (λ n. InTurn c n (waits_after c i d r (run_waits lib cfg show_lsn parse_lsn c is)))
        (attempt-run_once i w)
        (waits_after-InTurn c i d r _ room h.0 (λ w'. run_waits-InTurn is w' h.1))
