-- ===== src/Config/Defaults.antt =====
-- What setDefaults promises, and what the receive loop has of it.
use jack_courier_driver_pglg.Prelude.{
  zero, suc, ◌<◌, ◌≡◌, refl, List, [], ◌∷◌, true, false, Bytes, is_empty, ℤ, pos, negsuc,
  is_positive, All, arith,
}
use jack_courier_driver_pglg.Errors.{ok}
use jack_courier_driver_pglg.Row.{Time, Lsn}
use jack_courier_driver_pglg.Wal.{Decoders}
use jack_courier_driver_pglg.Flush.{Session}
use jack_courier_driver_pglg.Stream.{Stream, Inputs, start, run}
use jack_courier_driver_pglg.Stream.Batch.{IsBatched, run-IsBatched}
use jack_courier_driver_pglg.Config.{Config, positive_or, text_or, set_defaults, limits, magnitude}

-- The sizes and durations of a config.
abbrev pub numbers : Config → List ℤ
numbers c =
    c.max_batch_size ∷ c.batch_timeout ∷ c.standby_interval ∷ c.partition_interval
    ∷ c.partition_look_ahead ∷ c.partition_retention ∷ c.partition_maint_interval
    ∷ c.reconnect_initial_delay ∷ c.reconnect_max_delay ∷ c.slot_busy_retry_delay
    ∷ c.slot_busy_retry_jitter ∷ c.leader_heartbeat_interval ∷ c.dlq_retention
    ∷ c.dlq_cleanup_interval ∷ []

-- Each number is positive, and the names that make up the tables' are not empty.
pub record IsUsable (c : Config) : Type 0 where
  pub schema : is_empty c.schema ≡ false
  pub prefix : is_empty c.table_prefix ≡ false
  pub positive : All (λ (x : ℤ). is_positive x ≡ true) (numbers c)

positive_or-positive : (d x : ℤ) → is_positive d ≡ true → is_positive (positive_or d x) ≡ true
unfolding positive_or
positive_or-positive d x h = ground arith

text_or_set : (d s : Bytes) → is_empty d ≡ false → is_empty (text_or d s) ≡ false
unfolding text_or
text_or_set d s h = ground arith

-- Any config is usable once the defaults are set.
pub set_defaults-IsUsable : (c : Config) → IsUsable (set_defaults c)
unfolding set_defaults
set_defaults-IsUsable c = grind (arith, positive_or-positive, text_or_set)

-- A config that is usable is left as it is, so that setting the defaults again changes nothing.
set_defaults_id : (c : Config) → IsUsable c → set_defaults c ≡ c
unfolding set_defaults positive_or text_or
set_defaults_id c u = ground (arith, u.schema, u.prefix, u.positive)

positive-magnitude : (x : ℤ) → is_positive x ≡ true → 0 < magnitude x
positive-magnitude (pos zero) h = absurd (ground arith)
positive-magnitude (pos (suc n)) h = omega arith
positive-magnitude (negsuc n) h = absurd (ground arith)

start-IsBatched :
    (c : Config) (now : Time) (l : Lsn) (session : Session)
    → 0 < (limits c).max_batch_size
    → IsBatched (limits c) (start (limits c) now l session)
unfolding start
start-IsBatched c now l session h = record { room = h; armed = refl }

-- Whatever the config, the loop of a driver that New has made never leaves a full batch or a row
-- without a deadline behind a round: fewer rows are pending than a batch holds, and the batch has a
-- deadline exactly while rows are pending.
pub set_defaults-IsBatched :
    (lib : Decoders) (c : Config) (now : Time) (l : Lsn) (session : Session) (is : List Inputs)
    (s : Stream)
    → run lib (limits (set_defaults c)) is (start (limits (set_defaults c)) now l session)
      ≡ (ok tt, s)
    → IsBatched (limits (set_defaults c)) s
set_defaults-IsBatched lib c now l session is s h =
    let d = set_defaults c in
    let u = (set_defaults-IsUsable c).positive in
    let size = positive-magnitude d.max_batch_size u.0 in
    run-IsBatched (limits d) lib is (start (limits d) now l session) s size
      (positive-magnitude d.batch_timeout u.1.0) (start-IsBatched d now l session size) h
