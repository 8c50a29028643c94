-- ===== src/Driver.antt =====
-- The Driver of driver.go: leadership, one session (runOnce) and the sessions in a row (Run). The
-- metrics of the leader role are kept in `events`, newest first; the channel maintWake holds at
-- most one token.
pub mod Leadership
pub mod Sessions
pub mod Roles
pub mod Pools
pub mod Waits
pub mod Lifetime
pub mod Restarts
pub mod Heartbeat
use jack_courier_driver_pglg.Prelude.{
  ℕ, suc, ◌+◌, List, [], ◌∷◌, Bool, true, false, Option, none, some, Bytes, if◌then◌else◌,
}
use jack_courier_driver_pglg.Errors.{
  Error, Result, ok, err, ◌>>=◌, cancelled, slot_busy, cursor_read, connect, identify_system,
}
use jack_courier_driver_pglg.Row.{Time, Lsn, Job, SubmitResult}
use jack_courier_driver_pglg.Wal.{
  Decoders, WalConsumer, new_wal_consumer, start_at, map_start_replication_error,
}
use jack_courier_driver_pglg.Cursor.{Db, CursorAnswer, no_rows, query_failed, row, read_cursor}
use jack_courier_driver_pglg.Flush.{Session}
use jack_courier_driver_pglg.Stream.{Limits, Stream, Inputs, start, run}

-- The tag of the metric jack.courier.leader.relinquished.
pub data Reason : Type 0 where
  shutdown busy_slot : Reason

pub data Event : Type 0 where
  acquired : Event
  relinquished : Reason → Event
  is_leader_gauge : Bool → Event

pub record Driver : Type 0 where
  pub is_leader : Bool
  pub maint_wake : Bool
  pub standby_logged : Bool
  pub events : List Event

unfoldable pub emit_leader_gauge : Driver → Driver
emit_leader_gauge d = record d { events = is_leader_gauge d.is_leader ∷ d.events }

-- The compare-and-swap fails on a leader.
unfoldable pub acquire_leadership : Driver → Driver
unfolding emit_leader_gauge
acquire_leadership d =
    if d.is_leader
    then d
    else record (emit_leader_gauge
        (record d { is_leader = true; standby_logged = false; events = acquired ∷ d.events })) {
          maint_wake = true;
        }

unfoldable pub relinquish_leadership : Reason → Driver → Driver
unfolding emit_leader_gauge
relinquish_leadership reason d =
    if d.is_leader
    then emit_leader_gauge (record d { is_leader = false; events = relinquished reason ∷ d.events })
    else d

-- Role: the text is "leader" or "standby".
abbrev pub role : Driver → Bool
role d = d.is_leader

-- What START_REPLICATION and IDENTIFY_SYSTEM answer; `refused b` is an error of the first, `b` where
-- its code is ObjectInUse.
pub data Starting : Type 0 where
  unidentified started : Starting
  refused : Bool → Starting

-- startStreaming on a connection that is a *pgconn.PgConn
unfoldable pub start_streaming : Starting → Lsn → WalConsumer → Result (Unit {0}) × WalConsumer
start_streaming unidentified l w = (err identify_system, w)
start_streaming (refused in_use) l w = (err (map_start_replication_error in_use), w)
start_streaming started l w = (ok tt, start_at l w)

-- What one session meets.
pub record SessionInputs : Type 0 where
  pub query_ok : Bool
  pub connect_ok : Bool
  pub starting : Starting
  pub now : Time
  pub rounds : List Inputs
  -- after the session: ctx.Err() != nil, and whether the wait before the next ends by ctx.Done()
  pub stopped : Bool
  pub stopped_waiting : Bool

-- What outlives a session: the driver, the durable state, the calls of submit and their
-- results, the attempts of the backoff, and the consumers that were closed, newest first.
pub record World : Type 0 where
  pub driver : Driver
  pub db : Db
  pub submitted : List (List Job)
  pub answered : List (List SubmitResult)
  pub attempt : ℕ
  pub closed : List WalConsumer

abbrev pub Ran : Type 0
Ran = Result (Unit {0}) × World

-- The answer to readCursor's query; `show_lsn` is PostgreSQL's pg_lsn::text.
unfoldable pub cursor_answer : (Lsn → Bytes) → Bool → Option Lsn → CursorAnswer
cursor_answer show_lsn false c = query_failed
cursor_answer show_lsn true none = no_rows
cursor_answer show_lsn true (some l) = row (show_lsn l)

-- The deferred close, after the rounds that were run.
unfoldable pub close_session : World → Result (Unit {0}) × Stream → Ran
close_session w (r, s) = (
  r,
  record w { db = s.db; submitted = s.submitted; answered = s.answered; closed = s.wal ∷ w.closed },
)

-- The wait before the next session: `ok` to go on.
unfoldable pub after_error : SessionInputs → Error → World → Ran
after_error i slot_busy w =
    let d = relinquish_leadership busy_slot w.driver in
    (
      if i.stopped_waiting then err cancelled else ok tt,
      record w { driver = record d { standby_logged = true } },
    )
after_error i e w =
    (if i.stopped_waiting then err cancelled else ok tt, record w { attempt = suc w.attempt })

unfoldable pub continue : Ran → (World → Ran) → Ran
continue (ok u, w) k = k w
continue (err e, w) k = (err e, w)

-- `k` is the next turn of the loop; runOnce returns no nil.
unfoldable pub after_session : SessionInputs → Ran → (World → Ran) → Ran
unfolding after_error continue
after_session i (ok u, w) k = (ok tt, w)
after_session i (err e, w) k =
    if i.stopped
    then (err cancelled, record w { driver = relinquish_leadership shutdown w.driver })
    else continue (after_error i e w) k

module _ (lib : Decoders) (cfg : Limits) where
  unfoldable pub stream : SessionInputs → Lsn → World → Result (Unit {0}) × WalConsumer → Ran
  unfolding close_session
  stream i l w (err e, wal) = (err e, record w { closed = wal ∷ w.closed })
  stream i l w (ok u, wal) =
      close_session (record w { driver = acquire_leadership w.driver })
        (run lib cfg i.rounds (
          start cfg i.now l
            (record { wal = wal; db = w.db; submitted = w.submitted; answered = w.answered })))

  unfoldable pub with_cursor : SessionInputs → World → Result Lsn → Ran
  unfolding stream
  with_cursor i w (err e) = (err (cursor_read e), w)
  with_cursor i w (ok l) =
      if i.connect_ok
      then stream i l w (start_streaming i.starting l new_wal_consumer)
      else (err connect, w)

  -- `parse_lsn` is pglogrepl.ParseLSN.
  module _ (show_lsn : Lsn → Bytes) (parse_lsn : Bytes → Option Lsn) where
    -- `ok` where the session is still running after its rounds.
    unfoldable pub run_once : SessionInputs → World → Ran
    unfolding with_cursor cursor_answer
    run_once i w =
        with_cursor i w (read_cursor parse_lsn (cursor_answer show_lsn i.query_ok w.db.cursor))

    -- Run, over the inputs of its sessions: `ok` where it has not returned after them.
    unfoldable pub run_sessions : List SessionInputs → World → Ran
    unfolding after_session
    run_sessions [] w = (ok tt, w)
    run_sessions (i ∷ is) w = after_session i (run_once i w) (run_sessions is)
