-- ===== src/Driver/Restarts.antt =====
-- At-least-once delivery across the sessions of a driver.
use jack_courier_driver_pglg.Prelude.{
  List, [], ◌∷◌, Bool, true, false, Option, Bytes, ltb, if◌then◌else◌,
}
use jack_courier_driver_pglg.Errors.{ok, err}
use jack_courier_driver_pglg.Row.{Lsn}
use jack_courier_driver_pglg.Wal.{Decoders, new_wal_consumer, start_at}
use jack_courier_driver_pglg.Cursor.{cursor_lsn}
use jack_courier_driver_pglg.Flush.{Session}
use jack_courier_driver_pglg.Stream.{Limits, Stream, start}
use jack_courier_driver_pglg.Stream.Covered.{Tx}
use jack_courier_driver_pglg.Stream.Delivery.{Covers}
use jack_courier_driver_pglg.Stream.Resend.{Sends}
use jack_courier_driver_pglg.Driver.{World, Ran, SessionInputs, run_once, after_error}
use jack_courier_driver_pglg.Driver.Roles.{streams}

-- What is left of the sessions for the next one.
abbrev pub held : World → Session
held w = record {
  wal = start_at (cursor_lsn w.db) new_wal_consumer;
  db = w.db;
  submitted = w.submitted;
  answered = w.answered;
}

-- Each transaction of the WAL is handed over, its rows settled, or ends past the cursor.
abbrev pub CoversWal : List Tx → World → Type 0
CoversWal wal w = Covers wal (held w)

-- The transactions that end past an LSN: those that the server sends from there.
abbrev pub past_lsn : Lsn → List Tx → List Tx
past_lsn c [] = []
past_lsn c (t ∷ txs) = if ltb c t.0 then t ∷ past_lsn c txs else past_lsn c txs

-- The stream of a session that starts from the durable cursor.
abbrev pub session_stream : Limits → SessionInputs → World → Stream
session_stream cfg i w = start cfg i.now (cursor_lsn w.db) (held w)

-- What the next session starts from.
abbrev pub next_world : SessionInputs → Ran → World
next_world i (ok u, w) = w
next_world i (err e, w) = (after_error i e w).1

abbrev pub Where : Bool → Type 0 → Type 0
Where true P = P
Where false P = Unit

module _ (lib : Decoders) (cfg : Limits) (show_lsn : Lsn → Bytes)
    (parse_lsn : Bytes → Option Lsn) where
  -- In each session that streams, the server sends the transactions past the cursor in their order,
  -- and nothing of the first one before.
  abbrev pub Resends : List Tx → List SessionInputs → World → Type 0
  Resends wal [] w = Unit
  Resends wal (i ∷ is) w =
      Where (streams i)
        (Sends lib cfg (past_lsn (cursor_lsn w.db) wal) [] i.rounds (session_stream cfg i w))
      × Resends wal is (next_world i (run_once lib cfg show_lsn parse_lsn i w))
