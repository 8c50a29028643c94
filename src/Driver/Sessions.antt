-- ===== src/Driver/Sessions.antt =====
-- What the sessions in a row keep: the durable state behind what the server was told, and the role.
use jack_courier_driver_pglg.Prelude.{
  ◌≤◌, ◌≡◌, refl, List, [], ◌∷◌, Bool, true, false, Option, none, some, Bytes, All, All-imp, arith,
  Bool-cases, inl, inr, if◌then◌else◌,
}
use jack_courier_driver_pglg.Errors.{
  Error, ok, err, slot_busy, connect, cancelled, read_cursor as read_error,
}
use jack_courier_driver_pglg.Row.{Lsn}
use jack_courier_driver_pglg.Wal.{Decoders, WalConsumer, new_wal_consumer, start_at}
use jack_courier_driver_pglg.Cursor.{position, cursor_lsn, read_cursor}
use jack_courier_driver_pglg.Flush.Confirmed.{Confirmed, Confirmed-mono}
use jack_courier_driver_pglg.Stream.{Limits, start}
use jack_courier_driver_pglg.Stream.Safety.{run-IsConfirmed}
use jack_courier_driver_pglg.Driver.{
  shutdown, World, Ran, SessionInputs, Starting, unidentified, started, refused,
  relinquish_leadership, start_streaming, cursor_answer, close_session, stream, with_cursor,
  run_once, after_error, after_session, continue, run_sessions,
}

-- Whatever any consumer told the server is flushed lies within the durable cursor.
abbrev pub IsDurable : World → Type 0
IsDurable w = All (Confirmed (cursor_lsn w.db)) w.closed

-- A step from `w` keeps what was told durable and does not move the cursor back.
abbrev Sound : World → World → Type 0
Sound w w' = (cursor_lsn w.db ≤ cursor_lsn w'.db) × IsDurable w'

new-Confirmed : (c : Lsn) → Confirmed c new_wal_consumer
new-Confirmed c = record { position = omega arith; told = tt }

start_at-Confirmed : (c : Lsn) → Confirmed c (start_at c new_wal_consumer)
unfolding start_at
start_at-Confirmed c = record { position = omega arith; told = tt }

older : {c d : Lsn} (ws : List WalConsumer) → c ≤ d → All (Confirmed c) ws → All (Confirmed d) ws
older {c} {d} ws h k = All-imp (Confirmed c) (Confirmed d) ws (λ w p. Confirmed-mono h p) k

abbrev GoesOn : World → World → Type 0
GoesOn w w' = IsDurable w' × (cursor_lsn w.db ≤ cursor_lsn w'.db)

after_error-same :
    (i : SessionInputs) (e : Error) (w : World)
    → ((after_error i e w).1.db ≡ w.db) × ((after_error i e w).1.closed ≡ w.closed)
unfolding after_error
after_error-same i slot_busy w = (refl, refl)
after_error-same i e w = (refl, refl)

after_session-Durable :
    (i : SessionInputs) (r : Ran) (k : World → Ran)
    → ((w : World) → IsDurable w → GoesOn w (k w).1)
    → IsDurable r.1
    → GoesOn r.1 (after_session i r k).1
unfolding after_session continue
after_session-Durable i (ok u, w) k f h = (h, omega arith)
after_session-Durable i (err e, w) k f h = go i.stopped (after_error i e w) (after_error-same i e w)
  where
    go :
        (b : Bool) (r : Ran)
        → (r.1.db ≡ w.db) × (r.1.closed ≡ w.closed)
        → GoesOn w
            (if b
              then (err cancelled, record w { driver = relinquish_leadership shutdown w.driver })
              else continue r k).1
    go true r same = (h, omega arith)
    go false (err x, w') (db, closed) = (rw (db, closed) h, rw db (omega arith))
    go false (ok v, w') (db, closed) =
        let (told, forward) = f w' (rw (db, closed) h) in (told, rw (← db) forward)

pub read_cursor-answer :
    (show_lsn : Lsn → Bytes) (parse_lsn : Bytes → Option Lsn)
    → ((l : Lsn) → parse_lsn (show_lsn l) ≡ some l)
    → (c : Option Lsn) → read_cursor parse_lsn (cursor_answer show_lsn true c) ≡ ok (position c)
unfolding read_cursor cursor_answer
read_cursor-answer show_lsn parse_lsn reads none = refl
read_cursor-answer show_lsn parse_lsn reads (some l) = rw reads refl

pub read_cursor-failed :
    (show_lsn : Lsn → Bytes) (parse_lsn : Bytes → Option Lsn) (c : Option Lsn)
    → read_cursor parse_lsn (cursor_answer show_lsn false c) ≡ err read_error
unfolding read_cursor cursor_answer
read_cursor-failed show_lsn parse_lsn c = refl

module _ (lib : Decoders) (cfg : Limits) (show_lsn : Lsn → Bytes) (parse_lsn : Bytes → Option Lsn)
    (reads : (l : Lsn) → parse_lsn (show_lsn l) ≡ some l) where
  stream-Sound :
      (i : SessionInputs) (w : World)
      → IsDurable w
      → Sound w
          (stream lib cfg i
            (cursor_lsn w.db)
            w
            (start_streaming i.starting (cursor_lsn w.db) new_wal_consumer)).1
  unfolding stream close_session start_streaming start
  stream-Sound i w h = go i.starting
    where
      go :
          (s : Starting)
          → Sound w
              (stream lib cfg i
                (cursor_lsn w.db)
                w
                (start_streaming s (cursor_lsn w.db) new_wal_consumer)).1
      go unidentified = (omega arith, (new-Confirmed _, h))
      go (refused b) = (omega arith, (new-Confirmed _, h))
      go started =
          let s = start cfg i.now (cursor_lsn w.db) (record {
            wal = start_at (cursor_lsn w.db) new_wal_consumer;
            db = w.db;
            submitted = w.submitted;
            answered = w.answered;
          }) in
          let (told, forward) =
            run-IsConfirmed lib cfg i.rounds s (start_at-Confirmed (cursor_lsn w.db)) in
          (forward, (told, older w.closed forward h))

  connected-Sound :
      (i : SessionInputs) (w : World)
      → IsDurable w
      → Sound w (with_cursor lib cfg i w (ok (cursor_lsn w.db))).1
  unfolding with_cursor
  connected-Sound i w h = go i.connect_ok
    where
      go :
          (c : Bool)
          → Sound w
              (if c
                then stream lib cfg i
                    (cursor_lsn w.db)
                    w
                    (start_streaming i.starting (cursor_lsn w.db) new_wal_consumer)
                else (err connect, w)).1
      go true = stream-Sound i w h
      go false = (omega arith, h)

  run_once-Sound :
      (i : SessionInputs) (w : World)
      → IsDurable w
      → Sound w (run_once lib cfg show_lsn parse_lsn i w).1
  unfolding run_once with_cursor
  run_once-Sound i w h = elim (Bool-cases i.query_ok) [
    | inl asked ↦
        rw (asked, read_cursor-answer show_lsn parse_lsn reads w.db.cursor) (connected-Sound i w h)
    | inr failed ↦ rw (failed, read_cursor-failed show_lsn parse_lsn w.db.cursor) (omega arith, h)
  ]

  -- Over any sessions, whatever fails in them and however Run ends: if every position that a closed
  -- connection told the server to be flushed was at most the durable cursor before, all are after,
  -- those of the new connections among them; and the cursor has not moved back. It needs that the
  -- driver reads the cursor as PostgreSQL writes it.
  pub run_sessions-IsDurable :
      (is : List SessionInputs) (w : World)
      → IsDurable w
      → IsDurable (run_sessions lib cfg show_lsn parse_lsn is w).1
        × (cursor_lsn w.db ≤ cursor_lsn (run_sessions lib cfg show_lsn parse_lsn is w).1.db)
  unfolding run_sessions
  run_sessions-IsDurable [] w h = (h, omega arith)
  run_sessions-IsDurable (i ∷ is) w h =
      let (forward, told) = run_once-Sound i w h in
      let (told', forward') =
        after_session-Durable i (run_once lib cfg show_lsn parse_lsn i w)
          (run_sessions lib cfg show_lsn parse_lsn is) (run_sessions-IsDurable is) told in
      (told', omega arith)
