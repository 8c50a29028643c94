-- ===== src/Driver/Roles.antt =====
-- The role and its metrics over the sessions of a driver.
use jack_courier_driver_pglg.Prelude.{
  ◌≡◌, refl, ap, ◌∙◌, ◌⊎◌, inl, inr, List, [], ◌∷◌, Bool, true, false, ◌&&◌, ◌||◌, Option, some,
  Bytes, arith, Bool-cases, if◌then◌else◌,
}
use jack_courier_driver_pglg.Errors.{Error, Result, ok, err, slot_busy, cancelled}
use jack_courier_driver_pglg.Row.{Lsn}
use jack_courier_driver_pglg.Wal.{Decoders, WalConsumer, new_wal_consumer}
use jack_courier_driver_pglg.Cursor.{cursor_lsn}
use jack_courier_driver_pglg.Stream.{Limits}
use jack_courier_driver_pglg.Driver.{
  shutdown, busy_slot, World, Ran, SessionInputs, Starting, unidentified, started, refused, role,
  acquire_leadership, relinquish_leadership, emit_leader_gauge, start_streaming, close_session,
  stream, with_cursor, run_once, after_error, after_session, continue, run_sessions,
}
use jack_courier_driver_pglg.Driver.Sessions.{read_cursor-answer, read_cursor-failed}
use jack_courier_driver_pglg.Driver.Leadership.{
  IsReported, acquire_leadership-IsReported, relinquish_leadership-IsReported,
}

-- A session leaves the driver as it is, or makes it the leader.
abbrev Leads : World → World → Type 0
Leads w w' = (w'.driver ≡ w.driver) ⊎ (w'.driver ≡ acquire_leadership w.driver)

after_error-IsReported :
    (i : SessionInputs) (e : Error) (w : World)
    → IsReported w.driver
    → IsReported (after_error i e w).1.driver
unfolding after_error
after_error-IsReported i slot_busy w h =
    let k = relinquish_leadership-IsReported busy_slot w.driver h in
    record { shown = k.shown; counted = k.counted }
after_error-IsReported i e w h = h

after_session-IsReported :
    (i : SessionInputs) (r : Ran) (k : World → Ran)
    → ((w : World) → IsReported w.driver → IsReported (k w).1.driver)
    → IsReported r.1.driver
    → IsReported (after_session i r k).1.driver
unfolding after_session continue
after_session-IsReported i (ok u, w) k f h = h
after_session-IsReported i (err e, w) k f h =
    go i.stopped (after_error i e w) (after_error-IsReported i e w h)
  where
    go :
        (b : Bool) (r : Ran)
        → IsReported r.1.driver
        → IsReported
            (if b
              then (err cancelled, record w { driver = relinquish_leadership shutdown w.driver })
              else continue r k).1.driver
    go true r same = relinquish_leadership-IsReported shutdown w.driver h
    go false (err x, w') same = same
    go false (ok v, w') same = f w' same

stream-Leads :
    (lib : Decoders) (cfg : Limits) (i : SessionInputs) (l : Lsn) (w : World) (c : WalConsumer)
    (s : Starting)
    → Leads w (stream lib cfg i l w (start_streaming s l c)).1
unfolding stream start_streaming close_session
stream-Leads lib cfg i l w c unidentified = inl refl
stream-Leads lib cfg i l w c (refused b) = inl refl
stream-Leads lib cfg i l w c started = inr refl

-- The session's connection streams.
abbrev pub is_started : Starting → Bool
is_started started = true
is_started _ = false

abbrev pub streams : SessionInputs → Bool
streams i = i.query_ok && i.connect_ok && is_started i.starting

abbrev pub is_busy : Error → Bool
is_busy slot_busy = true
is_busy _ = false

role-after_error :
    (i : SessionInputs) (e : Error) (w : World)
    → role (after_error i e w).1.driver ≡ (if is_busy e then false else role w.driver)
unfolding after_error relinquish_leadership emit_leader_gauge
role-after_error i slot_busy w = ground arith
role-after_error i e w = refl

role-after_session :
    (i : SessionInputs) (e : Error) (r : Ran)
    → r.0 ≡ err e
    → role (after_session i r (λ w. (ok tt, w))).1.driver
      ≡ (if i.stopped || is_busy e then false else role r.1.driver)
unfolding after_session continue relinquish_leadership emit_leader_gauge
role-after_session i e (ok u, w) h = absurd (ground arith)
role-after_session i e (err x, w) h =
    let same : x ≡ e = ground arith in
    rw (← same) (go i.stopped (after_error i x w) (role-after_error i x w))
  where
    go :
        (b : Bool) (r : Ran)
        → role r.1.driver ≡ (if is_busy x then false else role w.driver)
        → role
            (if b
              then (err cancelled, record w { driver = relinquish_leadership shutdown w.driver })
              else continue r (λ w'. (ok tt, w'))).1.driver
          ≡ (if b || is_busy x then false else role w.driver)
    go true r g = ground arith
    go false (ok v, w') g = g
    go false (err y, w') g = g

module _ (lib : Decoders) (cfg : Limits) (show_lsn : Lsn → Bytes)
    (parse_lsn : Bytes → Option Lsn) where
  with_cursor-Leads :
      (i : SessionInputs) (w : World) (r : Result Lsn) → Leads w (with_cursor lib cfg i w r).1
  unfolding with_cursor
  with_cursor-Leads i w (err e) = inl refl
  with_cursor-Leads i w (ok l) = elim (Bool-cases i.connect_ok) [
    | inl there ↦ rw there (stream-Leads lib cfg i l w new_wal_consumer i.starting)
    | inr gone ↦ rw gone (inl refl)
  ]

  run_once-Leads :
      (i : SessionInputs) (w : World) → Leads w (run_once lib cfg show_lsn parse_lsn i w).1
  unfolding run_once
  run_once-Leads i w = with_cursor-Leads i w _

  run_once-IsReported :
      (i : SessionInputs) (w : World)
      → IsReported w.driver
      → IsReported (run_once lib cfg show_lsn parse_lsn i w).1.driver
  run_once-IsReported i w h = elim (run_once-Leads i w) [
    | inl same ↦ rw same h
    | inr led ↦ rw led (acquire_leadership-IsReported w.driver h)
  ]

  -- Over any sessions, and however Run ends: if the gauge of the leader role showed the role and the
  -- role was acquired once more than relinquished just on a leader, both are so after.
  pub run_sessions-IsReported :
      (is : List SessionInputs) (w : World)
      → IsReported w.driver
      → IsReported (run_sessions lib cfg show_lsn parse_lsn is w).1.driver
  unfolding run_sessions
  run_sessions-IsReported [] w h = h
  run_sessions-IsReported (i ∷ is) w h =
      after_session-IsReported i _ _ (run_sessions-IsReported is) (run_once-IsReported i w h)

  role-stream :
      (i : SessionInputs) (l : Lsn) (w : World) (c : WalConsumer) (s : Starting)
      → role (stream lib cfg i l w (start_streaming s l c)).1.driver
        ≡ (is_started s || role w.driver)
  unfolding stream start_streaming close_session acquire_leadership emit_leader_gauge
  role-stream i l w c unidentified = refl
  role-stream i l w c (refused b) = refl
  role-stream i l w c started = ground arith

  role-run_once :
      ((l : Lsn) → parse_lsn (show_lsn l) ≡ some l)
      → (i : SessionInputs) (w : World)
      → role (run_once lib cfg show_lsn parse_lsn i w).1.driver ≡ (streams i || role w.driver)
  unfolding run_once with_cursor
  role-run_once reads i w = elim (Bool-cases i.query_ok) [
    | inr failed ↦ rw (failed, read_cursor-failed show_lsn parse_lsn w.db.cursor) refl
    | inl asked ↦
        rw (asked, read_cursor-answer show_lsn parse_lsn reads w.db.cursor)
          (elim (Bool-cases i.connect_ok) [
            | inl there ↦ rw there (role-stream i (cursor_lsn w.db) w new_wal_consumer i.starting)
            | inr gone ↦ rw gone refl
          ])
  ]

  -- The role after a session that has failed, whatever it was before: standby where the driver stops
  -- or the slot was taken; else leader where the connection had streamed, and as before where not. It
  -- needs that the driver reads the cursor as PostgreSQL writes it.
  pub role-run_sessions :
      ((l : Lsn) → parse_lsn (show_lsn l) ≡ some l)
      → (i : SessionInputs) (w : World) (e : Error)
      → (run_once lib cfg show_lsn parse_lsn i w).0 ≡ err e
      → role (run_sessions lib cfg show_lsn parse_lsn (i ∷ []) w).1.driver
        ≡ (if i.stopped || is_busy e then false else (streams i || role w.driver))
  unfolding run_sessions
  role-run_sessions reads i w e h =
      role-after_session i e (run_once lib cfg show_lsn parse_lsn i w) h
      ∙ ap (λ (b : Bool). if i.stopped || is_busy e then false else b) (role-run_once reads i w)
