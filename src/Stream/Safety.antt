-- ===== src/Stream/Safety.antt =====
-- No round tells the server more than the durable cursor holds.
use jack_courier_driver_pglg.Prelude.{
  ℕ, ◌≤◌, ◌≡◌, refl, ◌⊎◌, inl, inr, [], ◌∷◌, List, Bool, true, false, Option, none, some, Bytes,
  arith, All, if◌then◌else◌,
}
use mathlib.Core.Path.{subst}
use jack_courier_driver_pglg.Errors.{standby_timeout, Result, ok, err}
use jack_courier_driver_pglg.Row.{
  Time, Lsn, WalMessage, begin, relation, insert, commit, other, ParsedInsert,
}
use jack_courier_driver_pglg.Wal.{
  WalConsumer, Decoders, Received, Sending, set_flush_lsn, set_relation, standby_status_update,
  parse_insert, receive_message,
}
use jack_courier_driver_pglg.Wal.Status.{heard_flush, heard-standby_status_update}
use jack_courier_driver_pglg.Wal.Receive.{Receives, receive_message-Receives}
use jack_courier_driver_pglg.Parser.Message.{parse_wal_message}
use jack_courier_driver_pglg.Cursor.{Db, cursor_lsn}
use jack_courier_driver_pglg.Cursor.Persist.{IsAtomic, persist_flush_result-IsAtomic}
use jack_courier_driver_pglg.Flush.{Session, FlushInputs}
use jack_courier_driver_pglg.Flush.Confirmed.{
  Confirmed, Confirmed-mono, Confirmed-send, Confirmed-set_flush_lsn, IsConfirmed, Safe, Safe-refl,
  Safe-trans, flush_batch-Safe,
}
use jack_courier_driver_pglg.Stream.{
  next_receive_deadline, is_nil, Limits, Stream, Inputs, Round, ◌▹◌, after_flush, flush_pending,
  after_status, timed_flush, clock_after, send_status_at, after_idle, standby, standby_tick,
  open_batch, close_tx, flush_if_full, on_commit, on_message, on_parsed, on_received, receive_round,
  round, run, on_row,
}

abbrev pub Keeps : Stream → Round → Type 0
Keeps s r = Safe s.session r.1.session

Keeps-▹ :
    (s : Stream) (r : Round) (k : Stream → Round)
    → Keeps s r
    → ((s' : Stream) → Keeps s' (k s'))
    → Keeps s (r ▹ k)
Keeps-▹ s (ok u, s') k h f = Safe-trans h (f s')
Keeps-▹ s (err e, s') k h f = h

Keeps-if :
    (s : Stream) (b : Bool) (a c : Round) → Keeps s a → Keeps s c → Keeps s (if b then a else c)
Keeps-if s true a c ka kc = ka
Keeps-if s false a c ka kc = kc

after_flush-Keeps :
    (s : Stream) (r : Result (Unit {0}) × Session) → Safe s.session r.1 → Keeps s (after_flush s r)
unfolding after_flush
after_flush-Keeps s (ok u, session) h = h
after_flush-Keeps s (err e, session) h = h

flush_pending-Keeps : (i : FlushInputs) (s : Stream) → Keeps s (flush_pending i s)
unfolding flush_pending
flush_pending-Keeps i s =
    after_flush-Keeps s _ (flush_batch-Safe i s.pending_inserts s.pending_commit_lsn s.session)

timed_flush-Keeps : (i : Inputs) (s : Stream) → Keeps s (timed_flush i s)
unfolding timed_flush
timed_flush-Keeps i s = ground (arith, flush_pending-Keeps i.timed s)

after_status-Keeps :
    (cfg : Limits) (i : Inputs) (s : Stream) (r : Result (Unit {0}) × WalConsumer)
    → (IsConfirmed s.session → Confirmed (cursor_lsn s.db) r.1)
    → Keeps s (after_status cfg i s r)
unfolding after_status
after_status-Keeps cfg i s (ok u, wal) h = record { confirmed = h; forward = omega arith }
after_status-Keeps cfg i s (err e, wal) h = record { confirmed = h; forward = omega arith }

send_status_at-Keeps : (cfg : Limits) (i : Inputs) (s : Stream) → Keeps s (send_status_at cfg i s)
unfolding send_status_at
send_status_at-Keeps cfg i s = after_status-Keeps cfg i s _ (Confirmed-send i.idle_sending)

after_idle-Keeps :
    (cfg : Limits) (i : Inputs) (s : Stream) (r : Result (Unit {0}) × Db)
    → IsAtomic [] s.wal.client_pos s.db r
    → Keeps s (after_idle cfg i s r)
unfolding after_idle
after_idle-Keeps cfg i s (err e, db) (which, done, top, up) = record {
  confirmed = λ h. Confirmed-mono up h;
  forward = up;
}
after_idle-Keeps cfg i s (ok u, db) (which, done, top, up) =
    Safe-trans moved (send_status_at-Keeps cfg i _)
  where
    moved :
        Safe s.session (record s.session { db = db; wal = set_flush_lsn s.wal.client_pos s.wal })
    moved = record {
      confirmed =
          λ h. Confirmed-set_flush_lsn s.wal.client_pos (grind (arith, done)) (Confirmed-mono up h);
      forward = up;
    }

standby-Keeps : (cfg : Limits) (i : Inputs) (s : Stream) → Keeps s (standby cfg i s)
unfolding standby
standby-Keeps cfg i s = ground (
  arith,
  send_status_at-Keeps cfg i s,
  after_idle-Keeps cfg i s _ (persist_flush_result-IsAtomic i.idle_tx [] s.wal.client_pos s.db),
)

standby_tick-Keeps :
    (cfg : Limits) (i : Inputs) (now : Time) (s : Stream) → Keeps s (standby_tick cfg i now s)
unfolding standby_tick
standby_tick-Keeps cfg i now s = ground (arith, standby-Keeps cfg i s)

flush_if_full-Keeps : (cfg : Limits) (i : Inputs) (s : Stream) → Keeps s (flush_if_full cfg i s)
unfolding flush_if_full
flush_if_full-Keeps cfg i s = ground (arith, flush_pending-Keeps i.full s)

commit_session :
    (cfg : Limits) (i : Inputs) (b : Bool) (l : Lsn) (s : Stream)
    → (open_batch cfg i b (close_tx l s)).session ≡ s.session
unfolding open_batch close_tx
commit_session cfg i b l s = ground arith

on_commit-Keeps : (cfg : Limits) (i : Inputs) (l : Lsn) (s : Stream) → Keeps s (on_commit cfg i l s)
unfolding on_commit
on_commit-Keeps cfg i l s =
    let t = open_batch cfg i (is_nil s.pending_inserts) (close_tx l s) in
    subst (λ x. Safe x (flush_if_full cfg i t).1.session)
      (commit_session cfg i (is_nil s.pending_inserts) l s) (flush_if_full-Keeps cfg i t)

same_wal :
    (s : Session) (w : WalConsumer)
    → (IsConfirmed s → Confirmed (cursor_lsn s.db) w)
    → Safe s (record s { wal = w })
same_wal s w h = record { confirmed = h; forward = omega arith }

Confirmed-set_relation :
    {c : Lsn} {w : WalConsumer} (id : ℕ) (name : Bytes) (cols : List Bytes)
    → Confirmed c w
    → Confirmed c (set_relation id name cols w)
unfolding set_relation
Confirmed-set_relation id name cols h = record { position = h.position; told = h.told }

Confirmed-Receives :
    {lib : Decoders} {r : Received} {c : Lsn} {w w' : WalConsumer} {s : Sending}
    → Receives lib r w w' s
    → Confirmed c w
    → Confirmed c w'
Confirmed-Receives {c} {w} {w'} {s} r h = record {
  position = omega (arith, r.flush);
  told = go r.updates;
}
  where
    go :
        (w'.sent ≡ w.sent) ⊎ (w'.sent ≡ standby_status_update w' s.now ∷ w.sent)
        → All (λ u. heard_flush u ≤ c) w'.sent
    go (inl same) = rw same h.told
    go (inr more) =
        rw more (omega (arith, heard-standby_status_update w' s.now, r.flush, h.position), h.told)

module _ (lib : Decoders) (cfg : Limits) where
  on_row-session :
      (r : Result (Option ParsedInsert)) (s : Stream) → (on_row r s).session ≡ s.session
  unfolding on_row
  on_row-session (err e) s = refl
  on_row-session (ok none) s = refl
  on_row-session (ok (some p)) s = refl

  on_message-Keeps : (i : Inputs) (m : WalMessage) (s : Stream) → Keeps s (on_message lib cfg i m s)
  unfolding on_message
  on_message-Keeps i begin s = Safe-refl s.session
  on_message-Keeps i (relation r) s =
      same_wal s.session _ (Confirmed-set_relation r.id r.name r.columns)
  on_message-Keeps i (insert ins) s =
      rw (on_row-session (parse_insert lib ins s.wal) s) (Safe-refl s.session)
  on_message-Keeps i (commit l) s = on_commit-Keeps cfg i l s
  on_message-Keeps i other s = Safe-refl s.session

  on_parsed-Keeps :
      (i : Inputs) (m : Result WalMessage) (s : Stream) → Keeps s (on_parsed lib cfg i m s)
  unfolding on_parsed
  on_parsed-Keeps i (err e) s = Safe-refl s.session
  on_parsed-Keeps i (ok m) s = on_message-Keeps i m s

  on_received-Keeps :
      (i : Inputs) (r : Result (Option Bytes)) (s : Stream) → Keeps s (on_received lib cfg i r s)
  unfolding on_received
  on_received-Keeps i (err standby_timeout) s = Safe-refl s.session
  on_received-Keeps i (err e) s = Safe-refl s.session
  on_received-Keeps i (ok none) s = Safe-refl s.session
  on_received-Keeps i (ok (some wal_data)) s =
      on_parsed-Keeps i (parse_wal_message lib.parse_v2 wal_data) s

  receive_round-Keeps : (i : Inputs) (s : Stream) → Keeps s (receive_round lib cfg i s)
  unfolding receive_round
  receive_round-Keeps i s =
      let answer = i.arrives (next_receive_deadline s.next_batch_at s.next_standby_at) in
      Safe-trans
        (same_wal s.session _
          (Confirmed-Receives (receive_message-Receives lib answer i.reply s.wal)))
        (on_received-Keeps i (receive_message lib answer i.reply s.wal).0 _)

  round-Keeps : (i : Inputs) (s : Stream) → Keeps s (round lib cfg i s)
  unfolding round
  round-Keeps i s = Keeps-if s i.done _ _ (Safe-refl s.session) (
      Keeps-▹ s (timed_flush i s ▹ standby_tick cfg i (clock_after i s)) (receive_round lib cfg i)
        (Keeps-▹ s (timed_flush i s) _ (timed_flush-Keeps i s)
          (standby_tick-Keeps cfg i (clock_after i s)))
        (receive_round-Keeps i))

  pub run-Safe : (is : List Inputs) (s : Stream) → Safe s.session (run lib cfg is s).1.session
  unfolding run
  run-Safe [] s = Safe-refl s.session
  run-Safe (i ∷ is) s =
      Keeps-▹ s (round lib cfg i s) (run lib cfg is) (round-Keeps i s) (run-Safe is)

  -- Over any rounds, whatever fails in them and however the last one ends: if the consumer's flush
  -- position and every position that the server was told were at most the durable cursor before,
  -- they are after; and the cursor has not moved back.
  pub run-IsConfirmed :
      (is : List Inputs) (s : Stream)
      → IsConfirmed s.session
      → IsConfirmed (run lib cfg is s).1.session
        × (cursor_lsn s.db ≤ cursor_lsn (run lib cfg is s).1.db)
  run-IsConfirmed is s h = ((run-Safe is s).confirmed h, (run-Safe is s).forward)
