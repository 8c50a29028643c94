-- ===== src/Stream/Refinement.antt =====
-- processWALStream as a run of the abstract outbox.
use jack_courier_driver_pglg.Prelude.{◌≡◌, refl, List, true, Option, none, some, Bytes, arith}
use jack_courier_driver_pglg.Errors.{Result, ok, err, standby_timeout}
use jack_courier_driver_pglg.Row.{
  Time, Lsn, ParsedInsert, WalMessage, begin, relation, insert, commit, other,
}
use jack_courier_driver_pglg.Wal.{Decoders, parse_insert, set_relation, receive_message}
use jack_courier_driver_pglg.Wal.Receive.{announced, receive_message-Receives}
use jack_courier_driver_pglg.Parser.Message.{parse_wal_message}
use jack_courier_driver_pglg.Stream.{
  Limits, Stream, Inputs, next_receive_deadline, timed_flush, standby_tick, open_batch, close_tx,
  on_commit, on_row, on_message, on_parsed, on_received, receive_round, run,
}
use jack_courier_driver_pglg.Stream.Rules.{
  joined, idled, Then-timed, Then-standby, Then-commit, run_invariant,
}
use jack_courier_driver_pglg.Stream.Then.{Then, on, off, Then-ok}
use jack_courier_driver_pglg.Stream.Outbox.{
  Outbox, Steps, stay, take_row, close, hear, outbox, Reaches, extend, outbox_eq, transfer,
  flushed-Reaches, closed-Reaches, told-Reaches, idled-Reaches,
}

timed_flush-Reaches :
    (o : Outbox) (i : Inputs) (s : Stream) → Reaches o s → Then (Reaches o) (timed_flush i s)
timed_flush-Reaches o i s h =
    Then-timed i s h (λ e. closed-Reaches o s h e)
      (λ session. flushed-Reaches o i.timed s session h)

standby_tick-Reaches :
    (o : Outbox) (cfg : Limits) (i : Inputs) (now : Time) (s : Stream)
    → Reaches o s
    → Then (Reaches o) (standby_tick cfg i now s)
standby_tick-Reaches o cfg i now s h =
    Then-standby cfg i now s (λ early. h) (λ due busy. told-Reaches o cfg i s h)
      (λ db due idle e. told-Reaches o cfg i (idled s db) (idled-Reaches o s db idle e h))

joined-Reaches :
    (o : Outbox) (cfg : Limits) (i : Inputs) (l : Lsn) (s : Stream)
    → Reaches o s
    → Reaches o (joined cfg i l s)
unfolding open_batch close_tx outbox
joined-Reaches o cfg i l s h = extend o _ s (joined cfg i l s) h (close l) (
    outbox_eq _ _ (ground arith) (ground arith) (ground arith) (ground arith) (ground arith)
      (ground arith) (ground arith) (ground arith))

on_commit-Reaches :
    (o : Outbox) (cfg : Limits) (i : Inputs) (l : Lsn) (s : Stream)
    → Reaches o s
    → Then (Reaches o) (on_commit cfg i l s)
on_commit-Reaches o cfg i l s h =
    let t = joined cfg i l s in
    let k = joined-Reaches o cfg i l s h in
    Then-commit cfg i l s (λ room. k) (closed-Reaches o t k)
      (λ session. flushed-Reaches o i.full t session k)

on_row-Reaches :
    (o : Outbox) (r : Result (Option ParsedInsert)) (s : Stream)
    → Reaches o s
    → Reaches o (on_row r s)
unfolding on_row
on_row-Reaches o (err e) s h = h
on_row-Reaches o (ok none) s h = h
on_row-Reaches o (ok (some p)) s h = extend o _ s _ h (take_row p) (unfold outbox in refl)

module _ (lib : Decoders) (cfg : Limits) (o : Outbox) where
  on_message-Reaches :
      (i : Inputs) (m : WalMessage) (s : Stream)
      → Reaches o s
      → Then (Reaches o) (on_message lib cfg i m s)
  unfolding on_message outbox set_relation
  on_message-Reaches i begin s h = on tt (record s { in_tx = true }) (transfer o s _ h refl)
  on_message-Reaches i (relation r) s h = on tt _ (transfer o s _ h refl)
  on_message-Reaches i (insert ins) s h =
      on tt _ (on_row-Reaches o (parse_insert lib ins s.wal) s h)
  on_message-Reaches i (commit l) s h = on_commit-Reaches o cfg i l s h
  on_message-Reaches i other s h = on tt s h

  on_parsed-Reaches :
      (i : Inputs) (m : Result WalMessage) (s : Stream)
      → Reaches o s
      → Then (Reaches o) (on_parsed lib cfg i m s)
  unfolding on_parsed
  on_parsed-Reaches i (err e) s h = on tt s h
  on_parsed-Reaches i (ok m) s h = on_message-Reaches i m s h

  on_received-Reaches :
      (i : Inputs) (r : Result (Option Bytes)) (s : Stream)
      → Reaches o s
      → Then (Reaches o) (on_received lib cfg i r s)
  unfolding on_received
  on_received-Reaches i (err standby_timeout) s h = on tt s h
  on_received-Reaches i (err e) s h = off _ s
  on_received-Reaches i (ok none) s h = on tt s h
  on_received-Reaches i (ok (some wal_data)) s h =
      on_parsed-Reaches i (parse_wal_message lib.parse_v2 wal_data) s h

  receive_round-Reaches :
      (i : Inputs) (s : Stream) → Reaches o s → Then (Reaches o) (receive_round lib cfg i s)
  unfolding receive_round
  receive_round-Reaches i s h =
      let arrived = i.arrives (next_receive_deadline s.next_batch_at s.next_standby_at) in
      let (r, wal) = receive_message lib arrived i.reply s.wal in
      let told_only = receive_message-Receives lib arrived i.reply s.wal in
      on_received-Reaches i r (record s { session = record s.session { wal = wal } })
        (extend o _ s _ h (hear (announced lib arrived)) (
          unfold outbox in
          outbox_eq _ _ refl refl refl told_only.position refl refl refl told_only.flush))

-- The loop refines the outbox: any rounds that go on are steps of the outbox, in which rows are taken
-- and committed in their order, and the cursor and the confirmed position move only in two ways: up
-- to the last commit, when all the rows that wait, of which there are some, are handed over with
-- their dead letters; or up to the received position, while nothing waits or is uncommitted.
pub run-Steps :
    (lib : Decoders) (cfg : Limits) (is : List Inputs) (s s' : Stream)
    → run lib cfg is s ≡ (ok tt, s')
    → Steps (outbox s) (outbox s')
run-Steps lib cfg is s s' h =
    unfold Reaches in
    Then-ok
      (run_invariant lib cfg (timed_flush-Reaches (outbox s)) (standby_tick-Reaches (outbox s) cfg)
        (receive_round-Reaches lib cfg (outbox s)) is s stay)
      h
