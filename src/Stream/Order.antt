-- ===== src/Stream/Order.antt =====
-- The cursor never covers a transaction whose rows still wait in memory.
use mathlib.Core.Path.{subst}
use jack_courier_driver_pglg.Prelude.{
  ◌<◌, ◌≡◌, refl, sym, [], ◌∷◌, List, Option, none, some, Bytes, arith, max,
}
use jack_courier_driver_pglg.Errors.{Result, ok, err, standby_timeout}
use jack_courier_driver_pglg.Row.{
  Lsn, ParsedInsert, WalMessage, begin, relation, insert, commit, other,
}
use jack_courier_driver_pglg.Wal.{Decoders, set_relation, parse_insert, receive_message}
use jack_courier_driver_pglg.Wal.Receive.{receive_message-Receives}
use jack_courier_driver_pglg.Parser.Message.{parse_wal_message}
use jack_courier_driver_pglg.Cursor.{cursor_lsn}
use jack_courier_driver_pglg.Stream.{
  Limits, Stream, Inputs, next_receive_deadline, timed_flush, clock_after, standby_tick, on_row,
  on_message, on_parsed, on_received, receive_round, round, run,
}
use jack_courier_driver_pglg.Stream.Then.{Then, on, off, Then-▹, Then-if, Then-here, Then-ok}
use jack_courier_driver_pglg.Stream.Conservation.{before_receive}
use jack_courier_driver_pglg.Stream.Covered.{
  IsCovered, timed_flush-IsCovered, standby_tick-IsCovered, on_commit-IsCovered,
}

-- The commit that a received payload carries.
abbrev pub commit_of_message : Result WalMessage → Option Lsn
commit_of_message (ok (commit l)) = some l
commit_of_message _ = none

-- A commit, if there is one, lies past `b`.
abbrev Ahead : Lsn → Option Lsn → Type 0
Ahead b none = Unit
Ahead b (some l) = b < l

Ahead-some : {b : Lsn} (o : Option Lsn) → Ahead b o → (l : Lsn) → o ≡ some l → b < l
Ahead-some none h l e = absurd (ground arith)
Ahead-some (some k) h l e = ground arith

module _ (lib : Decoders) (cfg : Limits) where
  abbrev pub commit_of_data : Result (Option Bytes) → Option Lsn
  commit_of_data (ok (some wal_data)) = commit_of_message (parse_wal_message lib.parse_v2 wal_data)
  commit_of_data _ = none

  abbrev pub commit_of_receive : Inputs → Stream → Option Lsn
  commit_of_receive i s =
      let deadline = next_receive_deadline s.next_batch_at s.next_standby_at in
      commit_of_data (receive_message lib (i.arrives deadline) i.reply s.wal).0

  -- PostgreSQL sends transactions in the order of their ends: a commit that arrives lies past the
  -- commits before it and past the WAL received before it.
  abbrev pub InOrder : List Inputs → Stream → Type 0
  InOrder [] s = Unit
  InOrder (i ∷ is) s =
      let t = (before_receive lib cfg i s).1 in
      Ahead (max t.pending_commit_lsn t.wal.client_pos) (commit_of_receive i t)
      × InOrder is (round lib cfg i s).1

  on_message-IsCovered :
      (i : Inputs) (m : WalMessage) (s : Stream)
      → ((l : Lsn) → commit_of_message (ok m) ≡ some l → cursor_lsn s.db < l)
      → IsCovered s
      → Then IsCovered (on_message lib cfg i m s)
  unfolding on_message on_row set_relation
  on_message-IsCovered i begin s h c =
      on tt _ (record { open_txs = c.open_txs; rows = c.rows; ahead = c.ahead; bound = c.bound })
  on_message-IsCovered i (relation r) s h c =
      on tt _ (record { open_txs = c.open_txs; rows = c.rows; ahead = c.ahead; bound = c.bound })
  on_message-IsCovered i (insert ins) s h c = on tt _ (go (parse_insert lib ins s.wal))
    where
      go : (r : Result (Option ParsedInsert)) → IsCovered (on_row r s)
      go (err e) = c
      go (ok none) = c
      go (ok (some p)) = record {
        open_txs = c.open_txs;
        rows = c.rows;
        ahead = c.ahead;
        bound = c.bound;
      }
  on_message-IsCovered i (commit l) s h c = on_commit-IsCovered cfg i l s (h l refl) c
  on_message-IsCovered i other s h c = on tt s c

  on_received-IsCovered :
      (i : Inputs) (r : Result (Option Bytes)) (s : Stream)
      → ((l : Lsn) → commit_of_data r ≡ some l → cursor_lsn s.db < l)
      → IsCovered s
      → Then IsCovered (on_received lib cfg i r s)
  unfolding on_received on_parsed
  on_received-IsCovered i (err standby_timeout) s h c = on tt s c
  on_received-IsCovered i (err e) s h c = off _ s
  on_received-IsCovered i (ok none) s h c = on tt s c
  on_received-IsCovered i (ok (some wal_data)) s h c =
      go (parse_wal_message lib.parse_v2 wal_data) h
    where
      go :
          (m : Result WalMessage)
          → ((l : Lsn) → commit_of_message m ≡ some l → cursor_lsn s.db < l)
          → Then IsCovered (on_parsed lib cfg i m s)
      go (err e) k = on tt s c
      go (ok m) k = on_message-IsCovered i m s k c

  receive_round-IsCovered :
      (i : Inputs) (s : Stream)
      → Ahead (max s.pending_commit_lsn s.wal.client_pos) (commit_of_receive i s)
      → IsCovered s
      → Then IsCovered (receive_round lib cfg i s)
  unfolding receive_round
  receive_round-IsCovered i s h c =
      let answer = i.arrives (next_receive_deadline s.next_batch_at s.next_standby_at) in
      let kept = receive_message-Receives lib answer i.reply s.wal in
      on_received-IsCovered i (receive_message lib answer i.reply s.wal).0
        (record s {
          session = record s.session { wal = (receive_message lib answer i.reply s.wal).1 };
        })
        (λ l e. omega (arith, Ahead-some _ h l e, c.bound))
        (record {
          open_txs = c.open_txs;
          rows = c.rows;
          ahead = c.ahead;
          bound = omega (arith, kept.position, c.bound);
        })

  run-Then :
      (is : List Inputs) (s : Stream)
      → InOrder is s
      → IsCovered s
      → Then IsCovered (run lib cfg is s)
  unfolding run round
  run-Then [] s o c = on tt s c
  run-Then (i ∷ is) s o c =
      Then-▹ (round lib cfg i s) (run lib cfg is)
        (Then-here (
          Then-if i.done _ _ (λ stop. off _ s)
            (λ go_on.
              Then-▹ (before_receive lib cfg i s) (receive_round lib cfg i)
                (Then-here (
                  Then-▹ (timed_flush i s) (standby_tick cfg i (clock_after i s))
                    (timed_flush-IsCovered i s c) (standby_tick-IsCovered cfg i (clock_after i s))))
                (λ t (d, at).
                  receive_round-IsCovered i t
                    (subst
                      (λ x.
                        Ahead (max x.pending_commit_lsn x.wal.client_pos) (commit_of_receive i x))
                      (sym at) o.0)
                    d))))
        (λ t (d, at). run-Then is t (subst (InOrder is) (sym at) o.1) d)

  -- When each commit that arrives lies past the commits and the WAL received before it, a stream
  -- whose pending rows belong to transactions past its durable cursor stays so over any rounds that
  -- go on: no timed, full or idle flush moves the cursor over a committed transaction whose rows
  -- were not passed to jack-service.
  pub run-IsCovered :
      (is : List Inputs) (s s' : Stream)
      → InOrder is s
      → IsCovered s
      → run lib cfg is s ≡ (ok tt, s')
      → IsCovered s'
  run-IsCovered is s s' o c h = Then-ok (run-Then is s o c) h
