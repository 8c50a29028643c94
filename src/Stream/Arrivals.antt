-- ===== src/Stream/Arrivals.antt =====
-- What a round of processWALStream receives, and what it does to the buffer and the positions.
use jack_courier_driver_pglg.Prelude.{
  ◌≤◌, ◌≡◌, refl, sym, [], ◌++◌, List, Option, none, some, Bytes, max, append-nil, arith,
}
use jack_courier_driver_pglg.Errors.{Result, ok, err, standby_timeout}
use jack_courier_driver_pglg.Row.{
  Lsn, ParsedInsert, WalMessage, begin, relation, insert, commit, other,
}
use jack_courier_driver_pglg.Wal.{Decoders, set_relation, parse_insert, receive_message}
use jack_courier_driver_pglg.Wal.Receive.{announced, receive_message-Receives}
use jack_courier_driver_pglg.Parser.Message.{parse_wal_message}
use jack_courier_driver_pglg.Stream.{
  Stream, Inputs, Limits, next_receive_deadline, timed_flush, standby_tick, clock_after, open_batch,
  close_tx, on_commit, on_row, on_message, on_parsed, on_received, receive_round,
}
use jack_courier_driver_pglg.Stream.Conservation.{
  before_receive, row_of_parse, row_of_message, row_of_data, row_of_receive,
}
use jack_courier_driver_pglg.Stream.Order.{commit_of_message, commit_of_data, commit_of_receive}
use jack_courier_driver_pglg.Stream.Rules.{joined, Then-timed, Then-standby, Then-commit}
use jack_courier_driver_pglg.Stream.Then.{Then, on, off, Then-▹}
use jack_courier_driver_pglg.Stream.Both.{Both, Both-commit}
use jack_courier_driver_pglg.Stream.Both as Two

-- The rows that the server has sent since its last commit, once more has arrived.
abbrev pub open_after : Option Lsn → List ParsedInsert → List ParsedInsert → List ParsedInsert
open_after none open_rows row = open_rows ++ row
open_after (some l) open_rows row = []

abbrev pub position_of : Option Lsn → Lsn
position_of none = 0
position_of (some l) = l

-- All that a stream has received or may commit to the cursor.
abbrev pub reached : Stream → Lsn
reached s = max s.pending_commit_lsn s.wal.client_pos

module _ (lib : Decoders) (cfg : Limits) where
  -- The position that the message of a round announces.
  abbrev pub announced_in : Inputs → Stream → Lsn
  announced_in i s =
      announced lib (i.arrives (next_receive_deadline s.next_batch_at s.next_standby_at))

  -- The buffer is what the commit `c` and the row of a message make of the one of before.
  abbrev Buffers : Option Lsn → List ParsedInsert → Stream → Stream → Type 0
  Buffers c row s s' = s'.buf ≡ open_after c s.buf row

  nothing_buffered : (s : Stream) → s.buf ≡ s.buf ++ []
  nothing_buffered s = sym (append-nil s.buf)

  joined-buf : (i : Inputs) (l : Lsn) (s : Stream) → (joined cfg i l s).buf ≡ []
  unfolding open_batch close_tx
  joined-buf i l s = ground arith

  on_message-Buffers :
      (i : Inputs) (m : WalMessage) (s : Stream)
      → Then
          (Buffers (commit_of_message (ok m)) (row_of_message lib s.wal (ok m)) s)
          (on_message lib cfg i m s)
  unfolding on_message on_row
  on_message-Buffers i begin s = on tt _ (nothing_buffered s)
  on_message-Buffers i (relation r) s = on tt _ (nothing_buffered s)
  on_message-Buffers i (insert ins) s = on tt _ (go (parse_insert lib ins s.wal))
    where
      go : (r : Result (Option ParsedInsert)) → Buffers none (row_of_parse r) s (on_row r s)
      go (err e) = nothing_buffered s
      go (ok none) = nothing_buffered s
      go (ok (some p)) = refl
  on_message-Buffers i (commit l) s =
      Then-commit cfg i l s (λ room. joined-buf i l s) (λ e. joined-buf i l s)
        (λ session d. joined-buf i l s)
  on_message-Buffers i other s = on tt s (nothing_buffered s)

  on_received-Buffers :
      (i : Inputs) (r : Result (Option Bytes)) (s : Stream)
      → Then
          (Buffers (commit_of_data lib cfg r) (row_of_data lib s.wal r) s)
          (on_received lib cfg i r s)
  unfolding on_received on_parsed
  on_received-Buffers i (err standby_timeout) s = on tt s (nothing_buffered s)
  on_received-Buffers i (err e) s = off _ s
  on_received-Buffers i (ok none) s = on tt s (nothing_buffered s)
  on_received-Buffers i (ok (some wal_data)) s = go (parse_wal_message lib.parse_v2 wal_data)
    where
      go :
          (m : Result WalMessage)
          → Then
              (Buffers (commit_of_message m) (row_of_message lib s.wal m) s)
              (on_parsed lib cfg i m s)
      go (err e) = on tt s (nothing_buffered s)
      go (ok m) = on_message-Buffers i m s

  pub receive_round-Buffers :
      (i : Inputs) (s : Stream)
      → Then
          (Buffers (commit_of_receive lib cfg i s) (row_of_receive lib cfg i s) s)
          (receive_round lib cfg i s)
  unfolding receive_round
  receive_round-Buffers i s =
      let arrived = i.arrives (next_receive_deadline s.next_batch_at s.next_standby_at) in
      let (r, wal) = receive_message lib arrived i.reply s.wal in
      on_received-Buffers i r (record s { session = record s.session { wal = wal } })

  pub before_receive-buf :
      (i : Inputs) (s : Stream) → Then (λ t. t.buf ≡ s.buf) (before_receive lib cfg i s)
  before_receive-buf i s =
      Then-▹ (timed_flush i s) (standby_tick cfg i (clock_after i s))
        (Then-timed i s refl (λ e. refl) (λ session d. refl))
        (λ t same.
          Then-standby cfg i (clock_after i s) t (λ not_due. same) (λ due busy. same)
            (λ db due free e. same))

  -- Nothing beyond the old positions and `l` is reached.
  record Within (l : Lsn) (s s' : Stream) : Type 0 where
    bound : reached s' ≤ max (reached s) l

  on_commit-Within :
      (i : Inputs) (l : Lsn) (s : Stream) → Both (Within l s) (Within l s) (on_commit cfg i l s)
  on_commit-Within i l s =
      Both-commit cfg i l s joined_within (λ e. record { bound = joined_within.bound })
        (λ session d. record { bound = rw d.received joined_within.bound })
        (λ session d. record { bound = rw d.consumer joined_within.bound })
    where
      joined_within : Within l s (joined cfg i l s)
      joined_within = unfold open_batch close_tx in record { bound = ground arith }

  on_message-Within :
      (i : Inputs) (m : WalMessage) (s : Stream)
      → (let l = position_of (commit_of_message (ok m)) in
          Both (Within l s) (Within l s) (on_message lib cfg i m s))
  unfolding on_message on_row set_relation
  on_message-Within i begin s = Two.on tt _ (record { bound = omega arith })
  on_message-Within i (relation r) s = Two.on tt _ (record { bound = omega arith })
  on_message-Within i (insert ins) s = Two.on tt _ (go (parse_insert lib ins s.wal))
    where
      go : (r : Result (Option ParsedInsert)) → Within 0 s (on_row r s)
      go (err e) = record { bound = omega arith }
      go (ok none) = record { bound = omega arith }
      go (ok (some p)) = record { bound = omega arith }
  on_message-Within i (commit l) s = on_commit-Within i l s
  on_message-Within i other s = Two.on tt s (record { bound = omega arith })

  on_received-Within :
      (i : Inputs) (r : Result (Option Bytes)) (s : Stream)
      → (let l = position_of (commit_of_data lib cfg r) in
          Both (Within l s) (Within l s) (on_received lib cfg i r s))
  unfolding on_received on_parsed
  on_received-Within i (err standby_timeout) s = Two.on tt s (record { bound = omega arith })
  on_received-Within i (err e) s = Two.off _ s (record { bound = omega arith })
  on_received-Within i (ok none) s = Two.on tt s (record { bound = omega arith })
  on_received-Within i (ok (some wal_data)) s = go (parse_wal_message lib.parse_v2 wal_data)
    where
      go :
          (m : Result WalMessage)
          → (let l = position_of (commit_of_message m) in
              Both (Within l s) (Within l s) (on_parsed lib cfg i m s))
      go (err e) = Two.on tt s (record { bound = omega arith })
      go (ok m) = on_message-Within i m s

  -- Receiving reaches no further than what is announced and committed.
  pub receive_round-reached :
      (i : Inputs) (s : Stream)
      → (let l = max (position_of (commit_of_receive lib cfg i s)) (announced_in i s) in
          Both
            (λ u. reached u ≤ max (reached s) l)
            (λ u. reached u ≤ max (reached s) l)
            (receive_round lib cfg i s))
  unfolding receive_round
  receive_round-reached i s =
      let arrived = i.arrives (next_receive_deadline s.next_batch_at s.next_standby_at) in
      let (r, wal) = receive_message lib arrived i.reply s.wal in
      let known = (receive_message-Receives lib arrived i.reply s.wal).position in
      Two.Both-imp (on_received-Within i r (record s { session = record s.session { wal = wal } }))
        (λ u w. omega (arith, w.bound, known)) (λ u w. omega (arith, w.bound, known))
