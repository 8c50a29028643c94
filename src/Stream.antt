-- ===== src/Stream.antt =====
-- processWALStream of driver.go: the receive loop, one function for one round. The local variables
-- and the session are the fields of `Stream`; what the round meets (clock, context, connection,
-- database, jack-service) is an `Inputs`. A round that returns gives its error; one that goes on,
-- by `continue` or at its end, gives `ok`.
pub mod Then
pub mod Both
pub mod Rules
pub mod Safety
pub mod Conservation
pub mod Covered
pub mod Order
pub mod Batch
pub mod Standby
pub mod Outbox
pub mod Refinement
pub mod Delivery
pub mod Restart
pub mod Arrivals
pub mod Resend
pub mod Carries
pub mod Waiting
use jack_courier_driver_pglg.Prelude.{
  ℕ, ◌+◌, List, [], ◌∷◌, ◌++◌, Bool, true, false, not, ◌&&◌, ◌||◌, Option, none, some, Bytes,
  length, ltb, leb, ◌==◌, if◌then◌else◌,
}
use jack_courier_driver_pglg.Errors.{
  Error, Result, ok, err, cancelled, standby_timeout, standby_status, receive,
}
use jack_courier_driver_pglg.Row.{
  Time, Lsn, ParsedInsert, WalMessage, WalInsert, begin, relation, insert, commit, other,
}
use jack_courier_driver_pglg.Parser.Message.{parse_wal_message}
use jack_courier_driver_pglg.Wal.{
  WalConsumer, Decoders, Received, Sending, set_relation, parse_insert, received_past_flush,
  send_standby_status, set_flush_lsn, receive_message,
}
use jack_courier_driver_pglg.Cursor.{Db, TxFaults, persist_flush_result}
use jack_courier_driver_pglg.Flush.{Session, FlushInputs, flush_batch}

-- The fields of Config that the loop reads, after setDefaults.
pub record Limits : Type 0 where
  pub max_batch_size : ℕ
  pub batch_timeout : ℕ
  pub standby_interval : ℕ

-- `next_batch_at` is the zero time while no batch is open.
pub record Stream : Type 0 where
  pub session : Session
  pub open session use *
  pub buf : List ParsedInsert
  pub pending_inserts : List ParsedInsert
  pub pending_commit_lsn : Lsn
  pub in_tx : Bool
  pub next_batch_at : Time
  pub next_standby_at : Time

-- One field for each place where a round calls out; not every round reads every field.
pub record Inputs : Type 0 where
  pub done : Bool
  pub now : Time
  pub timed : FlushInputs
  pub now_after_flush : Time
  pub idle_tx : TxFaults
  pub idle_sending : Sending
  pub now_after_status : Time
  -- the deadline is an argument, as it decides what arrives in time
  pub arrives : Time → Received
  pub reply : Sending
  pub now_at_commit : Time
  pub full : FlushInputs

-- txBuffer
abbrev pub is_nil {ℓ} : {A : Type ℓ} → List A → Bool
is_nil [] = true
is_nil (x ∷ xs) = false

abbrev pub is_zero : Time → Bool
is_zero t = t == 0

unfoldable pub can_advance_idle_flush : List ParsedInsert → List ParsedInsert → Bool → Bool
can_advance_idle_flush pending buf in_tx = is_nil pending && is_nil buf && not in_tx

unfoldable pub next_receive_deadline : Time → Time → Time
next_receive_deadline batch_at standby_at =
    if is_zero batch_at || ltb standby_at batch_at then standby_at else batch_at

abbrev pub Round : Type 0
Round = Result (Unit {0}) × Stream

-- Statements in a row: an error returns from the loop.
infixl 5 ◌▹◌
abbrev pub ◌▹◌ : Round → (Stream → Round) → Round
(ok u, s) ▹ k = k s
(err e, s) ▹ k = (err e, s)

-- Both places that flush the pending rows and then forget them.
unfoldable pub after_flush : Stream → Result (Unit {0}) × Session → Round
after_flush s (ok u, session) =
    (ok tt, record s { session = session; pending_inserts = []; next_batch_at = 0 })
after_flush s (err e, session) = (err e, record s { session = session })

unfoldable pub flush_pending : FlushInputs → Stream → Round
unfolding after_flush
flush_pending i s = after_flush s (flush_batch i s.pending_inserts s.pending_commit_lsn s.session)

batch_due : Time → Stream → Bool
batch_due now s = not (is_zero s.next_batch_at) && leb s.next_batch_at now

-- The timed flush; its second part is the clock as the rest of the round reads it.
unfoldable pub timed_flush : Inputs → Stream → Round
unfolding batch_due
timed_flush i s =
    if batch_due i.now s
    then if is_nil s.pending_inserts
      then (ok tt, record s { next_batch_at = 0 })
      else flush_pending i.timed s
    else (ok tt, s)

unfoldable pub clock_after : Inputs → Stream → Time
unfolding batch_due
clock_after i s = if batch_due i.now s then i.now_after_flush else i.now

after_status : Limits → Inputs → Stream → Result (Unit {0}) × WalConsumer → Round
after_status cfg i s (err e, wal) =
    (err (standby_status e), record s { session = record s.session { wal = wal } })
after_status cfg i s (ok u, wal) = (
  ok tt,
  record s {
    session = record s.session { wal = wal };
    next_standby_at = i.now_after_status + cfg.standby_interval;
  },
)

-- The status is sent whether or not the flush position moved.
unfoldable pub send_status_at : Limits → Inputs → Stream → Round
unfolding after_status
send_status_at cfg i s = after_status cfg i s (send_standby_status i.idle_sending s.wal)

after_idle : Limits → Inputs → Stream → Result (Unit {0}) × Db → Round
after_idle cfg i s (err e, db) = (err e, record s { session = record s.session { db = db } })
after_idle cfg i s (ok u, db) = send_status_at cfg i (record s {
  session = record s.session { db = db; wal = set_flush_lsn s.wal.client_pos s.wal };
})

-- the standby deadline has passed
unfoldable pub standby : Limits → Inputs → Stream → Round
unfolding after_idle
standby cfg i s =
    if can_advance_idle_flush s.pending_inserts s.buf s.in_tx && received_past_flush s.wal
    then after_idle cfg i s (persist_flush_result i.idle_tx [] s.wal.client_pos s.db)
    else send_status_at cfg i s

unfoldable pub standby_tick : Limits → Inputs → Time → Stream → Round
standby_tick cfg i now s = if leb s.next_standby_at now then standby cfg i s else (ok tt, s)

unfoldable pub open_batch : Limits → Inputs → Bool → Stream → Stream
open_batch cfg i was_empty s =
    if was_empty && not (is_nil s.pending_inserts)
    then record s { next_batch_at = i.now_at_commit + cfg.batch_timeout }
    else s

-- the rows of the transaction join the pending ones
unfoldable pub close_tx : Lsn → Stream → Stream
close_tx l s = record s {
  pending_inserts = s.pending_inserts ++ s.buf;
  pending_commit_lsn = if ltb s.pending_commit_lsn l then l else s.pending_commit_lsn;
  buf = [];
  in_tx = false;
}

flush_if_full : Limits → Inputs → Stream → Round
flush_if_full cfg i s =
    if leb cfg.max_batch_size (length s.pending_inserts) then flush_pending i.full s else (ok tt, s)

unfoldable pub on_commit : Limits → Inputs → Lsn → Stream → Round
unfolding flush_if_full
on_commit cfg i l s =
    flush_if_full cfg i (open_batch cfg i (is_nil s.pending_inserts) (close_tx l s))

-- A row that cannot be parsed is dropped.
on_row : Result (Option ParsedInsert) → Stream → Stream
on_row (err e) s = s
on_row (ok none) s = s
on_row (ok (some p)) s = record s { buf = s.buf ++ p ∷ [] }

module _ (lib : Decoders) (cfg : Limits) where
  unfoldable pub on_message : Inputs → WalMessage → Stream → Round
  unfolding on_row
  on_message i begin s = (ok tt, record s { in_tx = true })
  on_message i (relation r) s = (
    ok tt,
    record s { session = record s.session { wal = set_relation r.id r.name r.columns s.wal } },
  )
  on_message i (insert ins) s = (ok tt, on_row (parse_insert lib ins s.wal) s)
  on_message i (commit l) s = on_commit cfg i l s
  on_message i other s = (ok tt, s)

  on_parsed : Inputs → Result WalMessage → Stream → Round
  on_parsed i (err e) s = (ok tt, s)
  on_parsed i (ok m) s = on_message i m s

  -- errors.Is(err, errStandbyTimeout); any other error returns
  on_received : Inputs → Result (Option Bytes) → Stream → Round
  unfolding on_parsed
  on_received i (err standby_timeout) s = (ok tt, s)
  on_received i (err e) s = (err (receive e), s)
  on_received i (ok none) s = (ok tt, s)
  on_received i (ok (some wal_data)) s = on_parsed i (parse_wal_message lib.parse_v2 wal_data) s

  unfoldable pub receive_round : Inputs → Stream → Round
  unfolding on_received
  receive_round i s =
      let deadline = next_receive_deadline s.next_batch_at s.next_standby_at in
      let (r, wal) = receive_message lib (i.arrives deadline) i.reply s.wal in
      on_received i r (record s { session = record s.session { wal = wal } })

  -- one round of the loop
  unfoldable pub round : Inputs → Stream → Round
  round i s =
      if i.done
      then (err cancelled, s)
      else (timed_flush i s ▹ standby_tick cfg i (clock_after i s) ▹ receive_round i)

  -- the loop, over the inputs of its rounds: `ok` where it is still running after them
  unfoldable pub run : List Inputs → Stream → Round
  run [] s = (ok tt, s)
  run (i ∷ is) s = round i s ▹ run is

-- The variables at the head of processWALStream; `now` is the clock.
unfoldable pub start : Limits → Time → Lsn → Session → Stream
start cfg now start_lsn session = record {
  session = session;
  buf = [];
  pending_inserts = [];
  pending_commit_lsn = start_lsn;
  in_tx = false;
  next_batch_at = 0;
  next_standby_at = now + cfg.standby_interval;
}
