-- ===== src/Wal.antt =====
-- wal.go: the consumer of the replication connection. The connection is seen as the list of status
-- updates that were sent over it (`sent`); what it receives is an argument.
pub mod Status
pub mod Receive
pub mod Connect
use jack_courier_driver_pglg.Prelude.{
  ℕ, ◌+◌, ◌%◌, ◌^◌, List, [], ◌∷◌, ◌++◌, Bool, true, false, Option, none, some, Bytes, length, ltb,
  ◌==◌, if◌then◌else◌,
}
use jack_courier_driver_pglg.Errors.{
  Error, Result, ok, err, ◌>>=◌, standby_timeout, slot_busy, receive_message as receive_error,
  parse_keepalive as keepalive_error, parse_xlog_data as xlog_error, send_status, start_replication,
}
use jack_courier_driver_pglg.Row.{Time, Lsn, WalInsert, ParsedInsert}
use jack_courier_driver_pglg.Parser.{parse_insert_columns}
use jack_courier_driver_pglg.Parser.Message.{PgMessage}

-- What pglogrepl and package time decode; `none` is an error.
pub record Keepalive : Type 0 where
  pub server_wal_end : Lsn
  pub reply_requested : Bool

pub record XLogData : Type 0 where
  pub wal_start : Lsn
  pub wal_data : Bytes

pub record Decoders : Type 0 where
  pub parse_v2 : Bytes → Option PgMessage
  pub parse_keepalive : Bytes → Option Keepalive
  pub parse_xlog_data : Bytes → Option XLogData
  pub time_parse : Bytes → Bytes → Option Time

-- The answers of (*PgConn).ReceiveMessage: an error that pgconn.Timeout accepts, another error, a
-- CopyData message, or another message.
pub data Received : Type 0 where
  timeout failure unrelated : Received
  copy_data : Bytes → Received

-- mapStartReplicationError: `true` stands for a PgError with code ObjectInUse.
unfoldable pub map_start_replication_error : Bool → Error
map_start_replication_error true = slot_busy
map_start_replication_error false = start_replication

pub record RelationMeta : Type 0 where
  pub name : Bytes
  pub columns : List Bytes

-- pglogrepl.StandbyStatusUpdate
pub record StatusUpdate : Type 0 where
  pub wal_write : Lsn
  pub wal_flush : Lsn
  pub wal_apply : Lsn
  pub client_time : Time

pub record WalConsumer : Type 0 where
  pub relations : List (ℕ × RelationMeta)
  pub client_pos : Lsn
  pub flush_lsn : Lsn
  pub sent : List StatusUpdate

-- newWALConsumer
abbrev pub new_wal_consumer : WalConsumer
new_wal_consumer = record { relations = []; client_pos = 0; flush_lsn = 0; sent = [] }

-- the end of startStreaming
unfoldable pub start_at : Lsn → WalConsumer → WalConsumer
start_at l w = record w { client_pos = l; flush_lsn = l }

-- uint64 addition
abbrev pub add_lsn : Lsn → ℕ → Lsn
add_lsn l n = (l + n) % 2 ^ 64

unfoldable pub advance : Lsn → WalConsumer → WalConsumer
advance l w = if ltb w.client_pos l then record w { client_pos = l } else w

unfoldable pub set_flush_lsn : Lsn → WalConsumer → WalConsumer
set_flush_lsn l w = if ltb w.flush_lsn l then record w { flush_lsn = l } else w

unfoldable pub received_past_flush : WalConsumer → Bool
received_past_flush w = ltb w.flush_lsn w.client_pos

unfoldable pub standby_status_update : WalConsumer → Time → StatusUpdate
standby_status_update w now = record {
  wal_write =
      if w.flush_lsn == 0
      then 0
      else if ltb w.client_pos w.flush_lsn
      then w.flush_lsn
      else w.client_pos;
  wal_flush = w.flush_lsn;
  wal_apply = w.flush_lsn;
  client_time = now;
}

-- One call of SendStandbyStatusUpdate: the time that it reads, and whether it returns no error.
pub record Sending : Type 0 where
  pub now : Time
  pub accepted : Bool

-- An update that fails may still have reached the server, so it counts as sent.
unfoldable pub send_standby_status : Sending → WalConsumer → Result (Unit {0}) × WalConsumer
unfolding standby_status_update
send_standby_status s w = (
  if s.accepted then ok tt else err send_status,
  record w { sent = standby_status_update w s.now ∷ w.sent },
)

-- setRelation: a map assignment, the newest entry in front
unfoldable pub set_relation : ℕ → Bytes → List Bytes → WalConsumer → WalConsumer
set_relation id name columns w = record w {
  relations = (id, record { name = name; columns = columns }) ∷ w.relations;
}

unfoldable pub find_relation : ℕ → List (ℕ × RelationMeta) → Option RelationMeta
find_relation id [] = none
find_relation id ((k, m) ∷ rest) = if k == id then some m else find_relation id rest

module _ (lib : Decoders) where
  -- parseInsert: `ok none` is its nil
  unfoldable pub parse_insert : WalInsert → WalConsumer → Result (Option ParsedInsert)
  unfolding find_relation
  parse_insert ins w = elim (find_relation ins.relation_id w.relations) [
    | none ↦ ok none
    | some rel ↦ do row ← parse_insert_columns lib.time_parse rel.columns ins.values; ok (some row)
  ]

  after_send : Result (Unit {0}) × WalConsumer → Result (Option Bytes) × WalConsumer
  after_send (r, w) = (do _ ← r; ok none, w)

  on_keepalive : Option Keepalive → Sending → WalConsumer → Result (Option Bytes) × WalConsumer
  unfolding after_send
  on_keepalive none s w = (err keepalive_error, w)
  on_keepalive (some k) s w =
      let w' = advance k.server_wal_end w in
      if k.reply_requested then after_send (send_standby_status s w') else (ok none, w')

  on_xlog_data : Option XLogData → WalConsumer → Result (Option Bytes) × WalConsumer
  on_xlog_data none w = (err xlog_error, w)
  on_xlog_data (some x) w =
      (ok (some x.wal_data), advance (add_lsn x.wal_start (length x.wal_data)) w)

  -- pglogrepl.PrimaryKeepaliveMessageByteID and XLogDataByteID
  on_copy_data : Bytes → Sending → WalConsumer → Result (Option Bytes) × WalConsumer
  unfolding on_keepalive on_xlog_data
  on_copy_data [] s w = (ok none, w)
  on_copy_data (b ∷ rest) s w =
      if b == b'k'
      then on_keepalive (lib.parse_keepalive rest) s w
      else if b == b'w'
      then on_xlog_data (lib.parse_xlog_data rest) w
      else (ok none, w)

  -- receiveMessage: `ok none` is its nil data
  unfoldable pub receive_message :
      Received → Sending → WalConsumer → Result (Option Bytes) × WalConsumer
  unfolding on_copy_data
  receive_message timeout s w = (err standby_timeout, w)
  receive_message failure s w = (err receive_error, w)
  receive_message unrelated s w = (ok none, w)
  receive_message (copy_data bytes) s w = on_copy_data bytes s w
