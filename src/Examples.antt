-- ===== src/Examples.antt =====
-- A sample of the driver's environment, and the theorems at it.
pub mod Loop
pub mod Batch
pub mod Wire
pub mod Service
pub mod Upkeep
pub mod Maintenance
pub mod Setup
pub mod Restarts
pub mod Handover
pub mod Bench
use jack_courier_driver_pglg.Prelude.{
  ℕ, List, [], ◌∷◌, Bool, true, false, Option, none, some, Bytes, codes, map, pos, ◌==◌,
  if◌then◌else◌,
}
use jack_courier_driver_pglg.Row.{Time, Job, ParsedInsert, SubmitResult}
use jack_courier_driver_pglg.Parser.Columns.{outbox_columns}
use jack_courier_driver_pglg.Parser.Message.{
  PgMessage, TupleColumn, begin_message, relation_v2, insert_v2, commit_message, unhandled,
}
use jack_courier_driver_pglg.Wal.{
  Decoders, Keepalive, XLogData, Received, copy_data, timeout, Sending, WalConsumer, start_at,
  new_wal_consumer,
}
use jack_courier_driver_pglg.Cursor.{Db, TxFaults}
use jack_courier_driver_pglg.Flush.{Session, FlushInputs}
use jack_courier_driver_pglg.Stream.{Limits, Inputs, Stream, start}

-- A wire format: the first byte of a message is its type.
abbrev column : Bytes → TupleColumn
column s = record { data_type = b't'; content = s }

abbrev sample_columns : List TupleColumn
sample_columns =
    column (codes "7")
    ∷ column (codes "now")
    ∷ column (codes "api")
    ∷ column (codes "mail")
    ∷ column (codes "hi")
    ∷ record { data_type = b'n'; content = [] }
    ∷ column (codes "t1")
    ∷ column (codes "f")
    ∷ []

abbrev sample_v2 : Bytes → Option PgMessage
sample_v2 [] = none
sample_v2 (b ∷ rest) =
    if b == b'B'
    then some begin_message
    else if b == b'R'
    then some (relation_v2 1 (codes "jobs") outbox_columns)
    else if b == b'I'
    then some (insert_v2 1 sample_columns)
    else some (commit_message b)

abbrev sample_keepalive : Bytes → Option Keepalive
sample_keepalive (n ∷ m ∷ rest) = some (record { server_wal_end = n; reply_requested = m == 1 })
sample_keepalive _ = none

abbrev sample_data : Bytes → Option XLogData
sample_data (n ∷ rest) = some (record { wal_start = n; wal_data = rest })
sample_data [] = none

abbrev pub sample_time : Bytes → Bytes → Option Time
sample_time layout s = some 5

abbrev pub sample_lib : Decoders
sample_lib = record {
  parse_v2 = sample_v2;
  parse_keepalive = sample_keepalive;
  parse_xlog_data = sample_data;
  time_parse = sample_time;
}

-- jack-service rejects each job.
abbrev reject : Job → SubmitResult
reject j = record { correlation_id = j.correlation_id; error = codes "full"; reason = [] }

abbrev pub no_faults : TxFaults
no_faults = record {
  begin_ok = true;
  insert_ok = true;
  cursor_ok = true;
  commit_ok = true;
  commit_applied = true;
}

abbrev pub sample_sending : Sending
sample_sending = record { now = 30; accepted = true }

abbrev pub rejecting : FlushInputs
rejecting = record {
  submit = λ jobs. some (map reject jobs);
  tx = no_faults;
  sending = sample_sending;
}

-- jack-service does not answer.
abbrev pub silent : FlushInputs
silent = record { submit = λ jobs. none; tx = no_faults; sending = sample_sending }

abbrev pub sample_db : Db
sample_db = record { cursor = some 3; dlq = [] }

abbrev pub sample_session : Session
sample_session = record {
  wal = start_at 3 new_wal_consumer;
  db = sample_db;
  submitted = [];
  answered = [];
}

abbrev pub sample_limits : Limits
sample_limits = record { max_batch_size = 1; batch_timeout = 1000; standby_interval = 10 }

abbrev pub sample_start : Stream
sample_start = start sample_limits 20 3 sample_session

-- A round at time `now` in which the payload `wal_data` arrives.
abbrev pub receiving : Time → Bytes → Inputs
receiving now wal_data = record {
  done = false;
  now = now;
  timed = rejecting;
  now_after_flush = now;
  idle_tx = no_faults;
  idle_sending = sample_sending;
  now_after_status = now;
  arrives = λ deadline. copy_data (b'w' ∷ 4 ∷ wal_data);
  reply = sample_sending;
  now_at_commit = now;
  full = rejecting;
}

-- A transaction of one row that ends at 12.
abbrev pub sample_rounds : List Inputs
sample_rounds =
    receiving 21 (b'B' ∷ [])
    ∷ receiving 22 (b'R' ∷ [])
    ∷ receiving 23 (b'I' ∷ [])
    ∷ receiving 24 (12 ∷ [])
    ∷ []

abbrev pub sample_round : Inputs
sample_round = receiving 31 (b'B' ∷ [])

-- Nothing is pending, and something was received past the flush position.
abbrev pub sample_idle : Stream
sample_idle = record {
  session = record {
    wal = record { relations = []; client_pos = 9; flush_lsn = 3; sent = [] };
    db = sample_db;
    submitted = [];
    answered = [];
  };
  buf = [];
  pending_inserts = [];
  pending_commit_lsn = 3;
  in_tx = false;
  next_batch_at = 0;
  next_standby_at = 30;
}

abbrev pub sample_row : ParsedInsert
sample_row = record {
  id = pos 7;
  created_at = 5;
  producer_id = codes "api";
  job_type = codes "mail";
  payload = codes "hi";
  run_at = 0;
  trace_id = codes "t1";
  shadow = false;
}

-- jack-service rejects the row.
abbrev pub sample_result : SubmitResult
sample_result = record { correlation_id = codes "7"; error = codes "full"; reason = [] }
