-- ===== src/Row.antt =====
-- The rows and messages that the components pass on: the wire types of wal_parser.go, the job and
-- result of courier-lib and the dead letter row of dlq.go.
use jack_courier_driver_pglg.Prelude.{ℕ, [], List, Bool, false, Bytes, ℤ, pos}
use jack_courier_driver_pglg.Strconv.{format_int}

-- A time.Time as the nanoseconds since the zero time (January 1, year 1, UTC), so IsZero is `0`.
abbrev pub Time : Type 0
Time = ℕ

abbrev pub zero_time : Time
zero_time = 0

-- pglogrepl.LSN, a uint64.
abbrev pub Lsn : Type 0
Lsn = ℕ

pub record ColumnValue : Type 0 where
  pub is_null : Bool
  pub payload : Bytes

pub record WalRelation : Type 0 where
  pub id : ℕ
  pub name : Bytes
  pub columns : List Bytes

pub record WalInsert : Type 0 where
  pub relation_id : ℕ
  pub values : List ColumnValue

-- What parseWALMessage returns: `other` is its nil, a message that the driver does not handle.
pub data WalMessage : Type 0 where
  begin : WalMessage
  relation : WalRelation → WalMessage
  insert : WalInsert → WalMessage
  commit : Lsn → WalMessage
  other : WalMessage

pub record ParsedInsert : Type 0 where
  pub id : ℤ
  pub created_at : Time
  pub producer_id : Bytes
  pub job_type : Bytes
  pub payload : Bytes
  pub run_at : Time
  pub trace_id : Bytes
  pub shadow : Bool

abbrev pub empty_insert : ParsedInsert
empty_insert = record {
  id = pos 0;
  created_at = zero_time;
  producer_id = [];
  job_type = [];
  payload = [];
  run_at = zero_time;
  trace_id = [];
  shadow = false;
}

-- courier.Job: the fields that the driver sets.
pub record Job : Type 0 where
  pub correlation_id : Bytes
  pub producer_id : Bytes
  pub job_type : Bytes
  pub payload : Bytes
  pub run_at : Time
  pub trace_id : Bytes
  pub shadow : Bool

-- (*parsedInsert).toJob
unfoldable pub to_job : ParsedInsert → Job
to_job p = record {
  correlation_id = format_int p.id;
  producer_id = p.producer_id;
  job_type = p.job_type;
  payload = p.payload;
  run_at = p.run_at;
  trace_id = p.trace_id;
  shadow = p.shadow;
}

-- courier.SubmitResult: the fields that the driver reads. An empty `error` is success.
pub record SubmitResult : Type 0 where
  pub correlation_id : Bytes
  pub error : Bytes
  pub reason : Bytes

pub record DlqRow : Type 0 where
  pub id : ℤ
  pub created_at : Time
  pub producer_id : Bytes
  pub job_type : Bytes
  pub payload : Bytes
  pub run_at : Time
  pub trace_id : Bytes
  pub shadow : Bool
  pub reason : Bytes
  pub error_message : Bytes
