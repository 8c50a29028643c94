-- ===== src/Parser.antt =====
-- wal_parser.go: from pgoutput messages to outbox rows.
pub mod Bytea
pub mod Message
pub mod Columns
use jack_courier_driver_pglg.Prelude.{
  ℕ, List, [], ◌∷◌, Bool, true, false, Option, none, some, Bytes, codes, text_eq, length, ◌==◌,
  if◌then◌else◌,
}
use jack_courier_driver_pglg.Errors.{
  Error, Result, ok, err, ◌>>=◌, column_count, parse_id, parse_created_at, decode_payload,
  parse_run_at,
}
use jack_courier_driver_pglg.Strconv.{parse_int}
use jack_courier_driver_pglg.Row.{Time, ColumnValue, ParsedInsert, empty_insert}
use Bytea.{decode_bytea}

-- `if err != nil { return nil, … }`
abbrev pub or_fail {ℓ} : {A : Type ℓ} → Error → Option A → Result A
or_fail e none = err e
or_fail e (some a) = ok a

-- The layouts that parseTimestamp tries, in its order.
abbrev pub timestamp_layouts : List Bytes
timestamp_layouts =
    codes "2006-01-02 15:04:05.999999+00"
    ∷ codes "2006-01-02 15:04:05.999999-07"
    ∷ codes "2006-01-02 15:04:05.999999Z"
    ∷ codes "2006-01-02T15:04:05.999999999Z07:00"
    ∷ codes "2006-01-02T15:04:05Z07:00"
    ∷ codes "2006-01-02 15:04:05+00"
    ∷ codes "2006-01-02 15:04:05-07"
    ∷ []

-- `time_parse layout value` is time.Parse.
module _ (time_parse : Bytes → Bytes → Option Time) where
  -- the loop of parseTimestamp
  first_layout : List Bytes → Bytes → Option Time
  first_layout [] s = none
  first_layout (f ∷ fs) s = elim (time_parse f s) [ some t ↦ some t | none ↦ first_layout fs s ]

  unfoldable pub parse_timestamp : Bytes → Option Time
  unfolding first_layout
  parse_timestamp s = first_layout timestamp_layouts s

  -- the switch on the column's name
  unfoldable pub set_field : Bytes → Bytes → ParsedInsert → Result ParsedInsert
  set_field name v row =
      if text_eq name (codes "id")
      then (do n ← or_fail parse_id (parse_int v); ok (record row { id = n }))
      else if text_eq name (codes "created_at")
      then (do t ← or_fail parse_created_at (parse_timestamp v); ok (record row { created_at = t }))
      else if text_eq name (codes "producer_id")
      then ok (record row { producer_id = v })
      else if text_eq name (codes "job_type")
      then ok (record row { job_type = v })
      else if text_eq name (codes "payload")
      then (do b ← or_fail decode_payload (decode_bytea v); ok (record row { payload = b }))
      else if text_eq name (codes "run_at")
      then (do t ← or_fail parse_run_at (parse_timestamp v); ok (record row { run_at = t }))
      else if text_eq name (codes "trace_id")
      then ok (record row { trace_id = v })
      else if text_eq name (codes "shadow")
      then ok (record row { shadow = text_eq v (codes "t") })
      else ok row

  unfoldable pub set_column : Bytes → ColumnValue → ParsedInsert → Result ParsedInsert
  set_column name v row = if v.is_null then ok row else set_field name v.payload row

  -- the loop of parseInsertColumns, over lists of one length
  unfoldable pub set_columns : List Bytes → List ColumnValue → ParsedInsert → Result ParsedInsert
  set_columns [] vs row = ok row
  set_columns (c ∷ cs) [] row = ok row
  set_columns (c ∷ cs) (v ∷ vs) row = set_column c v row >>= set_columns cs vs

  unfoldable pub parse_insert_columns : List Bytes → List ColumnValue → Result ParsedInsert
  parse_insert_columns columns values =
      if length columns == length values
      then set_columns columns values empty_insert
      else err column_count
