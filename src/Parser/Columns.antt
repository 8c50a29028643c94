-- ===== src/Parser/Columns.antt =====
-- What parseInsertColumns promises.
use jack_courier_driver_pglg.Prelude.{
  List, [], ◌∷◌, ◌++◌, ◌≡◌, refl, Bool, true, false, Option, none, some, Bytes, codes, text_eq,
  length, length-append, if◌then◌else◌, arith, All, InInt64,
}
use jack_courier_driver_pglg.Errors.{ok, err, ◌>>=◌}
use jack_courier_driver_pglg.Strconv.{format_int}
use jack_courier_driver_pglg.Strconv.RoundTrip.{parse_int-format_int}
use jack_courier_driver_pglg.Row.{Time, zero_time, ColumnValue, ParsedInsert, empty_insert}
use jack_courier_driver_pglg.Parser.{
  set_field, set_column, set_columns, parse_insert_columns, parse_timestamp,
}
use jack_courier_driver_pglg.Parser.Bytea.{hex_encode, IsByte, decode_bytea-encode}

-- The columns of the outbox table that the driver reads (sql/001_create_outbox.sql).
abbrev pub outbox_columns : List Bytes
outbox_columns =
    codes "id"
    ∷ codes "created_at"
    ∷ codes "producer_id"
    ∷ codes "job_type"
    ∷ codes "payload"
    ∷ codes "run_at"
    ∷ codes "trace_id"
    ∷ codes "shadow"
    ∷ []

abbrev pub IsUnknown : Bytes → Type 0
IsUnknown c = All (λ (k : Bytes). text_eq c k ≡ false) outbox_columns

abbrev shown : Bytes → ColumnValue
shown s = record { is_null = false; payload = s }

abbrev shown_bool : Bool → Bytes
shown_bool b = if b then codes "t" else codes "f"

-- A NULL is a column value whose data is empty.
abbrev shown_time : Option Bytes → ColumnValue
shown_time none = record { is_null = true; payload = [] }
shown_time (some s) = shown s

-- PostgreSQL's text output of a row of the outbox table, with the texts of its two times.
abbrev pub render : ParsedInsert → Bytes → Option Bytes → List ColumnValue
render row created run =
    shown (format_int row.id)
    ∷ shown created
    ∷ shown row.producer_id
    ∷ shown row.job_type
    ∷ shown (b'\\' ∷ b'x' ∷ hex_encode row.payload)
    ∷ shown_time run
    ∷ shown row.trace_id
    ∷ shown (shown_bool row.shadow)
    ∷ []

module _ (time_parse : Bytes → Bytes → Option Time) where
  -- The text of the run_at column, or NULL for the zero time.
  abbrev pub ShowsRunAt : Time → Option Bytes → Type 0
  ShowsRunAt t none = t ≡ zero_time
  ShowsRunAt t (some s) = parse_timestamp time_parse s ≡ some t

  unknown_field :
      (c v : Bytes) (row : ParsedInsert) → IsUnknown c → set_field time_parse c v row ≡ ok row
  unfolding set_field
  unknown_field c v row h = ground arith

  unknown_column :
      (c : Bytes) (v : ColumnValue) (row : ParsedInsert)
      → IsUnknown c
      → set_column time_parse c v row ≡ ok row
  unfolding set_column
  unknown_column c v row h = ground (arith, unknown_field c v.payload row h)

  skip_column :
      (cs ds : List Bytes) (c : Bytes) (vs ws : List ColumnValue) (v : ColumnValue)
      (row : ParsedInsert)
      → IsUnknown c
      → length cs ≡ length vs
      → set_columns time_parse (cs ++ c ∷ ds) (vs ++ v ∷ ws) row
        ≡ set_columns time_parse (cs ++ ds) (vs ++ ws) row
  unfolding set_columns
  skip_column [] ds c [] ws v row h e = rw (unknown_column c v row h)
  skip_column [] ds c (x ∷ vs) ws v row h e = absurd (omega arith)
  skip_column (d ∷ cs) ds c [] ws v row h e = absurd (omega arith)
  skip_column (d ∷ cs) ds c (x ∷ vs) ws v row h e =
      elim (set_column time_parse d x row)
        as (λ r.
          (r >>= set_columns time_parse (cs ++ c ∷ ds) (vs ++ v ∷ ws))
          ≡ (r >>= set_columns time_parse (cs ++ ds) (vs ++ ws))) [
            | ok r ↦ skip_column cs ds c vs ws v r h (omega arith)
            | err x ↦ refl
          ]

  -- A column that the driver does not know, at any position and with any value, does not change
  -- what a row is parsed to, errors included.
  pub parse_insert_columns_skip :
      (cs ds : List Bytes) (c : Bytes) (vs ws : List ColumnValue) (v : ColumnValue)
      → IsUnknown c
      → length cs ≡ length vs
      → parse_insert_columns time_parse (cs ++ c ∷ ds) (vs ++ v ∷ ws)
        ≡ parse_insert_columns time_parse (cs ++ ds) (vs ++ ws)
  unfolding parse_insert_columns
  parse_insert_columns_skip cs ds c vs ws v h e = ground (
    arith,
    length-append cs (c ∷ ds),
    length-append cs ds,
    length-append vs (v ∷ ws),
    length-append vs ws,
    skip_column cs ds c vs ws v empty_insert h e,
  )

  -- The text form of an outbox row is parsed to that row, when its id is an int64, its payload
  -- consists of bytes and the texts of its times are those that parseTimestamp reads so.
  pub parse_insert_columns-render :
      (row : ParsedInsert) (created : Bytes) (run : Option Bytes)
      → InInt64 row.id
      → All IsByte row.payload
      → parse_timestamp time_parse created ≡ some row.created_at
      → ShowsRunAt row.run_at run
      → parse_insert_columns time_parse outbox_columns (render row created run) ≡ ok row
  unfolding parse_insert_columns set_columns set_column set_field text_eq
  parse_insert_columns-render row created run i p c r =
      ground (arith, parse_int-format_int row.id i, decode_bytea-encode row.payload p)
