-- ===== src/Parser/Message.antt =====
-- parseWALMessage of wal_parser.go: what the driver keeps of a decoded pgoutput message.
use jack_courier_driver_pglg.Prelude.{ℕ, List, Option, none, some, Bytes, map, ◌==◌}
use jack_courier_driver_pglg.Errors.{Result, ok, err, parse_message, streaming_message}
use jack_courier_driver_pglg.Row.{
  Lsn, ColumnValue, WalMessage, begin, relation, insert, commit, other,
}

-- pglogrepl.TupleDataColumn
pub record TupleColumn : Type 0 where
  pub data_type : ℕ
  pub content : Bytes

-- pglogrepl's messages, the fields that the driver reads. `relation_v1` is RelationMessage,
-- `relation_v2` RelationMessageV2; `stream` stands for the four stream messages, and `unhandled`
-- for every other type.
pub data PgMessage : Type 0 where
  relation_v1 relation_v2 : ℕ → Bytes → List Bytes → PgMessage
  insert_v2 : ℕ → List TupleColumn → PgMessage
  commit_message : Lsn → PgMessage
  begin_message stream unhandled : PgMessage

-- pglogrepl.TupleDataTypeNull
abbrev pub tuple_null : ℕ
tuple_null = b'n'

unfoldable pub column_value : TupleColumn → ColumnValue
column_value c = record { is_null = c.data_type == tuple_null; payload = c.content }

-- the type switch
unfoldable pub of_message : PgMessage → Result WalMessage
of_message (relation_v2 id name cols) =
    ok (relation (record { id = id; name = name; columns = cols }))
of_message (relation_v1 id name cols) =
    ok (relation (record { id = id; name = name; columns = cols }))
of_message (insert_v2 id cols) =
    ok (insert (record { relation_id = id; values = map column_value cols }))
of_message (commit_message end_lsn) = ok (commit end_lsn)
of_message begin_message = ok begin
of_message stream = err streaming_message
of_message unhandled = ok other

-- `parse_v2` is pglogrepl.ParseV2 outside a stream; `none` is its error.
unfoldable pub parse_wal_message : (Bytes → Option PgMessage) → Bytes → Result WalMessage
parse_wal_message parse_v2 wal_data = elim (parse_v2 wal_data) [
  | none ↦ err parse_message
  | some m ↦ of_message m
]
