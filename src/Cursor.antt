-- ===== src/Cursor.antt =====
-- cursor.go, and persistFlushResult of driver.go: the durable state of the driver and the
-- transaction that moves it. `cursor` is the row of the cursor table with the driver's slot name,
-- the only one that it reads or writes; `dlq` is the dead letter table, oldest row first.
pub mod Persist
use jack_courier_driver_pglg.Prelude.{
  ℕ, List, [], ◌++◌, Bool, true, false, Option, none, some, Bytes, ltb, if◌then◌else◌,
}
use jack_courier_driver_pglg.Errors.{
  Error, Result, ok, err, ◌>>=◌, read_cursor as read_error, parse_cursor, write_cursor, insert_dlq,
  begin_flush, commit_flush,
}
use jack_courier_driver_pglg.Row.{Lsn, DlqRow}
use jack_courier_driver_pglg.Dlq.{Statement, dlq_statement}
use jack_courier_driver_pglg.Parser.{or_fail}

pub record Db : Type 0 where
  pub cursor : Option Lsn
  pub dlq : List DlqRow

-- A missing row stands for 0/0.
abbrev pub position : Option Lsn → Lsn
position none = 0
position (some l) = l

abbrev pub cursor_lsn : Db → Lsn
cursor_lsn db = position db.cursor

-- The answer to readCursor's query.
pub data CursorAnswer : Type 0 where
  no_rows query_failed : CursorAnswer
  row : Bytes → CursorAnswer

-- `parse_lsn` is pglogrepl.ParseLSN
unfoldable pub read_cursor : (Bytes → Option Lsn) → CursorAnswer → Result Lsn
read_cursor parse_lsn no_rows = ok 0
read_cursor parse_lsn query_failed = err read_error
read_cursor parse_lsn (row s) = or_fail parse_cursor (parse_lsn s)

-- INSERT … ON CONFLICT DO UPDATE … WHERE EXCLUDED.last_lsn > last_lsn
unfoldable pub upsert_cursor : Lsn → Option Lsn → Option Lsn
upsert_cursor l none = some l
upsert_cursor l (some c) = if ltb c l then some l else some c

-- Which calls of one flush transaction return no error. A commit that returns one may have been
-- applied by the server all the same.
pub record TxFaults : Type 0 where
  pub begin_ok : Bool
  pub insert_ok : Bool
  pub cursor_ok : Bool
  pub commit_ok : Bool
  pub commit_applied : Bool

-- insertDLQRows in the transaction `tx`
insert_dlq_rows : Bool → List DlqRow → Db → Result Db
insert_dlq_rows executes rows tx = elim (dlq_statement rows) [
  | none ↦ ok tx
  | some s ↦ if executes then ok (record tx { dlq = tx.dlq ++ rows }) else err insert_dlq
]

write_cursor_tx : Bool → Lsn → Db → Result Db
unfolding upsert_cursor
write_cursor_tx executes l tx =
    if executes then ok (record tx { cursor = upsert_cursor l tx.cursor }) else err write_cursor

-- The statements of the transaction; the deferred Rollback drops `tx` on an error.
unfoldable pub transaction : TxFaults → List DlqRow → Lsn → Db → Result Db
unfolding insert_dlq_rows write_cursor_tx
transaction f rows l db = do
  tx ← insert_dlq_rows f.insert_ok rows db
  write_cursor_tx f.cursor_ok l tx

unfoldable pub commit : TxFaults → Db → Result Db → Result (Unit {0}) × Db
commit f db (err e) = (err e, db)
commit f db (ok tx) =
    if f.commit_ok then (ok tt, tx) else (err commit_flush, if f.commit_applied then tx else db)

unfoldable pub persist_flush_result : TxFaults → List DlqRow → Lsn → Db → Result (Unit {0}) × Db
unfolding transaction commit
persist_flush_result f rows l db =
    if f.begin_ok then commit f db (transaction f rows l db) else (err begin_flush, db)
