-- ===== src/Cursor/Persist.antt =====
-- The flush transaction is atomic and never moves the cursor back.
use jack_courier_driver_pglg.Prelude.{
  Bool, true, false, if◌then◌else◌, Bool-cases, ◌≤◌, ◌≡◌, ◌⊎◌, inl, inr, List, [], ◌∷◌, ◌++◌,
  Option, none, some, arith, append-nil, max,
}
use jack_courier_driver_pglg.Errors.{
  Error, Result, ok, err, commit_flush, begin_flush, write_cursor, insert_dlq,
}
use jack_courier_driver_pglg.Row.{Lsn, DlqRow}
use jack_courier_driver_pglg.Dlq.{dlq_statement}
use jack_courier_driver_pglg.Cursor.{
  Db, TxFaults, cursor_lsn, position, upsert_cursor, transaction, commit, persist_flush_result,
}

-- Both writes, as one change of the durable state.
abbrev pub applied : List DlqRow → Lsn → Db → Db
applied rows l db = record { cursor = upsert_cursor l db.cursor; dlq = db.dlq ++ rows }

pub position-upsert_cursor :
    (l : Lsn) (c : Option Lsn) → position (upsert_cursor l c) ≡ max (position c) l
unfolding upsert_cursor
position-upsert_cursor l none = omega arith
position-upsert_cursor l (some c) = ground arith

-- What a run `r` of the transaction on `db` has done.
abbrev pub IsAtomic : List DlqRow → Lsn → Db → Result (Unit {0}) × Db → Type 0
IsAtomic rows l db r =
    ((r.1 ≡ applied rows l db) ⊎ (r.1 ≡ db))
    × (r.0 ≡ ok tt → r.1 ≡ applied rows l db)
    × (cursor_lsn (applied rows l db) ≡ max (cursor_lsn db) l)
    × (cursor_lsn db ≤ cursor_lsn r.1)

pub persist_flush_result-IsAtomic :
    (f : TxFaults) (rows : List DlqRow) (l : Lsn) (db : Db)
    → IsAtomic rows l db (persist_flush_result f rows l db)
unfolding persist_flush_result dlq_statement
persist_flush_result-IsAtomic f [] l db =
    ground (arith, append-nil db.dlq, position-upsert_cursor l db.cursor)
persist_flush_result-IsAtomic f (d ∷ rows) l db = ground (arith, position-upsert_cursor l db.cursor)

-- The ends of the transaction: both writes and no error; an error and neither; and a commit whose
-- error hides that both were applied.
pub data Ends (rows : List DlqRow) (l : Lsn) (db : Db) : Result (Unit {0}) × Db → Type 0 where
  written : Ends rows l db (ok tt, applied rows l db)
  dropped : (e : Error) → Ends rows l db (err e, db)
  unknown : Ends rows l db (err commit_flush, applied rows l db)

-- The statements before the commit make the whole change or none.
abbrev Writes : List DlqRow → Lsn → Db → Result Db → Type 0
Writes rows l db t = (t ≡ ok (applied rows l db)) ⊎ ((e : Error) × (t ≡ err e))

transaction-Writes :
    (f : TxFaults) (rows : List DlqRow) (l : Lsn) (db : Db)
    → Writes rows l db (transaction f rows l db)
unfolding transaction dlq_statement
transaction-Writes f [] l db = elim (Bool-cases f.cursor_ok) [
  | inl c ↦ inl (ground (arith, append-nil db.dlq))
  | inr n ↦ inr (write_cursor, ground arith)
]
transaction-Writes f (d ∷ rows) l db = elim (Bool-cases f.insert_ok) [
  | inl i ↦ elim (Bool-cases f.cursor_ok) [
    | inl c ↦ inl (ground arith)
    | inr n ↦ inr (write_cursor, ground arith)
  ]
  | inr n ↦ inr (insert_dlq, ground arith)
]

commit-Ends :
    (f : TxFaults) (rows : List DlqRow) (l : Lsn) (db : Db) (t : Result Db)
    → Writes rows l db t
    → Ends rows l db (commit f db t)
unfolding commit
commit-Ends f rows l db t (inr (e, h)) = rw h (dropped e)
commit-Ends f rows l db t (inl h) = rw h (go f.commit_ok f.commit_applied)
  where
    go :
        (c a : Bool)
        → Ends rows l db (
            if c
            then (ok tt, applied rows l db)
            else (err commit_flush, if a then applied rows l db else db))
    go true a = written
    go false true = unknown
    go false false = dropped commit_flush

-- Whichever call fails, the dead letter rows and the cursor are written together or not at all,
-- and written where no error is returned; written, the cursor is the larger of its old value and
-- the LSN, so it never moves back.
pub persist_flush_result-Ends :
    (f : TxFaults) (rows : List DlqRow) (l : Lsn) (db : Db)
    → Ends rows l db (persist_flush_result f rows l db)
      × (cursor_lsn (applied rows l db) ≡ max (cursor_lsn db) l)
unfolding persist_flush_result
persist_flush_result-Ends f rows l db = elim (Bool-cases f.begin_ok) [
  | inl begun ↦ rw begun (
    commit-Ends f rows l db _ (transaction-Writes f rows l db),
    position-upsert_cursor l db.cursor,
  )
  | inr refused ↦ rw refused (dropped begin_flush, position-upsert_cursor l db.cursor)
]
