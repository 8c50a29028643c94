-- ===== src/Flush.antt =====
-- flushBatch of driver.go: one batch from the buffer to jack-service, the dead letter queue and
-- the cursor. The jobs of each call of `submit` are kept in `submitted`, and the results of those that
-- return no error in `answered`.
pub mod Confirmed
pub mod Outcome
pub mod Settled
use jack_courier_driver_pglg.Prelude.{
  ℕ, List, [], ◌∷◌, ◌++◌, Bool, Option, none, some, map, if◌then◌else◌,
}
use jack_courier_driver_pglg.Errors.{Error, Result, ok, err, submit_failed, inconsistent}
use jack_courier_driver_pglg.Row.{Lsn, Job, ParsedInsert, SubmitResult, DlqRow, to_job}
use jack_courier_driver_pglg.Wal.{WalConsumer, Sending, set_flush_lsn, send_standby_status}
use jack_courier_driver_pglg.Dlq.{map_results}
use jack_courier_driver_pglg.Cursor.{Db, TxFaults, persist_flush_result}

pub record Session : Type 0 where
  pub wal : WalConsumer
  pub db : Db
  pub submitted : List (List Job)
  pub answered : List (List SubmitResult)

-- What one flush meets: the answer of `submit`, `none` for an error; the faults of the
-- transaction; and the sending of the status.
pub record FlushInputs : Type 0 where
  pub submit : List Job → Option (List SubmitResult)
  pub tx : TxFaults
  pub sending : Sending

-- after a persisted flush; an error of sendStandbyStatus is only logged
unfoldable pub confirm : Sending → Lsn → Session → Session
confirm sending l s = record s { wal = (send_standby_status sending (set_flush_lsn l s.wal)).1 }

after_persist : FlushInputs → Lsn → Session → Result (Unit {0}) × Db → Result (Unit {0}) × Session
unfolding confirm
after_persist i l s (err e, db) = (err e, record s { db = db })
after_persist i l s (ok u, db) = (ok tt, confirm i.sending l (record s { db = db }))

after_match : FlushInputs → Lsn → Session → Result (List DlqRow) → Result (Unit {0}) × Session
unfolding after_persist
after_match i l s (err e) = (err (inconsistent e), s)
after_match i l s (ok rows) = after_persist i l s (persist_flush_result i.tx rows l s.db)

after_submit :
    FlushInputs
    → List ParsedInsert
    → Lsn
    → Session
    → Option (List SubmitResult)
    → Result (Unit {0}) × Session
unfolding after_match
after_submit i inserts l s none = (err submit_failed, s)
after_submit i inserts l s (some results) =
    after_match i l (record s { answered = s.answered ++ results ∷ [] })
      (map_results inserts results)

unfoldable pub flush_batch :
    FlushInputs → List ParsedInsert → Lsn → Session → Result (Unit {0}) × Session
unfolding after_submit
flush_batch i [] l s = (ok tt, s)
flush_batch i (p ∷ ps) l s =
    let jobs = map to_job (p ∷ ps) in
    after_submit i (p ∷ ps) l (record s { submitted = s.submitted ++ jobs ∷ [] }) (i.submit jobs)
