-- ===== src/Flush/Confirmed.antt =====
-- What the server is told never passes the durable cursor.
use jack_courier_driver_pglg.Prelude.{
  ◌++◌, map, ◌≤◌, [], ◌∷◌, List, Option, none, some, arith, All, All-imp,
}
use jack_courier_driver_pglg.Errors.{Result, ok, err}
use jack_courier_driver_pglg.Row.{to_job, Lsn, ParsedInsert, DlqRow, SubmitResult}
use jack_courier_driver_pglg.Wal.{WalConsumer, Sending, set_flush_lsn, send_standby_status}
use jack_courier_driver_pglg.Wal.Status.{heard_flush, heard-standby_status_update}
use jack_courier_driver_pglg.Dlq.{map_results}
use jack_courier_driver_pglg.Cursor.{Db, cursor_lsn, persist_flush_result}
use jack_courier_driver_pglg.Cursor.Persist.{IsAtomic, persist_flush_result-IsAtomic}
use jack_courier_driver_pglg.Flush.{
  Session, FlushInputs, confirm, after_persist, after_match, after_submit, flush_batch,
}

-- The consumer's flush position, and each position that the server has been told to be flushed,
-- are at most `c`.
pub record Confirmed (c : Lsn) (w : WalConsumer) : Type 0 where
  pub position : w.flush_lsn ≤ c
  pub told : All (λ u. heard_flush u ≤ c) w.sent

pub Confirmed-mono : {c d : Lsn} {w : WalConsumer} → c ≤ d → Confirmed c w → Confirmed d w
Confirmed-mono {c} {d} {w} h k = record {
  position = omega arith;
  told =
      All-imp (λ u. heard_flush u ≤ c) (λ u. heard_flush u ≤ d) w.sent (λ u p. omega arith) k.told;
}

pub Confirmed-send :
    {c : Lsn} {w : WalConsumer} (s : Sending)
    → Confirmed c w
    → Confirmed c (send_standby_status s w).1
unfolding send_standby_status
Confirmed-send {c} {w} s k = record {
  position = k.position;
  told = (ground (arith, heard-standby_status_update w s.now), k.told);
}

pub Confirmed-set_flush_lsn :
    {c : Lsn} {w : WalConsumer} (l : Lsn) → l ≤ c → Confirmed c w → Confirmed c (set_flush_lsn l w)
unfolding set_flush_lsn
Confirmed-set_flush_lsn l h k = ground arith

abbrev pub IsConfirmed : Session → Type 0
IsConfirmed s = Confirmed (cursor_lsn s.db) s.wal

-- A transition keeps the confirmed positions durable, and the cursor does not go back.
pub record Safe (s s' : Session) : Type 0 where
  pub confirmed : IsConfirmed s → IsConfirmed s'
  pub forward : cursor_lsn s.db ≤ cursor_lsn s'.db

pub Safe-refl : (s : Session) → Safe s s
Safe-refl s = record { confirmed = λ h. h; forward = omega arith }

pub Safe-trans : {r s t : Session} → Safe r s → Safe s t → Safe r t
Safe-trans a b = record { confirmed = λ h. b.confirmed (a.confirmed h); forward = omega arith }

after_persist-Safe :
    (i : FlushInputs) (rows : List DlqRow) (l : Lsn) (s : Session)
    → Safe s (after_persist i l s (persist_flush_result i.tx rows l s.db)).1
unfolding after_persist confirm
after_persist-Safe i rows l s =
    go (persist_flush_result i.tx rows l s.db) (persist_flush_result-IsAtomic i.tx rows l s.db)
  where
    go : (r : Result (Unit {0}) × Db) → IsAtomic rows l s.db r → Safe s (after_persist i l s r).1
    go (err e, db) (which, done, top, up) = record {
      confirmed = λ h. Confirmed-mono up h;
      forward = up;
    }
    go (ok u, db) (which, done, top, up) = record {
      confirmed = λ h.
          Confirmed-send i.sending
            (Confirmed-set_flush_lsn l (grind (arith, done)) (Confirmed-mono up h));
      forward = up;
    }

after_match-Safe :
    (i : FlushInputs) (l : Lsn) (s : Session) (m : Result (List DlqRow))
    → Safe s (after_match i l s m).1
unfolding after_match
after_match-Safe i l s (err e) = Safe-refl s
after_match-Safe i l s (ok rows) = after_persist-Safe i rows l s

after_submit-Safe :
    (i : FlushInputs) (inserts : List ParsedInsert) (l : Lsn) (s : Session)
    (answer : Option (List SubmitResult))
    → Safe s (after_submit i inserts l s answer).1
unfolding after_submit
after_submit-Safe i inserts l s none = Safe-refl s
after_submit-Safe i inserts l s (some results) =
    let answered : Session = record s { answered = s.answered ++ results ∷ [] } in
    let after = after_match-Safe i l answered (map_results inserts results) in
    record { confirmed = after.confirmed; forward = after.forward }

-- No branch of a flush tells the server more than the cursor holds, or moves the cursor back.
pub flush_batch-Safe :
    (i : FlushInputs) (inserts : List ParsedInsert) (l : Lsn) (s : Session)
    → Safe s (flush_batch i inserts l s).1
unfolding flush_batch after_submit after_match
flush_batch-Safe i [] l s = Safe-refl s
flush_batch-Safe i (p ∷ ps) l s =
    let start : Session = record s { submitted = s.submitted ++ map to_job (p ∷ ps) ∷ [] } in
    let after = after_submit-Safe i (p ∷ ps) l start (i.submit (map to_job (p ∷ ps))) in
    record { confirmed = after.confirmed; forward = after.forward }
