-- ===== src/Flush/Outcome.antt =====
-- What a flush has done when it returns, with an error and without.
use jack_courier_driver_pglg.Prelude.{
  append-nil, ◌≡◌, refl, sym, ap, ◌∙◌, ◌⊎◌, inl, inr, [], ◌∷◌, ◌++◌, map, List, Option, none, some,
  arith, max,
}
use jack_courier_driver_pglg.Errors.{Error, Result, ok, err}
use jack_courier_driver_pglg.Row.{Lsn, ParsedInsert, DlqRow, SubmitResult, to_job}
use jack_courier_driver_pglg.Wal.{set_flush_lsn, send_standby_status}
use jack_courier_driver_pglg.Dlq.{map_results}
use jack_courier_driver_pglg.Cursor.{Db, persist_flush_result, cursor_lsn}
use jack_courier_driver_pglg.Cursor.Persist.{persist_flush_result-IsAtomic, applied, IsAtomic}
use jack_courier_driver_pglg.Flush.{
  Session, FlushInputs, confirm, after_persist, after_match, after_submit, flush_batch,
}

-- A flush that went through.
pub record Delivered (i : FlushInputs) (inserts : List ParsedInsert) (l : Lsn) (s s' : Session)
    : Type 0 where
  pub results : List SubmitResult
  pub rows : List DlqRow
  pub answer : i.submit (map to_job inserts) ≡ some results
  pub matched : map_results inserts results ≡ ok rows
  pub some_rows : inserts ≡ [] → ⊥
  pub durable : s'.db ≡ applied rows l s.db
  pub letters : s'.db.dlq ≡ s.db.dlq ++ rows
  pub cursor : cursor_lsn s'.db ≡ max (cursor_lsn s.db) l
  pub position : s'.wal.flush_lsn ≡ max s.wal.flush_lsn l
  pub received : s'.wal.client_pos ≡ s.wal.client_pos
  pub calls : s'.submitted ≡ s.submitted ++ map to_job inserts ∷ []
  pub answers : s'.answered ≡ s.answered ++ results ∷ []

-- The flush of an answer that was matched is in the durable state.
pub record Written (inserts : List ParsedInsert) (l : Lsn) (s s' : Session) : Type 0 where
  pub results : List SubmitResult
  pub rows : List DlqRow
  pub matched : map_results inserts results ≡ ok rows
  pub applied_rows : s'.db ≡ applied rows l s.db
  pub answers : s'.answered ≡ s.answered ++ results ∷ []

-- A flush that failed: nothing is confirmed to the server, and the durable state is as before or
-- holds the whole flush.
pub record Failed (inserts : List ParsedInsert) (l : Lsn) (s s' : Session) : Type 0 where
  pub consumer : s'.wal ≡ s.wal
  pub durable : (s'.db ≡ s.db) ⊎ Written inserts l s s'
  pub calls : s'.submitted ≡ s.submitted ++ map to_job inserts ∷ []
  pub more : List (List SubmitResult)
  pub answers : s'.answered ≡ s.answered ++ more

confirm_flush :
    (i : FlushInputs) (l : Lsn) (s : Session)
    → ((confirm i.sending l s).wal.flush_lsn ≡ max s.wal.flush_lsn l)
      × ((confirm i.sending l s).db ≡ s.db)
      × ((confirm i.sending l s).wal.client_pos ≡ s.wal.client_pos)
unfolding confirm send_standby_status set_flush_lsn
confirm_flush i l s = ground arith

abbrev pub Outcome :
    FlushInputs → List ParsedInsert → Lsn → Session → Result (Unit {0}) × Session → Type 0
Outcome i inserts l s (ok u, s') = Delivered i inserts l s s'
Outcome i inserts l s (err e, s') = Failed inserts l s s'

module _ (i : FlushInputs) (inserts : List ParsedInsert) (l : Lsn) (s : Session)
    (filled : inserts ≡ [] → ⊥) where
  abbrev called : Session
  called = record s { submitted = s.submitted ++ map to_job inserts ∷ [] }

  abbrev answered_by : List SubmitResult → Session
  answered_by results = record called { answered = s.answered ++ results ∷ [] }

  after_persist-Outcome :
      (results : List SubmitResult) (rows : List DlqRow)
      → i.submit (map to_job inserts) ≡ some results
      → map_results inserts results ≡ ok rows
      → (r : Result (Unit {0}) × Db) → IsAtomic rows l s.db r
      → Outcome i inserts l s (after_persist i l (answered_by results) r)
  unfolding after_persist
  after_persist-Outcome results rows a m (err e, db) (inl done, _, _, _) = record {
    consumer = refl;
    durable = inr (record {
      results = results;
      rows = rows;
      matched = m;
      applied_rows = done;
      answers = refl;
    });
    calls = refl;
    more = results ∷ [];
    answers = refl;
  }
  after_persist-Outcome results rows a m (err e, db) (inr same, _, _, _) = record {
    consumer = refl;
    durable = inl same;
    calls = refl;
    more = results ∷ [];
    answers = refl;
  }
  after_persist-Outcome results rows a m (ok u, db) (which, done, moved, _) =
      let kept = (confirm_flush i l (record (answered_by results) { db = db })).1 in
      record {
        results = results;
        rows = rows;
        answer = a;
        matched = m;
        some_rows = filled;
        durable = kept ∙ done refl;
        letters = ap (λ (d : Db). d.dlq) (kept ∙ done refl);
        cursor = ap cursor_lsn (kept ∙ done refl) ∙ moved;
        position = (confirm_flush i l (record (answered_by results) { db = db })).0;
        received = (confirm_flush i l (record (answered_by results) { db = db })).2;
        calls = unfold confirm in refl;
        answers = unfold confirm in refl;
      }

  after_submit-Outcome :
      (o : Option (List SubmitResult))
      → i.submit (map to_job inserts) ≡ o
      → Outcome i inserts l s (after_submit i inserts l called o)
  unfolding after_submit after_match
  after_submit-Outcome none a = record {
    consumer = refl;
    durable = inl refl;
    calls = refl;
    more = [];
    answers = sym (append-nil s.answered);
  }
  after_submit-Outcome (some results) a = go (map_results inserts results) refl
    where
      go :
          (m : Result (List DlqRow))
          → map_results inserts results ≡ m
          → Outcome i inserts l s (after_match i l (answered_by results) m)
      go (err e) h = record {
        consumer = refl;
        durable = inl refl;
        calls = refl;
        more = results ∷ [];
        answers = refl;
      }
      go (ok rows) h =
          after_persist-Outcome results rows a h (persist_flush_result i.tx rows l s.db)
            (persist_flush_result-IsAtomic i.tx rows l s.db)

pub flush_batch-Outcome :
    (i : FlushInputs) (p : ParsedInsert) (ps : List ParsedInsert) (l : Lsn) (s : Session)
    → Outcome i (p ∷ ps) l s (flush_batch i (p ∷ ps) l s)
unfolding flush_batch
flush_batch-Outcome i p ps l s = after_submit-Outcome i (p ∷ ps) l s (λ e. ground (arith, e)) _ refl

-- A flush of a batch that is not empty and that returns no error has had its answer from
-- jack-service matched to the rows, and has added the dead letter rows to the durable table; the
-- durable cursor is then the larger of what it was and the commit LSN, and so is the position that is
-- confirmed to the server.
pub flush_batch_ok :
    (i : FlushInputs) (p : ParsedInsert) (ps : List ParsedInsert) (l : Lsn) (s : Session)
    → (flush_batch i (p ∷ ps) l s).0 ≡ ok tt
    → Delivered i (p ∷ ps) l s (flush_batch i (p ∷ ps) l s).1
flush_batch_ok i p ps l s = go (flush_batch i (p ∷ ps) l s) (flush_batch-Outcome i p ps l s)
  where
    go :
        (r : Result (Unit {0}) × Session)
        → Outcome i (p ∷ ps) l s r
        → r.0 ≡ ok tt
        → Delivered i (p ∷ ps) l s r.1
    go (ok u, s') d e = d
    go (err x, s') d e = absurd (ground arith)

-- A flush that returns an error leaves the consumer as it was, so that the server keeps the WAL of
-- the batch, and leaves the durable state as it was or with the whole flush written.
pub flush_batch_err :
    (i : FlushInputs) (p : ParsedInsert) (ps : List ParsedInsert) (l : Lsn) (s : Session)
    (e : Error)
    → (flush_batch i (p ∷ ps) l s).0 ≡ err e
    → Failed (p ∷ ps) l s (flush_batch i (p ∷ ps) l s).1
flush_batch_err i p ps l s e = go (flush_batch i (p ∷ ps) l s) (flush_batch-Outcome i p ps l s)
  where
    go :
        (r : Result (Unit {0}) × Session)
        → Outcome i (p ∷ ps) l s r
        → r.0 ≡ err e
        → Failed (p ∷ ps) l s r.1
    go (ok u, s') d h = absurd (ground arith)
    go (err x, s') d h = d
