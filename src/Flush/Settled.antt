-- ===== src/Flush/Settled.antt =====
-- What becomes of the rows of a flush: accepted by jack-service, or dead letters.
use mathlib.Core.List.{Memᴰ, mem-map_of_mem, mem-map}
use mathlib.Core.List.Perm
use mathlib.Core.Logic.{∥∥₁_map, ∥∥₁_elim, ∥∥₁_prop}
use jack_courier_driver_pglg.Prelude.{
  true, Bool-cases, ◌≡◌, refl, sym, ◌⊎◌, inl, inr, ◌∷◌, ◌++◌, map, List, some, is_empty,
  Memᴰ-append_left, Memᴰ-append_right,
}
use jack_courier_driver_pglg.Errors.{ok}
use jack_courier_driver_pglg.Row.{Lsn, ParsedInsert, DlqRow, SubmitResult, to_job}
use jack_courier_driver_pglg.Dlq.{map_results, dlq_row}
use jack_courier_driver_pglg.Dlq.Matching.Index.{cid}
use jack_courier_driver_pglg.Dlq.Matching.Answers.{map_results_iff}
use jack_courier_driver_pglg.Dlq.Matching.Rows.{map_results_rejections}
use jack_courier_driver_pglg.Cursor.{Db}
use jack_courier_driver_pglg.Cursor.Persist.{applied}
use jack_courier_driver_pglg.Flush.{Session, FlushInputs, flush_batch}
use jack_courier_driver_pglg.Flush.Outcome.{flush_batch_ok}

-- The fate of a submitted row: jack-service has returned a result for it, and has accepted it or the
-- durable dead letter table holds its row.
pub record Settled (results : List SubmitResult) (db : Db) (p : ParsedInsert) : Type 0 where
  pub result : SubmitResult
  pub returned : Memᴰ result results
  pub same_id : cid p ≡ result.correlation_id
  pub fate : (is_empty result.error ≡ true) ⊎ Memᴰ (dlq_row p result) db.dlq

map_results-Settled :
    (inserts : List ParsedInsert) (results : List SubmitResult) (rows : List DlqRow) (l : Lsn)
    (db : Db)
    → map_results inserts results ≡ ok rows
    → (p : ParsedInsert) (r : SubmitResult) → Memᴰ p inserts
    → Memᴰ r results
    → cid p ≡ r.correlation_id
    → Settled results (applied rows l db) p
map_results-Settled inserts results rows l db h p r mp mr e = record {
  result = r;
  returned = mr;
  same_id = e;
  fate = elim (Bool-cases (is_empty r.error)) [
    | inl good ↦ inl good
    | inr bad ↦ inr (
        Memᴰ-append_right db.dlq (
          (map_results_rejections inserts results rows h (dlq_row p r)).1 (
            record {
              row = p;
              result = r;
              submitted = mp;
              returned = mr;
              same_id = e;
              rejected = bad;
            },
            refl,
          )))
  ];
}

-- Each row of a batch whose answer was matched is settled once its flush is applied.
pub matched-Settled :
    (inserts : List ParsedInsert) (results : List SubmitResult) (rows : List DlqRow) (l : Lsn)
    (db : Db)
    → map_results inserts results ≡ ok rows
    → (p : ParsedInsert) → Memᴰ p inserts
    → ∥ Settled results (applied rows l db) p ∥₁
matched-Settled inserts results rows l db matched p m =
    let all = ((map_results_iff inserts results).0 (rows, matched)).1 in
    let known = mem-map.0 ((Perm.mem_iff all).1 (mem-map_of_mem cid ∣ m ∣₁)) in
    ∥∥₁_elim known ∥∥₁_prop (λ (r, mr, e).
      ∥∥₁_map mr (λ m'. map_results-Settled inserts results rows l db matched p r m m' (sym e)))

-- More results and more dead letters leave a row settled.
pub Settled-more :
    (results more : List SubmitResult) (db db' : Db) (rows : List DlqRow) (p : ParsedInsert)
    → db'.dlq ≡ db.dlq ++ rows
    → Settled results db p
    → Settled (results ++ more) db' p
Settled-more results more db db' rows p e s = record {
  result = s.result;
  returned = Memᴰ-append_left results more s.returned;
  same_id = s.same_id;
  fate = elim s.fate [
    | inl accepted ↦ inl accepted
    | inr kept ↦ inr (rw e (Memᴰ-append_left db.dlq rows kept))
  ];
}

-- Results of before leave a row settled.
pub Settled-behind :
    (before results : List SubmitResult) (db : Db) (p : ParsedInsert)
    → Settled results db p
    → Settled (before ++ results) db p
Settled-behind before results db p s = record {
  result = s.result;
  returned = Memᴰ-append_right before s.returned;
  same_id = s.same_id;
  fate = s.fate;
}

-- After a flush without an error no row of the batch is lost: jack-service has returned a result
-- for each, and where that is a rejection the row's dead letter row is in the durable table.
pub flush_batch_settles :
    (i : FlushInputs) (q : ParsedInsert) (qs : List ParsedInsert) (l : Lsn) (s : Session)
    → (flush_batch i (q ∷ qs) l s).0 ≡ ok tt
    → (p : ParsedInsert) → Memᴰ p (q ∷ qs)
    → ∥ (
        (results : List SubmitResult) × (i.submit (map to_job (q ∷ qs)) ≡ some results)
        × Settled results (flush_batch i (q ∷ qs) l s).1.db p) ∥₁
flush_batch_settles i q qs l s h p m =
    let d = flush_batch_ok i q qs l s h in
    ∥∥₁_map (matched-Settled (q ∷ qs) d.results d.rows l s.db d.matched p m)
      (λ settled. (d.results, d.answer, rw d.durable settled))
