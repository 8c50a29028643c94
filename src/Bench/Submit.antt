-- ===== src/Bench/Submit.antt =====
-- makeSubmit of cmd/pglg-bench/main.go and mapResults.
use mathlib.Core.List.{Memᴰ, Nodup, Perm}
use mathlib.Core.List.Perm
use jack_courier_driver_pglg.Prelude.{
  ◌≡◌, refl, [], ◌∷◌, List, Bool, true, false, none, some, map, ℤ, is_positive, arith, is_empty, ap,
  if◌then◌else◌,
}
use jack_courier_driver_pglg.Errors.{ok}
use jack_courier_driver_pglg.Row.{Job, ParsedInsert, SubmitResult, DlqRow, to_job}
use jack_courier_driver_pglg.Dlq.{map_results}
use jack_courier_driver_pglg.Dlq.Matching.Index.{cid, ids}
use jack_courier_driver_pglg.Dlq.Matching.Answers.{answered, map_results_iff}
use jack_courier_driver_pglg.Dlq.Matching.Rows.{map_results_rejections}
use jack_courier_driver_pglg.Bench.{accept, make_submit}

accepted-answered : (ps : List ParsedInsert) → answered (map accept (map to_job ps)) ≡ ids ps
unfolding accept to_job
accepted-answered [] = refl
accepted-answered (p ∷ ps) = ap (◌∷◌ (cid p)) (accepted-answered ps)

accepted_error :
    (js : List Job) (r : SubmitResult) → Memᴰ r (map accept js) → is_empty r.error ≡ true
unfolding accept
accepted_error [] r m = elim m [ ]
accepted_error (j ∷ js) r (Memᴰ.head e) = rw e refl
accepted_error (j ∷ js) r (Memᴰ.tail m) = accepted_error js r m

no_rows : (rows : List DlqRow) → ((d : DlqRow) → Memᴰ d rows → ⊥) → rows ≡ []
no_rows [] h = refl
no_rows (d ∷ rows) h = absurd (h d (Memᴰ.head refl))

-- The stub answers each batch whose rows have different ids, in a context that lasts, so that every row
-- is matched and none becomes a dead letter.
make_submit_accepts :
    (latency : ℤ) (ps : List ParsedInsert)
    → Nodup (ids ps)
    → (results : List SubmitResult) × (make_submit latency false (map to_job ps) ≡ some results)
      × (map_results ps results ≡ ok [])
unfolding make_submit
make_submit_accepts latency ps once =
    let results = map accept (map to_job ps) in
    let all : Perm (answered results) (ids ps) = rw accepted-answered (Perm.refl (ids ps)) in
    let (rows, matched) = (map_results_iff ps results).1 (once, all) in
    let accepted : rows ≡ [] = no_rows rows (λ d m.
      let (j, e) = (map_results_rejections ps results rows matched d).0 m in
      absurd (ground (arith, accepted_error (map to_job ps) j.result j.returned, j.rejected))) in
    (results, submitted (is_positive latency) results, rw (← accepted) matched)
  where
    submitted :
        (b : Bool) (results : List SubmitResult)
        → (if b then if false then none else some results else some results) ≡ some results
    submitted true results = refl
    submitted false results = refl
