-- ===== src/Dlq/Matching/Order.antt =====
-- The order of jack-service's results decides nothing but the order of the dead letter rows.
use mathlib.Core.List.{Perm, filter_map}
use mathlib.Core.List.Perm
use jack_courier_driver_pglg.Prelude.{
  List, [], ◌∷◌, ◌≡◌, refl, inl, inr, Option, none, some, Bytes, is_empty, arith, Bool-cases,
  if◌then◌else◌, ap, ◌∙◌,
}
use jack_courier_driver_pglg.Errors.{ok}
use jack_courier_driver_pglg.Row.{ParsedInsert, SubmitResult, DlqRow}
use jack_courier_driver_pglg.Dlq.{Index, find_insert, match_results, map_results, dlq_row, add_row}
use jack_courier_driver_pglg.Dlq.Matching.Answers.{match_step, map_results_parts, map_results_iff}

-- The row of a result, from what its id finds.
abbrev dead_row : SubmitResult → Option ParsedInsert → Option DlqRow
dead_row r none = none
dead_row r (some p) = if is_empty r.error then none else some (dlq_row p r)

abbrev dead_rows : Index → List SubmitResult → List DlqRow
dead_rows index = filter_map (λ r. dead_row r (find_insert r.correlation_id index))

dead_rows-cons :
    (index : Index) (r : SubmitResult) (rs : List SubmitResult) (p : ParsedInsert)
    → find_insert r.correlation_id index ≡ some p
    → add_row p r (dead_rows index rs) ≡ dead_rows index (r ∷ rs)
unfolding add_row filter_map
dead_rows-cons index r rs p found =
    rw found
      (elim (Bool-cases (is_empty r.error)) [ inl empty ↦ rw empty refl | inr full ↦ rw full refl ])

match_results-dead_rows :
    (index : Index) (seen : List Bytes) (rs : List SubmitResult) (rows : List DlqRow)
    → match_results index seen rs ≡ ok rows
    → rows ≡ dead_rows index rs
unfolding match_results filter_map
match_results-dead_rows index seen [] rows h = ground arith
match_results-dead_rows index seen (r ∷ rs) rows h =
    let (new, (p, rest, found, later, is)) = match_step index seen r rs rows h in
    is
    ∙ ap (add_row p r) (match_results-dead_rows index (r.correlation_id ∷ seen) rs rest later)
    ∙ dead_rows-cons index r rs p found

same_rows :
    (inserts : List ParsedInsert) (results other : List SubmitResult) (rows rows' : List DlqRow)
    → Perm results other
    → map_results inserts results ≡ ok rows
    → map_results inserts other ≡ ok rows'
    → Perm rows rows'
same_rows inserts results other rows rows' p h h' =
    let (same, (index, built, matched)) = map_results_parts inserts results rows h in
    let (same', (index', built', matched')) = map_results_parts inserts other rows' h' in
    let one : index ≡ index' = ground (arith, built, built') in
    let m = match_results-dead_rows index [] results rows matched in
    let m' = match_results-dead_rows index' [] other rows' matched' in
    rw (m, m', ← one) (Perm.filter_map (λ r. dead_row r (find_insert r.correlation_id index)) p)

-- Results that are a permutation of results that mapResults accepts are accepted too, and the dead letter rows
-- are a permutation of the others.
pub map_results-Perm :
    (inserts : List ParsedInsert) (results other : List SubmitResult) (rows : List DlqRow)
    → Perm results other
    → map_results inserts results ≡ ok rows
    → (rows' : List DlqRow) × (map_results inserts other ≡ ok rows') × Perm rows rows'
map_results-Perm inserts results other rows p h =
    let (once, all) = (map_results_iff inserts results).0 (rows, h) in
    let (rows', h') =
      (map_results_iff inserts other).1
        (once, Perm.trans (Perm.symm (Perm.map (λ (r : SubmitResult). r.correlation_id) p)) all) in
    (rows', h', same_rows inserts results other rows rows' p h h')
