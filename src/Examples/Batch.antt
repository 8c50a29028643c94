-- ===== src/Examples/Batch.antt =====
-- The theorems on the dead letter queue, the cursor and a flush, at the sample.
use mathlib.Core.List.{Memᴰ, Nodup}
use mathlib.Core.List.{Perm}
use mathlib.Core.List.Perm
use jack_courier_driver_pglg.Cursor.{
  commit, persist_flush_result, transaction, upsert_cursor, cursor_lsn,
}
use jack_courier_driver_pglg.Dlq.{
  add_row, dlq_row, dlq_statement, dlq_statement_from, find_insert, index_inserts, map_results,
  match_results, row_args, run_at_arg, Statement, columns,
}
use jack_courier_driver_pglg.Flush.{confirm, flush_batch}
use jack_courier_driver_pglg.Prelude.{
  contains, text_eq, refl, ◌≡◌, ◌↔◌, ◌∷◌, map, [], max, List, some, none, codes, Bytes, length, ◌*◌,
  pos,
}
use jack_courier_driver_pglg.Row.{to_job, SubmitResult, DlqRow, ParsedInsert}
use jack_courier_driver_pglg.Strconv.{format_int}
use jack_courier_driver_pglg.Errors.{ok, err, submit_failed}
use jack_courier_driver_pglg.Dlq.Matching.Index.{ids}
use jack_courier_driver_pglg.Dlq.Matching.Answers.{answered, map_results_iff}
use jack_courier_driver_pglg.Dlq.Matching.Rows.{Rejection, map_results_rejections}
use jack_courier_driver_pglg.Dlq.Matching.Order.{map_results-Perm}
use jack_courier_driver_pglg.Dlq.Binding.{bound_rows, bound_rows-dlq_statement}
use jack_courier_driver_pglg.Cursor.Persist.{applied, Ends, persist_flush_result-Ends}
use jack_courier_driver_pglg.Flush.Settled.{Settled, flush_batch_settles}
use jack_courier_driver_pglg.Flush.Outcome.{Delivered, Failed, flush_batch_ok, flush_batch_err}
use jack_courier_driver_pglg.Examples.{
  sample_row, rejecting, silent, sample_session, sample_db, no_faults, sample_result,
}

abbrev batch : List ParsedInsert
batch = sample_row ∷ []

abbrev results : List SubmitResult
results = sample_result ∷ []

abbrev dead : DlqRow
dead = dlq_row sample_row sample_result

match_succeeds : map_results batch results ≡ ok (dead ∷ [])
unfolding commit persist_flush_result transaction upsert_cursor add_row contains dlq_row
    dlq_statement dlq_statement_from find_insert index_inserts map_results match_results row_args
    run_at_arg confirm flush_batch text_eq to_job format_int
match_succeeds = refl

map_results_iff_example :
    ((rows : List DlqRow) × (map_results batch results ≡ ok rows))
    ↔ (Nodup (ids batch) × Perm (answered results) (ids batch))
map_results_iff_example = map_results_iff batch results

map_results_rejections_example :
    Memᴰ dead (dead ∷ []) ↔ ((j : Rejection batch results) × (dead ≡ dlq_row j.row j.result))
map_results_rejections_example =
    map_results_rejections batch results (dead ∷ []) match_succeeds dead

-- A second row, which is rejected too.
abbrev second_row : ParsedInsert
second_row = record sample_row { id = pos 8 }

abbrev second_result : SubmitResult
second_result = record sample_result { correlation_id = codes "8" }

abbrev two_dead : List DlqRow
two_dead = dead ∷ dlq_row second_row second_result ∷ []

two_succeed :
    map_results (sample_row ∷ second_row ∷ []) (sample_result ∷ second_result ∷ []) ≡ ok two_dead
unfolding add_row contains dlq_row find_insert index_inserts map_results match_results run_at_arg
    text_eq format_int
two_succeed = refl

map_results-Perm_example :
    (rows' : List DlqRow) × (map_results
        (sample_row ∷ second_row ∷ [])
        (second_result ∷ sample_result ∷ [])
      ≡ ok rows')
    × Perm two_dead rows'
map_results-Perm_example =
    map_results-Perm (sample_row ∷ second_row ∷ []) (sample_result ∷ second_result ∷ [])
      (second_result ∷ sample_result ∷ []) two_dead (Perm.swap second_result sample_result [])
      two_succeed

bound_rows-dlq_statement_example :
    (dlq_statement [] ≡ none)
    × ((s : Statement) × (dlq_statement (dead ∷ []) ≡ some s)
        × (bound_rows s ≡ map (λ q. map some (row_args q)) (dead ∷ []))
        × (length s.args ≡ columns * length (dead ∷ [])))
bound_rows-dlq_statement_example = bound_rows-dlq_statement dead []

abbrev message : Bytes
message = codes "full"

persist_flush_result-Ends_example :
    Ends (dead ∷ []) 12 sample_db (persist_flush_result no_faults (dead ∷ []) 12 sample_db)
    × (cursor_lsn (applied (dead ∷ []) 12 sample_db) ≡ max (cursor_lsn sample_db) 12)
persist_flush_result-Ends_example = persist_flush_result-Ends no_faults (dead ∷ []) 12 sample_db

flush_succeeds : (flush_batch rejecting batch 12 sample_session).0 ≡ ok tt
unfolding commit persist_flush_result transaction upsert_cursor add_row contains dlq_row
    dlq_statement dlq_statement_from find_insert index_inserts map_results match_results row_args
    run_at_arg confirm flush_batch text_eq to_job format_int
flush_succeeds = refl

flush_batch_ok_example :
    Delivered rejecting batch 12 sample_session (flush_batch rejecting batch 12 sample_session).1
flush_batch_ok_example = flush_batch_ok rejecting sample_row [] 12 sample_session flush_succeeds

flush_batch_settles_example : ∥ (
    (rs : List SubmitResult) × (rejecting.submit (map to_job batch) ≡ some rs)
    × Settled rs (flush_batch rejecting batch 12 sample_session).1.db sample_row) ∥₁
flush_batch_settles_example =
    flush_batch_settles rejecting sample_row [] 12 sample_session flush_succeeds sample_row
      (Memᴰ.head refl)

flush_fails : (flush_batch silent batch 12 sample_session).0 ≡ err submit_failed
unfolding commit persist_flush_result transaction upsert_cursor add_row contains dlq_row
    dlq_statement dlq_statement_from find_insert index_inserts map_results match_results row_args
    run_at_arg confirm flush_batch text_eq to_job format_int
flush_fails = refl

flush_batch_err_example :
    Failed batch 12 sample_session (flush_batch silent batch 12 sample_session).1
flush_batch_err_example =
    flush_batch_err silent sample_row [] 12 sample_session submit_failed flush_fails
