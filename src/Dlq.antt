-- ===== src/Dlq.antt =====
-- dlq.go: matching the results of a submit call to the rows, and the dead letter queue.
pub mod Utf8
pub mod Truncate
pub mod Matching
pub mod Binding
pub mod Cleanup
use jack_courier_driver_pglg.Prelude.{
  ℕ, zero, suc, ◌+◌, ◌*◌, ◌≤◌, List, [], ◌∷◌, ◌++◌, Bool, true, false, Option, none, some, Bytes,
  codes, text_eq, contains, is_empty, take, length, leb, ltb, ◌==◌, if◌then◌else◌, ℤ,
}
use jack_courier_driver_pglg.Errors.{
  Error, Result, ok, err, ◌>>=◌, result_count, duplicate_insert, duplicate_result, unknown_result,
}
use jack_courier_driver_pglg.Strconv.{format_int}
use jack_courier_driver_pglg.Row.{Time, zero_time, ParsedInsert, SubmitResult, DlqRow}
use Utf8.{to_valid_utf8}

-- dlqReasonUnspecified and dlqErrorMessageMax
abbrev pub reason_unspecified : Bytes
reason_unspecified = codes "unspecified"

abbrev pub error_message_max : ℕ
error_message_max = 4096

-- The callers pass a constant, so `max` is no negative number.
pub truncate : Bytes → ℕ → Bytes
truncate s zero = []
truncate s (suc m) = to_valid_utf8 (if ltb (suc m) (length s) then take (suc m) s else s)

-- insertByID: a map from correlation ids, an association list whose keys differ
abbrev pub Index : Type 0
Index = List (Bytes × ParsedInsert)

unfoldable pub find_insert : Bytes → Index → Option ParsedInsert
find_insert cid [] = none
find_insert cid ((k, p) ∷ rest) = if text_eq k cid then some p else find_insert cid rest

-- the first loop of mapResults
unfoldable pub index_inserts : Index → List ParsedInsert → Result Index
unfolding find_insert
index_inserts index [] = ok index
index_inserts index (p ∷ ps) =
    let rest = index_inserts ((format_int p.id, p) ∷ index) ps in
    elim (find_insert (format_int p.id) index) [ some q ↦ err duplicate_insert | none ↦ rest ]

unfoldable pub dlq_row : ParsedInsert → SubmitResult → DlqRow
dlq_row p r = record {
  id = p.id;
  created_at = p.created_at;
  producer_id = p.producer_id;
  job_type = p.job_type;
  payload = p.payload;
  run_at = p.run_at;
  trace_id = p.trace_id;
  shadow = p.shadow;
  reason = if is_empty r.reason then reason_unspecified else r.reason;
  error_message = truncate r.error error_message_max;
}

-- `if r.Err == "" { continue }`, and the append
unfoldable pub add_row : ParsedInsert → SubmitResult → List DlqRow → List DlqRow
add_row p r rows = if is_empty r.error then rows else dlq_row p r ∷ rows

-- the second loop of mapResults, from the index and the ids of the results before (seen)
unfoldable pub match_results : Index → List Bytes → List SubmitResult → Result (List DlqRow)
unfolding find_insert contains add_row
match_results index seen [] = ok []
match_results index seen (r ∷ rs) =
    let rest = match_results index (r.correlation_id ∷ seen) rs in
    if contains r.correlation_id seen
    then err duplicate_result
    else elim (find_insert r.correlation_id index) [
      | none ↦ err unknown_result
      | some p ↦ do rows ← rest; ok (add_row p r rows)
    ]

unfoldable pub map_results : List ParsedInsert → List SubmitResult → Result (List DlqRow)
unfolding index_inserts match_results
map_results inserts results =
    if length results == length inserts
    then (do index ← index_inserts [] inserts; match_results index [] results)
    else err result_count

-- A value that is bound to a placeholder.
pub data Arg : Type 0 where
  int : ℤ → Arg
  time : Time → Arg
  text bytes : Bytes → Arg
  bool : Bool → Arg
  null : Arg

abbrev pub columns : ℕ
columns = 10

unfoldable pub run_at_arg : Time → Arg
run_at_arg t = if t == zero_time then null else time t

unfoldable pub row_args : DlqRow → List Arg
unfolding run_at_arg
row_args r =
    int r.id
    ∷ time r.created_at
    ∷ text r.producer_id
    ∷ text r.job_type
    ∷ bytes r.payload
    ∷ run_at_arg r.run_at
    ∷ text r.trace_id
    ∷ bool r.shadow
    ∷ text r.reason
    ∷ text r.error_message
    ∷ []

-- The group ($base,…,$base+9) of one row.
abbrev pub placeholder_group : ℕ → List ℕ
placeholder_group base =
    base
    ∷ (base + 1)
    ∷ (base + 2)
    ∷ (base + 3)
    ∷ (base + 4)
    ∷ (base + 5)
    ∷ (base + 6)
    ∷ (base + 7)
    ∷ (base + 8)
    ∷ (base + 9)
    ∷ []

-- The INSERT statement of insertDLQRows: the numbers of its placeholders, one group for each row,
-- and the arguments. The table and the column list are constants of the text.
pub record Statement : Type 0 where
  pub placeholders : List (List ℕ)
  pub args : List Arg

-- the loop over the rows, from row `i` on
unfoldable pub dlq_statement_from : ℕ → List DlqRow → Statement
dlq_statement_from i [] = record { placeholders = []; args = [] }
dlq_statement_from i (r ∷ rs) =
    let rest = dlq_statement_from (suc i) rs in
    record {
      placeholders = placeholder_group (i * columns + 1) ∷ rest.placeholders;
      args = row_args r ++ rest.args;
    }

-- `none` for no rows: nothing is executed
unfoldable pub dlq_statement : List DlqRow → Option Statement
unfolding dlq_statement_from
dlq_statement [] = none
dlq_statement (r ∷ rs) = some (dlq_statement_from 0 (r ∷ rs))
