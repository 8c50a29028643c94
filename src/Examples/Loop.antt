-- ===== src/Examples/Loop.antt =====
-- The theorems on the receive loop, at a run of the sample.
use jack_courier_driver_pglg.Stream.{
  round, timed_flush, start, standby_tick, clock_after, receive_round, on_message, after_flush,
  can_advance_idle_flush, close_tx, flush_pending, next_receive_deadline, on_commit, open_batch,
  send_status_at, standby, run, Stream, Limits,
}
use jack_courier_driver_pglg.Wal.{
  receive_message, parse_insert, advance, set_relation, start_at, find_relation,
  received_past_flush, send_standby_status, set_flush_lsn, standby_status_update,
}
use jack_courier_driver_pglg.Parser.Message.{parse_wal_message, of_message, column_value}
use jack_courier_driver_pglg.Parser.{
  parse_insert_columns, set_columns, set_column, parse_timestamp, set_field,
}
use jack_courier_driver_pglg.Cursor.{
  commit, persist_flush_result, transaction, upsert_cursor, cursor_lsn,
}
use jack_courier_driver_pglg.Dlq.{
  add_row, dlq_row, dlq_statement, dlq_statement_from, find_insert, index_inserts, map_results,
  match_results, row_args, run_at_arg,
}
use jack_courier_driver_pglg.Flush.{confirm, flush_batch}
use jack_courier_driver_pglg.Parser.Bytea.{decode_bytea, hex_decode}
use jack_courier_driver_pglg.Prelude.{
  contains, text_eq, refl, ◌≡◌, ◌≤◌, ◌++◌, map, arith, ◌+◌, ◌∷◌, [], leb, if◌then◌else◌,
}
use jack_courier_driver_pglg.Row.{to_job}
use jack_courier_driver_pglg.Strconv.{format_int, parse_int}
use jack_courier_driver_pglg.Stream.Waiting.Prompt.{Opening, run-Opening}
use jack_courier_driver_pglg.Stream.Safety.{run-IsConfirmed}
use jack_courier_driver_pglg.Stream.Conservation.{all_jobs, rows_received, run-all_jobs}
use jack_courier_driver_pglg.Stream.Batch.{IsBatched, run-IsBatched}
use jack_courier_driver_pglg.Stream.Outbox.{Steps, outbox}
use jack_courier_driver_pglg.Stream.Refinement.{run-Steps}
use jack_courier_driver_pglg.Stream.Standby.{Ticked, standby_tick-Ticked}
use jack_courier_driver_pglg.Flush.Confirmed.{IsConfirmed}
use jack_courier_driver_pglg.Errors.{ok}
use jack_courier_driver_pglg.Examples.{
  sample_lib, sample_limits, sample_rounds, sample_start, sample_round, sample_idle, sample_row,
  sample_session,
}

-- the stream after the sample rounds
abbrev sample_end : Stream
sample_end = (run sample_lib sample_limits sample_rounds sample_start).1

run_goes_on : run sample_lib sample_limits sample_rounds sample_start ≡ (ok tt, sample_end)
unfolding run round timed_flush start standby_tick clock_after receive_round receive_message
    parse_wal_message of_message on_message parse_insert advance set_relation start_at
    parse_insert_columns set_columns set_column commit persist_flush_result transaction
    upsert_cursor add_row contains dlq_row dlq_statement dlq_statement_from find_insert
    index_inserts map_results match_results row_args run_at_arg confirm flush_batch decode_bytea
    hex_decode column_value parse_timestamp set_field text_eq to_job format_int parse_int
    after_flush can_advance_idle_flush close_tx flush_pending next_receive_deadline on_commit
    open_batch send_status_at standby find_relation received_past_flush send_standby_status
    set_flush_lsn standby_status_update
run_goes_on = refl

sample-IsConfirmed : IsConfirmed sample_start.session
unfolding start start_at
sample-IsConfirmed = record { position = omega arith; told = tt }

run-IsConfirmed_example :
    IsConfirmed sample_end.session × (cursor_lsn sample_start.db ≤ cursor_lsn sample_end.db)
run-IsConfirmed_example =
    run-IsConfirmed sample_lib sample_limits sample_rounds sample_start sample-IsConfirmed

run-Steps_example : Steps (outbox sample_start) (outbox sample_end)
run-Steps_example =
    run-Steps sample_lib sample_limits sample_rounds sample_start sample_end run_goes_on

run-all_jobs_example :
    all_jobs sample_end
    ≡ all_jobs sample_start
      ++ map to_job (rows_received sample_lib sample_limits sample_rounds sample_start)
run-all_jobs_example =
    run-all_jobs sample_lib sample_limits sample_rounds sample_start sample_end run_goes_on

sample-IsBatched : IsBatched sample_limits sample_start
unfolding start
sample-IsBatched = record { room = omega arith; armed = refl }

run-IsBatched_example : IsBatched sample_limits sample_end
run-IsBatched_example =
    run-IsBatched sample_limits sample_lib sample_rounds sample_start sample_end (omega arith)
      (omega arith) sample-IsBatched run_goes_on

-- the stream after a tick
abbrev sample_ticked : Stream
sample_ticked = (standby_tick sample_limits sample_round 31 sample_idle).1

tick_goes_on : standby_tick sample_limits sample_round 31 sample_idle ≡ (ok tt, sample_ticked)
unfolding run round timed_flush start standby_tick clock_after receive_round receive_message
    parse_wal_message of_message on_message parse_insert advance set_relation start_at
    parse_insert_columns set_columns set_column commit persist_flush_result transaction
    upsert_cursor add_row contains dlq_row dlq_statement dlq_statement_from find_insert
    index_inserts map_results match_results row_args run_at_arg confirm flush_batch decode_bytea
    hex_decode column_value parse_timestamp set_field text_eq to_job format_int parse_int
    after_flush can_advance_idle_flush close_tx flush_pending next_receive_deadline on_commit
    open_batch send_status_at standby find_relation received_past_flush send_standby_status
    set_flush_lsn standby_status_update
tick_goes_on = refl

standby_tick-Ticked_example : Ticked sample_round 31 sample_idle sample_ticked
standby_tick-Ticked_example =
    standby_tick-Ticked sample_limits sample_round 31 sample_idle sample_ticked tick_goes_on

-- The same rounds with a batch that does not fill.
abbrev wide : Limits
wide = record sample_limits { max_batch_size = 2 }

abbrev wide_start : Stream
wide_start = start wide 20 3 sample_session

abbrev wide_end : Stream
wide_end = (run sample_lib wide sample_rounds wide_start).1

wide_goes_on :
    (run sample_lib wide sample_rounds wide_start ≡ (ok tt, wide_end))
    × (wide_end.pending_inserts ≡ sample_row ∷ [])
unfolding run round timed_flush start standby_tick clock_after receive_round receive_message
    parse_wal_message of_message on_message parse_insert advance set_relation start_at
    parse_insert_columns set_columns set_column commit persist_flush_result transaction
    upsert_cursor add_row contains dlq_row dlq_statement dlq_statement_from find_insert
    index_inserts map_results match_results row_args run_at_arg confirm flush_batch decode_bytea
    hex_decode column_value parse_timestamp set_field text_eq to_job format_int parse_int
    after_flush can_advance_idle_flush close_tx flush_pending next_receive_deadline on_commit
    open_batch send_status_at standby find_relation received_past_flush send_standby_status
    set_flush_lsn standby_status_update
wide_goes_on = (refl, refl)

run-Opening_example :
    (o : Opening wide sample_lib sample_rounds wide_start wide_end) × ((timed_flush sample_round
        wide_end).1.submitted
      ≡ wide_end.submitted
        ++ (if leb (o.opener.now_at_commit + wide.batch_timeout) sample_round.now
            then map to_job wide_end.pending_inserts ∷ []
            else []))
unfolding start
run-Opening_example =
    run-Opening wide sample_lib sample_rounds wide_start wide_end sample_round (omega arith) refl
      (λ e. ground (arith, e, wide_goes_on.1)) wide_goes_on.0
