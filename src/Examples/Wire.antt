-- ===== src/Examples/Wire.antt =====
-- The theorems on the wire formats and the replication connection, at the sample.
use jack_courier_driver_pglg.Prelude.{
  refl, ◌≡◌, ◌++◌, ◌∷◌, [], arith, false, none, codes, text_eq, ℤ, negsuc,
}
use jack_courier_driver_pglg.Errors.{ok}
use jack_courier_driver_pglg.Row.{ColumnValue}
use jack_courier_driver_pglg.Parser.{parse_insert_columns, parse_timestamp}
use jack_courier_driver_pglg.Parser.Columns.{
  outbox_columns, render, parse_insert_columns-render, parse_insert_columns_skip,
}
use jack_courier_driver_pglg.Wal.{receive_message, Received, copy_data}
use jack_courier_driver_pglg.Wal.Receive.{Receives, receive_message-Receives}
use jack_courier_driver_pglg.Examples.{
  sample_row, sample_time, sample_lib, sample_sending, sample_idle,
}

abbrev id : ℤ
id = negsuc 41

parse_insert_columns-render_example :
    parse_insert_columns sample_time outbox_columns (render sample_row (codes "now") none)
    ≡ ok sample_row
unfolding parse_timestamp
parse_insert_columns-render_example =
    parse_insert_columns-render sample_time sample_row (codes "now") none (omega arith)
      (omega arith, (omega arith, tt)) refl refl

abbrev extra : ColumnValue
extra = record { is_null = false; payload = codes "x" }

parse_insert_columns_skip_example :
    parse_insert_columns sample_time
      ([] ++ codes "note" ∷ outbox_columns)
      ([] ++ extra ∷ render sample_row (codes "now") none)
    ≡ parse_insert_columns sample_time
        ([] ++ outbox_columns)
        ([] ++ render sample_row (codes "now") none)
unfolding text_eq
parse_insert_columns_skip_example =
    parse_insert_columns_skip sample_time [] outbox_columns (codes "note") []
      (render sample_row (codes "now") none) extra
      (refl, (refl, (refl, (refl, (refl, (refl, (refl, (refl, tt)))))))) refl

abbrev keepalive : Received
keepalive = copy_data (b'k' ∷ 20 ∷ 1 ∷ [])

receive_message-Receives_example :
    Receives sample_lib keepalive sample_idle.wal
      (receive_message sample_lib keepalive sample_sending sample_idle.wal).1
      sample_sending
receive_message-Receives_example =
    receive_message-Receives sample_lib keepalive sample_sending sample_idle.wal
