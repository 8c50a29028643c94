-- ===== src/Bench/Jobs.antt =====
-- insertJobs and slotLag of cmd/pglg-bench/main.go.
use jack_courier_driver_pglg.Prelude.{
  ℕ, zero, suc, List, [], ◌∷◌, ◌++◌, Bool, false, Option, none, some, Bytes, codes, text_eq, ℤ, pos,
  negsuc, sub_ℕ, if◌then◌else◌,
}
use jack_courier_driver_pglg.Row.{Time, Lsn}
use jack_courier_driver_pglg.Bench.Flags.{BenchConfig}

-- The six columns that are copied.
pub record BenchRow : Type 0 where
  pub producer_id : Bytes
  pub job_type : Bytes
  pub payload : Bytes
  pub run_at : Option Time
  pub trace_id : Bytes
  pub shadow : Bool

-- A call of CopyFrom that was accepted.
pub record CopyFrom : Type 0 where
  pub table : List Bytes
  pub columns : List Bytes
  pub rows : List BenchRow

-- make panics for a negative size.
pub data Insertion : Type 0 where
  panicked refused : Insertion
  copied : CopyFrom → Insertion

unfoldable pub zeros : ℕ → Bytes
zeros zero = []
zeros (suc n) = 0 ∷ zeros n

unfoldable pub bench_row : Bytes → BenchRow
bench_row payload = record {
  producer_id = codes "bench";
  job_type = codes "bench_job";
  payload = payload;
  run_at = none;
  trace_id = [];
  shadow = false;
}

unfoldable pub bench_rows : Bytes → ℕ → List BenchRow
unfolding bench_row
bench_rows payload zero = []
bench_rows payload (suc n) = bench_row payload ∷ bench_rows payload n

unfoldable pub copy_of : BenchConfig → ℕ → ℕ → CopyFrom
unfolding zeros bench_rows
copy_of c size n = record {
  table = c.schema ∷ (c.table_prefix ++ codes "_jobs") ∷ [];
  columns =
      codes "producer_id"
      ∷ codes "job_type"
      ∷ codes "payload"
      ∷ codes "run_at"
      ∷ codes "trace_id"
      ∷ codes "shadow"
      ∷ [];
  rows = bench_rows (zeros size) n;
}

unfoldable pub copy_sized : ℤ → BenchConfig → ℕ → Bool → Insertion
unfolding copy_of
copy_sized (negsuc k) c n copy_ok = panicked
copy_sized (pos size) c n copy_ok = if copy_ok then copied (copy_of c size n) else refused

unfoldable pub insert_jobs : BenchConfig → ℕ → Bool → Insertion
unfolding copy_sized
insert_jobs c n copy_ok = copy_sized c.payload_size c n copy_ok

-- pg_replication_slots: a slot and its confirmed_flush_lsn, none where that is NULL.
pub record Slots : Type 0 where
  pub current_wal_lsn : Lsn
  pub slots : List (Bytes × Option Lsn)

-- pg_wal_lsn_diff of NULL is NULL, and that cannot be scanned into an int64.
unfoldable pub lag_to : Lsn → Option Lsn → Option ℤ
lag_to current none = none
lag_to current (some l) = some (sub_ℕ current l)

-- The first row of the query; none is an error of Scan.
unfoldable pub scan_lag : Lsn → Bytes → List (Bytes × Option Lsn) → Option ℤ
unfolding lag_to
scan_lag current slot [] = none
scan_lag current slot ((name, l) ∷ rest) =
    let others = scan_lag current slot rest in
    if text_eq name slot then lag_to current l else others

-- slotLag: the argument is none where the query returns an error.
unfoldable pub slot_lag : Option Slots → Bytes → Option ℤ
unfolding scan_lag
slot_lag none slot = none
slot_lag (some s) slot = scan_lag s.current_wal_lsn slot s.slots
