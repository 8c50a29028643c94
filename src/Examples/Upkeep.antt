-- ===== src/Examples/Upkeep.antt =====
-- The theorems on the backoff and the partitions, at the sample.
use mathlib.Core.List.{Memᴰ}
use jack_courier_driver_pglg.Prelude.{
  ℕ, ◌+◌, ◌-◌, ◌*◌, ◌^◌, ◌<◌, ◌≡◌, ◌↔◌, refl, List, [], ◌∷◌, true, false, codes, arith,
}
use jack_courier_driver_pglg.Errors.{ok}
use jack_courier_driver_pglg.Row.{Time}
use jack_courier_driver_pglg.Strconv.{format_uint}
use jack_courier_driver_pglg.Dlq.{dlq_row}
use jack_courier_driver_pglg.Dlq.Cleanup.{
  DeadLetter, DlqTable, CleanupTick, cleanup_ticked, dlq_cleanup,
}
use jack_courier_driver_pglg.Dlq.Cleanup.Kept.{StaysYoung, dlq_cleanup_iff}
use jack_courier_driver_pglg.Examples.{sample_row, sample_result}
use jack_courier_driver_pglg.Backoff.{Backoff}
use jack_courier_driver_pglg.Partition.{Partition, Catalog, CreateFaults, windows}
use jack_courier_driver_pglg.Partition.Calendar.{
  format_minute, date_of, year_day, month_day, pad, day_length, minute,
}
use jack_courier_driver_pglg.Partition.Windows.{Within, windows_cover}
use jack_courier_driver_pglg.Partition.Expiry.{
  DropFaults, expired_names, drop_one, drop_all, commit_all, drop_expired_partitions,
}
use jack_courier_driver_pglg.Partition.Retention.{drop_expired_keeps, drop_expired_done}

abbrev backoff : Backoff
backoff = record { initial = 1000; max_delay = 3000; attempt = 2 }

abbrev randoms : List ℕ
randoms = 0 ∷ 2 ^ 52 ∷ []

-- 2026-11-26 05:00 UTC
abbrev pub morning : Time
morning = 739945 * day_length + 300 * minute

morning_name : format_minute morning ≡ codes "20261126_0500"
unfolding format_minute date_of year_day month_day pad format_uint
morning_name = refl

abbrev pub hour : ℕ
hour = 60 * minute

abbrev pub no_error : Time → CreateFaults
no_error t = record {
  check_ok = true;
  begin_ok = true;
  create_ok = true;
  register_ok = true;
  commit_ok = true;
  commit_applied = true;
}

abbrev old : Partition
old = record { name = codes "o"; lower = 0; upper = hour }

abbrev recent : Partition
recent = record { name = codes "r"; lower = morning - hour; upper = morning }

abbrev catalog : Catalog
catalog = record { meta = old ∷ recent ∷ []; attached = old ∷ recent ∷ [] }

windows_cover_example : Within hour morning (windows hour hour morning)
windows_cover_example =
    windows_cover hour hour morning morning (omega arith) (omega arith) (omega arith)

abbrev pub no_drop_error : DropFaults
no_drop_error = record {
  begin_ok = true;
  query_ok = true;
  detach_ok = λ name. true;
  drop_ok = λ name. true;
  delete_ok = λ name. true;
  commit_ok = true;
  commit_applied = true;
}

abbrev dropped : Catalog
dropped = (drop_expired_partitions no_drop_error hour morning catalog).1

drop_succeeds : (drop_expired_partitions no_drop_error hour morning catalog).0 ≡ ok tt
unfolding drop_expired_partitions commit_all drop_all drop_one expired_names
drop_succeeds = refl

recent_key : (q : Partition) → Memᴰ q catalog.meta → q.name ≡ recent.name → q ≡ recent
recent_key q (Memᴰ.head e) h = absurd (ground arith)
recent_key q (Memᴰ.tail (Memᴰ.head e)) h = e
recent_key q (Memᴰ.tail (Memᴰ.tail m)) h = elim m [ ]

drop_expired_keeps_example : Memᴰ recent dropped.meta
drop_expired_keeps_example =
    drop_expired_keeps no_drop_error hour morning catalog recent recent_key
      (Memᴰ.tail (Memᴰ.head refl)) (omega arith)

drop_expired_done_example : Memᴰ recent catalog.meta × (morning - hour < recent.upper)
drop_expired_done_example =
    drop_expired_done no_drop_error hour morning catalog recent drop_succeeds
      drop_expired_keeps_example

-- a row that is dead-lettered an hour before the clean-up
abbrev dead : DeadLetter
dead = record { row = dlq_row sample_row sample_result; dead_lettered_at = morning - hour }

abbrev dead_letters : DlqTable
dead_letters = record { rows = dead ∷ []; metrics = [] }

abbrev cleanups : List CleanupTick
cleanups =
    cleanup_ticked true (record { now = morning; exec_ok = true; exec_applied = true })
    ∷ cleanup_ticked false (record { now = morning + hour; exec_ok = true; exec_applied = true })
    ∷ []

dlq_cleanup_iff_example :
    Memᴰ dead (dlq_cleanup hour cleanups dead_letters).rows
    ↔ (Memᴰ dead dead_letters.rows × StaysYoung hour dead cleanups)
dlq_cleanup_iff_example = dlq_cleanup_iff hour dead cleanups dead_letters (refl, (refl, tt))
