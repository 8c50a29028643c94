-- ===== src/Bench.antt =====
-- cmd/pglg-bench/main.go: the stub of jack-service, the steady load and the reset. `Bench/Flags` is
-- parseFlags, `Bench/Jobs` the insert and the lag, `Bench/Main` main, and `Bench/Stats` is stats.go.
pub mod Stats
pub mod Percentile
pub mod Submit
pub mod Flags
pub mod Jobs
pub mod Main
pub mod Load
pub mod Verdict
use jack_courier_driver_pglg.Prelude.{
  ℕ, ◌+◌, ◌*◌, ◌/◌, max, List, [], ◌∷◌, ◌++◌, Bool, true, false, Option, none, some, Bytes, codes,
  map, ltb, ℤ, pos, negsuc, is_positive, if◌then◌else◌,
}
use jack_courier_driver_pglg.Errors.{Error}
use jack_courier_driver_pglg.Row.{Job, SubmitResult}
use jack_courier_driver_pglg.Bench.Flags.{BenchConfig}
use jack_courier_driver_pglg.Bench.Jobs.{
  CopyFrom, Insertion, panicked, refused, copied, Slots, insert_jobs, slot_lag,
}

-- The errors that main ends by, the panic of insertJobs among them.
pub data BenchError : Type 0 where
  driver_exited not_inserted no_samples payload_panic : BenchError
  no_drop_slot no_drop_publication no_create_publication no_create_slot : BenchError
  not_truncated : Bytes → BenchError
  not_connected not_pinged : BenchError
  no_driver : Error → BenchError

-- makeSubmit: `cancelled_first` where the context ends before the latency.
unfoldable pub accept : Job → SubmitResult
accept j = record { correlation_id = j.correlation_id; error = []; reason = [] }

unfoldable pub make_submit : ℤ → Bool → List Job → Option (List SubmitResult)
make_submit latency cancelled_first jobs =
    if is_positive latency
    then if cancelled_first then none else some (map accept jobs)
    else some (map accept jobs)

-- A turn of the load before its deadline: whether the driver has exited, whether the copy works, and
-- what the query of the slots gives.
pub record LoadTurn : Type 0 where
  pub exited : Bool
  pub copy_ok : Bool
  pub slots : Option Slots

-- `calls` are those of CopyFrom, newest first.
pub record Steady : Type 0 where
  pub inserted : ℕ
  pub samples : List ℤ
  pub calls : List CopyFrom

abbrev pub Loaded : Type 0
Loaded = Option BenchError × Steady

unfoldable pub per_tick : ℤ → ℕ
per_tick (pos rate) = max 1 (rate / 10)
per_tick (negsuc n) = 1

unfoldable pub add_sample : Option ℤ → List ℤ → List ℤ
add_sample none samples = samples
add_sample (some lag) samples = samples ++ lag ∷ []

unfoldable pub at_deadline : List ℤ → Steady → Loaded
at_deadline [] s = (some no_samples, s)
at_deadline (x ∷ xs) s = (none, s)

-- `next` is the rest of the load.
unfoldable pub after_insert :
    BenchConfig → ℕ → LoadTurn → Steady → (Steady → Loaded) → Insertion → Loaded
unfolding slot_lag add_sample
after_insert c n i s next panicked = (some payload_panic, s)
after_insert c n i s next refused = (some not_inserted, s)
after_insert c n i s next (copied call) = next (record {
  inserted = s.inserted + n;
  samples = add_sample (slot_lag i.slots c.slot) s.samples;
  calls = call ∷ s.calls;
})

unfoldable pub load : BenchConfig → ℕ → List LoadTurn → Steady → Loaded
unfolding at_deadline after_insert insert_jobs
load c n [] s = at_deadline s.samples s
load c n (i ∷ is) s =
    let rest = after_insert c n i s (load c n is) (insert_jobs c n i.copy_ok) in
    if i.exited then (some driver_exited, s) else rest

-- The rate that runSteady gives is `inserted` by the time that has passed.
unfoldable pub run_steady : BenchConfig → List LoadTurn → Loaded
unfolding per_tick load
run_steady c turns =
    load c (per_tick c.rate) turns (record { inserted = 0; samples = []; calls = [] })

-- The statements of reset, in their order, with the error of each.
pub data ResetStatement : Type 0 where
  reset_drop_slot reset_drop_publication reset_create_publication reset_create_slot : ResetStatement
  reset_truncate : Bytes → ResetStatement

unfoldable pub reset_statements : List (ResetStatement × BenchError)
reset_statements =
    (reset_drop_slot, no_drop_slot)
    ∷ (reset_drop_publication, no_drop_publication)
    ∷ (reset_truncate (codes "_jobs"), not_truncated (codes "_jobs"))
    ∷ (reset_truncate (codes "_cursor"), not_truncated (codes "_cursor"))
    ∷ (reset_truncate (codes "_dlq"), not_truncated (codes "_dlq"))
    ∷ (reset_create_publication, no_create_publication)
    ∷ (reset_create_slot, no_create_slot)
    ∷ []

unfoldable pub reset_all :
    (ResetStatement → Bool) → List (ResetStatement × BenchError) → Option BenchError
reset_all exec_ok [] = none
reset_all exec_ok ((s, e) ∷ ss) =
    let rest = reset_all exec_ok ss in if exec_ok s then rest else some e

unfoldable pub reset_bench : (ResetStatement → Bool) → Option BenchError
unfolding reset_statements
reset_bench exec_ok = reset_all exec_ok reset_statements
