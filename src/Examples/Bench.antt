-- ===== src/Examples/Bench.antt =====
-- The benchmark at a load of two turns.
use jack_courier_driver_pglg.Prelude.{
  ℕ, ◌≡◌, ◌↔◌, refl, [], ◌∷◌, true, false, Option, some, none, codes, pos, text_eq,
}
use jack_courier_driver_pglg.Strconv.{format_uint}
use jack_courier_driver_pglg.Config.{
  set_defaults, validate, validate_replicas, positive_or, text_or,
}
use jack_courier_driver_pglg.Driver.Pools.{new_driver, after_validate, open_pools_of, open_replicas}
use jack_courier_driver_pglg.Bench.{
  LoadTurn, load, reset_all, reset_bench, reset_statements, run_steady, per_tick, add_sample,
  at_deadline, after_insert,
}
use jack_courier_driver_pglg.Bench.Flags.{
  BenchConfig, rate, payload_size, parse_flags, set_flags, set_flag, default_flags, driver_config,
}
use jack_courier_driver_pglg.Bench.Jobs.{Slots, insert_jobs, slot_lag, scan_lag, lag_to, copy_sized}
use jack_courier_driver_pglg.Bench.Main.{
  BenchInputs, Verdict, finished, bench_main, verdict_of, after_reset, after_new, after_steady,
}
use jack_courier_driver_pglg.Bench.Verdict.{Finishes, gathered, bench_main_iff}

abbrev small : BenchConfig
small = parse_flags (rate (pos 20) ∷ payload_size (pos 2) ∷ [])

abbrev slots_at : ℕ → Slots
slots_at confirmed = record {
  current_wal_lsn = 3000;
  slots = (codes "other", none) ∷ (codes "bench_slot", some confirmed) ∷ [];
}

abbrev turn : Option Slots → LoadTurn
turn s = record { exited = false; copy_ok = true; slots = s }

abbrev sample_bench : BenchInputs
sample_bench = record {
  opens = λ s. true;
  ping_ok = true;
  reset_ok = λ s. true;
  turns = turn (some (slots_at 1000)) ∷ turn none ∷ turn (some (slots_at 2500)) ∷ [];
  stops_in_time = true;
}

abbrev sample_verdict : Verdict
sample_verdict = verdict_of (gathered small 2 sample_bench.turns) true

lags_read : (gathered small 2 sample_bench.turns).samples ≡ pos 2000 ∷ pos 500 ∷ []
unfolding add_sample slot_lag scan_lag lag_to parse_flags set_flags set_flag default_flags text_eq
lags_read = refl

bench_finishes : bench_main small sample_bench ≡ finished sample_verdict
unfolding bench_main after_reset after_new after_steady reset_bench reset_all reset_statements
    run_steady load per_tick add_sample at_deadline after_insert insert_jobs copy_sized slot_lag
    scan_lag lag_to parse_flags set_flags set_flag default_flags driver_config new_driver
    after_validate open_pools_of open_replicas set_defaults validate validate_replicas positive_or
    text_or text_eq format_uint verdict_of
bench_finishes = refl

bench_main_iff_example :
    (bench_main small sample_bench ≡ finished sample_verdict)
    ↔ Finishes small sample_bench sample_verdict
bench_main_iff_example = bench_main_iff small sample_bench sample_verdict
