-- ===== src/Bench/Main.antt =====
-- main of cmd/pglg-bench/main.go.
use jack_courier_driver_pglg.Prelude.{List, Bool, Option, none, some, Bytes, if◌then◌else◌}
use jack_courier_driver_pglg.Errors.{Result, ok, err}
use jack_courier_driver_pglg.Driver.Pools.{NewDriver, new_driver}
use jack_courier_driver_pglg.Bench.Flags.{BenchConfig, driver_config}
use jack_courier_driver_pglg.Bench.Stats.{percentile, max_int64, bounded, humanize_bytes}
use jack_courier_driver_pglg.Bench.{
  BenchError, not_connected, not_pinged, no_driver, LoadTurn, Steady, Loaded, ResetStatement,
  run_steady, reset_bench,
}

-- What main meets: `opens` is pgxpool.New, and `stops_in_time` whether the driver stops within 5 s.
pub record BenchInputs : Type 0 where
  pub opens : Bytes → Bool
  pub ping_ok : Bool
  pub reset_ok : ResetStatement → Bool
  pub turns : List LoadTurn
  pub stops_in_time : Bool

-- What is printed at the end, and the load that it is made of.
pub record Verdict : Type 0 where
  pub p50 : Bytes
  pub p99 : Bytes
  pub largest : Bytes
  pub is_bounded : Bool
  pub stopped : Bool
  pub steady : Steady

-- `fatal` ends the process with the exit code 1.
pub data Outcome : Type 0 where
  fatal : BenchError → Outcome
  finished : Verdict → Outcome

unfoldable pub verdict_of : Steady → Bool → Verdict
unfolding percentile max_int64 bounded humanize_bytes
verdict_of s stopped = record {
  p50 = humanize_bytes (percentile s.samples 50);
  p99 = humanize_bytes (percentile s.samples 99);
  largest = humanize_bytes (max_int64 s.samples);
  is_bounded = bounded s.samples;
  stopped = stopped;
  steady = s;
}

unfoldable pub after_steady : BenchInputs → Loaded → Outcome
unfolding verdict_of
after_steady i (some e, s) = fatal e
after_steady i (none, s) = finished (verdict_of s i.stops_in_time)

unfoldable pub after_new : BenchConfig → BenchInputs → Result NewDriver → Outcome
unfolding after_steady run_steady
after_new c i (err e) = fatal (no_driver e)
after_new c i (ok d) = after_steady i (run_steady c i.turns)

unfoldable pub after_reset : BenchConfig → BenchInputs → Option BenchError → Outcome
unfolding after_new new_driver
after_reset c i (some e) = fatal e
after_reset c i none = after_new c i (new_driver i.opens (driver_config c)).0

unfoldable pub bench_main : BenchConfig → BenchInputs → Outcome
unfolding after_reset reset_bench
bench_main c i =
    if i.opens c.conn_string
    then if i.ping_ok then after_reset c i (reset_bench i.reset_ok) else fatal not_pinged
    else fatal not_connected
