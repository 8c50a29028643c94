-- ===== src/Bench/Verdict.antt =====
-- When main of cmd/pglg-bench/main.go reaches its verdict.
use jack_courier_driver_pglg.Prelude.{
  ℕ, ◌+◌, ◌*◌, ◌≡◌, ◌≢◌, refl, sym, ◌∙◌, ap, ◌↔◌, List, [], ◌∷◌, Bool, true, false, Option, none,
  some, Bytes, is_empty, length, All, append-nil, arith, Bool-cases, inl, inr, if◌then◌else◌,
}
use jack_courier_driver_pglg.Errors.{Result, ok, err}
use jack_courier_driver_pglg.Config.{set_defaults, validate, validate_replicas}
use jack_courier_driver_pglg.Driver.Pools.{
  NewDriver, new_driver, after_validate, open_pools_of, open_replicas,
}
use jack_courier_driver_pglg.Bench.Flags.{BenchConfig, driver_config}
use jack_courier_driver_pglg.Bench.Jobs.{copy_of}
use jack_courier_driver_pglg.Bench.{
  LoadTurn, Steady, BenchError, ResetStatement, reset_all, reset_bench, reset_statements, per_tick,
  run_steady,
}
use jack_courier_driver_pglg.Bench.Main.{
  BenchInputs, Verdict, fatal, finished, verdict_of, after_steady, after_new, after_reset,
  bench_main,
}
use jack_courier_driver_pglg.Bench.Load.{
  size_of, lags, GoesOn, loaded, load_forward, load_backward, load_sized, repeat,
}

abbrev Works : (ResetStatement → Bool) → List (ResetStatement × BenchError) → Type 0
Works exec_ok = All (λ (p : ResetStatement × BenchError). exec_ok p.0 ≡ true)

reset_all_iff :
    (exec_ok : ResetStatement → Bool) (ss : List (ResetStatement × BenchError))
    → (reset_all exec_ok ss ≡ none) ↔ Works exec_ok ss
unfolding reset_all
reset_all_iff exec_ok [] = (λ h. tt, λ h. refl)
reset_all_iff exec_ok (p ∷ ss) =
    let ih = reset_all_iff exec_ok ss in
    elim (Bool-cases (exec_ok p.0)) [
      | inl done ↦ rw done (λ h. (refl, ih.0 h), λ h. ih.1 h.1)
      | inr refused ↦ rw refused (λ h. cc, λ h. cc)
    ]

-- The names that New requires.
abbrev pub IsNamed : BenchConfig → Type 0
IsNamed c =
    (is_empty c.conn_string ≡ false) × (is_empty c.slot ≡ false) × (is_empty c.publication ≡ false)

named :
    (opens : Bytes → Bool) (c : BenchConfig) (d : NewDriver)
    → (new_driver opens (driver_config c)).0 ≡ ok d
    → IsNamed c
unfolding new_driver driver_config set_defaults validate after_validate
named opens c d h = ground arith

new_of_named :
    (opens : Bytes → Bool) (c : BenchConfig)
    → opens c.conn_string ≡ true
    → IsNamed c
    → (d : NewDriver) × ((new_driver opens (driver_config c)).0 ≡ ok d)
unfolding new_driver driver_config set_defaults validate validate_replicas after_validate
    open_pools_of open_replicas
new_of_named opens c o (n, s, p) = rw (n, s, p, o) (_, refl)

abbrev idle : Steady
idle = record { inserted = 0; samples = []; calls = [] }

-- What the load of some turns gathers, with payloads of a size.
abbrev pub gathered : BenchConfig → ℕ → List LoadTurn → Steady
gathered c size turns = record {
  inserted = per_tick c.rate * length turns;
  samples = lags c.slot turns;
  calls = repeat (length turns) (copy_of c size (per_tick c.rate));
}

loaded-gathered :
    (c : BenchConfig) (size : ℕ) (turns : List LoadTurn)
    → loaded c size (per_tick c.rate) turns idle ≡ gathered c size turns
loaded-gathered c size turns =
    let count : 0 + per_tick c.rate * length turns ≡ per_tick c.rate * length turns = omega arith in
    let called = append-nil (repeat (length turns) (copy_of c size (per_tick c.rate))) in
    λ j. record { inserted = count j; samples = lags c.slot turns; calls = called j }

-- What a run of main meets that reaches its verdict.
pub record Finishes (c : BenchConfig) (i : BenchInputs) (v : Verdict) : Type 0 where
  pub opened : i.opens c.conn_string ≡ true
  pub pinged : i.ping_ok ≡ true
  pub emptied : Works i.reset_ok reset_statements
  pub named : IsNamed c
  pub went : All GoesOn i.turns
  pub size : ℕ
  pub fits : size_of c.payload_size ≡ some size
  pub sampled : lags c.slot i.turns ≢ []
  pub verdict : v ≡ verdict_of (gathered c size i.turns) i.stops_in_time

after_steady_finished :
    (c : BenchConfig) (i : BenchInputs) (v : Verdict)
    → after_steady i (run_steady c i.turns) ≡ finished v
    → (s : Steady) × (run_steady c i.turns ≡ (none, s)) × (v ≡ verdict_of s i.stops_in_time)
unfolding after_steady
after_steady_finished c i v e = go (run_steady c i.turns) refl e
  where
    go :
        (r : Option BenchError × Steady)
        → run_steady c i.turns ≡ r
        → after_steady i r ≡ finished v
        → (s : Steady) × (run_steady c i.turns ≡ (none, s)) × (v ≡ verdict_of s i.stops_in_time)
    go (some x, s) at h = cc
    go (none, s) at h = (s, at, cc)

-- What stands behind a run that finishes.
abbrev Passed : BenchConfig → BenchInputs → Verdict → Type 0
Passed c i v =
    (i.opens c.conn_string ≡ true)
    × (i.ping_ok ≡ true)
    × (reset_all i.reset_ok reset_statements ≡ none)
    × (d : NewDriver) × ((new_driver i.opens (driver_config c)).0 ≡ ok d)
    × (after_steady i (run_steady c i.turns) ≡ finished v)

bench_main-Passed :
    (c : BenchConfig) (i : BenchInputs) (v : Verdict) → bench_main c i ≡ finished v → Passed c i v
unfolding bench_main reset_bench
bench_main-Passed c i v e = go (i.opens c.conn_string) i.ping_ok refl refl e
  where
    made :
        (r : Result NewDriver)
        → (new_driver i.opens (driver_config c)).0 ≡ r
        → after_new c i r ≡ finished v
        → (d : NewDriver) × ((new_driver i.opens (driver_config c)).0 ≡ ok d)
          × (after_steady i (run_steady c i.turns) ≡ finished v)
    made (err x) at h = unfold after_new in cc
    made (ok d) at h = (d, at, unfold after_new in h)

    emptied :
        (o : Option BenchError)
        → reset_all i.reset_ok reset_statements ≡ o
        → after_reset c i o ≡ finished v
        → (reset_all i.reset_ok reset_statements ≡ none)
          × (d : NewDriver) × ((new_driver i.opens (driver_config c)).0 ≡ ok d)
          × (after_steady i (run_steady c i.turns) ≡ finished v)
    emptied (some x) at h = unfold after_reset in cc
    emptied none at h =
        let (d, new, rest) =
          made (new_driver i.opens (driver_config c)).0 refl (unfold after_reset in h) in
        (at, d, new, rest)

    go :
        (a b : Bool)
        → i.opens c.conn_string ≡ a
        → i.ping_ok ≡ b
        → (if a
            then if b
              then after_reset c i (reset_all i.reset_ok reset_statements)
              else fatal BenchError.not_pinged
            else fatal BenchError.not_connected)
          ≡ finished v
        → Passed c i v
    go false b o p h = cc
    go true false o p h = cc
    go true true o p h =
        let (reset, d, new, rest) = emptied (reset_all i.reset_ok reset_statements) refl h in
        (o, p, reset, d, new, rest)

bench_main_of_Passed :
    (c : BenchConfig) (i : BenchInputs) (v : Verdict) → Passed c i v → bench_main c i ≡ finished v
unfolding bench_main reset_bench after_reset after_new
bench_main_of_Passed c i v (o, p, reset, d, new, rest) = rw (o, p, reset) (rw new rest)

-- The benchmark reaches a verdict exactly when the database is reached, each statement of the reset
-- works, the driver's names are given, the payload's size is not negative, no turn finds the driver
-- gone or fails to insert, and some turn reads the lag of the slot; the verdict is then made of all
-- the lags that were read, and each turn has inserted its jobs.
pub bench_main_iff :
    (c : BenchConfig) (i : BenchInputs) (v : Verdict)
    → (bench_main c i ≡ finished v) ↔ Finishes c i v
unfolding run_steady after_steady
bench_main_iff c i v = (
  λ e.
      let (o, p, reset, d, new, rest) = bench_main-Passed c i v e in
      let (s, ran, made) = after_steady_finished c i v rest in
      let (size, fits) = load_sized c (per_tick c.rate) i.turns idle s refl ran in
      let (went, sampled, at) = load_forward c (per_tick c.rate) size fits i.turns idle s ran in
      let all = at ∙ loaded-gathered c size i.turns in
      record {
        opened = o;
        pinged = p;
        emptied = (reset_all_iff i.reset_ok reset_statements).0 reset;
        named = named i.opens c d new;
        went = went;
        size = size;
        fits = fits;
        sampled = λ h. sampled (ap (λ (t : Steady). t.samples) all ∙ h);
        verdict = made ∙ ap (λ (t : Steady). verdict_of t i.stops_in_time) all;
      },
  λ f.
      let (d, new) = new_of_named i.opens c f.opened f.named in
      let ran = load_backward c (per_tick c.rate) f.size f.fits i.turns idle f.went f.sampled in
      bench_main_of_Passed c i v (
        f.opened,
        f.pinged,
        (reset_all_iff i.reset_ok reset_statements).1 f.emptied,
        d,
        new,
        rw ran (rw (loaded-gathered c f.size i.turns) (ap finished (sym f.verdict))),
      ),
)
