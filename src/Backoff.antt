-- ===== src/Backoff.antt =====
-- backoff.go: the delays between reconnections. The floating point product is taken as an exact one,
-- rounded down to a Duration; rand.Float64 gives k / 2^53 for a k below 2^53, the argument of `next`.
pub mod Delays
use jack_courier_driver_pglg.Prelude.{
  ℕ, Bool, suc, ◌+◌, ◌*◌, ◌/◌, ◌^◌, List, [], ◌∷◌, ltb, if◌then◌else◌,
}
use jack_courier_driver_pglg.Errors.{Result, ok, err, cancelled}

-- The multiplier is the constant 2.0 of Run.
pub record Backoff : Type 0 where
  pub initial : ℕ
  pub max_delay : ℕ
  pub attempt : ℕ

unfoldable pub computed_delay : Backoff → ℕ
computed_delay b = let d = b.initial * 2 ^ b.attempt in if ltb b.max_delay d then b.max_delay else d

-- d * (0.75 + k / 2^53 * 0.25)
unfoldable pub jittered : ℕ → ℕ → ℕ
jittered k d = d * (3 * 2 ^ 53 + k) / (4 * 2 ^ 53)

unfoldable pub next : ℕ → Backoff → ℕ × Backoff
next k b = (jittered k (computed_delay b), record b { attempt = suc b.attempt })

unfoldable pub reset : Backoff → Backoff
reset b = record b { attempt = 0 }

-- The delays of `wait` after `wait`, as Run calls it.
unfoldable pub delays : List ℕ → Backoff → List ℕ × Backoff
delays [] b = ([], b)
delays (k ∷ ks) b = let (d, b') = next k b in let (ds, b'') = delays ks b' in (d ∷ ds, b'')

-- wait: the delay, and how it ends; the attempt counts even when the context ends it.
unfoldable pub wait : ℕ → Bool → Backoff → Result (Unit {0}) × (ℕ × Backoff)
wait k stopped b = (if stopped then err cancelled else ok tt, next k b)
