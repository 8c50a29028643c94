-- ===== src/Backoff/Delays.antt =====
-- The bounds of the delays.
use native.Mathlib.Nat.{mul-le-mul_left}
use jack_courier_driver_pglg.Prelude.{
  ℕ, suc, ◌+◌, ◌*◌, ◌^◌, ◌≤◌, ◌<◌, ◌≡◌, List, [], ◌∷◌, min, length, All, arith,
}
use jack_courier_driver_pglg.Backoff.{Backoff, computed_delay, jittered, next, delays}

-- The exponential delay under its cap.
abbrev pub capped : Backoff → ℕ
capped b = min b.max_delay (b.initial * 2 ^ b.attempt)

computed_delay-capped : (b : Backoff) → computed_delay b ≡ capped b
unfolding computed_delay
computed_delay-capped b = ground arith

jittered_bounds : (k d : ℕ) → k < 2 ^ 53 → (jittered k d ≤ d) × (3 * d ≤ 4 * jittered k d + 3)
unfolding jittered
jittered_bounds k d h =
    let small : d * k ≤ d * 2 ^ 53 = mul-le-mul_left d (omega arith) in
    (omega (arith, small), omega arith)

-- Between three quarters of the capped exponential delay and the whole of it, up to the rounding.
abbrev pub InRange : ℕ → ℕ → Type 0
InRange c d = (d ≤ c) × (3 * c ≤ 4 * d + 3)

pub next-InRange : (k : ℕ) (b : Backoff) → k < 2 ^ 53 → InRange (capped b) (next k b).0
unfolding next
next-InRange k b h = rw computed_delay-capped (jittered_bounds k (capped b) h)

-- The ranges of the delays that follow, with the attempts counted up and never reset.
abbrev pub AllInRange : Backoff → List ℕ → Type 0
AllInRange b [] = Unit
AllInRange b (d ∷ ds) = InRange (capped b) d × AllInRange (record b { attempt = suc b.attempt }) ds

-- For any random numbers, the delay of each wait lies between three quarters of the doubled and
-- capped delay and the whole of it, and the attempts count the waits.
pub delays-InRange :
    (ks : List ℕ) (b : Backoff)
    → All (λ (k : ℕ). k < 2 ^ 53) ks
    → AllInRange b (delays ks b).0 × ((delays ks b).1.attempt ≡ b.attempt + length ks)
unfolding delays next
delays-InRange [] b h = (tt, omega arith)
delays-InRange (k ∷ ks) b h =
    let ih = delays-InRange ks (record b { attempt = suc b.attempt }) h.1 in
    ((next-InRange k b h.0, ih.0), omega (arith, ih.1))

-- Once the exponential delay has reached the cap, no later delay falls below three quarters of the
-- cap, up to the rounding, however many waits follow.
pub delays_saturated :
    (ks : List ℕ) (b : Backoff)
    → All (λ (k : ℕ). k < 2 ^ 53) ks
    → b.max_delay ≤ b.initial * 2 ^ b.attempt
    → All (λ (d : ℕ). (d ≤ b.max_delay) × (3 * b.max_delay ≤ 4 * d + 3)) (delays ks b).0
unfolding delays next
delays_saturated [] b h s = tt
delays_saturated (k ∷ ks) b h s =
    let more : b.initial * 2 ^ b.attempt ≤ b.initial * 2 ^ suc b.attempt =
      mul-le-mul_left b.initial (omega arith) in
    let (below, above) = next-InRange k b h.0 in
    (
      (omega (arith, below, s), omega (arith, above, s)),
      delays_saturated ks (record b { attempt = suc b.attempt }) h.1 (omega (arith, more, s)),
    )
