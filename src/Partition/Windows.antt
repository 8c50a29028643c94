-- ===== src/Partition/Windows.antt =====
-- The windows of the loop of createPartitions follow each other without a gap.
use mathlib.Core.List.{Memᴰ}
use native.Mathlib.Nat.{mul-mod_left, mul_assoc, mod-add-div'}
use jack_courier_driver_pglg.Prelude.{
  Bool, true, false, ap, sym, ◌∙◌, ◌*◌, ◌/◌, ◌%◌, if◌then◌else◌, ℕ, zero, suc, ◌+◌, ◌-◌, ◌≤◌, ◌<◌,
  ◌≡◌, refl, List, [], ◌∷◌, ltb, arith, Bool-cases, inl, inr,
}
use jack_courier_driver_pglg.Row.{Time}
use jack_courier_driver_pglg.Partition.{truncate_time, windows_from, windows}
use jack_courier_driver_pglg.Partition.Calendar.{minute}

-- From `t` on, each window begins where the one before ends, and the last ends at `end` or later.
abbrev Tiles : ℕ → Time → Time → List Time → Type 0
Tiles interval t end [] = end ≤ t
Tiles interval t end (x ∷ xs) = (x ≡ t) × Tiles interval (t + interval) end xs

windows_from-Tiles :
    (fuel interval : ℕ) (t end : Time)
    → 0 < interval
    → end ≤ t + fuel
    → Tiles interval t end (windows_from fuel interval t end)
unfolding windows_from
windows_from-Tiles zero interval t end h enough = omega arith
windows_from-Tiles (suc fuel) interval t end h enough = elim (Bool-cases (ltb t end)) [
  | inl more ↦ rw more (refl, windows_from-Tiles fuel interval (t + interval) end h (omega arith))
  | inr done ↦ rw done (ground arith)
]

-- The window of `x` among those that begin at `t`.
abbrev pub Within : ℕ → Time → List Time → Type 0
Within interval x ts = (l : Time) × Memᴰ l ts × (l ≤ x) × (x < l + interval)

Tiles-Within :
    (interval : ℕ) (t end x : Time) (ts : List Time)
    → Tiles interval t end ts
    → t ≤ x
    → x < end
    → Within interval x ts
Tiles-Within interval t end x [] h from to = absurd (omega arith)
Tiles-Within interval t end x (l ∷ ts) (e, h) from to = elim (Bool-cases (ltb x (t + interval))) [
  | inl here ↦ (l, Memᴰ.head refl, ground arith, ground arith)
  | inr later ↦
      let (k, m, lo, hi) = Tiles-Within interval (t + interval) end x ts h (ground arith) to in
      (k, Memᴰ.tail m, lo, hi)
]

-- With a positive interval, every instant from one interval ago up to the end of the look-ahead lies
-- in one of the windows.
pub windows_cover :
    (interval look_ahead : ℕ) (now x : Time)
    → 0 < interval
    → now ≤ x + interval
    → x < now + look_ahead
    → Within interval x (windows interval look_ahead now)
unfolding windows
windows_cover interval look_ahead now x h from to =
    Tiles-Within interval (truncate_time (now - interval) interval) (now + look_ahead) x _
      (windows_from-Tiles _ interval _ _ h (omega arith)) (omega arith) to

-- A time at a multiple of an interval of full minutes is at a full minute.
truncate_time-full :
    (x interval : ℕ) → interval % minute ≡ 0 → truncate_time x interval % minute ≡ 0
truncate_time-full x interval h =
    let k = interval / minute in
    let whole : interval ≡ k * minute = omega (arith, h) in
    let e : truncate_time x interval ≡ x / interval * k * minute =
      omega (arith, mod-add-div' x interval)
      ∙ ap (λ (i : ℕ). x / interval * i) whole
      ∙ sym (mul_assoc (x / interval) k minute) in
    rw e (mul-mod_left (x / interval * k) minute)

windows_from-full :
    (fuel interval : ℕ) (t end l : Time)
    → interval % minute ≡ 0
    → t % minute ≡ 0
    → Memᴰ l (windows_from fuel interval t end)
    → (l % minute ≡ 0) × (l < end)
unfolding windows_from
windows_from-full zero interval t end l h k m = elim m [ ]
windows_from-full (suc fuel) interval t end l h k m =
    go (ltb t end) refl m (windows_from-full fuel interval (t + interval) end l h (omega arith))
  where
    go :
        (b : Bool)
        → ltb t end ≡ b
        → Memᴰ l (if b then t ∷ windows_from fuel interval (t + interval) end else [])
        → (Memᴰ l (windows_from fuel interval (t + interval) end) → (l % minute ≡ 0) × (l < end))
        → (l % minute ≡ 0) × (l < end)
    go true e (Memᴰ.head s) ih = (ground (arith, s), ground (arith, s))
    go true e (Memᴰ.tail n) ih = ih n
    go false e n ih = elim n [ ]

-- With an interval of full minutes, each window begins at a full minute, before the end.
pub windows_full :
    (interval look_ahead : ℕ) (now l : Time)
    → interval % minute ≡ 0
    → Memᴰ l (windows interval look_ahead now)
    → (l % minute ≡ 0) × (l < now + look_ahead)
unfolding windows
windows_full interval look_ahead now l h m =
    windows_from-full _ interval _ _ l h (truncate_time-full (now - interval) interval h) m
