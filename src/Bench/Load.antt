-- ===== src/Bench/Load.antt =====
-- runSteady of cmd/pglg-bench/main.go: when the load ends without an error, and with what.
use mathlib.Core.Path.{subst}
use jack_courier_driver_pglg.Prelude.{
  ℕ, zero, suc, ◌+◌, ◌*◌, ◌≡◌, ◌≢◌, refl, sym, ◌∙◌, ap, List, [], ◌∷◌, ◌++◌, Bool, true, false,
  Option, none, some, Bytes, ℤ, pos, negsuc, length, All, append_assoc, append-nil, arith,
  if◌then◌else◌,
}
use jack_courier_driver_pglg.Bench.Flags.{BenchConfig}
use jack_courier_driver_pglg.Bench.Jobs.{
  CopyFrom, copied, copy_of, copy_sized, insert_jobs, slot_lag,
}
use jack_courier_driver_pglg.Bench.{
  LoadTurn, Steady, Loaded, BenchError, add_sample, at_deadline, after_insert, load,
}

-- The bytes of a payload; make panics where the size is negative.
abbrev pub size_of : ℤ → Option ℕ
size_of (pos n) = some n
size_of (negsuc n) = none

-- The lags of the turns that gave one.
abbrev pub lags : Bytes → List LoadTurn → List ℤ
lags slot [] = []
lags slot (i ∷ is) = add_sample (slot_lag i.slots slot) [] ++ lags slot is

abbrev pub repeat : ℕ → CopyFrom → List CopyFrom
repeat zero call = []
repeat (suc k) call = call ∷ repeat k call

abbrev pub GoesOn : LoadTurn → Type 0
GoesOn i = (i.exited ≡ false) × (i.copy_ok ≡ true)

repeat_behind :
    (k : ℕ) (call : CopyFrom) (calls : List CopyFrom)
    → repeat k call ++ (call ∷ calls) ≡ call ∷ (repeat k call ++ calls)
repeat_behind zero call calls = refl
repeat_behind (suc k) call calls = ap (◌∷◌ call) (repeat_behind k call calls)

add_sample-append : (l : Option ℤ) (xs : List ℤ) → add_sample l xs ≡ xs ++ add_sample l []
unfolding add_sample
add_sample-append none xs = sym (append-nil xs)
add_sample-append (some l) xs = refl

-- What a load of `is` makes of `s`, where every turn inserts.
abbrev pub loaded : BenchConfig → ℕ → ℕ → List LoadTurn → Steady → Steady
loaded c size n is s = record {
  inserted = s.inserted + n * length is;
  samples = s.samples ++ lags c.slot is;
  calls = repeat (length is) (copy_of c size n) ++ s.calls;
}

abbrev inserted_once : BenchConfig → ℕ → ℕ → LoadTurn → Steady → Steady
inserted_once c size n i s = record {
  inserted = s.inserted + n;
  samples = add_sample (slot_lag i.slots c.slot) s.samples;
  calls = copy_of c size n ∷ s.calls;
}

loaded_once :
    (c : BenchConfig) (size n : ℕ) (i : LoadTurn) (is : List LoadTurn) (s : Steady)
    → loaded c size n is (inserted_once c size n i s) ≡ loaded c size n (i ∷ is) s
loaded_once c size n i is s =
    let lag = slot_lag i.slots c.slot in
    let count : s.inserted + n + n * length is ≡ s.inserted + n * suc (length is) = grind arith in
    let sampled : add_sample lag s.samples ++ lags c.slot is
        ≡ s.samples ++ (add_sample lag [] ++ lags c.slot is) =
      rw (add_sample-append lag s.samples) (append_assoc s.samples _ _) in
    let called = repeat_behind (length is) (copy_of c size n) s.calls in
    λ j. record { inserted = count j; samples = sampled j; calls = called j }

at_deadline_without_error :
    (xs : List ℤ) (s s' : Steady) → at_deadline xs s ≡ (none, s') → (s' ≡ s) × (xs ≢ [])
unfolding at_deadline
at_deadline_without_error [] s s' e = cc
at_deadline_without_error (x ∷ xs) s s' e = (cc, λ h. cc)

-- The insert of a turn that goes on.
goes_on :
    (c : BenchConfig) (n : ℕ) (i : LoadTurn) (s s' : Steady) (next : Steady → Loaded)
    → after_insert c n i s next (insert_jobs c n i.copy_ok) ≡ (none, s')
    → (size : ℕ) × (size_of c.payload_size ≡ some size)
      × (i.copy_ok ≡ true)
      × (next (inserted_once c size n i s) ≡ (none, s'))
unfolding after_insert insert_jobs copy_sized
goes_on c n i s s' next e = go c.payload_size i.copy_ok e
  where
    go :
        (z : ℤ) (b : Bool)
        → after_insert c n i s next (copy_sized z c n b) ≡ (none, s')
        → (size : ℕ) × (size_of z ≡ some size)
          × (b ≡ true)
          × (next (inserted_once c size n i s) ≡ (none, s'))
    go (negsuc k) b h = cc
    go (pos size) false h = cc
    go (pos size) true h = (size, refl, refl, h)

copy_sized_fits :
    (c : BenchConfig) (z : ℤ) (size n : ℕ)
    → size_of z ≡ some size
    → copy_sized z c n true ≡ copied (copy_of c size n)
unfolding copy_sized
copy_sized_fits c (pos k) size n fits = ground arith
copy_sized_fits c (negsuc k) size n fits = cc

loaded_none : (c : BenchConfig) (size n : ℕ) (s : Steady) → loaded c size n [] s ≡ s
loaded_none c size n s =
    let count : s.inserted + n * 0 ≡ s.inserted = omega arith in
    let sampled = append-nil s.samples in
    λ j. record { inserted = count j; samples = sampled j; calls = s.calls }

abbrev went : Steady → Loaded
went s = (none, s)

at_deadline_some : (xs : List ℤ) (s : Steady) → xs ≢ [] → at_deadline xs s ≡ (none, s)
unfolding at_deadline
at_deadline_some [] s h = absurd (h refl)
at_deadline_some (x ∷ xs) s h = refl

module _ (c : BenchConfig) (n size : ℕ) (fits : size_of c.payload_size ≡ some size) where
  pub load_forward :
      (is : List LoadTurn) (s s' : Steady)
      → load c n is s ≡ (none, s')
      → All GoesOn is × (s'.samples ≢ []) × (s' ≡ loaded c size n is s)
  unfolding load
  load_forward [] s s' e =
      let (same, some_lag) = at_deadline_without_error s.samples s s' e in
      (
        tt,
        λ h. some_lag (subst (λ (t : Steady). t.samples ≡ []) same h),
        same ∙ sym (loaded_none c size n s),
      )
  load_forward (i ∷ is) s s' e = go i.exited refl e (λ t h. load_forward is t s' h)
    where
      go :
          (b : Bool)
          → i.exited ≡ b
          → ◌≡◌ {A = Loaded}
              (if b
                then (some BenchError.driver_exited, s)
                else after_insert c n i s (load c n is) (insert_jobs c n i.copy_ok))
              (none, s')
          → ((t : Steady)
              → load c n is t ≡ (none, s')
              → All GoesOn is × (s'.samples ≢ []) × (s' ≡ loaded c size n is t))
          → All GoesOn (i ∷ is) × (s'.samples ≢ []) × (s' ≡ loaded c size n (i ∷ is) s)
      go true at h ih = cc
      go false at h ih =
          let (k, fits', copy, more) = goes_on c n i s s' (load c n is) h in
          let same : k ≡ size = cc in
          let (rest, some_lag, made) = ih (inserted_once c k n i s) more in
          (((at, copy), rest), some_lag, made ∙ rw same (loaded_once c size n i is s))

  pub load_backward :
      (is : List LoadTurn) (s : Steady)
      → All GoesOn is
      → s.samples ++ lags c.slot is ≢ []
      → load c n is s ≡ (none, loaded c size n is s)
  unfolding load after_insert insert_jobs
  load_backward [] s h some_lag =
      at_deadline_some s.samples s (λ e. some_lag (append-nil s.samples ∙ e))
      ∙ ap went (sym (loaded_none c size n s))
  load_backward (i ∷ is) s ((on, copy), h) some_lag =
      let lag = slot_lag i.slots c.slot in
      let regrouped : add_sample lag s.samples ++ lags c.slot is
          ≡ s.samples ++ (add_sample lag [] ++ lags c.slot is) =
        rw (add_sample-append lag s.samples) (append_assoc s.samples _ _) in
      rw (on, copy, copy_sized_fits c c.payload_size size n fits)
        (load_backward is (inserted_once c size n i s) h (λ e. some_lag (sym regrouped ∙ e))
          ∙ ap went (loaded_once c size n i is s))

-- A load that collects a sample has made a payload.
pub load_sized :
    (c : BenchConfig) (n : ℕ) (is : List LoadTurn) (s s' : Steady)
    → s.samples ≡ []
    → load c n is s ≡ (none, s')
    → (size : ℕ) × (size_of c.payload_size ≡ some size)
unfolding load
load_sized c n [] s s' no_lag e = absurd ((at_deadline_without_error s.samples s s' e).1 no_lag)
load_sized c n (i ∷ is) s s' no_lag e = go i.exited e
  where
    go :
        (b : Bool)
        → ◌≡◌ {A = Loaded}
            (if b
              then (some BenchError.driver_exited, s)
              else after_insert c n i s (load c n is) (insert_jobs c n i.copy_ok))
            (none, s')
        → (size : ℕ) × (size_of c.payload_size ≡ some size)
    go true h = cc
    go false h = let (k, fits, copy, more) = goes_on c n i s s' (load c n is) h in (k, fits)
