-- ===== src/Bench/Percentile.antt =====
-- The percentile and the maximum are samples.
use mathlib.Core.List.{Memᴰ}
use jack_courier_driver_pglg.Prelude.{
  ℕ, zero, suc, ◌≡◌, refl, ◌⊎◌, inl, inr, List, [], ◌∷◌, Bool, true, false, ℤ, pos, arith,
  if◌then◌else◌,
}
use jack_courier_driver_pglg.Bench.Stats.{
  lt_int, insert_sample, sort_samples, sample_at, percentile, max_from, max_int64,
}

insert_sample-Memᴰ : (x y : ℤ) (ys : List ℤ) → Memᴰ x (insert_sample y ys) → (x ≡ y) ⊎ Memᴰ x ys
unfolding insert_sample
insert_sample-Memᴰ x y [] (Memᴰ.head e) = inl e
insert_sample-Memᴰ x y [] (Memᴰ.tail m) = elim m [ ]
insert_sample-Memᴰ x y (z ∷ zs) m = go (lt_int z y) m (insert_sample-Memᴰ x y zs)
  where
    go :
        (b : Bool)
        → Memᴰ x (if b then z ∷ insert_sample y zs else y ∷ z ∷ zs)
        → (Memᴰ x (insert_sample y zs) → (x ≡ y) ⊎ Memᴰ x zs)
        → (x ≡ y) ⊎ Memᴰ x (z ∷ zs)
    go true (Memᴰ.head e) ih = inr (Memᴰ.head e)
    go true (Memᴰ.tail k) ih = elim (ih k) [ inl e ↦ inl e | inr n ↦ inr (Memᴰ.tail n) ]
    go false (Memᴰ.head e) ih = inl e
    go false (Memᴰ.tail k) ih = inr k

sort_samples-Memᴰ : (x : ℤ) (ys : List ℤ) → Memᴰ x (sort_samples ys) → Memᴰ x ys
unfolding sort_samples
sort_samples-Memᴰ x [] m = m
sort_samples-Memᴰ x (y ∷ ys) m = elim (insert_sample-Memᴰ x y (sort_samples ys) m) [
  | inl e ↦ Memᴰ.head e
  | inr k ↦ Memᴰ.tail (sort_samples-Memᴰ x ys k)
]

sample_at-Memᴰ :
    (last : ℤ) (n : ℕ) (xs : List ℤ) → (sample_at last n xs ≡ last) ⊎ Memᴰ (sample_at last n xs) xs
unfolding sample_at
sample_at-Memᴰ last n [] = inl refl
sample_at-Memᴰ last zero (x ∷ xs) = inr (Memᴰ.head refl)
sample_at-Memᴰ last (suc n) (x ∷ xs) = elim (sample_at-Memᴰ x n xs) [
  | inl e ↦ inr (Memᴰ.head e)
  | inr m ↦ inr (Memᴰ.tail m)
]

-- A percentile is 0 or one of the samples.
percentile-Memᴰ :
    (samples : List ℤ) (p : ℕ)
    → (percentile samples p ≡ pos 0) ⊎ Memᴰ (percentile samples p) samples
unfolding percentile
percentile-Memᴰ samples p = elim (sample_at-Memᴰ (pos 0) _ (sort_samples samples)) [
  | inl e ↦ inl e
  | inr m ↦ inr (sort_samples-Memᴰ _ samples m)
]

lt_int_trans : (a b c : ℤ) → lt_int b a ≡ false → lt_int c b ≡ false → lt_int c a ≡ false
lt_int_trans a b c h k = ground arith

larger :
    (m s : ℤ)
    → (lt_int (if lt_int m s then s else m) m ≡ false)
      × (lt_int (if lt_int m s then s else m) s ≡ false)
larger m s = ground arith

max_from_above : (m : ℤ) (ss : List ℤ) → lt_int (max_from m ss) m ≡ false
unfolding max_from
max_from_above m [] = ground arith
max_from_above m (s ∷ ss) =
    let n = if lt_int m s then s else m in
    lt_int_trans m n (max_from n ss) (larger m s).0 (max_from_above n ss)

-- No sample is larger than the maximum.
max_from_bound :
    (samples : List ℤ) (s : ℤ) (m : ℤ) → Memᴰ s samples → lt_int (max_from m samples) s ≡ false
unfolding max_from
max_from_bound [] s m k = elim k [ ]
max_from_bound (t ∷ ts) s m (Memᴰ.head e) =
    let n = if lt_int m t then t else m in
    rw e (lt_int_trans t n (max_from n ts) (larger m t).1 (max_from_above n ts))
max_from_bound (t ∷ ts) s m (Memᴰ.tail k) = max_from_bound ts s (if lt_int m t then t else m) k

max_int64_bound : (samples : List ℤ) (s : ℤ) → Memᴰ s samples → lt_int (max_int64 samples) s ≡ false
unfolding max_int64
max_int64_bound samples s k = max_from_bound samples s (pos 0) k
