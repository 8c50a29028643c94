-- ===== src/Partition/Maintenance/Rows.antt =====
-- The registered partitions are windows: each is named by its lower bound, which makes the name a key.
use mathlib.Core.List.{Memᴰ}
use jack_courier_driver_pglg.Prelude.{
  ℕ, ◌+◌, ◌%◌, ◌≤◌, ◌<◌, ◌≡◌, refl, ap, sym, ◌∙◌, ◌⊎◌, List, [], ◌∷◌, Bool, true, false, some,
  Bytes, inl, inr, arith, if◌then◌else◌,
}
use jack_courier_driver_pglg.Errors.{Result, ok, err}
use jack_courier_driver_pglg.Row.{Time}
use jack_courier_driver_pglg.Partition.{
  Partition, Catalog, CreateFaults, partition_name, partition_of, windows, has_name, add_partition,
  registered, register, ensure, then_create, create_all, create_partitions,
}
use jack_courier_driver_pglg.Partition.Calendar.{minute}
use jack_courier_driver_pglg.Partition.Windows.{windows_full}
use jack_courier_driver_pglg.Partition.Parse.{parse_partition_lower, zero_time}
use jack_courier_driver_pglg.Partition.Parse.Days.{year_10000}
use jack_courier_driver_pglg.Partition.Parse.RoundTrip.{parse_partition_lower-partition_name}

module _ (table_prefix : Bytes) (interval : ℕ) where
  -- The row of a window that begins at a full minute before the year 10000.
  unfoldable pub IsWindow : Partition → Type 0
  IsWindow p =
      (p ≡ partition_of table_prefix interval p.lower)
      × (p.lower % minute ≡ 0)
      × (p.lower < year_10000)

  -- The name of a window gives its lower bound.
  window_lower :
      (l : Time) (p : Partition)
      → l % minute ≡ 0
      → l < year_10000
      → IsWindow p
      → p.name ≡ partition_name table_prefix l
      → p.lower ≡ l
  unfolding IsWindow partition_of
  window_lower l p full era (e, full', era') named =
      let a = parse_partition_lower-partition_name table_prefix p.lower era' full' in
      let b = parse_partition_lower-partition_name table_prefix l era full in
      let name : p.name ≡ partition_name table_prefix p.lower = ap (λ (q : Partition). q.name) e in
      let same : some (p.lower + zero_time) ≡ some (l + zero_time) =
        sym a ∙ ap (parse_partition_lower table_prefix) (sym name ∙ named) ∙ b in
      ground (arith, same)

  pub window_bounds :
      (l : Time) (p : Partition)
      → l % minute ≡ 0
      → l < year_10000
      → IsWindow p
      → p.name ≡ partition_name table_prefix l
      → (p.lower ≡ l) × (p.upper ≡ l + interval)
  unfolding IsWindow partition_of
  window_bounds l p full era w named =
      let lower = window_lower l p full era w named in
      let upper : p.upper ≡ p.lower + interval = ap (λ (q : Partition). q.upper) w.0 in
      (lower, omega (arith, lower, upper))

  -- So it is a key.
  pub window_key : (p q : Partition) → IsWindow p → IsWindow q → q.name ≡ p.name → q ≡ p
  unfolding IsWindow partition_of
  window_key p q (e, full, era) (e', full', era') named =
      let name : p.name ≡ partition_name table_prefix p.lower = ap (λ (r : Partition). r.name) e in
      let same = window_lower p.lower q full era (e', full', era') (named ∙ name) in
      e' ∙ ap (partition_of table_prefix interval) same ∙ sym e

  abbrev pub AllWindows : Catalog → Type 0
  AllWindows c = (p : Partition) → Memᴰ p c.meta → IsWindow p

  add_partition-AllWindows :
      (p : Partition) (ps : List Partition)
      → IsWindow p
      → ((q : Partition) → Memᴰ q ps → IsWindow q)
      → (q : Partition) → Memᴰ q (add_partition p ps)
      → IsWindow q
  unfolding add_partition
  add_partition-AllWindows p ps w h q m = go (has_name p.name ps) m
    where
      go : (b : Bool) → Memᴰ q (if b then ps else p ∷ ps) → IsWindow q
      go true k = h q k
      go false (Memᴰ.head e) = rw e w
      go false (Memᴰ.tail k) = h q k

  ensure_ends :
      (f : CreateFaults) (p : Partition) (c : Catalog)
      → ((ensure f p c).1 ≡ c) ⊎ ((ensure f p c).1 ≡ registered p c)
  unfolding ensure register
  ensure_ends f p c = ground arith

  ensure-AllWindows :
      (f : CreateFaults) (p : Partition) (c : Catalog)
      → IsWindow p
      → AllWindows c
      → AllWindows (ensure f p c).1
  unfolding registered
  ensure-AllWindows f p c w h = elim (ensure_ends f p c) [
    | inl same ↦ rw same h
    | inr new ↦ rw new (add_partition-AllWindows p c.meta w h)
  ]

  create_all-AllWindows :
      (faults : Time → CreateFaults) (ts : List Time) (c : Catalog)
      → ((l : Time) → Memᴰ l ts → IsWindow (partition_of table_prefix interval l))
      → AllWindows c
      → AllWindows (create_all faults table_prefix interval ts c).1
  unfolding create_all
  create_all-AllWindows faults [] c w h = h
  create_all-AllWindows faults (t ∷ ts) c w h =
      let p = partition_of table_prefix interval t in
      let first = ensure-AllWindows (faults t) p c (w t (Memᴰ.head refl)) h in
      go (ensure (faults t) p c) first
        (λ d. create_all-AllWindows faults ts d (λ l m. w l (Memᴰ.tail m)))
    where
      go :
          (r : Result (Unit {0}) × Catalog)
          → AllWindows r.1
          → ((d : Catalog)
              → AllWindows d
              → AllWindows (create_all faults table_prefix interval ts d).1)
          → AllWindows (then_create r (create_all faults table_prefix interval ts)).1
      go (ok u, d) k f = f d k
      go (err e, d) k f = k

  -- The maintenance keeps the rows windows.
  pub create_partitions-AllWindows :
      (faults : Time → CreateFaults) (look_ahead : ℕ) (now : Time) (c : Catalog)
      → interval % minute ≡ 0
      → now + look_ahead ≤ year_10000
      → AllWindows c
      → AllWindows (create_partitions faults table_prefix interval look_ahead now c).1
  unfolding create_partitions IsWindow partition_of
  create_partitions-AllWindows faults look_ahead now c full era h =
      create_all-AllWindows faults (windows interval look_ahead now) c
        (λ l m.
          let (f, b) = windows_full interval look_ahead now l full m in
          (refl, f, omega (arith, b, era)))
        h
