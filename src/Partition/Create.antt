-- ===== src/Partition/Create.antt =====
-- What createPartitions leaves registered.
use mathlib.Core.List.{Memᴰ}
use jack_courier_driver_pglg.Prelude.{
  Bool-cases, inl, inr, text_eq, text_eq_iff, ℕ, ◌+◌, ◌≤◌, ◌<◌, ◌≡◌, refl, List, [], ◌∷◌, true,
  Bytes, text_eq_refl, arith,
}
use jack_courier_driver_pglg.Errors.{Result, ok, err}
use jack_courier_driver_pglg.Row.{Time}
use jack_courier_driver_pglg.Partition.{
  Partition, Catalog, CreateFaults, partition_name, partition_of, windows, has_name, add_partition,
  registered, register, ensure, then_create, create_all, create_partitions,
}
use jack_courier_driver_pglg.Partition.Windows.{windows_cover}

-- A name is registered when a row has it.
pub has_name_row :
    (name : Bytes) (ps : List Partition)
    → has_name name ps ≡ true
    → (p : Partition) × Memᴰ p ps × (p.name ≡ name)
unfolding has_name
has_name_row name [] h = absurd (ground arith)
has_name_row name (p ∷ ps) h = elim (Bool-cases (text_eq p.name name)) [
  | inl hit ↦ (p, Memᴰ.head refl, (text_eq_iff p.name name).0 hit)
  | inr miss ↦ let (q, m, e) = has_name_row name ps (ground (arith, h, miss)) in (q, Memᴰ.tail m, e)
]

pub row_has_name :
    (name : Bytes) (p : Partition) (ps : List Partition)
    → p.name ≡ name
    → Memᴰ p ps
    → has_name name ps ≡ true
unfolding has_name
row_has_name name p [] e m = elim m [ ]
row_has_name name p (q ∷ ps) e (Memᴰ.head s) = rw (← s, e) (rw (text_eq_refl name) refl)
row_has_name name p (q ∷ ps) e (Memᴰ.tail m) = ground (arith, row_has_name name p ps e m)

pub has_name-add_partition :
    (p : Partition) (ps : List Partition) → has_name p.name (add_partition p ps) ≡ true
unfolding has_name add_partition
has_name-add_partition p ps = ground (arith, text_eq_refl p.name)

pub has_name-add_partition_old :
    (name : Bytes) (p : Partition) (ps : List Partition)
    → has_name name ps ≡ true
    → has_name name (add_partition p ps) ≡ true
unfolding has_name add_partition
has_name-add_partition_old name p ps h = ground arith

-- A registered name stays registered, whatever fails.
Grows : Catalog → Catalog → Type 0
Grows c c' = (name : Bytes) → has_name name c.meta ≡ true → has_name name c'.meta ≡ true

ensure-Grows : (f : CreateFaults) (p : Partition) (c : Catalog) → Grows c (ensure f p c).1
unfolding Grows ensure register registered
ensure-Grows f p c name h = ground (arith, has_name-add_partition_old name p c.meta h)

ensure_ok :
    (f : CreateFaults) (p : Partition) (c : Catalog)
    → (ensure f p c).0 ≡ ok tt
    → has_name p.name (ensure f p c).1.meta ≡ true
unfolding ensure register registered
ensure_ok f p c h = ground (arith, has_name-add_partition p c.meta)

then_create-Grows :
    (c : Catalog) (r : Result (Unit {0}) × Catalog) (k : Catalog → Result (Unit {0}) × Catalog)
    → Grows c r.1
    → ((d : Catalog) → Grows d (k d).1)
    → Grows c (then_create r k).1
unfolding then_create Grows
then_create-Grows c (err e, d) k g f = g
then_create-Grows c (ok u, d) k g f = λ name h. f d name (g name h)

then_create_ok :
    (r : Result (Unit {0}) × Catalog) (k : Catalog → Result (Unit {0}) × Catalog)
    → (then_create r k).0 ≡ ok tt
    → (r.0 ≡ ok tt) × ((k r.1).0 ≡ ok tt) × (then_create r k ≡ k r.1)
unfolding then_create
then_create_ok (err e, d) k h = absurd (ground arith)
then_create_ok (ok u, d) k h = (refl, h, refl)

create_all-Grows :
    (faults : Time → CreateFaults) (table_prefix : Bytes) (interval : ℕ) (ts : List Time)
    (c : Catalog)
    → Grows c (create_all faults table_prefix interval ts c).1
unfolding create_all
create_all-Grows faults table_prefix interval [] c = unfold Grows in λ name h. h
create_all-Grows faults table_prefix interval (t ∷ ts) c =
    then_create-Grows c _ _ (ensure-Grows (faults t) (partition_of table_prefix interval t) c)
      (create_all-Grows faults table_prefix interval ts)

create_all_ok :
    (faults : Time → CreateFaults) (table_prefix : Bytes) (interval : ℕ) (ts : List Time)
    (c : Catalog)
    → (create_all faults table_prefix interval ts c).0 ≡ ok tt
    → (l : Time) → Memᴰ l ts
    → has_name (partition_name table_prefix l) (create_all faults table_prefix interval ts c).1.meta
      ≡ true
unfolding create_all partition_of Grows
create_all_ok faults table_prefix interval [] c h l m = elim m [ ]
create_all_ok faults table_prefix interval (t ∷ ts) c h l (Memᴰ.head e) =
    let p = partition_of table_prefix interval t in
    let first = ensure (faults t) p c in
    let (done, later, same) = then_create_ok first (create_all faults table_prefix interval ts) h in
    rw (same, e)
      (create_all-Grows faults table_prefix interval ts first.1 (partition_name table_prefix t)
        (ensure_ok (faults t) p c done))
create_all_ok faults table_prefix interval (t ∷ ts) c h l (Memᴰ.tail m) =
    let first = ensure (faults t) (partition_of table_prefix interval t) c in
    let (done, later, same) = then_create_ok first (create_all faults table_prefix interval ts) h in
    rw same (create_all_ok faults table_prefix interval ts first.1 later l m)

-- After a run without an error and with a positive interval, every instant from one interval ago up
-- to the end of the look-ahead lies in a window whose partition name is registered.
pub create_partitions_cover :
    (faults : Time → CreateFaults) (table_prefix : Bytes) (interval look_ahead : ℕ) (now x : Time)
    (c : Catalog)
    → 0 < interval
    → now ≤ x + interval
    → x < now + look_ahead
    → (create_partitions faults table_prefix interval look_ahead now c).0 ≡ ok tt
    → (l : Time) × Memᴰ l (windows interval look_ahead now)
      × (l ≤ x)
      × (x < l + interval)
      × (has_name
            (partition_name table_prefix l)
            (create_partitions faults table_prefix interval look_ahead now c).1.meta
          ≡ true)
unfolding create_partitions
create_partitions_cover faults table_prefix interval look_ahead now x c size from to h =
    let (l, m, lo, hi) = windows_cover interval look_ahead now x size from to in
    (
      l,
      m,
      lo,
      hi,
      create_all_ok faults table_prefix interval (windows interval look_ahead now) c h l m,
    )
