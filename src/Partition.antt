-- ===== src/Partition.antt =====
-- partition.go: the partitions of the outbox table. A partition is its name and its bounds; `meta` are
-- the rows of the partition_meta table and `attached` the partitions of the jobs table. The present is
-- later than any Duration (292 years) after the zero time, so no difference below falls under 0.
pub mod Calendar
pub mod Windows
pub mod Create
pub mod Parse
pub mod Expiry
pub mod Replica
pub mod Maintenance
pub mod Removal
pub mod Retention
use jack_courier_driver_pglg.Prelude.{
  ℕ, zero, suc, ◌+◌, ◌-◌, ◌%◌, List, [], ◌∷◌, ◌++◌, Bool, true, false, Bytes, codes, text_eq, leb,
  ltb, if◌then◌else◌,
}
use jack_courier_driver_pglg.Errors.{
  Error, Result, ok, err, ◌>>=◌, check_partition, begin_partition, create_partition,
  register_partition, commit_partition, begin_drop, query_expired, detach_partition, drop_partition,
  delete_meta, commit_drop,
}
use jack_courier_driver_pglg.Row.{Time}
use Calendar.{format_minute}

pub record Partition : Type 0 where
  pub name : Bytes
  pub lower : Time
  pub upper : Time

pub record Catalog : Type 0 where
  pub meta : List Partition
  pub attached : List Partition

-- time.Time's Truncate, for a positive duration
abbrev pub truncate_time : Time → ℕ → Time
truncate_time t d = t - t % d

unfoldable pub partition_name : Bytes → Time → Bytes
partition_name table_prefix lower = table_prefix ++ codes "_jobs_" ++ format_minute lower

unfoldable pub partition_of : Bytes → ℕ → Time → Partition
partition_of table_prefix interval t = record {
  name = partition_name table_prefix t;
  lower = t;
  upper = t + interval;
}

-- for t := start; t.Before(end); t = t.Add(interval)
unfoldable pub windows_from : ℕ → ℕ → Time → Time → List Time
windows_from zero interval t end = []
windows_from (suc fuel) interval t end =
    let rest = windows_from fuel interval (t + interval) end in if ltb t end then t ∷ rest else []

-- The lower bounds of the loop of createPartitions at the time `now`. A positive interval moves `t`
-- on, so as many turns as the range has nanoseconds are enough.
unfoldable pub windows : ℕ → ℕ → Time → List Time
windows interval look_ahead now =
    let start = truncate_time (now - interval) interval in
    windows_from (now + look_ahead - start) interval start (now + look_ahead)

unfoldable pub has_name : Bytes → List Partition → Bool
has_name name [] = false
has_name name (p ∷ ps) = if text_eq p.name name then true else has_name name ps

-- CREATE TABLE IF NOT EXISTS, and INSERT … ON CONFLICT DO NOTHING on the key partition_name
unfoldable pub add_partition : Partition → List Partition → List Partition
add_partition p ps = if has_name p.name ps then ps else p ∷ ps

-- Which calls for one partition return no error. A commit that returns one may have been applied.
pub record CreateFaults : Type 0 where
  pub check_ok : Bool
  pub begin_ok : Bool
  pub create_ok : Bool
  pub register_ok : Bool
  pub commit_ok : Bool
  pub commit_applied : Bool

unfoldable pub registered : Partition → Catalog → Catalog
registered p c = record { meta = add_partition p c.meta; attached = add_partition p c.attached }

-- the transaction of one partition
unfoldable pub register : CreateFaults → Partition → Catalog → Result (Unit {0}) × Catalog
register f p c =
    if f.begin_ok
    then if f.create_ok
      then if f.register_ok
        then if f.commit_ok
          then (ok tt, registered p c)
          else (err commit_partition, if f.commit_applied then registered p c else c)
        else (err register_partition, c)
      else (err create_partition, c)
    else (err begin_partition, c)

-- the body of the loop
unfoldable pub ensure : CreateFaults → Partition → Catalog → Result (Unit {0}) × Catalog
ensure f p c =
    if f.check_ok
    then if has_name p.name c.meta then (ok tt, c) else register f p c
    else (err check_partition, c)

unfoldable pub then_create :
    Result (Unit {0}) × Catalog
    → (Catalog → Result (Unit {0}) × Catalog)
    → Result (Unit {0}) × Catalog
then_create (ok u, c) k = k c
then_create (err e, c) k = (err e, c)

-- `faults` are those of each partition, by its lower bound.
unfoldable pub create_all :
    (Time → CreateFaults) → Bytes → ℕ → List Time → Catalog → Result (Unit {0}) × Catalog
unfolding then_create
create_all faults table_prefix interval [] c = (ok tt, c)
create_all faults table_prefix interval (t ∷ ts) c =
    then_create (ensure (faults t) (partition_of table_prefix interval t) c)
      (create_all faults table_prefix interval ts)

unfoldable pub create_partitions :
    (Time → CreateFaults) → Bytes → ℕ → ℕ → Time → Catalog → Result (Unit {0}) × Catalog
create_partitions faults table_prefix interval look_ahead now c =
    create_all faults table_prefix interval (windows interval look_ahead now) c
