-- ===== src/Partition/Maintenance.antt =====
-- runPartitionMaintenance, partitionMaintenance and emitPartitionMetrics of partition.go. Each clock
-- reading is an input. A gauge in hours is the difference in nanoseconds that it is made from.
pub mod Replicas
pub mod Rows
pub mod Primary
use jack_courier_driver_pglg.Prelude.{
  ℕ, suc, ◌+◌, ◌-◌, List, [], ◌∷◌, ◌++◌, Bool, true, false, Option, none, some, Bytes, ltb, ◌==◌, ℤ,
  pos, negsuc, max, min, length, if◌then◌else◌,
}
use jack_courier_driver_pglg.Errors.{Result, ok, err}
use jack_courier_driver_pglg.Row.{Time}
use jack_courier_driver_pglg.Partition.{Partition, Catalog, CreateFaults, create_partitions}
use jack_courier_driver_pglg.Partition.Expiry.{DropFaults, drop_expired_partitions}
use jack_courier_driver_pglg.Partition.Replica.{
  ReplicaFaults, list_replica_partitions, create_replica_partitions,
  drop_expired_replica_partitions,
}

-- the fields of Config that the maintenance reads, positive after setDefaults
pub record Settings : Type 0 where
  pub table_prefix : Bytes
  pub interval : ℕ
  pub look_ahead : ℕ
  pub retention : ℕ

-- the tag "op"
pub data Op : Type 0 where
  op_list op_create op_drop : Op

pub data Metric : Type 0 where
  partition_error : Op → Metric
  replica_sync_error : Bytes → Op → Metric
  total_count : ℕ → Metric
  lookahead_hours oldest_hours : ℤ → Metric

-- What a replica answers, and the readings of the clock.
pub record ReplicaTurn : Type 0 where
  pub faults : ReplicaFaults
  pub create_now : Time
  pub drop_now : Time

pub record Replica : Type 0 where
  pub name : Bytes
  pub attached : List Partition

pub record Turn : Type 0 where
  pub create_faults : Time → CreateFaults
  pub create_now : Time
  pub drop_faults : DropFaults
  pub drop_now : Time
  pub replica_turns : List ReplicaTurn
  pub count_ok : Bool
  pub max_ok : Bool
  pub min_ok : Bool
  pub metrics_now : Time

pub record Upkeep : Type 0 where
  pub catalog : Catalog
  pub replicas : List Replica
  pub metrics : List Metric

unfoldable pub on_error : Metric → Result (Unit {0}) → List Metric
on_error m (ok u) = []
on_error m (err e) = m ∷ []

unfoldable pub create_then_drop :
    Settings
    → ReplicaTurn
    → Bytes
    → List Partition
    → Result (List Bytes)
    → List Metric × List Partition
create_then_drop c i name attached (err e) = (replica_sync_error name op_list ∷ [], attached)
create_then_drop c i name attached (ok existing) =
    let (created, more) =
      create_replica_partitions i.faults c.table_prefix c.interval c.look_ahead i.create_now
        existing attached in
    let (dropped, left) =
      drop_expired_replica_partitions i.faults c.table_prefix c.interval c.retention i.drop_now
        existing more in
    (
      on_error (replica_sync_error name op_create) created
          ++ on_error (replica_sync_error name op_drop) dropped,
      left,
    )

-- the body of the loop over the replicas
unfoldable pub maintain_replica : Settings → ReplicaTurn → Replica → List Metric × Replica
maintain_replica c i r =
    let (ms, attached) =
      create_then_drop c i r.name r.attached (list_replica_partitions i.faults r.attached) in
    (ms, record r { attached = attached })

-- One turn is given for each replica.
unfoldable pub maintain_replicas :
    Settings → List ReplicaTurn → List Replica → List Metric × List Replica
maintain_replicas c (i ∷ is) (r ∷ rs) =
    let (ms, r') = maintain_replica c i r in
    let (ns, rs') = maintain_replicas c is rs in (ms ++ ns, r' ∷ rs')
maintain_replicas c _ rs = ([], rs)

-- t.Sub(u)
unfoldable pub sub_time : Time → Time → ℤ
sub_time t u = if ltb t u then negsuc (u - t - 1) else pos (t - u)

-- SELECT MAX(upper_bound) and SELECT MIN(lower_bound), of a table that has a row
unfoldable pub max_upper : List Partition → Time
max_upper [] = 0
max_upper (p ∷ ps) = max p.upper (max_upper ps)

unfoldable pub min_lower : Partition → List Partition → Time
min_lower p [] = p.lower
min_lower p (q ∷ ps) = min p.lower (min_lower q ps)

unfoldable pub oldest_metric : Turn → List Partition → List Metric
oldest_metric i [] = []
oldest_metric i (p ∷ ps) =
    if i.min_ok then oldest_hours (sub_time i.metrics_now (min_lower p ps)) ∷ [] else []

unfoldable pub emit_partition_metrics : Turn → List Partition → List Metric
emit_partition_metrics i meta =
    if i.count_ok
    then total_count (length meta)
      ∷ (if length meta == 0
          then lookahead_hours (pos 0) ∷ oldest_hours (pos 0) ∷ []
          else if i.max_ok
          then lookahead_hours (sub_time (max_upper meta) i.metrics_now) ∷ oldest_metric i meta
          else [])
    else []

unfoldable pub run_partition_maintenance : Settings → Turn → Upkeep → Upkeep
run_partition_maintenance c i s =
    let (created, more) =
      create_partitions i.create_faults c.table_prefix c.interval c.look_ahead i.create_now
        s.catalog in
    let (dropped, left) = drop_expired_partitions i.drop_faults c.retention i.drop_now more in
    let (ms, replicas) = maintain_replicas c i.replica_turns s.replicas in
    record {
      catalog = left;
      replicas = replicas;
      metrics =
          s.metrics
          ++ on_error (partition_error op_create) created
          ++ on_error (partition_error op_drop) dropped
          ++ ms
          ++ emit_partition_metrics i left.meta;
    }

-- A turn of the loop: the context is done, or the ticker or maintWake fires.
pub data Wake : Type 0 where
  ctx_done : Wake
  woken : Bool → Turn → Wake

unfoldable pub maintenance_loop : Settings → List Wake → Upkeep → Upkeep
maintenance_loop c [] s = s
maintenance_loop c (ctx_done ∷ ws) s = s
maintenance_loop c (woken is_leader i ∷ ws) s =
    maintenance_loop c ws (if is_leader then run_partition_maintenance c i s else s)

-- The first wake-up is the leader's: its run does not look at the role.
unfoldable pub partition_maintenance : Settings → Option Turn → List Wake → Upkeep → Upkeep
partition_maintenance c none ws s = s
partition_maintenance c (some i) ws s = maintenance_loop c ws (run_partition_maintenance c i s)
