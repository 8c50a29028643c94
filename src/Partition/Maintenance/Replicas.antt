-- ===== src/Partition/Maintenance/Replicas.antt =====
-- What a run of the maintenance leaves on a replica.
use jack_courier_driver_pglg.Prelude.{◌+◌, ◌-◌, ◌%◌, ◌≤◌, ◌<◌, ◌≡◌, List, true, Bytes, arith}
use jack_courier_driver_pglg.Errors.{ok}
use jack_courier_driver_pglg.Row.{Time}
use jack_courier_driver_pglg.Partition.{partition_name, windows, has_name}
use jack_courier_driver_pglg.Partition.Calendar.{minute}
use jack_courier_driver_pglg.Partition.Create.{has_name_row, row_has_name}
use jack_courier_driver_pglg.Partition.Windows.{windows_cover, windows_full}
use jack_courier_driver_pglg.Partition.Parse.Days.{year_10000}
use jack_courier_driver_pglg.Partition.Replica.{list_replica_partitions, create_replica_partitions}
use jack_courier_driver_pglg.Partition.Replica.Create.{
  list_replica_partitions_of, create_replica_all_ok,
}
use jack_courier_driver_pglg.Partition.Replica.Retention.{drop_expired_replica_keeps}
use jack_courier_driver_pglg.Partition.Maintenance.{
  Settings, ReplicaTurn, Replica, maintain_replica, create_then_drop,
}

-- A run whose list and create on a replica return no error leaves there, whatever its drop does, the
-- partition of every instant from one interval ago and from the retention before the drop, up to the
-- end of the look-ahead, for a positive interval of full minutes and an end before the year 10000.
pub maintain_replica_cover :
    (c : Settings) (i : ReplicaTurn) (r : Replica) (existing : List Bytes) (x : Time)
    → 0 < c.interval
    → c.interval % minute ≡ 0
    → i.create_now + c.look_ahead ≤ year_10000
    → i.create_now ≤ x + c.interval
    → x < i.create_now + c.look_ahead
    → i.drop_now - c.retention ≤ x
    → list_replica_partitions i.faults r.attached ≡ ok existing
    → (create_replica_partitions i.faults c.table_prefix c.interval c.look_ahead i.create_now
        existing r.attached).0
      ≡ ok tt
    → (l : Time) × (l ≤ x)
      × (x < l + c.interval)
      × (has_name (partition_name c.table_prefix l) (maintain_replica c i r).1.attached ≡ true)
unfolding maintain_replica create_then_drop create_replica_partitions
maintain_replica_cover c i r existing x size full era from to kept listed created =
    let (l, m, lo, hi) = windows_cover c.interval c.look_ahead i.create_now x size from to in
    let (minutes, before) = windows_full c.interval c.look_ahead i.create_now l full m in
    let name = partition_name c.table_prefix l in
    let there =
      create_replica_all_ok i.faults c.table_prefix c.interval existing
        (windows c.interval c.look_ahead i.create_now) r.attached
        (λ n. list_replica_partitions_of i.faults r.attached existing n listed) created l m in
    let (p, q, e) = has_name_row name _ there in
    (
      l,
      lo,
      hi,
      simp listed (
          row_has_name name p _ e (
            drop_expired_replica_keeps i.faults c.table_prefix c.interval c.retention i.drop_now
              existing _ p l e (omega (arith, before, era)) minutes
              (λ sent known. omega (arith, kept, hi)) q)),
    )
