-- ===== src/Examples/Maintenance.antt =====
-- The theorems on the maintenance of the partitions, at the sample.
use mathlib.Core.List.{Memᴰ}
use jack_courier_driver_pglg.Prelude.{
  ◌+◌, ◌-◌, ◌*◌, ◌≤◌, ◌<◌, ◌≡◌, refl, List, [], ◌∷◌, true, some, Bytes, codes, text_eq, contains,
  arith,
}
use jack_courier_driver_pglg.Errors.{ok}
use jack_courier_driver_pglg.Row.{Time}
use jack_courier_driver_pglg.Strconv.{format_uint}
use jack_courier_driver_pglg.Partition.{
  Partition, partition_name, partition_of, windows, windows_from, has_name, add_partition,
  registered, register, ensure, then_create, create_all, create_partitions,
}
use jack_courier_driver_pglg.Partition.Calendar.{format_minute, date_of, year_day, month_day, pad}
use jack_courier_driver_pglg.Partition.Parse.{zero_time, parse_partition_lower}
use jack_courier_driver_pglg.Partition.Parse.RoundTrip.{parse_partition_lower-partition_name}
use jack_courier_driver_pglg.Partition.Replica.{
  ReplicaFaults, set_name, scan_names, list_replica_partitions, create_replica_all,
  create_replica_partitions, drop_expired_replica_partitions,
}
use jack_courier_driver_pglg.Partition.Replica.Retention.{drop_expired_replica_keeps}
use jack_courier_driver_pglg.Partition.Maintenance.{
  Settings, Turn, Upkeep, ReplicaTurn, Replica, maintain_replica, run_partition_maintenance,
}
use jack_courier_driver_pglg.Partition.Maintenance.Replicas.{maintain_replica_cover}
use jack_courier_driver_pglg.Partition.Maintenance.Rows.{IsWindow, AllWindows}
use jack_courier_driver_pglg.Partition.Maintenance.Primary.{maintenance_cover}
use jack_courier_driver_pglg.Examples.Upkeep.{morning, hour, no_error, no_drop_error}

abbrev pub prefix : Bytes
prefix = codes "p"

parse_partition_lower-partition_name_example :
    parse_partition_lower prefix (partition_name prefix morning) ≡ some (morning + zero_time)
parse_partition_lower-partition_name_example =
    parse_partition_lower-partition_name prefix morning (omega arith) (omega arith)

abbrev last_hour : Partition
last_hour = partition_of prefix hour (morning - hour)

abbrev old_hour : Partition
old_hour = partition_of prefix hour (morning - 5 * hour)

abbrev attached : List Partition
attached = old_hour ∷ last_hour ∷ []

abbrev existing : List Bytes
existing = last_hour.name ∷ old_hour.name ∷ []

abbrev applied : ReplicaFaults
applied = record {
  query_ok = true;
  scan_ok = λ name. true;
  rows_ok = true;
  create_ok = λ t. true;
  last_msg_send_time = some (some morning);
  begin_ok = true;
  detach_ok = λ name. true;
  drop_ok = λ name. true;
  commit_ok = true;
  commit_applied = true;
}

drop_expired_replica_keeps_example :
    Memᴰ last_hour
      (drop_expired_replica_partitions applied prefix hour hour morning existing attached).1
unfolding partition_of
drop_expired_replica_keeps_example =
    drop_expired_replica_keeps applied prefix hour hour morning existing attached last_hour
      (morning - hour) refl (omega arith) (omega arith) (λ sent e. ground (arith, e))
      (Memᴰ.tail (Memᴰ.head refl))

abbrev pub settings : Settings
settings = record { table_prefix = prefix; interval = hour; look_ahead = hour; retention = hour }

abbrev replica_turn : ReplicaTurn
replica_turn = record { faults = applied; create_now = morning; drop_now = morning }

abbrev pub replica : Replica
replica = record { name = codes "r"; attached = attached }

listed : list_replica_partitions applied attached ≡ ok existing
unfolding list_replica_partitions scan_names set_name contains text_eq partition_of partition_name
    format_minute pad format_uint date_of year_day month_day
listed = refl

replica_created :
    (create_replica_partitions applied prefix hour hour morning existing attached).0 ≡ ok tt
unfolding create_replica_partitions create_replica_all windows windows_from contains add_partition
    has_name text_eq partition_of partition_name format_minute pad format_uint date_of year_day
    month_day
replica_created = refl

maintain_replica_cover_example :
    (l : Time) × (l ≤ morning)
    × (morning < l + hour)
    × (has_name
          (partition_name prefix l)
          (maintain_replica settings replica_turn replica).1.attached
        ≡ true)
maintain_replica_cover_example =
    maintain_replica_cover settings replica_turn replica existing morning (omega arith)
      (omega arith) (omega arith) (omega arith) (omega arith) (omega arith) listed replica_created

abbrev pub turn : Turn
turn = record {
  create_faults = no_error;
  create_now = morning;
  drop_faults = no_drop_error;
  drop_now = morning;
  replica_turns = replica_turn ∷ [];
  count_ok = true;
  max_ok = true;
  min_ok = true;
  metrics_now = morning;
}

abbrev upkeep : Upkeep
upkeep = record {
  catalog = record { meta = attached; attached = attached };
  replicas = replica ∷ [];
  metrics = [];
}

hours-IsWindow : AllWindows prefix hour upkeep.catalog
unfolding IsWindow partition_of
hours-IsWindow p (Memᴰ.head e) = rw e (refl, omega arith, omega arith)
hours-IsWindow p (Memᴰ.tail (Memᴰ.head e)) = rw e (refl, omega arith, omega arith)
hours-IsWindow p (Memᴰ.tail (Memᴰ.tail m)) = elim m [ ]

creation_succeeds : (create_partitions no_error prefix hour hour morning upkeep.catalog).0 ≡ ok tt
unfolding create_partitions create_all then_create ensure register windows windows_from has_name
    text_eq registered add_partition partition_of partition_name format_minute pad format_uint
    date_of year_day month_day
creation_succeeds = refl

maintenance_cover_example :
    (p : Partition) × Memᴰ p (run_partition_maintenance settings turn upkeep).catalog.meta
    × (p.lower ≤ morning)
    × (morning < p.upper)
maintenance_cover_example =
    maintenance_cover settings turn upkeep morning (omega arith) (omega arith) (omega arith)
      (omega arith) (omega arith) (omega arith) hours-IsWindow creation_succeeds
