-- ===== src/Partition/Maintenance/Primary.antt =====
-- What a run of the maintenance leaves registered.
use mathlib.Core.List.{Memᴰ}
use jack_courier_driver_pglg.Prelude.{
  ◌+◌, ◌-◌, ◌%◌, ◌≤◌, ◌<◌, ◌≡◌, List, [], ◌∷◌, true, false, some, arith,
}
use jack_courier_driver_pglg.Errors.{ok}
use jack_courier_driver_pglg.Row.{Time}
use jack_courier_driver_pglg.Partition.{Partition, partition_name, create_partitions}
use jack_courier_driver_pglg.Partition.Calendar.{minute}
use jack_courier_driver_pglg.Partition.Windows.{windows_full}
use jack_courier_driver_pglg.Partition.Create.{create_partitions_cover, has_name_row}
use jack_courier_driver_pglg.Partition.Retention.{drop_expired_keeps, drop_expired_old}
use jack_courier_driver_pglg.Partition.Parse.Days.{year_10000}
use jack_courier_driver_pglg.Partition.Maintenance.Rows.{
  AllWindows, window_bounds, window_key, create_partitions-AllWindows,
}
use jack_courier_driver_pglg.Partition.Maintenance.{
  Settings, Turn, Upkeep, Wake, ctx_done, woken, run_partition_maintenance, maintenance_loop,
  partition_maintenance,
}

-- A run without an error in its creation leaves registered, whatever its drop does, a row that holds
-- each instant from one interval ago and from the retention before the drop, up to the end of the
-- look-ahead, where the rows are windows of the interval, that is positive and of full minutes, and
-- the look-ahead ends before the year 10000.
pub maintenance_cover :
    (c : Settings) (i : Turn) (s : Upkeep) (x : Time)
    → 0 < c.interval
    → c.interval % minute ≡ 0
    → i.create_now + c.look_ahead ≤ year_10000
    → i.create_now ≤ x + c.interval
    → x < i.create_now + c.look_ahead
    → i.drop_now - c.retention ≤ x
    → AllWindows c.table_prefix c.interval s.catalog
    → (create_partitions i.create_faults c.table_prefix c.interval c.look_ahead i.create_now
        s.catalog).0
      ≡ ok tt
    → (p : Partition) × Memᴰ p (run_partition_maintenance c i s).catalog.meta
      × (p.lower ≤ x)
      × (x < p.upper)
unfolding run_partition_maintenance
maintenance_cover c i s x size full era from to kept h done =
    let (l, n, lo, hi, named) =
      create_partitions_cover i.create_faults c.table_prefix c.interval c.look_ahead i.create_now x
        s.catalog size from to done in
    let (minutes, before) = windows_full c.interval c.look_ahead i.create_now l full n in
    let made =
      create_partitions i.create_faults c.table_prefix c.interval c.look_ahead i.create_now
        s.catalog in
    let rows =
      create_partitions-AllWindows c.table_prefix c.interval i.create_faults c.look_ahead
        i.create_now s.catalog full era h in
    let (p, m, e) = has_name_row (partition_name c.table_prefix l) made.1.meta named in
    let (lower, upper) =
      window_bounds c.table_prefix c.interval l p minutes (omega (arith, before, era)) (rows p m)
        e in
    (
      p,
      drop_expired_keeps i.drop_faults c.retention i.drop_now made.1 p
          (λ q k. window_key c.table_prefix c.interval p q (rows p m) (rows q k)) m
          (omega (arith, kept, upper, hi)),
      omega (arith, lower, lo),
      omega (arith, upper, hi),
    )

-- Every run leaves the rows windows, whatever fails and whichever replicas there are.
run_partition_maintenance-AllWindows :
    (c : Settings) (i : Turn) (s : Upkeep)
    → c.interval % minute ≡ 0
    → i.create_now + c.look_ahead ≤ year_10000
    → AllWindows c.table_prefix c.interval s.catalog
    → AllWindows c.table_prefix c.interval (run_partition_maintenance c i s).catalog
unfolding run_partition_maintenance
run_partition_maintenance-AllWindows c i s full era h p m =
    create_partitions-AllWindows c.table_prefix c.interval i.create_faults c.look_ahead i.create_now
      s.catalog full era h p (drop_expired_old i.drop_faults c.retention i.drop_now _ p m)

-- The look-ahead of a turn ends before the year 10000.
abbrev pub InEra : Settings → Turn → Type 0
InEra c i = i.create_now + c.look_ahead ≤ year_10000

abbrev pub AllInEra : Settings → List Wake → Type 0
AllInEra c [] = Unit
AllInEra c (ctx_done ∷ ws) = AllInEra c ws
AllInEra c (woken is_leader i ∷ ws) = InEra c i × AllInEra c ws

maintenance_loop-AllWindows :
    (c : Settings) (ws : List Wake) (s : Upkeep)
    → c.interval % minute ≡ 0
    → AllInEra c ws
    → AllWindows c.table_prefix c.interval s.catalog
    → AllWindows c.table_prefix c.interval (maintenance_loop c ws s).catalog
unfolding maintenance_loop
maintenance_loop-AllWindows c [] s full era h = h
maintenance_loop-AllWindows c (ctx_done ∷ ws) s full era h = h
maintenance_loop-AllWindows c (woken true i ∷ ws) s full era h =
    maintenance_loop-AllWindows c ws (run_partition_maintenance c i s) full era.1
      (run_partition_maintenance-AllWindows c i s full era.0 h)
maintenance_loop-AllWindows c (woken false i ∷ ws) s full era h =
    maintenance_loop-AllWindows c ws s full era.1 h

-- The maintenance keeps every registered partition a window, under the name of its lower bound and of
-- the length of the interval, through any number of turns and whatever fails in them, for an interval
-- of full minutes and look-aheads that end before the year 10000.
pub partition_maintenance-AllWindows :
    (c : Settings) (first : Turn) (ws : List Wake) (s : Upkeep)
    → c.interval % minute ≡ 0
    → InEra c first
    → AllInEra c ws
    → AllWindows c.table_prefix c.interval s.catalog
    → AllWindows c.table_prefix c.interval (partition_maintenance c (some first) ws s).catalog
unfolding partition_maintenance
partition_maintenance-AllWindows c first ws s full now later h =
    maintenance_loop-AllWindows c ws (run_partition_maintenance c first s) full later
      (run_partition_maintenance-AllWindows c first s full now h)
