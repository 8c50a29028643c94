-- ===== src/Setup/Handover.antt =====
-- From the set-up of cmd/pglg-setup/main.go to the maintenance of partition.go: the driver starts from
-- the partition that the set-up has made.
use mathlib.Core.List.{Memᴰ}
use mathlib.Core.Path.{subst}
use jack_courier_driver_pglg.Prelude.{
  ◌+◌, ◌-◌, ◌%◌, ◌≤◌, ◌<◌, ◌≡◌, refl, sym, List, [], ◌∷◌, Bool, false, ◌||◌, some, Option, Bytes,
  All, arith, Bool-cases, inl, inr,
}
use jack_courier_driver_pglg.Errors.{ok}
use jack_courier_driver_pglg.Row.{Time}
use jack_courier_driver_pglg.Partition.{Partition, Catalog, partition_of, create_partitions}
use jack_courier_driver_pglg.Partition.Calendar.{minute}
use jack_courier_driver_pglg.Partition.Parse.Days.{year_10000}
use jack_courier_driver_pglg.Partition.Maintenance.{
  Settings, Turn, Wake, Replica, Metric, Upkeep, run_partition_maintenance, partition_maintenance,
}
use jack_courier_driver_pglg.Partition.Maintenance.Rows.{IsWindow, AllWindows}
use jack_courier_driver_pglg.Partition.Maintenance.Primary.{
  InEra, AllInEra, maintenance_cover, partition_maintenance-AllWindows,
}
use jack_courier_driver_pglg.Setup.Failures.{Attempt, done, failed}
use jack_courier_driver_pglg.Setup.Privileges.{Answers, check_privileges}
use jack_courier_driver_pglg.Setup.Files.{Entry, SqlFile, read_sql_files}
use jack_courier_driver_pglg.Setup.Create.{
  hour, SetupStatement, sql_file, create_table, insert_meta, drop_slot, drop_publication,
  drop_table, initial_partition, partitions, is_skipped, substitutions, exec_files, create_from,
  checked, run_create,
}
use jack_courier_driver_pglg.Setup.Replica.{exec-All}

-- The partitions that statements have made and registered in empty tables.
abbrev pub catalog_of : List SetupStatement → Catalog
catalog_of [] = record { meta = []; attached = [] }
catalog_of (create_table schema p ∷ ss) = record (catalog_of ss) {
  attached = p ∷ (catalog_of ss).attached;
}
catalog_of (insert_meta schema p ∷ ss) = record (catalog_of ss) { meta = p ∷ (catalog_of ss).meta }
catalog_of (_ ∷ ss) = catalog_of ss

-- A row that is registered is a window of one hour.
abbrev RegistersWindow : Bytes → SetupStatement → Type 0
RegistersWindow table_prefix (insert_meta schema p) = IsWindow table_prefix hour p
RegistersWindow table_prefix s = Unit

catalog_of-AllWindows :
    (table_prefix : Bytes) (ss : List SetupStatement)
    → All (RegistersWindow table_prefix) ss
    → AllWindows table_prefix hour (catalog_of ss)
catalog_of-AllWindows table_prefix [] h p m = elim m [ ]
catalog_of-AllWindows table_prefix (create_table schema q ∷ ss) h p m =
    catalog_of-AllWindows table_prefix ss h.1 p m
catalog_of-AllWindows table_prefix (insert_meta schema q ∷ ss) h p (Memᴰ.head e) =
    subst (IsWindow table_prefix hour) (sym e) h.0
catalog_of-AllWindows table_prefix (insert_meta schema q ∷ ss) h p (Memᴰ.tail m) =
    catalog_of-AllWindows table_prefix ss h.1 p m
catalog_of-AllWindows table_prefix (sql_file name text ∷ ss) h p m =
    catalog_of-AllWindows table_prefix ss h.1 p m
catalog_of-AllWindows table_prefix (drop_slot s ∷ ss) h p m =
    catalog_of-AllWindows table_prefix ss h.1 p m
catalog_of-AllWindows table_prefix (drop_publication s ∷ ss) h p m =
    catalog_of-AllWindows table_prefix ss h.1 p m
catalog_of-AllWindows table_prefix (drop_table s ∷ ss) h p m =
    catalog_of-AllWindows table_prefix ss h.1 p m

module _ (exec_ok : SetupStatement → Bool) (schema table_prefix : Bytes) where
  initial_partition-RegistersWindow :
      (now : Time)
      → now < year_10000
      → All (RegistersWindow table_prefix) (initial_partition exec_ok schema table_prefix now).1
  unfolding initial_partition partition_of IsWindow
  initial_partition-RegistersWindow now era =
      exec-All (RegistersWindow table_prefix) exec_ok _ _ _ tt
        (exec-All (RegistersWindow table_prefix) exec_ok _ _ _ (refl, omega arith, omega arith) tt)

  exec_files-RegistersWindow :
      (pairs : List (Bytes × Bytes)) (skip_publication skip_slot : Bool) (fs : List SqlFile)
      (rest : Attempt (Unit {0}) × List SetupStatement)
      → All (RegistersWindow table_prefix) rest.1
      → All
          (RegistersWindow table_prefix)
          (exec_files exec_ok schema table_prefix pairs skip_publication skip_slot fs rest).1
  unfolding exec_files
  exec_files-RegistersWindow pairs skip_publication skip_slot [] rest k = k
  exec_files-RegistersWindow pairs skip_publication skip_slot (f ∷ fs) rest k =
      let more = exec_files-RegistersWindow pairs skip_publication skip_slot fs rest k in
      elim (Bool-cases (is_skipped skip_publication skip_slot f.name)) [
        | inl skipped ↦ rw skipped more
        | inr kept ↦ rw kept (exec-All (RegistersWindow table_prefix) exec_ok _ _ _ tt more)
      ]

module _ (answers : Answers) (entries : Option (List Entry)) (exec_ok : SetupStatement → Bool)
    (now : Time) (schema table_prefix publication slot : Bytes) (skip_publication : Bool)
    (start : Time) where
  -- The partitions after a set-up of the primary, whatever failed in it.
  abbrev pub set_up : Catalog
  set_up =
      catalog_of
        (run_create answers entries exec_ok now schema table_prefix publication slot
          skip_publication false start).1

  set_up-AllWindows : now < year_10000 → AllWindows table_prefix hour set_up
  unfolding run_create checked
  set_up-AllWindows era =
      go (check_privileges answers (skip_publication || false) false) (read_sql_files entries)
    where
      go :
          (c : Attempt (Unit {0})) (files : Attempt (List SqlFile))
          → AllWindows table_prefix hour (
              catalog_of
                (checked c (
                  create_from exec_ok schema table_prefix files publication slot skip_publication
                    false start now)).1)
      go (failed e) files p m = elim m [ ]
      go (done u) (failed e) p m = unfold create_from in elim m [ ]
      go (done u) (done fs) p m =
          unfold create_from in
          catalog_of-AllWindows table_prefix _
            (exec_files-RegistersWindow exec_ok schema table_prefix
              (substitutions schema table_prefix publication slot) (skip_publication || false) false
              fs _
              (unfold partitions in
                initial_partition-RegistersWindow exec_ok schema table_prefix now era))
            p m

-- From a set-up of the primary, whatever failed in it, and through any turns of the maintenance with
-- the interval of one hour, whatever fails in them: a later run without an error in its creation
-- leaves registered a row that holds each instant from one hour ago and from the retention before
-- the drop, up to the end of the look-ahead; everything before the year 10000.
pub set_up_cover :
    (answers : Answers) (entries : Option (List Entry)) (exec_ok : SetupStatement → Bool)
    (now : Time) (schema publication slot : Bytes) (skip_publication : Bool) (start : Time)
    (c : Settings) (replicas : List Replica) (metrics : List Metric) (first : Turn) (ws : List Wake)
    (i : Turn) (s : Upkeep) (x : Time)
    → now < year_10000
    → c.interval ≡ hour
    → InEra c first
    → AllInEra c ws
    → InEra c i
    → s
      ≡ partition_maintenance c (some first) ws (record {
        catalog =
            set_up answers entries exec_ok now schema c.table_prefix publication slot
              skip_publication start;
        replicas = replicas;
        metrics = metrics;
      })
    → i.create_now ≤ x + hour
    → x < i.create_now + c.look_ahead
    → i.drop_now - c.retention ≤ x
    → (create_partitions i.create_faults c.table_prefix c.interval c.look_ahead i.create_now
        s.catalog).0
      ≡ ok tt
    → (p : Partition) × Memᴰ p (run_partition_maintenance c i s).catalog.meta
      × (p.lower ≤ x)
      × (x < p.upper)
set_up_cover answers entries exec_ok now schema publication slot skip_publication start c replicas
      metrics first ws i s x era hourly now_era later_era run_era reached from to kept created =
    let full : c.interval % minute ≡ 0 = omega (arith, hourly) in
    let first_rows : AllWindows c.table_prefix c.interval (
        set_up answers entries exec_ok now schema c.table_prefix publication slot skip_publication
          start) =
      subst
        (λ h. AllWindows c.table_prefix h (
          set_up answers entries exec_ok now schema c.table_prefix publication slot skip_publication
            start))
        (sym hourly)
        (set_up-AllWindows answers entries exec_ok now schema c.table_prefix publication slot
          skip_publication start era) in
    maintenance_cover c i s x (omega (arith, hourly)) full run_era (omega (arith, hourly, from)) to
      kept
      (subst (λ (u : Upkeep). AllWindows c.table_prefix c.interval u.catalog) (sym reached)
        (partition_maintenance-AllWindows c first ws _ full now_era later_era first_rows))
      created
