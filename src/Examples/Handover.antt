-- ===== src/Examples/Handover.antt =====
-- A driver on a database that pglg-setup has set up, at the sample.
use mathlib.Core.List.{Memᴰ}
use jack_courier_driver_pglg.Prelude.{
  ◌-◌, ◌≤◌, ◌<◌, ◌≡◌, refl, [], ◌∷◌, true, false, some, codes, text_eq, arith,
}
use jack_courier_driver_pglg.Errors.{ok}
use jack_courier_driver_pglg.Strconv.{format_uint}
use jack_courier_driver_pglg.Partition.{
  Partition, partition_name, partition_of, windows, windows_from, has_name, add_partition,
  registered, register, ensure, then_create, create_all, create_partitions,
}
use jack_courier_driver_pglg.Partition.Calendar.{format_minute, date_of, year_day, month_day, pad}
use jack_courier_driver_pglg.Partition.Maintenance.{
  Upkeep, woken, run_partition_maintenance, partition_maintenance, maintenance_loop,
}
use jack_courier_driver_pglg.Partition.Expiry.{
  drop_expired_partitions, commit_all, drop_all, expired_names, drop_one, remove_name,
}
use jack_courier_driver_pglg.Partition.Replica.{text_leb}
use jack_courier_driver_pglg.Setup.Text.{
  has_prefix, contains_text, has_suffix, lookup, replace_at, replace,
}
use jack_courier_driver_pglg.Setup.Privileges.{Answers, check, and_then, verdict, check_privileges}
use jack_courier_driver_pglg.Setup.Files.{
  is_sql, add_file, read_files, insert_file, sort_files, sorted, read_sql_files,
}
use jack_courier_driver_pglg.Setup.Create.{
  after, exec, initial_partition, partitions, is_skipped, substitutions, exec_files, create_from,
  checked, run_create,
}
use jack_courier_driver_pglg.Setup.Handover.{set_up, set_up_cover}
use jack_courier_driver_pglg.Examples.Upkeep.{morning, hour}
use jack_courier_driver_pglg.Examples.Setup.{entries}
use jack_courier_driver_pglg.Examples.Maintenance.{settings, turn, replica}

abbrev owner : Answers
owner = record {
  user_ok = true;
  has_replication = some true;
  has_schema_create = some true;
  has_database_create = some true;
}

-- the set-up an hour before, with the settings of the sample, and two turns
abbrev maintained : Upkeep
maintained =
    partition_maintenance settings (some turn) (woken true turn ∷ woken false turn ∷ []) (record {
      catalog =
          set_up owner (some entries) (λ s. true) (morning - hour) (codes "s") settings.table_prefix
            (codes "pub") (codes "slot") false 0;
      replicas = replica ∷ [];
      metrics = [];
    })

creation_goes_on :
    (create_partitions turn.create_faults settings.table_prefix hour hour morning
      maintained.catalog).0
    ≡ ok tt
unfolding create_partitions create_all then_create ensure register windows windows_from has_name
    text_eq registered add_partition partition_of partition_name format_minute pad format_uint
    date_of year_day month_day partition_maintenance maintenance_loop run_partition_maintenance
    drop_expired_partitions commit_all drop_all expired_names drop_one remove_name run_create
    checked check_privileges check and_then verdict create_from read_sql_files sorted read_files
    is_sql add_file has_suffix sort_files insert_file text_leb is_skipped contains_text has_prefix
    exec_files exec after substitutions replace replace_at lookup partitions initial_partition
creation_goes_on = refl

set_up_cover_example :
    (p : Partition) × Memᴰ p (run_partition_maintenance settings turn maintained).catalog.meta
    × (p.lower ≤ morning)
    × (morning < p.upper)
set_up_cover_example =
    set_up_cover owner (some entries) (λ s. true) (morning - hour) (codes "s") (codes "pub")
      (codes "slot") false 0 settings (replica ∷ []) [] turn
      (woken true turn ∷ woken false turn ∷ []) turn maintained morning (omega arith) refl
      (omega arith) (omega arith, (omega arith, tt)) (omega arith) refl (omega arith) (omega arith)
      (omega arith) creation_goes_on
