-- ===== src/Examples/Setup.antt =====
-- The theorems on pglg-setup, at the set-up of a replica.
use mathlib.Core.List.{Memᴰ}
use jack_courier_driver_pglg.Prelude.{
  ◌-◌, ◌≡◌, refl, List, [], ◌∷◌, true, false, some, codes, All, text_eq,
}
use jack_courier_driver_pglg.Row.{Time}
use jack_courier_driver_pglg.Partition.{windows_from}
use jack_courier_driver_pglg.Partition.Replica.{text_leb}
use jack_courier_driver_pglg.Setup.{
  Args, Outside, argument_failure, parsed_start, partitions_start, dispatch, connected, after_tests,
  main,
}
use jack_courier_driver_pglg.Setup.Failures.{done}
use jack_courier_driver_pglg.Setup.Text.{
  has_prefix, contains_text, has_suffix, lookup, replace_at, replace,
}
use jack_courier_driver_pglg.Setup.Privileges.{Answers, check, and_then, verdict, check_privileges}
use jack_courier_driver_pglg.Setup.Files.{
  Entry, is_sql, add_file, read_files, insert_file, sort_files, sorted, read_sql_files,
}
use jack_courier_driver_pglg.Setup.Create.{
  sql_file, hour, after, exec, create_each, create_partition_range, partitions, is_skipped,
  substitutions, exec_files, create_from, checked, run_create,
}
use jack_courier_driver_pglg.Setup.Applied.{Created, run_create_done}
use jack_courier_driver_pglg.Setup.Replica.{IsReplicaStatement, run_create_replica}
use jack_courier_driver_pglg.Setup.Arguments.{Accepted, main_applied}
use jack_courier_driver_pglg.Examples.Upkeep.{morning}

-- A user without the privileges that a replica does not need.
abbrev pub reader : Answers
reader = record {
  user_ok = true;
  has_replication = some false;
  has_schema_create = some true;
  has_database_create = some false;
}

abbrev pub entries : List Entry
entries =
    record { name = codes "02_create_publication.sql"; is_dir = false; content = some (codes "P") }
    ∷ record {
      name = codes "01_tables.sql";
      is_dir = false;
      content = some (codes "{prefix}_jobs");
    }
    ∷ record { name = codes "README"; is_dir = false; content = some [] }
    ∷ []

abbrev outside : Outside
outside = record {
  connects = true;
  answers = reader;
  entries = some entries;
  exec_ok = λ s. true;
  now = morning;
}

abbrev partitions_from : Time
partitions_from = morning - hour

run_create_succeeds :
    (run_create reader
      (some entries)
      (λ s. true)
      morning
      (codes "s")
      (codes "p")
      []
      []
      false
      true
      partitions_from).0
    ≡ done tt
unfolding run_create checked check_privileges check and_then verdict create_from exec_files exec
    after is_skipped contains_text has_prefix partitions create_partition_range create_each
    windows_from read_sql_files read_files add_file is_sql has_suffix text_eq sorted sort_files
    insert_file text_leb substitutions replace replace_at lookup
run_create_succeeds = refl

run_create_done_example :
    Created reader
      (some entries)
      morning
      (codes "s")
      (codes "p")
      []
      []
      false
      true
      partitions_from
      (run_create reader
        (some entries)
        (λ s. true)
        morning
        (codes "s")
        (codes "p")
        []
        []
        false
        true
        partitions_from).1
run_create_done_example =
    run_create_done reader (some entries) (λ s. true) morning (codes "s") (codes "p") [] [] false
      true partitions_from run_create_succeeds

run_create_replica_example :
    All IsReplicaStatement
      (run_create reader
        (some entries)
        (λ s. true)
        morning
        (codes "s")
        (codes "p")
        []
        []
        false
        true
        partitions_from).1
run_create_replica_example =
    run_create_replica reader (some entries) (λ s. true) morning (codes "s") (codes "p") [] [] false
      partitions_from

abbrev arguments : Args
arguments = record {
  conn_string = codes "c";
  schema = codes "s";
  table_prefix = codes "p";
  publication = [];
  slot = [];
  skip_publication = false;
  replica = true;
  create_partitions_from = codes "t";
}

tables_created :
    Memᴰ
      (sql_file (codes "01_tables.sql") (codes "p_jobs"))
      (main (λ s. some partitions_from) outside (some (codes "create", arguments))).1
unfolding main after_tests connected partitions_start parsed_start dispatch argument_failure
    run_create checked check_privileges check and_then verdict create_from exec_files exec after
    is_skipped contains_text has_prefix partitions create_partition_range create_each windows_from
    read_sql_files read_files add_file is_sql has_suffix text_eq sorted sort_files insert_file
    text_leb substitutions replace replace_at lookup
tables_created = Memᴰ.head refl

main_applied_example : Accepted (codes "create") arguments
main_applied_example =
    main_applied (λ s. some partitions_from) outside (codes "create") arguments
      (sql_file (codes "01_tables.sql") (codes "p_jobs")) tables_created
