-- ===== src/Setup/Create.antt =====
-- runCreate and createPartitionRange of cmd/pglg-setup/main.go.
use jack_courier_driver_pglg.Prelude.{
  ℕ, ◌+◌, ◌-◌, ◌*◌, List, [], ◌∷◌, Bool, not, ◌&&◌, ◌||◌, Option, Bytes, codes, ltb, ◌==◌,
  if◌then◌else◌,
}
use jack_courier_driver_pglg.Row.{Time}
use jack_courier_driver_pglg.Partition.{Partition, partition_of, truncate_time, windows_from}
use jack_courier_driver_pglg.Partition.Calendar.{minute}
use jack_courier_driver_pglg.Setup.Failures.{
  Failure, Attempt, done, failed, not_executed, start_not_before_end, no_initial_partition,
  no_initial_row, no_partition,
}
use jack_courier_driver_pglg.Setup.Text.{contains_text, replace}
use jack_courier_driver_pglg.Setup.Privileges.{Answers, check_privileges}
use jack_courier_driver_pglg.Setup.Files.{Entry, SqlFile, read_sql_files}

abbrev pub hour : ℕ
hour = 60 * minute

-- The statements of the command: the text of a file, and those that the code makes, in a schema.
pub data SetupStatement : Type 0 where
  sql_file : Bytes → Bytes → SetupStatement
  create_table insert_meta : Bytes → Partition → SetupStatement
  drop_slot drop_publication drop_table : Bytes → SetupStatement

-- The statements that were applied, in front of those of the rest.
unfoldable pub after :
    SetupStatement
    → Attempt (Unit {0}) × List SetupStatement
    → Attempt (Unit {0}) × List SetupStatement
after s (r, done_so_far) = (r, s ∷ done_so_far)

-- conn.Exec, with the error that the code makes of a failure
unfoldable pub exec :
    (SetupStatement → Bool)
    → SetupStatement
    → Failure
    → Attempt (Unit {0}) × List SetupStatement
    → Attempt (Unit {0}) × List SetupStatement
exec exec_ok s e rest = if exec_ok s then after s rest else (failed e, [])

-- The files that are left out.
unfoldable pub is_skipped : Bool → Bool → Bytes → Bool
is_skipped skip_publication skip_slot name =
    (skip_publication && contains_text (codes "create_publication") name)
    || (skip_slot && contains_text (codes "create_replication_slot") name)

unfoldable pub substitutions : Bytes → Bytes → Bytes → Bytes → List (Bytes × Bytes)
substitutions schema table_prefix publication slot =
    (codes "{schema}", schema)
    ∷ (codes "{prefix}", table_prefix)
    ∷ (codes "{publication_name}", publication)
    ∷ (codes "{slot_name}", slot)
    ∷ []

module _ (exec_ok : SetupStatement → Bool) (schema table_prefix : Bytes) where
  unfoldable pub create_each : List Time → Attempt (Unit {0}) × List SetupStatement
  create_each [] = (done tt, [])
  create_each (t ∷ ts) =
      exec exec_ok (create_table schema (partition_of table_prefix hour t)) (no_partition t)
        (create_each ts)

  unfoldable pub create_partition_range : Time → Time → Attempt (Unit {0}) × List SetupStatement
  unfolding create_each
  create_partition_range start now =
      let from = truncate_time start hour in
      let end = truncate_time (now + 13 * hour) hour in
      if ltb from end
      then create_each (windows_from (end - from) hour from end)
      else (failed start_not_before_end, [])

  unfoldable pub initial_partition : Time → Attempt (Unit {0}) × List SetupStatement
  initial_partition now =
      let p = partition_of table_prefix hour (truncate_time now hour) in
      exec exec_ok (create_table schema p) no_initial_partition
        (exec exec_ok (insert_meta schema p) no_initial_row (done tt, []))

  unfoldable pub partitions : Bool → Time → Time → Attempt (Unit {0}) × List SetupStatement
  unfolding create_partition_range initial_partition
  partitions replica start now =
      if replica
      then if not (start == 0) then create_partition_range start now else (done tt, [])
      else initial_partition now

  unfoldable pub exec_files :
      List (Bytes × Bytes)
      → Bool
      → Bool
      → List SqlFile
      → Attempt (Unit {0}) × List SetupStatement
      → Attempt (Unit {0}) × List SetupStatement
  unfolding is_skipped
  exec_files pairs skip_publication skip_slot [] rest = rest
  exec_files pairs skip_publication skip_slot (f ∷ fs) rest =
      let more = exec_files pairs skip_publication skip_slot fs rest in
      if is_skipped skip_publication skip_slot f.name
      then more
      else exec exec_ok (sql_file f.name (replace pairs 0 f.content)) (not_executed f.name) more

  unfoldable pub create_from :
      Attempt (List SqlFile)
      → Bytes
      → Bytes
      → Bool
      → Bool
      → Time
      → Time
      → Attempt (Unit {0}) × List SetupStatement
  unfolding exec_files partitions substitutions
  create_from (failed e) publication slot skip_publication replica start now = (failed e, [])
  create_from (done files) publication slot skip_publication replica start now =
      exec_files (substitutions schema table_prefix publication slot) (skip_publication || replica)
        replica files (partitions replica start now)

unfoldable pub checked :
    Attempt (Unit {0})
    → Attempt (Unit {0}) × List SetupStatement
    → Attempt (Unit {0}) × List SetupStatement
checked (failed e) rest = (failed e, [])
checked (done u) rest = rest

unfoldable pub run_create :
    Answers
    → Option (List Entry)
    → (SetupStatement → Bool)
    → Time
    → Bytes
    → Bytes
    → Bytes
    → Bytes
    → Bool
    → Bool
    → Time
    → Attempt (Unit {0}) × List SetupStatement
run_create answers entries exec_ok now schema table_prefix publication slot skip_publication replica
      start =
    checked (check_privileges answers (skip_publication || replica) replica) (
      create_from exec_ok schema table_prefix (read_sql_files entries) publication slot
        skip_publication replica start now)
