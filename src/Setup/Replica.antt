-- ===== src/Setup/Replica.antt =====
-- The statements that runCreate applies on a replica.
use jack_courier_driver_pglg.Prelude.{
  ◌+◌, ◌*◌, List, [], ◌∷◌, Bool, true, false, ◌||◌, Option, Bytes, codes, ◌≡◌, inl, inr, arith,
  if◌then◌else◌, Bool-cases, All, ◌==◌, not, ltb,
}
use jack_courier_driver_pglg.Row.{Time}
use jack_courier_driver_pglg.Partition.{truncate_time}
use jack_courier_driver_pglg.Setup.Failures.{Failure, Attempt, done, failed}
use jack_courier_driver_pglg.Setup.Text.{contains_text}
use jack_courier_driver_pglg.Setup.Privileges.{Answers, check_privileges}
use jack_courier_driver_pglg.Setup.Files.{Entry, SqlFile, read_sql_files}
use jack_courier_driver_pglg.Setup.Create.{
  hour, SetupStatement, sql_file, create_table, after, exec, create_each, create_partition_range,
  partitions, is_skipped, substitutions, exec_files, create_from, checked, run_create,
}
use jack_courier_driver_pglg.Setup.Applied.{range}

-- Every statement that a run applies has the property.
pub exec-All :
    (P : SetupStatement → Type 0) (exec_ok : SetupStatement → Bool) (s : SetupStatement)
    (e : Failure) (rest : Attempt (Unit {0}) × List SetupStatement)
    → P s
    → All P rest.1
    → All P (exec exec_ok s e rest).1
unfolding exec after
exec-All P exec_ok s e rest p k = elim (Bool-cases (exec_ok s)) [
  | inl runs ↦ rw runs (p, k)
  | inr fails ↦ rw fails tt
]

-- What a set-up of a replica may apply: a file that makes neither a publication nor a slot, or the
-- table of a partition.
abbrev pub IsReplicaStatement : SetupStatement → Type 0
IsReplicaStatement (sql_file name text) =
    (contains_text (codes "create_publication") name ≡ false)
    × (contains_text (codes "create_replication_slot") name ≡ false)
IsReplicaStatement (create_table schema p) = Unit
IsReplicaStatement s = ⊥

module _ (exec_ok : SetupStatement → Bool) (schema table_prefix : Bytes) where
  create_each-All :
      (ts : List Time) → All IsReplicaStatement (create_each exec_ok schema table_prefix ts).1
  unfolding create_each
  create_each-All [] = tt
  create_each-All (t ∷ ts) = exec-All IsReplicaStatement exec_ok _ _ _ tt (create_each-All ts)

  replica_partitions-All :
      (start now : Time)
      → All IsReplicaStatement (partitions exec_ok schema table_prefix true start now).1
  unfolding partitions create_partition_range
  replica_partitions-All start now =
      go (not (start == 0)) (ltb (truncate_time start hour) (truncate_time (now + 13 * hour) hour))
        _ (create_each-All (range start now))
    where
      go :
          (set ahead : Bool) (r : Attempt (Unit {0}) × List SetupStatement)
          → All IsReplicaStatement r.1
          → All IsReplicaStatement
              (if set
                then if ahead then r else (failed Failure.start_not_before_end, [])
                else (done tt, [])).1
      go true true r k = k
      go true false r k = tt
      go false ahead r k = tt

  exec_files-All :
      (pairs : List (Bytes × Bytes)) (fs : List SqlFile)
      (rest : Attempt (Unit {0}) × List SetupStatement)
      → All IsReplicaStatement rest.1
      → All IsReplicaStatement (exec_files exec_ok schema table_prefix pairs true true fs rest).1
  unfolding exec_files
  exec_files-All pairs [] rest k = k
  exec_files-All pairs (f ∷ fs) rest k = elim (Bool-cases (is_skipped true true f.name)) [
    | inl skipped ↦ rw skipped (exec_files-All pairs fs rest k)
    | inr kept ↦ rw kept (
        exec-All IsReplicaStatement exec_ok _ _ _ (unfold is_skipped in ground (arith, kept))
          (exec_files-All pairs fs rest k))
  ]

-- A set-up of a replica applies, whatever fails, only files that make neither a publication nor a
-- replication slot and the tables of partitions: no row of the partition_meta table.
pub run_create_replica :
    (answers : Answers) (entries : Option (List Entry)) (exec_ok : SetupStatement → Bool)
    (now : Time) (schema table_prefix publication slot : Bytes) (skip_publication : Bool)
    (start : Time)
    → All IsReplicaStatement
        (run_create answers entries exec_ok now schema table_prefix publication slot
          skip_publication true start).1
unfolding run_create checked
run_create_replica answers entries exec_ok now schema table_prefix publication slot skip_publication
      start =
    go (check_privileges answers (skip_publication || true) true) (read_sql_files entries)
  where
    go :
        (c : Attempt (Unit {0})) (files : Attempt (List SqlFile))
        → All IsReplicaStatement
            (checked c (
              create_from exec_ok schema table_prefix files publication slot skip_publication true
                start now)).1
    go (failed e) files = tt
    go (done u) (failed e) = unfold create_from in tt
    go (done u) (done fs) =
        unfold create_from partitions in
        let both : (skip_publication || true) ≡ true = ground arith in
        rw both (
          exec_files-All exec_ok schema table_prefix
            (substitutions schema table_prefix publication slot) fs
            (partitions exec_ok schema table_prefix true start now)
            (replica_partitions-All exec_ok schema table_prefix start now))
