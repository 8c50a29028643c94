-- ===== src/Setup/Applied.antt =====
-- The statements that runCreate applies.
use jack_courier_driver_pglg.Prelude.{
  ◌+◌, ◌*◌, ◌-◌, List, [], ◌∷◌, ◌++◌, map, Bool, true, false, ◌||◌, ◌&&◌, ◌⊎◌, some, codes, Option,
  Bytes, ◌≡◌, refl, ap, sym, ◌∙◌, inl, inr, arith, if◌then◌else◌, Bool-cases, ◌==◌,
}
use jack_courier_driver_pglg.Row.{Time}
use jack_courier_driver_pglg.Partition.{partition_of, truncate_time, windows_from}
use jack_courier_driver_pglg.Setup.Failures.{Failure, Attempt, done, failed}
use jack_courier_driver_pglg.Setup.Text.{contains_text, replace}
use jack_courier_driver_pglg.Setup.Privileges.{Answers, check_privileges, check_privileges_iff}
use jack_courier_driver_pglg.Setup.Files.{Entry, SqlFile, read_sql_files}
use jack_courier_driver_pglg.Setup.Listed.{Listed, read_sql_files-Listed}
use jack_courier_driver_pglg.Setup.Create.{
  hour, SetupStatement, sql_file, create_table, insert_meta, after, exec, create_each,
  create_partition_range, initial_partition, partitions, is_skipped, substitutions, exec_files,
  create_from, checked, run_create,
}

-- A run that has no error has applied `ss`.
Applies : Attempt (Unit {0}) × List SetupStatement → List SetupStatement → Type 0
Applies r ss = r.0 ≡ done tt → r.1 ≡ ss

none-Applies : Applies (done tt, []) []
unfolding Applies
none-Applies h = refl

exec-Applies :
    (exec_ok : SetupStatement → Bool) (s : SetupStatement) (e : Failure)
    (rest : Attempt (Unit {0}) × List SetupStatement) (ss : List SetupStatement)
    → Applies rest ss
    → Applies (exec exec_ok s e rest) (s ∷ ss)
unfolding exec after Applies
exec-Applies exec_ok s e rest ss k = elim (Bool-cases (exec_ok s)) [
  | inl runs ↦ rw runs (λ h. ap (◌∷◌ s) (k h))
  | inr fails ↦ rw fails (λ h. absurd (ground arith))
]

-- The hours from the one of `start` up to the thirteenth from now.
abbrev pub range : Time → Time → List Time
range start now =
    let from = truncate_time start hour in
    let end = truncate_time (now + 13 * hour) hour in windows_from (end - from) hour from end

-- The statements for the partitions.
unfoldable pub partition_statements : Bytes → Bytes → Bool → Time → Time → List SetupStatement
partition_statements schema table_prefix true start now =
    if start == 0
    then []
    else map (λ (t : Time). create_table schema (partition_of table_prefix hour t))
        (range start now)
partition_statements schema table_prefix false start now =
    let p = partition_of table_prefix hour (truncate_time now hour) in
    create_table schema p ∷ insert_meta schema p ∷ []

-- The files that make a publication or a replication slot, by their names.
abbrev makes_publication : Bytes → Bool
makes_publication = contains_text (codes "create_publication")

abbrev makes_slot : Bytes → Bool
makes_slot = contains_text (codes "create_replication_slot")

-- A placeholder for each argument, with what stands for it.
abbrev pub placeholders : Bytes → Bytes → Bytes → Bytes → List (Bytes × Bytes)
placeholders schema table_prefix publication slot =
    (codes "{schema}", schema)
    ∷ (codes "{prefix}", table_prefix)
    ∷ (codes "{publication_name}", publication)
    ∷ (codes "{slot_name}", slot)
    ∷ []

-- The statements of the files in their order, but for those that make a publication where
-- none is wanted and those that make a slot where none is wanted.
unfoldable pub file_statements :
    List (Bytes × Bytes) → Bool → Bool → List SqlFile → List SetupStatement
file_statements pairs skip_publication skip_slot [] = []
file_statements pairs skip_publication skip_slot (f ∷ fs) =
    let rest = file_statements pairs skip_publication skip_slot fs in
    if (makes_publication f.name && skip_publication) || (makes_slot f.name && skip_slot)
    then rest
    else sql_file f.name (replace pairs 0 f.content) ∷ rest

is_skipped_iff :
    (skip_publication skip_slot : Bool) (name : Bytes)
    → is_skipped skip_publication skip_slot name
      ≡ ((makes_publication name && skip_publication) || (makes_slot name && skip_slot))
unfolding is_skipped
is_skipped_iff skip_publication skip_slot name = ground arith

module _ (exec_ok : SetupStatement → Bool) (schema table_prefix : Bytes) where
  create_each-Applies :
      (ts : List Time)
      → Applies
          (create_each exec_ok schema table_prefix ts)
          (map (λ (t : Time). create_table schema (partition_of table_prefix hour t)) ts)
  unfolding create_each
  create_each-Applies [] = none-Applies
  create_each-Applies (t ∷ ts) = exec-Applies exec_ok _ _ _ _ (create_each-Applies ts)

  create_partition_range-Applies :
      (start now : Time)
      → Applies (create_partition_range exec_ok schema table_prefix start now) (
          map
            (λ (t : Time). create_table schema (partition_of table_prefix hour t))
            (range start now))
  unfolding create_partition_range
  create_partition_range-Applies start now = go _ _ (create_each-Applies (range start now))
    where
      go :
          (b : Bool) (r : Attempt (Unit {0}) × List SetupStatement)
          → Applies r (
              map
                (λ (t : Time). create_table schema (partition_of table_prefix hour t))
                (range start now))
          → Applies (if b then r else (failed Failure.start_not_before_end, [])) (
              map
                (λ (t : Time). create_table schema (partition_of table_prefix hour t))
                (range start now))
      go true r k = k
      go false r k = unfold Applies in λ h. absurd (ground arith)

  partitions-Applies :
      (replica : Bool) (start now : Time)
      → Applies
          (partitions exec_ok schema table_prefix replica start now)
          (partition_statements schema table_prefix replica start now)
  unfolding partitions partition_statements
  partitions-Applies true start now = elim (Bool-cases (start == 0)) [
    | inl unset ↦ rw unset none-Applies
    | inr set ↦ rw set (create_partition_range-Applies start now)
  ]
  partitions-Applies false start now =
      unfold initial_partition in
      exec-Applies exec_ok _ _ _ _ (exec-Applies exec_ok _ _ _ [] none-Applies)

  exec_files-Applies :
      (pairs : List (Bytes × Bytes)) (skip_publication skip_slot : Bool) (fs : List SqlFile)
      (rest : Attempt (Unit {0}) × List SetupStatement) (ss : List SetupStatement)
      → Applies rest ss
      → Applies
          (exec_files exec_ok schema table_prefix pairs skip_publication skip_slot fs rest)
          (file_statements pairs skip_publication skip_slot fs ++ ss)
  unfolding exec_files file_statements
  exec_files-Applies pairs skip_publication skip_slot [] rest ss k = k
  exec_files-Applies pairs skip_publication skip_slot (f ∷ fs) rest ss k =
      let more = exec_files-Applies pairs skip_publication skip_slot fs rest ss k in
      let named = is_skipped_iff skip_publication skip_slot f.name in
      elim (Bool-cases (is_skipped skip_publication skip_slot f.name)) [
        | inl skipped ↦ rw (← named, skipped) more
        | inr kept ↦ rw (← named, kept) (exec-Applies exec_ok _ _ _ _ more)
      ]

  create_from-Applies :
      (files : Attempt (List SqlFile)) (publication slot : Bytes) (skip_publication replica : Bool)
      (start now : Time)
      → (create_from exec_ok schema table_prefix files publication slot skip_publication replica
          start now).0
        ≡ done tt
      → (fs : List SqlFile) × (files ≡ done fs)
        × ((create_from exec_ok schema table_prefix files publication slot skip_publication replica
              start now).1
            ≡ file_statements
                (substitutions schema table_prefix publication slot)
                (skip_publication || replica)
                replica
                fs
              ++ partition_statements schema table_prefix replica start now)
  unfolding create_from Applies
  create_from-Applies (failed e) publication slot skip_publication replica start now h =
      absurd (ground arith)
  create_from-Applies (done fs) publication slot skip_publication replica start now h =
      (fs, refl, exec_files-Applies _ _ _ fs _ _ (partitions-Applies replica start now) h)

checked_ok :
    (c : Attempt (Unit {0})) (r : Attempt (Unit {0}) × List SetupStatement)
    → (checked c r).0 ≡ done tt
    → (c ≡ done tt) × (checked c r ≡ r)
unfolding checked
checked_ok (failed e) r h = absurd (ground arith)
checked_ok (done u) r h = (refl, refl)

-- What a creation has done: the privileges that it needs were there, and it has applied `applied`.
pub record Created (answers : Answers) (entries : Option (List Entry)) (now : Time)
    (schema table_prefix publication slot : Bytes) (skip_publication replica : Bool) (start : Time)
    (applied : List SetupStatement) : Type 0 where
  pub user : answers.user_ok ≡ true
  pub replication : (replica ≡ true) ⊎ (answers.has_replication ≡ some true)
  pub in_schema : answers.has_schema_create ≡ some true
  pub in_database :
      ((skip_publication || replica) ≡ true) ⊎ (answers.has_database_create ≡ some true)
  pub files : List SqlFile
  pub listed : Listed entries files
  pub statements :
      applied
      ≡ file_statements
          (placeholders schema table_prefix publication slot)
          (skip_publication || replica)
          replica
          files
        ++ partition_statements schema table_prefix replica start now

-- A creation without an error has found the privileges that it needs: to create in the schema, to
-- create in the database unless no publication is made, and the replication role unless no slot is
-- made. And it has applied, in this order, the files of the directory whose names end in ".sql", in
-- the order of their names, each once, with the placeholders filled in, but without those that
-- create a publication (on a replica, or where that is to be skipped) and those that create a
-- replication slot (on a replica); then the statements for the partitions: on a replica those of
-- the hours from the start, if one is given, else the partition of the present hour and its row.
pub run_create_done :
    (answers : Answers) (entries : Option (List Entry)) (exec_ok : SetupStatement → Bool)
    (now : Time) (schema table_prefix publication slot : Bytes) (skip_publication replica : Bool)
    (start : Time)
    → (run_create answers entries exec_ok now schema table_prefix publication slot skip_publication
        replica start).0
      ≡ done tt
    → Created answers entries now schema table_prefix publication slot skip_publication replica
        start
        (run_create answers entries exec_ok now schema table_prefix publication slot
          skip_publication replica start).1
unfolding run_create substitutions
run_create_done answers entries exec_ok now schema table_prefix publication slot skip_publication
      replica start h =
    let made =
      create_from exec_ok schema table_prefix (read_sql_files entries) publication slot
        skip_publication replica start now in
    let (passed, same) =
      checked_ok (check_privileges answers (skip_publication || replica) replica) made h in
    let (fs, files, applied) =
      create_from-Applies exec_ok schema table_prefix (read_sql_files entries) publication slot
        skip_publication replica start now
        (ap (λ (r : Attempt (Unit {0}) × List SetupStatement). r.0) (sym same) ∙ h) in
    let (user, replication, in_schema, in_database) =
      (check_privileges_iff answers (skip_publication || replica) replica).0 passed in
    record {
      user = user;
      replication = replication;
      in_schema = in_schema;
      in_database = in_database;
      files = fs;
      listed = read_sql_files-Listed entries fs files;
      statements = ap (λ (r : Attempt (Unit {0}) × List SetupStatement). r.1) same ∙ applied;
    }
