-- ===== src/Setup/Failures.antt =====
-- The errors of pglg-setup, one constructor for each place that prints or makes one.
use jack_courier_driver_pglg.Prelude.{List, Bytes}
use jack_courier_driver_pglg.Row.{Time}

pub data Privilege : Type 0 where
  replication_role schema_create database_create : Privilege

pub data Failure : Type 0 where
  -- main
  no_command no_conn_string replica_without_create partitions_without_create : Failure
  partitions_without_replica no_publication_or_slot invalid_timestamp : Failure
  no_connection unknown_command : Failure
  -- checkPrivileges
  no_user no_replication_answer no_schema_answer no_database_answer : Failure
  missing_privileges : List Privilege → Failure
  -- readSQLFiles
  no_directory : Failure
  no_file : Bytes → Failure
  -- runCreate, createPartitionRange and runDestroy
  no_initial_partition no_initial_row start_not_before_end : Failure
  not_executed not_dropped : Bytes → Failure
  no_partition : Time → Failure

pub data Attempt {ℓ} (A : Type ℓ) : Type ℓ where
  done : A → Attempt A
  failed : Failure → Attempt A
