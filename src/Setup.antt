-- ===== src/Setup.antt =====
-- cmd/pglg-setup/main.go: main. `Args` are the flags as the flag package has parsed them, and
-- `parse_rfc3339` is time.Parse at the layout RFC 3339. The zero time is 0.
pub mod Text
pub mod Failures
pub mod Privileges
pub mod Files
pub mod Create
pub mod Destroy
pub mod Listed
pub mod Applied
pub mod Replica
pub mod Handover
pub mod Arguments
use jack_courier_driver_pglg.Prelude.{
  ℕ, List, [], ◌∷◌, Bool, true, false, not, ◌&&◌, ◌||◌, Option, none, some, Bytes, codes, is_empty,
  text_eq, if◌then◌else◌,
}
use jack_courier_driver_pglg.Row.{Time}
use Failures.{Failure, Attempt, done, failed}
use Privileges.{Answers}
use Files.{Entry}
use Create.{SetupStatement, run_create}
use Destroy.{run_destroy}

pub record Args : Type 0 where
  pub conn_string : Bytes
  pub schema : Bytes
  pub table_prefix : Bytes
  pub publication : Bytes
  pub slot : Bytes
  pub skip_publication : Bool
  pub replica : Bool
  pub create_partitions_from : Bytes

-- the tests before the connection, in their order
unfoldable pub argument_failure : Bytes → Args → Option Failure
argument_failure cmd a =
    let create = text_eq cmd (codes "create") in
    let from = not (is_empty a.create_partitions_from) in
    if is_empty a.conn_string
    then some Failure.no_conn_string
    else if not create && a.replica
    then some Failure.replica_without_create
    else if not create && from
    then some Failure.partitions_without_create
    else if from && not a.replica
    then some Failure.partitions_without_replica
    else if (not create || not a.replica) && (is_empty a.publication || is_empty a.slot)
    then some Failure.no_publication_or_slot
    else none

-- What the rest of the world answers: the connection, the catalog queries, the embedded files, the
-- statements and the clock.
pub record Outside : Type 0 where
  pub connects : Bool
  pub answers : Answers
  pub entries : Option (List Entry)
  pub exec_ok : SetupStatement → Bool
  pub now : Time

unfoldable pub parsed_start : Option Time → Attempt Time
parsed_start none = failed Failure.invalid_timestamp
parsed_start (some t) = done t

unfoldable pub dispatch : Outside → Bytes → Args → Time → Attempt (Unit {0}) × List SetupStatement
dispatch w cmd a start =
    if text_eq cmd (codes "create")
    then run_create w.answers w.entries w.exec_ok w.now a.schema a.table_prefix a.publication a.slot
        a.skip_publication a.replica start
    else if text_eq cmd (codes "destroy")
    then run_destroy w.exec_ok a.schema a.table_prefix a.publication a.slot
    else (failed Failure.unknown_command, [])

unfoldable pub connected :
    Outside → Bytes → Args → Attempt Time → Attempt (Unit {0}) × List SetupStatement
connected w cmd a (failed e) = (failed e, [])
connected w cmd a (done start) =
    if w.connects then dispatch w cmd a start else (failed Failure.no_connection, [])

module _ (parse_rfc3339 : Bytes → Option Time) where
  unfoldable pub partitions_start : Args → Attempt Time
  unfolding parsed_start
  partitions_start a =
      let parsed = parsed_start (parse_rfc3339 a.create_partitions_from) in
      if is_empty a.create_partitions_from then done 0 else parsed

  unfoldable pub after_tests :
      Outside → Bytes → Args → Option Failure → Attempt (Unit {0}) × List SetupStatement
  unfolding connected partitions_start
  after_tests w cmd a (some e) = (failed e, [])
  after_tests w cmd a none = connected w cmd a (partitions_start a)

  -- The exit status is 1 at a failure. The statements that were applied are given in their order.
  unfoldable pub main : Outside → Option (Bytes × Args) → Attempt (Unit {0}) × List SetupStatement
  unfolding after_tests argument_failure
  main w none = (failed Failure.no_command, [])
  main w (some (cmd, a)) = after_tests w cmd a (argument_failure cmd a)
