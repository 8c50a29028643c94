-- ===== src/Partition/Replica.antt =====
-- The partitions of a replica, of partition.go: listReplicaPartitions, createReplicaPartitions,
-- selectExpiredPartitions and dropExpiredReplicaPartitions. `attached` are the partitions of the jobs
-- table on the replica. The time that pg_stat_subscription gives is, as the present is, later than
-- any Duration after the zero time.
pub mod Sorting
pub mod Selection
pub mod Retention
pub mod Create
use jack_courier_driver_pglg.Prelude.{
  ℕ, ◌+◌, ◌-◌, List, [], ◌∷◌, Bool, true, false, Option, none, some, Bytes, contains, ltb, ◌==◌,
  if◌then◌else◌,
}
use jack_courier_driver_pglg.Errors.{
  Result, ok, err, ◌>>=◌, list_replica, scan_replica, iterate_replica, create_replica, read_apply,
  begin_replica_drop, detach_replica, drop_replica, commit_replica_drop,
}
use jack_courier_driver_pglg.Row.{Time}
use jack_courier_driver_pglg.Partition.{
  Partition, partition_name, partition_of, windows, add_partition,
}
use jack_courier_driver_pglg.Partition.Parse.{zero_time, parse_partition_lower}
use jack_courier_driver_pglg.Partition.Expiry.{remove_name}

-- Which calls return no error, those of a loop by the name or the lower bound of the partition. The
-- query of the apply position gives `none` for an error and `some none` for NULL.
pub record ReplicaFaults : Type 0 where
  pub query_ok : Bool
  pub scan_ok : Bytes → Bool
  pub rows_ok : Bool
  pub create_ok : Time → Bool
  pub last_msg_send_time : Option (Option Time)
  pub begin_ok : Bool
  pub detach_ok : Bytes → Bool
  pub drop_ok : Bytes → Bool
  pub commit_ok : Bool
  pub commit_applied : Bool

-- existing[name] = true
unfoldable pub set_name : Bytes → List Bytes → List Bytes
set_name name existing = if contains name existing then existing else name ∷ existing

unfoldable pub scan_names : ReplicaFaults → List Partition → List Bytes → Result (List Bytes)
scan_names f [] existing = if f.rows_ok then ok existing else err iterate_replica
scan_names f (p ∷ ps) existing =
    let rest = scan_names f ps (set_name p.name existing) in
    if f.scan_ok p.name then rest else err scan_replica

unfoldable pub list_replica_partitions : ReplicaFaults → List Partition → Result (List Bytes)
list_replica_partitions f attached =
    if f.query_ok then scan_names f attached [] else err list_replica

unfoldable pub create_replica_all :
    ReplicaFaults
    → Bytes
    → ℕ
    → List Bytes
    → List Time
    → List Partition
    → Result (Unit {0}) × List Partition
create_replica_all f table_prefix interval existing [] attached = (ok tt, attached)
create_replica_all f table_prefix interval existing (t ∷ ts) attached =
    let p = partition_of table_prefix interval t in
    let skip = create_replica_all f table_prefix interval existing ts attached in
    let next = create_replica_all f table_prefix interval existing ts (add_partition p attached) in
    if contains p.name existing
    then skip
    else if f.create_ok t
    then next
    else (err create_replica, attached)

unfoldable pub create_replica_partitions :
    ReplicaFaults
    → Bytes
    → ℕ
    → ℕ
    → Time
    → List Bytes
    → List Partition
    → Result (Unit {0}) × List Partition
create_replica_partitions f table_prefix interval look_ahead now existing attached =
    create_replica_all f table_prefix interval existing (windows interval look_ahead now) attached

-- the order of sort.Strings
unfoldable pub text_leb : Bytes → Bytes → Bool
text_leb [] t = true
text_leb (a ∷ s) [] = false
text_leb (a ∷ s) (b ∷ t) = if ltb a b then true else if a == b then text_leb s t else false

unfoldable pub insert_name : Bytes → List Bytes → List Bytes
insert_name n [] = n ∷ []
insert_name n (m ∷ ms) = if text_leb n m then n ∷ m ∷ ms else m ∷ insert_name n ms

unfoldable pub sort_names : List Bytes → List Bytes
sort_names [] = []
sort_names (n ∷ ns) = insert_name n (sort_names ns)

-- `upper` is a parsed time.
pub record ExpiredPartition : Type 0 where
  pub name : Bytes
  pub upper : Time

unfoldable pub add_expired :
    Bytes → Time → Option Time → ℕ → List ExpiredPartition → List ExpiredPartition
add_expired name cutoff none interval rest = rest
add_expired name cutoff (some lower) interval rest =
    let upper = lower + interval in
    if ltb (cutoff + zero_time) upper then rest else record { name = name; upper = upper } ∷ rest

unfoldable pub select_names : Bytes → ℕ → Time → List Bytes → List ExpiredPartition
select_names table_prefix interval cutoff [] = []
select_names table_prefix interval cutoff (n ∷ ns) =
    add_expired n cutoff (parse_partition_lower table_prefix n) interval
      (select_names table_prefix interval cutoff ns)

unfoldable pub select_expired_partitions : Bytes → ℕ → List Bytes → Time → List ExpiredPartition
select_expired_partitions table_prefix interval existing cutoff =
    select_names table_prefix interval cutoff (sort_names existing)

unfoldable pub drop_selected :
    ReplicaFaults → List ExpiredPartition → List Partition → Result (List Partition)
drop_selected f [] attached = ok attached
drop_selected f (e ∷ es) attached =
    let rest = drop_selected f es (remove_name e.name attached) in
    if f.detach_ok e.name
    then if f.drop_ok e.name then rest else err drop_replica
    else err detach_replica

-- the deferred Rollback drops the changes on an error
unfoldable pub commit_replica :
    ReplicaFaults → List Partition → Result (List Partition) → Result (Unit {0}) × List Partition
commit_replica f attached (err e) = (err e, attached)
commit_replica f attached (ok tx) =
    if f.commit_ok
    then (ok tt, tx)
    else (err commit_replica_drop, if f.commit_applied then tx else attached)

unfoldable pub drop_to :
    ReplicaFaults → List ExpiredPartition → List Partition → Result (Unit {0}) × List Partition
drop_to f [] attached = (ok tt, attached)
drop_to f (e ∷ es) attached =
    if f.begin_ok
    then commit_replica f attached (drop_selected f (e ∷ es) attached)
    else (err begin_replica_drop, attached)

-- The apply time is never later than the clock here.
unfoldable pub replica_cutoff : ℕ → Time → Time → Time
replica_cutoff retention now sent = (if ltb now sent then now else sent) - retention

unfoldable pub drop_at :
    ReplicaFaults
    → Bytes
    → ℕ
    → ℕ
    → Time
    → List Bytes
    → List Partition
    → Option (Option Time)
    → Result (Unit {0}) × List Partition
drop_at f table_prefix interval retention now existing attached none = (err read_apply, attached)
drop_at f table_prefix interval retention now existing attached (some none) = (ok tt, attached)
drop_at f table_prefix interval retention now existing attached (some (some sent)) =
    let cutoff = replica_cutoff retention now sent in
    drop_to f (select_expired_partitions table_prefix interval existing cutoff) attached

unfoldable pub drop_expired_replica_partitions :
    ReplicaFaults
    → Bytes
    → ℕ
    → ℕ
    → Time
    → List Bytes
    → List Partition
    → Result (Unit {0}) × List Partition
drop_expired_replica_partitions f table_prefix interval retention now existing attached =
    drop_at f table_prefix interval retention now existing attached f.last_msg_send_time
