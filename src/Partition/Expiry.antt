-- ===== src/Partition/Expiry.antt =====
-- dropExpiredPartitions of partition.go: one transaction over the partitions whose upper bound is at
-- or before the cutoff. The names come from the rows that the query locks.
use jack_courier_driver_pglg.Prelude.{
  ℕ, ◌-◌, List, [], ◌∷◌, Bool, Bytes, text_eq, leb, if◌then◌else◌,
}
use jack_courier_driver_pglg.Errors.{
  Result, ok, err, ◌>>=◌, begin_drop, query_expired, detach_partition, drop_partition, delete_meta,
  commit_drop,
}
use jack_courier_driver_pglg.Row.{Time}
use jack_courier_driver_pglg.Partition.{Partition, Catalog}

-- Which calls return no error, those of the loop by the name of the partition.
pub record DropFaults : Type 0 where
  pub begin_ok : Bool
  pub query_ok : Bool
  pub detach_ok : Bytes → Bool
  pub drop_ok : Bytes → Bool
  pub delete_ok : Bytes → Bool
  pub commit_ok : Bool
  pub commit_applied : Bool

-- SELECT partition_name … WHERE upper_bound <= cutoff
unfoldable pub expired_names : Time → List Partition → List Bytes
expired_names cutoff [] = []
expired_names cutoff (p ∷ ps) =
    if leb p.upper cutoff then p.name ∷ expired_names cutoff ps else expired_names cutoff ps

-- DELETE … WHERE partition_name = name
unfoldable pub remove_name : Bytes → List Partition → List Partition
remove_name name [] = []
remove_name name (p ∷ ps) =
    if text_eq name p.name then remove_name name ps else p ∷ remove_name name ps

unfoldable pub drop_one : DropFaults → Bytes → Catalog → Result Catalog
drop_one f name c =
    if f.detach_ok name
    then if f.drop_ok name
      then if f.delete_ok name
        then ok (record { meta = remove_name name c.meta; attached = remove_name name c.attached })
        else err delete_meta
      else err drop_partition
    else err detach_partition

unfoldable pub drop_all : DropFaults → List Bytes → Catalog → Result Catalog
drop_all f [] c = ok c
drop_all f (name ∷ names) c = drop_one f name c >>= drop_all f names

-- the deferred Rollback drops the changes on an error
unfoldable pub commit_all : DropFaults → Catalog → Result Catalog → Result (Unit {0}) × Catalog
commit_all f c (err e) = (err e, c)
commit_all f c (ok tx) =
    if f.commit_ok then (ok tt, tx) else (err commit_drop, if f.commit_applied then tx else c)

unfoldable pub drop_expired_partitions :
    DropFaults → ℕ → Time → Catalog → Result (Unit {0}) × Catalog
drop_expired_partitions f retention now c =
    let cutoff = now - retention in
    if f.begin_ok
    then if f.query_ok
      then commit_all f c (drop_all f (expired_names cutoff c.meta) c)
      else (err query_expired, c)
    else (err begin_drop, c)
