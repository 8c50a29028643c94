-- ===== src/Partition/Replica/Create.antt =====
-- What createReplicaPartitions leaves attached on a replica.
use mathlib.Core.List.{Memᴰ}
use jack_courier_driver_pglg.Prelude.{
  ℕ, List, [], ◌∷◌, true, ◌≡◌, ◌⊎◌, inl, inr, Bool-cases, Bytes, contains, text_eq, arith,
}
use jack_courier_driver_pglg.Errors.{ok}
use jack_courier_driver_pglg.Row.{Time}
use jack_courier_driver_pglg.Partition.{
  Partition, partition_name, partition_of, has_name, add_partition,
}
use jack_courier_driver_pglg.Partition.Create.{has_name-add_partition, has_name-add_partition_old}
use jack_courier_driver_pglg.Partition.Replica.{
  ReplicaFaults, set_name, scan_names, list_replica_partitions, create_replica_all,
}

contains-set_name :
    (c n : Bytes) (ns : List Bytes)
    → contains c (set_name n ns) ≡ true
    → (text_eq n c ≡ true) ⊎ (contains c ns ≡ true)
unfolding contains set_name
contains-set_name c n ns h = ground arith

scan_names_of :
    (f : ReplicaFaults) (ps : List Partition) (seen existing : List Bytes) (c : Bytes)
    → scan_names f ps seen ≡ ok existing
    → contains c existing ≡ true
    → (has_name c ps ≡ true) ⊎ (contains c seen ≡ true)
unfolding scan_names has_name
scan_names_of f [] seen existing c h k = ground arith
scan_names_of f (p ∷ ps) seen existing c h k =
    let next = set_name p.name seen in
    ground (arith, scan_names_of f ps next existing c, contains-set_name c p.name seen)

-- The listed names are those of partitions that are attached.
pub list_replica_partitions_of :
    (f : ReplicaFaults) (attached : List Partition) (existing : List Bytes) (c : Bytes)
    → list_replica_partitions f attached ≡ ok existing
    → contains c existing ≡ true
    → has_name c attached ≡ true
unfolding list_replica_partitions contains
list_replica_partitions_of f attached existing c h k =
    ground (arith, scan_names_of f attached [] existing c)

module _ (f : ReplicaFaults) (table_prefix : Bytes) (interval : ℕ) (existing : List Bytes) where
  create_replica_all_keeps :
      (ts : List Time) (attached : List Partition) (c : Bytes)
      → has_name c attached ≡ true
      → has_name c (create_replica_all f table_prefix interval existing ts attached).1 ≡ true
  unfolding create_replica_all
  create_replica_all_keeps [] attached c h = h
  create_replica_all_keeps (t ∷ ts) attached c h =
      let p = partition_of table_prefix interval t in
      ground (
        arith,
        create_replica_all_keeps ts attached c h,
        create_replica_all_keeps ts (add_partition p attached) c
            (has_name-add_partition_old c p attached h),
      )

  -- A turn without an error leaves the partition attached, and the rest of the run goes on from there.
  turn :
      (t : Time) (ts : List Time) (attached : List Partition)
      → ((c : Bytes) → contains c existing ≡ true → has_name c attached ≡ true)
      → (create_replica_all f table_prefix interval existing (t ∷ ts) attached).0 ≡ ok tt
      → (next : List Partition) × (create_replica_all f table_prefix interval existing
            (t ∷ ts)
            attached
          ≡ create_replica_all f table_prefix interval existing ts next)
        × (has_name (partition_name table_prefix t) next ≡ true)
        × ((c : Bytes) → has_name c attached ≡ true → has_name c next ≡ true)
  unfolding create_replica_all partition_of
  turn t ts attached known h =
      let p = partition_of table_prefix interval t in
      elim (Bool-cases (contains (partition_name table_prefix t) existing)) [
        | inl there ↦ (attached, simp there, known _ there, λ c k. k)
        | inr new ↦
            let created : f.create_ok t ≡ true = ground (arith, new, h) in
            (
              add_partition p attached,
              simp (new, created),
              has_name-add_partition p attached,
              λ c. has_name-add_partition_old c p attached,
            )
      ]

  -- Without an error, the partition of each window is attached.
  pub create_replica_all_ok :
      (ts : List Time) (attached : List Partition)
      → ((c : Bytes) → contains c existing ≡ true → has_name c attached ≡ true)
      → (create_replica_all f table_prefix interval existing ts attached).0 ≡ ok tt
      → (l : Time) → Memᴰ l ts
      → has_name
          (partition_name table_prefix l)
          (create_replica_all f table_prefix interval existing ts attached).1
        ≡ true
  create_replica_all_ok [] attached known h l m = elim m [ ]
  create_replica_all_ok (t ∷ ts) attached known h l (Memᴰ.head e) =
      let (next, same, named, grows) = turn t ts attached known h in
      rw (same, e) (create_replica_all_keeps ts next _ named)
  create_replica_all_ok (t ∷ ts) attached known h l (Memᴰ.tail m) =
      let (next, same, named, grows) = turn t ts attached known h in
      rw same (create_replica_all_ok ts next (λ c k. grows c (known c k)) (rw (← same) h) l m)
