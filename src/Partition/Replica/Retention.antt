-- ===== src/Partition/Replica/Retention.antt =====
-- Which partitions dropExpiredReplicaPartitions leaves on a replica.
use mathlib.Core.List.{Memᴰ}
use jack_courier_driver_pglg.Prelude.{
  ℕ, ◌+◌, ◌-◌, ◌%◌, ◌<◌, List, [], ◌∷◌, true, false, none, some, ◌≡◌, refl, ap, ◌∙◌, sym, ◌⊎◌, inl,
  inr, Bool-cases, Option-cases, Bytes, text_eq, text_eq_iff, text_eq_refl, contains, ltb, min,
  arith,
}
use jack_courier_driver_pglg.Errors.{Result, ok, err}
use jack_courier_driver_pglg.Row.{Time}
use jack_courier_driver_pglg.Partition.{Partition, partition_name}
use jack_courier_driver_pglg.Partition.Calendar.{minute}
use jack_courier_driver_pglg.Partition.Parse.{zero_time, parse_partition_lower}
use jack_courier_driver_pglg.Partition.Parse.Days.{year_10000}
use jack_courier_driver_pglg.Partition.Parse.RoundTrip.{parse_partition_lower-partition_name}
use jack_courier_driver_pglg.Partition.Expiry.{remove_name}
use jack_courier_driver_pglg.Partition.Removal.{remove_names, remove_names_other, remove_names_old}
use jack_courier_driver_pglg.Partition.Replica.{
  ReplicaFaults, ExpiredPartition, select_expired_partitions, drop_selected, commit_replica,
  drop_to, drop_at, replica_cutoff, drop_expired_replica_partitions,
}
use jack_courier_driver_pglg.Partition.Replica.Selection.{
  names, Ended, select_expired_partitions_iff,
}

drop_selected_ok :
    (f : ReplicaFaults) (es : List ExpiredPartition) (attached left : List Partition)
    → drop_selected f es attached ≡ ok left
    → left ≡ remove_names (names es) attached
unfolding drop_selected remove_names
drop_selected_ok f [] attached left h = ground arith
drop_selected_ok f (e ∷ es) attached left h =
    ground (arith, drop_selected_ok f es (remove_name e.name attached) left)

-- The ends of a run: the partitions are those under none of the names, and surely so without an
-- error, or they are as before.
Leaves : List Bytes → List Partition → Result (Unit {0}) × List Partition → Type 0
Leaves ns attached r =
    ((r.1 ≡ remove_names ns attached) ⊎ (r.1 ≡ attached))
    × (r.0 ≡ ok tt → r.1 ≡ remove_names ns attached)

commit_replica-Leaves :
    (f : ReplicaFaults) (ns : List Bytes) (attached : List Partition) (r : Result (List Partition))
    → ((left : List Partition) → r ≡ ok left → left ≡ remove_names ns attached)
    → Leaves ns attached (commit_replica f attached r)
unfolding commit_replica Leaves
commit_replica-Leaves f ns attached (err e) k = (inr refl, λ h. absurd (ground arith))
commit_replica-Leaves f ns attached (ok tx) k = ground (arith, k tx refl)

drop_to-Leaves :
    (f : ReplicaFaults) (es : List ExpiredPartition) (attached : List Partition)
    → Leaves (names es) attached (drop_to f es attached)
unfolding drop_to drop_selected commit_replica
drop_to-Leaves f [] attached = unfold Leaves remove_names in (inr refl, λ h. refl)
drop_to-Leaves f (e ∷ es) attached = elim (Bool-cases f.begin_ok) [
  | inl begun ↦
      rw begun
        (commit_replica-Leaves f (names (e ∷ es)) attached _ (drop_selected_ok f (e ∷ es) attached))
  | inr refused ↦ rw refused (unfold Leaves in (inr refl, λ h. absurd (ground arith)))
]

names_of :
    (c : Bytes) (es : List ExpiredPartition)
    → contains c (names es) ≡ true
    → (e : ExpiredPartition) × Memᴰ e es × (e.name ≡ c)
unfolding contains
names_of c [] h = absurd (ground arith)
names_of c (e ∷ es) h = elim (Bool-cases (text_eq e.name c)) [
  | inl hit ↦ (e, Memᴰ.head refl, (text_eq_iff e.name c).0 hit)
  | inr miss ↦ let (d, m, s) = names_of c es (ground (arith, h, miss)) in (d, Memᴰ.tail m, s)
]

names_in :
    (e : ExpiredPartition) (es : List ExpiredPartition)
    → Memᴰ e es
    → contains e.name (names es) ≡ true
unfolding contains
names_in e [] m = elim m [ ]
names_in e (d ∷ es) (Memᴰ.head s) = rw (← s) (rw (text_eq_refl e.name) refl)
names_in e (d ∷ es) (Memᴰ.tail m) = ground (arith, names_in e es m)

-- The partitions that a run leaves, by the apply position: those of the names that are not selected,
-- or all.
drop_at-Leaves :
    (f : ReplicaFaults) (table_prefix : Bytes) (interval retention : ℕ) (now sent : Time)
    (existing : List Bytes) (attached : List Partition)
    → f.last_msg_send_time ≡ some (some sent)
    → Leaves
        (names (
          select_expired_partitions table_prefix interval existing
            (replica_cutoff retention now sent)))
        attached
        (drop_expired_replica_partitions f table_prefix interval retention now existing attached)
unfolding drop_expired_replica_partitions drop_at
drop_at-Leaves f table_prefix interval retention now sent existing attached e =
    simp e (drop_to-Leaves f _ attached)

module _ (f : ReplicaFaults) (table_prefix : Bytes) (interval retention : ℕ) (now : Time)
    (existing : List Bytes) (attached : List Partition) (p : Partition) where
  unselected :
      (cutoff lower : Time)
      → p.name ≡ partition_name table_prefix lower
      → lower < year_10000
      → lower % minute ≡ 0
      → cutoff < lower + interval
      → contains p.name (names (select_expired_partitions table_prefix interval existing cutoff))
        ≡ false
  unfolding Ended
  unselected cutoff lower named era full young =
      let es = select_expired_partitions table_prefix interval existing cutoff in
      elim (Bool-cases (contains p.name (names es))) [
        | inr free ↦ free
        | inl listed ↦
            let (e, m, s) = names_of p.name es listed in
            let (c, (l, q, u, ended)) =
              ((select_expired_partitions_iff table_prefix interval cutoff existing).1 e).0 m in
            let r = parse_partition_lower-partition_name table_prefix lower era full in
            let same : some l ≡ some (lower + zero_time) =
              sym q ∙ ap (parse_partition_lower table_prefix) (s ∙ named) ∙ r in
            absurd (ground (arith, same, u, ended, young))
      ]

  -- Whatever fails, a run leaves on the replica each partition, under the name of its lower bound, that
  -- ends after the cutoff, for a bound at a full minute before the year 10000. The cutoff is the
  -- retention before the time that the replica has applied, or before the present if that is earlier;
  -- while the applied time is unknown everything stays.
  pub drop_expired_replica_keeps :
      (lower : Time)
      → p.name ≡ partition_name table_prefix lower
      → lower < year_10000
      → lower % minute ≡ 0
      → ((sent : Time)
          → f.last_msg_send_time ≡ some (some sent)
          → min now sent - retention < lower + interval)
      → Memᴰ p attached
      → Memᴰ p
          (drop_expired_replica_partitions f table_prefix interval retention now existing
            attached).1
  unfolding drop_expired_replica_partitions drop_at
  drop_expired_replica_keeps lower named era full young m =
      elim (Option-cases f.last_msg_send_time) [
        | inl unread ↦ simp unread m
        | inr (none, null) ↦ simp null m
        | inr (some sent, e) ↦
            unfold Leaves replica_cutoff in
            let cutoff = replica_cutoff retention now sent in
            let bound : cutoff < lower + interval = ground (arith, young sent e) in
            elim (drop_at-Leaves f table_prefix interval retention now sent existing attached e).0 [
              | inr same ↦ rw same m
              | inl left ↦
                  rw left (
                    remove_names_other _ p attached (unselected cutoff lower named era full bound)
                      m)
            ]
      ]

  -- After a run without an error at a known applied time, no listed partition is left whose name parses
  -- and which ends at the cutoff or before it, and what is left was there before.
  drop_expired_replica_done :
      (sent lower : Time)
      → f.last_msg_send_time ≡ some (some sent)
      → (drop_expired_replica_partitions f table_prefix interval retention now existing attached).0
        ≡ ok tt
      → contains p.name existing ≡ true
      → parse_partition_lower table_prefix p.name ≡ some lower
      → Memᴰ p
          (drop_expired_replica_partitions f table_prefix interval retention now existing
            attached).1
      → Memᴰ p attached × (replica_cutoff retention now sent + zero_time < lower + interval)
  unfolding Leaves Ended
  drop_expired_replica_done sent lower e done listed parsed m =
      let cutoff = replica_cutoff retention now sent in
      let es = select_expired_partitions table_prefix interval existing cutoff in
      let left =
        (drop_at-Leaves f table_prefix interval retention now sent existing attached e).1 done in
      let (old, free) = remove_names_old (names es) p attached (rw (← left) m) in
      (
        old,
        elim (Bool-cases (ltb (cutoff + zero_time) (lower + interval))) [
          | inl young ↦ ground arith
          | inr ended ↦
              let gone : ExpiredPartition = record { name = p.name; upper = lower + interval } in
              let picked : Memᴰ gone es =
                ((select_expired_partitions_iff table_prefix interval cutoff existing).1 gone).1
                  (listed, (lower, parsed, refl, ground arith)) in
              absurd (ground (arith, names_in gone es picked, free))
        ],
      )
