-- ===== src/Partition/Replica/Selection.antt =====
-- Which partitions selectExpiredPartitions gives.
use mathlib.Core.List.{Memᴰ}
use jack_courier_driver_pglg.Prelude.{
  ℕ, ◌+◌, ◌≤◌, List, [], ◌∷◌, Option, none, some, true, false, ap, ◌⊎◌, Bool, ◌≡◌, refl, ◌↔◌, ◌∙◌,
  Bool-cases, inl, inr, Bytes, text_eq, text_eq_iff, contains, ltb, arith, if◌then◌else◌, All, sym,
}
use jack_courier_driver_pglg.Row.{Time}
use jack_courier_driver_pglg.Partition.Parse.{zero_time, parse_partition_lower}
use jack_courier_driver_pglg.Partition.Replica.{
  ExpiredPartition, add_expired, select_names, select_expired_partitions, sort_names, text_leb,
}
use jack_courier_driver_pglg.Partition.Replica.Sorting.{
  contains-sort_names, sort_names-IsSorted, IsSorted,
}

-- The name parses, and the partition ends at the cutoff or before.
unfoldable pub Ended : Bytes → ℕ → Time → ExpiredPartition → Type 0
Ended table_prefix interval cutoff e =
    (lower : Time) × (parse_partition_lower table_prefix e.name ≡ some lower)
    × (e.upper ≡ lower + interval)
    × (e.upper ≤ cutoff + zero_time)

abbrev pub names : List ExpiredPartition → List Bytes
names [] = []
names (e ∷ es) = e.name ∷ names es

module _ (table_prefix : Bytes) (interval : ℕ) (cutoff : Time) where
  add_expired_old :
      (n : Bytes) (o : Option Time) (e : ExpiredPartition) (es : List ExpiredPartition)
      → Memᴰ e es
      → Memᴰ e (add_expired n cutoff o interval es)
  unfolding add_expired
  add_expired_old n none e es m = m
  add_expired_old n (some lower) e es m =
      elim (Bool-cases (ltb (cutoff + zero_time) (lower + interval))) [
        | inl young ↦ rw young m
        | inr ended ↦ rw ended (Memᴰ.tail m)
      ]

  add_expired_new :
      (e : ExpiredPartition) (es : List ExpiredPartition)
      → Ended table_prefix interval cutoff e
      → Memᴰ e (add_expired e.name cutoff (parse_partition_lower table_prefix e.name) interval es)
  unfolding add_expired Ended
  add_expired_new e es (lower, p, u, l) =
      let late : ltb (cutoff + zero_time) (lower + interval) ≡ false = ground (arith, u, l) in
      rw (p, late) (Memᴰ.head (ground (arith, u)))

  add_expired-Ended :
      (n : Bytes) (o : Option Time) (e : ExpiredPartition) (es : List ExpiredPartition)
      → parse_partition_lower table_prefix n ≡ o
      → Memᴰ e (add_expired n cutoff o interval es)
      → ((e.name ≡ n) × Ended table_prefix interval cutoff e) ⊎ Memᴰ e es
  unfolding add_expired Ended
  add_expired-Ended n none e es p m = inr m
  add_expired-Ended n (some lower) e es p m =
      go (ltb (cutoff + zero_time) (lower + interval)) refl m
    where
      go :
          (b : Bool)
          → ltb (cutoff + zero_time) (lower + interval) ≡ b
          → Memᴰ e (if b then es else record { name = n; upper = lower + interval } ∷ es)
          → ((e.name ≡ n) × Ended table_prefix interval cutoff e) ⊎ Memᴰ e es
      go true q k = inr k
      go false q (Memᴰ.tail k) = inr k
      go false q (Memᴰ.head s) =
          let same : e.name ≡ n = ap (λ (x : ExpiredPartition). x.name) s in
          let up : e.upper ≡ lower + interval = ap (λ (x : ExpiredPartition). x.upper) s in
          inl (
            same,
            (lower, ap (parse_partition_lower table_prefix) same ∙ p, up, ground (arith, up)),
          )

  select_names_in :
      (e : ExpiredPartition) (ns : List Bytes)
      → contains e.name ns ≡ true
      → Ended table_prefix interval cutoff e
      → Memᴰ e (select_names table_prefix interval cutoff ns)
  unfolding contains select_names
  select_names_in e [] h k = absurd (ground arith)
  select_names_in e (n ∷ ns) h k = elim (Bool-cases (text_eq n e.name)) [
    | inl hit ↦ rw ((text_eq_iff n e.name).0 hit) (add_expired_new e _ k)
    | inr miss ↦ add_expired_old n _ e _ (select_names_in e ns (ground (arith, h, miss)) k)
  ]

  select_names_of :
      (e : ExpiredPartition) (ns : List Bytes)
      → Memᴰ e (select_names table_prefix interval cutoff ns)
      → (contains e.name ns ≡ true) × Ended table_prefix interval cutoff e
  unfolding contains select_names
  select_names_of e [] m = elim m [ ]
  select_names_of e (n ∷ ns) m =
      elim (add_expired-Ended n (parse_partition_lower table_prefix n) e _ refl m) [
        | inl here ↦ (ground (arith, (text_eq_iff n e.name).1 (sym here.0)), here.1)
        | inr later ↦ let (c, k) = select_names_of e ns later in (ground (arith, c), k)
      ]

  -- A selection is in the order of the names it is made from.
  add_expired_names :
      (P : Bytes → Type 0) (n : Bytes) (o : Option Time) (es : List ExpiredPartition)
      → P n
      → All P (names es)
      → All P (names (add_expired n cutoff o interval es))
  unfolding add_expired
  add_expired_names P n none es p h = h
  add_expired_names P n (some lower) es p h =
      elim (Bool-cases (ltb (cutoff + zero_time) (lower + interval))) [
        | inl young ↦ rw young h
        | inr ended ↦ rw ended (p, h)
      ]

  select_names-All :
      (P : Bytes → Type 0) (ns : List Bytes)
      → All P ns
      → All P (names (select_names table_prefix interval cutoff ns))
  unfolding select_names
  select_names-All P [] h = tt
  select_names-All P (n ∷ ns) h = add_expired_names P n _ _ h.0 (select_names-All P ns h.1)

  add_expired-IsSorted :
      (n : Bytes) (o : Option Time) (es : List ExpiredPartition)
      → All (λ (m : Bytes). text_leb n m ≡ true) (names es)
      → IsSorted (names es)
      → IsSorted (names (add_expired n cutoff o interval es))
  unfolding add_expired IsSorted
  add_expired-IsSorted n none es a h = h
  add_expired-IsSorted n (some lower) es a h =
      elim (Bool-cases (ltb (cutoff + zero_time) (lower + interval))) [
        | inl young ↦ rw young h
        | inr ended ↦ rw ended (a, h)
      ]

  select_names-IsSorted :
      (ns : List Bytes)
      → IsSorted ns
      → IsSorted (names (select_names table_prefix interval cutoff ns))
  unfolding select_names IsSorted
  select_names-IsSorted [] h = tt
  select_names-IsSorted (n ∷ ns) h =
      add_expired-IsSorted n _ _ (select_names-All _ ns h.0) (select_names-IsSorted ns h.1)

  -- The selected partitions are in the order of their names, and are those of the given names that
  -- parse and whose partition ends at the cutoff or before it.
  pub select_expired_partitions_iff :
      (existing : List Bytes)
      → IsSorted (names (select_expired_partitions table_prefix interval existing cutoff))
        × ((e : ExpiredPartition)
            → Memᴰ e (select_expired_partitions table_prefix interval existing cutoff)
              ↔ ((contains e.name existing ≡ true) × Ended table_prefix interval cutoff e))
  unfolding select_expired_partitions
  select_expired_partitions_iff existing = (
    select_names-IsSorted (sort_names existing) (sort_names-IsSorted existing),
    λ e. (
      λ m.
          let (c, k) = select_names_of e (sort_names existing) m in
          (sym (contains-sort_names e.name existing) ∙ c, k),
      λ k. select_names_in e (sort_names existing) (contains-sort_names e.name existing ∙ k.0) k.1,
    ),
  )
