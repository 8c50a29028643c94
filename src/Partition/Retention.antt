-- ===== src/Partition/Retention.antt =====
-- Which partitions dropExpiredPartitions leaves.
use mathlib.Core.List.{Memᴰ}
use jack_courier_driver_pglg.Prelude.{
  ℕ, ◌-◌, ◌≤◌, ◌<◌, ◌≡◌, refl, ap, List, [], ◌∷◌, Bool, true, false, Bytes, text_eq, text_eq_iff,
  text_eq_refl, contains, leb, arith, Bool-cases, inl, inr, ◌⊎◌, if◌then◌else◌,
}
use jack_courier_driver_pglg.Errors.{query_expired, begin_drop, ok_of_bind, Result, ok, err}
use jack_courier_driver_pglg.Row.{Time}
use jack_courier_driver_pglg.Partition.{Partition, Catalog}
use jack_courier_driver_pglg.Partition.Expiry.{
  DropFaults, expired_names, remove_name, drop_one, drop_all, commit_all, drop_expired_partitions,
}
use jack_courier_driver_pglg.Partition.Removal.{remove_names, remove_names_other, remove_names_old}

drop_one_ok :
    (f : DropFaults) (name : Bytes) (c d : Catalog)
    → drop_one f name c ≡ ok d
    → d.meta ≡ remove_name name c.meta
unfolding drop_one
drop_one_ok f name c d h = ground arith

drop_all_ok :
    (f : DropFaults) (names : List Bytes) (c d : Catalog)
    → drop_all f names c ≡ ok d
    → d.meta ≡ remove_names names c.meta
unfolding drop_all remove_names
drop_all_ok f [] c d h = ground arith
drop_all_ok f (n ∷ ns) c d h =
    let (t, one, more) = ok_of_bind (drop_one f n c) (drop_all f ns) d h in
    rw (← drop_one_ok f n c t one) (drop_all_ok f ns t d more)

expired_listed :
    (cutoff : Time) (p : Partition) (ps : List Partition)
    → Memᴰ p ps
    → p.upper ≤ cutoff
    → contains p.name (expired_names cutoff ps) ≡ true
unfolding expired_names contains
expired_listed cutoff p [] m h = elim m [ ]
expired_listed cutoff p (q ∷ ps) (Memᴰ.head e) h =
    let late : leb q.upper cutoff ≡ true = rw (← e) (ground arith) in
    rw late (rw (← e) (rw (text_eq_refl p.name) refl))
expired_listed cutoff p (q ∷ ps) (Memᴰ.tail m) h = ground (arith, expired_listed cutoff p ps m h)

-- A listed name is that of a row that has expired.
expired_row :
    (cutoff : Time) (name : Bytes) (ps : List Partition)
    → contains name (expired_names cutoff ps) ≡ true
    → (q : Partition) × Memᴰ q ps × (q.name ≡ name) × (q.upper ≤ cutoff)
unfolding expired_names contains
expired_row cutoff name [] h = absurd (ground arith)
expired_row cutoff name (q ∷ ps) h = elim (Bool-cases (leb q.upper cutoff)) [
  | inr early ↦
      let (r, m, e, l) = expired_row cutoff name ps (ground arith) in (r, Memᴰ.tail m, e, l)
  | inl late ↦ elim (Bool-cases (text_eq q.name name)) [
    | inl hit ↦ (q, Memᴰ.head refl, (text_eq_iff q.name name).0 hit, ground arith)
    | inr miss ↦
        let (r, m, e, l) = expired_row cutoff name ps (ground arith) in (r, Memᴰ.tail m, e, l)
  ]
]

-- The ends of a run: the rows are those under none of the names, and surely so without an error, or
-- they are as before.
abbrev Leaves : List Bytes → Catalog → Result (Unit {0}) × Catalog → Type 0
Leaves names c r =
    ((r.1.meta ≡ remove_names names c.meta) ⊎ (r.1.meta ≡ c.meta))
    × (r.0 ≡ ok tt → r.1.meta ≡ remove_names names c.meta)

commit_all-Leaves :
    (f : DropFaults) (names : List Bytes) (c : Catalog)
    → Leaves names c (commit_all f c (drop_all f names c))
unfolding commit_all
commit_all-Leaves f names c = go (drop_all f names c) (drop_all_ok f names c)
  where
    go :
        (r : Result Catalog)
        → ((d : Catalog) → r ≡ ok d → d.meta ≡ remove_names names c.meta)
        → Leaves names c (commit_all f c r)
    go (err e) k = (inr refl, λ h. absurd (ground arith))
    go (ok tx) k = ground (arith, k tx refl)

drop_expired_partitions-Leaves :
    (f : DropFaults) (retention : ℕ) (now : Time) (c : Catalog)
    → Leaves (expired_names (now - retention) c.meta) c (drop_expired_partitions f retention now c)
unfolding drop_expired_partitions
drop_expired_partitions-Leaves f retention now c =
    let names = expired_names (now - retention) c.meta in
    go f.begin_ok f.query_ok (commit_all f c (drop_all f names c)) (commit_all-Leaves f names c)
  where
    go :
        (b q : Bool) (r : Result (Unit {0}) × Catalog)
        → Leaves (expired_names (now - retention) c.meta) c r
        → Leaves
            (expired_names (now - retention) c.meta)
            c
            (if b then if q then r else (err query_expired, c) else (err begin_drop, c))
    go true true r h = h
    go true false r h = (inr refl, λ e. absurd (ground arith))
    go false q r h = (inr refl, λ e. absurd (ground arith))

not_expired :
    (cutoff : Time) (c : Catalog) (p : Partition)
    → ((q : Partition) → Memᴰ q c.meta → q.name ≡ p.name → q ≡ p)
    → cutoff < p.upper
    → contains p.name (expired_names cutoff c.meta) ≡ false
not_expired cutoff c p key h = elim (Bool-cases (contains p.name (expired_names cutoff c.meta))) [
  | inr no_row ↦ no_row
  | inl listed ↦
      let (q, m, e, late) = expired_row cutoff p.name c.meta listed in
      let same : q.upper ≡ p.upper = ap (λ (r : Partition). r.upper) (key q m e) in
      absurd (omega (arith, same, late, h))
]

-- No run registers a partition.
pub drop_expired_old :
    (f : DropFaults) (retention : ℕ) (now : Time) (c : Catalog) (p : Partition)
    → Memᴰ p (drop_expired_partitions f retention now c).1.meta
    → Memᴰ p c.meta
drop_expired_old f retention now c p m = elim (drop_expired_partitions-Leaves f retention now c).0 [
  | inr same ↦ rw (← same) m
  | inl left ↦
      (remove_names_old (expired_names (now - retention) c.meta) p c.meta (rw (← left) m)).0
]

-- Whatever fails, a registered partition whose upper bound is after the cutoff stays registered, as
-- the name is the key of the table.
pub drop_expired_keeps :
    (f : DropFaults) (retention : ℕ) (now : Time) (c : Catalog) (p : Partition)
    → ((q : Partition) → Memᴰ q c.meta → q.name ≡ p.name → q ≡ p)
    → Memᴰ p c.meta
    → now - retention < p.upper
    → Memᴰ p (drop_expired_partitions f retention now c).1.meta
drop_expired_keeps f retention now c p key m h =
    elim (drop_expired_partitions-Leaves f retention now c).0 [
      | inr same ↦ rw same m
      | inl left ↦
          rw left (remove_names_other _ p c.meta (not_expired (now - retention) c p key h) m)
    ]

-- After a run without an error, the registered partitions are old ones whose upper bound is after
-- the cutoff: every expired one is gone.
pub drop_expired_done :
    (f : DropFaults) (retention : ℕ) (now : Time) (c : Catalog) (p : Partition)
    → (drop_expired_partitions f retention now c).0 ≡ ok tt
    → Memᴰ p (drop_expired_partitions f retention now c).1.meta
    → Memᴰ p c.meta × (now - retention < p.upper)
drop_expired_done f retention now c p h m =
    let left = (drop_expired_partitions-Leaves f retention now c).1 h in
    let (old, unlisted) =
      remove_names_old (expired_names (now - retention) c.meta) p c.meta (rw (← left) m) in
    (
      old,
      elim (Bool-cases (leb p.upper (now - retention))) [
        | inl late ↦
            absurd (
              ground
                (arith, expired_listed (now - retention) p c.meta old (ground arith), unlisted))
        | inr early ↦ ground arith
      ],
    )
