-- ===== src/Partition/Removal.antt =====
-- The rows that stay when names are removed.
use mathlib.Core.List.{Memᴰ}
use jack_courier_driver_pglg.Prelude.{
  ◌≡◌, refl, List, [], ◌∷◌, Bool, true, false, Bytes, text_eq, contains, contains-cons, arith,
  Bool-cases, inl, inr, if◌then◌else◌,
}
use jack_courier_driver_pglg.Partition.{Partition}
use jack_courier_driver_pglg.Partition.Expiry.{remove_name}

-- The row stays when its name is another.
remove_name_other :
    (name : Bytes) (p : Partition) (ps : List Partition)
    → text_eq name p.name ≡ false
    → Memᴰ p ps
    → Memᴰ p (remove_name name ps)
unfolding remove_name
remove_name_other name p [] other m = elim m [ ]
remove_name_other name p (q ∷ ps) other (Memᴰ.head e) =
    let same : text_eq name q.name ≡ false = rw (← e) other in rw same (Memᴰ.head e)
remove_name_other name p (q ∷ ps) other (Memᴰ.tail m) = elim (Bool-cases (text_eq name q.name)) [
  | inl gone ↦ rw gone (remove_name_other name p ps other m)
  | inr stays ↦ rw stays (Memᴰ.tail (remove_name_other name p ps other m))
]

-- A row that stays was there, under another name.
remove_name_old :
    (name : Bytes) (p : Partition) (ps : List Partition)
    → Memᴰ p (remove_name name ps)
    → Memᴰ p ps × (text_eq name p.name ≡ false)
unfolding remove_name
remove_name_old name p [] m = elim m [ ]
remove_name_old name p (q ∷ ps) m = go (text_eq name q.name) refl m (remove_name_old name p ps)
  where
    go :
        (b : Bool)
        → text_eq name q.name ≡ b
        → Memᴰ p (if b then remove_name name ps else q ∷ remove_name name ps)
        → (Memᴰ p (remove_name name ps) → Memᴰ p ps × (text_eq name p.name ≡ false))
        → Memᴰ p (q ∷ ps) × (text_eq name p.name ≡ false)
    go true e k ih = let (old, other) = ih k in (Memᴰ.tail old, other)
    go false e (Memᴰ.head s) ih = (Memᴰ.head s, rw s e)
    go false e (Memᴰ.tail k) ih = let (old, other) = ih k in (Memᴰ.tail old, other)

-- The rows under none of the names.
unfoldable pub remove_names : List Bytes → List Partition → List Partition
remove_names [] ps = ps
remove_names (n ∷ ns) ps = remove_names ns (remove_name n ps)

pub remove_names_other :
    (ns : List Bytes) (p : Partition) (ps : List Partition)
    → contains p.name ns ≡ false
    → Memᴰ p ps
    → Memᴰ p (remove_names ns ps)
unfolding remove_names
remove_names_other [] p ps h m = m
remove_names_other (n ∷ ns) p ps h m =
    let (other, others) = (contains-cons p.name n ns).0 h in
    remove_names_other ns p (remove_name n ps) others (remove_name_other n p ps other m)

pub remove_names_old :
    (ns : List Bytes) (p : Partition) (ps : List Partition)
    → Memᴰ p (remove_names ns ps)
    → Memᴰ p ps × (contains p.name ns ≡ false)
unfolding remove_names contains
remove_names_old [] p ps m = (m, refl)
remove_names_old (n ∷ ns) p ps m =
    let (there, others) = remove_names_old ns p (remove_name n ps) m in
    let (old, other) = remove_name_old n p ps there in (old, ground (arith, others, other))
