-- ===== src/Partition/Replica/Sorting.antt =====
-- sort.Strings keeps the names, and puts them in order.
use jack_courier_driver_pglg.Prelude.{
  List, [], ◌∷◌, true, false, ◌≡◌, refl, Bytes, contains, Bool-cases, inl, inr, arith, All, All-imp,
}
use jack_courier_driver_pglg.Partition.Replica.{text_leb, insert_name, sort_names}

contains-insert_name :
    (c n : Bytes) (ms : List Bytes) → contains c (insert_name n ms) ≡ contains c (n ∷ ms)
unfolding contains insert_name
contains-insert_name c n [] = refl
contains-insert_name c n (m ∷ ms) = ground (arith, contains-insert_name c n ms)

pub contains-sort_names : (c : Bytes) (ns : List Bytes) → contains c (sort_names ns) ≡ contains c ns
unfolding contains sort_names
contains-sort_names c [] = refl
contains-sort_names c (n ∷ ns) =
    ground (arith, contains-insert_name c n (sort_names ns), contains-sort_names c ns)

text_leb_total : (s t : Bytes) → text_leb s t ≡ false → text_leb t s ≡ true
unfolding text_leb
text_leb_total [] t h = absurd (ground arith)
text_leb_total (a ∷ s) [] h = refl
text_leb_total (a ∷ s) (b ∷ t) h = ground (arith, text_leb_total s t)

text_leb_trans : (r s t : Bytes) → text_leb r s ≡ true → text_leb s t ≡ true → text_leb r t ≡ true
unfolding text_leb
text_leb_trans [] s t h k = refl
text_leb_trans (a ∷ r) [] t h k = absurd (ground arith)
text_leb_trans (a ∷ r) (b ∷ s) [] h k = absurd (ground arith)
text_leb_trans (a ∷ r) (b ∷ s) (c ∷ t) h k = ground (arith, text_leb_trans r s t)

-- Each name is at or before all the later ones.
unfoldable pub IsSorted : List Bytes → Type 0
IsSorted [] = Unit
IsSorted (n ∷ ns) = All (λ (m : Bytes). text_leb n m ≡ true) ns × IsSorted ns

All-insert_name :
    (P : Bytes → Type 0) (n : Bytes) (ms : List Bytes) → P n → All P ms → All P (insert_name n ms)
unfolding insert_name
All-insert_name P n [] p h = (p, tt)
All-insert_name P n (m ∷ ms) p h = elim (Bool-cases (text_leb n m)) [
  | inl first ↦ rw first (p, h)
  | inr later ↦ rw later (h.0, All-insert_name P n ms p h.1)
]

insert_name-IsSorted : (n : Bytes) (ms : List Bytes) → IsSorted ms → IsSorted (insert_name n ms)
unfolding insert_name IsSorted
insert_name-IsSorted n [] h = (tt, tt)
insert_name-IsSorted n (m ∷ ms) h = elim (Bool-cases (text_leb n m)) [
  | inl first ↦ rw first ((first, All-imp _ _ ms (λ k le. text_leb_trans n m k first le) h.0), h)
  | inr later ↦
      rw later
        (All-insert_name _ n ms (text_leb_total n m later) h.0, insert_name-IsSorted n ms h.1)
]

pub sort_names-IsSorted : (ns : List Bytes) → IsSorted (sort_names ns)
unfolding sort_names
sort_names-IsSorted [] = unfold IsSorted in tt
sort_names-IsSorted (n ∷ ns) = insert_name-IsSorted n (sort_names ns) (sort_names-IsSorted ns)
