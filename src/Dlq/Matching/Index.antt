-- ===== src/Dlq/Matching/Index.antt =====
-- The index of the submitted rows by correlation id.
use mathlib.Core.List.{
  Mem, Memᴰ, Nodup, Perm, Nodup-cons, mem-cons, mem-cons_self, mem-cons_of_mem, not-mem-nil,
  perm_middle,
}
use mathlib.Core.List.Perm
use mathlib.Core.Logic.Or
use mathlib.Core.Path.{subst}
use jack_courier_driver_pglg.Prelude.{
  List, [], ◌∷◌, ◌++◌, ◌≡◌, refl, sym, inl, inr, none, some, Bytes, text_eq, text_eq_iff, map,
  arith, Option-cases, Bool-cases,
}
use jack_courier_driver_pglg.Errors.{ok}
use jack_courier_driver_pglg.Strconv.{format_int}
use jack_courier_driver_pglg.Row.{ParsedInsert}
use jack_courier_driver_pglg.Dlq.{Index, find_insert, index_inserts}

abbrev pub cid : ParsedInsert → Bytes
cid p = format_int p.id

abbrev pub ids : List ParsedInsert → List Bytes
ids = map cid

abbrev pub keys : Index → List Bytes
keys = map (λ e. e.0)

pub find_insert-none :
    (c : Bytes) (index : Index) → find_insert c index ≡ none → ¬ Mem c (keys index)
unfolding find_insert
find_insert-none c [] h m = not-mem-nil m
find_insert-none c ((k, p) ∷ rest) h m =
    Or.elim (λ x y. absurd x) (mem-cons.0 m) (λ e. ground (arith, text_eq_iff k c, e))
      (λ m'. find_insert-none c rest (ground (arith, text_eq_iff k c)) m')

pub find_insert_some :
    (c : Bytes) (index : Index) (p : ParsedInsert)
    → find_insert c index ≡ some p
    → Mem c (keys index)
unfolding find_insert
find_insert_some c [] p h = cc
find_insert_some c ((k, q) ∷ rest) p h = elim (Bool-cases (text_eq k c)) [
  | inl hit ↦ rw (sym ((text_eq_iff k c).0 hit)) mem-cons_self
  | inr miss ↦ mem-cons_of_mem k (find_insert_some c rest p (ground arith))
]

pub find_insert_of_mem :
    (c : Bytes) (index : Index)
    → Mem c (keys index)
    → (p : ParsedInsert) × (find_insert c index ≡ some p)
find_insert_of_mem c index m = elim (Option-cases (find_insert c index)) [
  | inl missing ↦ absurd (find_insert-none c index missing m)
  | inr (p, e) ↦ (p, e)
]

-- A successful run of the loop: one step, and the rest.
pub index_step :
    (index idx : Index) (p : ParsedInsert) (ps : List ParsedInsert)
    → index_inserts index (p ∷ ps) ≡ ok idx
    → (find_insert (cid p) index ≡ none) × (index_inserts ((cid p, p) ∷ index) ps ≡ ok idx)
unfolding index_inserts
index_step index idx p ps h = ground arith

index_done : (index idx : Index) → index_inserts index [] ≡ ok idx → index ≡ idx
unfolding index_inserts
index_done index idx h = ground arith

module _ {idx : Index} where
  -- The keys are the ids that were indexed and those that were there before.
  pub index-keys :
      (index : Index) (ps : List ParsedInsert)
      → index_inserts index ps ≡ ok idx
      → Perm (keys idx) (ids ps ++ keys index)
  unfolding index_inserts
  index-keys index [] h = rw (← index_done index idx h) (Perm.refl (keys index))
  index-keys index (p ∷ ps) h =
      let (fresh, rest) = index_step index idx p ps h in
      Perm.trans (index-keys ((cid p, p) ∷ index) ps rest) (perm_middle (ids ps) (keys index))

  pub index-Nodup :
      (index : Index) (ps : List ParsedInsert)
      → index_inserts index ps ≡ ok idx
      → Nodup (keys index)
      → Nodup (keys idx)
  unfolding index_inserts
  index-Nodup index [] h d = rw (← index_done index idx h) d
  index-Nodup index (p ∷ ps) h d =
      let (fresh, rest) = index_step index idx p ps h in
      index-Nodup ((cid p, p) ∷ index) ps rest
        (Nodup-cons.1 (find_insert-none (cid p) index fresh, d))

  -- What is indexed stays.
  index_keeps :
      (index : Index) (ps : List ParsedInsert) (c : Bytes) (q : ParsedInsert)
      → index_inserts index ps ≡ ok idx
      → find_insert c index ≡ some q
      → find_insert c idx ≡ some q
  unfolding index_inserts
  index_keeps index [] c q h e = ground arith
  index_keeps index (p ∷ ps) c q h e =
      let (fresh, rest) = index_step index idx p ps h in
      index_keeps ((cid p, p) ∷ index) ps c q rest
        (unfold find_insert in ground (arith, text_eq_iff (cid p) c))

  pub find_insert_submitted :
      (p : ParsedInsert) (index : Index) {ps : List ParsedInsert}
      → index_inserts index ps ≡ ok idx
      → Memᴰ p ps
      → find_insert (cid p) idx ≡ some p
  find_insert_submitted p index {ps = []} h m = elim m [ ]
  find_insert_submitted p index {ps = q ∷ qs} h (Memᴰ.head e) =
      let (fresh, rest) = index_step index idx q qs h in
      index_keeps ((cid q, q) ∷ index) qs (cid p) p rest
        (unfold find_insert in ground (arith, text_eq_iff (cid q) (cid p), e))
  find_insert_submitted p index {ps = q ∷ qs} h (Memᴰ.tail m) =
      let (fresh, rest) = index_step index idx q qs h in
      find_insert_submitted p ((cid q, q) ∷ index) rest m

-- Ids that differ from one another and from the keys are all indexed.
pub index_inserts_total :
    (index : Index) (ps : List ParsedInsert)
    → Nodup (ids ps)
    → ((c : Bytes) → Mem c (ids ps) → ¬ Mem c (keys index))
    → (idx : Index) × (index_inserts index ps ≡ ok idx)
unfolding index_inserts
index_inserts_total index [] d new = (index, refl)
index_inserts_total index (p ∷ ps) d new = elim (Option-cases (find_insert (cid p) index)) [
  | inl fresh ↦
      rw (fresh, index_inserts)
        (index_inserts_total ((cid p, p) ∷ index) ps (Nodup-cons.0 d).1 (λ c m k.
          Or.elim (λ x y. absurd x) (mem-cons.0 k)
            (λ e. (Nodup-cons.0 d).0 (subst (λ x. Mem x (ids ps)) e m))
            (new c (mem-cons_of_mem (cid p) m))))
  | inr (q, old) ↦ absurd (new (cid p) mem-cons_self (find_insert_some (cid p) index q old))
]
