-- ===== src/Dlq/Matching/Answers.antt =====
-- mapResults succeeds exactly on a one-to-one answer.
use mathlib.Core.List as CoreList
use mathlib.Core.Nat as CoreNat
use mathlib.Core.List.{
  Mem, Nodup, Perm, Nodup-cons, Nodup-nil, Subset, mem-cons, mem-cons_self, mem-cons_of_mem,
  not-mem-nil,
}
use mathlib.Core.List.Perm
use mathlib.Core.List.Nodup
use mathlib.Core.List.Subperm
use mathlib.Core.Logic.Or
use mathlib.Core.Path.{subst}
use native.Mathlib.Bridge.{from_ℕ, from_le⁻¹}
use jack_courier_driver_pglg.Prelude.{
  contains, contains_iff, suc, List, [], ◌∷◌, ◌≡◌, refl, ap, ◌↔◌, inl, inr, Option, none, some,
  true, false, Bool, Bytes, map, arith, Bool-cases, append-nil, length, length-map,
}
use jack_courier_driver_pglg.Errors.{Result, ok, err}
use jack_courier_driver_pglg.Row.{ParsedInsert, SubmitResult, DlqRow}
use jack_courier_driver_pglg.Dlq.{
  Index, add_row, find_insert, index_inserts, match_results, map_results,
}
use jack_courier_driver_pglg.Dlq.Matching.Index.{
  cid, ids, keys, find_insert_some, find_insert_of_mem, index-keys, index-Nodup,
  index_inserts_total,
}

abbrev pub answered : List SubmitResult → List Bytes
answered = map (λ r. r.correlation_id)

-- A successful run of the loop: one step, and the rest.
pub match_step :
    (index : Index) (seen : List Bytes) (r : SubmitResult) (rs : List SubmitResult)
    (rows : List DlqRow)
    → match_results index seen (r ∷ rs) ≡ ok rows
    → (contains r.correlation_id seen ≡ false)
      × ((p : ParsedInsert) × (rest : List DlqRow) × (find_insert r.correlation_id index ≡ some p)
          × (match_results index (r.correlation_id ∷ seen) rs ≡ ok rest)
          × (rows ≡ add_row p r rest))
unfolding match_results
match_step index seen r rs rows h =
    go (contains r.correlation_id seen) refl (find_insert r.correlation_id index) refl
      (match_results index (r.correlation_id ∷ seen) rs) refl
  where
    go :
        (b : Bool)
        → contains r.correlation_id seen ≡ b
        → (o : Option ParsedInsert) → find_insert r.correlation_id index ≡ o
        → (m : Result (List DlqRow)) → match_results index (r.correlation_id ∷ seen) rs ≡ m
        → (contains r.correlation_id seen ≡ false)
          × ((p : ParsedInsert) × (rest : List DlqRow) × (find_insert r.correlation_id index
                ≡ some p)
              × (match_results index (r.correlation_id ∷ seen) rs ≡ ok rest)
              × (rows ≡ add_row p r rest))
    go true e o f m g = absurd (ground arith)
    go false e none f m g = absurd (ground arith)
    go false e (some p) f (err x) g = absurd (ground arith)
    go false e (some p) f (ok rest) g = (e, (p, rest, f, g, ground arith))

module _ (index : Index) where
  record Distinct (seen : List Bytes) (rs : List SubmitResult) : Type 0 where
    once : Nodup (answered rs)
    fresh : (c : Bytes) → Mem c (answered rs) → ¬ Mem c seen
    known : (c : Bytes) → Mem c (answered rs) → Mem c (keys index)

  match_results-Distinct :
      (seen : List Bytes) (rs : List SubmitResult) (rows : List DlqRow)
      → match_results index seen rs ≡ ok rows
      → Distinct seen rs
  match_results-Distinct seen [] rows h = record {
    once = Nodup-nil;
    fresh = λ c m. absurd (not-mem-nil m);
    known = λ c m. absurd (not-mem-nil m);
  }
  match_results-Distinct seen (r ∷ rs) rows h =
      let (new, (p, rest, found, later, e)) = match_step index seen r rs rows h in
      let d = match_results-Distinct (r.correlation_id ∷ seen) rs rest later in
      record {
        once = Nodup-cons.1 (λ m. d.fresh r.correlation_id m mem-cons_self, d.once);
        fresh = λ c m k.
            Or.elim (λ x y. absurd x) (mem-cons.0 m)
              (λ e.
                absurd
                  (cc (new, (contains_iff r.correlation_id seen).1 (subst (λ x. Mem x seen) e k))))
              (λ m'. d.fresh c m' (mem-cons_of_mem _ k));
        known = λ c m.
            Or.elim (hlevel) (mem-cons.0 m)
              (λ e. rw e (find_insert_some r.correlation_id index p found)) (d.known c);
      }

  later_Distinct :
      (seen : List Bytes) (r : SubmitResult) (rs : List SubmitResult)
      → Distinct seen (r ∷ rs)
      → Distinct (r.correlation_id ∷ seen) rs
  later_Distinct seen r rs d = record {
    once = (Nodup-cons.0 d.once).1;
    fresh = λ c m k.
        Or.elim (λ x y. absurd x) (mem-cons.0 k)
          (λ e. (Nodup-cons.0 d.once).0 (subst (λ x. Mem x (answered rs)) e m))
          (d.fresh c (mem-cons_of_mem r.correlation_id m));
    known = λ c m. d.known c (mem-cons_of_mem r.correlation_id m);
  }

  not_seen :
      (seen : List Bytes) (r : SubmitResult) (rs : List SubmitResult)
      → Distinct seen (r ∷ rs)
      → contains r.correlation_id seen ≡ false
  not_seen seen r rs d = elim (Bool-cases (contains r.correlation_id seen)) [
    | inl dup ↦ absurd (d.fresh r.correlation_id mem-cons_self ((contains_iff _ seen).0 dup))
    | inr new ↦ new
  ]

  match_results_total :
      (seen : List Bytes) (rs : List SubmitResult)
      → Distinct seen rs
      → (rows : List DlqRow) × (match_results index seen rs ≡ ok rows)
  unfolding match_results
  match_results_total seen [] d = ([], refl)
  match_results_total seen (r ∷ rs) d =
      let c = r.correlation_id in
      let (p, found) = find_insert_of_mem c index (d.known c mem-cons_self) in
      let (rows, later) = match_results_total (c ∷ seen) rs (later_Distinct seen r rs d) in
      (add_row p r rows, ground (arith, found, later, not_seen seen r rs d))

pub map_results_parts :
    (inserts : List ParsedInsert) (results : List SubmitResult) (rows : List DlqRow)
    → map_results inserts results ≡ ok rows
    → (length results ≡ length inserts)
      × ((index : Index) × (index_inserts [] inserts ≡ ok index)
          × (match_results index [] results ≡ ok rows))
unfolding map_results
map_results_parts inserts results rows h = go (index_inserts [] inserts) refl
  where
    go :
        (m : Result Index)
        → index_inserts [] inserts ≡ m
        → (length results ≡ length inserts)
          × ((index : Index) × (index_inserts [] inserts ≡ ok index)
              × (match_results index [] results ≡ ok rows))
    go (err x) e = absurd (ground arith)
    go (ok index) e = (ground arith, (index, e, ground arith))

from_length {ℓ} : {A : Type ℓ} (xs : List A) → from_ℕ (CoreList.length xs) ≡ length xs
from_length [] = refl
from_length (x ∷ xs) = ap suc (from_length xs)

as_long :
    (inserts : List ParsedInsert) (results : List SubmitResult)
    → length results ≡ length inserts
    → CoreNat.◌≤◌ (CoreList.length (ids inserts)) (CoreList.length (answered results))
as_long inserts results e = from_le⁻¹ _ _ (
    omega (
      arith,
      from_length (ids inserts),
      from_length (answered results),
      length-map cid inserts,
      length-map (λ (r : SubmitResult). r.correlation_id) results,
    ))

perm_length :
    (inserts : List ParsedInsert) (results : List SubmitResult)
    → Perm (answered results) (ids inserts)
    → length results ≡ length inserts
perm_length inserts results all = omega (
  arith,
  ap from_ℕ (Perm.length-eq all),
  from_length (ids inserts),
  from_length (answered results),
  length-map cid inserts,
  length-map (λ (r : SubmitResult). r.correlation_id) results,
)

-- The keys of the index are the ids, once each.
index_of_all :
    (inserts : List ParsedInsert) (index : Index)
    → index_inserts [] inserts ≡ ok index
    → Nodup (keys index) × Perm (keys index) (ids inserts)
index_of_all inserts index h = (
  index-Nodup [] inserts h Nodup-nil,
  subst (Perm (keys index)) (append-nil (ids inserts)) (index-keys [] inserts h),
)

-- mapResults succeeds exactly when the submitted rows have different ids and the correlation ids
-- of the results are those ids, each once, in any order.
pub map_results_iff :
    (inserts : List ParsedInsert) (results : List SubmitResult)
    → ((rows : List DlqRow) × (map_results inserts results ≡ ok rows))
      ↔ (Nodup (ids inserts) × Perm (answered results) (ids inserts))
map_results_iff inserts results = (there, back)
  where
    there :
        (rows : List DlqRow) × (map_results inserts results ≡ ok rows)
        → Nodup (ids inserts) × Perm (answered results) (ids inserts)
    there (rows, h) =
        let (same, (index, built, matched)) = map_results_parts inserts results rows h in
        let (once, all) = index_of_all inserts index built in
        let d = match_results-Distinct index [] results rows matched in
        let sub = Nodup.subperm d.once (λ c m. (Perm.mem_iff all).0 (d.known c m)) in
        (Perm.nodup all once, Subperm.perm_of_length_le sub (as_long inserts results same))

    back :
        Nodup (ids inserts) × Perm (answered results) (ids inserts)
        → (rows : List DlqRow) × (map_results inserts results ≡ ok rows)
    back (once, all) =
        let (index, built) = index_inserts_total [] inserts once (λ c m. not-mem-nil) in
        let d : Distinct index [] results = record {
          once = Perm.nodup (Perm.symm all) once;
          fresh = λ c m. not-mem-nil;
          known =
              λ c m. (Perm.mem_iff (index_of_all inserts index built).1).1 ((Perm.mem_iff all).0 m);
        } in
        let (rows, matched) = match_results_total index [] results d in
        (
          rows,
          unfold map_results in ground (arith, built, matched, perm_length inserts results all),
        )
