-- ===== src/Dlq/Matching/Rows.antt =====
-- The dead letter rows are those of the rejected jobs.
use mathlib.Core.List.{Memᴰ}
use mathlib.Core.Path.{subst}
use jack_courier_driver_pglg.Prelude.{
  List, [], ◌∷◌, ◌≡◌, refl, ◌⊎◌, ◌↔◌, inl, inr, some, false, Bytes, text_eq, text_eq_iff, is_empty,
  arith, Bool-cases,
}
use jack_courier_driver_pglg.Errors.{ok}
use jack_courier_driver_pglg.Row.{ParsedInsert, SubmitResult, DlqRow}
use jack_courier_driver_pglg.Dlq.{
  Index, find_insert, index_inserts, match_results, map_results, dlq_row, add_row,
}
use jack_courier_driver_pglg.Dlq.Matching.Index.{cid, find_insert_submitted, index_step}
use jack_courier_driver_pglg.Dlq.Matching.Answers.{match_step, map_results_parts}

-- A submitted row and a result that rejects it.
pub record Rejection (inserts : List ParsedInsert) (results : List SubmitResult) : Type 0 where
  pub row : ParsedInsert
  pub result : SubmitResult
  pub submitted : Memᴰ row inserts
  pub returned : Memᴰ result results
  pub same_id : cid row ≡ result.correlation_id
  pub rejected : is_empty result.error ≡ false

add_row_rejected :
    (p : ParsedInsert) (r : SubmitResult) (rows : List DlqRow)
    → is_empty r.error ≡ false
    → add_row p r rows ≡ dlq_row p r ∷ rows
unfolding add_row
add_row_rejected p r rows h = ground arith

add_row_keeps :
    (p : ParsedInsert) (r : SubmitResult) (d : DlqRow) {rows : List DlqRow}
    → Memᴰ d rows
    → Memᴰ d (add_row p r rows)
unfolding add_row
add_row_keeps p r d m = elim (Bool-cases (is_empty r.error)) [
  | inl empty ↦ rw empty m
  | inr full ↦ rw full (Memᴰ.tail m)
]

add_row_head :
    (p p' : ParsedInsert) (r q : SubmitResult) (rows : List DlqRow)
    → p ≡ p'
    → r ≡ q
    → is_empty r.error ≡ false
    → Memᴰ (dlq_row p r) (add_row p' q rows)
add_row_head p p' r q rows ep er bad = rw (add_row_rejected p' q rows (cc)) (Memᴰ.head (cc))

match_complete :
    (index : Index) (p : ParsedInsert) (r : SubmitResult)
    → find_insert r.correlation_id index ≡ some p
    → is_empty r.error ≡ false
    → (seen : List Bytes) (rows : List DlqRow) {rs : List SubmitResult}
    → match_results index seen rs ≡ ok rows
    → Memᴰ r rs
    → Memᴰ (dlq_row p r) rows
match_complete index p r found bad seen rows {rs = []} h m = elim m [ ]
match_complete index p r found bad seen rows {rs = q ∷ qs} h (Memᴰ.head e) =
    let (new, (p', rest, f, later, is)) = match_step index seen q qs rows h in
    rw is (add_row_head p p' r q rest (cc) e bad)
match_complete index p r found bad seen rows {rs = q ∷ qs} h (Memᴰ.tail m) =
    let (new, (p', rest, f, later, is)) = match_step index seen q qs rows h in
    rw is (add_row_keeps p' q (dlq_row p r) (match_complete index p r found bad _ rest later m))

-- The entries of the index are submitted rows under their ids.
indexed :
    (index idx : Index) (ps : List ParsedInsert) (c : Bytes) (p : ParsedInsert)
    → index_inserts index ps ≡ ok idx
    → find_insert c idx ≡ some p
    → (Memᴰ p ps × (cid p ≡ c)) ⊎ (find_insert c index ≡ some p)
unfolding index_inserts find_insert
indexed index idx [] c p h f = inr (ground arith)
indexed index idx (q ∷ qs) c p h f =
    let (fresh, rest) = index_step index idx q qs h in
    elim (indexed ((cid q, q) ∷ index) idx qs c p rest f) [
      | inl (m, e) ↦ inl (Memᴰ.tail m, e)
      | inr e ↦ elim (Bool-cases (text_eq (cid q) c)) [
        | inl hit ↦ inl (Memᴰ.head (ground arith), ground (arith, text_eq_iff (cid q) c))
        | inr miss ↦ inr (ground arith)
      ]
    ]

mem_cons_inv : (d e : DlqRow) (rows : List DlqRow) → Memᴰ d (e ∷ rows) → (d ≡ e) ⊎ Memᴰ d rows
mem_cons_inv d e rows (Memᴰ.head p) = inl p
mem_cons_inv d e rows (Memᴰ.tail m) = inr m

add_row_inv :
    (p : ParsedInsert) (r : SubmitResult) (d : DlqRow) (rows : List DlqRow)
    → Memᴰ d (add_row p r rows)
    → ((is_empty r.error ≡ false) × (d ≡ dlq_row p r)) ⊎ Memᴰ d rows
unfolding add_row
add_row_inv p r d rows m = elim (Bool-cases (is_empty r.error)) [
  | inl empty ↦ inr (rw empty at m)
  | inr full ↦ elim (mem_cons_inv d (dlq_row p r) rows (rw full at m)) [
    | inl e ↦ inl (full, e)
    | inr m' ↦ inr m'
  ]
]

match_sound :
    (index : Index) (seen : List Bytes) (rs : List SubmitResult) (rows : List DlqRow) (d : DlqRow)
    → match_results index seen rs ≡ ok rows
    → Memᴰ d rows
    → (r : SubmitResult) × (p : ParsedInsert) × Memᴰ r rs
      × (is_empty r.error ≡ false)
      × (find_insert r.correlation_id index ≡ some p)
      × (d ≡ dlq_row p r)
unfolding match_results
match_sound index seen [] [] d h m = elim m [ ]
match_sound index seen [] (x ∷ rows) d h m = absurd (ground arith)
match_sound index seen (r ∷ rs) rows d h m =
    let (new, (p, rest, f, later, is)) = match_step index seen r rs rows h in
    elim (add_row_inv p r d rest (subst (Memᴰ d) is m)) [
      | inl (bad, e) ↦ (r, p, Memᴰ.head refl, bad, f, e)
      | inr m' ↦
          let (r', p', mr, bad, f', e) = match_sound index _ rs rest d later m' in
          (r', p', Memᴰ.tail mr, bad, f', e)
    ]

-- The dead letter rows of a successful match are exactly those of the rejected jobs: a row is among
-- them just when a result with an error names the id of a submitted row, and the row is made of the two.
pub map_results_rejections :
    (inserts : List ParsedInsert) (results : List SubmitResult) (rows : List DlqRow)
    → map_results inserts results ≡ ok rows
    → (d : DlqRow) → Memᴰ d rows ↔ ((j : Rejection inserts results) × (d ≡ dlq_row j.row j.result))
map_results_rejections inserts results rows h d =
    let (same, (index, built, matched)) = map_results_parts inserts results rows h in
    (
      λ m.
          let (r, p, mr, bad, f, e) = match_sound index [] results rows d matched m in
          elim (indexed [] index inserts r.correlation_id p built f) [
            | inl (mp, same) ↦ (
              record {
                row = p;
                result = r;
                submitted = mp;
                returned = mr;
                same_id = same;
                rejected = bad;
              },
              e,
            )
            | inr none_yet ↦ absurd (unfold find_insert in ground arith)
          ],
      λ (j, e). rw e (
          match_complete index j.row j.result
            (rw (← j.same_id) (find_insert_submitted j.row [] built j.submitted)) j.rejected [] rows
            matched j.returned),
    )
