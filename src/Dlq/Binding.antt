-- ===== src/Dlq/Binding.antt =====
-- The placeholders of the INSERT statement name the arguments of their rows.
use jack_courier_driver_pglg.Prelude.{
  ℕ, zero, suc, ◌+◌, ◌*◌, List, [], ◌∷◌, ◌++◌, ◌≡◌, refl, ap, Option, none, some, map, length,
  arith, append_assoc, length-append,
}
use mathlib.Core.Path.{ap₂}
use jack_courier_driver_pglg.Row.{DlqRow}
use jack_courier_driver_pglg.Dlq.{
  Arg, Statement, columns, row_args, placeholder_group, dlq_statement_from, dlq_statement,
}

abbrev get_elem? {ℓ} : {A : Type ℓ} → List A → ℕ → Option A
get_elem? [] i = none
get_elem? (x ∷ xs) zero = some x
get_elem? (x ∷ xs) (suc i) = get_elem? xs i

-- $n is the n-th argument, from 1.
abbrev bound : List Arg → ℕ → Option Arg
bound args zero = none
bound args (suc n) = get_elem? args n

-- The rows that PostgreSQL reads: each placeholder replaced by its argument.
abbrev pub bound_rows : Statement → List (List (Option Arg))
bound_rows s = map (map (bound s.args)) s.placeholders

get_elem?-append {ℓ} :
    {A : Type ℓ} (xs ys : List A) (k : ℕ) → get_elem? (xs ++ ys) (length xs + k) ≡ get_elem? ys k
get_elem?-append [] ys k = ap (get_elem? ys) (omega arith)
get_elem?-append (x ∷ xs) ys k =
    let e : suc (length xs) + k ≡ suc (length xs + k) = omega arith in
    rw e (get_elem?-append xs ys k)

bound-append :
    (xs ys : List Arg) (n k : ℕ) → n ≡ suc (length xs + k) → bound (xs ++ ys) n ≡ get_elem? ys k
bound-append xs ys n k e = rw e (get_elem?-append xs ys k)

bound_group :
    (pre rest : List Arg) (r : DlqRow) (i : ℕ)
    → length pre ≡ i * columns
    → map (bound (pre ++ (row_args r ++ rest))) (placeholder_group (i * columns + 1))
      ≡ map some (row_args r)
unfolding row_args
bound_group pre rest r i e =
    let args = row_args r ++ rest in
    let at = λ (k n : ℕ) (h : n ≡ suc (length pre + k)). bound-append pre args n k h in
    rw (
      at 0 (i * columns + 1) (omega arith),
      at 1 (i * columns + 1 + 1) (omega arith),
      at 2 (i * columns + 1 + 2) (omega arith),
      at 3 (i * columns + 1 + 3) (omega arith),
      at 4 (i * columns + 1 + 4) (omega arith),
      at 5 (i * columns + 1 + 5) (omega arith),
      at 6 (i * columns + 1 + 6) (omega arith),
      at 7 (i * columns + 1 + 7) (omega arith),
      at 8 (i * columns + 1 + 8) (omega arith),
      at 9 (i * columns + 1 + 9) (omega arith),
    )

length-row_args : (r : DlqRow) → length (row_args r) ≡ columns
unfolding row_args
length-row_args r = refl

length-args :
    (i : ℕ) (rs : List DlqRow) → length (dlq_statement_from i rs).args ≡ columns * length rs
unfolding dlq_statement_from
length-args i [] = refl
length-args i (r ∷ rs) = omega (
  arith,
  length-append (row_args r) (dlq_statement_from (suc i) rs).args,
  length-row_args r,
  length-args (suc i) rs,
)

bound_from :
    (pre : List Arg) (i : ℕ) (rs : List DlqRow)
    → length pre ≡ i * columns
    → map
        (map (bound (pre ++ (dlq_statement_from i rs).args)))
        (dlq_statement_from i rs).placeholders
      ≡ map (λ r. map some (row_args r)) rs
unfolding dlq_statement_from
bound_from pre i [] e = refl
bound_from pre i (r ∷ rs) e =
    let rest = (dlq_statement_from (suc i) rs).args in
    let ih =
      bound_from (pre ++ row_args r) (suc i) rs
        (omega (arith, length-append pre (row_args r), length-row_args r)) in
    ap₂ ◌∷◌ (bound_group pre rest r i e) (rw append_assoc at ih)

-- For any rows, the placeholders of the statement are bound to exactly the ten values of each row,
-- in the order of the rows; no statement is made for no rows.
pub bound_rows-dlq_statement :
    (r : DlqRow) (rs : List DlqRow)
    → (dlq_statement [] ≡ none)
      × ((s : Statement) × (dlq_statement (r ∷ rs) ≡ some s)
          × (bound_rows s ≡ map (λ q. map some (row_args q)) (r ∷ rs))
          × (length s.args ≡ columns * length (r ∷ rs)))
unfolding dlq_statement
bound_rows-dlq_statement r rs =
    (refl, (_, refl, bound_from [] 0 (r ∷ rs) (omega arith), length-args 0 (r ∷ rs)))
