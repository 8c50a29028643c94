-- ===== src/Strconv/Digits.antt =====
-- The decimal form of a number, digit by digit.
use jack_courier_driver_pglg.Prelude.{
  false, ℕ, zero, suc, ◌+◌, ◌/◌, ◌%◌, ◌≤◌, ◌<◌, [], ◌∷◌, ◌++◌, ◌≡◌, refl, ◌∙◌, Bytes, ltb, arith,
  inl, inr, Bool-cases, append_assoc,
}
use jack_courier_driver_pglg.Strconv.{digits, format_uint}

digits-append : (fuel n : ℕ) (out : Bytes) → n < fuel → digits fuel n out ≡ digits fuel n [] ++ out
unfolding digits
digits-append zero n out h = absurd (omega arith)
digits-append (suc fuel) n out h = elim (Bool-cases (ltb n 10)) [
  | inl small ↦ rw small refl
  | inr big ↦
      rw big
        let d = b'0' + n % 10 in
          digits-append fuel (n / 10) (d ∷ out) (ground arith)
          ∙ rw (digits-append fuel (n / 10) (d ∷ []) (ground arith)) (rw append_assoc refl)
]

-- More fuel than the number gives the same digits.
digits_fuel :
    (fuel more n : ℕ) (out : Bytes) → n < fuel → n < more → digits fuel n out ≡ digits more n out
unfolding digits
digits_fuel zero more n out h k = absurd (omega arith)
digits_fuel (suc fuel) zero n out h k = absurd (omega arith)
digits_fuel (suc fuel) (suc more) n out h k = elim (Bool-cases (ltb n 10)) [
  | inl small ↦ rw small refl
  | inr big ↦ rw big (digits_fuel fuel more (n / 10) _ (ground arith) (ground arith))
]

pub format_uint_last : (n : ℕ) → n < 10 → format_uint n ≡ (b'0' + n) ∷ []
unfolding format_uint digits
format_uint_last n h = ground arith

pub format_uint_more :
    (n : ℕ) → 10 ≤ n → format_uint n ≡ format_uint (n / 10) ++ (b'0' + n % 10) ∷ []
unfolding format_uint digits
format_uint_more n h =
    let big : ltb n 10 ≡ false = ground arith in
    rw big (
      digits_fuel n (suc (n / 10)) (n / 10) _ (omega arith) (omega arith)
      ∙ digits-append (suc (n / 10)) (n / 10) _ (omega arith))
