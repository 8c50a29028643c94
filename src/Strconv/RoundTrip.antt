-- ===== src/Strconv/RoundTrip.antt =====
-- Printing an int64 and reading it back.
use jack_courier_driver_pglg.Prelude.{
  ℕ, zero, suc, ◌+◌, ◌/◌, ◌%◌, ◌≤◌, ◌<◌, [], ◌∷◌, ◌≡◌, refl, sym, ap, ◌∙◌, ◌≢◌, Bool, true, Option,
  none, some, false, Bytes, if◌then◌else◌, ◌==◌, ltb, arith, inl, inr, Bool-cases, ℤ, pos, negsuc,
  InInt64,
}
use jack_courier_driver_pglg.Strconv.{
  digits, format_uint, format_int, scan, parse_uint, signed, parse_int,
}

scan-digits : (fuel n : ℕ) (out : Bytes) → n < fuel → scan (digits fuel n out) 0 ≡ scan out n
unfolding scan digits
scan-digits zero n out h = absurd (omega arith)
scan-digits (suc fuel) n out h = elim (Bool-cases (ltb n 10)) [
  | inl small ↦ rw small (ground arith)
  | inr big ↦ rw big (ground (arith, scan-digits fuel (n / 10) ((b'0' + n % 10) ∷ out)))
]

-- The first byte that `digits` writes is a digit.
digits_head :
    (fuel n : ℕ) (out : Bytes)
    → n < fuel
    → (c : ℕ) × (s : Bytes) × (digits fuel n out ≡ c ∷ s) × (b'0' ≤ c) × (c ≤ b'9')
unfolding digits
digits_head zero n out h = absurd (omega arith)
digits_head (suc fuel) n out h = elim (Bool-cases (ltb n 10)) [
  | inl small ↦ rw small (b'0' + n, out, refl, omega arith, ground arith)
  | inr big ↦ rw big (digits_head fuel (n / 10) ((b'0' + n % 10) ∷ out) (ground arith))
]

pub parse_uint-format_uint : (n : ℕ) → parse_uint (format_uint n) ≡ some n
unfolding parse_uint format_uint
parse_uint-format_uint n =
    let (c, s, e, lo, hi) = digits_head (suc n) n [] (omega arith) in
    rw (e, parse_uint)
      (ap (λ (t : Bytes). scan t 0) (sym e) ∙ unfold scan in scan-digits (suc n) n [] (omega arith))

format_uint_head :
    (n : ℕ) → (c : ℕ) × (s : Bytes) × (format_uint n ≡ c ∷ s) × (b'0' ≤ c) × (c ≤ b'9')
unfolding format_uint
format_uint_head n = digits_head (suc n) n [] (omega arith)

parse_int_unsigned :
    (t s : Bytes) (c : ℕ) → t ≡ c ∷ s → b'0' ≤ c → parse_int t ≡ signed false (parse_uint t)
unfolding parse_int
parse_int_unsigned t s c e h = rw e (ground arith)

-- Every int64 is read back from its decimal form.
pub parse_int-format_int : (i : ℤ) → InInt64 i → parse_int (format_int i) ≡ some i
unfolding format_int
parse_int-format_int (pos n) h =
    let (c, s, e, lo, hi) = format_uint_head n in
    parse_int_unsigned (format_uint n) s c e lo
    ∙ rw parse_uint-format_uint (unfold signed in ground arith)
parse_int-format_int (negsuc n) h =
    unfold parse_int in rw parse_uint-format_uint (unfold signed in ground arith)

magnitude : (m n : ℕ) → format_uint m ≡ format_uint n → m ≡ n
magnitude m n e = cc (parse_uint-format_uint m, parse_uint-format_uint n, ap parse_uint e)

minus_no_digit : (m n : ℕ) (s : Bytes) → format_uint m ≢ b'-' ∷ s
minus_no_digit m n s e = let (c, t, e', lo, hi) = format_uint_head m in ground arith

-- Different numbers have different decimal forms.
format_int-injective : (i j : ℤ) → format_int i ≡ format_int j → i ≡ j
unfolding format_int
format_int-injective (pos m) (pos n) e = ap pos (magnitude m n e)
format_int-injective (pos m) (negsuc n) e = absurd (minus_no_digit m n _ e)
format_int-injective (negsuc m) (pos n) e = absurd (minus_no_digit n m _ (sym e))
format_int-injective (negsuc m) (negsuc n) e =
    ground (arith, magnitude (suc m) (suc n) (ground arith))

signed-InInt64 : (minus : Bool) (o : Option ℕ) (i : ℤ) → signed minus o ≡ some i → InInt64 i
unfolding signed
signed-InInt64 minus none i h = cc
signed-InInt64 false (some n) i h = ground arith
signed-InInt64 true (some zero) i h = ground arith
signed-InInt64 true (some (suc n)) i h = ground arith

-- ParseInt returns only integers of an int64.
pub parse_int-InInt64 : (s : Bytes) (i : ℤ) → parse_int s ≡ some i → InInt64 i
unfolding parse_int
parse_int-InInt64 [] i h = cc
parse_int-InInt64 (c ∷ s) i h = go (c == b'-') (c == b'+') h
  where
    go :
        (a b : Bool)
        → (if a
            then signed true (parse_uint s)
            else if b
            then signed false (parse_uint s)
            else signed false (parse_uint (c ∷ s)))
          ≡ some i
        → InInt64 i
    go true b e = signed-InInt64 true (parse_uint s) i e
    go false true e = signed-InInt64 false (parse_uint s) i e
    go false false e = signed-InInt64 false (parse_uint (c ∷ s)) i e
