-- ===== src/Partition/Parse/RoundTrip.antt =====
-- A partition name is read back.
use jack_courier_driver_pglg.Prelude.{
  ℕ, zero, suc, ◌+◌, ◌-◌, ◌*◌, ◌/◌, ◌%◌, ◌≤◌, ◌<◌, ◌≡◌, refl, ap, ◌∙◌, [], ◌∷◌, ◌++◌, some, Bool,
  true, false, Bytes, codes, ltb, arith, append_assoc, append-nil, Bool-cases, inl, inr, length,
  length-append,
}
use jack_courier_driver_pglg.Strconv.{is_digit, format_uint}
use jack_courier_driver_pglg.Strconv.Digits.{format_uint_last, format_uint_more}
use jack_courier_driver_pglg.Row.{Time}
use jack_courier_driver_pglg.Partition.{partition_name}
use jack_courier_driver_pglg.Partition.Calendar.{
  Date, date_of, format_minute, pad, zeros, day_length, minute,
}
use jack_courier_driver_pglg.Partition.Parse.{
  zero_time, after_prefix, four_digits, getnum, between, at_end, check_date, days_of, parse_minute,
  parse_partition_lower,
}
use jack_courier_driver_pglg.Partition.Parse.Days.{date_of_lem, year_10000, year-lt-10000}

after_prefix-append : (p s : Bytes) → after_prefix p (p ++ s) ≡ some s
unfolding after_prefix
after_prefix-append [] s = refl
after_prefix-append (a ∷ p) s = ground (arith, after_prefix-append p s)

zeros_last : (w : ℕ) → zeros (suc w) ≡ zeros w ++ b'0' ∷ []
zeros_last zero = refl
zeros_last (suc w) = ap (◌∷◌ b'0') (zeros_last w)

pad_1 : (n : ℕ) → n < 10 → pad 1 n ≡ (b'0' + n) ∷ []
unfolding pad
pad_1 n h = rw (format_uint_last n h) refl

-- The last digit of a padded number.
pad_more : (w n : ℕ) → pad (suc (suc w)) n ≡ pad (suc w) (n / 10) ++ (b'0' + n % 10) ∷ []
unfolding pad
pad_more w n = elim (Bool-cases (ltb n 10)) [
  | inl small ↦
      let e : n / 10 ≡ 0 = ground arith in
      let f : n % 10 ≡ n = ground arith in
      rw (e, f, format_uint_last n (ground arith), format_uint_last 0 (omega arith))
        let a : suc (suc w) - 1 ≡ suc w = omega arith in
          let b : suc w - 1 ≡ w = omega arith in
          rw (a, b) (ap (λ (t : Bytes). t ++ (b'0' + n) ∷ []) (zeros_last w) ∙ rw append_assoc refl)
  | inr big ↦
      let e = format_uint_more n (ground arith) in
      rw (e, length-append (format_uint (n / 10)) ((b'0' + n % 10) ∷ []))
        let f : suc (suc w) - (length (format_uint (n / 10)) + 1)
              ≡ suc w - length (format_uint (n / 10)) =
            omega arith in
          rw (f, append_assoc) refl
]

pad_2 : (n : ℕ) → n < 100 → pad 2 n ≡ (b'0' + n / 10) ∷ (b'0' + n % 10) ∷ []
pad_2 n h = rw (pad_more 0 n, pad_1 (n / 10) (omega arith)) refl

pad_4 :
    (n : ℕ)
    → n < 10000
    → pad 4 n
      ≡ (b'0' + n / 10 / 10 / 10)
        ∷ (b'0' + n / 10 / 10 % 10)
        ∷ (b'0' + n / 10 % 10)
        ∷ (b'0' + n % 10)
        ∷ []
pad_4 n h =
    rw
      (
        pad_more 2 n,
        pad_more 1 (n / 10),
        pad_more 0 (n / 10 / 10),
        pad_1 (n / 10 / 10 / 10) (omega arith),
      )
      refl

getnum-pad_2 :
    (fixed : Bool) (n : ℕ) (s : Bytes) → n < 100 → getnum fixed (pad 2 n ++ s) ≡ some (n, s)
unfolding getnum is_digit
getnum-pad_2 fixed n s h = rw (pad_2 n h) (ground arith)

four_digits-pad_4 : (n : ℕ) (s : Bytes) → n < 10000 → four_digits (pad 4 n ++ s) ≡ some (n, s)
unfolding four_digits is_digit
four_digits-pad_4 n s h = rw (pad_4 n h) (ground arith)

between_lem : (lo hi n : ℕ) (s : Bytes) → lo ≤ n → n ≤ hi → between lo hi (n, s) ≡ some (n, s)
unfolding between
between_lem lo hi n s h k = ground arith

-- The text of a valid date and a time of the day.
parse_minute-pad :
    (d : Date) (hour min : ℕ)
    → d.year < 10000
    → 1 ≤ d.month
    → d.month ≤ 12
    → d.day ≤ 31
    → check_date d ≡ some d
    → hour < 24
    → min < 60
    → parse_minute
        (pad 4 d.year ++ pad 2 d.month ++ pad 2 d.day ++ codes "_" ++ pad 2 hour ++ pad 2 min)
      ≡ some (days_of d * day_length + (hour * 60 + min) * minute)
unfolding parse_minute at_end after_prefix
parse_minute-pad d hour min a b c e valid f g =
    let s5 = pad 2 min ++ [] in
    let s4 = pad 2 hour ++ s5 in
    let s3 = codes "_" ++ s4 in
    let s2 = pad 2 d.day ++ s3 in
    let s1 = pad 2 d.month ++ s2 in
    let nest : pad 4 d.year ++ pad 2 d.month ++ pad 2 d.day ++ codes "_" ++ pad 2 hour ++ pad 2 min
        ≡ pad 4 d.year ++ s1 =
      simp (append_assoc, append-nil) in
    rw
      (
        nest,
        four_digits-pad_4 d.year s1 a,
        getnum-pad_2 true d.month s2 (omega arith),
        between_lem 1 12 d.month s2 b c,
        getnum-pad_2 true d.day s3 (omega arith),
        getnum-pad_2 false hour s5 (omega arith),
        between_lem 0 23 hour s5 (omega arith) (omega arith),
        getnum-pad_2 true min [] (omega arith),
        between_lem 0 59 min [] (omega arith) (omega arith),
        valid,
      )
      refl

-- The minute that a name gives, for a year of at most four digits.
parse_minute-format_minute :
    (t : Time)
    → (date_of (t / day_length)).year < 10000
    → parse_minute (format_minute t) ≡ some (t - t % minute + zero_time)
unfolding format_minute
parse_minute-format_minute t h =
    let d = date_of (t / day_length) in
    let m = t % day_length / minute in
    let (from, to, most, count, valid) = date_of_lem (t / day_length) in
    parse_minute-pad d (m / 60) (m % 60) h from to most valid (omega arith) (omega arith)
    ∙ ap some (rw count (omega arith))

-- The name of a partition gives its lower bound back, for a bound at a full minute before the year
-- 10000.
pub parse_partition_lower-partition_name :
    (table_prefix : Bytes) (t : Time)
    → t < year_10000
    → t % minute ≡ 0
    → parse_partition_lower table_prefix (partition_name table_prefix t) ≡ some (t + zero_time)
unfolding parse_partition_lower partition_name
parse_partition_lower-partition_name table_prefix t h e =
    rw (after_prefix-append (table_prefix ++ codes "_jobs_") (format_minute t))
      (parse_minute-format_minute t (year-lt-10000 t h) ∙ ap some (omega (arith, e)))
