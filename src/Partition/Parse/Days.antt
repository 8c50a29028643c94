-- ===== src/Partition/Parse/Days.antt =====
-- The days of a date count back to the day it was made from.
use jack_courier_driver_pglg.Prelude.{
  ℕ, suc, ◌+◌, ◌-◌, ◌*◌, ◌/◌, ◌%◌, ◌≤◌, ◌<◌, ◌≡◌, refl, List, [], ◌∷◌, Bool, true, false, some, ◌⊎◌,
  inl, inr, Bool-cases, length, min, ltb, arith,
}
use jack_courier_driver_pglg.Row.{Time}
use jack_courier_driver_pglg.Partition.Calendar.{
  day_length, date_of, year_day, month_day, is_leap, month_lengths,
}
use jack_courier_driver_pglg.Partition.Parse.{
  days_in, days_before_month, days_before_year, days_of, check_date,
}

abbrev total : List ℕ → ℕ
total [] = 0
total (n ∷ ns) = n + total ns

module _ (n : ℕ) (ns : List ℕ) where
  months_later : (j : ℕ) → 1 ≤ j → days_before_month (n ∷ ns) (j + 1) ≡ n + days_before_month ns j
  unfolding days_before_month
  months_later j h = let e : j + 1 - 1 ≡ j = omega arith in rw e (ground arith)

  days_in_later : (j : ℕ) → 1 ≤ j → days_in (n ∷ ns) (j + 1) ≡ days_in ns j
  unfolding days_in
  days_in_later j h = let e : j + 1 - 1 ≡ j = omega arith in rw e (ground arith)

-- The month, counted from `m`, and the day that `month_day` gives stand for the day `d` of the year.
Counts : List ℕ → ℕ → ℕ → ℕ × ℕ → Type 0
Counts ns m d (k, e) =
    (j : ℕ) × (k + 1 ≡ m + j)
    × (1 ≤ j)
    × (j ≤ length ns)
    × (1 ≤ e)
    × (days_before_month ns j + (e - 1) ≡ d)
    × (e ≤ days_in ns j)

month_day-Counts : (ns : List ℕ) (m d : ℕ) → d < total ns → Counts ns m d (month_day ns m d)
unfolding month_day Counts
month_day-Counts [] m d h = absurd (omega arith)
month_day-Counts (n ∷ ns) m d h = elim (Bool-cases (ltb d n)) [
  | inl here ↦
      rw here
        unfold days_before_month days_in in
          (1, omega arith, omega arith, omega arith, omega arith, omega arith, ground arith)
  | inr later ↦
      rw later
        let (j, a, b, c, f, g, i) = month_day-Counts ns (suc m) (d - n) (ground arith) in
          (
            j + 1,
            omega arith,
            omega arith,
            omega arith,
            f,
            rw (months_later n ns j b) (ground arith),
            rw (days_in_later n ns j b) i,
          )
]

-- The days before a year, by its place in the cycles of 400, 100 and 4 years.
days_before_year_lem :
    (q c e y : ℕ)
    → c ≤ 3
    → e ≤ 24
    → y ≤ 3
    → days_before_year (q * 400 + c * 100 + e * 4 + y + 1)
      ≡ q * 146097 + c * 36524 + e * 1461 + y * 365 + 366
unfolding days_before_year
days_before_year_lem q c e y hc he hy = omega arith

year_day_lem : (n : ℕ) → let (y, d) = year_day n in (1 ≤ y) × (days_before_year y + d ≡ n + 366)
unfolding year_day
year_day_lem n =
    let d400 = n % 146097 in
    let c = min 3 (d400 / 36524) in
    let d100 = d400 - c * 36524 in
    let e = d100 / 1461 in
    let y = min 3 (d100 % 1461 / 365) in
    (
      omega arith,
      rw (days_before_year_lem (n / 146097) c e y (omega arith) (omega arith) (omega arith))
          (omega arith),
    )

-- A day 365 is the last of a leap year.
year_day_bound : (n : ℕ) → let (y, d) = year_day n in d < total (month_lengths (is_leap y))
unfolding year_day
year_day_bound n =
    let d400 = n % 146097 in
    let c = min 3 (d400 / 36524) in
    let d100 = d400 - c * 36524 in
    let e = d100 / 1461 in
    let y = min 3 (d100 % 1461 / 365) in
    last (n / 146097) c e y (d100 % 1461 - y * 365) (omega arith) (omega arith) (omega arith)
  where
    last :
        (q c e y d : ℕ)
        → c ≤ 3
        → e ≤ 24
        → (d < 365) ⊎ ((d ≡ 365) × (y ≡ 3) × ((e < 24) ⊎ (c ≡ 3)))
        → d < total (month_lengths (is_leap (q * 400 + c * 100 + e * 4 + y + 1)))
    last q c e y d hc he h = ground arith

AtMost31 : List ℕ → Type 0
AtMost31 [] = Unit
AtMost31 (n ∷ ns) = (n ≤ 31) × AtMost31 ns

days_in_most : (ns : List ℕ) (j : ℕ) → AtMost31 ns → days_in ns j ≤ 31
unfolding days_in AtMost31
days_in_most [] j h = omega arith
days_in_most (n ∷ ns) j h = ground (arith, days_in_most ns (j - 1) h.1)

month_lengths_long : (leap : Bool) → length (month_lengths leap) ≡ 12
month_lengths_long leap = refl

month_lengths-AtMost31 : (leap : Bool) → AtMost31 (month_lengths leap)
unfolding AtMost31
month_lengths-AtMost31 true = ground arith
month_lengths-AtMost31 false = ground arith

-- The date of a day is valid and stands for it; the zero time is 366 days after the year 0.
pub date_of_lem :
    (n : ℕ)
    → let d = date_of n in
      (1 ≤ d.month)
      × (d.month ≤ 12)
      × (d.day ≤ 31)
      × (days_of d ≡ n + 366)
      × (check_date d ≡ some d)
unfolding date_of days_of check_date Counts
date_of_lem n =
    let (y, d) = year_day n in
    let (later, days) = year_day_lem n in
    let lengths = month_lengths (is_leap y) in
    let (j, a, b, c, f, g, i) = month_day-Counts lengths 1 d (year_day_bound n) in
    let e : (month_day lengths 1 d).0 ≡ j = omega (arith, a) in
    rw e (
      b,
      omega (arith, c, month_lengths_long (is_leap y)),
      omega (arith, i, days_in_most lengths j (month_lengths-AtMost31 (is_leap y))),
      omega (arith, g, days),
      ground (arith, f, i),
    )

-- The first nanosecond of the year 10000.
abbrev pub year_10000 : Time
year_10000 = 3652059 * day_length

pub year-lt-10000 : (t : Time) → t < year_10000 → (date_of (t / day_length)).year < 10000
unfolding date_of year_day
year-lt-10000 t h = omega arith
