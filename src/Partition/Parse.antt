-- ===== src/Partition/Parse.antt =====
-- parsePartitionLower of partition.go, with what it uses of time.Parse: the layout "20060102_1504". A
-- name may give the year 0, which is before the zero time, so that a parsed time is the number of
-- nanoseconds since January 1 of the year 0.
pub mod Days
pub mod RoundTrip
use jack_courier_driver_pglg.Prelude.{
  ℕ, zero, suc, ◌+◌, ◌-◌, ◌*◌, ◌/◌, List, [], ◌∷◌, ◌++◌, Bool, true, false, ◌&&◌, Option, none,
  some, Bytes, codes, ltb, leb, ◌==◌, if◌then◌else◌,
}
use jack_courier_driver_pglg.Strconv.{is_digit}
use jack_courier_driver_pglg.Row.{Time}
use jack_courier_driver_pglg.Partition.Calendar.{Date, minute, day_length, is_leap, month_lengths}

-- the zero time, January 1 of the year 1, as a parsed time
abbrev pub zero_time : Time
zero_time = 366 * day_length

infixl 5 ◌>>=◌
abbrev ◌>>=◌ {ℓ κ} : {A : Type ℓ} {B : Type κ} → Option A → (A → Option B) → Option B
none >>= f = none
some a >>= f = f a

-- strings.HasPrefix, and the rest of the text
unfoldable pub after_prefix : Bytes → Bytes → Option Bytes
after_prefix [] s = some s
after_prefix (a ∷ p) [] = none
after_prefix (a ∷ p) (b ∷ s) = let rest = after_prefix p s in if a == b then rest else none

-- The year: four digits.
unfoldable pub four_digits : Bytes → Option (ℕ × Bytes)
four_digits (a ∷ b ∷ c ∷ d ∷ s) =
    if is_digit a && (is_digit b && (is_digit c && is_digit d))
    then some ((a - b'0') * 1000 + (b - b'0') * 100 + (c - b'0') * 10 + (d - b'0'), s)
    else none
four_digits _ = none

-- getnum: two digits, or one where the width is not fixed.
unfoldable pub getnum : Bool → Bytes → Option (ℕ × Bytes)
getnum fixed [] = none
getnum fixed (a ∷ []) = if is_digit a then if fixed then none else some (a - b'0', []) else none
getnum fixed (a ∷ b ∷ s) =
    if is_digit a
    then if is_digit b
      then some ((a - b'0') * 10 + (b - b'0'), s)
      else if fixed
      then none
      else some (a - b'0', b ∷ s)
    else none

-- The tests of a range follow each number.
unfoldable pub between : ℕ → ℕ → ℕ × Bytes → Option (ℕ × Bytes)
between lo hi (n, s) = if leb lo n && leb n hi then some (n, s) else none

-- "extra text"
unfoldable pub at_end : ℕ × Bytes → Option ℕ
at_end (n, []) = some n
at_end (n, b ∷ s) = none

unfoldable pub days_in : List ℕ → ℕ → ℕ
days_in [] m = 0
days_in (n ∷ ns) m = let rest = days_in ns (m - 1) in if m == 1 then n else rest

unfoldable pub days_before_month : List ℕ → ℕ → ℕ
days_before_month [] m = 0
days_before_month (n ∷ ns) m =
    let rest = n + days_before_month ns (m - 1) in if m == 1 then 0 else rest

-- The days from the year 0 up to a year.
unfoldable pub days_before_year : ℕ → ℕ
days_before_year y = y * 365 + (y + 3) / 4 + (y + 399) / 400 - (y + 99) / 100

unfoldable pub days_of : Date → ℕ
days_of d =
    days_before_year d.year
    + days_before_month (month_lengths (is_leap d.year)) d.month
    + (d.day - 1)

-- "day out of range"
unfoldable pub check_date : Date → Option Date
check_date d =
    if leb 1 d.day && leb d.day (days_in (month_lengths (is_leap d.year)) d.month)
    then some d
    else none

unfoldable pub parse_minute : Bytes → Option Time
parse_minute s = do
  (year, s1) ← four_digits s
  (month, s2) ← getnum true s1 >>= between 1 12
  (day, s3) ← getnum true s2
  s4 ← after_prefix (codes "_") s3
  (hour, s5) ← getnum false s4 >>= between 0 23
  (min, s6) ← getnum true s5 >>= between 0 59
  m ← at_end (min, s6)
  d ← check_date (record { year = year; month = month; day = day })
  some (days_of d * day_length + (hour * 60 + m) * minute)

unfoldable pub parse_partition_lower : Bytes → Bytes → Option Time
parse_partition_lower table_prefix name =
    after_prefix (table_prefix ++ codes "_jobs_") name >>= parse_minute
