-- ===== src/Partition/Calendar.antt =====
-- The layout "20060102_1504" of package time, for a time in UTC.
use jack_courier_driver_pglg.Prelude.{
  ℕ, zero, suc, ◌+◌, ◌-◌, ◌*◌, ◌/◌, ◌%◌, List, [], ◌∷◌, ◌++◌, Bool, ◌&&◌, ◌||◌, not, Bytes, codes,
  length, min, ltb, ◌==◌, if◌then◌else◌,
}
use jack_courier_driver_pglg.Strconv.{format_uint}
use jack_courier_driver_pglg.Row.{Time}

-- nanoseconds
abbrev pub minute : ℕ
minute = 60 * 1000000000

abbrev pub day_length : ℕ
day_length = 24 * 60 * minute

pub record Date : Type 0 where
  pub year : ℕ
  pub month : ℕ
  pub day : ℕ

abbrev pub is_leap : ℕ → Bool
is_leap y = (y % 4 == 0) && (not (y % 100 == 0) || (y % 400 == 0))

abbrev pub month_lengths : Bool → List ℕ
month_lengths leap =
    31 ∷ (if leap then 29 else 28) ∷ 31 ∷ 30 ∷ 31 ∷ 30 ∷ 31 ∷ 31 ∷ 30 ∷ 31 ∷ 30 ∷ 31 ∷ []

-- The month, from `m`, and the day that a day of the year falls on, both from 1.
unfoldable pub month_day : List ℕ → ℕ → ℕ → ℕ × ℕ
month_day [] m d = (m, suc d)
month_day (n ∷ ns) m d =
    let rest = month_day ns (suc m) (d - n) in if ltb d n then (m, suc d) else rest

-- The year, and the day of it, of a number of days since January 1, year 1.
unfoldable pub year_day : ℕ → ℕ × ℕ
year_day n =
    let d400 = n % 146097 in
    let c = min 3 (d400 / 36524) in
    let d100 = d400 - c * 36524 in
    let d4 = d100 % 1461 in
    let y = min 3 (d4 / 365) in (n / 146097 * 400 + c * 100 + d100 / 1461 * 4 + y + 1, d4 - y * 365)

unfoldable pub date_of : ℕ → Date
date_of n =
    let (y, d) = year_day n in
    let (m, k) = month_day (month_lengths (is_leap y)) 1 d in
    record { year = y; month = m; day = k }

abbrev pub zeros : ℕ → Bytes
zeros zero = []
zeros (suc n) = b'0' ∷ zeros n

-- appendInt of package time
unfoldable pub pad : ℕ → ℕ → Bytes
pad width n = zeros (width - length (format_uint n)) ++ format_uint n

unfoldable pub format_minute : Time → Bytes
format_minute t =
    let d = date_of (t / day_length) in
    let m = t % day_length / minute in
    pad 4 d.year ++ pad 2 d.month ++ pad 2 d.day ++ codes "_" ++ pad 2 (m / 60) ++ pad 2 (m % 60)
