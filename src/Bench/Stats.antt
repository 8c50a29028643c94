-- ===== src/Bench/Stats.antt =====
-- cmd/pglg-bench/stats.go, over int64 samples. A percentile is given as a whole number, and its rank is
-- the exact quotient rounded up; humanizeBytes rounds the exact quotient as %.1f rounds.
use jack_courier_driver_pglg.Prelude.{
  ℕ, zero, suc, ◌+◌, ◌-◌, ◌*◌, ◌/◌, ◌%◌, ◌^◌, List, [], ◌∷◌, ◌++◌, Bool, true, false, ◌&&◌, ◌||◌,
  not, Bytes, codes, length, ltb, leb, ◌==◌, ℤ, pos, negsuc, if◌then◌else◌,
}
use jack_courier_driver_pglg.Strconv.{format_uint, format_int}

abbrev pub lt_int : ℤ → ℤ → Bool
lt_int (pos a) (pos b) = ltb a b
lt_int (pos a) (negsuc b) = false
lt_int (negsuc a) (pos b) = true
lt_int (negsuc a) (negsuc b) = ltb b a

-- sort.Slice by <
unfoldable pub insert_sample : ℤ → List ℤ → List ℤ
insert_sample x [] = x ∷ []
insert_sample x (y ∷ ys) = if lt_int y x then y ∷ insert_sample x ys else x ∷ y ∷ ys

unfoldable pub sort_samples : List ℤ → List ℤ
sort_samples [] = []
sort_samples (x ∷ xs) = insert_sample x (sort_samples xs)

-- The element at an index below the length; the last one at any other.
unfoldable pub sample_at : ℤ → ℕ → List ℤ → ℤ
sample_at last n [] = last
sample_at last zero (x ∷ xs) = x
sample_at last (suc n) (x ∷ xs) = sample_at x n xs

unfoldable pub percentile : List ℤ → ℕ → ℤ
percentile samples p =
    sample_at (pos 0) ((p * length samples + 99) / 100 - 1) (sort_samples samples)

unfoldable pub max_from : ℤ → List ℤ → ℤ
max_from m [] = m
max_from m (s ∷ ss) = max_from (if lt_int m s then s else m) ss

unfoldable pub max_int64 : List ℤ → ℤ
max_int64 samples = max_from (pos 0) samples

-- 2 * n on an int64
unfoldable pub twice : ℤ → ℤ
twice (pos n) = if ltb (2 * n) (2 ^ 63) then pos (2 * n) else negsuc (2 ^ 64 - 2 * n - 1)
twice (negsuc n) = if leb (2 * suc n) (2 ^ 63) then negsuc (2 * n + 1) else pos (2 ^ 64 - 2 * suc n)

abbrev is_zero_int : ℤ → Bool
is_zero_int (pos n) = n == 0
is_zero_int (negsuc n) = false

unfoldable pub last_sample : ℤ → List ℤ → ℤ
last_sample s [] = s
last_sample s (t ∷ ts) = last_sample t ts

unfoldable pub bounded : List ℤ → Bool
bounded [] = true
bounded (s ∷ []) = true
bounded (s ∷ t ∷ ts) =
    let med = percentile (s ∷ t ∷ ts) 50 in
    let final = last_sample s (t ∷ ts) in
    if is_zero_int med then is_zero_int final else not (lt_int (twice med) final)

-- The power of the unit: the loop divides by 1024 while as much is left, at most five times.
unfoldable pub unit_power : ℕ → ℕ → ℕ
unit_power zero n = 0
unit_power (suc fuel) n =
    let rest = suc (unit_power fuel (n / 1024)) in if leb 1024 n then rest else 0

-- ten times the quotient, to the nearest and to even on a tie
unfoldable pub tenths : ℕ → ℕ → ℕ
tenths b div =
    let q = b * 10 / div in
    let r = b * 10 % div in if ltb div (2 * r) || ((2 * r == div) && (q % 2 == 1)) then q + 1 else q

unfoldable pub unit_letter : ℕ → Bytes → Bytes
unit_letter n [] = []
unit_letter zero (c ∷ cs) = c ∷ []
unit_letter (suc n) (c ∷ cs) = unit_letter n cs

unfoldable pub humanize_bytes : ℤ → Bytes
humanize_bytes (negsuc n) = format_int (negsuc n) ++ codes "B"
humanize_bytes (pos b) =
    let exp = unit_power 6 (b / 1024) in
    let t = tenths b (1024 ^ (exp + 1)) in
    if ltb b 1024
    then format_uint b ++ codes "B"
    else format_uint (t / 10)
      ++ codes "."
      ++ format_uint (t % 10)
      ++ unit_letter exp (codes "KMGTPE")
      ++ codes "B"
