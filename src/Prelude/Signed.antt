-- ===== src/Prelude/Signed.antt =====
-- Signed integers over the native numbers, under the library's names: Go's int64 and
-- time.Duration before their range is looked at.
use Prim.Native.Nat.{ℕ, suc, ◌-◌, ◌<◌, ◌^◌, ◌%◌}
use mathlib.Core.Bool.{Bool, true, false}
use jack_courier_driver_pglg.Prelude.Tests.{ltb, leb, if◌then◌else◌}

-- `negsuc n` is -(n + 1).
pub data ℤ : Type 0 where
  pos : ℕ → ℤ
  negsuc : ℕ → ℤ

abbrev pub is_positive : ℤ → Bool
is_positive (pos (suc n)) = true
is_positive _ = false

-- The integers of an int64.
abbrev pub InInt64 : ℤ → Type 0
InInt64 (pos n) = n < 2 ^ 63
InInt64 (negsuc n) = n < 2 ^ 63

-- a - b, as an integer.
abbrev pub sub_ℕ : ℕ → ℕ → ℤ
sub_ℕ a b = let less = negsuc (b - a - 1) in if leb b a then pos (a - b) else less

-- The int64 that a sum of two wraps round to, for one that is not below the least int64.
abbrev pub wrap_int64 : ℤ → ℤ
wrap_int64 (pos n) = let m = n % 2 ^ 64 in if ltb m (2 ^ 63) then pos m else negsuc (2 ^ 64 - m - 1)
wrap_int64 (negsuc n) = negsuc n
