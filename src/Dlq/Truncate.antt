-- ===== src/Dlq/Truncate.antt =====
-- What truncate promises.
use jack_courier_driver_pglg.Prelude.{
  ℕ, [], ◌∷◌, zero, suc, ◌≤◌, ◌≡◌, refl, Bytes, length, length-take, ltb, arith, take, inl, inr,
  Bool-cases,
}
use jack_courier_driver_pglg.Dlq.{truncate}
use jack_courier_driver_pglg.Dlq.Utf8.{
  IsUtf8, to_valid_utf8-IsUtf8, to_valid_utf8_id, length-to_valid_utf8, IsUtf8-nil,
}

-- A truncated message has at most `m` bytes and is valid UTF-8, whatever the bytes were.
pub truncate_bounds : (s : Bytes) (m : ℕ) → (length (truncate s m) ≤ m) × IsUtf8 (truncate s m)
unfolding truncate
truncate_bounds [] zero = (omega arith, IsUtf8-nil)
truncate_bounds (b ∷ s) zero = (omega arith, IsUtf8-nil)
truncate_bounds s (suc m) = elim (Bool-cases (ltb (suc m) (length s))) [
  | inl long ↦ rw long (
    omega (arith, length-to_valid_utf8 (take (suc m) s), length-take (suc m) s),
    to_valid_utf8-IsUtf8 _,
  )
  | inr short ↦ rw short (ground (arith, length-to_valid_utf8 s), to_valid_utf8-IsUtf8 s)
]

-- A valid message that fits is kept as it is.
pub truncate_id : (s : Bytes) (m : ℕ) → IsUtf8 s → length s ≤ m → truncate s m ≡ s
unfolding truncate
truncate_id [] zero v h = refl
truncate_id (b ∷ s) zero v h = absurd (omega arith)
truncate_id s (suc m) v h = elim (Bool-cases (ltb (suc m) (length s))) [
  | inl long ↦ absurd (ground arith)
  | inr short ↦ rw short (to_valid_utf8_id s v)
]
