-- ===== src/Parser/Bytea.antt =====
-- decodeBytea of wal_parser.go, with Go's hex.DecodeString.
use mathlib.Core.Path.{subst}
use jack_courier_driver_pglg.Prelude.{
  Bool, true, false, ◌≢◌, ℕ, ◌+◌, ◌-◌, ◌*◌, ◌/◌, ◌%◌, ◌<◌, [], ◌∷◌, Option, none, some, ◌&&◌, ◌≡◌,
  refl, ap, Bytes, leb, ltb, ◌==◌, if◌then◌else◌, arith, All,
}

-- The value of a hexadecimal digit of either case.
hex_value : ℕ → Option ℕ
hex_value c =
    if leb b'0' c && leb c b'9'
    then some (c - b'0')
    else if leb b'a' c && leb c b'f'
    then some (c - b'a' + 10)
    else if leb b'A' c && leb c b'F'
    then some (c - b'A' + 10)
    else none

push_byte : Option ℕ → Option ℕ → Option Bytes → Option Bytes
push_byte (some h) (some l) (some rest) = some ((16 * h + l) ∷ rest)
push_byte _ _ _ = none

-- An odd length or a byte that is no digit is an error.
unfoldable pub hex_decode : Bytes → Option Bytes
unfolding hex_value push_byte
hex_decode [] = some []
hex_decode (a ∷ []) = none
hex_decode (a ∷ b ∷ s) = push_byte (hex_value a) (hex_value b) (hex_decode s)

unfoldable pub decode_bytea : Bytes → Option Bytes
decode_bytea [] = some []
decode_bytea (a ∷ []) = some (a ∷ [])
decode_bytea (a ∷ b ∷ s) = if (a == b'\\') && (b == b'x') then hex_decode s else some (a ∷ b ∷ s)

-- PostgreSQL's hex output of a bytea, which the wire form follows.
abbrev pub hex_digit : ℕ → ℕ
hex_digit n = if ltb n 10 then b'0' + n else b'a' + (n - 10)

abbrev pub hex_encode : Bytes → Bytes
hex_encode [] = []
hex_encode (b ∷ s) = hex_digit (b / 16) ∷ hex_digit (b % 16) ∷ hex_encode s

some_inj : {s t : Bytes} → some s ≡ some t → s ≡ t
some_inj h = cc

abbrev pub IsByte : ℕ → Type 0
IsByte b = b < 256

hex_value-hex_digit : (n : ℕ) → n < 16 → hex_value (hex_digit n) ≡ some n
unfolding hex_value
hex_value-hex_digit n h = ground arith

hex_decode-hex_encode : (s : Bytes) → All IsByte s → hex_decode (hex_encode s) ≡ some s
unfolding hex_decode
hex_decode-hex_encode [] h = refl
hex_decode-hex_encode (b ∷ s) h =
    let lt : b < 256 = h.0 in
    rw
      (
        hex_value-hex_digit (b / 16) (omega arith),
        hex_value-hex_digit (b % 16) (omega arith),
        hex_decode-hex_encode s h.1,
      )
      (unfold push_byte in ap (λ (n : ℕ). some (n ∷ s)) (omega arith))

-- A payload of bytes comes back from its wire form.
pub decode_bytea-encode :
    (s : Bytes) → All IsByte s → decode_bytea (b'\\' ∷ b'x' ∷ hex_encode s) ≡ some s
unfolding decode_bytea
decode_bytea-encode s h = hex_decode-hex_encode s h

-- A text that does not begin with a backslash passes unchanged.
pub decode_bytea_plain : (c : ℕ) (s : Bytes) → c ≢ b'\\' → decode_bytea (c ∷ s) ≡ some (c ∷ s)
unfolding decode_bytea
decode_bytea_plain c [] h = refl
decode_bytea_plain c (d ∷ s) h = ground arith

hex_value-lt : (c n : ℕ) → hex_value c ≡ some n → n < 16
unfolding hex_value
hex_value-lt c n h = ground arith

hex_decode-IsByte : (s t : Bytes) → hex_decode s ≡ some t → All IsByte t
unfolding hex_decode
hex_decode-IsByte [] t h = subst (All IsByte) (some_inj h) tt
hex_decode-IsByte (a ∷ []) t h = cc
hex_decode-IsByte (a ∷ b ∷ s) t h =
    go (hex_value a) (hex_value b) (hex_decode s) (hex_value-lt a) (hex_value-lt b)
      (hex_decode-IsByte s) h
  where
    go :
        (x y : Option ℕ) (r : Option Bytes)
        → ((n : ℕ) → x ≡ some n → n < 16)
        → ((n : ℕ) → y ≡ some n → n < 16)
        → ((u : Bytes) → r ≡ some u → All IsByte u)
        → push_byte x y r ≡ some t
        → All IsByte t
    go (some n) (some m) (some u) f g k e =
        unfold push_byte in
        subst (All IsByte) (some_inj e) (omega (arith, f n refl, g m refl), k u refl)
    go none y r f g k e = unfold push_byte in cc
    go (some n) none r f g k e = unfold push_byte in cc
    go (some n) (some m) none f g k e = unfold push_byte in cc

-- What is decoded consists of bytes.
pub decode_bytea-IsByte : (s t : Bytes) → All IsByte s → decode_bytea s ≡ some t → All IsByte t
unfolding decode_bytea
decode_bytea-IsByte [] t h e = subst (All IsByte) (some_inj e) h
decode_bytea-IsByte (a ∷ []) t h e = subst (All IsByte) (some_inj e) h
decode_bytea-IsByte (a ∷ b ∷ s) t h e = go ((a == b'\\') && (b == b'x')) e
  where
    go : (c : Bool) → (if c then hex_decode s else some (a ∷ b ∷ s)) ≡ some t → All IsByte t
    go true e = hex_decode-IsByte s t e
    go false e = subst (All IsByte) (some_inj e) h
