-- ===== src/Dlq/Utf8.antt =====
-- Go's strings.ToValidUTF8(s, ""), which truncate of dlq.go applies: the bytes that start no UTF-8
-- sequence are dropped.
use jack_courier_driver_pglg.Prelude.{
  ℕ, zero, suc, ◌≤◌, [], ◌∷◌, ◌≡◌, refl, ap, Bool, true, false, ◌&&◌, Bytes, length, leb, ltb, ◌==◌,
  if◌then◌else◌, arith,
}

abbrev within : ℕ → ℕ → ℕ → Bool
within lo hi b = leb lo b && leb b hi

abbrev is_continuation : ℕ → Bool
is_continuation = within 0x80 0xBF

-- The second byte of a sequence of three or four, by its first byte.
second_of_three : ℕ → ℕ → Bool
second_of_three a b =
    if a == 0xE0
    then within 0xA0 0xBF b
    else if a == 0xED
    then within 0x80 0x9F b
    else is_continuation b

second_of_four : ℕ → ℕ → Bool
second_of_four a b =
    if a == 0xF0
    then within 0x90 0xBF b
    else if a == 0xF4
    then within 0x80 0x8F b
    else is_continuation b

tail_two : Bytes → Bool
tail_two [] = false
tail_two (b ∷ s) = is_continuation b

tail_three : ℕ → Bytes → Bool
tail_three a [] = false
tail_three a (b ∷ []) = false
tail_three a (b ∷ c ∷ s) = second_of_three a b && is_continuation c

tail_four : ℕ → Bytes → Bool
tail_four a [] = false
tail_four a (b ∷ []) = false
tail_four a (b ∷ c ∷ []) = false
tail_four a (b ∷ c ∷ d ∷ s) = second_of_four a b && is_continuation c && is_continuation d

-- How many bytes follow the first one in the sequence at the head of `a ∷ s`; `none` where no
-- sequence starts.
pub data Width : Type 0 where
  invalid : Width
  more : ℕ → Width

abbrev when : Bool → ℕ → Width
when b n = if b then more n else invalid

pub width : ℕ → Bytes → Width
unfolding tail_two tail_three tail_four second_of_three second_of_four
width a s =
    if ltb a 0x80
    then more 0
    else if within 0xC2 0xDF a
    then when (tail_two s) 1
    else if within 0xE0 0xEF a
    then when (tail_three a s) 2
    else if within 0xF0 0xF4 a
    then when (tail_four a s) 3
    else invalid

-- `pending` bytes belong to the sequence that is being copied.
pub keep_valid : ℕ → Bytes → Bytes
keep_valid pending [] = []
keep_valid (suc k) (a ∷ s) = a ∷ keep_valid k s
keep_valid zero (a ∷ s) = elim (width a s) [
  | invalid ↦ keep_valid 0 s
  | more n ↦ a ∷ keep_valid n s
]

unfoldable pub to_valid_utf8 : Bytes → Bytes
to_valid_utf8 s = keep_valid 0 s

-- A text all of whose bytes lie in UTF-8 sequences.
pub is_valid_from : ℕ → Bytes → Bool
is_valid_from zero [] = true
is_valid_from (suc k) [] = false
is_valid_from (suc k) (a ∷ s) = is_valid_from k s
is_valid_from zero (a ∷ s) = elim (width a s) [ invalid ↦ false | more n ↦ is_valid_from n s ]

abbrev pub IsUtf8 : Bytes → Type 0
IsUtf8 s = is_valid_from 0 s ≡ true

length-keep_valid : (k : ℕ) (s : Bytes) → length (keep_valid k s) ≤ length s
unfolding keep_valid
length-keep_valid zero [] = omega arith
length-keep_valid (suc k) [] = omega arith
length-keep_valid (suc k) (a ∷ s) = omega (arith, length-keep_valid k s)
length-keep_valid zero (a ∷ s) =
    elim (width a s)
      as (λ w.
        length (elim w [ invalid ↦ keep_valid 0 s | more n ↦ a ∷ keep_valid n s ])
        ≤ suc (length s)) [
          | invalid ↦ omega (arith, length-keep_valid 0 s)
          | more n ↦ omega (arith, length-keep_valid n s)
        ]

pub length-to_valid_utf8 : (s : Bytes) → length (to_valid_utf8 s) ≤ length s
unfolding to_valid_utf8
length-to_valid_utf8 s = length-keep_valid 0 s

keep_valid_id : (k : ℕ) (s : Bytes) → is_valid_from k s ≡ true → keep_valid k s ≡ s
unfolding keep_valid is_valid_from
keep_valid_id zero [] h = refl
keep_valid_id (suc k) [] h = refl
keep_valid_id (suc k) (a ∷ s) h = ap (◌∷◌ a) (keep_valid_id k s h)
keep_valid_id zero (a ∷ s) h = go (width a s) (λ n. keep_valid_id n s) h
  where
    go :
        (w : Width)
        → ((n : ℕ) → is_valid_from n s ≡ true → keep_valid n s ≡ s)
        → (elim w [ invalid ↦ false | more n ↦ is_valid_from n s ]) ≡ true
        → (elim w [ invalid ↦ keep_valid 0 s | more n ↦ a ∷ keep_valid n s ]) ≡ a ∷ s
    go invalid ih h = cc
    go (more n) ih h = ap (◌∷◌ a) (ih n h)

pub to_valid_utf8_id : (s : Bytes) → IsUtf8 s → to_valid_utf8 s ≡ s
unfolding to_valid_utf8
to_valid_utf8_id s h = keep_valid_id 0 s h

-- A sequence that starts in a text still starts there once the bytes after it are filtered.
width-keep_valid :
    (n a : ℕ) (s : Bytes)
    → width a s ≡ more n
    → (width a (keep_valid n s) ≡ more n) × (n ≤ length s)
unfolding width keep_valid
width-keep_valid zero a s h = ground arith
width-keep_valid (suc zero) a [] h = ground arith
width-keep_valid (suc zero) a (b ∷ s) h = ground arith
width-keep_valid (suc (suc zero)) a [] h = ground arith
width-keep_valid (suc (suc zero)) a (b ∷ []) h = ground arith
width-keep_valid (suc (suc zero)) a (b ∷ c ∷ s) h = ground arith
width-keep_valid (suc (suc (suc zero))) a [] h = ground arith
width-keep_valid (suc (suc (suc zero))) a (b ∷ []) h = ground arith
width-keep_valid (suc (suc (suc zero))) a (b ∷ c ∷ []) h = ground arith
width-keep_valid (suc (suc (suc zero))) a (b ∷ c ∷ d ∷ s) h = ground arith
width-keep_valid (suc (suc (suc (suc n)))) a s h = ground arith

valid-keep_valid : (k : ℕ) (s : Bytes) → k ≤ length s → is_valid_from k (keep_valid k s) ≡ true
unfolding keep_valid is_valid_from
valid-keep_valid zero [] h = refl
valid-keep_valid (suc k) [] h = absurd (omega arith)
valid-keep_valid (suc k) (a ∷ s) h = valid-keep_valid k s (omega arith)
valid-keep_valid zero (a ∷ s) h = go (width a s) refl (λ n. valid-keep_valid n s)
  where
    go :
        (w : Width)
        → width a s ≡ w
        → ((n : ℕ) → n ≤ length s → is_valid_from n (keep_valid n s) ≡ true)
        → is_valid_from 0 (elim w [ invalid ↦ keep_valid 0 s | more n ↦ a ∷ keep_valid n s ]) ≡ true
    go invalid e ih = ih 0 (omega arith)
    go (more n) e ih =
        let (same, room) = width-keep_valid n a s e in rw (same, is_valid_from) (ih n room)

pub to_valid_utf8-IsUtf8 : (s : Bytes) → IsUtf8 (to_valid_utf8 s)
unfolding to_valid_utf8
to_valid_utf8-IsUtf8 s = valid-keep_valid 0 s (omega arith)

pub IsUtf8-nil : IsUtf8 []
unfolding is_valid_from
IsUtf8-nil = refl
