-- ===== src/Setup/Text.antt =====
-- What pglg-setup uses of the package strings: Contains, HasSuffix and the Replacer.
use jack_courier_driver_pglg.Prelude.{
  ℕ, zero, suc, ◌-◌, List, [], ◌∷◌, ◌++◌, Bool, true, false, ◌&&◌, ◌||◌, Option, none, some, Bytes,
  length, text_eq, ◌==◌, if◌then◌else◌,
}

unfoldable pub has_prefix : Bytes → Bytes → Bool
has_prefix [] s = true
has_prefix (a ∷ p) [] = false
has_prefix (a ∷ p) (b ∷ s) = (a == b) && has_prefix p s

unfoldable pub contains_text : Bytes → Bytes → Bool
unfolding has_prefix
contains_text p [] = has_prefix p []
contains_text p (b ∷ s) = has_prefix p (b ∷ s) || contains_text p s

unfoldable pub has_suffix : Bytes → Bytes → Bool
has_suffix p [] = text_eq p []
has_suffix p (b ∷ s) = text_eq p (b ∷ s) || has_suffix p s

-- The first of the pairs whose key begins the text: the length of the key, and the value.
unfoldable pub lookup : List (Bytes × Bytes) → Bytes → Option (ℕ × Bytes)
unfolding has_prefix
lookup [] s = none
lookup ((key, value) ∷ ps) s =
    let rest = lookup ps s in if has_prefix key s then some (length key, value) else rest

-- What stands for the byte `b` and those after it, from a `lookup` there.
unfoldable pub replace_at : ℕ → (ℕ → Bytes) → Option (ℕ × Bytes) → Bytes
replace_at b rest none = b ∷ rest 0
replace_at b rest (some (n, value)) = value ++ rest (n - 1)

-- A Replacer, whose keys are not empty; `skip` bytes of a key that is replaced are still ahead.
unfoldable pub replace : List (Bytes × Bytes) → ℕ → Bytes → Bytes
unfolding lookup replace_at
replace ps skip [] = []
replace ps (suc skip) (b ∷ s) = replace ps skip s
replace ps zero (b ∷ s) = replace_at b (λ n. replace ps n s) (lookup ps (b ∷ s))
