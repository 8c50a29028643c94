-- ===== src/Prelude/Texts.antt =====
-- Go strings and byte slices: lists of bytes.
use Prim.Native.Nat.{ℕ}
use Prim.Native.Char.{code}
use Prim.Native.String.{String}
use mathlib.Core.Path.{◌≡◌, refl, sym}
use mathlib.Core.Logic.{◌↔◌, inl, inr}
use mathlib.Core.Logic.Or
use mathlib.Core.Bool.{Bool, true, false, ◌&&◌}
use mathlib.Core.List.{List, [], ◌∷◌, Mem, mem-cons, mem-cons_self, mem-cons_of_mem, not-mem-nil}
use native.Mathlib.Omega.{arith}
use native.Mathlib.Decide.{ℕ_discrete}
use jack_courier_driver_pglg.Prelude.Tests.{◌==◌, if◌then◌else◌, Bool-cases}

abbrev pub Bytes : Type 0
Bytes = List ℕ

-- The code points of a literal: its bytes, since the literals here are ASCII.
abbrev pub codes : String → Bytes
codes String.[] = []
codes (String.◌∷◌ c s) = code c ∷ codes s

unfoldable pub text_eq : Bytes → Bytes → Bool
text_eq [] [] = true
text_eq [] (b ∷ t) = false
text_eq (a ∷ s) [] = false
text_eq (a ∷ s) (b ∷ t) = (a == b) && text_eq s t

pub text_eq_iff : (s t : Bytes) → (text_eq s t ≡ true) ↔ (s ≡ t)
unfolding text_eq
text_eq_iff [] [] = (λ h. refl, λ h. refl)
text_eq_iff [] (b ∷ t) = (λ h. cc, λ h. cc)
text_eq_iff (a ∷ s) [] = (λ h. cc, λ h. cc)
text_eq_iff (a ∷ s) (b ∷ t) = ground (arith, text_eq_iff s t)

pub text_eq_refl : (s : Bytes) → text_eq s s ≡ true
text_eq_refl s = (text_eq_iff s s).1 refl

abbrev pub is_empty : Bytes → Bool
is_empty [] = true
is_empty (b ∷ s) = false

pub Bytes-discrete : Discrete Bytes
Bytes-discrete = hlevel ℕ_discrete

-- A Go map from texts to bool, as the list of the keys that are set.
unfoldable pub contains : Bytes → List Bytes → Bool
contains cid [] = false
contains cid (k ∷ ks) = if text_eq k cid then true else contains cid ks

pub contains_iff : (c : Bytes) (ks : List Bytes) → (contains c ks ≡ true) ↔ Mem c ks
unfolding contains
contains_iff c [] = (λ h. cc, λ m. absurd (not-mem-nil m))
contains_iff c (k ∷ ks) = elim (Bool-cases (text_eq k c)) [
  | inl hit ↦ (λ h. rw (sym ((text_eq_iff k c).0 hit)) mem-cons_self, λ m. rw hit refl)
  | inr miss ↦ rw miss (
    λ h. mem-cons_of_mem k ((contains_iff c ks).0 h),
    λ m.
        Or.elim (λ x y. hlevel) (mem-cons.0 m) (λ e. absurd (ground (arith, text_eq_iff k c, e)))
          (contains_iff c ks).1,
  )
]

pub contains-cons :
    (c k : Bytes) (seen : List Bytes)
    → (contains c (k ∷ seen) ≡ false) ↔ ((text_eq k c ≡ false) × (contains c seen ≡ false))
unfolding contains
contains-cons c k seen = ground arith
