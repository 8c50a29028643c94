-- ===== src/Prelude/Members.antt =====
-- Members of a list, as places in it, and what holds of each.
use mathlib.Core.Path.{sym, ap, subst, refl}
use mathlib.Core.List.{List, [], ◌∷◌, ◌++◌, Memᴰ, map}
use jack_courier_driver_pglg.Prelude.Lists.{All}

module _ {ℓ} {A : Type ℓ} where
  pub Memᴰ-append_left : {a : A} (xs ys : List A) → Memᴰ a xs → Memᴰ a (xs ++ ys)
  Memᴰ-append_left [] ys m = elim m [ ]
  Memᴰ-append_left (x ∷ xs) ys (Memᴰ.head e) = Memᴰ.head e
  Memᴰ-append_left (x ∷ xs) ys (Memᴰ.tail m) = Memᴰ.tail (Memᴰ-append_left xs ys m)

  pub Memᴰ-append_right : {a : A} (xs : List A) {ys : List A} → Memᴰ a ys → Memᴰ a (xs ++ ys)
  Memᴰ-append_right [] m = m
  Memᴰ-append_right (x ∷ xs) m = Memᴰ.tail (Memᴰ-append_right xs m)

module _ {ℓ κ} {A : Type ℓ} (P : A → Type κ) where
  pub Memᴰ-All : {a : A} (xs : List A) → Memᴰ a xs → All P xs → P a
  Memᴰ-All [] m h = elim m [ ]
  Memᴰ-All (x ∷ xs) (Memᴰ.head e) h = subst P (sym e) h.0
  Memᴰ-All (x ∷ xs) (Memᴰ.tail m) h = Memᴰ-All xs m h.1

  -- Whatever holds of each member holds of all.
  pub All-of_members : (xs : List A) → ((a : A) → Memᴰ a xs → P a) → All P xs
  All-of_members [] f = tt
  All-of_members (x ∷ xs) f = (f x (Memᴰ.head refl), All-of_members xs (λ a m. f a (Memᴰ.tail m)))

pub Memᴰ-map {ℓ κ} :
    {A : Type ℓ} {B : Type κ} (f : A → B) {a : A} (xs : List A) → Memᴰ a xs → Memᴰ (f a) (map f xs)
Memᴰ-map f [] m = elim m [ ]
Memᴰ-map f (x ∷ xs) (Memᴰ.head e) = Memᴰ.head (ap f e)
Memᴰ-map f (x ∷ xs) (Memᴰ.tail m) = Memᴰ.tail (Memᴰ-map f xs m)
