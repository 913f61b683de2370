-- ===== src/Core/Order.antt =====
-- `order_by` of a statement: a stable insertion sort by a number.
use saas_genai_starter.Common.{
  ℕ, ◌≡◌, refl, Bool, ◌||◌, List, [], ◌∷◌, arith, leb, if◌then◌else◌, any,
}

module _ {ℓ} {A : Type ℓ} (key : A → ℕ) where
  abbrev pub place : A → List A → List A
  place x [] = x ∷ []
  place x (y ∷ ys) = if leb (key x) (key y) then x ∷ y ∷ ys else y ∷ place x ys

  abbrev pub order_by : List A → List A
  order_by [] = []
  order_by (x ∷ xs) = place x (order_by xs)

  any-place : (p : A → Bool) (x : A) (xs : List A) → any p (place x xs) ≡ (p x || any p xs)
  any-place p x [] = refl
  any-place p x (y ∷ ys) = ground (arith, any-place p x ys)

  pub any-order_by : (p : A → Bool) (xs : List A) → any p (order_by xs) ≡ any p xs
  any-order_by p [] = refl
  any-order_by p (x ∷ xs) = ground (arith, any-place p x (order_by xs), any-order_by p xs)
