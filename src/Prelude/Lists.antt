-- ===== src/Prelude/Lists.antt =====
-- Lists measured by native numbers, under the library's names.
use Prim.Native.Nat.{ℕ, zero, suc, ◌+◌}
use mathlib.Core.Path.{◌≡◌, refl, ap}
use mathlib.Core.Logic.{◌⊎◌, inl, inr}
use mathlib.Core.Option
use mathlib.Core.Option.{Option, none, some}
use mathlib.Core.Bool.{Bool, true, false}
use mathlib.Core.List.{List, [], ◌∷◌, ◌++◌, map}
use native.Mathlib.Omega.{arith}

module _ {ℓ} {A : Type ℓ} where
  abbrev pub length : List A → ℕ
  length [] = 0
  length (x ∷ xs) = suc (length xs)

  abbrev pub is_empty : List A → Bool
  is_empty [] = true
  is_empty (x ∷ xs) = false

  abbrev pub take : ℕ → List A → List A
  take zero xs = []
  take (suc n) [] = []
  take (suc n) (x ∷ xs) = x ∷ take n xs

  abbrev pub get_elem? : List A → ℕ → Option A
  get_elem? [] n = none
  get_elem? (x ∷ xs) zero = some x
  get_elem? (x ∷ xs) (suc n) = get_elem? xs n

  -- an element of a list that has been added to is an old one or the new one
  pub get_elem?-snoc :
      (xs : List A) (x y : A) (i : ℕ)
      → get_elem? (xs ++ (x ∷ [])) i ≡ some y
      → (get_elem? xs i ≡ some y) ⊎ ((i ≡ length xs) × (x ≡ y))
  get_elem?-snoc [] x y zero e = inr (refl, cc)
  get_elem?-snoc [] x y (suc i) e = cc
  get_elem?-snoc (z ∷ xs) x y zero e = inl e
  get_elem?-snoc (z ∷ xs) x y (suc i) e = elim (get_elem?-snoc xs x y i e) [
    | inl old ↦ inl old
    | inr (last, same) ↦ inr (ap suc last, same)
  ]

  pub get_elem?-append :
      (xs ys : List A) (y : A) (i : ℕ) → get_elem? xs i ≡ some y → get_elem? (xs ++ ys) i ≡ some y
  get_elem?-append [] ys y i e = cc
  get_elem?-append (x ∷ xs) ys y zero e = e
  get_elem?-append (x ∷ xs) ys y (suc i) e = get_elem?-append xs ys y i e

  pub length-append : (xs ys : List A) → length (xs ++ ys) ≡ length xs + length ys
  length-append [] ys = omega arith
  length-append (x ∷ xs) ys = omega (arith, length-append xs ys)

pub get_elem?-map {ℓ} :
    {A B : Type ℓ} (f : A → B) (xs : List A) (i : ℕ)
    → get_elem? (map f xs) i ≡ Option.map f (get_elem? xs i)
get_elem?-map f [] i = refl
get_elem?-map f (x ∷ xs) zero = refl
get_elem?-map f (x ∷ xs) (suc i) = get_elem?-map f xs i
