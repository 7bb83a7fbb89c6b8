-- ===== src/Setups/Yields.antt =====
-- strategy/evaluation/structure.py: calls that return, and what they return.
use momentum_system.Prelude.{
  ℕ, zero, suc, ◌-◌, ◌<◌, min, ◌≡◌, refl, Option, some, List, [], ◌∷◌, length, take, drop,
  get_elem?, arith,
}
use momentum_system.Float.{Float, Real}
use momentum_system.Setups.Data.{BarRow, slice, last_row, max_of, min_of}

-- The call returns, and its result has the property.
pub record Yields {A : Type 0} (P : A → Type 0) (o : Option A) : Type 0 where
  pub value : A
  pub returns : o ≡ some value
  pub holds : P value

abbrev pub Any : {A : Type 0} → A → Type 0
Any a = Unit

pub yields : {A : Type 0} {P : A → Type 0} (a : A) → P a → Yields P (some a)
yields a p = record { value = a; returns = refl; holds = p }

module _ {A : Type 0} where
  pub length-take : (k : ℕ) (xs : List A) → length (take k xs) ≡ min k (length xs)
  length-take zero xs = omega arith
  length-take (suc k) [] = omega arith
  length-take (suc k) (x ∷ xs) = omega (arith, length-take k xs)

  pub length-drop : (k : ℕ) (xs : List A) → length (drop k xs) ≡ length xs - k
  length-drop zero xs = omega arith
  length-drop (suc k) [] = omega arith
  length-drop (suc k) (x ∷ xs) = omega (arith, length-drop k xs)

  pub length-slice : (a b : ℕ) (xs : List A) → length (slice a b xs) ≡ min (b - a) (length xs - a)
  length-slice a b xs = omega (arith, length-take (b - a) (drop a xs), length-drop a xs)

  pub get_elem?-Yields : (xs : List A) (i : ℕ) → i < length xs → Yields Any (get_elem? xs i)
  get_elem?-Yields [] i h = ground arith
  get_elem?-Yields (x ∷ xs) zero h = yields x tt
  get_elem?-Yields (x ∷ xs) (suc i) h = get_elem?-Yields xs i (omega arith)

  pub last_row-Yields : (xs : List A) → 0 < length xs → Yields Any (last_row xs)
  unfolding last_row
  last_row-Yields [] h = ground arith
  last_row-Yields (x ∷ []) h = yields x tt
  last_row-Yields (x ∷ y ∷ xs) h = last_row-Yields (y ∷ xs) (omega arith)

module _ ⦃n : Float⦄ (f : BarRow Real → Real) where
  pub max_of-Yields : (xs : List (BarRow Real)) → 0 < length xs → Yields Any (max_of f xs)
  unfolding max_of
  max_of-Yields [] h = ground arith
  max_of-Yields (x ∷ xs) h = yields _ tt

  pub min_of-Yields : (xs : List (BarRow Real)) → 0 < length xs → Yields Any (min_of f xs)
  unfolding min_of
  min_of-Yields [] h = ground arith
  min_of-Yields (x ∷ xs) h = yields _ tt
