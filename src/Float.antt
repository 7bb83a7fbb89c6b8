-- ===== src/Float.antt =====
-- Python's `float`, as far as the program uses it.
use momentum_system.Prelude.{ℕ, ◌*◌, ◌≤◌, ◌<◌, Bool, ltb, leb, ◌==◌, if◌then◌else◌}
use momentum_system.Prelude.Int.{ℤ}

-- A value stands for a finite double; there are finitely many of them, so a comparison of two
-- values is a comparison of their places in the order, `rank` (0.0 and -0.0 share one). What the
-- arithmetic returns is left open: a theorem holds for every rounding. No value stands for an
-- infinity or a NaN, on which `int(x)` raises: the model is of inputs that are finite, and of runs
-- in which no result overflows, and what is said to raise nothing is said of these.
pub record Float : Type 1 where
  pub Carrier : Type 0
  pub rank : Carrier → ℕ
  -- the literal n / d
  pub lit : ℕ → ℕ → Carrier
  pub of_int : ℤ → Carrier
  pub neg : Carrier → Carrier
  pub add : Carrier → Carrier → Carrier
  pub sub : Carrier → Carrier → Carrier
  pub mul : Carrier → Carrier → Carrier
  pub div : Carrier → Carrier → Carrier
  -- `timedelta(seconds=x)`, in microseconds, of a positive x; `total_seconds()` of microseconds
  pub micros : Carrier → ℕ
  pub seconds : ℤ → Carrier
  -- `int(x)`
  pub trunc : Carrier → ℤ
  -- `round(x, k)`
  pub round : Carrier → ℕ → Carrier

abbrev pub Real : ⦃n : Float⦄ → Type 0
Real ⦃n⦄ = n.Carrier

module _ ⦃n : Float⦄ where
  abbrev pub rank : Real → ℕ
  rank = n.rank

  abbrev pub lit : ℕ → ℕ → Real
  lit = n.lit

  -- 0.0 and 1.0
  abbrev pub nought : Real
  nought = n.lit 0 1

  abbrev pub one : Real
  one = n.lit 1 1

  infixl 65 ◌⊕◌ ◌⊖◌
  infixl 70 ◌⊗◌ ◌⊘◌
  infix 50 ◌<?◌ ◌≤?◌ ◌=?◌
  abbrev pub ◌⊕◌ : Real → Real → Real
  ◌⊕◌ = n.add

  abbrev pub ◌⊖◌ : Real → Real → Real
  ◌⊖◌ = n.sub

  abbrev pub ◌⊗◌ : Real → Real → Real
  ◌⊗◌ = n.mul

  abbrev pub ◌⊘◌ : Real → Real → Real
  ◌⊘◌ = n.div

  abbrev pub ◌<?◌ : Real → Real → Bool
  a <? b = ltb (n.rank a) (n.rank b)

  abbrev pub ◌≤?◌ : Real → Real → Bool
  a ≤? b = leb (n.rank a) (n.rank b)

  abbrev pub ◌=?◌ : Real → Real → Bool
  a =? b = n.rank a == n.rank b

  -- the builtins keep the first argument on a tie
  abbrev pub fmax : Real → Real → Real
  fmax a b = if a <? b then b else a

  abbrev pub fmin : Real → Real → Real
  fmin a b = if b <? a then b else a

  abbrev pub fabs : Real → Real
  fabs a = if a <? nought then n.neg a else a

-- Rounding is monotone (IEEE 754 rounds the exact result), so the operations are monotone where the
-- exact ones are. A theorem that rests on this names it.
pub record IsMonotone ⦃n : Float⦄ : Type 0 where
  pub sub_right : (a b c : Real) → rank b ≤ rank c → rank (a ⊖ c) ≤ rank (a ⊖ b)
  pub add_left : (a b c : Real) → rank a ≤ rank b → rank (a ⊕ c) ≤ rank (b ⊕ c)
  pub add_right : (a b c : Real) → rank a ≤ rank b → rank (c ⊕ a) ≤ rank (c ⊕ b)
  pub mul_right :
      (a b c : Real) → rank nought ≤ rank c → rank a ≤ rank b → rank (c ⊗ a) ≤ rank (c ⊗ b)
  -- a literal is the double nearest to it
  pub lit_mono : (a b c d : ℕ) → 0 < b → 0 < d → a * d ≤ c * b → rank (lit a b) ≤ rank (lit c d)
  pub mul_left :
      (a b c : Real) → rank nought ≤ rank c → rank a ≤ rank b → rank (a ⊗ c) ≤ rank (b ⊗ c)
  pub div_left :
      (a b c : Real) → rank nought < rank c → rank a ≤ rank b → rank (a ⊘ c) ≤ rank (b ⊘ c)
