-- ===== src/Columns.antt =====
-- pandas and numpy: the columns' functions that the program calls and whose code is not here.
use momentum_system.Prelude.{ℕ, ◌≡◌, List, length}
use momentum_system.Float.{Float, Real}

-- A reduction's order of additions is the library's own, so its rounding is left open.
-- `ewm_mean k` is `.ewm(span=k, adjust=False).mean()`, one value for each of the column's.
pub record Columns ⦃n : Float⦄ : Type 0 where
  pub sum : List Real → Real
  pub mean : List Real → Real
  pub median : List Real → Real
  pub ewm_mean : ℕ → List Real → List Real
  pub length-ewm_mean : (span : ℕ) (xs : List Real) → length (ewm_mean span xs) ≡ length xs
