-- ===== src/Risk/Caps.antt =====
-- The share count of `calculate_position_size` (strategy/risk/position_sizing.py) under its caps.
use momentum_system.Prelude.{◌≤◌, ◌≡◌, false, sym, Option, none, some, ◌↔◌, ◌⊎◌, arith}
use momentum_system.Prelude.Int.{ℤ, pos, negsuc, ◌≤ℤ◌}
use momentum_system.Float.{Float, Real, nought, ◌⊖◌, ◌⊘◌, ◌≤?◌, fabs}
use momentum_system.Risk.Sizing.{
  PositionSizingConfig, risk_budget, calculate_position_size, capped_by_value, capped_by_shares,
}
use mathlib.Core.Path.{subst}

module _ ⦃n : Float⦄ where
  -- `z` shares fit a cap that is on.
  abbrev pub FitsValue : Option Real → Real → ℤ → Type 0
  FitsValue none entry z = Unit
  FitsValue (some value) entry z = (n.rank value ≤ n.rank nought) ⊎ (z ≤ℤ n.trunc (value ⊘ entry))

  abbrev pub FitsShares : Option ℤ → ℤ → Type 0
  FitsShares none z = Unit
  FitsShares (some shares) z = (shares ≤ℤ negsuc 0) ⊎ (z ≤ℤ shares)

  ≤ℤ_refl : (z : ℤ) → z ≤ℤ z
  ≤ℤ_refl z = omega arith

  value_cap :
      (value : Option Real) (entry : Real) (size z : ℤ)
      → (z ≤ℤ capped_by_value value entry size) ↔ ((z ≤ℤ size) × FitsValue value entry z)
  unfolding capped_by_value
  value_cap none entry size z = ((λ h. (h, tt)), (λ h. h.0))
  value_cap (some value) entry size z = ((λ h. ground arith), (λ h. ground arith))

  shares_cap :
      (shares : Option ℤ) (size z : ℤ)
      → (z ≤ℤ capped_by_shares shares size) ↔ ((z ≤ℤ size) × FitsShares shares z)
  unfolding capped_by_shares
  shares_cap none size z = ((λ h. (h, tt)), (λ h. h.0))
  shares_cap (some shares) size z = ((λ h. ground arith), (λ h. ground arith))

  module _ (entry stop : Real) (equity : Option Real) (config : PositionSizingConfig Real)
      (value : Option Real) (shares : Option ℤ) (risk_cap : Option Real) where
    abbrev pub size : ℤ
    size = (calculate_position_size entry stop equity config value shares risk_cap).position_size

    -- `z` shares are within the dollar-risk budget and within each cap that is on.
    abbrev pub Fits : ℤ → Type 0
    Fits z =
        (z ≤ℤ n.trunc (risk_budget equity config risk_cap ⊘ fabs (entry ⊖ stop)))
        × FitsValue value entry z
        × FitsShares shares z

    abbrev pub capped : ℤ
    capped = capped_by_shares shares (
        capped_by_value value entry
          (n.trunc (risk_budget equity config risk_cap ⊘ fabs (entry ⊖ stop))))

    module _ (risky : (fabs (entry ⊖ stop) ≤? nought) ≡ false)
        (priced : (entry ≤? nought) ≡ false) where
      size_positive : pos 1 ≤ℤ size → size ≡ capped
      unfolding calculate_position_size
      size_positive h = ground arith

      -- Where the entry price and the risk per share are positive, a positive share count is within
      -- the risk budget and within every cap that is on.
      pub position_size-Fits : pos 1 ≤ℤ size → Fits size
      position_size-Fits h =
          let by_risk = n.trunc (risk_budget equity config risk_cap ⊘ fabs (entry ⊖ stop)) in
          let (under, in_shares) =
            (shares_cap shares (capped_by_value value entry by_risk) capped).0 (≤ℤ_refl capped) in
          let (in_risk, in_value) = (value_cap value entry by_risk capped).0 under in
          subst Fits (sym (size_positive h)) (in_risk, in_value, in_shares)

      -- Where the entry price and the risk per share are positive, the share count is the greatest: it
      -- is at least 0, and at least any count within the risk budget and within every cap that is on.
      pub position_size-greatest : (z : ℤ) → Fits z → (pos 0 ≤ℤ size) × (z ≤ℤ size)
      unfolding calculate_position_size
      position_size-greatest z h =
          let by_risk = n.trunc (risk_budget equity config risk_cap ⊘ fabs (entry ⊖ stop)) in
          let by_value = capped_by_value value entry by_risk in
          let inside = (value_cap value entry by_risk z).1 (h.0, h.1) in
          let inside' = (shares_cap shares by_value z).1 (inside, h.2) in ground arith
