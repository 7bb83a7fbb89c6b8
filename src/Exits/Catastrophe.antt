-- ===== src/Exits/Catastrophe.antt =====
-- `catastrophe_triggered` of strategy/exits.py: the hard backstop under a long position.
use momentum_system.Prelude.{◌≤◌, ◌<◌, ◌≡◌, true, Option, none, some, arith}
use momentum_system.Float.{Float, Real, rank, nought, ◌⊖◌, IsMonotone}
use momentum_system.Exits.Backstop.{catastrophe_triggered}

module _ ⦃n : Float⦄ (m : IsMonotone) where
  -- If the backstop fires at a price, it fires at every lower positive price, with the same stop
  -- and settings, where rounding is monotone.
  pub catastrophe_triggered_mono :
      (entry current lower : Real) (stop : Option Real) (pct risk_mult : Real)
      → rank nought < rank lower
      → rank lower ≤ rank current
      → catastrophe_triggered entry current stop pct risk_mult ≡ true
      → catastrophe_triggered entry lower stop pct risk_mult ≡ true
  unfolding catastrophe_triggered
  catastrophe_triggered_mono entry current lower none pct risk_mult p le h =
      ground
        (arith, m.sub_right entry lower current, m.div_left (entry ⊖ current) (entry ⊖ lower) entry)
  catastrophe_triggered_mono entry current lower (some s) pct risk_mult p le h =
      ground
        (arith, m.sub_right entry lower current, m.div_left (entry ⊖ current) (entry ⊖ lower) entry)
