-- ===== src/Exits/Backstop.antt =====
-- `catastrophe_triggered` of strategy/exits.py.
use momentum_system.Prelude.{Bool, true, false, not, ◌&&◌, Option, none, some, if◌then◌else◌}
use momentum_system.Float.{Float, Real, nought, ◌⊖◌, ◌⊗◌, ◌⊘◌, ◌<?◌, ◌≤?◌}
use momentum_system.Exits.Data.{truthy}

module _ ⦃n : Float⦄ where
  unfoldable pub catastrophe_triggered : Real → Real → Option Real → Real → Real → Bool
  catastrophe_triggered entry current stop pct risk_mult =
      let underwater = (entry ⊖ current) ⊘ entry in
      let too_far = truthy pct && (nought <? pct) && (pct ≤? underwater) in
      let beyond_risk : Bool = elim stop [
        | none ↦ false
        | some s ↦
            (s <? entry)
            && truthy risk_mult
            && (nought <? risk_mult)
            && (nought <? (entry ⊖ s))
            && (current ≤? (entry ⊖ risk_mult ⊗ (entry ⊖ s)))
      ] in
      if not (truthy entry)
      then false
      else if not (truthy current)
      then false
      else if current ≤? nought
      then false
      else if entry ≤? nought
      then false
      else if too_far
      then true
      else beyond_risk
