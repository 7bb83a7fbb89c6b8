-- ===== src/Exits/Trail.antt =====
-- `_trail_stop` of strategy/exits.py, rule by rule.
use momentum_system.Prelude.{str_eq, not, ◌&&◌, List, [], ◌∷◌, if◌then◌else◌}
use momentum_system.Prelude.Int.{pos, ◌-ℤ◌}
use momentum_system.Float.{Float, Real, nought, one, ◌⊕◌, ◌⊖◌, ◌⊗◌, ◌⊘◌, ◌<?◌, ◌≤?◌, fmax}
use momentum_system.Exits.Data.{ExitConfig, trail_prior_low, trail_percent, is_empty, truthy}

module _ ⦃n : Float⦄ where
  -- the `for` over the profit-lock tiers
  unfoldable pub lock_tiers : Real → Real → List (Real × Real) → Real → Real
  lock_tiers entry gain [] new = new
  lock_tiers entry gain ((gain_pct, lock_pct) ∷ tiers) new =
      lock_tiers entry gain tiers
        (if gain_pct ≤? gain then fmax new (entry ⊗ (one ⊕ lock_pct)) else new)

  -- the rules of `_trail_stop`, in its order; each takes the stop that the rules before it set
  unfoldable pub breakeven_by_r : ExitConfig Real → Real → Real → Real → Real
  breakeven_by_r cfg entry reached_r new =
      if truthy cfg.breakeven_at_r && (cfg.breakeven_at_r ≤? reached_r) then fmax new entry else new

  unfoldable pub breakeven_by_pct : ExitConfig Real → Real → Real → Real → Real
  breakeven_by_pct cfg entry high_water new =
      if truthy cfg.breakeven_at_pct
        && (nought <? entry)
        && ((entry ⊗ (one ⊕ cfg.breakeven_at_pct)) ≤? high_water)
      then fmax new entry
      else new

  unfoldable pub trailed : ExitConfig Real → Real → Real → Real → Real → Real
  trailed cfg high_water bar_low reached_r new =
      if cfg.trail_after_r ≤? reached_r
      then (if str_eq cfg.trail_mode trail_prior_low
          then fmax new bar_low
          else if str_eq cfg.trail_mode trail_percent && (nought <? cfg.trail_pct)
          then fmax new (high_water ⊗ (one ⊖ cfg.trail_pct))
          else new)
      else new

  unfoldable pub step_trailed : ExitConfig Real → Real → Real → Real → Real → Real
  step_trailed cfg entry high_water reached_r new =
      let steps = n.trunc (reached_r ⊘ cfg.trail_r_step) in
      let locked_r = n.of_int (steps -ℤ pos 1) ⊗ cfg.trail_r_step in
      let risk = if truthy reached_r then (high_water ⊖ entry) ⊘ reached_r else nought in
      if truthy cfg.trail_r_step && (nought <? cfg.trail_r_step) && (cfg.trail_r_step ≤? reached_r)
      then fmax new (entry ⊕ locked_r ⊗ risk)
      else new

  unfoldable pub profit_locked : ExitConfig Real → Real → Real → Real → Real
  unfolding lock_tiers
  profit_locked cfg entry high_water new =
      if not (is_empty cfg.profit_lock_tiers) && (nought <? entry)
      then lock_tiers entry ((high_water ⊖ entry) ⊘ entry) cfg.profit_lock_tiers new
      else new

  unfoldable pub trail_stop_of : Real → Real → Real → Real → Real → ExitConfig Real → Real
  trail_stop_of stop entry high_water bar_low reached_r cfg =
      let a = breakeven_by_r cfg entry reached_r stop in
      let b = breakeven_by_pct cfg entry high_water a in
      let c = trailed cfg high_water bar_low reached_r b in
      let d = step_trailed cfg entry high_water reached_r c in profit_locked cfg entry high_water d
