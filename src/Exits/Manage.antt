-- ===== src/Exits/Manage.antt =====
-- `manage_live` of strategy/exits.py.
use momentum_system.Prelude.{Bool, true, false, not, ◌&&◌, ◌||◌, List, [], ◌∷◌, if◌then◌else◌}
use momentum_system.Float.{Float, Real, nought, ◌⊕◌, ◌⊖◌, ◌⊗◌, ◌⊘◌, ◌<?◌, ◌≤?◌, fmax}
use momentum_system.Exits.Data.{
  Bar, ExitConfig, first_red, hold, trail, ExitDecision, is_empty, truthy,
}
use momentum_system.Exits.Trail.{trail_stop_of}
use momentum_system.Exits.Backtest.{last_bar}

module _ ⦃n : Float⦄ where
  -- the loop of `manage_live`: the stop and the high-water mark
  unfoldable pub live_walk :
      ExitConfig Real → Real → Real → List (Bar Real) → Real × Real → Real × Real
  live_walk cfg entry risk [] (stop, high_water) = (stop, high_water)
  live_walk cfg entry risk (bar ∷ bars) (stop, high_water) =
      let high = fmax high_water bar.high in
      live_walk cfg entry risk bars
        (trail_stop_of stop entry high bar.low ((high ⊖ entry) ⊘ risk) cfg, high)

  -- `bars.iloc[-2]`, of the bars `a`, `b` and those after them
  abbrev pub prior_bar : Bar Real → Bar Real → List (Bar Real) → Bar Real
  prior_bar a b [] = a
  prior_bar a b (c ∷ bars) = prior_bar b c bars

  -- whether the latest bar closed below the low of the one before
  unfoldable pub closed_below_prior : List (Bar Real) → Bool
  closed_below_prior [] = false
  closed_below_prior (a ∷ []) = false
  closed_below_prior (a ∷ b ∷ bars) = (last_bar b bars).close <? (prior_bar a b bars).low

  unfoldable pub manage_live :
      Real → Real → List (Bar Real) → ExitConfig Real → Bool → ExitDecision Real
  unfolding live_walk closed_below_prior
  manage_live entry init_stop bars cfg already_scaled =
      let risk = entry ⊖ init_stop in
      let (stop, high_water) = live_walk cfg entry risk bars (init_stop, entry) in
      let reached_r = (high_water ⊖ entry) ⊘ risk in
      let scale_frac =
        if truthy cfg.scale_out_r
          && not already_scaled
          && ((entry ⊕ cfg.scale_out_r ⊗ risk) ≤? high_water)
        then cfg.scale_out_pct
        else nought in
      if (risk ≤? nought) || is_empty bars
      then record {
        desired_stop = init_stop;
        scale_out_frac = nought;
        exit_now = false;
        reason = hold;
      }
      else if cfg.first_red_exit && closed_below_prior bars && (cfg.trail_after_r ≤? reached_r)
      then record {
        desired_stop = stop;
        scale_out_frac = nought;
        exit_now = true;
        reason = first_red;
      }
      else record {
        desired_stop = stop;
        scale_out_frac = scale_frac;
        exit_now = false;
        reason = trail;
      }
