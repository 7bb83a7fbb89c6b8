-- ===== src/Backtest/Outcomes.antt =====
-- strategy/backtest/outcomes.py
use momentum_system.Prelude.{ℕ, suc, ◌&&◌, String, Bool, true, false, List, [], ◌∷◌, if◌then◌else◌}
use momentum_system.Float.{
  Float, Real, lit, nought, one, ◌⊕◌, ◌⊖◌, ◌⊗◌, ◌⊘◌, ◌<?◌, ◌≤?◌, fmax, fmin, fabs,
}
use momentum_system.Exits.Data.{Bar}

pub data Label : Type 0 where
  win loss scratch unresolved : Label

pub record OutcomeLabel (R : Type 0) : Type 0 where
  pub setup_id : String
  pub hit_target : Bool
  pub hit_stop : Bool
  pub r_multiple : R
  pub max_favorable_r : R
  pub max_adverse_r : R
  pub bars_to_resolution : ℕ
  pub label : Label

module _ ⦃n : Float⦄ where
  -- `label`, of the result after the last bar
  unfoldable pub final_label : Real → Label
  final_label r = if fabs r <? lit 1 4 then scratch else if nought <? r then win else loss

  abbrev pub outcome : String → Bool → Bool → Real → Real → Real → ℕ → Label → OutcomeLabel Real
  outcome setup_id on_target on_stop r fav adv bars label = record {
    setup_id = setup_id;
    hit_target = on_target;
    hit_stop = on_stop;
    r_multiple = r;
    max_favorable_r = fav;
    max_adverse_r = adv;
    bars_to_resolution = bars;
    label = label;
  }

  abbrev pub unresolved_outcome : String → OutcomeLabel Real
  unresolved_outcome setup_id = outcome setup_id false false nought nought nought 0 unresolved

  module _ (setup_id : String) (entry stop risk target_r target : Real) where
    abbrev pub stop_hit : Bar Real → Bool
    stop_hit b = b.low ≤? stop

    abbrev pub reaches_target : Bar Real → Bool
    reaches_target b = target ≤? b.high

    abbrev pub final_r : Bar Real → Real
    final_r b = (b.close ⊖ entry) ⊘ risk

    -- the loop after `i` bars, of which `before` is the last
    unfoldable pub label_from : ℕ → Real → Real → Bar Real → List (Bar Real) → OutcomeLabel Real
    label_from i max_fav max_adv before [] =
        outcome setup_id false false (n.round (final_r before) 3) max_fav max_adv i
          (final_label (final_r before))
    label_from i max_fav max_adv before (b ∷ bars) =
        let fav = fmax max_fav ((b.high ⊖ entry) ⊘ risk) in
        let adv = fmin max_adv ((b.low ⊖ entry) ⊘ risk) in
        let lost = outcome setup_id false true (n.neg one) fav adv (suc i) loss in
        let rest = label_from (suc i) fav adv b bars in
        if stop_hit b && reaches_target b
        then lost
        else if stop_hit b
        then lost
        else if reaches_target b
        then outcome setup_id true false target_r fav adv (suc i) win
        else rest

  unfoldable pub label_outcome : String → Real → Real → List (Bar Real) → Real → OutcomeLabel Real
  label_outcome setup_id entry stop [] target_r = unresolved_outcome setup_id
  label_outcome setup_id entry stop (b ∷ bars) target_r =
      let risk = entry ⊖ stop in
      let target = entry ⊕ target_r ⊗ risk in
      if risk ≤? nought
      then unresolved_outcome setup_id
      else label_from setup_id entry stop risk target_r target 0 nought nought b (b ∷ bars)
