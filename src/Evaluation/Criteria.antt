-- ===== src/Evaluation/Criteria.antt =====
-- strategy/evaluation/criteria.py, and the records of strategy/models.py
use momentum_system.Prelude.{ℕ, Bool, List, [], ◌∷◌, filter, length, if◌then◌else◌}
use momentum_system.Prelude.Int.{ℤ, pos, ◌+ℤ◌, ltb_ℤ}
use momentum_system.Float.{Float, Real, lit, nought, ◌⊗◌, ◌⊘◌, fmax, fmin}

pub record SetupCriteria (R : Type 0) : Type 0 where
  pub gap_pct_min : R
  pub relative_volume_min : R
  pub min_quality_score : R

pub record CriteriaWeights : Type 0 where
  pub sufficient_data : ℤ
  pub gap : ℤ
  pub relative_volume : ℤ
  pub impulse : ℤ
  pub pullback : ℤ
  pub pullback_volume : ℤ
  pub vwap : ℤ
  pub candle_quality : ℤ
  pub breakout : ℤ

pub data Criterion : Type 0 where
  sufficient_data gap relative_volume impulse pullback : Criterion
  pullback_volume vwap candle_quality breakout : Criterion

pub record CriteriaResult : Type 0 where
  pub name : Criterion
  pub passed : Bool

abbrev pub default_weights : CriteriaWeights
default_weights = record {
  sufficient_data = pos 10;
  gap = pos 15;
  relative_volume = pos 15;
  impulse = pos 15;
  pullback = pos 10;
  pullback_volume = pos 10;
  vwap = pos 10;
  candle_quality = pos 5;
  breakout = pos 10;
}

pub record CriteriaScore (R : Type 0) : Type 0 where
  pub passed : ℕ
  pub total : ℕ
  pub score_pct : R

unfoldable pub weight_of : CriteriaWeights → Criterion → ℤ
weight_of w sufficient_data = w.sufficient_data
weight_of w gap = w.gap
weight_of w relative_volume = w.relative_volume
weight_of w impulse = w.impulse
weight_of w pullback = w.pullback
weight_of w pullback_volume = w.pullback_volume
weight_of w vwap = w.vwap
weight_of w candle_quality = w.candle_quality
weight_of w breakout = w.breakout

unfoldable pub weigh : CriteriaWeights → List CriteriaResult → ℤ
weigh w [] = pos 0
weigh w (r ∷ rs) = weight_of w r.name +ℤ weigh w rs

unfoldable pub build_criteria_result : Criterion → Bool → CriteriaResult
build_criteria_result name passed = record { name = name; passed = passed }

module _ ⦃n : Float⦄ where
  abbrev pub default_criteria : SetupCriteria Real
  default_criteria = record {
    gap_pct_min = lit 5 100;
    relative_volume_min = lit 25 10;
    min_quality_score = lit 60 100;
  }

  unfoldable pub score_criteria : List CriteriaResult → CriteriaWeights → CriteriaScore Real
  score_criteria results weights =
      let passed = filter (λ r. r.passed) results in
      let total = weigh weights results in
      record {
        passed = length passed;
        total = length results;
        score_pct =
            if ltb_ℤ (pos 0) total
            then fmin (lit 100 1)
                (fmax nought (n.of_int (weigh weights passed) ⊘ n.of_int total ⊗ lit 100 1))
            else nought;
      }
