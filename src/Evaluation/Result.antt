-- ===== src/Evaluation/Result.antt =====
-- strategy/evaluation/setup_evaluator.py and strategy/models.py: the arguments and the results.
use momentum_system.Prelude.{ℕ, Bool, Option, List}
use momentum_system.Prelude.Int.{ℤ}
use momentum_system.Risk.Guards.{TimeOfDay, EntryCutoffConfig}
use momentum_system.Setups.Data.{SetupType, StructureDetectionResult}
use momentum_system.Evaluation.Levels.{KeyLevels}
use momentum_system.Evaluation.Quality.{Grade}
use momentum_system.Evaluation.Candles.{FirstCandleFeatures}
use momentum_system.Evaluation.DataQuality.{DataQualityScore}
use momentum_system.Evaluation.Criteria.{SetupCriteria, CriteriaWeights, Criterion, CriteriaResult}

pub data Status : Type 0 where
  ready late blocked : Status

-- `reason`, without its numbers; a score or a structure names the criteria that failed.
pub data BlockReason : Type 0 where
  insufficient_data : BlockReason
  low_score no_structure : List Criterion → BlockReason
  past_cutoff : Option ℤ → BlockReason

-- The dict of a setup.
pub record Setup (R : Type 0) : Type 0 where
  pub setup_type : SetupType
  pub entry_price : R
  pub stop_loss_price : R
  pub quality_score : R
  pub quality_grade : Grade
  pub confidence : R
  pub vwap : Option R
  pub above_vwap : Bool
  pub day_open : Option R
  pub cum_volume : R

pub record SetupEvaluationResult (R : Type 0) : Type 0 where
  pub status : Status
  pub reason : Option BlockReason
  pub evaluated_at : TimeOfDay
  pub price : R
  pub gap_pct : R
  pub relative_volume : R
  pub criteria_passed : ℕ
  pub criteria_total : ℕ
  pub success_score_pct : R
  pub criteria_names_passed : List Criterion
  pub criteria_names_failed : List Criterion
  pub setups : List (Setup R)
  pub criteria_detail : List CriteriaResult

-- The arguments that the caller gives beside the bars.
pub record Context (R : Type 0) : Type 0 where
  pub previous_close : Option R
  pub avg_daily_volume : Option R
  pub criteria : SetupCriteria R
  pub weights : CriteriaWeights
  pub evaluation_time : TimeOfDay
  pub entry_cutoff : EntryCutoffConfig
  pub ready_score_pct : R
  pub min_bars : ℕ
  pub catalyst_score : Option R

-- The local variables that the criteria read.
pub record Reading (R : Type 0) : Type 0 where
  pub price : R
  pub open_price : R
  pub gap_pct : R
  pub intraday_change : R
  pub data_quality : DataQualityScore R
  pub relative_volume : R
  pub levels : KeyLevels R
  pub structure : StructureDetectionResult R
  pub first : FirstCandleFeatures R
  pub above_vwap : Bool
  pub cum_volume : R
