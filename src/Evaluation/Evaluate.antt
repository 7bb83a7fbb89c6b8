-- ===== src/Evaluation/Evaluate.antt =====
-- strategy/evaluation/setup_evaluator.py
use mathlib.Core.Option
use momentum_system.Prelude.{
  ◌>>=◌, String, Bool, true, false, not, ◌&&◌, ◌||◌, Option, none, some, List, [], ◌∷◌, map, filter,
  length, get_elem?, ltb, if◌then◌else◌,
}
use momentum_system.Float.{Float, Real, lit, nought, one, ◌⊖◌, ◌⊗◌, ◌⊘◌, ◌<?◌, ◌≤?◌, fmax}
use momentum_system.Columns.{Columns}
use momentum_system.Exits.Data.{is_empty, truthy}
use momentum_system.Risk.Guards.{TimeOfDay, check_entry_cutoff}
use momentum_system.Setups.Data.{
  SetupType, gap_and_go, opening_range_break, first_pullback, bull_flag, hod_break,
  continuation_fallback, no_setup, last_row,
}
use momentum_system.Setups.Classify.{classify_setup}
use momentum_system.Evaluation.Data.{Session, rows_of, frame_of}
use momentum_system.Evaluation.Levels.{LevelName, compute_key_levels, get_stop_levels}
use momentum_system.Evaluation.Quality.{
  QualityScore, OpeningStrength, strong, neutral, weak, default_thresholds, calculate_setup_quality,
}
use momentum_system.Evaluation.Candles.{calculate_first_candle_features}
use momentum_system.Evaluation.Volume.{VolumeMetrics, calculate_enhanced_volume_metrics}
use momentum_system.Evaluation.DataQuality.{calculate_data_quality_score}
use momentum_system.Evaluation.Criteria.{
  SetupCriteria, sufficient_data, gap, relative_volume, impulse, pullback, pullback_volume, vwap,
  candle_quality, breakout, CriteriaResult, build_criteria_result, score_criteria,
}
use momentum_system.Evaluation.Result.{
  Status, ready, late, blocked, BlockReason, insufficient_data, low_score, no_structure,
  past_cutoff, Setup, SetupEvaluationResult, Context, Reading,
}

unfoldable pub is_setup : SetupType → Bool
is_setup gap_and_go = true
is_setup opening_range_break = true
is_setup first_pullback = true
is_setup bull_flag = true
is_setup hod_break = true
is_setup continuation_fallback = true
is_setup no_setup = false

unfoldable pub is_weak : OpeningStrength → Bool
is_weak strong = false
is_weak neutral = false
is_weak weak = true

module _ ⦃n : Float⦄ where
  -- `x or y`
  abbrev pub or_else : Option Real → Real → Real
  or_else none y = y
  or_else (some x) y = if truthy x then x else y

  abbrev pub at_least : Option Real → Real → Bool
  at_least none price = false
  at_least (some x) price = x ≤? price

  abbrev pub near : Option Real → Real → Bool
  near none price = false
  near (some x) price = (x ⊗ lit 995 1000) ≤? price

  abbrev pub change : Real → Real → Real
  change x base = if nought <? base then (x ⊖ base) ⊘ base else nought

  abbrev pub reference : Option Real → Real → Real
  reference none open_price = open_price
  reference (some close) open_price =
      if truthy close && (nought <? close) then close else open_price

  -- a missing daily average leaves the last bar against the session's
  unfoldable pub relative_volume_of : Option Real → VolumeMetrics Real → Real
  relative_volume_of avg_daily_volume vol =
      let last =
        if truthy vol.avg_bar_volume
        then n.of_int vol.last_bar_volume ⊘ vol.avg_bar_volume
        else one in
      elim avg_daily_volume [
        | none ↦ fmax one last
        | some average ↦ if truthy average then vol.relative_volume else fmax one last
      ]

  module _ (pd : Columns) (enabled : List String) where
    unfoldable pub read_session : Context Real → Session Real → Option (Reading Real)
    read_session c s = do
      last ← last_row (rows_of s)
      opening ← get_elem? (rows_of s) 0
      vol ← calculate_enhanced_volume_metrics pd (rows_of s) c.avg_daily_volume none
      levels ← compute_key_levels pd s c.previous_close 5
      structure ←
          classify_setup pd.mean enabled (frame_of s) levels.premarket_high levels.high_of_day
            (lit 2 10)
      first ← calculate_first_candle_features pd s levels.premarket_high 1
      some (record {
        price = last.close;
        open_price = opening.open_price;
        gap_pct = change opening.open_price (reference c.previous_close opening.open_price);
        intraday_change = change last.close opening.open_price;
        data_quality = calculate_data_quality_score s none;
        relative_volume = relative_volume_of c.avg_daily_volume vol;
        levels = levels;
        structure = structure;
        first = first;
        above_vwap = at_least levels.vwap last.close;
        cum_volume = pd.sum (map (λ r. r.volume) (rows_of s));
      })

  unfoldable pub results_of : SetupCriteria Real → Reading Real → List CriteriaResult
  unfolding build_criteria_result
  results_of k v =
      build_criteria_result sufficient_data (k.min_quality_score ≤? v.data_quality.score)
      ∷ build_criteria_result gap
          ((k.gap_pct_min ≤? v.gap_pct) || (k.gap_pct_min ≤? v.intraday_change))
      ∷ build_criteria_result relative_volume (k.relative_volume_min ≤? v.relative_volume)
      ∷ build_criteria_result impulse (v.structure.is_valid && is_setup v.structure.setup_type)
      ∷ build_criteria_result pullback (is_setup v.structure.setup_type && v.structure.is_valid)
      ∷ build_criteria_result pullback_volume (lit 3 10 ≤? v.structure.quality_score)
      ∷ build_criteria_result vwap v.above_vwap
      ∷ build_criteria_result candle_quality (not (is_weak v.first.opening_strength))
      ∷ build_criteria_result breakout (near v.structure.breakout_level v.price)
      ∷ []

  unfoldable pub quality_of : Context Real → Reading Real → QualityScore Real
  quality_of c v =
      calculate_setup_quality (fmax v.gap_pct v.intraday_change) v.relative_volume
        v.structure.quality_score v.above_vwap v.first.opening_strength v.data_quality.score
        default_thresholds c.catalyst_score

  abbrev pub entry_of : Reading Real → Real
  entry_of v = or_else v.structure.breakout_level v.price

  abbrev first_level : Real → List (LevelName × Real) → Real
  first_level entry [] = n.round (entry ⊗ lit 97 100) 4
  first_level entry (x ∷ xs) = x.1

  abbrev pub stop_of : Reading Real → Real
  stop_of v =
      or_else v.structure.stop_level
        (first_level (entry_of v) (get_stop_levels v.levels (entry_of v)))

  unfoldable pub setups_of : Context Real → Reading Real → Real → List (Setup Real)
  setups_of c v score_pct =
      if v.structure.is_valid && is_setup v.structure.setup_type
      then record {
        setup_type = v.structure.setup_type;
        entry_price = n.round (entry_of v) 4;
        stop_loss_price = n.round (stop_of v) 4;
        quality_score = (quality_of c v).score;
        quality_grade = (quality_of c v).grade;
        confidence = n.round (score_pct ⊘ lit 100 1) 4;
        vwap = Option.map (λ x. n.round x 4) v.levels.vwap;
        above_vwap = v.above_vwap;
        day_open = if nought <? v.open_price then some (n.round v.open_price 4) else none;
        cum_volume = v.cum_volume;
      }
        ∷ []
      else []

  unfoldable pub blocked_result : TimeOfDay → SetupEvaluationResult Real
  blocked_result now = record {
    status = blocked;
    reason = some insufficient_data;
    evaluated_at = now;
    price = nought;
    gap_pct = nought;
    relative_volume = nought;
    criteria_passed = 0;
    criteria_total = 0;
    success_score_pct = nought;
    criteria_names_passed = [];
    criteria_names_failed = [];
    setups = [];
    criteria_detail = [];
  }

  -- `base`, with a status
  unfoldable pub report :
      Context Real → Reading Real → Status → Option BlockReason → SetupEvaluationResult Real
  report c v status reason =
      let results = results_of c.criteria v in
      let score = score_criteria results c.weights in
      record {
        status = status;
        reason = reason;
        evaluated_at = c.evaluation_time;
        price = v.price;
        gap_pct = n.round v.gap_pct 6;
        relative_volume = n.round v.relative_volume 4;
        criteria_passed = score.passed;
        criteria_total = score.total;
        success_score_pct = n.round score.score_pct 2;
        criteria_names_passed = map (λ r. r.name) (filter (λ r. r.passed) results);
        criteria_names_failed = map (λ r. r.name) (filter (λ r. not r.passed) results);
        setups = setups_of c v score.score_pct;
        criteria_detail = results;
      }

  -- the hour and the minute of the evaluation
  abbrev pub to_minute : TimeOfDay → TimeOfDay
  to_minute t = record { hour = t.hour; minute = t.minute; second = 0; microsecond = 0 }

  -- from what was read to the status
  unfoldable pub judge : Context Real → Reading Real → SetupEvaluationResult Real
  judge c v =
      let results = results_of c.criteria v in
      let score_pct = (score_criteria results c.weights).score_pct in
      let failed = map (λ r. r.name) (filter (λ r. not r.passed) results) in
      let cutoff = check_entry_cutoff (to_minute c.evaluation_time) c.entry_cutoff in
      if (score_pct <? c.ready_score_pct) || is_empty (setups_of c v score_pct)
      then report c v blocked
          (some (if score_pct <? c.ready_score_pct then low_score failed else no_structure failed))
      else if not cutoff.passed
      then report c v late (some (past_cutoff cutoff.minutes_past))
      else report c v ready none

  unfoldable pub evaluate_setup :
      Columns → List String → Context Real → Session Real → Option (SetupEvaluationResult Real)
  evaluate_setup pd enabled c s =
      if is_empty s.bars || ltb (length s.bars) c.min_bars
      then some (blocked_result c.evaluation_time)
      else do v ← read_session pd enabled c s; some (judge c v)
