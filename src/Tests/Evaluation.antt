-- ===== src/Tests/Evaluation.antt =====
-- strategy/evaluation: instances of its theorems.
use mathlib.Core.List.{Perm}
use momentum_system.Prelude.{
  ◌≤◌, ◌≡◌, refl, true, false, none, some, Option, List, [], ◌∷◌, ◌++◌, filter, All, arith,
}
use momentum_system.Prelude.Int.{pos}
use momentum_system.Float.{Real}
use momentum_system.Setups.Data.{BarRow}
use momentum_system.Setups.Yields.{Any, Yields}
use momentum_system.Evaluation.Levels.{
  KeyLevels, vwap, ema_9, low_of_day, stop_candidates, get_stop_levels, sort_by_distance,
  insert_by_distance,
}
use momentum_system.Evaluation.Quality.{strong, weak, default_thresholds}
use momentum_system.Evaluation.Criteria.{default_criteria, default_weights}
use momentum_system.Evaluation.Result.{Context}
use momentum_system.Evaluation.Evaluate.{evaluate_setup}
use momentum_system.Evaluation.Ready.{Ready, evaluate_setup-Ready}
use momentum_system.Evaluation.Better.{
  Ingredients, standing, score_of, calculate_setup_quality_mono,
}
use momentum_system.Evaluation.Stops.{
  known_stops, is_below, Below, TightestFirst, get_stop_levels-TightestFirst,
}
use momentum_system.Detectors.Ignition.{IgnitionConfig, detect_momentum_ignition}
use momentum_system.Detectors.Runner.{RunnerConfig, detect_leading_gainer_runner}
use momentum_system.Detectors.Liquid.{
  LiquidConfig, PremarketConfig, detect_liquid_intraday_breakout, detect_premarket_setup,
}
use momentum_system.Detectors.Reclaim.{ReclaimConfig, detect_vwap_reclaim}
use momentum_system.Detectors.Fires.{Ignites, detect_momentum_ignition-Ignites}
use momentum_system.Detectors.Returns.{detectors_return}
use momentum_system.Detectors.Entry.{ForwardBar, reclaim_from, find_vwap_pullback_entry}
use momentum_system.Detectors.Entries.{FirstReclaim, find_vwap_pullback_entry-FirstReclaim}
use momentum_system.Tests.Fixed.{fixed, fixed-IsMonotone}
use momentum_system.Tests.Backtest.{columns, session}

abbrev setup_context : Context Real
setup_context = record {
  previous_close = some 18000;
  avg_daily_volume = none;
  criteria = default_criteria;
  weights = default_weights;
  evaluation_time = record { hour = 9; minute = 36; second = 0; microsecond = 0 };
  entry_cutoff = record {
    no_new_entries_after = record { hour = 10; minute = 30; second = 0; microsecond = 0 };
    minutes_past_cutoff_max = pos 5;
  };
  ready_score_pct = 300000;
  min_bars = 6;
  catalyst_score = none;
}

evaluate_setup-Ready_example :
    Yields
      (Ready setup_context columns [] session)
      (evaluate_setup columns [] setup_context session)
evaluate_setup-Ready_example = evaluate_setup-Ready setup_context columns [] session

abbrev plain : Ingredients Real
plain = record {
  gap = 500;
  volume = 20000;
  structure = 5000;
  above = false;
  opening = weak;
  quality = 10000;
  catalyst = some 2000;
}

abbrev better : Ingredients Real
better = record plain { gap = 800; above = true; opening = strong; catalyst = some 9000 }

calculate_setup_quality_mono_example :
    (standing (score_of plain default_thresholds).grade
      ≤ standing (score_of better default_thresholds).grade)
    × ((score_of plain default_thresholds).tradeable ≡ true
        → (score_of better default_thresholds).tradeable ≡ true)
calculate_setup_quality_mono_example =
    calculate_setup_quality_mono fixed-IsMonotone plain better default_thresholds (omega arith)
      (omega arith)
      (record {
        gap = omega arith;
        volume = omega arith;
        structure = omega arith;
        above = λ h. refl;
        opening = omega arith;
        quality = omega arith;
        catalyst = omega arith;
      })

abbrev levels : KeyLevels Real
levels = record {
  vwap = some 19500;
  ema_9 = some 19800;
  ema_20 = none;
  premarket_high = none;
  premarket_low = none;
  opening_range_high = some 20000;
  opening_range_low = some 20100;
  high_of_day = some 20300;
  low_of_day = some 19000;
  previous_close = none;
}

get_stop_levels-TightestFirst_example :
    All (Below 20000) (get_stop_levels levels 20000)
    × TightestFirst 20000 (get_stop_levels levels 20000)
    × Perm (get_stop_levels levels 20000) (filter (is_below 20000) (known_stops levels))
get_stop_levels-TightestFirst_example = get_stop_levels-TightestFirst 20000 levels

sorted_stops :
    get_stop_levels levels 20000 ≡ (ema_9, 19800) ∷ (vwap, 19500) ∷ (low_of_day, 19000) ∷ []
unfolding get_stop_levels stop_candidates sort_by_distance insert_by_distance
sorted_stops = refl

abbrev row : Real → Real → Real → Real → BarRow Real
row low high close volume = record {
  open_price = low;
  high = high;
  low = low;
  close = close;
  volume = volume;
  is_regular_hours = true;
}

abbrev climb : List (BarRow Real)
climb =
    row 10000 10200 10100 10000
    ∷ row 10100 10500 10400 10000
    ∷ row 10400 10900 10800 10000
    ∷ row 10700 12000 11900 90000
    ∷ []

abbrev ignition : IgnitionConfig Real
ignition = record {
  velocity_min = 800;
  velocity_window = 3;
  green_min = 2;
  green_lookback = 3;
  burst_mult = 30000;
  burst_window = 2;
  abs_vol_floor = 100000;
}

detect_momentum_ignition-Ignites_example :
    Yields
      (Ignites columns ignition climb (some 11500))
      (detect_momentum_ignition columns ignition climb (some 11500))
detect_momentum_ignition-Ignites_example =
    detect_momentum_ignition-Ignites columns ignition climb (some 11500)

abbrev long_climb : List (BarRow Real)
long_climb = climb ++ climb ++ climb

detectors_return_example :
    ((k : RunnerConfig Real) (base high vwap : Option Real)
      → Yields Any (detect_leading_gainer_runner columns k long_climb base high vwap))
    × ((k : LiquidConfig Real) (vwap : Option Real)
        → Yields Any (detect_liquid_intraday_breakout columns k long_climb vwap))
    × ((k : PremarketConfig Real) (close vwap : Option Real)
        → Yields Any (detect_premarket_setup columns k long_climb close vwap))
    × ((k : ReclaimConfig Real) → Yields Any (detect_vwap_reclaim columns k long_climb))
detectors_return_example = detectors_return columns long_climb

abbrev forward : Real → Real → Real → ForwardBar Real
forward low close average = record { low = low; close = close; vwap = average }

find_vwap_pullback_entry-FirstReclaim_example :
    FirstReclaim 0
      (forward 20000 20200 19500 ∷ forward 19400 19700 19500 ∷ [])
      (find_vwap_pullback_entry (forward 20000 20200 19500 ∷ forward 19400 19700 19500 ∷ []))
find_vwap_pullback_entry-FirstReclaim_example =
    find_vwap_pullback_entry-FirstReclaim
      (forward 20000 20200 19500 ∷ forward 19400 19700 19500 ∷ [])

second_reclaims :
    (find_vwap_pullback_entry
      (forward 20000 20200 19500 ∷ forward 19400 19700 19500 ∷ [])).entry_idx
    ≡ some 1
unfolding find_vwap_pullback_entry reclaim_from
second_reclaims = refl
