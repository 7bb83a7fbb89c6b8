-- ===== src/Setups/Classify.antt =====
-- strategy/evaluation/structure.py: `classify_setup`.
use momentum_system.Prelude.{
  ◌>>=◌, String, Bool, ◌&&◌, ◌||◌, Option, some, List, [], ◌∷◌, filter, if◌then◌else◌,
}
use momentum_system.Prelude.Sets.{mem}
use momentum_system.Float.{Float, Real, lit, nought, ◌<?◌, ◌≤?◌}
use momentum_system.Exits.Data.{is_empty}
use momentum_system.Setups.Data.{
  Frame, no_setup, nothing_valid, value_of, StructureDetectionResult, refused,
}
use momentum_system.Setups.Flag.{detect_bull_flag}
use momentum_system.Setups.Pullback.{detect_first_pullback}
use momentum_system.Setups.Gap.{detect_gap_and_go}
use momentum_system.Setups.Hod.{detect_hod_break}
use momentum_system.Setups.Fallback.{detect_continuation_fallback}
use momentum_system.Setups.Opening.{detect_opening_range_breakout}

module _ ⦃n : Float⦄ where
  -- whether a result may be taken; `enabled` is the set that STRATEGY_SETUPS names
  unfoldable pub is_accepted : List String → Real → StructureDetectionResult Real → Bool
  is_accepted enabled min_quality r =
      r.is_valid
      && (min_quality ≤? r.quality_score)
      && (is_empty enabled || mem (value_of r.setup_type) enabled)

  -- `max` by quality keeps the first of the greatest
  unfoldable pub best_of :
      StructureDetectionResult Real
      → List (StructureDetectionResult Real)
      → StructureDetectionResult Real
  best_of best [] = best
  best_of best (r ∷ rs) = best_of (if best.quality_score <? r.quality_score then r else best) rs

  unfoldable pub pick : List (StructureDetectionResult Real) → StructureDetectionResult Real
  pick [] = refused no_setup nothing_valid
  pick (r ∷ rs) = best_of r rs

  -- the five slower detectors, in the order of the list
  unfoldable pub detectors :
      Frame Real → Option Real → Option Real → Option (List (StructureDetectionResult Real))
  detectors bars premarket_high session_high = do
    flag ← detect_bull_flag bars.rows 3 10 (lit 15 1000)
    pullback ← detect_first_pullback bars.rows 5 (lit 6 10) 120
    gap ← detect_gap_and_go bars.rows premarket_high (lit 2 100)
    hod ← detect_hod_break bars.rows session_high
    fallback ← detect_continuation_fallback bars.rows 40 25 (lit 15 1000) (lit 65 100)
    some (flag ∷ pullback ∷ gap ∷ hod ∷ fallback ∷ [])

  unfoldable pub classify_setup :
      (List Real → Real)
      → List String
      → Frame Real
      → Option Real
      → Option Real
      → Real
      → Option (StructureDetectionResult Real)
  classify_setup mean enabled bars premarket_high session_high min_quality = do
    orb ← detect_opening_range_breakout mean bars 5 (lit 4 1000) nought
    if is_accepted enabled min_quality orb then some orb else do
      found ← detectors bars premarket_high session_high
      some (pick (filter (is_accepted enabled min_quality) found))
