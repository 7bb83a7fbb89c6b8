-- ===== src/Tests/Setups.antt =====
-- strategy/evaluation/structure.py on a short session.
use momentum_system.Prelude.{
  ◌+◌, ◌/◌, ◌≡◌, refl, true, false, none, some, List, [], ◌∷◌, length, All,
}
use momentum_system.Float.{Real, rank, lit, nought}
use momentum_system.Setups.Data.{
  BarRow, Frame, StructureDetectionResult, refused, max_of, min_of, greatest, least, last_row,
  value_of,
}
use momentum_system.Setups.Flag.{detect_bull_flag, find_impulse, flag_after, contract}
use momentum_system.Setups.Pullback.{
  detect_first_pullback, pullback_at, pullback_after, argmax_high, argmax_from, pullback_quality,
}
use momentum_system.Setups.Gap.{detect_gap_and_go, gap_quality}
use momentum_system.Setups.Hod.{detect_hod_break}
use momentum_system.Setups.Fallback.{detect_continuation_fallback}
use momentum_system.Setups.Opening.{regular, orb_quality, break_of, detect_opening_range_breakout}
use momentum_system.Setups.Classify.{is_accepted, classify_setup, best_of, pick, detectors}
use momentum_system.Setups.Range.{BreaksOut, detect_opening_range_breakout-BreaksOut}
use momentum_system.Setups.Yields.{Yields}
use momentum_system.Setups.Chosen.{Chosen, Below, classify_setup-Chosen, classify_setup-greatest}
use momentum_system.Tests.Fixed.{fixed}

-- the mean of whole volumes
abbrev total : List Real → Real
total [] = 0
total (x ∷ xs) = x + total xs

abbrev mean : List Real → Real
mean xs = total xs / length xs

abbrev row : Real → Real → Real → BarRow Real
row high low close = record {
  open_price = low;
  high = high;
  low = low;
  close = close;
  volume = 10000;
  is_regular_hours = true;
}

-- five bars between 1.90 and 2.00, and a close at 2.02
abbrev session : Frame Real
session = record {
  rows =
      row 19500 19000 19200
      ∷ row 19700 19100 19500
      ∷ row 20000 19400 19800
      ∷ row 19900 19500 19600
      ∷ row 19800 19400 19700
      ∷ row 20300 19700 20200
      ∷ [];
  marks_hours = true;
  has_volume = true;
}

breaks :
    (r : StructureDetectionResult Real) × (detect_opening_range_breakout mean session 5
        (lit 4 1000)
        nought
      ≡ some r)
    × (r.is_valid ≡ true)
    × (is_accepted ("gap_and_go" ∷ []) (lit 2 10) r ≡ false)
unfolding is_accepted value_of detect_opening_range_breakout regular break_of orb_quality max_of
    min_of greatest least last_row refused
breaks = (_, refl, refl, refl)

detect_opening_range_breakout-BreaksOut_example : BreaksOut mean session 5 nought breaks.0
detect_opening_range_breakout-BreaksOut_example =
    detect_opening_range_breakout-BreaksOut mean session 5 (lit 4 1000) nought breaks.0 breaks.1
      breaks.2

classify_setup-Chosen_example :
    Yields (Chosen [] (lit 2 10) 6) (classify_setup mean [] session none none (lit 2 10))
classify_setup-Chosen_example = classify_setup-Chosen [] (lit 2 10) mean session none none

-- with the gap-and-go alone enabled, the breakout may not be taken
found : (rs : List (StructureDetectionResult Real)) × (detectors session none none ≡ some rs)
unfolding detectors detect_bull_flag find_impulse flag_after contract detect_first_pullback
    argmax_high argmax_from pullback_at pullback_after pullback_quality detect_gap_and_go
    gap_quality detect_hod_break detect_continuation_fallback refused max_of min_of greatest least
    last_row
found = (_, refl)

chosen :
    (r : StructureDetectionResult Real) × (classify_setup mean
        ("gap_and_go" ∷ [])
        session
        none
        none
        (lit 2 10)
      ≡ some r)
unfolding classify_setup pick best_of is_accepted value_of detect_opening_range_breakout regular
    break_of orb_quality detectors detect_bull_flag find_impulse flag_after contract
    detect_first_pullback argmax_high argmax_from pullback_at pullback_after pullback_quality
    detect_gap_and_go gap_quality detect_hod_break detect_continuation_fallback refused max_of
    min_of greatest least last_row
chosen = (_, refl)

classify_setup-greatest_example :
    All (Below ("gap_and_go" ∷ []) (lit 2 10) (rank chosen.0.quality_score)) found.0
classify_setup-greatest_example =
    classify_setup-greatest ("gap_and_go" ∷ []) (lit 2 10) mean session none none breaks.0 chosen.0
      found.0 breaks.1 breaks.3 found.1 chosen.1
