-- ===== src/Setups/Gap.antt =====
-- strategy/evaluation/structure.py: `detect_gap_and_go`.
use momentum_system.Prelude.{
  ◌>>=◌, ◌-◌, min, Option, none, some, List, length, take, get_elem?, ltb, if◌then◌else◌,
}
use momentum_system.Float.{Float, Real, lit, nought, one, ◌⊕◌, ◌⊖◌, ◌⊗◌, ◌⊘◌, ◌<?◌, fmin}
use momentum_system.Exits.Data.{truthy}
use momentum_system.Setups.Data.{
  BarRow, gap_and_go, insufficient_bars, gap_too_small, waiting_for_breakout,
  StructureDetectionResult, last_row, max_of, min_of, refused, without_legs,
}

module _ ⦃n : Float⦄ where
  -- a level that is given, and not zero, or else the one that the bars show
  abbrev pub given_or : Option Real → Option Real → Option Real
  given_or none level = level
  given_or (some x) level = if truthy x then some x else level

  unfoldable pub gap_quality : Real → Real → Real
  gap_quality gap_pct trend =
      fmin one (gap_pct ⊘ lit 15 100) ⊗ lit 6 10
      ⊕ (if nought <? trend then one else lit 5 10) ⊗ lit 4 10

  unfoldable pub detect_gap_and_go :
      List (BarRow Real) → Option Real → Real → Option (StructureDetectionResult Real)
  detect_gap_and_go rows premarket_high min_gap_pct =
      if ltb (length rows) 5 then some (refused gap_and_go insufficient_bars) else do
        opening ← get_elem? rows 0
        reference ← min_of (λ r. r.low) (take (min 5 (length rows)) rows)
        let gap_pct = (opening.open_price ⊖ reference) ⊘ reference
        if gap_pct <? min_gap_pct then some (refused gap_and_go gap_too_small) else do
          breakout ←
              given_or premarket_high (max_of (λ r. r.high) (take (min 3 (length rows)) rows))
          last ← last_row rows
          if last.close <? (breakout ⊗ lit 97 100)
              then some (refused gap_and_go waiting_for_breakout)
              else do
                early ← get_elem? rows (min (length rows - 1) 3)
                low ← min_of (λ r. r.low) (take (min 10 (length rows)) rows)
                some (
                    without_legs gap_and_go breakout (low ⊗ lit 995 1000)
                      (gap_quality gap_pct ((last.close ⊖ early.close) ⊘ early.close)))
