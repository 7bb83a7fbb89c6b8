-- ===== src/Setups/Opening.antt =====
-- strategy/evaluation/structure.py: `opening_range` and `detect_opening_range_breakout`.
use momentum_system.Prelude.{
  ◌>>=◌, ℕ, ◌+◌, Bool, true, false, ◌&&◌, ◌||◌, Option, none, some, List, map, filter, length, take,
  drop, ltb, if◌then◌else◌,
}
use momentum_system.Float.{
  Float, Real, lit, nought, one, ◌⊕◌, ◌⊖◌, ◌⊗◌, ◌⊘◌, ◌<?◌, ◌≤?◌, fmax, fmin,
}
use momentum_system.Exits.Data.{is_empty}
use momentum_system.Setups.Data.{
  BarRow, Frame, opening_range_break, no_regular_hours, range_not_complete, range_too_tight,
  no_break_yet, invalid_geometry, StructureDetectionResult, last_row, max_of, min_of, refused,
  without_legs,
}

-- What `opening_range` returns.
pub record OpeningRange (R : Type 0) : Type 0 where
  pub high : Option R
  pub low : Option R
  pub complete : Bool

module _ ⦃n : Float⦄ where
  -- the bars of the regular hours
  unfoldable pub regular : Frame Real → List (BarRow Real)
  regular bars = if bars.marks_hours then filter (λ r. r.is_regular_hours) bars.rows else bars.rows

  abbrev pub no_range : OpeningRange Real
  no_range = record { high = none; low = none; complete = false }

  -- `none` stands for a call that raises
  unfoldable pub opening_range : Frame Real → ℕ → Option (OpeningRange Real)
  opening_range bars orb_bars =
      let rth = regular bars in
      if is_empty bars.rows
      then some no_range
      else if ltb (length rth) orb_bars
      then some no_range
      else do
        high ← max_of (λ r. r.high) (take orb_bars rth)
        low ← min_of (λ r. r.low) (take orb_bars rth)
        some (record { high = some high; low = some low; complete = true })

  unfoldable pub orb_quality : Real → Bool → Real
  orb_quality extension vol_ok =
      let quality =
        lit 4 10
        ⊕ fmin (lit 4 10) (extension ⊘ lit 2 100 ⊗ lit 4 10)
        ⊕ (if vol_ok then lit 2 10 else nought) in
      fmax nought (fmin one quality)

  -- `mean` is that of pandas
  module _ (mean : List Real → Real) where
    -- from a range that is wide enough on: the bars in it, and those after it
    unfoldable pub break_of :
        Bool
        → Real
        → Real
        → Real
        → List (BarRow Real)
        → List (BarRow Real)
        → Option (StructureDetectionResult Real)
    break_of has_volume min_break_pct high low orb after = do
      last ← last_row after
      let orb_vol = if has_volume then mean (map (λ r. r.volume) orb) else nought
      let break_vol = if has_volume then last.volume else nought
      let vol_ok = (orb_vol ≤? nought) || ((lit 8 10 ⊗ orb_vol) ≤? break_vol)
      let stop = low ⊗ lit 995 1000
      if last.close <? (high ⊗ (one ⊕ min_break_pct))
          then some (refused opening_range_break no_break_yet)
          else if high ≤? stop
          then some (refused opening_range_break invalid_geometry)
          else some (
              without_legs opening_range_break high stop
                (orb_quality ((last.close ⊖ high) ⊘ high) vol_ok))

    unfoldable pub detect_opening_range_breakout :
        Frame Real → ℕ → Real → Real → Option (StructureDetectionResult Real)
    detect_opening_range_breakout bars orb_bars min_range_pct min_break_pct =
        let rth = regular bars in
        if bars.marks_hours && is_empty rth
        then some (refused opening_range_break no_regular_hours)
        else if ltb (length rth) (orb_bars + 1)
        then some (refused opening_range_break range_not_complete)
        else do
          high ← max_of (λ r. r.high) (take orb_bars rth)
          low ← min_of (λ r. r.low) (take orb_bars rth)
          if (high ≤? nought) || (((high ⊖ low) ⊘ high) <? min_range_pct)
              then some (refused opening_range_break range_too_tight)
              else break_of bars.has_volume min_break_pct high low (take orb_bars rth)
                  (drop orb_bars rth)
