-- ===== src/Setups/Fallback.antt =====
-- strategy/evaluation/structure.py: `detect_continuation_fallback`.
use momentum_system.Prelude.{
  ◌>>=◌, ℕ, suc, ◌+◌, ◌-◌, min, max, Option, some, List, [], ◌∷◌, length, take, drop, ltb, leb,
  if◌then◌else◌,
}
use momentum_system.Float.{
  Float, Real, lit, nought, one, ◌⊕◌, ◌⊖◌, ◌⊗◌, ◌⊘◌, ◌<?◌, ◌≤?◌, fmax, fmin, fabs,
}
use momentum_system.Setups.Data.{
  BarRow, continuation_fallback, insufficient_bars, insufficient_window, no_impulse, invalid_range,
  no_pullback, pullback_too_deep, invalid_geometry, StructureDetectionResult, slice, last_row,
  max_of, min_of, refused, with_legs,
}

-- the variables of the search: the window with the best gain so far
pub record Impulse (R : Type 0) : Type 0 where
  pub start : ℕ
  pub end : ℕ
  pub gain : R

module _ ⦃n : Float⦄ where
  -- the search: rows and the rows a window later; `i` is the first of the former
  unfoldable pub best_impulse :
      ℕ → ℕ → Impulse Real → List (BarRow Real) → List (BarRow Real) → Impulse Real
  best_impulse window i best [] later = best
  best_impulse window i best (a ∷ as') [] = best
  best_impulse window i best (a ∷ as') (b ∷ bs) =
      let gain = (b.close ⊖ a.close) ⊘ a.close in
      best_impulse window (suc i)
        (if a.close ≤? nought
          then best
          else if best.gain <? gain
          then record { start = i; end = i + window; gain = gain }
          else best)
        as' bs

  unfoldable pub fallback_quality : Real → Real → Real → Real → Real → Real
  fallback_quality gain pullback_pct max_pullback_pct breakout current =
      fmin one (gain ⊘ lit 5 100) ⊗ lit 45 100
      ⊕ fmax nought (one ⊖ (pullback_pct ⊘ max_pullback_pct)) ⊗ lit 35 100
      ⊕ fmax nought (one ⊖ fabs ((breakout ⊖ current) ⊘ breakout)) ⊗ lit 20 100

  -- the pullback over the rows from `start` to `end`
  unfoldable pub fallback_from :
      List (BarRow Real)
      → Impulse Real
      → Real
      → Real
      → Real
      → ℕ
      → ℕ
      → Option (StructureDetectionResult Real)
  fallback_from rows best max_pullback_pct high range start end = do
    low ← min_of (λ r. r.low) (slice start (end + 1) rows)
    let pullback_pct = fmax nought (high ⊖ low) ⊘ range
    let stop = low ⊗ lit 995 1000
    if max_pullback_pct <? pullback_pct
        then some (refused continuation_fallback pullback_too_deep)
        else if high ≤? stop
        then some (refused continuation_fallback invalid_geometry)
        else do
          last ← last_row rows
          some (
              with_legs continuation_fallback best.start best.end start end high stop
                (fallback_quality best.gain pullback_pct max_pullback_pct high last.close))

  -- the pullback after an impulse up to `high`, over a range
  unfoldable pub fallback_after :
      List (BarRow Real)
      → Impulse Real
      → Real
      → Real
      → Real
      → Option (StructureDetectionResult Real)
  fallback_after rows best max_pullback_pct high range =
      let start = min (best.end + 1) (length rows - 1) in
      let end = min (start + 20) (length rows - 1) in
      if range ≤? nought
      then some (refused continuation_fallback invalid_range)
      else if leb end start
      then some (refused continuation_fallback no_pullback)
      else fallback_from rows best max_pullback_pct high range start end

  -- from the best window on
  unfoldable pub fallback_of :
      List (BarRow Real) → Impulse Real → Real → Option (StructureDetectionResult Real)
  fallback_of rows best max_pullback_pct = do
    high ← max_of (λ r. r.high) (slice best.start (best.end + 1) rows)
    low ← min_of (λ r. r.low) (slice best.start (best.end + 1) rows)
    fallback_after rows best max_pullback_pct high (high ⊖ low)

  unfoldable pub detect_continuation_fallback :
      List (BarRow Real) → ℕ → ℕ → Real → Real → Option (StructureDetectionResult Real)
  detect_continuation_fallback rows min_bars window min_impulse_pct max_pullback_pct =
      let search_end = min (length rows) (max min_bars 120) in
      let first : Impulse Real = record { start = 0; end = window; gain = n.neg one } in
      let best = best_impulse window 0 first (take (search_end - window) rows) (drop window rows) in
      if ltb (length rows) min_bars
      then some (refused continuation_fallback insufficient_bars)
      else if ltb search_end (window + 5)
      then some (refused continuation_fallback insufficient_window)
      else if best.gain <? min_impulse_pct
      then some (refused continuation_fallback no_impulse)
      else fallback_of rows best max_pullback_pct
