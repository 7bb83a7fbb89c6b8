-- ===== src/Setups/Pullback.antt =====
-- strategy/evaluation/structure.py: `detect_first_pullback`.
use momentum_system.Prelude.{
  ◌>>=◌, ℕ, suc, ◌+◌, ◌-◌, min, Option, none, some, List, [], ◌∷◌, length, take, get_elem?, ltb,
  leb, if◌then◌else◌,
}
use momentum_system.Float.{Float, Real, lit, nought, one, ◌⊕◌, ◌⊖◌, ◌⊗◌, ◌⊘◌, ◌<?◌, fmax}
use momentum_system.Setups.Data.{
  BarRow, first_pullback, insufficient_bars, insufficient_window, impulse_too_short,
  impulse_too_small, no_pullback, pullback_too_deep, StructureDetectionResult, slice, as_real,
  min_of, refused, with_legs,
}

module _ ⦃n : Float⦄ where
  -- `np.argmax` of the highs: the first greatest of the rows from `i` on and the best before
  unfoldable pub argmax_from : ℕ → ℕ → Real → List (BarRow Real) → ℕ
  argmax_from i found best [] = found
  argmax_from i found best (r ∷ rs) =
      let later = argmax_from (suc i) i r.high rs in
      let rest = argmax_from (suc i) found best rs in if best <? r.high then later else rest

  unfoldable pub argmax_high : List (BarRow Real) → Option ℕ
  argmax_high [] = none
  argmax_high (r ∷ rs) = some (argmax_from 1 0 r.high rs)

  unfoldable pub pullback_quality : ℕ → ℕ → Real → Real → Real
  pullback_quality bars max_bars pullback_pct max_depth =
      fmax nought (one ⊖ (pullback_pct ⊘ max_depth)) ⊗ lit 6 10
      ⊕ fmax nought (one ⊖ (as_real bars ⊘ as_real max_bars)) ⊗ lit 4 10

  -- the pullback after the impulse from `low` to the high of the row `at`
  unfoldable pub pullback_after :
      List (BarRow Real) → ℕ → Real → ℕ → ℕ → Real → Real → Option (StructureDetectionResult Real)
  pullback_after rows max_pullback_bars max_depth at lookback high range =
      let start = at + 1 in
      let end = min (start + max_pullback_bars - 1) (length rows - 1) in
      if leb (length rows - 1) at then some (refused first_pullback no_pullback) else do
        low ← min_of (λ r. r.low) (slice start (end + 1) rows)
        let pullback_pct = (high ⊖ low) ⊘ range
        if max_depth <? pullback_pct
            then some (refused first_pullback pullback_too_deep)
            else some (
                with_legs first_pullback (at - lookback) at start end high (low ⊗ lit 995 1000)
                  (pullback_quality (end - start + 1) max_pullback_bars pullback_pct max_depth))

  -- from the row of the impulse's high on
  unfoldable pub pullback_at :
      List (BarRow Real) → ℕ → Real → ℕ → Option (StructureDetectionResult Real)
  pullback_at rows max_pullback_bars max_depth at = do
    top ← get_elem? rows at
    let lookback = min at 10
    if ltb lookback 3 then some (refused first_pullback impulse_too_short) else do
      low ← min_of (λ r. r.low) (slice (at - lookback) at rows)
      let range = top.high ⊖ low
      if (range ⊘ low) <? lit 3 100
          then some (refused first_pullback impulse_too_small)
          else pullback_after rows max_pullback_bars max_depth at lookback top.high range

  unfoldable pub detect_first_pullback :
      List (BarRow Real) → ℕ → Real → ℕ → Option (StructureDetectionResult Real)
  detect_first_pullback rows max_pullback_bars max_depth impulse_search_bars =
      let search_end = min (length rows) impulse_search_bars in
      if ltb (length rows) 5
      then some (refused first_pullback insufficient_bars)
      else if ltb search_end 5
      then some (refused first_pullback insufficient_window)
      else do
        at ← argmax_high (take search_end rows)
        pullback_at rows max_pullback_bars max_depth at
