-- ===== src/Detectors/Returns.antt =====
-- strategy/evaluation: the detectors return, whatever the bars.
use momentum_system.Prelude.{
  ℕ, suc, ◌+◌, ◌-◌, ◌≤◌, ◌<◌, Option, inl, inr, List, [], ◌∷◌, map, length, drop, ltb, Bool-cases,
  arith,
}
use momentum_system.Float.{Float, Real, ◌<?◌}
use momentum_system.Columns.{Columns}
use momentum_system.Exits.Data.{is_empty}
use momentum_system.Setups.Data.{BarRow, slice}
use momentum_system.Setups.Yields.{
  Any, Yields, yields, length-drop, length-slice, get_elem?-Yields, last_row-Yields, max_of-Yields,
  min_of-Yields,
}
use momentum_system.Setups.Legged.{argmax_high-Yields}
use momentum_system.Evaluation.Levels.{calculate_vwap}
use momentum_system.Evaluation.Returns.{length-map, is_empty-length, length-calculate_vwap}
use momentum_system.Detectors.Gates.{
  green_count-greens, row_back-Yields, rising_count-Yields, vwap_or-Yields,
}
use momentum_system.Detectors.Runner.{RunnerConfig, runner_needs, detect_leading_gainer_runner}
use momentum_system.Detectors.Liquid.{
  LiquidConfig, PremarketConfig, liquid_needs, premarket_needs, detect_liquid_intraday_breakout,
  detect_premarket_setup,
}
use momentum_system.Detectors.Reclaim.{
  ReclaimConfig, argmin_from, argmin_low, window_start, curl_high_of, leg_of, detect_vwap_reclaim,
}

module _ ⦃n : Float⦄ (pd : Columns) (rows : List (BarRow Real)) where
  runner-Yields :
      (k : RunnerConfig Real) (base high vwap : Option Real)
      → Yields Any (detect_leading_gainer_runner pd k rows base high vwap)
  unfolding detect_leading_gainer_runner
  runner-Yields k base high vwap = elim (Bool-cases (ltb (length rows) (runner_needs k))) [
    | inl e ↦ rw e (yields _ tt)
    | inr e ↦
        let long : runner_needs k ≤ length rows = ground arith in
        let last = last_row-Yields rows (omega arith) in
        let first = get_elem?-Yields rows 0 (omega arith) in
        let top = max_of-Yields (λ r. r.high) rows (omega arith) in
        let average = vwap_or-Yields vwap rows (omega arith) in
        let back = row_back-Yields rows k.velocity_window (omega arith) in
        let greens = green_count-greens rows k.struct_lookback (omega arith) in
        let highs = rising_count-Yields rows k.struct_lookback (omega arith) in
        rw
          (
            e, last.returns, first.returns, top.returns, average.returns, back.returns, greens,
            highs.returns,
          )
          (yields _ tt)
  ]

  liquid-Yields :
      (k : LiquidConfig Real) (vwap : Option Real)
      → Yields Any (detect_liquid_intraday_breakout pd k rows vwap)
  unfolding detect_liquid_intraday_breakout
  liquid-Yields k vwap = elim (Bool-cases (ltb (length rows) (liquid_needs k))) [
    | inl e ↦ rw e (yields _ tt)
    | inr e ↦
        let long : liquid_needs k ≤ length rows = ground arith in
        let last = last_row-Yields rows (omega arith) in
        let top = max_of-Yields (λ r. r.high) rows (omega arith) in
        let average = vwap_or-Yields vwap rows (omega arith) in
        rw (e, last.returns, top.returns, average.returns) (yields _ tt)
  ]

  premarket-Yields :
      (k : PremarketConfig Real) (close vwap : Option Real)
      → Yields Any (detect_premarket_setup pd k rows close vwap)
  unfolding detect_premarket_setup
  premarket-Yields k close vwap = elim (Bool-cases (ltb (length rows) (premarket_needs k))) [
    | inl e ↦ rw e (yields _ tt)
    | inr e ↦
        let long : premarket_needs k ≤ length rows = ground arith in
        let last = last_row-Yields rows (omega arith) in
        let first = get_elem?-Yields rows 0 (omega arith) in
        let top = max_of-Yields (λ r. r.high) rows (omega arith) in
        let back = row_back-Yields rows k.velocity_window (omega arith) in
        let average = vwap_or-Yields vwap rows (omega arith) in
        rw (e, last.returns, first.returns, top.returns, back.returns, average.returns)
          (yields _ tt)
  ]

module _ ⦃n : Float⦄ where
  argmin_from-bounds :
      (i found : ℕ) (best : Real) (rows : List (BarRow Real))
      → found < i
      → argmin_from i found best rows < i + length rows
  unfolding argmin_from
  argmin_from-bounds i found best [] h = omega arith
  argmin_from-bounds i found best (r ∷ rs) h = elim (Bool-cases (r.low <? best)) [
    | inl e ↦ rw e (omega (arith, argmin_from-bounds (suc i) i r.low rs (omega arith)))
    | inr e ↦ rw e (omega (arith, argmin_from-bounds (suc i) found best rs (omega arith)))
  ]

  argmin_low-Yields :
      (rows : List (BarRow Real))
      → 0 < length rows
      → Yields (λ i. i < length rows) (argmin_low rows)
  unfolding argmin_low
  argmin_low-Yields [] h = ground arith
  argmin_low-Yields (r ∷ rs) h =
      yields _ (omega (arith, argmin_from-bounds 1 0 r.low rs (omega arith)))

  module _ (rows : List (BarRow Real)) where
    curl_high_of-Yields :
        (at : ℕ) (hod : Real) → at < length rows → Yields Any (curl_high_of rows at hod)
    unfolding curl_high_of
    curl_high_of-Yields at hod h = elim (Bool-cases (ltb at (length rows - 1))) [
      | inl e ↦ rw e (
          max_of-Yields (λ r. r.high) (slice at (length rows - 1) rows)
            (ground (arith, length-slice at (length rows - 1) rows)))
      | inr e ↦ rw e (yields _ tt)
    ]

    leg_of-Yields :
        (start at : ℕ) → start + at + 1 < length rows → Yields Any (leg_of rows start at)
    unfolding leg_of
    leg_of-Yields start at h =
        let top = get_elem?-Yields rows (start + at) (omega arith) in
        let low =
          min_of-Yields (λ r. r.low) (slice start (start + at + 1) rows)
            (omega (arith, length-slice start (start + at + 1) rows)) in
        let fell =
          argmin_low-Yields (drop (start + at + 1) rows)
            (omega (arith, length-drop (start + at + 1) rows)) in
        let inside : start + at + 1 + fell.value < length rows =
          omega (arith, fell.holds, length-drop (start + at + 1) rows) in
        let bottom = get_elem?-Yields rows (start + at + 1 + fell.value) inside in
        let curl = curl_high_of-Yields (start + at + 1 + fell.value) top.value.high inside in
        rw (top.returns, low.returns, fell.returns, bottom.returns, curl.returns) (yields _ tt)

    reclaim-Yields :
        (pd : Columns) (k : ReclaimConfig Real) → Yields Any (detect_vwap_reclaim pd k rows)
    unfolding detect_vwap_reclaim
    reclaim-Yields pd k =
        let len = length rows in
        let start = window_start k.lookback len in
        let searched = slice start (len - 2) rows in
        let closes = map (λ r. r.close) rows in
        elim (Bool-cases (ltb len k.min_bars)) [
          | inl e ↦ rw e (yields _ tt)
          | inr e ↦ elim (Bool-cases (is_empty searched)) [
            | inl f ↦ rw (e, f) (yields _ tt)
            | inr f ↦
                let some_left = is_empty-length searched f in
                let bound = length-slice start (len - 2) rows in
                let at = argmax_high-Yields searched some_left in
                let leg = leg_of-Yields start at.value (omega (arith, at.holds)) in
                let last = last_row-Yields rows (omega arith) in
                let prior = get_elem?-Yields rows (len - 2) (omega arith) in
                let sized = length-calculate_vwap rows in
                let vwap = last_row-Yields (calculate_vwap rows) (omega arith) in
                let prior_vwap = get_elem?-Yields (calculate_vwap rows) (len - 2) (omega arith) in
                let read = length-map (λ r. r.close) rows in
                let fast =
                  last_row-Yields (pd.ewm_mean 9 closes)
                    (omega (arith, pd.length-ewm_mean 9 closes)) in
                let slow =
                  last_row-Yields (pd.ewm_mean 20 closes)
                    (omega (arith, pd.length-ewm_mean 20 closes)) in
                rw
                  (
                    e, f, at.returns, leg.returns, last.returns, prior.returns, vwap.returns,
                    prior_vwap.returns, fast.returns, slow.returns,
                  )
                  (yields _ tt)
          ]
        ]

  -- The detectors of a runner, a liquid breakout, a setup before the open and a reclaim return,
  -- whatever the bars and the windows: no row that they read by an index is out of range, from
  -- either end, and no extreme is of no bars.
  pub detectors_return :
      (pd : Columns) (rows : List (BarRow Real))
      → ((k : RunnerConfig Real) (base high vwap : Option Real)
          → Yields Any (detect_leading_gainer_runner pd k rows base high vwap))
        × ((k : LiquidConfig Real) (vwap : Option Real)
            → Yields Any (detect_liquid_intraday_breakout pd k rows vwap))
        × ((k : PremarketConfig Real) (close vwap : Option Real)
            → Yields Any (detect_premarket_setup pd k rows close vwap))
        × ((k : ReclaimConfig Real) → Yields Any (detect_vwap_reclaim pd k rows))
  detectors_return pd rows = (
    runner-Yields pd rows,
    liquid-Yields pd rows,
    premarket-Yields pd rows,
    reclaim-Yields rows pd,
  )
