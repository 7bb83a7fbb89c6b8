-- ===== src/Evaluation/Volume.antt =====
-- strategy/evaluation/volume_metrics.py, regime.py and liquidity.py
use momentum_system.Prelude.{
  ◌>>=◌, ℕ, Bool, true, ◌&&◌, ◌||◌, Option, none, some, List, map, length, if◌then◌else◌,
}
use momentum_system.Prelude.Int.{ℤ, pos}
use momentum_system.Float.{
  Float, Real, lit, nought, one, ◌⊕◌, ◌⊖◌, ◌⊗◌, ◌⊘◌, ◌<?◌, ◌≤?◌, fmax, fmin,
}
use momentum_system.Columns.{Columns}
use momentum_system.Exits.Data.{is_empty, truthy}
use momentum_system.Setups.Data.{BarRow, last_row, as_real}

pub record VolumeMetrics (R : Type 0) : Type 0 where
  pub session_volume : ℤ
  pub relative_volume : R
  pub time_of_day_rvol : R
  pub float_rotation : R
  pub avg_bar_volume : R
  pub last_bar_volume : ℤ

pub data MarketRegime : Type 0 where
  hot normal cold : MarketRegime

pub record RegimeAssessment (R : Type 0) : Type 0 where
  pub regime : MarketRegime
  pub score : R

module _ ⦃n : Float⦄ where
  unfoldable pub calculate_time_of_day_rvol : Real → Real → Real → Real → Real
  calculate_time_of_day_rvol session_volume avg_daily_volume minutes_elapsed session_minutes =
      let fraction = fmin one (fmax (minutes_elapsed ⊘ session_minutes) (lit 1 1000000000)) in
      let expected = avg_daily_volume ⊗ fraction in
      if (avg_daily_volume ≤? nought) || (minutes_elapsed ≤? nought)
      then nought
      else if nought <? expected
      then session_volume ⊘ expected
      else nought

  unfoldable pub calculate_float_rotation : Real → Real → Real
  calculate_float_rotation session_volume float_shares =
      if float_shares ≤? nought then nought else session_volume ⊘ float_shares

  -- `x and x > 0`
  unfoldable pub positive : Option Real → Option Real
  positive none = none
  positive (some x) = if truthy x && (nought <? x) then some x else none

  unfoldable pub relative_of : Option Real → Real → Real
  relative_of none volume = nought
  relative_of (some average) volume = volume ⊘ average

  unfoldable pub day_rvol_of : Option Real → Real → ℕ → Real
  day_rvol_of none volume bars = nought
  day_rvol_of (some average) volume bars =
      calculate_time_of_day_rvol volume average (as_real bars) (lit 390 1)

  unfoldable pub rotation_of : Option Real → Real → Real
  rotation_of none volume = nought
  rotation_of (some shares) volume = calculate_float_rotation volume shares

  unfoldable pub calculate_enhanced_volume_metrics :
      Columns → List (BarRow Real) → Option Real → Option Real → Option (VolumeMetrics Real)
  calculate_enhanced_volume_metrics pd rows avg_daily_volume float_shares =
      let volumes = map (λ r. r.volume) rows in
      let total = n.trunc (pd.sum volumes) in
      if is_empty rows
      then some (record {
        session_volume = pos 0;
        relative_volume = nought;
        time_of_day_rvol = nought;
        float_rotation = nought;
        avg_bar_volume = nought;
        last_bar_volume = pos 0;
      })
      else do
        last ← last_row volumes
        some (record {
          session_volume = total;
          relative_volume = relative_of (positive avg_daily_volume) (n.of_int total);
          time_of_day_rvol = day_rvol_of (positive avg_daily_volume) (n.of_int total) (length rows);
          float_rotation = rotation_of (positive float_shares) (n.of_int total);
          avg_bar_volume = pd.mean volumes;
          last_bar_volume = n.trunc last;
        })

  -- strategy/evaluation/regime.py
  unfoldable pub assess_market_regime : ℤ → Real → Real → RegimeAssessment Real
  assess_market_regime gappers_count avg_gap_pct spy_change_pct =
      let breadth = fmin one (n.of_int gappers_count ⊘ lit 10 1) ⊗ lit 1 2 in
      let gaps = fmin one (fmax nought (avg_gap_pct ⊘ lit 15 100)) ⊗ lit 3 10 in
      let index = fmin one (fmax nought ((spy_change_pct ⊕ lit 1 100) ⊘ lit 2 100)) ⊗ lit 2 10 in
      let score = nought ⊕ breadth ⊕ gaps ⊕ index in
      record {
        regime = if lit 65 100 ≤? score then hot else if lit 35 100 ≤? score then normal else cold;
        score = n.round score 3;
      }

  unfoldable pub get_regime_adjustment : MarketRegime → Real
  get_regime_adjustment hot = one
  get_regime_adjustment normal = lit 75 100
  get_regime_adjustment cold = lit 1 2

  unfoldable pub should_trade_in_regime : MarketRegime → Bool → Bool
  should_trade_in_regime hot allow_cold = true
  should_trade_in_regime normal allow_cold = true
  should_trade_in_regime cold allow_cold = allow_cold

  -- strategy/evaluation/liquidity.py, of quotes that are numbers
  unfoldable pub compute_spread_pct : Option Real → Option Real → Option Real
  compute_spread_pct none ask = none
  compute_spread_pct (some bid) none = none
  compute_spread_pct (some bid) (some ask) =
      let mid = (bid ⊕ ask) ⊘ lit 2 1 in
      if (bid ≤? nought) || (ask ≤? nought) || (ask <? bid)
      then none
      else if mid ≤? nought
      then none
      else some ((ask ⊖ bid) ⊘ mid)
