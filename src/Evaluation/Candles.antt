-- ===== src/Evaluation/Candles.antt =====
-- strategy/evaluation/first_candles.py
use momentum_system.Prelude.{
  ◌>>=◌, ℕ, max, Bool, false, not, ◌&&◌, Option, none, some, List, [], ◌∷◌, map, take,
  if◌then◌else◌,
}
use momentum_system.Prelude.Int.{ℤ, pos}
use momentum_system.Float.{Float, Real, lit, nought, ◌⊖◌, ◌⊘◌, ◌<?◌, ◌≤?◌, fabs}
use momentum_system.Columns.{Columns}
use momentum_system.Setups.Data.{BarRow, last_row, greatest, least}
use momentum_system.Evaluation.Data.{Session}
use momentum_system.Evaluation.Levels.{regular_rows}
use momentum_system.Evaluation.Quality.{OpeningStrength, strong, neutral, weak}

pub record FirstCandleFeatures (R : Type 0) : Type 0 where
  pub first_candle_range_pct : R
  pub first_candle_body_pct : R
  pub first_candle_green : Bool
  pub first_candle_volume : ℤ
  pub open_above_premarket_high : Bool
  pub opening_strength : OpeningStrength

module _ ⦃n : Float⦄ where
  abbrev pub no_features : FirstCandleFeatures Real
  no_features = record {
    first_candle_range_pct = nought;
    first_candle_body_pct = nought;
    first_candle_green = false;
    first_candle_volume = pos 0;
    open_above_premarket_high = false;
    opening_strength = neutral;
  }

  unfoldable pub classify_opening_strength : FirstCandleFeatures Real → OpeningStrength
  classify_opening_strength feats =
      if feats.first_candle_green && (lit 2 100 ≤? feats.first_candle_body_pct)
      then strong
      else if not feats.first_candle_green && (lit 2 100 ≤? feats.first_candle_body_pct)
      then weak
      else neutral

  abbrev above_premarket : Real → Option Real → Bool
  above_premarket open_price none = false
  above_premarket open_price (some high) = high <? open_price

  -- the candles' features, before their strength is told
  unfoldable pub features_of :
      Columns → Option Real → BarRow Real → List (BarRow Real) → Real → FirstCandleFeatures Real
  features_of pd premarket_high r rs close =
      let o = r.open_price in
      let range = greatest (λ x. x.high) r.high rs ⊖ least (λ x. x.low) r.low rs in
      record {
        first_candle_range_pct = if nought <? o then range ⊘ o else nought;
        first_candle_body_pct = if nought <? o then fabs (close ⊖ o) ⊘ o else nought;
        first_candle_green = o <? close;
        first_candle_volume = n.trunc (pd.sum (map (λ x. x.volume) (r ∷ rs)));
        open_above_premarket_high = above_premarket o premarket_high;
        opening_strength = neutral;
      }

  unfoldable pub candle_features :
      Columns → Option Real → List (BarRow Real) → Option (FirstCandleFeatures Real)
  candle_features pd premarket_high [] = some no_features
  candle_features pd premarket_high (r ∷ rs) = do
    last ← last_row (r ∷ rs)
    let feats = features_of pd premarket_high r rs last.close
    some (record feats { opening_strength = classify_opening_strength feats })

  unfoldable pub calculate_first_candle_features :
      Columns → Session Real → Option Real → ℕ → Option (FirstCandleFeatures Real)
  calculate_first_candle_features pd s premarket_high n_candles =
      candle_features pd premarket_high (take (max 1 n_candles) (regular_rows s))
