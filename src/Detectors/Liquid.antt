-- ===== src/Detectors/Liquid.antt =====
-- strategy/evaluation/liquid_breakout.py and premarket_setup.py
use momentum_system.Prelude.{
  ◌>>=◌, ℕ, ◌+◌, ◌-◌, max, Bool, ◌&&◌, ◌||◌, not, Option, none, some, List, [], ◌∷◌, map, length,
  take, drop, get_elem?, ltb, if◌then◌else◌,
}
use momentum_system.Float.{Float, Real, nought, one, ◌⊖◌, ◌⊗◌, ◌⊘◌, ◌<?◌, ◌≤?◌}
use momentum_system.Columns.{Columns}
use momentum_system.Setups.Data.{BarRow, last_row, max_of}
use momentum_system.Detectors.Data.{
  too_few_bars, illiquid, below_price_floor, no_rvol_surge, not_at_high, below_vwap,
  liquid_breakout, gap_below_floor, thin_volume, no_velocity, premarket_setup, ShadowSignal,
  withheld, gated, last_higher_low, lows_of, volumes_of, row_back, gain,
}
use momentum_system.Detectors.Runner.{vwap_or, base_or}

-- The windows are of one bar or more.
pub record LiquidConfig (R : Type 0) : Type 0 where
  pub min_dollar_vol : R
  pub min_bar_dollar_vol : R
  pub rvol_min : R
  pub rvol_recent : ℕ
  pub rvol_base_min : ℕ
  pub breakout_tol : R
  pub vwap_margin : R
  pub price_min : R

pub record LiquidValues (R : Type 0) : Type 0 where
  pub cum_dollar_vol : R
  pub recent_bar_depth : R
  pub rvol : R
  pub price : R
  pub session_high : R
  pub session_vwap : R
  pub above_vwap : Bool
  pub is_breakout : Bool

pub record PremarketConfig (R : Type 0) : Type 0 where
  pub min_gap : R
  pub min_pm_volume : R
  pub price_min : R
  pub breakout_tol : R
  pub vwap_margin : R
  pub velocity_window : ℕ
  pub velocity_min : R

pub record PremarketValues (R : Type 0) : Type 0 where
  pub gap : R
  pub velocity : R
  pub cum_pm_volume : R
  pub price : R
  pub pm_high : R
  pub pm_vwap : R
  pub above_vwap : Bool
  pub is_breakout : Bool

module _ ⦃n : Float⦄ where
  abbrev pub dollar_volume : BarRow Real → Real
  dollar_volume r = r.close ⊗ r.volume

  -- the mean volume of the last `k` bars against that of the bars before them
  unfoldable pub rvol_of : Columns → List (BarRow Real) → ℕ → Real
  rvol_of pd rows k =
      let before = length rows - k in
      let recent = pd.mean (volumes_of (drop before rows)) in
      let base = if ltb 0 before then pd.mean (volumes_of (take before rows)) else nought in
      if nought <? base then recent ⊘ base else nought

  abbrev pub liquid_needs : LiquidConfig Real → ℕ
  liquid_needs k = max (k.rvol_recent + k.rvol_base_min) 12

  unfoldable pub detect_liquid_intraday_breakout :
      Columns
      → LiquidConfig Real
      → List (BarRow Real)
      → Option Real
      → Option (ShadowSignal Real (LiquidValues Real))
  detect_liquid_intraday_breakout pd k rows given_vwap =
      if ltb (length rows) (liquid_needs k) then some (withheld too_few_bars none) else do
        last ← last_row rows
        session_high ← max_of (λ r. r.high) rows
        vwap ← vwap_or given_vwap rows
        let dollars = map dollar_volume rows
        let total = pd.sum dollars
        let depth = pd.median (drop (length rows - k.rvol_recent) dollars)
        let liquid = (k.min_dollar_vol ≤? total) && (k.min_bar_dollar_vol ≤? depth)
        let rvol = rvol_of pd rows k.rvol_recent
        let rvol_ok = (k.rvol_min ≤? nought) || (k.rvol_min ≤? rvol)
        let breakout = (session_high ⊗ (one ⊖ k.breakout_tol)) ≤? last.close
        let above_vwap = (vwap ⊗ (one ⊖ k.vwap_margin)) ≤? last.close
        some (
            gated
              ((liquid, illiquid)
                ∷ (k.price_min ≤? last.close, below_price_floor)
                ∷ (rvol_ok, no_rvol_surge)
                ∷ (breakout, not_at_high)
                ∷ (above_vwap, below_vwap)
                ∷ [])
              (record {
                cum_dollar_vol = n.round total 0;
                recent_bar_depth = n.round depth 0;
                rvol = n.round rvol 2;
                price = n.round last.close 4;
                session_high = n.round session_high 4;
                session_vwap = n.round vwap 4;
                above_vwap = above_vwap;
                is_breakout = breakout;
              })
              liquid_breakout (n.round last.close 4) (n.round (last_higher_low (lows_of rows)) 4))

  abbrev pub premarket_needs : PremarketConfig Real → ℕ
  premarket_needs k = max (k.velocity_window + 1) 10

  -- the bars are those before the open
  unfoldable pub detect_premarket_setup :
      Columns
      → PremarketConfig Real
      → List (BarRow Real)
      → Option Real
      → Option Real
      → Option (ShadowSignal Real (PremarketValues Real))
  detect_premarket_setup pd k rows prev_close given_vwap =
      if ltb (length rows) (premarket_needs k) then some (withheld too_few_bars none) else do
        last ← last_row rows
        first ← get_elem? rows 0
        pm_high ← max_of (λ r. r.high) rows
        back ← row_back rows k.velocity_window
        vwap ← vwap_or given_vwap rows
        let volume = pd.sum (volumes_of rows)
        let gap = gain pm_high (base_or prev_close first.open_price)
        let velocity = gain last.close back.close
        let breakout = (pm_high ⊗ (one ⊖ k.breakout_tol)) ≤? last.close
        let above_vwap = (vwap ⊗ (one ⊖ k.vwap_margin)) ≤? last.close
        some (
            gated
              ((not (gap <? k.min_gap), gap_below_floor)
                ∷ (not (volume <? k.min_pm_volume), thin_volume)
                ∷ (not (last.close <? k.price_min), below_price_floor)
                ∷ (not (velocity <? k.velocity_min), no_velocity)
                ∷ (breakout, not_at_high)
                ∷ (above_vwap, below_vwap)
                ∷ [])
              (record {
                gap = n.round gap 4;
                velocity = n.round velocity 4;
                cum_pm_volume = n.round volume 0;
                price = n.round last.close 4;
                pm_high = n.round pm_high 4;
                pm_vwap = n.round vwap 4;
                above_vwap = above_vwap;
                is_breakout = breakout;
              })
              premarket_setup (n.round last.close 4) (n.round (last_higher_low (lows_of rows)) 4))
