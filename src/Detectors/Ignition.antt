-- ===== src/Detectors/Ignition.antt =====
-- strategy/evaluation/ignition.py: `detect_momentum_ignition`.
use momentum_system.Prelude.{
  ◌>>=◌, ℕ, ◌+◌, max, Bool, false, ◌&&◌, Option, none, some, List, [], ◌∷◌, length, ltb, leb,
  if◌then◌else◌,
}
use momentum_system.Float.{Float, Real, ◌<?◌, ◌≤?◌}
use momentum_system.Columns.{Columns}
use momentum_system.Setups.Data.{BarRow, last_row, max_of}
use momentum_system.Detectors.Data.{
  too_few_bars, not_blue_sky, velocity_failed, volume_failed, momentum_ignition, ShadowSignal,
  withheld, gated, last_higher_low, lows_of, volumes_of, row_back, gain, green_count, rising_count,
  burst_ratio,
}

pub record IgnitionConfig (R : Type 0) : Type 0 where
  pub velocity_min : R
  pub velocity_window : ℕ
  pub green_min : ℕ
  pub green_lookback : ℕ
  pub burst_mult : R
  pub burst_window : ℕ
  pub abs_vol_floor : R

pub record IgnitionValues (R : Type 0) : Type 0 where
  pub velocity_pct : R
  pub consecutive_green : ℕ
  pub higher_high_count : ℕ
  pub volume_burst_ratio : R
  pub cum_volume : R
  pub session_high : R
  pub prior_ath : Option R
  pub is_blue_sky : Bool
  pub new_hod : Bool

module _ ⦃n : Float⦄ where
  abbrev pub above : Option Real → Real → Bool
  above none high = false
  above (some ath) high = ath <? high

  abbrev pub bars_needed : IgnitionConfig Real → ℕ
  bars_needed k = max (max (k.velocity_window + 1) k.green_lookback) (k.burst_window + 1)

  -- the gates, from what is read of the bars on
  unfoldable pub ignition_of :
      Columns
      → IgnitionConfig Real
      → List (BarRow Real)
      → Option Real
      → BarRow Real
      → Real
      → Real
      → ℕ
      → ℕ
      → ShadowSignal Real (IgnitionValues Real)
  ignition_of pd k rows prior_ath last session_high base greens highs =
      let cum_volume = pd.sum (volumes_of rows) in
      let new_hod = session_high ≤? last.high in
      let blue_sky = above prior_ath session_high in
      let velocity = gain last.close base in
      let velocity_ok =
        (k.velocity_min ≤? velocity) && leb k.green_min greens && leb k.green_min highs in
      let burst = burst_ratio pd rows k.burst_window last.volume in
      let volume_ok = (k.burst_mult ≤? burst) && (k.abs_vol_floor ≤? cum_volume) in
      gated
        ((new_hod && blue_sky, not_blue_sky)
          ∷ (velocity_ok, velocity_failed)
          ∷ (volume_ok, volume_failed)
          ∷ [])
        (record {
          velocity_pct = n.round velocity 4;
          consecutive_green = greens;
          higher_high_count = highs;
          volume_burst_ratio = n.round burst 2;
          cum_volume = cum_volume;
          session_high = n.round session_high 4;
          prior_ath = prior_ath;
          is_blue_sky = blue_sky;
          new_hod = new_hod;
        })
        momentum_ignition (n.round session_high 4) (n.round (last_higher_low (lows_of rows)) 4)

  unfoldable pub detect_momentum_ignition :
      Columns
      → IgnitionConfig Real
      → List (BarRow Real)
      → Option Real
      → Option (ShadowSignal Real (IgnitionValues Real))
  detect_momentum_ignition pd k rows prior_ath =
      if ltb (length rows) (bars_needed k) then some (withheld too_few_bars none) else do
        last ← last_row rows
        session_high ← max_of (λ r. r.high) rows
        base ← row_back rows k.velocity_window
        greens ← green_count rows k.green_lookback
        highs ← rising_count rows k.green_lookback
        some (ignition_of pd k rows prior_ath last session_high base.close greens highs)
