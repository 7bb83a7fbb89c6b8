-- ===== src/Detectors/Runner.antt =====
-- strategy/evaluation/runner.py: `detect_leading_gainer_runner`.
use momentum_system.Prelude.{
  ◌>>=◌, ℕ, ◌+◌, max, Bool, false, ◌&&◌, Option, none, some, List, [], ◌∷◌, length, get_elem?, ltb,
  leb, if◌then◌else◌,
}
use momentum_system.Float.{Float, Real, nought, one, ◌⊖◌, ◌⊗◌, ◌⊘◌, ◌<?◌, ◌≤?◌, fmax}
use momentum_system.Columns.{Columns}
use momentum_system.Exits.Data.{truthy}
use momentum_system.Setups.Data.{BarRow, last_row, max_of}
use momentum_system.Evaluation.Levels.{calculate_vwap}
use momentum_system.Detectors.Data.{
  too_few_bars, velocity_failed, volume_failed, not_leader, lost_vwap, leading_gainer_runner,
  ShadowSignal, withheld, gated, last_higher_low, lows_of, volumes_of, row_back, gain, green_count,
  rising_count, burst_ratio,
}

pub record RunnerConfig (R : Type 0) : Type 0 where
  pub min_gain : R
  pub velocity_min : R
  pub velocity_window : ℕ
  pub hh_min : ℕ
  pub green_min : ℕ
  pub struct_lookback : ℕ
  pub burst_mult : R
  pub burst_window : ℕ
  pub abs_vol_floor : R
  pub vwap_margin : R
  pub pm_exhaustion_frac : R

pub record RunnerValues (R : Type 0) : Type 0 where
  pub total_run : R
  pub velocity_pct : R
  pub consecutive_green : ℕ
  pub higher_high_count : ℕ
  pub volume_burst_ratio : R
  pub cum_volume : R
  pub session_high : R
  pub session_vwap : R
  pub above_vwap : Bool
  pub day_base : R
  pub pm_high : Option R
  pub pm_capture : Option R
  pub pm_exhausted : Bool

-- `pm_exhausted` is a tag, and no gate.
pub record RunnerSignal (R : Type 0) : Type 0 where
  pub signal : ShadowSignal R (RunnerValues R)
  pub pm_exhausted : Bool

module _ ⦃n : Float⦄ where
  -- the average price that is given, or that of the bars
  unfoldable pub vwap_or : Option Real → List (BarRow Real) → Option Real
  vwap_or none rows = last_row (calculate_vwap rows)
  vwap_or (some x) rows = some x

  -- `float(x) if x and x > 0 else y`
  unfoldable pub base_or : Option Real → Real → Real
  base_or none y = y
  base_or (some x) y = if truthy x && (nought <? x) then x else y

  unfoldable pub capture_of : Option Real → Real → Real → Option Real
  capture_of none base session_high = none
  capture_of (some pm_high) base session_high =
      let full_move = fmax pm_high session_high ⊖ base in
      if nought <? base
      then if nought <? full_move then some ((pm_high ⊖ base) ⊘ full_move) else none
      else none

  abbrev exceeds : Option Real → Real → Bool
  exceeds none frac = false
  exceeds (some x) frac = frac <? x

  abbrev rounded : Option Real → Option Real
  rounded none = none
  rounded (some x) = some (n.round x 4)

  abbrev pub runner_needs : RunnerConfig Real → ℕ
  runner_needs k = max (max (max (k.velocity_window + 1) k.struct_lookback) (k.burst_window + 1)) 8

  unfoldable pub detect_leading_gainer_runner :
      Columns
      → RunnerConfig Real
      → List (BarRow Real)
      → Option Real
      → Option Real
      → Option Real
      → Option (RunnerSignal Real)
  detect_leading_gainer_runner pd k rows day_base pm_high given_vwap =
      if ltb (length rows) (runner_needs k)
      then some (record { signal = withheld too_few_bars none; pm_exhausted = false })
      else do
        last ← last_row rows
        first ← get_elem? rows 0
        session_high ← max_of (λ r. r.high) rows
        session_vwap ← vwap_or given_vwap rows
        back ← row_back rows k.velocity_window
        greens ← green_count rows k.struct_lookback
        highs ← rising_count rows k.struct_lookback
        let cum_volume = pd.sum (volumes_of rows)
        let base = base_or day_base first.open_price
        let total_run = gain session_high base
        let velocity = gain last.close back.close
        let velocity_ok =
            (k.velocity_min ≤? velocity) && leb k.hh_min highs && leb k.green_min greens
        let burst = burst_ratio pd rows k.burst_window last.volume
        let volume_ok = (k.burst_mult ≤? burst) && (k.abs_vol_floor ≤? cum_volume)
        let above_vwap = (session_vwap ⊗ (one ⊖ k.vwap_margin)) ≤? last.close
        let capture = capture_of pm_high base session_high
        let exhausted = exceeds capture k.pm_exhaustion_frac
        some (record {
          signal =
              gated
                ((k.min_gain ≤? total_run, not_leader)
                  ∷ (velocity_ok, velocity_failed)
                  ∷ (volume_ok, volume_failed)
                  ∷ (above_vwap, lost_vwap)
                  ∷ [])
                (record {
                  total_run = n.round total_run 4;
                  velocity_pct = n.round velocity 4;
                  consecutive_green = greens;
                  higher_high_count = highs;
                  volume_burst_ratio = n.round burst 2;
                  cum_volume = cum_volume;
                  session_high = n.round session_high 4;
                  session_vwap = n.round session_vwap 4;
                  above_vwap = above_vwap;
                  day_base = n.round base 4;
                  pm_high = pm_high;
                  pm_capture = rounded capture;
                  pm_exhausted = exhausted;
                })
                leading_gainer_runner (n.round last.close 4)
                (n.round (last_higher_low (lows_of rows)) 4);
          pm_exhausted = exhausted;
        })
