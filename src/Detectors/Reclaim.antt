-- ===== src/Detectors/Reclaim.antt =====
-- strategy/evaluation/vwap_reclaim.py: `detect_vwap_reclaim`.
use momentum_system.Prelude.{
  ◌>>=◌, ℕ, suc, ◌+◌, ◌-◌, Bool, not, ◌&&◌, Option, none, some, List, [], ◌∷◌, map, length, drop,
  get_elem?, ltb, leb, if◌then◌else◌,
}
use momentum_system.Float.{Float, Real, nought, one, ◌⊕◌, ◌⊖◌, ◌⊗◌, ◌⊘◌, ◌<?◌, ◌≤?◌, fmax}
use momentum_system.Columns.{Columns}
use momentum_system.Exits.Data.{is_empty}
use momentum_system.Setups.Data.{BarRow, slice, last_row, max_of, min_of}
use momentum_system.Setups.Pullback.{argmax_high}
use momentum_system.Evaluation.Levels.{calculate_vwap}
use momentum_system.Detectors.Data.{
  too_few_bars, window_too_small, no_impulse, broke_hold, not_curling, near_high, not_green,
  unplaceable, vwap_reclaim, GateReason, ShadowSignal, withheld, gated,
}

pub record ReclaimConfig (R : Type 0) : Type 0 where
  pub min_run_pct : R
  pub hold_frac : R
  pub hod_margin : R
  pub lookback : Option ℕ
  pub min_r_frac : R
  pub min_r_abs : R
  pub min_bars : ℕ

pub record ReclaimValues (R : Type 0) : Type 0 where
  pub run_pct : Option R
  pub pullback_low : R
  pub pullback_held_frac : Option R
  pub hod : R
  pub dist_from_vwap : R
  pub below_hod_pct : Option R
  pub ema9_ge_ema20 : Bool
  pub macd_hist : R
  pub crossed_vwap_up : Bool
  pub target_rr : R
  pub r_frac : Option R

pub record ReclaimSignal (R : Type 0) : Type 0 where
  pub signal : ShadowSignal R (ReclaimValues R)
  pub target_level : Option R

-- The leg and the pullback that are measured: the local high, the low that it ran from, and the
-- low after it, with the highest of the bars from that low up to the last.
pub record Leg (R : Type 0) : Type 0 where
  pub hod : R
  pub run_low : R
  pub pullback_low : R
  pub pullback_close : R
  pub still_falling : Bool
  pub curl_high : R

module _ ⦃n : Float⦄ where
  -- `idxmin` of the lows: the first least
  unfoldable pub argmin_from : ℕ → ℕ → Real → List (BarRow Real) → ℕ
  argmin_from i found best [] = found
  argmin_from i found best (r ∷ rs) =
      let later = argmin_from (suc i) i r.low rs in
      let rest = argmin_from (suc i) found best rs in if r.low <? best then later else rest

  unfoldable pub argmin_low : List (BarRow Real) → Option ℕ
  argmin_low [] = none
  argmin_low (r ∷ rs) = some (argmin_from 1 0 r.low rs)

  unfoldable pub minus : List Real → List Real → List Real
  minus [] ys = []
  minus (x ∷ xs) [] = []
  minus (x ∷ xs) (y ∷ ys) = (x ⊖ y) ∷ minus xs ys

  abbrev difference : Option Real → Option Real → Real
  difference none y = nought
  difference (some x) none = nought
  difference (some x) (some y) = x ⊖ y

  -- `_macd_hist`, with its default spans
  unfoldable pub macd_hist_of : Columns → List Real → Real
  macd_hist_of pd closes =
      let macd = minus (pd.ewm_mean 12 closes) (pd.ewm_mean 26 closes) in
      difference (last_row macd) (last_row (pd.ewm_mean 9 macd))

  unfoldable pub window_start : Option ℕ → ℕ → ℕ
  window_start none len = 0
  window_start (some lookback) len = if ltb 0 lookback then len - lookback else 0

  unfoldable pub curl_high_of : List (BarRow Real) → ℕ → Real → Option Real
  curl_high_of rows low_at hod =
      let last = length rows - 1 in
      if ltb low_at last then max_of (λ r. r.high) (slice low_at last rows) else some hod

  -- the leg whose high is the bar `start + at`
  unfoldable pub leg_of : List (BarRow Real) → ℕ → ℕ → Option (Leg Real)
  leg_of rows start at = do
    top ← get_elem? rows (start + at)
    run_low ← min_of (λ r. r.low) (slice start (start + at + 1) rows)
    fell ← argmin_low (drop (start + at + 1) rows)
    let low_at = start + at + 1 + fell
    bottom ← get_elem? rows low_at
    curl_high ← curl_high_of rows low_at top.high
    some (record {
      hod = top.high;
      run_low = run_low;
      pullback_low = bottom.low;
      pullback_close = bottom.close;
      still_falling = leb (length rows - 1) low_at;
      curl_high = curl_high;
    })

  abbrev per : Real → Real → ℕ → Option Real
  per x y k = if nought <? y then some (n.round (x ⊘ y) k) else none

  unfoldable pub judge_leg :
      ReclaimConfig Real
      → Leg Real
      → BarRow Real
      → BarRow Real
      → Real
      → Real
      → Bool
      → Real
      → ReclaimSignal Real
  judge_leg k leg last prior vwap prior_vwap green macd =
      let run = leg.hod ⊖ leg.run_low in
      let ran = (nought <? leg.run_low) && (k.min_run_pct ≤? (run ⊘ leg.run_low)) in
      let held = (nought <? run) && ((leg.run_low ⊕ k.hold_frac ⊗ run) ≤? leg.pullback_low) in
      let new_high = not leg.still_falling && (leg.curl_high <? last.high) in
      let recovered = leg.pullback_close <? last.close in
      let back_above = vwap ≤? last.close in
      let below_hod = last.close ≤? (leg.hod ⊗ (one ⊖ k.hod_margin)) in
      let entry = last.close in
      let r_abs = entry ⊖ leg.pullback_low in
      let placeable = fmax k.min_r_abs (k.min_r_frac ⊗ entry) ≤? r_abs in
      let rr = if nought <? r_abs then (leg.hod ⊖ entry) ⊘ r_abs else nought in
      let signal =
        gated
          ((ran, no_impulse)
            ∷ (held, broke_hold)
            ∷ (new_high && recovered && back_above, not_curling)
            ∷ (below_hod, near_high)
            ∷ (green, not_green)
            ∷ (placeable, unplaceable)
            ∷ [])
          (record {
            run_pct = per run leg.run_low 4;
            pullback_low = n.round leg.pullback_low 4;
            pullback_held_frac =
                if nought <? run
                then some (n.round ((leg.pullback_low ⊖ leg.run_low) ⊘ run) 3)
                else none;
            hod = n.round leg.hod 4;
            dist_from_vwap = n.round (entry ⊖ vwap) 4;
            below_hod_pct = per (leg.hod ⊖ entry) leg.hod 4;
            ema9_ge_ema20 = green;
            macd_hist = n.round macd 5;
            crossed_vwap_up = (prior.close <? prior_vwap) && back_above;
            target_rr = n.round rr 2;
            r_frac = per r_abs entry 4;
          })
          vwap_reclaim (n.round entry 4) (n.round leg.pullback_low 4) in
      record {
        signal = signal;
        target_level = if signal.is_valid then some (n.round leg.hod 4) else none;
      }

  abbrev reclaim_withheld : GateReason → ReclaimSignal Real
  reclaim_withheld why = record { signal = withheld why none; target_level = none }

  unfoldable pub detect_vwap_reclaim :
      Columns → ReclaimConfig Real → List (BarRow Real) → Option (ReclaimSignal Real)
  detect_vwap_reclaim pd k rows =
      let len = length rows in
      let start = window_start k.lookback len in
      let searched = slice start (len - 2) rows in
      let closes = map (λ r. r.close) rows in
      let vwaps = calculate_vwap rows in
      if ltb len k.min_bars
      then some (reclaim_withheld too_few_bars)
      else if is_empty searched
      then some (reclaim_withheld window_too_small)
      else do
        at ← argmax_high searched
        leg ← leg_of rows start at
        last ← last_row rows
        prior ← get_elem? rows (len - 2)
        vwap ← last_row vwaps
        prior_vwap ← get_elem? vwaps (len - 2)
        fast ← last_row (pd.ewm_mean 9 closes)
        slow ← last_row (pd.ewm_mean 20 closes)
        some (judge_leg k leg last prior vwap prior_vwap (slow ≤? fast) (macd_hist_of pd closes))
