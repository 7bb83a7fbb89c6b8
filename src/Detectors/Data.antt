-- ===== src/Detectors/Data.antt =====
-- strategy/evaluation: what the detectors read with, and their signals.
use momentum_system.Prelude.{
  ◌*◌, leb, ◌>>=◌, ℕ, zero, suc, ◌+◌, ◌-◌, Bool, true, false, Option, none, some, List, [], ◌∷◌,
  map, length, get_elem?, ltb, if◌then◌else◌,
}
use momentum_system.Float.{Float, Real, nought, one, ◌⊖◌, ◌⊘◌, ◌<?◌, fmin}
use momentum_system.Columns.{Columns}
use momentum_system.Setups.Data.{BarRow, slice}

pub data GateReason : Type 0 where
  too_few_bars not_blue_sky velocity_failed volume_failed momentum_ignition : GateReason
  not_leader lost_vwap leading_gainer_runner : GateReason
  illiquid below_price_floor no_rvol_surge not_at_high below_vwap liquid_breakout : GateReason
  gap_below_floor thin_volume no_velocity premarket_setup : GateReason
  window_too_small no_impulse broke_hold not_curling near_high not_green unplaceable : GateReason
  vwap_reclaim : GateReason

-- `level` is the breakout level, or the entry level; `values` are those that the caller logs.
pub record ShadowSignal (R V : Type 0) : Type 0 where
  pub is_valid : Bool
  pub level : Option R
  pub stop_level : Option R
  pub reason : GateReason
  pub values : Option V

abbrev pub withheld : {R V : Type 0} → GateReason → Option V → ShadowSignal R V
withheld why values = record {
  is_valid = false;
  level = none;
  stop_level = none;
  reason = why;
  values = values;
}

-- the reason of the first gate that is shut
unfoldable pub shut : List (Bool × GateReason) → Option GateReason
shut [] = none
shut ((is_open, why) ∷ gates) = if is_open then shut gates else some why

unfoldable pub signal_of :
    {R V : Type 0} → Option GateReason → V → GateReason → R → R → ShadowSignal R V
signal_of (some refusal) values why level stop = withheld refusal (some values)
signal_of none values why level stop = record {
  is_valid = true;
  level = some level;
  stop_level = some stop;
  reason = why;
  values = some values;
}

-- a signal behind its gates
abbrev pub gated :
    {R V : Type 0} → List (Bool × GateReason) → V → GateReason → R → R → ShadowSignal R V
gated gates values why level stop = signal_of (shut gates) values why level stop

module _ ⦃n : Float⦄ where
  -- `min(xs) if xs else 0.0`
  unfoldable pub least_low : Real → List Real → Real
  least_low best [] = best
  least_low best (x ∷ xs) = least_low (fmin best x) xs

  unfoldable pub lowest_low : List Real → Real
  lowest_low [] = nought
  lowest_low (x ∷ xs) = least_low x xs

  unfoldable pub rises : Option Real → Option Real → Bool
  rises none x = false
  rises (some before) none = false
  rises (some before) (some x) = before <? x

  -- from the index `i` back to 1: the first that is higher than the one before it
  unfoldable pub higher_low : List Real → ℕ → Option Real
  higher_low lows zero = none
  higher_low lows (suc i) =
      let rest = higher_low lows i in
      if rises (get_elem? lows i) (get_elem? lows (suc i)) then get_elem? lows (suc i) else rest

  abbrev or_lowest : Option Real → List Real → Real
  or_lowest none lows = lowest_low lows
  or_lowest (some x) lows = x

  -- `_last_higher_low`
  unfoldable pub last_higher_low : List Real → Real
  last_higher_low lows = or_lowest (higher_low lows (length lows - 2)) lows

  abbrev pub lows_of : List (BarRow Real) → List Real
  lows_of rows = map (λ r. r.low) rows

  abbrev pub volumes_of : List (BarRow Real) → List Real
  volumes_of rows = map (λ r. r.volume) rows

  abbrev pub is_green : BarRow Real → Bool
  is_green r = r.open_price <? r.close

  -- `c[last - window]`: an index below zero counts from the end, and raises before the first row
  abbrev pub row_back : List (BarRow Real) → ℕ → Option (BarRow Real)
  row_back rows k =
      if ltb k (length rows)
      then get_elem? rows (length rows - 1 - k)
      else if ltb k (2 * length rows)
      then get_elem? rows (2 * length rows - 1 - k)
      else none

  -- `x / base - 1.0 if base > 0 else 0.0`
  abbrev pub gain : Real → Real → Real
  gain x base = if nought <? base then (x ⊘ base) ⊖ one else nought

  -- how many of the last `k` bars are green; each index is read as it is
  unfoldable pub green_count : List (BarRow Real) → ℕ → Option ℕ
  green_count rows zero = some 0
  green_count rows (suc k) = do
    here ← row_back rows k
    greens ← green_count rows k
    some ((if is_green here then 1 else 0) + greens)

  -- how many of the last `k` bars have a higher high than the bar before; before the first bar an
  -- index of -1 reads the last one
  unfoldable pub rising_count : List (BarRow Real) → ℕ → Option ℕ
  rising_count rows zero = some 0
  rising_count rows (suc k) = do
    here ← row_back rows k
    before ← row_back rows (suc k)
    rising ← rising_count rows k
    some ((if before.high <? here.high then 1 else 0) + rising)

  -- the last volume against the mean of the `window` before it; a slice that starts below zero
  -- starts that far before the end
  unfoldable pub burst_ratio : Columns → List (BarRow Real) → ℕ → Real → Real
  burst_ratio pd rows window last_volume =
      let last = length rows - 1 in
      let start = if leb window last then last - window else length rows + last - window in
      let prior = if ltb 0 window then pd.mean (volumes_of (slice start last rows)) else nought in
      if nought <? prior then last_volume ⊘ prior else nought
