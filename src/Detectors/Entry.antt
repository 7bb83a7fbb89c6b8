-- ===== src/Detectors/Entry.antt =====
-- strategy/evaluation/vwap_pullback_entry.py and runner_propensity.py
use momentum_system.Prelude.{
  ℕ, suc, ◌+◌, Bool, true, false, ◌&&◌, ◌||◌, Option, none, some, List, [], ◌∷◌, if◌then◌else◌,
}
use momentum_system.Float.{Float, Real, lit, nought, ◌<?◌, ◌≤?◌}

-- A forward bar, with the cumulative average price of the session at it.
pub record ForwardBar (R : Type 0) : Type 0 where
  pub low : R
  pub close : R
  pub vwap : R

pub data EntryReason : Type 0 where
  no_bars vwap_reclaim no_vwap_reclaim : EntryReason

pub record PullbackEntry (R : Type 0) : Type 0 where
  pub found : Bool
  pub entry_price : Option R
  pub stop_price : Option R
  pub entry_idx : Option ℕ
  pub reason : EntryReason

pub data GapSource : Type 0 where
  premarket rth no_gap : GapSource

pub record RunnerPropensity (R : Type 0) : Type 0 where
  pub tier : ℕ
  pub gap_tier : ℕ
  pub price_tier : ℕ
  pub gap_used : Option R
  pub gap_source : GapSource

module _ ⦃n : Float⦄ where
  abbrev not_found : EntryReason → PullbackEntry Real
  not_found why = record {
    found = false;
    entry_price = none;
    stop_price = none;
    entry_idx = none;
    reason = why;
  }

  -- a bar that dips to the average price, and closes at or above it and above its low
  abbrev pub reclaims : ForwardBar Real → Bool
  reclaims b = (b.low ≤? b.vwap) && (b.vwap ≤? b.close) && (b.low <? b.close)

  unfoldable pub reclaim_from : ℕ → List (ForwardBar Real) → PullbackEntry Real
  reclaim_from i [] = not_found no_vwap_reclaim
  reclaim_from i (b ∷ bars) =
      let rest = reclaim_from (suc i) bars in
      if b.vwap ≤? nought
      then rest
      else if reclaims b
      then record {
        found = true;
        entry_price = some b.close;
        stop_price = some b.low;
        entry_idx = some i;
        reason = vwap_reclaim;
      }
      else rest

  unfoldable pub find_vwap_pullback_entry : List (ForwardBar Real) → PullbackEntry Real
  find_vwap_pullback_entry [] = not_found no_bars
  find_vwap_pullback_entry (b ∷ bars) = reclaim_from 0 (b ∷ bars)

  unfoldable pub gap_tier_of : Option Real → ℕ
  gap_tier_of none = 0
  gap_tier_of (some gap) =
      if gap <? lit 10 100
      then 0
      else if gap <? lit 25 100
      then 1
      else if gap <? lit 50 100
      then 2
      else 3

  unfoldable pub price_tier_of : Real → Real → Option Real → ℕ
  price_tier_of cheap_below mid_below none = 0
  price_tier_of cheap_below mid_below (some price) =
      if (price ≤? nought) || (mid_below ≤? price) then 0 else if price <? cheap_below then 2 else 1

  -- the gap before the open, else that at the open
  unfoldable pub gap_of : Option Real → Option Real → Option Real × GapSource
  gap_of (some gap) gap_pct = (some gap, premarket)
  gap_of none (some gap) = (some gap, rth)
  gap_of none none = (none, no_gap)

  unfoldable pub runner_propensity :
      Option Real → Option Real → Option Real → Real → Real → RunnerPropensity Real
  runner_propensity price gap_pct premarket_gap_pct cheap_below mid_below =
      let gap = gap_of premarket_gap_pct gap_pct in
      let gap_tier = gap_tier_of gap.0 in
      let price_tier = price_tier_of cheap_below mid_below price in
      record {
        tier = gap_tier + price_tier;
        gap_tier = gap_tier;
        price_tier = price_tier;
        gap_used = gap.0;
        gap_source = gap.1;
      }
