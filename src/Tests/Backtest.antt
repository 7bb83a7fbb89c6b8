-- ===== src/Tests/Backtest.antt =====
-- strategy/evaluation and strategy/backtest on a short session.
use momentum_system.Prelude.{
  ℕ, ◌+◌, ◌-◌, ◌*◌, ◌/◌, ◌≡◌, refl, true, false, none, some, List, [], ◌∷◌, length, arith,
}
use momentum_system.Prelude.Int.{pos}
use momentum_system.Float.{Real, nought}
use momentum_system.Columns.{Columns}
use momentum_system.Exits.Data.{Bar, ExitConfig}
use momentum_system.Setups.Yields.{Yields}
use momentum_system.Evaluation.Data.{SessionRow, Session}
use momentum_system.Evaluation.Criteria.{default_criteria}
use momentum_system.Backtest.Trades.{Engine}
use momentum_system.Backtest.Engine.{run}
use momentum_system.Backtest.Spaced.{Kept, run-Kept}
use momentum_system.Backtest.Outcomes.{loss, label_from, label_outcome}
use momentum_system.Backtest.Resolved.{Resolved, Reaches, label_outcome-Resolved}
use momentum_system.Tests.Fixed.{fixed}

abbrev pub total : List Real → Real
total [] = 0
total (x ∷ xs) = x + total xs

abbrev pub smoothed : ℕ → Real → List Real → List Real
smoothed span before [] = []
smoothed span before (x ∷ xs) =
    let now = (before * (span - 1) + 2 * x) / (span + 1) in now ∷ smoothed span now xs

abbrev pub ewm : ℕ → List Real → List Real
ewm span [] = []
ewm span (x ∷ xs) = x ∷ smoothed span x xs

abbrev pub length-smoothed :
    (span : ℕ) (before : Real) (xs : List Real) → length (smoothed span before xs) ≡ length xs
length-smoothed span before [] = refl
length-smoothed span before (x ∷ xs) =
    omega (arith, length-smoothed span ((before * (span - 1) + 2 * x) / (span + 1)) xs)

abbrev pub length-ewm : (span : ℕ) (xs : List Real) → length (ewm span xs) ≡ length xs
length-ewm span [] = refl
length-ewm span (x ∷ xs) = omega (arith, length-smoothed span x xs)

-- the median is taken as the mean
abbrev pub columns : Columns
columns = record {
  sum = total;
  mean = λ xs. total xs / length xs;
  median = λ xs. total xs / length xs;
  ewm_mean = ewm;
  length-ewm_mean = length-ewm;
}

abbrev pub minute : ℕ → Real → Real → Real → SessionRow Real
minute at high low close = record {
  row = record {
    open_price = low;
    high = high;
    low = low;
    close = close;
    volume = 100000000;
    is_regular_hours = true;
  };
  is_premarket = false;
  timestamp = pos (at * 60000000);
}

-- five bars between 1.90 and 2.00, a close at 2.02, and a fall through the stop
abbrev pub session : Session Real
session = record {
  bars =
      minute 0 19500 19000 19200
      ∷ minute 1 19700 19100 19500
      ∷ minute 2 20000 19400 19800
      ∷ minute 3 19900 19500 19600
      ∷ minute 4 19800 19400 19700
      ∷ minute 5 20300 19700 20200
      ∷ minute 6 20400 20200 20300
      ∷ minute 7 20500 20200 20400
      ∷ minute 8 20300 18000 18500
      ∷ minute 9 19000 18400 18800
      ∷ [];
  marks_premarket = true;
  marks_hours = true;
  marks_times = true;
}

abbrev config : ExitConfig Real
config = record {
  target_r = 20000;
  breakeven_at_r = 0;
  breakeven_at_pct = 0;
  trail_mode = "none";
  trail_pct = 0;
  trail_after_r = 10000;
  trail_r_step = 0;
  scale_out_r = 0;
  scale_out_pct = 5000;
  first_red_exit = false;
  profit_lock_tiers = [];
  catastrophe_pct = 1000;
  catastrophe_risk_mult = 15000;
  enforce_stop_grace_passes = 2;
  default_trail_r_pct = 1000;
}

abbrev engine : Engine Real
engine = record {
  bt = record { base_spread_pct = 15; minimum = 10000; per_share = 50; next_bar = true };
  equity = 1000000000;
  warmup_bars = 5;
  eval_every = 1;
  ready_score_pct = 300000;
  criteria = default_criteria;
  min_bars = 6;
  exit_config = config;
  eastern = λ t. record { hour = 9; minute = 36; second = 0; microsecond = 0 };
  now = λ i. record { hour = 9; minute = 36; second = 0; microsecond = 0 };
}

run-Kept_example :
    Yields
      (Kept session columns [] engine "ABCD" (some 18000) none)
      (run columns [] engine session "ABCD" (some 18000) none)
run-Kept_example = run-Kept session columns [] engine "ABCD" (some 18000) none (omega arith)

abbrev bar : Real → Real → Real → Bar Real
bar high low close = record { open_price = low; high = high; low = low; close = close }

-- entry 2.00, stop 1.90, target 2.20: the second bar reaches both
label_outcome-Resolved_example :
    Resolved 20000 19000 1000 20000 22000 0
      (bar 21000 19500 20500)
      (bar 21000 19500 20500 ∷ bar 22500 18900 19000 ∷ [])
      (label_outcome "s1" 20000 19000 (bar 21000 19500 20500 ∷ bar 22500 18900 19000 ∷ []) 20000)
    × Reaches 20000 19000 1000 20000 22000 0 nought nought
        (bar 21000 19500 20500 ∷ bar 22500 18900 19000 ∷ [])
        (label_outcome "s1" 20000 19000 (bar 21000 19500 20500 ∷ bar 22500 18900 19000 ∷ []) 20000)
label_outcome-Resolved_example =
    label_outcome-Resolved "s1" 20000 19000 20000 (bar 21000 19500 20500)
      (bar 22500 18900 19000 ∷ []) refl

-- the stop is taken to come first
stopped :
    let r =
      label_outcome "s1" 20000 19000 (bar 21000 19500 20500 ∷ bar 22500 18900 19000 ∷ []) 20000 in
    (r.label ≡ loss) × (r.bars_to_resolution ≡ 2) × (r.max_favorable_r ≡ 25000)
unfolding label_outcome label_from
stopped = (refl, refl, refl)
