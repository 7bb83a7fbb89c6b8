-- ===== src/Backtest/Engine.antt =====
-- strategy/backtest/engine.py: a round of the loop, and the loop.

use momentum_system.Prelude.{
  ◌>>=◌, ℕ, zero, suc, ◌+◌, ◌%◌, String, Bool, true, false, not, Option, none, some, List, [], ◌∷◌,
  ◌++◌, length, count, get_elem?, ltb, ◌==◌, if◌then◌else◌,
}
use momentum_system.Float.{Float, Real, nought, ◌⊕◌, ◌⊘◌, ◌<?◌}
use momentum_system.Columns.{Columns}
use momentum_system.Exits.Data.{is_empty}
use momentum_system.Risk.Guards.{TimeOfDay}
use momentum_system.Setups.Data.{as_real}
use momentum_system.Evaluation.Data.{Session}
use momentum_system.Evaluation.Criteria.{default_weights}
use momentum_system.Evaluation.Result.{
  Status, ready, late, blocked, Setup, SetupEvaluationResult, Context,
}
use momentum_system.Evaluation.Evaluate.{evaluate_setup}
use momentum_system.Backtest.Trades.{
  Trade, BacktestResult, Summary, Engine, Visit, default_cutoff, next_index, window, eval_time,
  fill, skipped, no_signal, unfilled, traded,
}

module _ ⦃n : Float⦄ where
  abbrev pub is_ready : Status → Bool
  is_ready ready = true
  is_ready late = false
  is_ready blocked = false

  unfoldable pub first_ready : SetupEvaluationResult Real → Option (Setup Real)
  first_ready r = if is_ready r.status then get_elem? r.setups 0 else none

  -- on the first setup of an evaluation that is ready
  unfoldable pub act :
      Engine Real → Session Real → String → ℕ → Option (Setup Real) → Option (Visit Real)
  act e s symbol i none = some no_signal
  act e s symbol i (some setup) = fill e s symbol i setup

  abbrev pub context : Engine Real → Option Real → Option Real → TimeOfDay → Context Real
  context e previous_close avg_daily_volume time = record {
    previous_close = previous_close;
    avg_daily_volume = avg_daily_volume;
    criteria = e.criteria;
    weights = default_weights;
    evaluation_time = time;
    entry_cutoff = default_cutoff;
    ready_score_pct = e.ready_score_pct;
    min_bars = e.min_bars;
    catalyst_score = none;
  }

  -- a win is counted if its profit is above zero
  abbrev pub is_win : Trade Real → Bool
  is_win t = nought <? t.realized_pnl

  unfoldable pub count_visit : BacktestResult Real → Visit Real → BacktestResult Real
  count_visit r skipped = r
  count_visit r no_signal = record r { evaluations = r.evaluations + 1 }
  count_visit r unfilled = record r { evaluations = r.evaluations + 1; signals = r.signals + 1 }
  count_visit r (traded t at) = record r {
    evaluations = r.evaluations + 1;
    signals = r.signals + 1;
    trades = r.trades ++ t ∷ [];
    total_pnl = r.total_pnl ⊕ t.realized_pnl;
  }

  unfoldable pub summary : BacktestResult Real → Summary Real
  summary r = record {
    symbol = r.symbol;
    trades = length r.trades;
    wins = count is_win r.trades;
    win_rate = n.round r.win_rate 3;
    total_pnl = n.round r.total_pnl 2;
    evaluations = r.evaluations;
    signals = r.signals;
  }

  unfoldable pub rated : BacktestResult Real → BacktestResult Real
  rated r =
      if is_empty r.trades
      then r
      else record r { win_rate = as_real (count is_win r.trades) ⊘ as_real (length r.trades) }

  module _ (pd : Columns) (enabled : List String) (e : Engine Real) (s : Session Real)
      (symbol : String) (previous_close avg_daily_volume : Option Real) where
    -- a round at the bar `i`; a cadence of zero divides by zero
    unfoldable pub visit : ℕ → Option (Visit Real)
    visit i =
        if e.eval_every == 0 then none else if not (i % e.eval_every == 0) then some skipped else do
          time ← eval_time e s i
          found ←
              evaluate_setup pd enabled (context e previous_close avg_daily_volume time)
                (window s i)
          act e s symbol i (first_ready found)

    -- the loop, on fuel: `none` if it runs out, or if the code raises
    unfoldable pub run_from : ℕ → ℕ → BacktestResult Real → Option (BacktestResult Real)
    run_from zero i r = none
    run_from (suc fuel) i r =
        let rest = visit i >>= λ v. run_from fuel (next_index i v) (count_visit r v) in
        if ltb (i + 1) (length s.bars) then rest else some r

    abbrev pub empty_result : BacktestResult Real
    empty_result = record {
      symbol = symbol;
      trades = [];
      total_pnl = nought;
      win_rate = nought;
      evaluations = 0;
      signals = 0;
    }

    -- every round moves on, so the loop has at most a round for each bar, and one more
    unfoldable pub run : Option (BacktestResult Real)
    run = do r ← run_from (length s.bars + 1) e.warmup_bars empty_result; some (rated r)
