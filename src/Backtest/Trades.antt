-- ===== src/Backtest/Trades.antt =====
-- strategy/backtest/engine.py: a trade and its costs.
use mathlib.Core.Option
use momentum_system.Prelude.{
  ◌>>=◌, ℕ, ◌+◌, ◌-◌, min, String, Bool, Option, none, some, List, [], ◌∷◌, map, length, take, drop,
  get_elem?, ◌==◌, if◌then◌else◌,
}
use momentum_system.Prelude.Int.{ℤ, pos, leb_ℤ, max_ℤ}
use momentum_system.Float.{Float, Real, lit, nought, ◌⊕◌, ◌⊖◌, ◌⊗◌, ◌≤?◌, fmax}
use momentum_system.Exits.Data.{Bar, ExitConfig, ExitFill, ExitResult, Reason, truthy}
use momentum_system.Exits.Backtest.{simulate_exit}
use momentum_system.Risk.Guards.{TimeOfDay, EntryCutoffConfig}
use momentum_system.Risk.Sizing.{PositionSizingConfig, calculate_position_size}
use momentum_system.Setups.Data.{BarRow, SetupType, last_row}
use momentum_system.Evaluation.Data.{Session, rows_of}
use momentum_system.Evaluation.Criteria.{SetupCriteria}
use momentum_system.Evaluation.Result.{Setup}

-- `str(bar.get("timestamp", i))`
pub data Stamp : Type 0 where
  at_time : ℤ → Stamp
  at_index : ℕ → Stamp

-- A trade, without its `trade_id`, which is a fresh uuid.
pub record Trade (R : Type 0) : Type 0 where
  pub symbol : String
  pub entry_time : Stamp
  pub entry_price : R
  pub stop_price : R
  pub target_price : R
  pub quantity : ℤ
  pub exit_time : Stamp
  pub exit_price : Option R
  pub exit_reason : Reason
  pub realized_pnl : R
  pub r_multiple : R
  pub setup_type : SetupType
  pub entry_index : ℕ

pub record BacktestResult (R : Type 0) : Type 0 where
  pub symbol : String
  pub trades : List (Trade R)
  pub total_pnl : R
  pub win_rate : R
  pub evaluations : ℕ
  pub signals : ℕ

-- The dict of `summary`.
pub record Summary (R : Type 0) : Type 0 where
  pub symbol : String
  pub trades : ℕ
  pub wins : ℕ
  pub win_rate : R
  pub total_pnl : R
  pub evaluations : ℕ
  pub signals : ℕ

-- `self.bt`; `next_bar` is `entry_mode == "next_bar"`
pub record BacktestConfig (R : Type 0) : Type 0 where
  pub base_spread_pct : R
  pub minimum : R
  pub per_share : R
  pub next_bar : Bool

-- `evaluation_time` of a timestamp is in US/Eastern; without timestamps the clock is read at each
-- evaluation.
pub record Engine (R : Type 0) : Type 0 where
  pub bt : BacktestConfig R
  pub equity : R
  pub warmup_bars : ℕ
  pub eval_every : ℕ
  pub ready_score_pct : R
  pub criteria : SetupCriteria R
  pub min_bars : ℕ
  pub exit_config : ExitConfig R
  pub eastern : ℤ → TimeOfDay
  pub now : ℕ → TimeOfDay

-- What a round of the loop comes to; `traded` carries the bar that the exit is on.
pub data Visit (R : Type 0) : Type 0 where
  skipped no_signal unfilled : Visit R
  traded : Trade R → ℕ → Visit R

abbrev pub default_cutoff : EntryCutoffConfig
default_cutoff = record {
  no_new_entries_after = record { hour = 10; minute = 30; second = 0; microsecond = 0 };
  minutes_past_cutoff_max = pos 5;
}

-- `entry_idx + 1 + res.exit_index`, in the frame of `len` bars, `after` of which follow the entry
unfoldable pub exit_pos : ℕ → ℕ → ℕ → ℕ → ℕ
exit_pos entry_idx len after exit_index =
    if after == 0 then entry_idx else min (entry_idx + 1 + exit_index) (len - 1)

unfoldable pub next_index : {R : Type 0} → ℕ → Visit R → ℕ
next_index i skipped = i + 1
next_index i no_signal = i + 1
next_index i unfilled = i + 1
next_index i (traded t at) = at + 1

module _ ⦃n : Float⦄ where
  abbrev pub default_sizing : PositionSizingConfig Real
  default_sizing = record { risk_per_trade_pct = lit 1 100; default_equity = lit 100000 1 }

  abbrev pub bar_of : BarRow Real → Bar Real
  bar_of r = record { open_price = r.open_price; high = r.high; low = r.low; close = r.close }

  unfoldable pub stamp_of : Session Real → ℕ → Option Stamp
  stamp_of s i = do
    b ← get_elem? s.bars i
    some (if s.marks_times then at_time b.timestamp else at_index i)

  -- `bars.iloc[:i + 1]`
  unfoldable pub window : Session Real → ℕ → Session Real
  window s i = record s { bars = take (i + 1) s.bars }

  unfoldable pub eval_time : Engine Real → Session Real → ℕ → Option TimeOfDay
  eval_time e s i = do
    b ← get_elem? s.bars i
    some (if s.marks_times then e.eastern b.timestamp else e.now i)

  unfoldable pub commission : BacktestConfig Real → ℤ → Real
  commission bt quantity = fmax bt.minimum (n.of_int quantity ⊗ bt.per_share)

  unfoldable pub fill_quantity : ℤ → ExitFill Real → ℤ
  fill_quantity quantity f = max_ℤ (pos 1) (n.trunc (n.round (f.frac ⊗ n.of_int quantity) 0))

  -- the commissions and the slippage of the fills, added to those so far
  unfoldable pub exit_costs :
      BacktestConfig Real → ℤ → Real → Real → List (ExitFill Real) → Real × Real
  exit_costs bt quantity paid slipped [] = (paid, slipped)
  exit_costs bt quantity paid slipped (f ∷ fs) =
      let shares = fill_quantity quantity f in
      exit_costs bt quantity (paid ⊕ commission bt shares)
        (slipped ⊕ f.price ⊗ bt.base_spread_pct ⊗ n.of_int shares) fs

  unfoldable pub realized_of : BacktestConfig Real → ℤ → Real → Real → ExitResult Real → Real
  realized_of bt quantity entry_commission risk res =
      let costs = exit_costs bt quantity entry_commission nought res.fills in
      res.r_multiple ⊗ risk ⊗ n.of_int quantity ⊖ costs.0 ⊖ costs.1

  abbrev last_price : List (ExitFill Real) → Option Real
  last_price fills = Option.map (λ f. n.round f.price 4) (last_row fills)

  abbrev target_of : ExitConfig Real → Real → Real → Real
  target_of cfg entry risk =
      if truthy cfg.target_r then n.round (entry ⊕ cfg.target_r ⊗ risk) 4 else n.round entry 4

  -- the trade that is entered at the bar after `i`, or none if there is nothing to buy or to risk
  unfoldable pub fill_at :
      Engine Real → Session Real → String → ℕ → Setup Real → Real → Option (Visit Real)
  fill_at e s symbol i setup raw_entry =
      let stop = setup.stop_loss_price in
      let quantity =
        (calculate_position_size raw_entry stop (some e.equity) default_sizing none none
          none).position_size in
      let entry = raw_entry ⊕ raw_entry ⊗ e.bt.base_spread_pct in
      let risk = entry ⊖ stop in
      let after = drop (i + 2) (rows_of s) in
      let res = simulate_exit entry stop (map bar_of after) e.exit_config in
      let at = exit_pos (i + 1) (length s.bars) (length after) res.exit_index in
      let realized = realized_of e.bt quantity (commission e.bt quantity) risk res in
      if leb_ℤ quantity (pos 0) then some unfilled else if risk ≤? nought then some unfilled else do
        entered ← stamp_of s (i + 1)
        left ← stamp_of s at
        some (
            traded
              (record {
                symbol = symbol;
                entry_time = entered;
                entry_price = n.round entry 4;
                stop_price = n.round stop 4;
                target_price = target_of e.exit_config entry risk;
                quantity = quantity;
                exit_time = left;
                exit_price = last_price res.fills;
                exit_reason = res.reason;
                realized_pnl = n.round realized 2;
                r_multiple = n.round res.r_multiple 3;
                setup_type = setup.setup_type;
                entry_index = i + 1;
              })
              at)

  unfoldable pub fill : Engine Real → Session Real → String → ℕ → Setup Real → Option (Visit Real)
  fill e s symbol i setup = do
    signal ← get_elem? (rows_of s) i
    next ← get_elem? (rows_of s) (i + 1)
    fill_at e s symbol i setup (if e.bt.next_bar then next.open_price else signal.close)
