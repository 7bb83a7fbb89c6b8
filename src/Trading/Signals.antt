-- ===== src/Trading/Signals.antt =====
-- trading_execution.py: `request_approvals_for_ready_signals`. A `continue` of its loop is a gate
-- that refuses the signal.
use momentum_system.Prelude.{
  ℕ, suc, String, str_eq, Bool, false, not, ◌&&◌, ◌||◌, Option, none, some, List, [], ◌∷◌,
  if◌then◌else◌,
}
use momentum_system.Prelude.Int.{ℤ, pos, leb_ℤ}
use momentum_system.Prelude.Sets.{add}
use momentum_system.Float.{Float, Real, nought, one, ◌⊕◌, ◌⊖◌, ◌⊗◌, ◌<?◌, ◌≤?◌, ◌=?◌}
use momentum_system.Risk.Sizing.{PositionSizingConfig, PositionSizeResult, calculate_position_size}
use momentum_system.Trading.Data.{
  ExecutionSettings, Time, ExecutionRequest, Signal, Outside, catalyst_dilution_veto,
  max_concurrent, confirmed_late, vwap_below, quality_below, chased, Rule, approval_requested,
  risk_rule, Service,
}
use momentum_system.Trading.Bench.{emit}
use momentum_system.Trading.Breaker.{open_position_count, daily_loss_breach}
use momentum_system.Trading.Breakout.{
  Skip, dilution_veto, bad_geometry, late_confirmation, below_vwap, below_quality, zero_size, Gate,
  pass, active_gate, cooldown_gate, reentry_gate, late_confirmation_at, dilution_vetoed,
  anti_chase_skip, current_equity, position_cap,
}
use momentum_system.Trading.Expire.{expire_stale_entries}
use momentum_system.Trading.Approval.{process_auto_approvals}

module _ ⦃n : Float⦄ where
  abbrev pub price_of : Option Real → Real
  price_of none = nought
  price_of (some x) = x

  -- the signal is given up for the session, with an event
  abbrev dropped : Rule → String → Service Real → Service Real
  dropped rule symbol s =
      emit (risk_rule rule symbol) (record s { requested_symbols = add symbol s.requested_symbols })

  unfoldable pub drop_gate : Bool → Skip → Rule → String → Gate
  drop_gate test skip rule symbol s = if test then (some skip, dropped rule symbol s) else (none, s)

  -- a level that is missing or 0.0, or a stop that is not below the entry
  unfoldable pub bad_levels : Signal Real → Bool
  bad_levels sig =
      (price_of sig.entry_price =? nought)
      || (price_of sig.stop_loss_price =? nought)
      || (price_of sig.entry_price ≤? price_of sig.stop_loss_price)

  abbrev is_late : ExecutionSettings Real → Option Time → Bool
  is_late cfg none = false
  is_late cfg (some t) = late_confirmation_at cfg t

  abbrev is_below : Option Bool → Bool
  is_below none = false
  is_below (some above) = not above

  -- a signal below VWAP is always reported, and refused where the setting says so
  unfoldable pub vwap_gate : ExecutionSettings Real → Signal Real → Gate
  vwap_gate cfg sig s =
      if is_below sig.above_vwap
      then (if cfg.require_above_vwap
          then (some below_vwap, dropped vwap_below sig.symbol s)
          else (none, emit (risk_rule vwap_below sig.symbol) s))
      else (none, s)

  abbrev is_poor : ExecutionSettings Real → Option Real → Bool
  is_poor cfg none = false
  is_poor cfg (some score) = (nought <? cfg.min_quality_score) && (score <? cfg.min_quality_score)

  unfoldable pub chase_gate : ExecutionSettings Real → Signal Real → Gate
  chase_gate cfg sig s =
      let entry = price_of sig.entry_price in
      if cfg.unified_entry
      then elim (anti_chase_skip cfg entry entry sig.day_open false) [
        | none ↦ (none, s)
        | some skip ↦ (some skip, dropped chased sig.symbol s)
      ]
      else (none, s)

  unfoldable pub signal_size :
      Outside Real → ExecutionSettings Real → Signal Real → Real → PositionSizeResult Real
  signal_size o cfg sig eq =
      let liq = cfg.liquidity_max_volume_pct in
      let cum_vol = price_of sig.cum_volume in
      let max_shares : Option ℤ =
        if cfg.unified_entry && (nought <? liq) && (nought <? cum_vol)
        then some (n.trunc (liq ⊗ cum_vol))
        else none in
      let sizing : PositionSizingConfig Real = record {
        risk_per_trade_pct = cfg.risk_per_trade_pct;
        default_equity = cfg.default_equity;
      } in
      calculate_position_size (price_of sig.entry_price) (price_of sig.stop_loss_price) (some eq)
        sizing (some (position_cap o cfg eq)) max_shares (some cfg.max_risk_dollars)

  unfoldable pub signal_size_gate : Outside Real → ExecutionSettings Real → Signal Real → Gate
  signal_size_gate o cfg sig s =
      let read = current_equity o s in
      let none_left = leb_ℤ (signal_size o cfg sig read.equity).position_size (pos 0) in
      (if none_left then some zero_size else none, read)

  abbrev pub signal_gates : Outside Real → ExecutionSettings Real → Signal Real → List Gate
  signal_gates o cfg sig =
      active_gate o sig.symbol
      ∷ cooldown_gate o sig.symbol
      ∷ reentry_gate sig.symbol
      ∷ drop_gate (dilution_vetoed o cfg sig.symbol) dilution_veto catalyst_dilution_veto sig.symbol
      ∷ (λ s. (if bad_levels sig then some bad_geometry else none, s))
      ∷ drop_gate (is_late cfg sig.timestamp) late_confirmation confirmed_late sig.symbol
      ∷ vwap_gate cfg sig
      ∷ drop_gate (is_poor cfg sig.quality_score) below_quality quality_below sig.symbol
      ∷ chase_gate cfg sig
      ∷ signal_size_gate o cfg sig
      ∷ []

  unfoldable pub signal_request :
      Outside Real → ExecutionSettings Real → Signal Real → Real → ExecutionRequest Real
  signal_request o cfg sig eq =
      let entry = price_of sig.entry_price in
      let stop = price_of sig.stop_loss_price in
      record {
        order_id = o.new_order_id sig.symbol;
        symbol = sig.symbol;
        quantity = (signal_size o cfg sig eq).position_size;
        entry_price =
            if str_eq cfg.entry_fill_model "marketable"
            then n.round (entry ⊗ (one ⊕ cfg.trigger_slippage_pct)) 2
            else entry;
        stop_loss_price = stop;
        take_profit_price = n.round (entry ⊕ cfg.reward_multiple ⊗ (entry ⊖ stop)) 2;
        order_type = cfg.entry_order_type;
      }

  unfoldable pub ask : ExecutionRequest Real → Service Real → Service Real
  ask request s =
      emit (approval_requested request)
        (record s { requested_symbols = add request.symbol s.requested_symbols })

  -- the loop over the signals, with the number of requests created so far
  unfoldable pub signal_loop :
      Outside Real → ExecutionSettings Real → List (Signal Real) → ℕ → Service Real → Service Real
  signal_loop o cfg [] created s = s
  signal_loop o cfg (sig ∷ signals) created s =
      let (verdict, after) = pass (signal_gates o cfg sig) s in
      let next : ℕ × Service Real = elim verdict [
        | some skip ↦ (created, after)
        | none ↦ (suc created, ask (signal_request o cfg sig after.equity) after)
      ] in
      let rest = signal_loop o cfg signals next.0 next.1 in
      if leb_ℤ cfg.max_orders_per_tick (pos created) then s else rest

  unfoldable pub request_approvals_for_ready_signals :
      Outside Real → ExecutionSettings Real → Service Real → Service Real
  request_approvals_for_ready_signals o cfg s =
      let (blocked, after) = daily_loss_breach o cfg s in
      if not cfg.enabled
      then s
      else if blocked
      then after
      else if leb_ℤ cfg.max_concurrent_positions (pos (open_position_count o))
      then emit (risk_rule max_concurrent "") after
      else signal_loop o cfg o.signals 0 after

  -- the three parts of a pass, each with the answers it gets
  unfoldable pub tick :
      Outside Real
      → Outside Real
      → Outside Real
      → ExecutionSettings Real
      → Service Real
      → Service Real
  tick o₁ o₂ o₃ cfg s =
      let requested = request_approvals_for_ready_signals o₂ cfg (expire_stale_entries o₁ cfg s) in
      if cfg.auto_approve then process_auto_approvals o₃ cfg requested else requested
