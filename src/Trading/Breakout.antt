-- ===== src/Trading/Breakout.antt =====
-- trading_execution.py: `submit_breakout_now`, the entry on a live break. Its early returns are a
-- list of gates, in the order of the code.
use momentum_system.Prelude.{
  ◌%◌, String, Bool, false, not, ◌&&◌, ◌||◌, Option, none, some, List, [], ◌∷◌, map, foldl,
  if◌then◌else◌,
}
use momentum_system.Prelude.Int.{ℤ, pos, sub_ℕ, leb_ℤ}
use momentum_system.Prelude.Sets.{mem, add}
use momentum_system.Float.{
  Float, Real, lit, nought, one, ◌⊕◌, ◌⊖◌, ◌⊗◌, ◌⊘◌, ◌<?◌, ◌≤?◌, fmax, fmin, fabs,
}
use momentum_system.Risk.Sizing.{
  PositionSizingConfig, PositionSizeResult, rank_risk_factor, calculate_position_size,
}
use momentum_system.Trading.Data.{
  ExecutionSettings, Time, ExecutionRequest, ExecutionResult, Position, Advisory, Outside,
  catalyst_dilution_veto, approval_requested, order_approved, executed, risk_rule, Service,
}
use momentum_system.Trading.Bench.{
  emit, in_cooldown, roll_day, at_daily_cap, is_capped, arm_entry, count_entry,
  microseconds_per_day,
}
use momentum_system.Trading.Breaker.{held_symbols, open_position_count, daily_loss_breach}

-- Why an entry is not made; the last two are for signals.
pub data Skip : Type 0 where
  disabled halted max_positions late_confirmation rank_concentration daily_entry_cap : Skip
  already_active cooldown reentry_blocked dilution_veto bad_price bad_geometry over_extended : Skip
  over_extended_day halted_symbol gross_notional_cap zero_size below_vwap : Skip
  below_quality : Skip

-- The arguments of `submit_breakout_now`.
pub record Break (R : Type 0) : Type 0 where
  pub symbol : String
  pub trigger : R
  pub stop : R
  pub last_price : Option R
  pub cum_volume : R
  pub halted : Bool
  pub day_open : Option R
  pub rank : ℤ

pub data Outcome (R : Type 0) : Type 0 where
  skipped : Skip → Outcome R
  submitted : ExecutionRequest R → ExecutionResult → Outcome R

module _ ⦃n : Float⦄ where
  -- 09:30 of the day
  abbrev session_open : Time
  session_open = 34200000000

  unfoldable pub confirm_minute_of : Time → Real
  confirm_minute_of t = n.seconds (sub_ℕ (t % microseconds_per_day) session_open) ⊘ lit 60 1

  unfoldable pub late_confirmation_at : ExecutionSettings Real → Time → Bool
  unfolding confirm_minute_of
  late_confirmation_at cfg t =
      not (leb_ℤ cfg.entry_confirm_by_minute (pos 0))
      && (n.of_int cfg.entry_confirm_by_minute <? confirm_minute_of t)

  abbrev convinced : ExecutionSettings Real → Option (Advisory Real) → Bool
  convinced cfg none = false
  convinced cfg (some adv) =
      adv.is_dilutive
      && elim adv.conviction [ none ↦ false | some c ↦ cfg.catalyst_veto_min_conviction ≤? c ]

  unfoldable pub dilution_vetoed : Outside Real → ExecutionSettings Real → String → Bool
  dilution_vetoed o cfg symbol = cfg.catalyst_veto_enabled && convinced cfg (o.advisory symbol)

  abbrev extended_over : Real → Real → Option Real → Bool
  extended_over limit entry_ref none = false
  extended_over limit entry_ref (some x) =
      (nought <? limit) && (nought <? x) && ((x ⊗ (one ⊕ limit)) <? entry_ref)

  unfoldable pub anti_chase_skip :
      ExecutionSettings Real → Real → Real → Option Real → Bool → Option Skip
  anti_chase_skip cfg entry_ref trigger day_open is_halted =
      if extended_over cfg.extension_max_pct entry_ref (some trigger)
      then some over_extended
      else if extended_over cfg.day_extension_max_pct entry_ref day_open
      then some over_extended_day
      else if is_halted && cfg.halt_guard_enabled
      then some halted_symbol
      else none

  abbrev gross_of : Position Real → Real
  gross_of p = elim p.market_value [ none ↦ nought | some v ↦ fabs v ]

  abbrev pub positions_of : Outside Real → List (Position Real)
  positions_of o = elim o.positions [ none ↦ [] | some ps ↦ ps ]

  -- `none` is `float("inf")`: there is no cap
  unfoldable pub remaining_gross_budget : Outside Real → ExecutionSettings Real → Real → Option Real
  remaining_gross_budget o cfg equity =
      let open_gross = foldl (λ total p. total ⊕ gross_of p) nought (positions_of o) in
      if cfg.max_gross_notional_pct ≤? nought
      then none
      else some (fmax nought (cfg.max_gross_notional_pct ⊗ equity ⊖ open_gross))

  -- `_current_equity` keeps the last positive equity read
  unfoldable pub current_equity : Outside Real → Service Real → Service Real
  current_equity o s = elim o.account [
    | none ↦ s
    | some a ↦ if nought <? a.equity then record s { equity = a.equity } else s
  ]

  abbrev pub entry_ref : Break Real → Real
  entry_ref b = elim b.last_price [ none ↦ b.trigger | some p ↦ p ]

  unfoldable pub position_cap : Outside Real → ExecutionSettings Real → Real → Real
  unfolding remaining_gross_budget
  position_cap o cfg eq = elim (remaining_gross_budget o cfg eq) [
    | none ↦ eq ⊗ cfg.max_position_pct
    | some budget ↦ fmin (eq ⊗ cfg.max_position_pct) budget
  ]

  unfoldable pub breakout_size :
      Outside Real → ExecutionSettings Real → Break Real → Real → PositionSizeResult Real
  breakout_size o cfg b eq =
      let factor = rank_risk_factor b.rank cfg.concentrate_top_n in
      let liq = cfg.liquidity_max_volume_pct in
      let max_shares : Option ℤ =
        if (nought <? liq) && (nought <? b.cum_volume)
        then some (n.trunc (liq ⊗ b.cum_volume))
        else none in
      let sizing : PositionSizingConfig Real = record {
        risk_per_trade_pct = cfg.risk_per_trade_pct ⊗ factor;
        default_equity = cfg.default_equity;
      } in
      calculate_position_size (entry_ref b) b.stop (some eq) sizing (some (position_cap o cfg eq))
        max_shares (some (cfg.max_risk_dollars ⊗ factor))

  abbrev pub Gate : Type 0
  Gate = Service Real → Option Skip × Service Real

  -- a gate that changes nothing
  unfoldable pub refuse : Bool → Skip → Gate
  refuse test skip s = (if test then some skip else none, s)

  unfoldable pub breach_gate : Outside Real → ExecutionSettings Real → Gate
  breach_gate o cfg s =
      let (blocked, after) = daily_loss_breach o cfg s in
      (if blocked then some halted else none, after)

  unfoldable pub cap_gate : Outside Real → ExecutionSettings Real → Gate
  cap_gate o cfg s =
      if is_capped cfg
      then (let rolled = roll_day o.now s in
          (if at_daily_cap cfg rolled then some daily_entry_cap else none, rolled))
      else (none, s)

  unfoldable pub active_gate : Outside Real → String → Gate
  active_gate o symbol s =
      refuse
        (mem symbol (held_symbols o)
          || mem symbol (map (λ p. p.request.symbol) o.queue)
          || mem symbol s.requested_symbols)
        already_active s

  unfoldable pub cooldown_gate : Outside Real → String → Gate
  cooldown_gate o symbol s =
      let (benched, after) = in_cooldown o.now symbol s in
      (if benched then some cooldown else none, after)

  unfoldable pub reentry_gate : String → Gate
  reentry_gate symbol s = refuse (mem symbol s.exited_today) reentry_blocked s

  unfoldable pub dilution_gate : Outside Real → ExecutionSettings Real → String → Gate
  dilution_gate o cfg symbol s =
      if dilution_vetoed o cfg symbol
      then (some dilution_veto, emit (risk_rule catalyst_dilution_veto symbol) s)
      else (none, s)

  abbrev pub is_bad_price : Option Real → Bool
  is_bad_price none = false
  is_bad_price (some p) = p ≤? nought

  -- `_current_equity` and the two tests of the size that follow it
  unfoldable pub gross_gate : Outside Real → ExecutionSettings Real → Gate
  gross_gate o cfg s =
      let read = current_equity o s in
      refuse (position_cap o cfg read.equity ≤? nought) gross_notional_cap read

  unfoldable pub size_gate : Outside Real → ExecutionSettings Real → Break Real → Gate
  size_gate o cfg b s =
      refuse (leb_ℤ (breakout_size o cfg b s.equity).position_size (pos 0)) zero_size s

  abbrev pub gates : Outside Real → ExecutionSettings Real → Break Real → List Gate
  gates o cfg b =
      refuse (not cfg.enabled) disabled
      ∷ breach_gate o cfg
      ∷ refuse (leb_ℤ cfg.max_concurrent_positions (pos (open_position_count o))) max_positions
      ∷ refuse (late_confirmation_at cfg o.now) late_confirmation
      ∷ refuse (rank_risk_factor b.rank cfg.concentrate_top_n ≤? nought) rank_concentration
      ∷ cap_gate o cfg
      ∷ active_gate o b.symbol
      ∷ cooldown_gate o b.symbol
      ∷ reentry_gate b.symbol
      ∷ dilution_gate o cfg b.symbol
      ∷ refuse (is_bad_price b.last_price) bad_price
      ∷ refuse ((entry_ref b ≤? b.stop) || (b.trigger ≤? nought)) bad_geometry
      ∷ (λ s. (anti_chase_skip cfg (entry_ref b) b.trigger b.day_open b.halted, s))
      ∷ gross_gate o cfg
      ∷ size_gate o cfg b
      ∷ []

  -- the first gate that refuses returns
  unfoldable pub pass : List Gate → Gate
  pass [] s = (none, s)
  pass (g ∷ gs) s =
      let (verdict, after) = g s in
      elim verdict [ none ↦ pass gs after | some skip ↦ (some skip, after) ]

  unfoldable pub breakout_request :
      Outside Real → ExecutionSettings Real → Break Real → Real → ExecutionRequest Real
  breakout_request o cfg b eq = record {
    order_id = o.new_order_id b.symbol;
    symbol = b.symbol;
    quantity = (breakout_size o cfg b eq).position_size;
    entry_price = n.round (fmax (entry_ref b) b.trigger ⊗ (one ⊕ cfg.trigger_slippage_pct)) 2;
    stop_loss_price = b.stop;
    take_profit_price = n.round (entry_ref b ⊕ cfg.reward_multiple ⊗ (entry_ref b ⊖ b.stop)) 2;
    order_type = "limit";
  }

  -- the audit trail, the order, and what is tracked of it
  unfoldable pub send :
      Outside Real → ExecutionSettings Real → ExecutionRequest Real → Service Real → Service Real
  send o cfg request s =
      let result = o.executes request in
      let approved = emit (order_approved request.order_id) (emit (approval_requested request) s) in
      let marked = record approved {
        requested_symbols = add request.symbol approved.requested_symbols;
      } in
      count_entry cfg request.order_id result
        (arm_entry o.now request result (emit (executed request) marked))

  unfoldable pub submit_breakout_now :
      Outside Real
      → ExecutionSettings Real
      → Break Real
      → Service Real
      → Outcome Real × Service Real
  submit_breakout_now o cfg b s =
      let (verdict, after) = pass (gates o cfg b) s in
      let request = breakout_request o cfg b after.equity in
      elim verdict [
        | some skip ↦ (skipped skip, after)
        | none ↦ (submitted request (o.executes request), send o cfg request after)
      ]
