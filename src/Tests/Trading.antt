-- ===== src/Tests/Trading.antt =====
-- trading_execution.py on one symbol: a live break, a back-out, an outage and the end of the session.
use momentum_system.Prelude.{
  ◌≡◌, ◌⊎◌, refl, inr, str_eq, true, false, none, some, List, [], ◌∷◌, All, map, filter, arith,
}
use momentum_system.Prelude.Int.{pos}
use momentum_system.Float.{Real}
use momentum_system.Trading.Data.{
  ExecutionSettings, Armed, ExecutionRequest, ExecutionResult, Pending, Outside, Service,
}
use momentum_system.Trading.Bench.{
  arm_entry, at_daily_cap, bench_until, count_entry, in_cooldown, is_capped, note_departures,
  note_position_exits, note_returns, register_backout, release_cap_slot, roll_day, symbols_of,
}
use momentum_system.Trading.Breaker.{
  close_session, daily_loss_breach, held_symbols, is_breach, judged, open_position_count,
}
use momentum_system.Trading.Breakout.{
  Break, active_gate, anti_chase_skip, breach_gate, breakout_request, breakout_size, cap_gate,
  cooldown_gate, current_equity, dilution_gate, dilution_vetoed, gross_gate, late_confirmation_at,
  pass, position_cap, reentry_gate, refuse, send, size_gate, submit_breakout_now,
}
use momentum_system.Trading.Expire.{
  back_out, broker_held, elapsed, expire_entry, expire_loop, expire_stale_entries, in_grace,
  price_broken, timed_out, verdict_of,
}
use momentum_system.Trading.Approval.{approve_order, find_pending}
use momentum_system.Trading.Calls.{Request, breaks, expires, closes_session, serve, serve_all}
use momentum_system.Trading.Orders.{sent}
use momentum_system.Trading.Cleared.{Cleared, submit_breakout_now-Cleared}
use momentum_system.Trading.Cap.{InCap}
use momentum_system.Trading.Counted.{serve-InCap}
use momentum_system.Trading.Barred.{submit_breakout_now-benched}
use momentum_system.Trading.Stale.{cancelled, recorded, is_stale, expire_stale_entries-cancels}
use momentum_system.Trading.Outage.{passes, daily_loss_breach-outage}
use momentum_system.Trading.Flat.{IsTrue, Told, reported, close_session-flat}
use momentum_system.Trading.Shut.{serve_all-closed}
use momentum_system.Trading.Pending.{approve_order-sends}
use momentum_system.Risk.Sizing.{rank_risk_factor, calculate_position_size}
use momentum_system.Trading.Signals.{
  request_approvals_for_ready_signals, signal_loop, ask, drop_gate, vwap_gate, chase_gate,
  signal_size_gate, signal_size, bad_levels, signal_request,
}
use momentum_system.Trading.Asked.{asked, Asks, request_approvals_for_ready_signals-Asks}
use momentum_system.Tests.Fixed.{fixed}

abbrev settings : ExecutionSettings Real
settings = record {
  enabled = true;
  auto_approve = true;
  max_orders_per_tick = pos 1;
  max_concurrent_positions = pos 3;
  risk_per_trade_pct = 100;
  default_equity = 1000000000;
  concentrate_top_n = pos 0;
  max_fresh_entries_per_day = pos 2;
  require_above_vwap = true;
  min_quality_score = 0;
  entry_confirm_by_minute = pos 0;
  unified_entry = true;
  entry_fill_model = "resting";
  entry_order_type = "limit";
  max_daily_loss_pct = 300;
  flatten_on_breach = true;
  reward_multiple = 20000;
  entry_timeout_bars = pos 2;
  entry_invalidate_pct = 150;
  trigger_slippage_pct = 40;
  entry_grace_seconds = 50000;
  max_position_pct = 3300;
  liquidity_max_volume_pct = 0;
  max_risk_dollars = 0;
  max_gross_notional_pct = 0;
  backout_cooldown_seconds = 1800000;
  max_backouts_per_symbol = pos 3;
  reentry_block_after_exit = true;
  reentry_min_loss_pct = 100;
  extension_max_pct = 1500;
  day_extension_max_pct = 3000;
  halt_guard_enabled = true;
  catalyst_veto_enabled = false;
  catalyst_veto_min_conviction = 6000;
}

abbrev fills : ExecutionRequest Real → ExecutionResult
fills r = record { ok = true; broker_order_id = some "b1"; status = "accepted" }

-- the outside at ten o'clock, with a readable account
abbrev ten : Outside Real
ten = record {
  now = 36000000000;
  snapshot = some [];
  queue = [];
  account = some (record { equity = 1010000000; last_equity = some 1000000000 });
  positions = some [];
  advisory = λ symbol. none;
  last_price = λ symbol. none;
  filled_ids = [];
  cancelled_ids = [];
  new_order_id = λ symbol. "o1";
  signals = [];
  executes = fills;
  closes = λ symbol. true;
  in_order = λ symbols. symbols;
}

abbrev unreadable_at_ten : Outside Real
unreadable_at_ten = record ten { account = none }

abbrev ten_past : Outside Real
ten_past = record ten { now = 36600000000 }

abbrev idle : Service Real
idle = record {
  equity = 1000000000;
  requested_symbols = [];
  armed = [];
  cooldown_until = [];
  backout_counts = [];
  exited_today = [];
  fresh_date = none;
  fresh_n = 0;
  prev_held = [];
  held_ret = [];
  halted = false;
  data_halt = false;
  session_closed = false;
  equity_read_failures = 0;
  equity_fail_limit = pos 5;
  effects = [];
}

abbrev break_a : Break Real
break_a = record {
  symbol = "A";
  trigger = 50000;
  stop = 48000;
  last_price = some 50200;
  cum_volume = 0;
  halted = false;
  day_open = some 45000;
  rank = pos 1;
}

-- the break is sent, for 4590 shares
sends_a :
    map (λ r. r.quantity) (sent (submit_breakout_now ten settings break_a idle).1) ≡ pos 4590 ∷ []
unfolding submit_breakout_now sent pass refuse breach_gate cap_gate active_gate cooldown_gate
    reentry_gate dilution_gate gross_gate size_gate daily_loss_breach judged held_symbols
    open_position_count late_confirmation_at dilution_vetoed anti_chase_skip current_equity
    position_cap breakout_size breakout_request send arm_entry count_entry is_capped at_daily_cap
    roll_day in_cooldown rank_risk_factor calculate_position_size symbols_of
sends_a = refl

submit_breakout_now-Cleared_example :
    (sent (submit_breakout_now ten settings break_a idle).1 ≡ [])
    ⊎ (Cleared ten settings break_a idle
        × ((request : ExecutionRequest Real) × (request.symbol ≡ "A")
            × (sent (submit_breakout_now ten settings break_a idle).1 ≡ request ∷ [])))
unfolding sent
submit_breakout_now-Cleared_example = submit_breakout_now-Cleared ten settings break_a idle

serve-InCap_example : InCap settings (serve settings (breaks break_a) ten idle)
serve-InCap_example = serve-InCap settings (breaks break_a) ten idle (inr (omega arith))

abbrev entry_a : Armed Real
entry_a = record {
  symbol = "A";
  entry_price = 50400;
  broker_order_id = some "b1";
  armed_at = 35800000000;
  checks = 0;
  counted = true;
}

abbrev armed_service : Service Real
armed_service = record idle { armed = ("o1", entry_a) ∷ []; fresh_date = some 0; fresh_n = 1 }

-- the entry that has waited for more than two minutes is cancelled
cancels_a : cancelled (expire_stale_entries ten settings armed_service) ≡ ("o1", "A") ∷ []
unfolding expire_stale_entries note_position_exits note_departures symbols_of note_returns
    expire_loop expire_entry verdict_of broker_held in_grace price_broken timed_out elapsed back_out
    release_cap_slot register_backout bench_until cancelled
cancels_a = refl

expire_stale_entries-cancels_example :
    cancelled (expire_stale_entries ten settings armed_service)
    ≡ recorded (filter (is_stale ten settings) (("o1", entry_a) ∷ [])) (cancelled armed_service)
expire_stale_entries-cancels_example = expire_stale_entries-cancels ten settings armed_service

submit_breakout_now-benched_example :
    let benched = back_out ten settings "o1" entry_a armed_service in
    sent (submit_breakout_now (record ten { now = 36000000001 }) settings break_a benched).1
    ≡ sent benched
submit_breakout_now-benched_example =
    submit_breakout_now-benched settings ten (record ten { now = 36000000001 }) "o1" entry_a break_a
      armed_service (omega arith) (omega arith) refl

daily_loss_breach-outage_example :
    (daily_loss_breach unreadable_at_ten settings
      (passes (λ j. unreadable_at_ten) settings 4 idle)).0
    ≡ true
daily_loss_breach-outage_example =
    daily_loss_breach-outage (λ j. unreadable_at_ten) settings 4 idle (λ j. refl) refl refl refl
      refl

abbrev paused : Service Real
paused = record idle { data_halt = true; equity_read_failures = 7 }

not_lost :
    is_breach settings (record { equity = 1010000000; last_equity = some 1000000000 }) ≡ false
unfolding is_breach
not_lost = refl

abbrev holding_a : Outside Real
holding_a = record ten {
  positions = some (
      record { symbol = "A"; market_value = some 1000; unrealized_plpc = none }
      ∷ record { symbol = "B"; market_value = some 1000; unrealized_plpc = none }
      ∷ []);
  closes = λ symbol. str_eq symbol "A";
}

close_session-flat_example :
    ((close_session holding_a armed_service).1.session_closed ≡ true)
    × ((close_session holding_a armed_service).1.armed ≡ [])
    × IsTrue holding_a (close_session holding_a armed_service).0
    × All
        (λ p.
          str_eq p.symbol "" ≡ false
          → Told holding_a (close_session holding_a armed_service).0 p.symbol)
        (reported holding_a)
close_session-flat_example = close_session-flat holding_a armed_service

abbrev closed_service : Service Real
closed_service = record armed_service { session_closed = true }

abbrev after_close : List (Request Real × Outside Real)
after_close = (breaks break_a, ten) ∷ (expires, ten_past) ∷ (closes_session, ten_past) ∷ []

serve_all-closed_example :
    (sent (serve_all settings after_close closed_service) ≡ sent closed_service)
    × ((serve_all settings after_close closed_service).session_closed ≡ true)
serve_all-closed_example =
    serve_all-closed settings after_close closed_service (refl, (refl, (refl, tt))) refl

abbrev pending_a : Pending Real
pending_a = record {
  auto_mode = true;
  request = record {
    order_id = "o2";
    symbol = "A";
    quantity = pos 10;
    entry_price = 50000;
    stop_loss_price = 48000;
    take_profit_price = 54000;
    order_type = "limit";
  };
}

abbrev queued : Outside Real
queued = record ten { queue = pending_a ∷ [] }

found_a : find_pending "o2" queued.queue ≡ some pending_a
unfolding find_pending
found_a = refl

approve_order-sends_example :
    sent (approve_order queued settings true "o2" closed_service).1
    ≡ pending_a.request ∷ sent closed_service
unfolding is_capped at_daily_cap roll_day
approve_order-sends_example =
    approve_order-sends queued settings true "o2" pending_a closed_service found_a

abbrev with_signals : Outside Real
with_signals = record ten {
  signals =
      record {
        symbol = "A";
        entry_price = some 50000;
        stop_loss_price = some 48000;
        timestamp = none;
        above_vwap = some true;
        quality_score = none;
        day_open = none;
        cum_volume = none;
      }
      ∷ [];
}

-- the one signal is asked for
asks_a :
    map (λ r. r.symbol) (asked (request_approvals_for_ready_signals with_signals settings idle))
    ≡ "A" ∷ []
unfolding request_approvals_for_ready_signals signal_loop ask drop_gate vwap_gate chase_gate
    signal_size_gate signal_size bad_levels asked pass active_gate refuse cooldown_gate reentry_gate
    daily_loss_breach judged held_symbols open_position_count late_confirmation_at dilution_vetoed
    anti_chase_skip current_equity position_cap in_cooldown calculate_position_size symbols_of
    signal_request
asks_a = refl

request_approvals_for_ready_signals-Asks_example :
    Asks with_signals settings 1
      (asked idle)
      (asked (request_approvals_for_ready_signals with_signals settings idle))
request_approvals_for_ready_signals-Asks_example =
    request_approvals_for_ready_signals-Asks with_signals settings idle
