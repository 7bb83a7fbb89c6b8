-- ===== src/Trading/Data.antt =====
-- trading_execution.py: the settings, the state of the service, and what it asks of and does to the
-- outside.
use momentum_system.Prelude.{ℕ, String, Bool, Option, List}
use momentum_system.Prelude.Int.{ℤ}
use momentum_system.Prelude.Dict.{Dict}

pub record ExecutionSettings (R : Type 0) : Type 0 where
  pub enabled : Bool
  pub auto_approve : Bool
  pub max_orders_per_tick : ℤ
  pub max_concurrent_positions : ℤ
  pub risk_per_trade_pct : R
  pub default_equity : R
  pub concentrate_top_n : ℤ
  pub max_fresh_entries_per_day : ℤ
  pub require_above_vwap : Bool
  pub min_quality_score : R
  pub entry_confirm_by_minute : ℤ
  pub unified_entry : Bool
  pub entry_fill_model : String
  pub entry_order_type : String
  pub max_daily_loss_pct : R
  pub flatten_on_breach : Bool
  pub reward_multiple : R
  pub entry_timeout_bars : ℤ
  pub entry_invalidate_pct : R
  pub trigger_slippage_pct : R
  pub entry_grace_seconds : R
  pub max_position_pct : R
  pub liquidity_max_volume_pct : R
  pub max_risk_dollars : R
  pub max_gross_notional_pct : R
  pub backout_cooldown_seconds : R
  pub max_backouts_per_symbol : ℤ
  pub reentry_block_after_exit : Bool
  pub reentry_min_loss_pct : R
  pub extension_max_pct : R
  pub day_extension_max_pct : R
  pub halt_guard_enabled : Bool
  pub catalyst_veto_enabled : Bool
  pub catalyst_veto_min_conviction : R

-- A time is a number of microseconds.
abbrev pub Time : Type 0
Time = ℕ

-- The end of a cooldown; `never` is datetime.max.
pub data Until : Type 0 where
  at : Time → Until
  never : Until

-- An armed entry: submitted, and not known to have filled.
pub record Armed (R : Type 0) : Type 0 where
  pub symbol : String
  pub entry_price : R
  pub broker_order_id : Option String
  pub armed_at : Time
  pub checks : ℕ
  pub counted : Bool

pub record ExecutionRequest (R : Type 0) : Type 0 where
  pub order_id : String
  pub symbol : String
  pub quantity : ℤ
  pub entry_price : R
  pub stop_loss_price : R
  pub take_profit_price : R
  pub order_type : String

pub record ExecutionResult : Type 0 where
  pub ok : Bool
  pub broker_order_id : Option String
  pub status : String

-- A position of the broker; a market value or a return that is no number is `none`.
pub record Position (R : Type 0) : Type 0 where
  pub symbol : String
  pub market_value : Option R
  pub unrealized_plpc : Option R

pub record Account (R : Type 0) : Type 0 where
  pub equity : R
  pub last_equity : Option R

-- A conviction that is no number is `none`; a missing one is 0.0.
pub record Advisory (R : Type 0) : Type 0 where
  pub is_dilutive : Bool
  pub conviction : Option R

pub record Pending (R : Type 0) : Type 0 where
  pub auto_mode : Bool
  pub request : ExecutionRequest R

-- A ready signal; a value that is missing is `none`.
pub record Signal (R : Type 0) : Type 0 where
  pub symbol : String
  pub entry_price : Option R
  pub stop_loss_price : Option R
  pub timestamp : Option Time
  pub above_vwap : Option Bool
  pub quality_score : Option R
  pub day_open : Option R
  pub cum_volume : Option R

-- What the clock, the store and the broker answer in one call of the service. `none` is an answer
-- that is not there, or that could not be read.
pub record Outside (R : Type 0) : Type 0 where
  pub now : Time
  pub snapshot : Option (List (Position R))
  pub queue : List (Pending R)
  pub account : Option (Account R)
  pub positions : Option (List (Position R))
  pub advisory : String → Option (Advisory R)
  pub last_price : String → Option R
  pub filled_ids : List String
  pub cancelled_ids : List String
  -- the fresh id of an order for a symbol
  pub new_order_id : String → String
  pub signals : List (Signal R)
  pub executes : ExecutionRequest R → ExecutionResult
  pub closes : String → Bool
  -- `sorted` of strings
  pub in_order : List String → List String

pub data Rule : Type 0 where
  equity_recovered equity_unreadable daily_loss catalyst_dilution_veto reentry_block : Rule
  entry_backout eod_flatten max_concurrent confirmed_late vwap_below quality_below chased : Rule

-- What the service does to the store and the broker.
pub data Effect (R : Type 0) : Type 0 where
  approval_requested : ExecutionRequest R → Effect R
  order_approved : String → Effect R
  order_rejected : String → Effect R
  executed : ExecutionRequest R → Effect R
  entry_cancelled : String → String → Effect R
  position_closed : String → Effect R
  risk_rule : Rule → String → Effect R

-- The fields of the service that change, and what it has done so far.
pub record Service (R : Type 0) : Type 0 where
  pub equity : R
  pub requested_symbols : List String
  pub armed : Dict (Armed R)
  pub cooldown_until : Dict Until
  pub backout_counts : Dict ℕ
  pub exited_today : List String
  -- `_fresh_entries`: the day, and the count
  pub fresh_date : Option ℕ
  pub fresh_n : ℕ
  pub prev_held : List String
  pub held_ret : Dict R
  pub halted : Bool
  pub data_halt : Bool
  pub session_closed : Bool
  pub equity_read_failures : ℕ
  pub equity_fail_limit : ℤ
  pub effects : List (Effect R)
