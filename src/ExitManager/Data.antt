-- ===== src/ExitManager/Data.antt =====
-- runtime/exit_manager.py: the state of the manager, what the broker reports to it, and what it asks
-- of the broker.
use momentum_system.Prelude.{ℕ, String, Bool, Option, List}
use momentum_system.Prelude.Int.{ℤ}
use momentum_system.Prelude.Dict.{Dict}
use momentum_system.Exits.Data.{Bar}

-- A timestamp is a number of nanoseconds.
abbrev pub Timestamp : Type 0
Timestamp = ℕ

-- A position under management.
pub record Tracked (R : Type 0) : Type 0 where
  pub entry_price : R
  pub init_stop : R
  pub entry_ts : Option Timestamp
  pub scaled : Bool

-- A position as the broker reports it. A number that is missing is 0.0; `is_long` tells whether the
-- side is anything but "short".
pub record BrokerPosition (R : Type 0) : Type 0 where
  pub symbol : String
  pub avg_entry_price : R
  pub current_price : R
  pub qty : R
  pub is_long : Bool

-- An order as the broker reports it. A symbol or a stop price that is missing or empty is `none`;
-- `filled_at` is the time of `filled_at` or else of `submitted_at`, `none` if it cannot be read.
pub record Order (R : Type 0) : Type 0 where
  pub id : Option String
  pub symbol : Option String
  pub order_type : String
  pub side : String
  pub status : String
  pub stop_price : Option R
  pub filled_qty : R
  pub filled_at : Option Timestamp

pub record Bracket (R : Type 0) : Type 0 where
  pub parent : Order R
  pub legs : List (Order R)

-- A row of the frame of minute bars.
pub record Minute (R : Type 0) : Type 0 where
  pub timestamp : Timestamp
  pub bar : Bar R

-- The time of day in New York; Monday is weekday 0.
pub record Wall : Type 0 where
  pub weekday : ℕ
  pub hour : ℕ
  pub minute : ℕ

pub data ExitRule : Type 0 where
  exit_catastrophe exit_naked_stop exit_first_red exit_scale_out exit_trail stop_moved : ExitRule

-- What the manager asks of the broker, and the events that it gives to the store.
pub data Act (R : Type 0) : Type 0 where
  cancel_order : String → Act R
  close_position : String → Act R
  close_part : String → ℤ → Act R
  submit_stop : String → ℤ → R → Act R
  replace_order : String → R → Act R
  emitted : ExitRule → String → Act R

-- The messages that a pass returns.
pub data Taken (R : Type 0) : Type 0 where
  catastrophe_exit naked_stop_exit first_red_taken trail_exit : Taken R
  catastrophe_rest_stop rested_stop : R → Taken R
  scaled_out : ℤ → Taken R
  stop_to : R → Taken R

-- What the outside answers in one pass; `none` is a call that raises, or an answer that is not there.
pub record World (R : Type 0) : Type 0 where
  pub positions : Option (List (BrokerPosition R))
  -- `get_orders(status="all")` of the symbols, and `get_orders(status="open")` of one symbol
  pub all_orders : List String → Option (List (Bracket R))
  pub open_orders : String → Option (List (Bracket R))
  pub clock_is_open : Option Bool
  pub wall : Option Wall
  pub bars : String → Option (List (Minute R))
  -- whether the broker takes a request, after those that the pass has made, the latest first
  pub accepts : List (Act R) → Act R → Bool

-- The fields of `LiveExitManager` that change, what the pass has done, and the messages, both with
-- the latest first.
pub record Manager (R : Type 0) : Type 0 where
  pub tracked : Dict (Tracked R)
  pub naked_passes : Dict ℕ
  pub open_anchored : List String
  pub journal : List (Act R)
  pub actions : List (String × Taken R)
