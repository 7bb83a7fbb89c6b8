-- ===== src/Replay/Data.antt =====
-- storage/event_schema.py and storage/replay.py: the events, and the state that they rebuild.
use momentum_system.Prelude.{ℕ, String, Option, List}
use momentum_system.Prelude.Int.{ℤ}
use momentum_system.Prelude.Dict.{Dict}

-- The event types that the rebuilding reads, with the fields of the payload that it reads; `other`
-- is any other type. The events are those of the schema, so a field that it requires is there.
pub data EventBody (R : Type 0) : Type 0 where
  symbol_discovered : EventBody R
  symbol_state_changed : Option String → String → Option String → EventBody R
  signal_ready : String → R → EventBody R
  position_opened : String → R → ℤ → R → EventBody R
  position_closed : String → R → String → R → EventBody R
  order_filled : String → EventBody R
  order_submitted : String → Option String → Option ℤ → Option R → EventBody R
  order_cancelled : String → Option String → EventBody R
  other : String → EventBody R

-- A row of the table of events.
pub record StoredEvent (R : Type 0) : Type 0 where
  pub timestamp : String
  pub correlation_id : Option String
  pub symbol : String
  pub body : EventBody R

pub record HistoryEntry : Type 0 where
  pub state : String
  pub timestamp : String
  pub reason : Option String

pub record SignalEntry (R : Type 0) : Type 0 where
  pub signal_type : String
  pub confidence : R
  pub timestamp : String

-- The entry of a symbol; a list that is not there yet is empty.
pub record SymbolEntry (R : Type 0) : Type 0 where
  pub state : String
  pub discovered_at : String
  pub state_history : List HistoryEntry
  pub signals : List (SignalEntry R)

pub record ExitEntry (R : Type 0) : Type 0 where
  pub exit_price : R
  pub exit_reason : String
  pub realized_pnl : R
  pub closed_at : String

-- The entry of a position; it is closed where it has an exit.
pub record PositionEntry (R : Type 0) : Type 0 where
  pub symbol : String
  pub entry_price : R
  pub quantity : ℤ
  pub stop_loss_price : R
  pub opened_at : String
  pub exit : Option (ExitEntry R)

pub data OrderStatus : Type 0 where
  submitted cancelled : OrderStatus

pub record OrderEntry (R : Type 0) : Type 0 where
  pub symbol : String
  pub status : OrderStatus
  pub side : Option String
  pub quantity : Option ℤ
  pub price : Option R
  pub cancel_reason : Option String
  pub updated_at : String

pub record FillEntry : Type 0 where
  pub order_id : String
  pub symbol : String
  pub timestamp : String

pub record SessionState (R : Type 0) : Type 0 where
  pub session_id : String
  pub symbols : Dict (SymbolEntry R)
  pub orders : Dict (OrderEntry R)
  pub positions : Dict (PositionEntry R)
  pub events : List FillEntry

-- The summary of `EventStore.rebuild_state`.
pub record SessionSummary : Type 0 where
  pub session_id : String
  pub total_events : ℕ
  pub event_types : Dict ℕ
