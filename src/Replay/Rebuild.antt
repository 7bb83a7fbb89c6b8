-- ===== src/Replay/Rebuild.antt =====
-- storage/replay.py: `StateRebuilder`, and the queries of storage/event_store.py that it makes.
use momentum_system.Prelude.{
  ℕ, ◌+◌, String, str_eq, Bool, false, Option, none, some, List, [], ◌∷◌, ◌++◌, take, filter,
  length, if◌then◌else◌,
}
use momentum_system.Prelude.Dict.{Dict, lookup, contains, insert, modify}
use momentum_system.Replay.Data.{
  EventBody, symbol_discovered, symbol_state_changed, signal_ready, position_opened,
  position_closed, order_filled, order_submitted, order_cancelled, other, StoredEvent, SymbolEntry,
  PositionEntry, OrderEntry, submitted, cancelled, SessionState, SessionSummary,
}

-- `payload.get("previous_state") or "discovered"`
abbrev pub previous_or : Option String → String
previous_or none = "discovered"
previous_or (some s) = if str_eq s "" then "discovered" else s

module _ {R : Type 0} where
  abbrev pub discovered : String → String → SymbolEntry R
  discovered state at = record {
    state = state;
    discovered_at = at;
    state_history = [];
    signals = [];
  }

  -- the change of the state of a symbol's entry
  abbrev pub changed : String → String → Option String → SymbolEntry R → SymbolEntry R
  changed new_state at reason s = record s {
    state = new_state;
    state_history =
        s.state_history ++ (record { state = new_state; timestamp = at; reason = reason } ∷ []);
  }

  abbrev pub signalled : String → R → String → SymbolEntry R → SymbolEntry R
  signalled signal_type confidence at s = record s {
    signals =
        s.signals
        ++ (record { signal_type = signal_type; confidence = confidence; timestamp = at } ∷ []);
  }

  abbrev pub closed_with : R → String → R → String → PositionEntry R → PositionEntry R
  closed_with exit_price exit_reason pnl at p = record p {
    exit = some (record {
      exit_price = exit_price;
      exit_reason = exit_reason;
      realized_pnl = pnl;
      closed_at = at;
    });
  }

  -- the entry of a cancelled order, over the one that is there
  abbrev pub cancelled_over : String → Option String → String → Option (OrderEntry R) → OrderEntry R
  cancelled_over symbol reason at none = record {
    symbol = symbol;
    status = cancelled;
    side = none;
    quantity = none;
    price = none;
    cancel_reason = reason;
    updated_at = at;
  }
  cancelled_over symbol reason at (some o) = record o {
    symbol = symbol;
    status = cancelled;
    cancel_reason = reason;
    updated_at = at;
  }

  -- `_process_event`
  unfoldable pub process_body : EventBody R → String → String → SessionState R → SessionState R
  process_body symbol_discovered symbol at s = record s {
    symbols = insert symbol (discovered "discovered" at) s.symbols;
  }
  process_body (symbol_state_changed previous new_state reason) symbol at s =
      let known =
        if contains symbol s.symbols
        then s.symbols
        else insert symbol (discovered (previous_or previous) at) s.symbols in
      record s { symbols = modify symbol (changed new_state at reason) known }
  process_body (signal_ready signal_type confidence) symbol at s = record s {
    symbols = modify symbol (signalled signal_type confidence at) s.symbols;
  }
  process_body (position_opened id entry_price quantity stop) symbol at s = record s {
    positions =
        insert id
          (record {
            symbol = symbol;
            entry_price = entry_price;
            quantity = quantity;
            stop_loss_price = stop;
            opened_at = at;
            exit = none;
          })
          s.positions;
  }
  process_body (position_closed id exit_price exit_reason pnl) symbol at s = record s {
    positions = modify id (closed_with exit_price exit_reason pnl at) s.positions;
  }
  process_body (order_filled id) symbol at s = record s {
    events = s.events ++ (record { order_id = id; symbol = symbol; timestamp = at } ∷ []);
  }
  process_body (order_submitted id side quantity price) symbol at s = record s {
    orders =
        insert id
          (record {
            symbol = symbol;
            status = submitted;
            side = side;
            quantity = quantity;
            price = price;
            cancel_reason = none;
            updated_at = at;
          })
          s.orders;
  }
  process_body (order_cancelled id reason) symbol at s = record s {
    orders = insert id (cancelled_over symbol reason at (lookup id s.orders)) s.orders;
  }
  process_body (other event_type) symbol at s = s

  unfoldable pub process_event : SessionState R → StoredEvent R → SessionState R
  process_event s e = process_body e.body e.symbol e.timestamp s

  abbrev pub empty_state : String → SessionState R
  empty_state session_id = record {
    session_id = session_id;
    symbols = [];
    orders = [];
    positions = [];
    events = [];
  }

  unfoldable pub process_events : SessionState R → List (StoredEvent R) → SessionState R
  process_events s [] = s
  process_events s (e ∷ es) = process_events (process_event s e) es

  -- `correlation_id = ?` of a row
  abbrev pub in_session : String → StoredEvent R → Bool
  in_session session_id e = elim e.correlation_id [ none ↦ false | some id ↦ str_eq id session_id ]

  -- `query_events(session_id=...)`; the table's rows come in the order of their timestamps
  unfoldable pub query_events : String → Option ℕ → List (StoredEvent R) → List (StoredEvent R)
  query_events session_id none rows = filter (in_session session_id) rows
  query_events session_id (some limit) rows = take limit (filter (in_session session_id) rows)

  -- `rebuild_session`, which leaves the limit of the query at its default
  unfoldable pub rebuild_session : String → List (StoredEvent R) → SessionState R
  rebuild_session session_id rows =
      process_events (empty_state session_id) (query_events session_id (some 1000) rows)

  unfoldable pub type_name : EventBody R → String
  type_name symbol_discovered = "symbol_discovered"
  type_name (symbol_state_changed previous new_state reason) = "symbol_state_changed"
  type_name (signal_ready signal_type confidence) = "signal_ready"
  type_name (position_opened id entry_price quantity stop) = "position_opened"
  type_name (position_closed id exit_price exit_reason pnl) = "position_closed"
  type_name (order_filled id) = "order_filled"
  type_name (order_submitted id side quantity price) = "order_submitted"
  type_name (order_cancelled id reason) = "order_cancelled"
  type_name (other event_type) = event_type

  -- the loop of `rebuild_state`
  unfoldable pub tally : Dict ℕ → List (StoredEvent R) → Dict ℕ
  tally counts [] = counts
  tally counts (e ∷ es) =
      let kind = type_name e.body in
      let n : ℕ = elim (lookup kind counts) [ none ↦ 0 | some k ↦ k ] in
      tally (insert kind (n + 1) counts) es

  -- `EventStore.rebuild_state`
  unfoldable pub rebuild_state : String → List (StoredEvent R) → SessionSummary
  rebuild_state session_id rows =
      let events = query_events session_id none rows in
      record {
        session_id = session_id;
        total_events = length events;
        event_types = tally [] events;
      }
