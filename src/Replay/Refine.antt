-- ===== src/Replay/Refine.antt =====
-- storage/replay.py: the dicts that are rebuilt implement one record for each name.
use momentum_system.Prelude.{
  ◌≡◌, refl, ◌∙◌, ap, String, str_eq, eq_iff, Option, none, some, List, [], ◌∷◌, ◌++◌,
  if◌then◌else◌, arith,
}
use momentum_system.Prelude.Dict.{lookup, contains, insert, lookup-insert, lookup-modify}
use momentum_system.Replay.Data.{
  EventBody, symbol_discovered, symbol_state_changed, signal_ready, position_opened,
  position_closed, order_filled, order_submitted, order_cancelled, other, StoredEvent, HistoryEntry,
  SignalEntry, SymbolEntry, PositionEntry, OrderEntry, submitted, cancelled, SessionState,
}
use momentum_system.Replay.Rebuild.{
  previous_or, discovered, changed, signalled, cancelled_over, process_body, process_event,
  process_events,
}

module _ {R : Type 0} where
  -- What an event does to the entry of one symbol, one position or one order, field by field.
  abbrev pub next_symbol : String → StoredEvent R → Option (SymbolEntry R) → Option (SymbolEntry R)
  next_symbol k e o =
      if str_eq e.symbol k
      then elim e.body [
        | symbol_discovered ↦ some (record {
          state = "discovered";
          discovered_at = e.timestamp;
          state_history = [];
          signals = [];
        })
        | symbol_state_changed previous new_state reason ↦
            (let change : HistoryEntry = record {
              state = new_state;
              timestamp = e.timestamp;
              reason = reason;
            } in
              some (record {
                state = new_state;
                discovered_at = elim o [ none ↦ e.timestamp | some s ↦ s.discovered_at ];
                state_history = elim o [ none ↦ [] | some s ↦ s.state_history ] ++ change ∷ [];
                signals = elim o [ none ↦ [] | some s ↦ s.signals ];
              }))
        | signal_ready signal_type confidence ↦ elim o [
          | none ↦ none
          | some s ↦
              (let signal : SignalEntry R = record {
                signal_type = signal_type;
                confidence = confidence;
                timestamp = e.timestamp;
              } in
                some (record {
                  state = s.state;
                  discovered_at = s.discovered_at;
                  state_history = s.state_history;
                  signals = s.signals ++ signal ∷ [];
                }))
        ]
        | _ ↦ o
      ]
      else o

  abbrev pub next_position :
      String → StoredEvent R → Option (PositionEntry R) → Option (PositionEntry R)
  next_position k e o = elim e.body [
    | position_opened id entry_price quantity stop ↦
        if str_eq id k
        then some (record {
          symbol = e.symbol;
          entry_price = entry_price;
          quantity = quantity;
          stop_loss_price = stop;
          opened_at = e.timestamp;
          exit = none;
        })
        else o
    | position_closed id exit_price exit_reason pnl ↦
        if str_eq id k
        then elim o [
          | none ↦ none
          | some p ↦ some (record {
            symbol = p.symbol;
            entry_price = p.entry_price;
            quantity = p.quantity;
            stop_loss_price = p.stop_loss_price;
            opened_at = p.opened_at;
            exit = some (record {
              exit_price = exit_price;
              exit_reason = exit_reason;
              realized_pnl = pnl;
              closed_at = e.timestamp;
            });
          })
        ]
        else o
    | _ ↦ o
  ]

  abbrev pub next_order : String → StoredEvent R → Option (OrderEntry R) → Option (OrderEntry R)
  next_order k e o = elim e.body [
    | order_submitted id side quantity price ↦
        if str_eq id k
        then some (record {
          symbol = e.symbol;
          status = submitted;
          side = side;
          quantity = quantity;
          price = price;
          cancel_reason = none;
          updated_at = e.timestamp;
        })
        else o
    | order_cancelled id reason ↦
        if str_eq id k
        then some (record {
          symbol = e.symbol;
          status = cancelled;
          side = elim o [ none ↦ none | some p ↦ p.side ];
          quantity = elim o [ none ↦ none | some p ↦ p.quantity ];
          price = elim o [ none ↦ none | some p ↦ p.price ];
          cancel_reason = reason;
          updated_at = e.timestamp;
        })
        else o
    | _ ↦ o
  ]

  -- the entry that events leave, from the one that is there
  abbrev pub replayed :
      {A : Type 0}
      → (StoredEvent R → Option A → Option A)
      → Option A
      → List (StoredEvent R)
      → Option A
  replayed step o [] = o
  replayed step o (e ∷ es) = replayed step (step e o) es

  abbrev stored : Option String → EventBody R → String → String → StoredEvent R
  stored session body symbol at = record {
    timestamp = at;
    correlation_id = session;
    symbol = symbol;
    body = body;
  }

  process_body-symbols :
      (k : String) (c : Option String) (b : EventBody R) (symbol at : String) (s : SessionState R)
      → lookup k (process_body b symbol at s).symbols
        ≡ next_symbol k (stored c b symbol at) (lookup k s.symbols)
  unfolding process_body
  process_body-symbols k c symbol_discovered symbol at s =
      lookup-insert symbol k (discovered "discovered" at) s.symbols
  process_body-symbols k c (symbol_state_changed previous new_state reason) symbol at s =
      let fresh = discovered (previous_or previous) at in
      let known = if contains symbol s.symbols then s.symbols else insert symbol fresh s.symbols in
      ground (
        arith,
        eq_iff symbol k,
        lookup-modify symbol k (changed new_state at reason) known,
        lookup-insert symbol k fresh s.symbols,
      )
  process_body-symbols k c (signal_ready signal_type confidence) symbol at s =
      lookup-modify symbol k (signalled signal_type confidence at) s.symbols
  process_body-symbols k c (position_opened i j l m) symbol at s = ground arith
  process_body-symbols k c (position_closed i j l m) symbol at s = ground arith
  process_body-symbols k c (order_filled i) symbol at s = ground arith
  process_body-symbols k c (order_submitted i j l m) symbol at s = ground arith
  process_body-symbols k c (order_cancelled i j) symbol at s = ground arith
  process_body-symbols k c (other i) symbol at s = ground arith

  process_body-positions :
      (k : String) (c : Option String) (b : EventBody R) (symbol at : String) (s : SessionState R)
      → lookup k (process_body b symbol at s).positions
        ≡ next_position k (stored c b symbol at) (lookup k s.positions)
  unfolding process_body
  process_body-positions k c symbol_discovered symbol at s = refl
  process_body-positions k c (symbol_state_changed i j l) symbol at s = refl
  process_body-positions k c (signal_ready i j) symbol at s = refl
  process_body-positions k c (position_opened id i j l) symbol at s =
      lookup-insert id k _ s.positions
  process_body-positions k c (position_closed id i j l) symbol at s =
      lookup-modify id k _ s.positions
  process_body-positions k c (order_filled i) symbol at s = refl
  process_body-positions k c (order_submitted i j l m) symbol at s = refl
  process_body-positions k c (order_cancelled i j) symbol at s = refl
  process_body-positions k c (other i) symbol at s = refl

  process_body-orders :
      (k : String) (c : Option String) (b : EventBody R) (symbol at : String) (s : SessionState R)
      → lookup k (process_body b symbol at s).orders
        ≡ next_order k (stored c b symbol at) (lookup k s.orders)
  unfolding process_body
  process_body-orders k c symbol_discovered symbol at s = refl
  process_body-orders k c (symbol_state_changed i j l) symbol at s = refl
  process_body-orders k c (signal_ready i j) symbol at s = refl
  process_body-orders k c (position_opened i j l m) symbol at s = refl
  process_body-orders k c (position_closed i j l m) symbol at s = refl
  process_body-orders k c (order_filled i) symbol at s = refl
  process_body-orders k c (order_submitted id i j l) symbol at s = lookup-insert id k _ s.orders
  process_body-orders k c (order_cancelled id reason) symbol at s = ground (
    arith,
    eq_iff id k,
    lookup-insert id k (cancelled_over symbol reason at (lookup id s.orders)) s.orders,
  )
  process_body-orders k c (other i) symbol at s = refl

  -- The rebuilding of a session, over any events and from any state, implements one record for each
  -- name: the entry of a symbol, of a position or of an order is what the events leave of the entry
  -- that was there, where each event changes the fields of the one that it names, as `next_symbol`,
  -- `next_position` and `next_order` list them, and no other.
  pub process_events-refines :
      (k : String) (es : List (StoredEvent R)) (s : SessionState R)
      → (lookup k (process_events s es).symbols ≡ replayed (next_symbol k) (lookup k s.symbols) es)
        × (lookup k (process_events s es).positions
            ≡ replayed (next_position k) (lookup k s.positions) es)
        × (lookup k (process_events s es).orders ≡ replayed (next_order k) (lookup k s.orders) es)
  unfolding process_events process_event
  process_events-refines k [] s = (refl, refl, refl)
  process_events-refines k (e ∷ es) s =
      let (a, b, c) = process_events-refines k es (process_event s e) in
      (
        a
            ∙ ap (λ o. replayed (next_symbol k) o es)
                (process_body-symbols k e.correlation_id e.body e.symbol e.timestamp s),
        b
            ∙ ap (λ o. replayed (next_position k) o es)
                (process_body-positions k e.correlation_id e.body e.symbol e.timestamp s),
        c
            ∙ ap (λ o. replayed (next_order k) o es)
                (process_body-orders k e.correlation_id e.body e.symbol e.timestamp s),
      )
