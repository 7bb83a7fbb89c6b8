-- ===== src/Tests/Replay.antt =====
-- storage/replay.py on a short log.
use momentum_system.Prelude.{ℕ, zero, suc, ◌≡◌, refl, none, some, List, [], ◌∷◌, ◌++◌, count, arith}
use momentum_system.Prelude.Int.{pos}
use momentum_system.Prelude.Dict.{lookup}
use momentum_system.Replay.Data.{
  StoredEvent, EventBody, symbol_state_changed, signal_ready, position_opened, position_closed,
  order_submitted, order_cancelled, other,
}
use momentum_system.Replay.Rebuild.{
  process_event, process_body, process_events, empty_state, in_session, query_events,
  rebuild_session,
}
use momentum_system.Replay.Refine.{
  next_symbol, next_position, next_order, replayed, process_events-refines,
}
use momentum_system.Replay.Window.{rebuild_session-window}

abbrev event : EventBody ℕ → StoredEvent ℕ
event body = record {
  timestamp = "2026-06-24 09:31:00";
  correlation_id = some "live";
  symbol = "ABCD";
  body = body;
}

abbrev log : List (StoredEvent ℕ)
log =
    event (symbol_state_changed none "ready" none)
    ∷ event (signal_ready "opening_range_break" 9)
    ∷ event (order_submitted "1" (some "buy") (some (pos 10)) (some 20))
    ∷ event (position_opened "p" 20 (pos 10) 19)
    ∷ event (position_closed "p" 21 "target" 10)
    ∷ event (order_cancelled "2" none)
    ∷ []

process_events-refines_example :
    (lookup "ABCD" (process_events (empty_state "live") log).symbols
      ≡ replayed (next_symbol "ABCD") none log)
    × (lookup "ABCD" (process_events (empty_state "live") log).positions
        ≡ replayed (next_position "ABCD") none log)
    × (lookup "ABCD" (process_events (empty_state "live") log).orders
        ≡ replayed (next_order "ABCD") none log)
process_events-refines_example = process_events-refines "ABCD" log (empty_state "live")

-- the position is closed with its exit
rebuilds : lookup "p" (rebuild_session "live" log).positions ≡ replayed (next_position "p") none log
unfolding rebuild_session query_events process_events process_event process_body
rebuilds = refl

-- as many ticks of the session
abbrev ticks : ℕ → List (StoredEvent ℕ)
ticks zero = []
ticks (suc k) = event (other "module_tick") ∷ ticks k

count-ticks : (k : ℕ) → count (in_session "live") (ticks k) ≡ k
count-ticks zero = refl
count-ticks (suc k) = omega (arith, count-ticks k)

rebuild_session-window_example :
    rebuild_session "live" (ticks 1000 ++ log) ≡ rebuild_session "live" (ticks 1000)
rebuild_session-window_example =
    rebuild_session-window "live" (ticks 1000) log (omega (arith, count-ticks 1000))
