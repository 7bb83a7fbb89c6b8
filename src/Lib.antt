-- ===== src/Lib.antt =====
-- The trading core of a small momentum system for US equities: it ranks gapping stocks, arms the
-- break of their opening range, sizes the order, and manages the exit until the end of the session.
--
-- Float: the finite floating-point numbers, as an interface. Comparisons are those of the order of
--   the doubles; no law is assumed of the arithmetic unless a theorem takes it (IsMonotone). Inputs
--   that are infinite or NaN, and runs that overflow, are outside of the model.
-- Exits: strategy/exits.py. Data has the dataclasses, Trail `_trail_stop`, Backtest
--   `simulate_exit`, Manage `manage_live`, Backstop `catastrophe_triggered`. A frame of bars is a
--   list of rows; a row is the four prices that the code reads. Parsing the environment and the
--   text of `describe` are left out.
-- Triggers: runtime/triggers.py. Data has the dataclasses, Arming `arm`, Calls the other methods
--   and the sequences of calls, Snapshot the rows of the board. The dict is a list of pairs in
--   insertion order. The lock serializes the methods, so each is one step on the book.
-- Trading: trading_execution.py, which calls the risk rules and is called by the live loop and by
--   the thread that watches the triggers. Data has the settings, the state of the service, what it
--   asks of the outside (Outside: the answers of the clock, the store and the broker in one call)
--   and what it does there (Effect, the latest first). Bench has the cooldowns and the count of
--   entries, Breaker the daily-loss breaker and the flattening, Breakout `submit_breakout_now` with
--   its early returns as a list of gates, Approval the pending orders, Expire the backing out of
--   entries, Signals `request_approvals_for_ready_signals` and `tick`, Calls the sequences of
--   calls. The lock serializes the calls that take it. `expire_stale_entries` takes it under `tick`
--   and not in the guard step of run_live_paper.py; it is a step of its own here, so that what a
--   live break does in the middle of it is not covered. One call sees one time, and one answer to
--   each question.
--   Times are microseconds. The broker's client is there, and the store takes every event. Carries
--   has the catch-up at the open with the fills of runtime/flatten.py, Fresh what it closes,
--   Payload the request of alpaca_paper/execution.py as the queue stores it, Executor `execute`, and
--   Manual `submit_exit_order` and `cancel_entry`.
-- ExitManager: runtime/exit_manager.py and `cancel_protective_and_close` of runtime/flatten.py.
--   Data has the state of the manager, what the broker reports (World: the answers of one pass) and
--   what is asked of it (Act, in a journal with the latest first). Desk reads the orders and makes
--   the requests, each of which the broker may refuse, Tracking says from where a position is
--   trailed, and Steps and Pass are `manage`, which asks `manage_live` and `catastrophe_triggered`
--   of Exits. Warrants, Keeps and Passes say what a pass may ask, Enforced and Naked what it has to
--   ask. The store takes every event, and the waits between attempts to close are left out.
-- Setups: strategy/evaluation/structure.py. A frame is a list of rows, with two flags for the
--   columns that may be missing; `none` stands for a call that raises. Flag, Pullback, Gap, Hod,
--   Fallback and Opening have a detector each, Classify `classify_setup`. The mean of pandas is an
--   argument.
-- Replay: storage/replay.py, and of storage/event_store.py the query by session and
--   `rebuild_state`. The table is a list of rows in the order of their timestamps. Rebuild has the
--   operations, Refine the view of one name, Window what the limit of the query leaves.
-- Columns: the functions of pandas and numpy that the next three parts call, as an interface.
-- Evaluation: strategy/evaluation. Levels, Quality (with the score of runners), Candles, Volume
--   (with the regime and the spread), DataQuality and Criteria have a module each, Result the
--   records, and Evaluate `evaluate_setup`, which asks Setups for the structure and Risk for the
--   cutoff. `none` stands for a call that raises. The opening range is of one bar or more.
-- Detectors: the detectors of strategy/evaluation that are logged and not traded. Data has what
--   they share, Ignition, Runner, Liquid (with the setups before the open), Reclaim and Entry (with
--   the propensity to run) have them. Their gates are a list, as in Trading.
-- Backtest: strategy/backtest. Outcomes has `label_outcome`, Trades a trade and its costs,
--   and Engine `BacktestEngine.run`, which asks Evaluation, Risk and Exits. Its loop runs on as many
--   rounds of fuel as there are bars, and one more, which is enough, since each round moves on.
-- Risk: strategy/risk/position_sizing.py, strategy/risk/entry_cuts.py and runtime/halt_guard.py.
-- Calendar: runtime/market_calendar.py. A date is its ordinal; the search for the next session runs
--   on six rounds of fuel, which every date stays within.
--
-- Not modelled: the projections of the event store, the live loop, and the network clients,
-- dashboards and research scripts, which are input and output around this core.
pub mod Prelude
pub mod Float
pub mod Exits
pub mod Triggers
pub mod Risk
pub mod Calendar
pub mod Trading
pub mod ExitManager
pub mod Setups
pub mod Replay
pub mod Columns
pub mod Evaluation
pub mod Detectors
pub mod Backtest
pub mod Tests
