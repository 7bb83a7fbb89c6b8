-- ===== src/Trading/Breaker.antt =====
-- trading_execution.py: the daily-loss breaker, and the flattening of the book.
use momentum_system.Prelude.{
  ℕ, suc, String, str_eq, Bool, true, false, ◌&&◌, ◌||◌, not, Option, none, some, List, [], ◌∷◌,
  length, if◌then◌else◌,
}
use momentum_system.Prelude.Int.{pos, leb_ℤ}
use momentum_system.Prelude.Dict.{Dict, erase}
use momentum_system.Prelude.Sets.{mem, discard}
use momentum_system.Float.{Float, Real, nought, ◌⊖◌, ◌⊘◌, ◌≤?◌, ◌=?◌, fabs}
use momentum_system.Trading.Data.{
  ExecutionSettings, Armed, Account, Position, Outside, equity_recovered, equity_unreadable,
  daily_loss, eod_flatten, entry_cancelled, position_closed, risk_rule, Service,
}
use momentum_system.Trading.Bench.{emit, symbols_of}

-- The lists have the latest first.
pub record FlattenResult : Type 0 where
  pub cancelled_entries : ℕ
  pub closed_positions : List String
  pub errors : List String

module _ ⦃n : Float⦄ where
  -- `_held_symbols`, and the count of `_open_position_count`: of the latest snapshot in the store
  unfoldable pub held_symbols : Outside Real → List String
  held_symbols o = elim o.snapshot [ none ↦ [] | some positions ↦ symbols_of positions ]

  unfoldable pub open_position_count : Outside Real → ℕ
  open_position_count o = elim o.snapshot [ none ↦ 0 | some positions ↦ length positions ]

  -- the cancellation of the tracked entries; `cancel_entry` raises nothing
  unfoldable pub cancel_armed : Dict (Armed Real) → Service Real → Service Real
  cancel_armed [] s = s
  cancel_armed ((order_id, armed) ∷ d) s = cancel_armed d (record s {
    armed = erase order_id s.armed;
    requested_symbols = discard armed.symbol s.requested_symbols;
    effects = entry_cancelled order_id armed.symbol ∷ s.effects;
  })

  -- the loop over the open positions: a close that raises is collected
  unfoldable pub close_all :
      Outside Real → List String → FlattenResult × Service Real → FlattenResult × Service Real
  close_all o [] r = r
  close_all o (symbol ∷ symbols) (res, s) = close_all o symbols (
      if o.closes symbol
      then (
        record res { closed_positions = symbol ∷ res.closed_positions },
        emit (position_closed symbol) s,
      )
      else (record res { errors = symbol ∷ res.errors }, s))

  unfoldable pub flatten_all : Outside Real → Service Real → FlattenResult × Service Real
  unfolding cancel_armed close_all
  flatten_all o s = close_all o (o.in_order (held_symbols o)) (
    record { cancelled_entries = length s.armed; closed_positions = []; errors = [] },
    cancel_armed s.armed s,
  )

  -- a good read of the equity clears the pause
  unfoldable pub recovered : Service Real → Service Real
  recovered s =
      let good = record s { data_halt = false; equity_read_failures = 0 } in
      if s.data_halt then emit (risk_rule equity_recovered "") good else good

  -- a failed read, and from the limit on a pause
  unfoldable pub unreadable : Service Real → Service Real
  unreadable s =
      let failed = record s { equity_read_failures = suc s.equity_read_failures } in
      if leb_ℤ s.equity_fail_limit (pos failed.equity_read_failures) && not s.data_halt
      then emit (risk_rule equity_unreadable "") (record failed { data_halt = true })
      else failed

  abbrev pub baseline : Account Real → Real
  baseline a = elim a.last_equity [ none ↦ a.equity | some x ↦ if x =? nought then a.equity else x ]

  unfoldable pub is_breach : ExecutionSettings Real → Account Real → Bool
  is_breach cfg a =
      not (baseline a ≤? nought)
      && (((a.equity ⊖ baseline a) ⊘ baseline a) ≤? n.neg (fabs cfg.max_daily_loss_pct))

  unfoldable pub trip : Outside Real → ExecutionSettings Real → Service Real → Service Real
  unfolding flatten_all
  trip o cfg s =
      let halting = record s { halted = true } in
      emit (risk_rule daily_loss "")
        (if cfg.flatten_on_breach then (flatten_all o halting).1 else halting)

  -- what the reading of the account decides
  unfoldable pub judged :
      Outside Real
      → ExecutionSettings Real
      → Option (Account Real)
      → Service Real
      → Bool × Service Real
  unfolding recovered unreadable is_breach
  judged o cfg none s = ((unreadable s).data_halt, unreadable s)
  judged o cfg (some a) s =
      if is_breach cfg a then (true, trip o cfg (recovered s)) else (false, recovered s)

  -- `_daily_loss_breach`: whether new entries are blocked
  unfoldable pub daily_loss_breach :
      Outside Real → ExecutionSettings Real → Service Real → Bool × Service Real
  daily_loss_breach o cfg s =
      if s.halted || s.session_closed
      then (true, s)
      else if fabs cfg.max_daily_loss_pct ≤? nought
      then (false, s)
      else judged o cfg o.account s

  -- the second loop of `close_session`, over the positions that the broker reports
  unfoldable pub close_missed :
      Outside Real
      → List (Position Real)
      → FlattenResult × Service Real
      → FlattenResult × Service Real
  close_missed o [] r = r
  close_missed o (p ∷ positions) (res, s) =
      let symbol = p.symbol in
      close_missed o positions (
        if str_eq symbol "" || mem symbol res.closed_positions
        then (res, s)
        else if o.closes symbol
        then (
          record res { closed_positions = symbol ∷ res.closed_positions },
          emit (position_closed symbol) s,
        )
        else (record res { errors = symbol ∷ res.errors }, s))

  unfoldable pub close_session : Outside Real → Service Real → FlattenResult × Service Real
  unfolding flatten_all close_missed
  close_session o s =
      let flat = flatten_all o (record s { session_closed = true }) in
      let (res, after) : FlattenResult × Service Real = elim o.positions [
        | none ↦ (record flat.0 { errors = "positions" ∷ flat.0.errors }, flat.1)
        | some positions ↦ close_missed o positions flat
      ] in
      (res, emit (risk_rule eod_flatten "") after)
