-- ===== src/Trading/Bench.antt =====
-- trading_execution.py: the symbols that may not be entered again for a while, and the count of the
-- day's entries.
use momentum_system.Prelude.{
  ℕ, suc, ◌+◌, ◌-◌, ◌/◌, String, str_eq, Bool, true, false, not, ◌&&◌, Option, none, some, List, [],
  ◌∷◌, ltb, leb, ◌==◌, if◌then◌else◌,
}
use momentum_system.Prelude.Int.{ℤ, pos, leb_ℤ}
use momentum_system.Prelude.Dict.{Dict, lookup, insert, erase, modify}
use momentum_system.Prelude.Sets.{mem, add, difference}
use momentum_system.Float.{Float, Real, nought, ◌≤?◌, ◌<?◌, ◌=?◌, fabs}
use momentum_system.Trading.Data.{
  ExecutionSettings, Time, Until, at, never, Armed, ExecutionRequest, ExecutionResult, Position,
  Outside, reentry_block, Effect, risk_rule, Service,
}

abbrev pub is_zero : ℤ → Bool
is_zero z = leb_ℤ z (pos 0) && leb_ℤ (pos 0) z

abbrev pub is_over : Time → Until → Bool
is_over now never = false
is_over now (at t) = leb t now

abbrev pub or_zero : Option ℕ → ℕ
or_zero none = 0
or_zero (some n) = n

-- the states of an order that rests at the broker
abbrev pub resting : List String
resting = "new" ∷ "accepted" ∷ "pending_new" ∷ "held" ∷ "accepted_for_bidding" ∷ []

abbrev pub microseconds_per_day : ℕ
microseconds_per_day = 86400000000

module _ ⦃n : Float⦄ where
  abbrev pub emit : Effect Real → Service Real → Service Real
  emit e s = record s { effects = e ∷ s.effects }

  unfoldable pub in_cooldown : Time → String → Service Real → Bool × Service Real
  in_cooldown now symbol s = elim (lookup symbol s.cooldown_until) [
    | none ↦ (false, s)
    | some until ↦
        if is_over now until
        then (false, record s { cooldown_until = erase symbol s.cooldown_until })
        else (true, s)
  ]

  unfoldable pub bench_until : ExecutionSettings Real → Time → ℕ → Option Until
  bench_until cfg now count =
      if not (is_zero cfg.max_backouts_per_symbol) && leb_ℤ cfg.max_backouts_per_symbol (pos count)
      then some never
      else if nought <? cfg.backout_cooldown_seconds
      then some (at (now + n.micros cfg.backout_cooldown_seconds))
      else none

  abbrev bench : String → Option Until → Dict Until → Dict Until
  bench symbol none d = d
  bench symbol (some until) d = insert symbol until d

  unfoldable pub register_backout :
      ExecutionSettings Real → Time → String → Service Real → Service Real
  unfolding bench_until
  register_backout cfg now symbol s =
      let count = suc (or_zero (lookup symbol s.backout_counts)) in
      record s {
        backout_counts = insert symbol count s.backout_counts;
        cooldown_until = bench symbol (bench_until cfg now count) s.cooldown_until;
      }

  unfoldable pub release_cap_slot : Armed Real → Service Real → Service Real
  release_cap_slot armed s =
      if armed.counted && ltb 0 s.fresh_n then record s { fresh_n = s.fresh_n - 1 } else s

  -- `_fresh_entries` of a new day
  unfoldable pub roll_day : Time → Service Real → Service Real
  roll_day now s =
      let today = now / microseconds_per_day in
      let fresh = record s { fresh_date = some today; fresh_n = 0 } in
      elim s.fresh_date [ none ↦ fresh | some day ↦ if day == today then s else fresh ]

  unfoldable pub at_daily_cap : ExecutionSettings Real → Service Real → Bool
  at_daily_cap cfg s = leb_ℤ cfg.max_fresh_entries_per_day (pos s.fresh_n)

  unfoldable pub is_capped : ExecutionSettings Real → Bool
  is_capped cfg = not (leb_ℤ cfg.max_fresh_entries_per_day (pos 0))

  -- the entry rests at the broker: track it
  unfoldable pub arm_entry :
      Time → ExecutionRequest Real → ExecutionResult → Service Real → Service Real
  arm_entry now request result s =
      let entry : Armed Real = record {
        symbol = request.symbol;
        entry_price = request.entry_price;
        broker_order_id = result.broker_order_id;
        armed_at = now;
        checks = 0;
        counted = false;
      } in
      if result.ok && mem result.status resting && not (request.entry_price =? nought)
      then record s { armed = insert request.order_id entry s.armed }
      else s

  abbrev counted_in : Armed Real → Armed Real
  counted_in a = record a { counted = true }

  -- count an entry that the broker took toward the day's cap
  unfoldable pub count_entry :
      ExecutionSettings Real → String → ExecutionResult → Service Real → Service Real
  unfolding is_capped
  count_entry cfg order_id result s =
      if result.ok && is_capped cfg
      then record s { fresh_n = suc s.fresh_n; armed = modify order_id counted_in s.armed }
      else s

  -- the symbols of the positions that name one
  unfoldable pub symbols_of : List (Position Real) → List String
  symbols_of [] = []
  symbols_of (p ∷ positions) =
      if str_eq p.symbol "" then symbols_of positions else add p.symbol (symbols_of positions)

  abbrev returned : Position Real → Dict Real → Dict Real
  returned p d = elim p.unrealized_plpc [ none ↦ d | some r ↦ insert p.symbol r d ]

  -- the first loop of `_note_position_exits`
  unfoldable pub note_returns : List (Position Real) → Dict Real → Dict Real
  note_returns [] d = d
  note_returns (p ∷ positions) d =
      note_returns positions (if str_eq p.symbol "" then d else returned p d)

  abbrev or_nought : Option Real → Real
  or_nought none = nought
  or_nought (some x) = x

  -- the second loop of `_note_position_exits`, over the symbols that are no longer held
  unfoldable pub note_departures : Real → List String → Service Real → Service Real
  note_departures thr [] s = s
  note_departures thr (sym ∷ symbols) s =
      let last_ret = or_nought (lookup sym s.held_ret) in
      let popped = record s { held_ret = erase sym s.held_ret } in
      note_departures thr symbols (
        if (nought <? thr) && (n.neg thr ≤? last_ret) then popped else record popped {
          exited_today = add sym s.exited_today;
          effects = risk_rule reentry_block sym ∷ s.effects;
        })

  unfoldable pub note_position_exits :
      Outside Real → ExecutionSettings Real → Service Real → Service Real
  note_position_exits o cfg s = if not cfg.reentry_block_after_exit then s else elim o.positions [
    | none ↦ s
    | some positions ↦
        let held = symbols_of positions in
        let seen = record s { held_ret = note_returns positions s.held_ret } in
        record (note_departures (fabs cfg.reentry_min_loss_pct) (difference s.prev_held held)
          seen) { prev_held = held }
  ]
