-- ===== src/Trading/Expire.antt =====
-- trading_execution.py: `expire_stale_entries`, which backs out of entries that do not fill.
use momentum_system.Prelude.{
  suc, String, Bool, false, not, ◌&&◌, ◌||◌, none, some, List, [], ◌∷◌, if◌then◌else◌,
}
use momentum_system.Prelude.Int.{pos, sub_ℕ, leb_ℤ}
use momentum_system.Prelude.Dict.{Dict, erase, modify}
use momentum_system.Prelude.Sets.{mem, discard}
use momentum_system.Float.{Float, Real, lit, nought, one, ◌⊖◌, ◌⊗◌, ◌⊘◌, ◌<?◌, ◌≤?◌}
use momentum_system.Trading.Data.{
  ExecutionSettings, Armed, Outside, entry_backout, entry_cancelled, risk_rule, Service,
}
use momentum_system.Trading.Bench.{
  emit, register_backout, release_cap_slot, note_position_exits, symbols_of,
}
use momentum_system.Trading.Breaker.{held_symbols}

module _ ⦃n : Float⦄ where
  -- the symbols the broker holds, or else those of the store's snapshot
  unfoldable pub broker_held : Outside Real → List String
  unfolding held_symbols
  broker_held o = elim o.positions [ none ↦ held_symbols o | some ps ↦ symbols_of ps ]

  unfoldable pub elapsed : Outside Real → Armed Real → Real
  elapsed o a = n.seconds (sub_ℕ o.now a.armed_at)

  unfoldable pub in_grace : Outside Real → ExecutionSettings Real → Armed Real → Bool
  in_grace o cfg a = elapsed o a <? cfg.entry_grace_seconds

  -- (a): the price is back below the entry
  unfoldable pub price_broken : Outside Real → ExecutionSettings Real → Armed Real → Bool
  price_broken o cfg a = (nought ≤? cfg.entry_invalidate_pct) && elim (o.last_price a.symbol) [
    | none ↦ false
    | some last ↦ last <? (a.entry_price ⊗ (one ⊖ cfg.entry_invalidate_pct))
  ]

  -- (b): unfilled for too long
  unfoldable pub timed_out : Outside Real → ExecutionSettings Real → Armed Real → Bool
  timed_out o cfg a =
      not (leb_ℤ cfg.entry_timeout_bars (pos 0))
      && (n.of_int cfg.entry_timeout_bars ≤? (elapsed o a ⊘ lit 60 1))

  -- what a pass does with one armed entry
  pub data Verdict : Type 0 where
    resolved withdrawn kept waiting backed_out : Verdict

  unfoldable pub verdict_of : Outside Real → ExecutionSettings Real → String → Armed Real → Verdict
  unfolding broker_held in_grace price_broken timed_out
  verdict_of o cfg order_id a =
      if mem order_id o.filled_ids
      then resolved
      else if mem order_id o.cancelled_ids
      then withdrawn
      else if mem a.symbol (broker_held o)
      then resolved
      else if in_grace o cfg a
      then kept
      else if price_broken o cfg a || timed_out o cfg a
      then backed_out
      else waiting

  abbrev checked : Armed Real → Armed Real
  checked a = record a { checks = suc a.checks }

  abbrev untrack : String → Service Real → Service Real
  untrack order_id s = record s { armed = erase order_id s.armed }

  abbrev unrequest : String → Service Real → Service Real
  unrequest symbol s = record s { requested_symbols = discard symbol s.requested_symbols }

  unfoldable pub back_out :
      Outside Real → ExecutionSettings Real → String → Armed Real → Service Real → Service Real
  back_out o cfg order_id a s =
      let cancelled = emit (entry_cancelled order_id a.symbol) s in
      let benched = register_backout cfg o.now a.symbol cancelled in
      unrequest a.symbol
        (untrack order_id (release_cap_slot a (emit (risk_rule entry_backout a.symbol) benched)))

  -- one round of the loop
  unfoldable pub expire_entry :
      Outside Real → ExecutionSettings Real → String → Armed Real → Service Real → Service Real
  unfolding verdict_of back_out
  expire_entry o cfg order_id a s = elim (verdict_of o cfg order_id a) [
    | resolved ↦ untrack order_id s
    | withdrawn ↦ unrequest a.symbol (release_cap_slot a (untrack order_id s))
    | kept ↦ s
    | waiting ↦ record s { armed = modify order_id checked s.armed }
    | backed_out ↦ back_out o cfg order_id a s
  ]

  -- the loop, over the entries that are armed when it starts
  unfoldable pub expire_loop :
      Outside Real → ExecutionSettings Real → Dict (Armed Real) → Service Real → Service Real
  expire_loop o cfg [] s = s
  expire_loop o cfg ((order_id, a) ∷ d) s = expire_loop o cfg d (expire_entry o cfg order_id a s)

  unfoldable pub expire_stale_entries :
      Outside Real → ExecutionSettings Real → Service Real → Service Real
  unfolding note_position_exits
  expire_stale_entries o cfg s =
      let noted = note_position_exits o cfg s in expire_loop o cfg noted.armed noted
