-- ===== src/Trading/Stale.antt =====
-- trading_execution.py: which entries `expire_stale_entries` cancels.
use momentum_system.Prelude.{
  ◌≡◌, refl, ◌∙◌, String, Bool, not, ◌&&◌, ◌||◌, inl, inr, List, [], ◌∷◌, filter, if◌then◌else◌,
  Bool-cases, Option-cases, arith,
}
use momentum_system.Prelude.Dict.{Dict}
use momentum_system.Prelude.Sets.{mem, difference}
use momentum_system.Float.{Float, Real, fabs}
use momentum_system.Trading.Data.{
  ExecutionSettings, Armed, Outside, Effect, entry_cancelled, Service,
}
use momentum_system.Trading.Bench.{
  register_backout, release_cap_slot, note_departures, note_returns, note_position_exits,
  symbols_of,
}
use momentum_system.Trading.Expire.{
  broker_held, in_grace, price_broken, timed_out, verdict_of, back_out, expire_entry, expire_loop,
  expire_stale_entries,
}

module _ ⦃n : Float⦄ where
  abbrev cancels : List (Effect Real) → List (String × String)
  cancels [] = []
  cancels (entry_cancelled order_id symbol ∷ effects) = (order_id, symbol) ∷ cancels effects
  cancels (_ ∷ effects) = cancels effects

  -- the orders that the service has cancelled, with their symbols, the latest first
  unfoldable pub cancelled : Service Real → List (String × String)
  cancelled s = cancels s.effects

  abbrev pub recorded : Dict (Armed Real) → List (String × String) → List (String × String)
  recorded [] l = l
  recorded ((order_id, a) ∷ d) l = recorded d ((order_id, a.symbol) ∷ l)

  module _ (o : Outside Real) (cfg : ExecutionSettings Real) where
    -- An entry to give up: not known as filled or cancelled, its symbol not held at the broker, past
    -- the grace, and either broken or timed out.
    unfoldable pub is_stale : String × Armed Real → Bool
    is_stale (order_id, a) =
        not (mem order_id o.filled_ids)
        && not (mem order_id o.cancelled_ids)
        && not (mem a.symbol (broker_held o))
        && not (in_grace o cfg a)
        && (price_broken o cfg a || timed_out o cfg a)

    cancelled-back_out :
        (order_id : String) (a : Armed Real) (s : Service Real)
        → cancelled (back_out o cfg order_id a s) ≡ (order_id, a.symbol) ∷ cancelled s
    unfolding back_out release_cap_slot register_backout cancelled
    cancelled-back_out order_id a s = ground arith

    cancelled-expire_entry :
        (order_id : String) (a : Armed Real) (s : Service Real)
        → cancelled (expire_entry o cfg order_id a s)
          ≡ (if is_stale (order_id, a) then (order_id, a.symbol) ∷ cancelled s else cancelled s)
    unfolding expire_entry is_stale release_cap_slot cancelled verdict_of
    cancelled-expire_entry order_id a s = ground (arith, cancelled-back_out order_id a s)

    cancelled-expire_loop :
        (d : Dict (Armed Real)) (s : Service Real)
        → cancelled (expire_loop o cfg d s) ≡ recorded (filter is_stale d) (cancelled s)
    unfolding expire_loop
    cancelled-expire_loop [] s = refl
    cancelled-expire_loop ((order_id, a) ∷ d) s = elim (Bool-cases (is_stale (order_id, a))) [
      | inl e ↦
          cancelled-expire_loop d (expire_entry o cfg order_id a s)
          ∙ rw (cancelled-expire_entry order_id a s, e) refl
      | inr e ↦
          cancelled-expire_loop d (expire_entry o cfg order_id a s)
          ∙ rw (cancelled-expire_entry order_id a s, e) refl
    ]

  note_departures-quiet :
      (thr : Real) (symbols : List String) (s : Service Real)
      → ((note_departures thr symbols s).armed ≡ s.armed)
        × (cancelled (note_departures thr symbols s) ≡ cancelled s)
  unfolding note_departures cancelled
  note_departures-quiet thr [] s = (refl, refl)
  note_departures-quiet thr (sym ∷ symbols) s =
      let (e, f) = note_departures-quiet thr symbols _ in (e ∙ ground arith, f ∙ ground arith)

  module _ (o : Outside Real) (cfg : ExecutionSettings Real) where
    note_position_exits-quiet :
        (s : Service Real)
        → ((note_position_exits o cfg s).armed ≡ s.armed)
          × (cancelled (note_position_exits o cfg s) ≡ cancelled s)
    unfolding note_position_exits cancelled
    note_position_exits-quiet s = elim (Option-cases o.positions) [
      | inl q ↦ ground arith
      | inr (ps, q) ↦ ground (
        arith,
        note_departures-quiet (fabs cfg.reentry_min_loss_pct)
            (difference s.prev_held (symbols_of ps))
            (record s { held_ret = note_returns ps s.held_ret }),
      )
    ]

    -- A pass cancels exactly the armed entries that are stale, in their order: not known as filled
    -- or cancelled, the symbol not held at the broker (by its own list, or else by the last
    -- snapshot), past the grace, and with the price broken or the time box over.
    pub expire_stale_entries-cancels :
        (s : Service Real)
        → cancelled (expire_stale_entries o cfg s)
          ≡ recorded (filter (is_stale o cfg) s.armed) (cancelled s)
    unfolding expire_stale_entries
    expire_stale_entries-cancels s =
        let noted = note_position_exits o cfg s in
        let (e, f) = note_position_exits-quiet s in
        cancelled-expire_loop o cfg noted.armed noted ∙ rw (e, f) refl
