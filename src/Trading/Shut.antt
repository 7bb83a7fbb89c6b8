-- ===== src/Trading/Shut.antt =====
-- trading_execution.py: calls on a session that is closed.
use momentum_system.Prelude.{
  ◌≡◌, refl, ◌∙◌, String, Bool, true, false, ◌||◌, inl, inr, List, [], ◌∷◌, All, Bool-cases,
  Option-cases, arith,
}
use momentum_system.Prelude.Dict.{Dict}
use momentum_system.Prelude.Sets.{difference}
use momentum_system.Float.{Float, Real, fabs}
use momentum_system.Trading.Data.{ExecutionSettings, Armed, Position, Outside, Service}
use momentum_system.Trading.Bench.{
  register_backout, release_cap_slot, note_departures, note_returns, note_position_exits,
  symbols_of,
}
use momentum_system.Trading.Breaker.{
  FlattenResult, flatten_all, close_missed, close_session, daily_loss_breach,
}
use momentum_system.Trading.Breakout.{Break, pass, refuse, breach_gate, submit_breakout_now}
use momentum_system.Trading.Expire.{expire_entry, expire_loop, expire_stale_entries, back_out}
use momentum_system.Trading.Approval.{reject_order}
use momentum_system.Trading.Calls.{
  Request, breaks, approves, approves_queued, rejects, expires, checks_loss, closes_session, serve,
  serve_all,
}
use momentum_system.Trading.Orders.{sent, sent-flatten_all}
use momentum_system.Trading.Flags.{session_closed-flatten_all, session_closed-close_missed}

module _ ⦃n : Float⦄ where
  -- The second state has the orders and the flag of the first.
  abbrev AsQuiet : Service Real → Service Real → Type 0
  AsQuiet s t = (sent t ≡ sent s) × (t.session_closed ≡ s.session_closed)

  AsQuiet-trans : (s t u : Service Real) → AsQuiet s t → AsQuiet t u → AsQuiet s u
  AsQuiet-trans s t u a b = (b.0 ∙ a.0, b.1 ∙ a.1)

  note_departures-AsQuiet :
      (thr : Real) (symbols : List String) (s : Service Real)
      → AsQuiet s (note_departures thr symbols s)
  unfolding note_departures sent
  note_departures-AsQuiet thr [] s = (refl, refl)
  note_departures-AsQuiet thr (sym ∷ symbols) s =
      let (e, f) = note_departures-AsQuiet thr symbols _ in (e ∙ ground arith, f ∙ ground arith)

  close_missed-AsQuiet :
      (o : Outside Real) (positions : List (Position Real)) (r : FlattenResult × Service Real)
      → sent (close_missed o positions r).1 ≡ sent r.1
  unfolding close_missed sent
  close_missed-AsQuiet o [] r = refl
  close_missed-AsQuiet o (p ∷ positions) (res, s) =
      close_missed-AsQuiet o positions _ ∙ ground arith

  module _ (o : Outside Real) (cfg : ExecutionSettings Real) where
    note_position_exits-AsQuiet : (s : Service Real) → AsQuiet s (note_position_exits o cfg s)
    unfolding note_position_exits sent
    note_position_exits-AsQuiet s = elim (Option-cases o.positions) [
      | inl q ↦ ground arith
      | inr (ps, q) ↦ ground (
        arith,
        note_departures-AsQuiet (fabs cfg.reentry_min_loss_pct)
            (difference s.prev_held (symbols_of ps))
            (record s { held_ret = note_returns ps s.held_ret }),
      )
    ]

    back_out-AsQuiet :
        (order_id : String) (a : Armed Real) (s : Service Real)
        → AsQuiet s (back_out o cfg order_id a s)
    unfolding back_out release_cap_slot register_backout sent
    back_out-AsQuiet order_id a s = ground arith

    expire_entry-AsQuiet :
        (order_id : String) (a : Armed Real) (s : Service Real)
        → AsQuiet s (expire_entry o cfg order_id a s)
    unfolding expire_entry release_cap_slot sent
    expire_entry-AsQuiet order_id a s = ground (arith, back_out-AsQuiet order_id a s)

    expire_loop-AsQuiet :
        (d : Dict (Armed Real)) (s : Service Real) → AsQuiet s (expire_loop o cfg d s)
    unfolding expire_loop
    expire_loop-AsQuiet [] s = (refl, refl)
    expire_loop-AsQuiet ((order_id, a) ∷ d) s =
        AsQuiet-trans s (expire_entry o cfg order_id a s) _ (expire_entry-AsQuiet order_id a s)
          (expire_loop-AsQuiet d (expire_entry o cfg order_id a s))

    expire_stale_entries-AsQuiet : (s : Service Real) → AsQuiet s (expire_stale_entries o cfg s)
    unfolding expire_stale_entries
    expire_stale_entries-AsQuiet s =
        let noted = note_position_exits o cfg s in
        AsQuiet-trans s noted _ (note_position_exits-AsQuiet s)
          (expire_loop-AsQuiet noted.armed noted)

    reject_order-AsQuiet :
        (order_id : String) (s : Service Real) → AsQuiet s (reject_order o order_id s).1
    unfolding reject_order sent
    reject_order-AsQuiet order_id s = ground arith

    close_session-AsQuiet :
        (s : Service Real) → s.session_closed ≡ true → AsQuiet s (close_session o s).1
    unfolding close_session sent
    close_session-AsQuiet s h =
        let shut : Service Real = record s { session_closed = true } in
        let flat = flatten_all o shut in
        elim (Option-cases o.positions) [
          | inl q ↦
              rw (q, close_session)
                (sent-flatten_all o shut, session_closed-flatten_all o shut ∙ rw h refl)
          | inr (ps, q) ↦
              rw (q, close_session)
                (
                  close_missed-AsQuiet o ps flat ∙ sent-flatten_all o shut,
                  session_closed-close_missed o ps flat
                      ∙ session_closed-flatten_all o shut
                      ∙ rw h refl,
                )
        ]

    -- what a blocked session does to the breaker and to a live break: nothing
    daily_loss_breach-blocked :
        (s : Service Real)
        → (s.halted || s.session_closed) ≡ true
        → daily_loss_breach o cfg s ≡ (true, s)
    unfolding daily_loss_breach
    daily_loss_breach-blocked s h = rw (h, daily_loss_breach) refl

    submit_breakout_now-blocked :
        (b : Break Real) (s : Service Real)
        → (s.halted || s.session_closed) ≡ true
        → (submit_breakout_now o cfg b s).1 ≡ s
    unfolding submit_breakout_now pass refuse breach_gate
    submit_breakout_now-blocked b s h = elim (Bool-cases cfg.enabled) [
      | inl e ↦ ground (arith, daily_loss_breach-blocked s h)
      | inr e ↦ ground arith
    ]

  abbrev pub is_approval : Request Real → Bool
  is_approval (approves auto order_id) = true
  is_approval approves_queued = true
  is_approval _ = false

  serve-AsQuiet :
      (cfg : ExecutionSettings Real) (r : Request Real) (o : Outside Real) (s : Service Real)
      → is_approval r ≡ false
      → s.session_closed ≡ true
      → AsQuiet s (serve cfg r o s)
  unfolding serve
  serve-AsQuiet cfg (breaks b) o s k h =
      rw (submit_breakout_now-blocked o cfg b s (ground arith)) (refl, refl)
  serve-AsQuiet cfg (approves auto order_id) o s k h = cc
  serve-AsQuiet cfg approves_queued o s k h = cc
  serve-AsQuiet cfg (rejects order_id) o s k h = reject_order-AsQuiet o cfg order_id s
  serve-AsQuiet cfg expires o s k h = expire_stale_entries-AsQuiet o cfg s
  serve-AsQuiet cfg checks_loss o s k h =
      rw (serve, daily_loss_breach-blocked o cfg s (ground arith)) (refl, refl)
  serve-AsQuiet cfg closes_session o s k h = close_session-AsQuiet o cfg s h

  -- Once the session is closed, no sequence of live breaks, rejections, expiries of entries, checks of
  -- the daily loss and further closings sends an order, and the session stays closed.
  pub serve_all-closed :
      (cfg : ExecutionSettings Real) (calls : List (Request Real × Outside Real)) (s : Service Real)
      → All (λ c. is_approval c.0 ≡ false) calls
      → s.session_closed ≡ true
      → (sent (serve_all cfg calls s) ≡ sent s) × ((serve_all cfg calls s).session_closed ≡ true)
  unfolding serve_all
  serve_all-closed cfg [] s k h = (refl, h)
  serve_all-closed cfg ((r, o) ∷ rest) s k h =
      let (e, f) = serve-AsQuiet cfg r o s k.0 h in
      let (g, closed) = serve_all-closed cfg rest (serve cfg r o s) k.1 (f ∙ h) in (g ∙ e, closed)
