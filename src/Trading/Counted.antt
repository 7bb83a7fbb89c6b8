-- ===== src/Trading/Counted.antt =====
-- trading_execution.py: the calls of Calls and the day's count of fresh entries.
use momentum_system.Prelude.{
  ◌≡◌, refl, ◌∙◌, String, Bool, true, inl, inr, List, [], ◌∷◌, Bool-cases, Option-cases, arith,
}
use momentum_system.Prelude.Dict.{Dict}
use momentum_system.Prelude.Sets.{difference}
use momentum_system.Float.{Float, Real, fabs}
use momentum_system.Trading.Data.{
  ExecutionSettings, Armed, ExecutionRequest, Pending, Position, Outside, Service,
}
use momentum_system.Trading.Bench.{
  roll_day, at_daily_cap, is_capped, arm_entry, count_entry, register_backout, release_cap_slot,
  note_departures, note_returns, note_position_exits, symbols_of,
}
use momentum_system.Trading.Breaker.{FlattenResult, flatten_all, close_missed, close_session}
use momentum_system.Trading.Breakout.{
  Break, gates, pass, breakout_request, send, submit_breakout_now,
}
use momentum_system.Trading.Expire.{expire_entry, expire_loop, expire_stale_entries, back_out}
use momentum_system.Trading.Approval.{
  execute_approved, reject_order, approve_order, approve_queued, process_auto_approvals,
}
use momentum_system.Trading.Calls.{
  Request, breaks, approves, approves_queued, rejects, expires, checks_loss, closes_session, serve,
}
use momentum_system.Trading.Cap.{
  InCap, HasRoom, fresh_n-flatten_all, fresh_n-daily_loss_breach, pass-Keeps, gates-InCap,
  gates-HasRoom,
}

module _ ⦃n : Float⦄ where
  fresh_n-note_departures :
      (thr : Real) (symbols : List String) (s : Service Real)
      → (note_departures thr symbols s).fresh_n ≡ s.fresh_n
  unfolding note_departures
  fresh_n-note_departures thr [] s = refl
  fresh_n-note_departures thr (sym ∷ symbols) s =
      fresh_n-note_departures thr symbols _ ∙ ground arith

  fresh_n-close_missed :
      (o : Outside Real) (positions : List (Position Real)) (r : FlattenResult × Service Real)
      → (close_missed o positions r).1.fresh_n ≡ r.1.fresh_n
  unfolding close_missed
  fresh_n-close_missed o [] r = refl
  fresh_n-close_missed o (p ∷ positions) (res, s) =
      fresh_n-close_missed o positions _ ∙ ground arith

  fresh_n-close_session :
      (o : Outside Real) (s : Service Real) → (close_session o s).1.fresh_n ≡ s.fresh_n
  unfolding close_session
  fresh_n-close_session o s =
      let flat = flatten_all o (record s { session_closed = true }) in
      let e = fresh_n-flatten_all o (record s { session_closed = true }) in
      elim (Option-cases o.positions) [
        | inl q ↦ rw (q, close_session) e
        | inr (ps, q) ↦ rw (q, close_session) (fresh_n-close_missed o ps flat ∙ e)
      ]

  module _ (o : Outside Real) (cfg : ExecutionSettings Real) where
    fresh_n-note_position_exits :
        (s : Service Real) → (note_position_exits o cfg s).fresh_n ≡ s.fresh_n
    unfolding note_position_exits
    fresh_n-note_position_exits s = elim (Option-cases o.positions) [
      | inl q ↦ ground arith
      | inr (ps, q) ↦ ground (
        arith,
        fresh_n-note_departures (fabs cfg.reentry_min_loss_pct)
            (difference s.prev_held (symbols_of ps))
            (record s { held_ret = note_returns ps s.held_ret }),
      )
    ]

    send-InCap :
        (request : ExecutionRequest Real) (s : Service Real)
        → HasRoom cfg s.fresh_n
        → InCap cfg (send o cfg request s)
    unfolding send count_entry arm_entry is_capped
    send-InCap request s h = ground arith

    submit_breakout_now-InCap :
        (b : Break Real) (s : Service Real)
        → InCap cfg s
        → InCap cfg (submit_breakout_now o cfg b s).1
    unfolding submit_breakout_now
    submit_breakout_now-InCap b s h =
        let after = (pass (gates o cfg b) s).1 in
        elim (Option-cases (pass (gates o cfg b) s).0) [
          | inl e ↦
              rw (e, submit_breakout_now)
                (send-InCap (breakout_request o cfg b after.equity) after
                  (gates-HasRoom o cfg b s e))
          | inr (skip, e) ↦
              rw (e, submit_breakout_now)
                (pass-Keeps o cfg (InCap cfg) (gates o cfg b) (gates-InCap o cfg b) s h)
        ]

    release_cap_slot-InCap :
        (a : Armed Real) (s : Service Real) → InCap cfg s → InCap cfg (release_cap_slot a s)
    unfolding release_cap_slot
    release_cap_slot-InCap a s h = ground arith

    expire_entry-InCap :
        (order_id : String) (a : Armed Real) (s : Service Real)
        → InCap cfg s
        → InCap cfg (expire_entry o cfg order_id a s)
    unfolding expire_entry back_out release_cap_slot register_backout
    expire_entry-InCap order_id a s h = ground arith

    expire_loop-InCap :
        (d : Dict (Armed Real)) (s : Service Real) → InCap cfg s → InCap cfg (expire_loop o cfg d s)
    unfolding expire_loop
    expire_loop-InCap [] s h = h
    expire_loop-InCap ((order_id, a) ∷ d) s h =
        expire_loop-InCap d (expire_entry o cfg order_id a s) (expire_entry-InCap order_id a s h)

    expire_stale_entries-InCap :
        (s : Service Real) → InCap cfg s → InCap cfg (expire_stale_entries o cfg s)
    unfolding expire_stale_entries
    expire_stale_entries-InCap s h =
        let noted = note_position_exits o cfg s in
        expire_loop-InCap noted.armed noted (rw (fresh_n-note_position_exits s) h)

    approve_order-InCap :
        (auto : Bool) (order_id : String) (s : Service Real)
        → InCap cfg s
        → InCap cfg (approve_order o cfg auto order_id s).1
    unfolding approve_order execute_approved count_entry arm_entry is_capped at_daily_cap roll_day
    approve_order-InCap auto order_id s h = ground arith

    approve_queued-InCap :
        (queue : List (Pending Real)) (s : Service Real)
        → InCap cfg s
        → InCap cfg (approve_queued o cfg queue s)
    unfolding approve_queued
    approve_queued-InCap [] s h = h
    approve_queued-InCap (p ∷ queue) s h = elim (Bool-cases p.auto_mode) [
      | inl e ↦
          rw (e, approve_queued)
            (approve_queued-InCap queue (approve_order o cfg true p.request.order_id s).1
              (approve_order-InCap true p.request.order_id s h))
      | inr e ↦ rw (e, approve_queued) (approve_queued-InCap queue s h)
    ]

    fresh_n-reject_order :
        (order_id : String) (s : Service Real) → (reject_order o order_id s).1.fresh_n ≡ s.fresh_n
    unfolding reject_order
    fresh_n-reject_order order_id s = ground arith

  -- A live break, an approval, a rejection, a pass over the queue, an expiry of entries, a check of the
  -- daily loss and the end of the session each keep the count of the day's fresh entries within the
  -- cap, where there is one.
  pub serve-InCap :
      (cfg : ExecutionSettings Real) (r : Request Real) (o : Outside Real) (s : Service Real)
      → InCap cfg s
      → InCap cfg (serve cfg r o s)
  unfolding serve process_auto_approvals
  serve-InCap cfg (breaks b) o s h = submit_breakout_now-InCap o cfg b s h
  serve-InCap cfg (approves auto order_id) o s h = approve_order-InCap o cfg auto order_id s h
  serve-InCap cfg approves_queued o s h = approve_queued-InCap o cfg o.queue s h
  serve-InCap cfg (rejects order_id) o s h = rw (fresh_n-reject_order o cfg order_id s) h
  serve-InCap cfg expires o s h = expire_stale_entries-InCap o cfg s h
  serve-InCap cfg checks_loss o s h = rw (fresh_n-daily_loss_breach o cfg s) h
  serve-InCap cfg closes_session o s h = rw (fresh_n-close_session o s) h
