-- ===== src/Trading/Approval.antt =====
-- trading_execution.py: the approval, the rejection and the execution of pending orders.
use momentum_system.Prelude.{
  String, str_eq, Bool, true, ◌&&◌, Option, none, some, List, [], ◌∷◌, if◌then◌else◌,
}
use momentum_system.Prelude.Sets.{discard}
use momentum_system.Float.{Float, Real}
use momentum_system.Trading.Data.{
  ExecutionSettings, ExecutionRequest, ExecutionResult, Pending, Outside, order_approved,
  order_rejected, executed, Service,
}
use momentum_system.Trading.Bench.{emit, roll_day, at_daily_cap, is_capped, arm_entry, count_entry}

pub data Approval : Type 0 where
  not_pending : Approval
  rejected : Approval
  done : ExecutionResult → Approval

module _ ⦃n : Float⦄ where
  unfoldable pub find_pending : String → List (Pending Real) → Option (Pending Real)
  find_pending order_id [] = none
  find_pending order_id (p ∷ queue) =
      if str_eq p.request.order_id order_id then some p else find_pending order_id queue

  abbrev reject : ExecutionRequest Real → Service Real → Service Real
  reject request s =
      emit (order_rejected request.order_id)
        (record s { requested_symbols = discard request.symbol s.requested_symbols })

  unfoldable pub reject_order : Outside Real → String → Service Real → Approval × Service Real
  unfolding find_pending
  reject_order o order_id s = elim (find_pending order_id o.queue) [
    | none ↦ (not_pending, s)
    | some p ↦ (rejected, reject p.request s)
  ]

  -- the part of `approve_order` from the approval on; only an automatic one counts
  unfoldable pub execute_approved :
      Outside Real
      → ExecutionSettings Real
      → Bool
      → ExecutionRequest Real
      → Service Real
      → Service Real
  execute_approved o cfg auto request s =
      let result = o.executes request in
      let armed =
        arm_entry o.now request result
          (emit (executed request) (emit (order_approved request.order_id) s)) in
      if auto then count_entry cfg request.order_id result armed else armed

  unfoldable pub approve_order :
      Outside Real → ExecutionSettings Real → Bool → String → Service Real → Approval × Service Real
  unfolding find_pending
  approve_order o cfg auto order_id s = elim (find_pending order_id o.queue) [
    | none ↦ (not_pending, s)
    | some p ↦
        let rolled = roll_day o.now s in
        let result = o.executes p.request in
        if auto && is_capped cfg
        then (if at_daily_cap cfg rolled
            then (rejected, reject p.request rolled)
            else (done result, execute_approved o cfg auto p.request rolled))
        else (done result, execute_approved o cfg auto p.request s)
  ]

  -- `process_auto_approvals`, over the queue as it stands when it starts
  unfoldable pub approve_queued :
      Outside Real → ExecutionSettings Real → List (Pending Real) → Service Real → Service Real
  approve_queued o cfg [] s = s
  approve_queued o cfg (p ∷ queue) s =
      approve_queued o cfg queue
        (if p.auto_mode then (approve_order o cfg true p.request.order_id s).1 else s)

  unfoldable pub process_auto_approvals :
      Outside Real → ExecutionSettings Real → Service Real → Service Real
  unfolding approve_queued
  process_auto_approvals o cfg s = approve_queued o cfg o.queue s
