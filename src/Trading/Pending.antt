-- ===== src/Trading/Pending.antt =====
-- trading_execution.py: `approve_order` on an order that is pending.
use momentum_system.Prelude.{
  ℕ, Bool-cases, ap, ◌≡◌, ◌∙◌, String, Bool, ◌&&◌, inl, inr, some, ◌∷◌, if◌then◌else◌, arith,
}
use momentum_system.Float.{Float, Real}
use momentum_system.Trading.Data.{ExecutionSettings, ExecutionRequest, Outside, Service}
use momentum_system.Trading.Bench.{roll_day, at_daily_cap, is_capped, arm_entry, count_entry}
use momentum_system.Trading.Approval.{find_pending, execute_approved, approve_order}
use momentum_system.Trading.Data.{Pending}
use momentum_system.Trading.Orders.{sent}

module _ ⦃n : Float⦄ where
  sent-execute_approved :
      (o : Outside Real) (cfg : ExecutionSettings Real) (auto : Bool)
      (request : ExecutionRequest Real) (s : Service Real)
      → sent (execute_approved o cfg auto request s) ≡ request ∷ sent s
  unfolding execute_approved count_entry arm_entry sent
  sent-execute_approved o cfg auto request s = ground arith

  sent-roll_day : (now : ℕ) (s : Service Real) → sent (roll_day now s) ≡ sent s
  unfolding roll_day sent
  sent-roll_day now s = ground arith

  -- An approval of an order that is pending sends its request, whether or not the session is halted
  -- or closed; only an automatic one that finds the day's cap used up sends nothing.
  pub approve_order-sends :
      (o : Outside Real) (cfg : ExecutionSettings Real) (auto : Bool) (order_id : String)
      (p : Pending Real) (s : Service Real)
      → find_pending order_id o.queue ≡ some p
      → sent (approve_order o cfg auto order_id s).1 ≡ (
          if (auto && is_capped cfg) && at_daily_cap cfg (roll_day o.now s)
          then sent s
          else p.request ∷ sent s)
  unfolding approve_order sent
  approve_order-sends o cfg auto order_id p s found =
      let rolled = roll_day o.now s in
      elim (Bool-cases (auto && is_capped cfg)) [
        | inl e ↦ elim (Bool-cases (at_daily_cap cfg rolled)) [
          | inl f ↦ rw (found, e, f, approve_order) (sent-roll_day o.now s)
          | inr f ↦
              rw (found, e, f, approve_order)
                (sent-execute_approved o cfg auto p.request rolled
                  ∙ ap (λ l. p.request ∷ l) (sent-roll_day o.now s))
        ]
        | inr e ↦ rw (found, e, approve_order) (sent-execute_approved o cfg auto p.request s)
      ]
