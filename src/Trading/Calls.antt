-- ===== src/Trading/Calls.antt =====
-- trading_execution.py: sequences of calls of the service; each call sees answers of its own from the
-- outside. The lock serializes the calls that take it; `expire_stale_entries` takes none, and is
-- a step of its own here. The pass over the ready signals is not among them.
use momentum_system.Prelude.{String, Bool, List, [], ◌∷◌}
use momentum_system.Float.{Float, Real}
use momentum_system.Trading.Data.{ExecutionSettings, Outside, Service}
use momentum_system.Trading.Breaker.{daily_loss_breach, close_session}
use momentum_system.Trading.Breakout.{Break, submit_breakout_now}
use momentum_system.Trading.Expire.{expire_stale_entries}
use momentum_system.Trading.Approval.{reject_order, approve_order, process_auto_approvals}

pub data Request (R : Type 0) : Type 0 where
  breaks : Break R → Request R
  approves : Bool → String → Request R
  approves_queued : Request R
  rejects : String → Request R
  expires : Request R
  checks_loss : Request R
  closes_session : Request R

module _ ⦃n : Float⦄ where
  unfoldable pub serve :
      ExecutionSettings Real → Request Real → Outside Real → Service Real → Service Real
  serve cfg (breaks b) o s = (submit_breakout_now o cfg b s).1
  serve cfg (approves auto order_id) o s = (approve_order o cfg auto order_id s).1
  serve cfg approves_queued o s = process_auto_approvals o cfg s
  serve cfg (rejects order_id) o s = (reject_order o order_id s).1
  serve cfg expires o s = expire_stale_entries o cfg s
  serve cfg checks_loss o s = (daily_loss_breach o cfg s).1
  serve cfg closes_session o s = (close_session o s).1

  unfoldable pub serve_all :
      ExecutionSettings Real → List (Request Real × Outside Real) → Service Real → Service Real
  serve_all cfg [] s = s
  serve_all cfg ((r, o) ∷ rest) s = serve_all cfg rest (serve cfg r o s)
