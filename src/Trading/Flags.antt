-- ===== src/Trading/Flags.antt =====
-- trading_execution.py: the flag of a closed session under a flattening.
use momentum_system.Prelude.{◌≡◌, refl, ◌∙◌, List, [], ◌∷◌, arith}
use momentum_system.Float.{Float, Real}
use momentum_system.Trading.Data.{Position, Outside, Service}
use momentum_system.Trading.Breaker.{FlattenResult, flatten_all, close_missed}
use momentum_system.Trading.Views.{IsBlind, view-flatten_all}

module _ ⦃n : Float⦄ where
  session_closed-IsBlind : IsBlind (λ (s : Service Real). s.session_closed)
  session_closed-IsBlind = record {
    cancels = λ order_id symbol d requested s. refl;
    closes = λ symbol s. refl;
    reports = λ r symbol s. refl;
    halts = λ s. refl;
    pauses = λ b k s. refl;
  }

  pub session_closed-flatten_all :
      (o : Outside Real) (s : Service Real) → (flatten_all o s).1.session_closed ≡ s.session_closed
  session_closed-flatten_all = view-flatten_all (λ s. s.session_closed) session_closed-IsBlind

  pub session_closed-close_missed :
      (o : Outside Real) (positions : List (Position Real)) (r : FlattenResult × Service Real)
      → (close_missed o positions r).1.session_closed ≡ r.1.session_closed
  unfolding close_missed
  session_closed-close_missed o [] r = refl
  session_closed-close_missed o (p ∷ positions) (res, s) =
      session_closed-close_missed o positions _ ∙ ground arith
