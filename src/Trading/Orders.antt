-- ===== src/Trading/Orders.antt =====
-- trading_execution.py: the orders that the operations of the service send to the broker.
use momentum_system.Prelude.{
  ℕ, ◌≡◌, refl, ◌∙◌, String, Option-cases, inl, inr, List, [], ◌∷◌, All, Bool-cases, arith,
}
use momentum_system.Float.{Float, Real}
use momentum_system.Trading.Data.{
  ExecutionSettings, ExecutionRequest, Outside, Effect, executed, Service,
}
use momentum_system.Trading.Bench.{in_cooldown, roll_day, arm_entry, count_entry, is_capped}
use momentum_system.Trading.Breaker.{flatten_all, daily_loss_breach}
use momentum_system.Trading.Breakout.{
  Break, Gate, gates, pass, refuse, breach_gate, cap_gate, active_gate, cooldown_gate, reentry_gate,
  dilution_gate, gross_gate, size_gate, current_equity, send,
}
use momentum_system.Trading.Views.{IsBlind, view-flatten_all, view-daily_loss_breach}

module _ ⦃n : Float⦄ where
  abbrev requests : List (Effect Real) → List (ExecutionRequest Real)
  requests [] = []
  requests (executed request ∷ effects) = request ∷ requests effects
  requests (_ ∷ effects) = requests effects

  -- the orders that the service has sent, the latest first
  unfoldable pub sent : Service Real → List (ExecutionRequest Real)
  sent s = requests s.effects

  sent-IsBlind : IsBlind sent
  unfolding sent
  sent-IsBlind = record {
    cancels = λ order_id symbol d requested s. refl;
    closes = λ symbol s. refl;
    reports = λ r symbol s. refl;
    halts = λ s. refl;
    pauses = λ b k s. refl;
  }

  pub sent-flatten_all : (o : Outside Real) (s : Service Real) → sent (flatten_all o s).1 ≡ sent s
  sent-flatten_all = view-flatten_all sent sent-IsBlind

  module _ (o : Outside Real) (cfg : ExecutionSettings Real) where
    sent-daily_loss_breach : (s : Service Real) → sent (daily_loss_breach o cfg s).1 ≡ sent s
    sent-daily_loss_breach = view-daily_loss_breach sent sent-IsBlind o cfg

    -- a gate that sends no order
    abbrev IsSilent : Gate → Type 0
    IsSilent g = (s : Service Real) → sent (g s).1 ≡ sent s

    roll_day-IsSilent : (now : ℕ) (s : Service Real) → sent (roll_day now s) ≡ sent s
    unfolding roll_day sent
    roll_day-IsSilent now s = ground arith

    cap_gate-IsSilent : IsSilent (cap_gate o cfg)
    unfolding cap_gate
    cap_gate-IsSilent s = elim (Bool-cases (is_capped cfg)) [
      | inl e ↦ rw (e, cap_gate) (roll_day-IsSilent o.now s)
      | inr e ↦ rw (e, cap_gate) refl
    ]

    cooldown_gate-IsSilent : (symbol : String) → IsSilent (cooldown_gate o symbol)
    unfolding cooldown_gate in_cooldown sent
    cooldown_gate-IsSilent symbol s = ground arith

    dilution_gate-IsSilent : (symbol : String) → IsSilent (dilution_gate o cfg symbol)
    unfolding dilution_gate sent
    dilution_gate-IsSilent symbol s = ground arith

    gross_gate-IsSilent : IsSilent (gross_gate o cfg)
    unfolding gross_gate refuse current_equity sent
    gross_gate-IsSilent s = ground arith

    pub gates-IsSilent : (b : Break Real) → All IsSilent (gates o cfg b)
    unfolding refuse breach_gate active_gate reentry_gate size_gate
    gates-IsSilent b = (
      (λ s. refl),
      (
        sent-daily_loss_breach,
        (
          (λ s. refl),
          (
            (λ s. refl),
            (
              (λ s. refl),
              (
                cap_gate-IsSilent,
                (
                  (λ s. refl),
                  (
                    cooldown_gate-IsSilent b.symbol,
                    (
                      (λ s. refl),
                      (
                        dilution_gate-IsSilent b.symbol,
                        (
                          (λ s. refl),
                          ((λ s. refl), ((λ s. refl), (gross_gate-IsSilent, ((λ s. refl), tt)))),
                        ),
                      ),
                    ),
                  ),
                ),
              ),
            ),
          ),
        ),
      ),
    )

    pub pass-IsSilent : (gs : List Gate) → All IsSilent gs → IsSilent (pass gs)
    unfolding pass
    pass-IsSilent [] h s = refl
    pass-IsSilent (g ∷ gs) h s = elim (Option-cases (g s).0) [
      | inl e ↦ rw (e, pass) (pass-IsSilent gs h.1 (g s).1 ∙ h.0 s)
      | inr (skip, e) ↦ rw (e, pass) (h.0 s)
    ]

    -- `send` sends the one order.
    pub sent-send :
        (request : ExecutionRequest Real) (s : Service Real)
        → sent (send o cfg request s) ≡ request ∷ sent s
    unfolding send arm_entry count_entry sent
    sent-send request s = ground arith
