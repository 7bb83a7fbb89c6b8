-- ===== src/Trading/Asked.antt =====
-- trading_execution.py: the approvals that `request_approvals_for_ready_signals` asks for.
use momentum_system.Prelude.{
  ℕ, suc, ◌-◌, ◌≤◌, ◌≡◌, refl, ◌∙◌, ap, sym, length-append, All-append, String, Bool, not, true,
  false, inl, inr, none, List, [], ◌∷◌, ◌++◌, length, map, All, if◌then◌else◌, Bool-cases,
  Option-cases, arith,
}
use momentum_system.Prelude.Int.{pos, pos_part, leb_ℤ, ◌≤ℤ◌}
use momentum_system.Prelude.Sets.{mem}
use momentum_system.Float.{Float, Real}
use momentum_system.Trading.Data.{
  ExecutionSettings, ExecutionRequest, Signal, Outside, Effect, approval_requested, risk_rule,
  max_concurrent, Rule, Service,
}
use momentum_system.Trading.Bench.{emit, in_cooldown}
use momentum_system.Trading.Breaker.{held_symbols, daily_loss_breach, open_position_count}
use momentum_system.Trading.Breakout.{
  Skip, Gate, pass, refuse, active_gate, cooldown_gate, reentry_gate, current_equity,
}
use momentum_system.Trading.Signals.{
  drop_gate, vwap_gate, chase_gate, signal_size, signal_size_gate, signal_gates, signal_request,
  ask, request_approvals_for_ready_signals, signal_loop,
}
use momentum_system.Trading.Cleared.{pass-next}
use mathlib.Core.List.{append_assoc}
use momentum_system.Trading.Views.{IsBlind, view-daily_loss_breach}

module _ ⦃n : Float⦄ where
  abbrev asks : List (Effect Real) → List (ExecutionRequest Real)
  asks [] = []
  asks (approval_requested request ∷ effects) = request ∷ asks effects
  asks (_ ∷ effects) = asks effects

  -- the requests that the service has asked to approve, the latest first
  unfoldable pub asked : Service Real → List (ExecutionRequest Real)
  asked s = asks s.effects

  asked-IsBlind : IsBlind asked
  unfolding asked
  asked-IsBlind = record {
    cancels = λ order_id symbol d requested s. refl;
    closes = λ symbol s. refl;
    reports = λ r symbol s. refl;
    halts = λ s. refl;
    pauses = λ b k s. refl;
  }

  reported : (r : Rule) (s : Service Real) → asked (emit (risk_rule r "") s) ≡ asked s
  unfolding asked
  reported r s = refl

  -- a gate that asks for nothing
  abbrev IsMute : Gate → Type 0
  IsMute g = (s : Service Real) → asked (g s).1 ≡ asked s

  pass-IsMute : (gs : List Gate) → All IsMute gs → IsMute (pass gs)
  unfolding pass
  pass-IsMute [] h s = refl
  pass-IsMute (g ∷ gs) h s = elim (Option-cases (g s).0) [
    | inl e ↦ rw (e, pass) (pass-IsMute gs h.1 (g s).1 ∙ h.0 s)
    | inr (skip, e) ↦ rw (e, pass) (h.0 s)
  ]

  drop_gate-IsMute :
      (test : Bool) (skip : Skip) (rule : Rule) (symbol : String)
      → IsMute (drop_gate test skip rule symbol)
  unfolding drop_gate asked
  drop_gate-IsMute true skip rule symbol s = refl
  drop_gate-IsMute false skip rule symbol s = refl

  module _ (o : Outside Real) (cfg : ExecutionSettings Real) where
    cooldown_gate-IsMute : (symbol : String) → IsMute (cooldown_gate o symbol)
    unfolding cooldown_gate in_cooldown asked
    cooldown_gate-IsMute symbol s = ground arith

    vwap_gate-IsMute : (sig : Signal Real) → IsMute (vwap_gate cfg sig)
    unfolding vwap_gate asked
    vwap_gate-IsMute sig s = ground arith

    chase_gate-IsMute : (sig : Signal Real) → IsMute (chase_gate cfg sig)
    unfolding chase_gate asked
    chase_gate-IsMute sig s = ground arith

    signal_size_gate-IsMute : (sig : Signal Real) → IsMute (signal_size_gate o cfg sig)
    unfolding signal_size_gate current_equity asked
    signal_size_gate-IsMute sig s = ground arith

    -- What a request has to satisfy: a positive quantity, and a
    -- symbol that is neither held nor queued.
    abbrev pub IsSound : ExecutionRequest Real → Type 0
    IsSound r =
        (pos 1 ≤ℤ r.quantity)
        × (mem r.symbol (held_symbols o) ≡ false)
        × (mem r.symbol (map (λ p. p.request.symbol) o.queue) ≡ false)

    module _ (sig : Signal Real) where
      signal_gates-IsMute : All IsMute (signal_gates o cfg sig)
      unfolding refuse active_gate reentry_gate
      signal_gates-IsMute = (
        (λ s. refl),
        (
          cooldown_gate-IsMute sig.symbol,
          (
            (λ s. refl),
            (
              drop_gate-IsMute _ _ _ _,
              (
                (λ s. refl),
                (
                  drop_gate-IsMute _ _ _ _,
                  (
                    vwap_gate-IsMute sig,
                    (
                      drop_gate-IsMute _ _ _ _,
                      (chase_gate-IsMute sig, (signal_size_gate-IsMute sig, tt)),
                    ),
                  ),
                ),
              ),
            ),
          ),
        ),
      )

      size_gate-open :
          (s : Service Real)
          → (signal_size_gate o cfg sig s).0 ≡ none
          → pos 1
            ≤ℤ (signal_size o cfg sig
                (pass [] (signal_size_gate o cfg sig s).1).1.equity).position_size
      unfolding signal_size_gate pass
      size_gate-open s h = ground arith

      signal_gates-IsSound :
          (s : Service Real)
          → (pass (signal_gates o cfg sig) s).0 ≡ none
          → IsSound (signal_request o cfg sig (pass (signal_gates o cfg sig) s).1.equity)
      unfolding refuse active_gate reentry_gate signal_request
      signal_gates-IsSound s h₀ =
          let (g₁, e₁) = pass-next _ _ s h₀ in
          let h₁ = rw e₁ at h₀ in
          let (g₂, e₂) = pass-next _ _ s h₁ in
          let s₂ = (cooldown_gate o sig.symbol s).1 in
          let h₂ = rw e₂ at h₁ in
          let (g₃, e₃) = pass-next _ _ s₂ h₂ in
          let h₃ = rw e₃ at h₂ in
          let (g₄, e₄) = pass-next _ _ s₂ h₃ in
          let h₄ = rw e₄ at h₃ in
          let (g₅, e₅) = pass-next _ _ _ h₄ in
          let h₅ = rw e₅ at h₄ in
          let (g₆, e₆) = pass-next _ _ _ h₅ in
          let h₆ = rw e₆ at h₅ in
          let (g₇, e₇) = pass-next _ _ _ h₆ in
          let h₇ = rw e₇ at h₆ in
          let (g₈, e₈) = pass-next _ _ _ h₇ in
          let h₈ = rw e₈ at h₇ in
          let (g₉, e₉) = pass-next _ _ _ h₈ in
          let h₉ = rw e₉ at h₈ in
          let (g₁₀, e₁₀) = pass-next _ _ _ h₉ in
          (
            rw (e₁, e₂, e₃, e₄, e₅, e₆, e₇, e₈, e₉, e₁₀) (size_gate-open _ g₁₀),
            ground arith,
            ground arith,
          )

    asked-ask :
        (request : ExecutionRequest Real) (s : Service Real)
        → asked (ask request s) ≡ request ∷ asked s
    unfolding ask asked
    asked-ask request s = refl

    -- At most `bound` new requests, each of them sound.
    abbrev pub Asks : ℕ → List (ExecutionRequest Real) → List (ExecutionRequest Real) → Type 0
    Asks bound before after =
        (new : List (ExecutionRequest Real)) × (after ≡ new ++ before)
        × (length new ≤ bound)
        × All IsSound new

    Asks-if :
        (bound : ℕ) (t : Bool) (x y s : Service Real)
        → Asks bound (asked s) (asked x)
        → Asks bound (asked s) (asked y)
        → Asks bound (asked s) (asked (if t then x else y))
    Asks-if bound true x y s h k = h
    Asks-if bound false x y s h k = k

    signal_loop-Asks :
        (signals : List (Signal Real)) (created : ℕ) (s : Service Real)
        → Asks
            (pos_part cfg.max_orders_per_tick - created)
            (asked s)
            (asked (signal_loop o cfg signals created s))
    unfolding signal_loop
    signal_loop-Asks [] created s = ([], refl, omega arith, tt)
    signal_loop-Asks (sig ∷ signals) created s =
        let verdict = pass (signal_gates o cfg sig) s in
        let mute = pass-IsMute (signal_gates o cfg sig) (signal_gates-IsMute sig) s in
        elim (Bool-cases (leb_ℤ cfg.max_orders_per_tick (pos created))) [
          | inl full ↦ rw (full, signal_loop) ([], refl, omega arith, tt)
          | inr room ↦ elim (Option-cases verdict.0) [
            | inr (skip, e) ↦
                rw (room, e, signal_loop)
                  (let (new, a, b, c) = signal_loop-Asks signals created verdict.1 in
                    (new, a ∙ ap (λ l. new ++ l) mute, b, c))
            | inl e ↦
                rw (room, e, signal_loop)
                  (let r = signal_request o cfg sig verdict.1.equity in
                    let (new, a, b, c) = signal_loop-Asks signals (suc created) (ask r verdict.1) in
                    (
                      new ++ r ∷ [],
                      a
                          ∙ ap (λ l. new ++ l) (asked-ask r verdict.1 ∙ ap (λ l. r ∷ l) mute)
                          ∙ sym (append_assoc new (r ∷ []) (asked s)),
                      ground (arith, length-append new (r ∷ [])),
                      All-append IsSound new (r ∷ []) c (signal_gates-IsSound sig s e, tt),
                    ))
          ]
        ]

    -- A pass over the ready signals asks for at most `max_orders_per_tick` approvals, each of a
    -- positive quantity and of a symbol that is neither held nor queued.
    pub request_approvals_for_ready_signals-Asks :
        (s : Service Real)
        → Asks
            (pos_part cfg.max_orders_per_tick)
            (asked s)
            (asked (request_approvals_for_ready_signals o cfg s))
    unfolding request_approvals_for_ready_signals
    request_approvals_for_ready_signals-Asks s =
        let after = (daily_loss_breach o cfg s).1 in
        let same = view-daily_loss_breach asked asked-IsBlind o cfg s in
        let bound = pos_part cfg.max_orders_per_tick in
        let (new, a, b, c) = signal_loop-Asks o.signals 0 after in
        Asks-if bound (not cfg.enabled) s _ s ([], refl, omega arith, tt)
          (Asks-if bound (daily_loss_breach o cfg s).0 after _ s ([], same, omega arith, tt)
            (Asks-if bound (leb_ℤ cfg.max_concurrent_positions (pos (open_position_count o)))
              (emit (risk_rule max_concurrent "") after) (signal_loop o cfg o.signals 0 after) s
              ([], reported max_concurrent after ∙ same, omega arith, tt)
              (new, a ∙ ap (λ l. new ++ l) same, omega arith, c)))
