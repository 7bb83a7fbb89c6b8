-- ===== src/Trading/Cap.antt =====
-- trading_execution.py: the count of the day's fresh entries, gate by gate.
use momentum_system.Prelude.{
  ℕ, ◌≡◌, refl, ◌⊎◌, String, ◌||◌, inl, inr, none, List, [], ◌∷◌, All, Option-cases, arith,
}
use momentum_system.Prelude.Int.{pos, ◌≤ℤ◌, ◌<ℤ◌}
use momentum_system.Float.{Float, Real, nought, ◌≤?◌}
use momentum_system.Trading.Data.{ExecutionSettings, Outside, Service}
use momentum_system.Trading.Bench.{in_cooldown, roll_day, at_daily_cap, is_capped}
use momentum_system.Trading.Breaker.{flatten_all, daily_loss_breach}
use momentum_system.Trading.Breakout.{
  Break, Gate, gates, pass, refuse, breach_gate, cap_gate, active_gate, cooldown_gate, reentry_gate,
  dilution_gate, gross_gate, size_gate, is_bad_price, bad_price, bad_geometry, entry_ref,
  anti_chase_skip, current_equity,
}
use momentum_system.Trading.Cleared.{pass-next}
use momentum_system.Trading.Views.{IsBlind, view-flatten_all, view-daily_loss_breach}

module _ ⦃n : Float⦄ where
  module _ (cfg : ExecutionSettings Real) where
    -- The count of fresh entries is within the cap of the day, where there is one.
    abbrev pub Within : ℕ → Type 0
    Within k = (cfg.max_fresh_entries_per_day ≤ℤ pos 0) ⊎ (pos k ≤ℤ cfg.max_fresh_entries_per_day)

    abbrev pub InCap : Service Real → Type 0
    InCap s = Within s.fresh_n

    -- There is room for one more.
    abbrev pub HasRoom : ℕ → Type 0
    HasRoom k = (cfg.max_fresh_entries_per_day ≤ℤ pos 0) ⊎ (pos k <ℤ cfg.max_fresh_entries_per_day)

  fresh_n-IsBlind : IsBlind (λ (s : Service Real). s.fresh_n)
  fresh_n-IsBlind = record {
    cancels = λ order_id symbol d requested s. refl;
    closes = λ symbol s. refl;
    reports = λ r symbol s. refl;
    halts = λ s. refl;
    pauses = λ b k s. refl;
  }

  pub fresh_n-flatten_all :
      (o : Outside Real) (s : Service Real) → (flatten_all o s).1.fresh_n ≡ s.fresh_n
  fresh_n-flatten_all = view-flatten_all (λ s. s.fresh_n) fresh_n-IsBlind

  module _ (o : Outside Real) (cfg : ExecutionSettings Real) where
    pub fresh_n-daily_loss_breach :
        (s : Service Real) → (daily_loss_breach o cfg s).1.fresh_n ≡ s.fresh_n
    fresh_n-daily_loss_breach = view-daily_loss_breach (λ s. s.fresh_n) fresh_n-IsBlind o cfg

    -- a gate that keeps what holds of the count
    abbrev pub Keeps : (Service Real → Type 0) → Gate → Type 0
    Keeps P g = (s : Service Real) → P s → P (g s).1

    pub pass-Keeps :
        (P : Service Real → Type 0) (gs : List Gate) → All (Keeps P) gs → Keeps P (pass gs)
    unfolding pass
    pass-Keeps P [] h s p = p
    pass-Keeps P (g ∷ gs) h s p = elim (Option-cases (g s).0) [
      | inl e ↦ rw (e, pass) (pass-Keeps P gs h.1 (g s).1 (h.0 s p))
      | inr (skip, e) ↦ rw (e, pass) (h.0 s p)
    ]

    cap_gate-InCap : Keeps (InCap cfg) (cap_gate o cfg)
    unfolding cap_gate roll_day
    cap_gate-InCap s p = ground arith

    fresh_n-cooldown_gate :
        (symbol : String) (s : Service Real) → (cooldown_gate o symbol s).1.fresh_n ≡ s.fresh_n
    unfolding cooldown_gate in_cooldown
    fresh_n-cooldown_gate symbol s = ground arith

    fresh_n-dilution_gate :
        (symbol : String) (s : Service Real) → (dilution_gate o cfg symbol s).1.fresh_n ≡ s.fresh_n
    unfolding dilution_gate
    fresh_n-dilution_gate symbol s = ground arith

    fresh_n-gross_gate : (s : Service Real) → (gross_gate o cfg s).1.fresh_n ≡ s.fresh_n
    unfolding gross_gate refuse current_equity
    fresh_n-gross_gate s = ground arith

    module _ (b : Break Real) where
      abbrev later_gates : List Gate
      later_gates =
          active_gate o b.symbol
          ∷ cooldown_gate o b.symbol
          ∷ reentry_gate b.symbol
          ∷ dilution_gate o cfg b.symbol
          ∷ refuse (is_bad_price b.last_price) bad_price
          ∷ refuse ((entry_ref b ≤? b.stop) || (b.trigger ≤? nought)) bad_geometry
          ∷ (λ s. (anti_chase_skip cfg (entry_ref b) b.trigger b.day_open b.halted, s))
          ∷ gross_gate o cfg
          ∷ size_gate o cfg b
          ∷ []

      later_gates-Keeps : (Q : ℕ → Type 0) → All (Keeps (λ s. Q s.fresh_n)) later_gates
      unfolding refuse active_gate reentry_gate size_gate
      later_gates-Keeps Q = (
        (λ s p. p),
        (
          (λ s p. rw (fresh_n-cooldown_gate b.symbol s) p),
          (
            (λ s p. p),
            (
              (λ s p. rw (fresh_n-dilution_gate b.symbol s) p),
              (
                (λ s p. p),
                (
                  (λ s p. p),
                  ((λ s p. p), ((λ s p. rw (fresh_n-gross_gate s) p), ((λ s p. p), tt))),
                ),
              ),
            ),
          ),
        ),
      )

      pub gates-InCap : All (Keeps (InCap cfg)) (gates o cfg b)
      unfolding refuse breach_gate
      gates-InCap = (
        (λ s p. p),
        (
          (λ s p. rw (fresh_n-daily_loss_breach s) p),
          (
            (λ s p. p),
            ((λ s p. p), ((λ s p. p), (cap_gate-InCap, later_gates-Keeps (λ k. Within cfg k)))),
          ),
        ),
      )

      cap_gate-HasRoom :
          (s : Service Real)
          → (cap_gate o cfg s).0 ≡ none
          → HasRoom cfg (cap_gate o cfg s).1.fresh_n
      unfolding cap_gate at_daily_cap is_capped
      cap_gate-HasRoom s h = ground arith

      -- Where every gate lets the entry through, there is room for it under the cap.
      pub gates-HasRoom :
          (s : Service Real)
          → (pass (gates o cfg b) s).0 ≡ none
          → HasRoom cfg (pass (gates o cfg b) s).1.fresh_n
      unfolding refuse
      gates-HasRoom s h₀ =
          let s₂ = (breach_gate o cfg s).1 in
          let (g₁, e₁) = pass-next _ _ s h₀ in
          let (g₂, e₂) = pass-next _ _ s (rw e₁ at h₀) in
          let h₂ = rw (e₁, e₂) at h₀ in
          let (g₃, e₃) = pass-next _ _ s₂ h₂ in
          let (g₄, e₄) = pass-next _ _ s₂ (rw e₃ at h₂) in
          let (g₅, e₅) = pass-next _ _ s₂ (rw (e₃, e₄) at h₂) in
          let (g₆, e₆) = pass-next _ _ s₂ (rw (e₃, e₄, e₅) at h₂) in
          let room = cap_gate-HasRoom s₂ g₆ in
          rw (e₁, e₂, e₃, e₄, e₅, e₆)
            (pass-Keeps (λ t. HasRoom cfg t.fresh_n) later_gates
              (later_gates-Keeps (λ k. HasRoom cfg k)) (cap_gate o cfg s₂).1 room)
