-- ===== src/Trading/Cleared.antt =====
-- trading_execution.py: what has to hold for `submit_breakout_now` to send an order.
use momentum_system.Prelude.{
  ℕ, ◌/◌, ◌<◌, ◌≤◌, ◌⊎◌, ◌≡◌, refl, ◌∙◌, ap, String, true, false, ◌||◌, inl, inr, Option, none,
  some, List, ◌∷◌, map, ◌==◌, if◌then◌else◌, Bool-cases, Option-cases, arith,
}
use momentum_system.Prelude.Int.{pos, ◌≤ℤ◌, ◌<ℤ◌}
use momentum_system.Prelude.Dict.{lookup}
use momentum_system.Prelude.Sets.{mem}
use momentum_system.Float.{Float, Real, rank, nought, ◌≤?◌, fabs}
use momentum_system.Trading.Data.{
  ExecutionSettings, Time, Until, at, never, Account, ExecutionRequest, Outside, Service,
}
use momentum_system.Trading.Bench.{
  in_cooldown, roll_day, at_daily_cap, is_capped, microseconds_per_day,
}
use momentum_system.Trading.Breaker.{
  held_symbols, open_position_count, daily_loss_breach, judged, is_breach, recovered, unreadable,
}
use momentum_system.Trading.Breakout.{
  Break, Gate, gates, pass, refuse, breach_gate, cap_gate, active_gate, cooldown_gate, reentry_gate,
  dilution_gate, entry_ref, late_confirmation_at, breakout_request, submit_breakout_now,
}
use momentum_system.Trading.Orders.{sent, gates-IsSilent, pass-IsSilent, sent-send}
use mathlib.Core.Path.{subst}

module _ ⦃n : Float⦄ where
  -- The cooldown, if there is one, has ended.
  abbrev pub HasCooled : Time → Option Until → Type 0
  HasCooled now none = Unit
  HasCooled now (some never) = ⊥
  HasCooled now (some (at t)) = t ≤ now

  -- the fresh entries that count for the day of `now`
  abbrev pub taken_today : Time → Service Real → ℕ
  taken_today now s = elim s.fresh_date [
    | none ↦ 0
    | some day ↦ if day == now / microseconds_per_day then s.fresh_n else 0
  ]

  -- What holds where an order goes out.
  pub record Cleared (o : Outside Real) (cfg : ExecutionSettings Real) (b : Break Real)
      (s : Service Real) : Type 0 where
    pub enabled : cfg.enabled ≡ true
    pub not_halted : s.halted ≡ false
    pub not_closed : s.session_closed ≡ false
    pub room : pos (open_position_count o) <ℤ cfg.max_concurrent_positions
    pub in_time : late_confirmation_at cfg o.now ≡ false
    pub under_cap :
        (cfg.max_fresh_entries_per_day ≤ℤ pos 0)
        ⊎ (pos (taken_today o.now s) <ℤ cfg.max_fresh_entries_per_day)
    pub not_held : mem b.symbol (held_symbols o) ≡ false
    pub not_queued : mem b.symbol (map (λ p. p.request.symbol) o.queue) ≡ false
    pub not_requested : mem b.symbol s.requested_symbols ≡ false
    pub not_benched : HasCooled o.now (lookup b.symbol s.cooldown_until)
    pub not_exited : mem b.symbol s.exited_today ≡ false
    pub risky : rank b.stop < rank (entry_ref b)

  -- The fields that the gates read are as they were.
  abbrev Kept : Service Real → Service Real → Type 0
  Kept s t =
      (t.requested_symbols ≡ s.requested_symbols)
      × (t.exited_today ≡ s.exited_today)
      × (t.cooldown_until ≡ s.cooldown_until)
      × (t.fresh_date ≡ s.fresh_date)
      × (t.fresh_n ≡ s.fresh_n)

  -- Where a list of gates lets a state through, its first gate does, and the others go on.
  pub pass-next :
      (g : Gate) (gs : List Gate) (s : Service Real)
      → (pass (g ∷ gs) s).0 ≡ none
      → ((g s).0 ≡ none) × (pass (g ∷ gs) s ≡ pass gs (g s).1)
  unfolding pass
  pass-next g gs s h = elim (Option-cases (g s).0) [
    | inl e ↦ (e, rw (e, pass) refl)
    | inr (skip, e) ↦ (let h' = rw (e, pass) at h in cc)
  ]

  pass-open :
      (g : Gate) (gs : List Gate) (s : Service Real)
      → (pass (g ∷ gs) s).0 ≡ none
      → ((g s).0 ≡ none) × ((pass gs (g s).1).0 ≡ none)
  pass-open g gs s h = let (e, f) = pass-next g gs s h in (e, rw f at h)

  module _ (o : Outside Real) (cfg : ExecutionSettings Real) where
    recovered-Kept : (s : Service Real) → Kept s (recovered s)
    unfolding recovered
    recovered-Kept s = ground arith

    unreadable-Kept : (s : Service Real) → Kept s (unreadable s)
    unfolding unreadable
    unreadable-Kept s = ground arith

    judged-Kept :
        (a : Option (Account Real)) (s : Service Real)
        → (judged o cfg a s).0 ≡ false
        → Kept s (judged o cfg a s).1
    unfolding judged
    judged-Kept none s h = unreadable-Kept s
    judged-Kept (some a) s h = elim (Bool-cases (is_breach cfg a)) [
      | inl e ↦ (let h' = rw (e, judged) at h in cc)
      | inr e ↦ rw (e, judged) (recovered-Kept s)
    ]

    -- The breaker lets an entry through only in an open session that has not been halted.
    daily_loss_breach-open :
        (s : Service Real)
        → (daily_loss_breach o cfg s).0 ≡ false
        → ((s.halted || s.session_closed) ≡ false) × Kept s (daily_loss_breach o cfg s).1
    unfolding daily_loss_breach
    daily_loss_breach-open s h = elim (Bool-cases (s.halted || s.session_closed)) [
      | inl e ↦ (let h' = rw (e, daily_loss_breach) at h in cc)
      | inr e ↦ elim (Bool-cases (fabs cfg.max_daily_loss_pct ≤? nought)) [
        | inl f ↦ (e, rw (e, f, daily_loss_breach) (refl, refl, refl, refl, refl))
        | inr f ↦ (
          e,
          rw (e, f, daily_loss_breach)
              (judged-Kept o.account s (rw (e, f, daily_loss_breach) at h)),
        )
      ]
    ]

    cap_gate-open :
        (s : Service Real)
        → (cap_gate o cfg s).0 ≡ none
        → (cfg.max_fresh_entries_per_day ≤ℤ pos 0)
          ⊎ (pos (taken_today o.now s) <ℤ cfg.max_fresh_entries_per_day)
    unfolding cap_gate roll_day at_daily_cap is_capped
    cap_gate-open s h = ground arith

    cap_gate-Kept :
        (s : Service Real)
        → ((cap_gate o cfg s).1.requested_symbols ≡ s.requested_symbols)
          × ((cap_gate o cfg s).1.exited_today ≡ s.exited_today)
          × ((cap_gate o cfg s).1.cooldown_until ≡ s.cooldown_until)
    unfolding cap_gate roll_day
    cap_gate-Kept s = ground arith

    cooldown_gate-open :
        (symbol : String) (s : Service Real)
        → (cooldown_gate o symbol s).0 ≡ none
        → HasCooled o.now (lookup symbol s.cooldown_until)
          × ((cooldown_gate o symbol s).1.exited_today ≡ s.exited_today)
    unfolding cooldown_gate in_cooldown
    cooldown_gate-open symbol s h = ground arith

    taken_today-Kept : (s t : Service Real) → Kept s t → taken_today o.now t ≡ taken_today o.now s
    taken_today-Kept s t k = ground (arith, k)

    breach_gate-open :
        (s : Service Real)
        → (breach_gate o cfg s).0 ≡ none
        → ((s.halted || s.session_closed) ≡ false) × Kept s (breach_gate o cfg s).1
    unfolding breach_gate
    breach_gate-open s h = daily_loss_breach-open s (ground arith)

    gates-Cleared :
        (b : Break Real) (s : Service Real) → (pass (gates o cfg b) s).0 ≡ none → Cleared o cfg b s
    unfolding refuse active_gate reentry_gate
    gates-Cleared b s h₀ =
        let (g₁, h₁) = pass-open _ _ s h₀ in
        let (g₂, h₂) = pass-open _ _ s h₁ in
        let s₂ = (breach_gate o cfg s).1 in
        let (g₃, h₃) = pass-open _ _ s₂ h₂ in
        let (g₄, h₄) = pass-open _ _ s₂ h₃ in
        let (g₅, h₅) = pass-open _ _ s₂ h₄ in
        let (g₆, h₆) = pass-open _ _ s₂ h₅ in
        let s₆ = (cap_gate o cfg s₂).1 in
        let (g₇, h₇) = pass-open _ _ s₆ h₆ in
        let (g₈, h₈) = pass-open _ _ s₆ h₇ in
        let s₈ = (cooldown_gate o b.symbol s₆).1 in
        let (g₉, h₉) = pass-open _ _ s₈ h₈ in
        let (g₁₀, h₁₀) = pass-open _ _ s₈ h₉ in
        let s₁₀ = (dilution_gate o cfg b.symbol s₈).1 in
        let (g₁₁, h₁₁) = pass-open _ _ s₁₀ h₁₀ in
        let (g₁₂, h₁₂) = pass-open _ _ s₁₀ h₁₁ in
        let (open_session, kept) = breach_gate-open s g₂ in
        let kept' = cap_gate-Kept s₂ in
        let (cooled, exits) = cooldown_gate-open b.symbol s₆ g₈ in
        record {
          enabled = ground arith;
          not_halted = ground arith;
          not_closed = ground arith;
          room = ground arith;
          in_time = ground arith;
          under_cap = rw (taken_today-Kept s s₂ kept) at (cap_gate-open s₂ g₆);
          not_held = ground arith;
          not_queued = ground arith;
          not_requested = ground arith;
          not_benched = subst (λ d. HasCooled o.now (lookup b.symbol d)) (kept'.2 ∙ kept.2) cooled;
          not_exited = ground arith;
          risky = ground arith;
        }

    -- `submit_breakout_now` sends no order, or everything holds that clears the entry and it sends
    -- one, for the symbol of the break: trading is on, neither the loss breaker nor the end of the
    -- session has closed it, there is room for a position, the break is not late, the day's cap is
    -- not used up, the symbol is not held, not queued, not requested, not benched and not exited
    -- today, and the stop is below the entry.
    pub submit_breakout_now-Cleared :
        (b : Break Real) (s : Service Real)
        → (sent (submit_breakout_now o cfg b s).1 ≡ sent s)
          ⊎ (Cleared o cfg b s
              × ((request : ExecutionRequest Real) × (request.symbol ≡ b.symbol)
                  × (sent (submit_breakout_now o cfg b s).1 ≡ request ∷ sent s)))
    unfolding submit_breakout_now breakout_request
    submit_breakout_now-Cleared b s =
        let quiet = pass-IsSilent o cfg (gates o cfg b) (gates-IsSilent o cfg b) s in
        let after = (pass (gates o cfg b) s).1 in
        elim (Option-cases (pass (gates o cfg b) s).0) [
          | inr (skip, e) ↦ inl (rw (e, submit_breakout_now) quiet)
          | inl e ↦ inr (
            gates-Cleared b s e,
            (
              breakout_request o cfg b after.equity,
              refl,
              rw (e, submit_breakout_now)
                  (sent-send o cfg (breakout_request o cfg b after.equity) after
                    ∙ ap (λ l. breakout_request o cfg b after.equity ∷ l) quiet),
            ),
          )
        ]
