-- ===== src/Trading/Views.antt =====
-- trading_execution.py: what the daily-loss breaker and a flattening leave as it was. A view of the
-- service that none of their steps shows in is the same after them.
use momentum_system.Prelude.{
  ℕ, suc, true, false, not, ◌&&◌, if◌then◌else◌, ◌≡◌, refl, ◌∙◌, String, Bool, ◌||◌, inl, inr,
  Option, none, some, List, [], ◌∷◌, Bool-cases,
}
use momentum_system.Prelude.Dict.{Dict}
use momentum_system.Prelude.Int.{pos, leb_ℤ}
use momentum_system.Float.{Float, Real, nought, ◌≤?◌, fabs}
use momentum_system.Trading.Data.{
  ExecutionSettings, Armed, Account, Outside, Rule, entry_cancelled, position_closed, risk_rule,
  Service,
}
use momentum_system.Trading.Bench.{emit}
use momentum_system.Trading.Breaker.{
  FlattenResult, held_symbols, cancel_armed, close_all, flatten_all, recovered, unreadable, trip,
  is_breach, judged, daily_loss_breach,
}

module _ {ℓ} {A : Type ℓ} ⦃n : Float⦄ where
  -- The steps of the breaker do not show in the view.
  pub record IsBlind (v : Service Real → A) : Type ℓ where
    pub cancels :
        (order_id symbol : String) (d : Dict (Armed Real)) (requested : List String)
        (s : Service Real)
        → v (record s {
          armed = d;
          requested_symbols = requested;
          effects = entry_cancelled order_id symbol ∷ s.effects;
        })
          ≡ v s
    pub closes : (symbol : String) (s : Service Real) → v (emit (position_closed symbol) s) ≡ v s
    pub reports :
        (r : Rule) (symbol : String) (s : Service Real) → v (emit (risk_rule r symbol) s) ≡ v s
    pub halts : (s : Service Real) → v (record s { halted = true }) ≡ v s
    pub pauses :
        (b : Bool) (k : ℕ) (s : Service Real)
        → v (record s { data_halt = b; equity_read_failures = k }) ≡ v s

  module _ (v : Service Real → A) (blind : IsBlind v) where
    view-if :
        (b : Bool) (x y s : Service Real) → v x ≡ v s → v y ≡ v s → v (if b then x else y) ≡ v s
    view-if true x y s h k = h
    view-if false x y s h k = k

    view-cancel_armed : (d : Dict (Armed Real)) (s : Service Real) → v (cancel_armed d s) ≡ v s
    unfolding cancel_armed
    view-cancel_armed [] s = refl
    view-cancel_armed ((order_id, a) ∷ d) s =
        view-cancel_armed d _ ∙ blind.cancels order_id a.symbol _ _ s

    view-close_all :
        (o : Outside Real) (symbols : List String) (r : FlattenResult × Service Real)
        → v (close_all o symbols r).1 ≡ v r.1
    unfolding close_all
    view-close_all o [] r = refl
    view-close_all o (symbol ∷ symbols) (res, s) = elim (Bool-cases (o.closes symbol)) [
      | inl e ↦ rw (e, close_all) (view-close_all o symbols _ ∙ blind.closes symbol s)
      | inr e ↦ rw (e, close_all) (view-close_all o symbols _)
    ]

    pub view-flatten_all : (o : Outside Real) (s : Service Real) → v (flatten_all o s).1 ≡ v s
    unfolding flatten_all
    view-flatten_all o s =
        view-close_all o (o.in_order (held_symbols o)) _ ∙ view-cancel_armed s.armed s

    module _ (o : Outside Real) (cfg : ExecutionSettings Real) where
      view-trip : (s : Service Real) → v (trip o cfg s) ≡ v s
      unfolding trip
      view-trip s = elim (Bool-cases cfg.flatten_on_breach) [
        | inl e ↦
            rw (e, trip)
              (blind.reports _ _ _
                ∙ view-flatten_all o (record s { halted = true })
                ∙ blind.halts s)
        | inr e ↦ rw (e, trip) (blind.reports _ _ _ ∙ blind.halts s)
      ]

      view-recovered : (s : Service Real) → v (recovered s) ≡ v s
      unfolding recovered
      view-recovered s =
          view-if s.data_halt _ _ s (blind.reports _ _ _ ∙ blind.pauses false 0 s)
            (blind.pauses false 0 s)

      view-unreadable : (s : Service Real) → v (unreadable s) ≡ v s
      unfolding unreadable
      view-unreadable s =
          let count = suc s.equity_read_failures in
          view-if (leb_ℤ s.equity_fail_limit (pos count) && not s.data_halt) _ _ s
            (blind.reports _ _ _ ∙ blind.pauses true count s) (blind.pauses s.data_halt count s)

      view-judged : (a : Option (Account Real)) (s : Service Real) → v (judged o cfg a s).1 ≡ v s
      unfolding judged
      view-judged none s = view-unreadable s
      view-judged (some a) s = elim (Bool-cases (is_breach cfg a)) [
        | inl e ↦ rw (e, judged) (view-trip (recovered s) ∙ view-recovered s)
        | inr e ↦ rw (e, judged) (view-recovered s)
      ]

      pub view-daily_loss_breach : (s : Service Real) → v (daily_loss_breach o cfg s).1 ≡ v s
      unfolding daily_loss_breach
      view-daily_loss_breach s = elim (Bool-cases (s.halted || s.session_closed)) [
        | inl e ↦ rw (e, daily_loss_breach) refl
        | inr e ↦ elim (Bool-cases (fabs cfg.max_daily_loss_pct ≤? nought)) [
          | inl f ↦ rw (e, f, daily_loss_breach) refl
          | inr f ↦ rw (e, f, daily_loss_breach) (view-judged o.account s)
        ]
      ]
