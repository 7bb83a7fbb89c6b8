-- ===== src/Trading/Barred.antt =====
-- trading_execution.py: when `submit_breakout_now` sends nothing: after the session is closed or
-- halted, and while a symbol is benched.
use momentum_system.Prelude.{
  ℕ, suc, ◌+◌, ◌<◌, ◌≡◌, refl, ◌⊎◌, String, eq_iff, true, inl, inr, Option, some, Bool-cases, ◌&&◌,
  not, lt→ltb, ◌≤◌, arith,
}
use momentum_system.Prelude.Dict.{Dict, lookup, insert, lookup-insert}
use momentum_system.Prelude.Int.{pos, leb_ℤ}
use momentum_system.Float.{Float, Real, rank, nought}
use momentum_system.Trading.Data.{
  ExecutionSettings, Armed, Time, Until, at, never, Outside, entry_cancelled, Service,
}
use momentum_system.Trading.Bench.{
  emit, register_backout, bench_until, is_zero, or_zero, release_cap_slot,
}
use momentum_system.Trading.Breakout.{Break, submit_breakout_now}
use momentum_system.Trading.Expire.{back_out}
use momentum_system.Trading.Orders.{sent}
use momentum_system.Trading.Cleared.{Cleared, HasCooled, submit_breakout_now-Cleared}

module _ ⦃n : Float⦄ where
  module _ (o : Outside Real) (cfg : ExecutionSettings Real) (b : Break Real)
      (s : Service Real) where
    not_Cleared : ¬ (Cleared o cfg b s) → sent (submit_breakout_now o cfg b s).1 ≡ sent s
    not_Cleared h = elim (submit_breakout_now-Cleared o cfg b s) [
      | inl e ↦ e
      | inr (c, rest) ↦ absurd (h c)
    ]

    -- Once the loss breaker has tripped or the session is closed, a live break sends no order.
    pub submit_breakout_now-halted :
        (s.halted ≡ true) ⊎ (s.session_closed ≡ true)
        → sent (submit_breakout_now o cfg b s).1 ≡ sent s
    submit_breakout_now-halted h = not_Cleared (λ c. ground (arith, c.not_halted, c.not_closed))

  module _ (cfg : ExecutionSettings Real) (now : Time) (symbol : String) where
    -- the bench that a back-out sets, or keeps from before
    abbrev benched_to : Service Real → Option Until
    benched_to s = lookup symbol (register_backout cfg now symbol s).cooldown_until

    bench_until-cases :
        (count : ℕ)
        → rank nought < rank cfg.backout_cooldown_seconds
        → (bench_until cfg now count ≡ some never)
          ⊎ (bench_until cfg now count ≡ some (at (now + n.micros cfg.backout_cooldown_seconds)))
    unfolding bench_until
    bench_until-cases count on =
        elim (Bool-cases (
          not (is_zero cfg.max_backouts_per_symbol)
          && leb_ℤ cfg.max_backouts_per_symbol (pos count))) [
            | inl e ↦ inl (rw (e, bench_until) refl)
            | inr e ↦ inr (rw (e, lt→ltb _ _ on, bench_until) refl)
          ]

    lookup_new : (u : Until) (d : Dict Until) → lookup symbol (insert symbol u d) ≡ some u
    lookup_new u d = ground (arith, eq_iff symbol symbol, lookup-insert symbol symbol u d)

    benched_to-HasCooled :
        (s : Service Real) (later : Time)
        → rank nought < rank cfg.backout_cooldown_seconds
        → later < now + n.micros cfg.backout_cooldown_seconds
        → ¬ (HasCooled later (benched_to s))
    unfolding register_backout
    benched_to-HasCooled s later on soon h =
        let count = suc (or_zero (lookup symbol s.backout_counts)) in
        elim (bench_until-cases count on) [
          | inl e ↦ rw (e, lookup_new never s.cooldown_until) at h
          | inr e ↦
              let end = now + n.micros cfg.backout_cooldown_seconds in
              let cooled : end ≤ later = rw (e, lookup_new (at end) s.cooldown_until) at h in
              omega arith
        ]

  cooldown_until-back_out :
      (o : Outside Real) (cfg : ExecutionSettings Real) (order_id : String) (a : Armed Real)
      (s : Service Real)
      → (back_out o cfg order_id a s).cooldown_until
        ≡ (register_backout cfg o.now a.symbol
            (emit (entry_cancelled order_id a.symbol) s)).cooldown_until
  unfolding back_out release_cap_slot
  cooldown_until-back_out o cfg order_id a s = ground arith

  -- While the cooldown of a back-out lasts, a live break of the same symbol sends no order, whatever
  -- the outside answers.
  pub submit_breakout_now-benched :
      (cfg : ExecutionSettings Real) (backed later : Outside Real) (order_id : String)
      (a : Armed Real) (b : Break Real) (s : Service Real)
      → rank nought < rank cfg.backout_cooldown_seconds
      → later.now < backed.now + n.micros cfg.backout_cooldown_seconds
      → b.symbol ≡ a.symbol
      → sent (submit_breakout_now later cfg b (back_out backed cfg order_id a s)).1
        ≡ sent (back_out backed cfg order_id a s)
  submit_breakout_now-benched cfg backed later order_id a b s on soon same =
      not_Cleared later cfg b (back_out backed cfg order_id a s) (λ c.
        benched_to-HasCooled cfg backed.now a.symbol (emit (entry_cancelled order_id a.symbol) s)
          later.now on soon
          (rw (same, cooldown_until-back_out backed cfg order_id a s) at c.not_benched))
