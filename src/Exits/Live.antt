-- ===== src/Exits/Live.antt =====
-- `manage_live` of strategy/exits.py: over a session it only tightens the stop, and it moves it
-- where the backtest would.
use momentum_system.Prelude.{
  ℕ, suc, ◌≤◌, ◌≡◌, refl, Bool, false, inl, inr, List, [], ◌∷◌, ◌++◌, ◌⊎◌, arith,
}
use momentum_system.Float.{Float, Real, rank, nought, ◌⊖◌, ◌⊘◌, ◌≤?◌, fmax}
use momentum_system.Exits.Data.{Bar, ExitConfig, ExitResult}
use momentum_system.Exits.Backtest.{
  SimState, Round, running, closed, sim_start, after_scaling, scale_fill, sim_bar, sim_loop,
}
use momentum_system.Exits.Trail.{trail_stop_of}
use momentum_system.Exits.Manage.{live_walk, manage_live}
use momentum_system.Exits.Ratchet.{live_walk-append, live_walk-ge}

module _ ⦃n : Float⦄ where
  -- The stop that a later pass asks for, over more bars of the session, is not below the stop that
  -- an earlier pass asked for, whether or not the position was scaled out between the two.
  pub manage_live_tightens :
      (entry init_stop : Real) (xs ys : List (Bar Real)) (cfg : ExitConfig Real) (s t : Bool)
      → rank (manage_live entry init_stop xs cfg s).desired_stop
        ≤ rank (manage_live entry init_stop (xs ++ ys) cfg t).desired_stop
  unfolding manage_live
  manage_live_tightens entry init_stop [] ys cfg s t =
      ground (arith, live_walk-ge cfg entry (entry ⊖ init_stop) ys (init_stop, entry))
  manage_live_tightens entry init_stop (x ∷ xs) ys cfg s t =
      let risk = entry ⊖ init_stop in
      ground (
        arith,
        live_walk-append cfg entry risk (x ∷ xs) ys (init_stop, entry),
        live_walk-ge cfg entry risk ys (live_walk cfg entry risk (x ∷ xs) (init_stop, entry)),
      )

  Round-cases :
      (r : Round Real)
      → ((res : ExitResult Real) × (r ≡ closed res)) ⊎ ((st : SimState Real) × (r ≡ running st))
  Round-cases (closed res) = inl (res, refl)
  Round-cases (running st) = inr (st, refl)

  module _ (cfg : ExitConfig Real) (entry init_stop : Real) where
    abbrev walked : Bar Real → SimState Real → Real × Real
    walked bar st =
        let high = fmax st.high_water bar.high in
        (trail_stop_of st.stop entry high bar.low ((high ⊖ entry) ⊘ (entry ⊖ init_stop)) cfg, high)

    after_scaling-running :
        (idx : ℕ) (bar : Bar Real) (reached_r : Real) (st st' : SimState Real)
        → after_scaling cfg entry init_stop idx bar reached_r st ≡ running st'
        → (st'.stop ≡ trail_stop_of st.stop entry st.high_water bar.low reached_r cfg)
          × (st'.high_water ≡ st.high_water)
    unfolding after_scaling
    after_scaling-running idx bar reached_r st st' h = ground arith

    sim_bar-running :
        (idx : ℕ) (bar : Bar Real) (st st' : SimState Real)
        → sim_bar cfg entry init_stop idx bar st ≡ running st'
        → (st'.stop ≡ (walked bar st).0) × (st'.high_water ≡ (walked bar st).1)
    unfolding sim_bar
    sim_bar-running idx bar st st' h =
        let high = fmax st.high_water bar.high in
        let reached_r = (high ⊖ entry) ⊘ (entry ⊖ init_stop) in
        let seen : SimState Real = record st { high_water = high } in
        let part = scale_fill cfg entry (entry ⊖ init_stop) seen in
        ground (
          arith,
          after_scaling-running idx bar reached_r seen st',
          after_scaling-running idx bar reached_r part st',
        )

    -- While a simulated trade stays open, the stop and the high-water mark of the backtest's loop
    -- are those of the live loop over the same bars.
    sim_loop-running :
        (bars : List (Bar Real)) (idx : ℕ) (st st' : SimState Real)
        → sim_loop cfg entry init_stop idx bars st ≡ running st'
        → (st'.stop, st'.high_water)
          ≡ live_walk cfg entry (entry ⊖ init_stop) bars (st.stop, st.high_water)
    unfolding sim_loop live_walk
    sim_loop-running [] idx st st' h = ground arith
    sim_loop-running (bar ∷ bars) idx st st' h =
        elim (Round-cases (sim_bar cfg entry init_stop idx bar st)) [
          | inl (res, e) ↦ ground arith
          | inr (st₁, e) ↦
              ground
                (arith, sim_bar-running idx bar st st₁ e, sim_loop-running bars (suc idx) st₁ st')
        ]

    -- While the backtest's loop has not closed a trade, `manage_live` on the same bars asks for the
    -- very stop with which the backtest goes into its next bar.
    pub manage_live-eq-sim_loop :
        (b : Bar Real) (bars : List (Bar Real)) (scaled : Bool) (st : SimState Real)
        → (entry ⊖ init_stop ≤? nought) ≡ false
        → sim_loop cfg entry init_stop 0 (b ∷ bars) (sim_start entry init_stop) ≡ running st
        → (manage_live entry init_stop (b ∷ bars) cfg scaled).desired_stop ≡ st.stop
    unfolding manage_live
    manage_live-eq-sim_loop b bars scaled st positive h =
        ground (arith, sim_loop-running (b ∷ bars) 0 (sim_start entry init_stop) st h)
