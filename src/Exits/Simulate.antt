-- ===== src/Exits/Simulate.antt =====
-- `simulate_exit` of strategy/exits.py: how a simulated trade is closed and booked.
use momentum_system.Prelude.{
  ℕ, suc, ◌+◌, ◌≤◌, ◌<◌, ◌≡◌, refl, ap, Bool, true, false, inl, inr, List, [], ◌∷◌, ◌++◌, length,
  Bool-cases, arith,
}
use momentum_system.Float.{Float, Real, rank, lit, nought, ◌⊖◌, ◌⊘◌, ◌≤?◌, fmax}
use momentum_system.Exits.Data.{Bar, ExitConfig, ExitFill, ExitResult, Reason, scale_out, stop_loss}
use momentum_system.Exits.Backtest.{
  SimState, Round, running, closed, sim_start, after_scaling, target_hit, breaks_prior_low,
  scales_out, last_bar, scale_fill, scaled_flat, sim_bar, sim_loop, simulate_exit, close_at,
  stop_out, session_close,
}
use momentum_system.Exits.Ratchet.{trail_stop_of-ge}

module _ ⦃n : Float⦄ where
  -- One fill, or a scale-out and one more fill; the last one satisfies `P`.
  abbrev pub ClosedBy : (ExitFill Real → Type 0) → List (ExitFill Real) → Type 0
  ClosedBy P [] = ⊥
  ClosedBy P (f ∷ []) = P f
  ClosedBy P (f ∷ g ∷ []) = (f.reason ≡ scale_out) × P g
  ClosedBy P (f ∷ g ∷ h ∷ fills) = ⊥

  abbrev pub FilledAt : Real → Real → Reason → Type 0
  FilledAt init_stop price stop_loss = rank price ≡ rank init_stop
  FilledAt init_stop price _ = Unit

  -- The last fill carries the reason of the result, and a stop loss is filled at the initial stop.
  abbrev pub LastFill : Real → ExitResult Real → ExitFill Real → Type 0
  LastFill init_stop res f = (f.reason ≡ res.reason) × FilledAt init_stop f.price f.reason

  abbrev pub Booked : Real → ExitResult Real → Type 0
  Booked init_stop res = ClosedBy (LastFill init_stop res) res.fills

  -- What the fills of an open trade are: none, or the scale-out.
  abbrev OpenFills : Bool → List (ExitFill Real) → Type 0
  OpenFills false [] = Unit
  OpenFills true (f ∷ []) = f.reason ≡ scale_out
  OpenFills _ _ = ⊥

  abbrev IsOpen : Real → SimState Real → Type 0
  IsOpen init_stop st = (rank init_stop ≤ rank st.stop) × OpenFills st.scaled st.fills

  OpenFills-ClosedBy :
      (P : ExitFill Real → Type 0) (b : Bool) (fills : List (ExitFill Real)) (f : ExitFill Real)
      → OpenFills b fills
      → P f
      → ClosedBy P (fills ++ f ∷ [])
  OpenFills-ClosedBy P false [] f h p = p
  OpenFills-ClosedBy P true (g ∷ []) f h p = (h, p)
  OpenFills-ClosedBy P false (g ∷ fills) f h p = absurd h
  OpenFills-ClosedBy P true [] f h p = absurd h
  OpenFills-ClosedBy P true (g ∷ k ∷ fills) f h p = absurd h

  shift : (a b : ℕ) → a + suc b ≡ suc a + b
  shift a b = omega arith

  module _ (cfg : ExitConfig Real) (entry init_stop : Real) where
    -- what a round leaves: an open trade, or one that is booked in this round
    abbrev Kept : ℕ → Round Real → Type 0
    Kept idx (closed res) = Booked init_stop res × (res.exit_index ≡ idx)
    Kept idx (running st) = IsOpen init_stop st

    close_at-Booked :
        (reason : Reason) (price r : Real) (idx : ℕ) (st : SimState Real)
        → FilledAt init_stop price reason
        → IsOpen init_stop st
        → Booked init_stop (close_at reason price r idx st)
    unfolding close_at
    close_at-Booked reason price r idx st fit h =
        OpenFills-ClosedBy (LastFill init_stop (close_at reason price r idx st)) st.scaled st.fills
          _ h.1 (refl, fit)

    stop_out-Booked :
        (idx : ℕ) (st : SimState Real)
        → IsOpen init_stop st
        → Booked init_stop (stop_out entry init_stop idx st)
    unfolding stop_out
    stop_out-Booked idx st h =
        OpenFills-ClosedBy (LastFill init_stop (stop_out entry init_stop idx st)) st.scaled st.fills
          _ h.1 (refl, ground arith)

    after_scaling-Kept :
        (idx : ℕ) (bar : Bar Real) (reached_r : Real) (st : SimState Real)
        → IsOpen init_stop st
        → Kept idx (after_scaling cfg entry init_stop idx bar reached_r st)
    unfolding after_scaling
    after_scaling-Kept idx bar reached_r st h =
        elim (Bool-cases (target_hit cfg entry (entry ⊖ init_stop) bar)) [
          | inl e ↦ rw e (close_at-Booked Reason.target _ cfg.target_r idx st tt h, refl)
          | inr e ↦ elim (Bool-cases (breaks_prior_low cfg bar st)) [
            | inl e' ↦
                rw (e, e')
                  (
                    close_at-Booked Reason.first_red _ ((bar.close ⊖ entry) ⊘ (entry ⊖ init_stop))
                        idx st tt h,
                    refl,
                  )
            | inr e' ↦
                rw (e, e')
                  (
                    omega
                        (arith, trail_stop_of-ge st.stop entry st.high_water bar.low reached_r cfg),
                    h.1,
                  )
          ]
        ]

    first_fill :
        (f : ExitFill Real) (b : Bool) (fills : List (ExitFill Real))
        → b ≡ false
        → OpenFills b fills
        → f.reason ≡ scale_out
        → OpenFills true (fills ++ f ∷ [])
    first_fill f false [] e o r = r
    first_fill f false (g ∷ fills) e o r = absurd o
    first_fill f true fills e o r = cc

    scale_fill-IsOpen :
        (st : SimState Real)
        → st.scaled ≡ false
        → IsOpen init_stop st
        → IsOpen init_stop (scale_fill cfg entry (entry ⊖ init_stop) st)
    unfolding scale_fill
    scale_fill-IsOpen st e h = (h.0, first_fill _ st.scaled st.fills e h.1 refl)

    scaled_flat-Booked :
        (idx : ℕ) (st : SimState Real)
        → IsOpen init_stop st
        → Booked init_stop (scaled_flat idx (scale_fill cfg entry (entry ⊖ init_stop) st))
    unfolding scale_fill scaled_flat
    scaled_flat-Booked idx st h =
        OpenFills-ClosedBy
          (LastFill init_stop (scaled_flat idx (scale_fill cfg entry (entry ⊖ init_stop) st)))
          st.scaled st.fills _ h.1 (refl, tt)

    scales_out-unscaled :
        (bar : Bar Real) (st : SimState Real)
        → scales_out cfg entry (entry ⊖ init_stop) bar st ≡ true
        → st.scaled ≡ false
    unfolding scales_out
    scales_out-unscaled bar st e = ground arith

    -- One round keeps an open trade open, or books it in this round.
    sim_bar-Kept :
        (idx : ℕ) (bar : Bar Real) (st : SimState Real)
        → IsOpen init_stop st
        → Kept idx (sim_bar cfg entry init_stop idx bar st)
    unfolding sim_bar
    sim_bar-Kept idx bar st h =
        let seen : SimState Real = record st { high_water = fmax st.high_water bar.high } in
        let part = scale_fill cfg entry (entry ⊖ init_stop) seen in
        elim (Bool-cases (bar.low ≤? st.stop)) [
          | inl e ↦ rw e (stop_out-Booked idx seen h, refl)
          | inr e ↦ elim (Bool-cases (scales_out cfg entry (entry ⊖ init_stop) bar seen)) [
            | inr e₂ ↦ rw (e, e₂) (after_scaling-Kept idx bar _ seen h)
            | inl e₂ ↦ elim (Bool-cases (part.remaining ≤? lit 1 1000000000)) [
              | inl e₃ ↦ rw (e, e₂, e₃) (scaled_flat-Booked idx seen h, refl)
              | inr e₃ ↦
                  rw (e, e₂, e₃)
                    (after_scaling-Kept idx bar _ part
                      (scale_fill-IsOpen seen (scales_out-unscaled bar seen e₂) h))
            ]
          ]
        ]

    abbrev KeptBelow : ℕ → Round Real → Type 0
    KeptBelow bound (closed res) = Booked init_stop res × (res.exit_index < bound)
    KeptBelow bound (running st) = IsOpen init_stop st

    sim_loop-KeptBelow :
        (bars : List (Bar Real)) (idx : ℕ) (st : SimState Real)
        → IsOpen init_stop st
        → KeptBelow (idx + length bars) (sim_loop cfg entry init_stop idx bars st)
    unfolding sim_loop
    sim_loop-KeptBelow [] idx st h = h
    sim_loop-KeptBelow (bar ∷ bars) idx st h =
        next (sim_bar cfg entry init_stop idx bar st) (sim_bar-Kept idx bar st h)
          (sim_loop-KeptBelow bars (suc idx))
      where
        next :
            (r : Round Real)
            → Kept idx r
            → ((st : SimState Real)
                → IsOpen init_stop st
                → KeptBelow
                    (suc idx + length bars)
                    (sim_loop cfg entry init_stop (suc idx) bars st))
            → KeptBelow (idx + suc (length bars)) (elim r [
              | closed res ↦ closed res
              | running st' ↦ sim_loop cfg entry init_stop (suc idx) bars st'
            ])
        next (closed res) k ih = (k.0, omega (arith, ap (λ (t : ℕ). t) k.1))
        next (running st') k ih = rw (shift idx (length bars)) (ih st' k)

    exit_index-close_at :
        (reason : Reason) (price r : Real) (idx : ℕ) (st : SimState Real)
        → (close_at reason price r idx st).exit_index ≡ idx
    unfolding close_at
    exit_index-close_at reason price r idx st = refl

    session_close-Booked :
        (last : Bar Real) (bound : ℕ) (r : Round Real)
        → KeptBelow (0 + suc bound) r
        → Booked init_stop (session_close entry init_stop last bound r)
          × ((session_close entry init_stop last bound r).exit_index < suc bound)
    unfolding session_close
    session_close-Booked last bound (closed res) k = (k.0, omega arith)
    session_close-Booked last bound (running st) k =
        let r = (last.close ⊖ entry) ⊘ (entry ⊖ init_stop) in
        (
          close_at-Booked Reason.session_end last.close r bound st tt k,
          omega (arith, exit_index-close_at Reason.session_end last.close r bound st),
        )

  -- A trade that `simulate_exit` runs (a positive risk, and a bar at least) is closed within its bars,
  -- by one fill or by one scale-out and one more fill; the last fill carries the reason of the
  -- result, and a `stop_loss` is filled exactly at the initial stop.
  pub simulate_exit-Booked :
      (entry init_stop : Real) (b : Bar Real) (bars : List (Bar Real)) (cfg : ExitConfig Real)
      → (entry ⊖ init_stop ≤? nought) ≡ false
      → Booked init_stop (simulate_exit entry init_stop (b ∷ bars) cfg)
        × ((simulate_exit entry init_stop (b ∷ bars) cfg).exit_index < length (b ∷ bars))
  unfolding simulate_exit
  simulate_exit-Booked entry init_stop b bars cfg positive = rw positive (
      session_close-Booked cfg entry init_stop (last_bar b bars) (length bars)
        (sim_loop cfg entry init_stop 0 (b ∷ bars) (sim_start entry init_stop))
        (sim_loop-KeptBelow cfg entry init_stop (b ∷ bars) 0 (sim_start entry init_stop)
          (omega arith, tt)))
