-- ===== src/Exits/Ratchet.antt =====
-- The protective stop of strategy/exits.py only moves up.
use momentum_system.Prelude.{◌≤◌, ◌≡◌, refl, List, [], ◌∷◌, ◌++◌, if◌then◌else◌, Bool, arith}
use momentum_system.Float.{Float, Real, rank, one, ◌⊕◌, ◌⊖◌, ◌⊗◌, ◌⊘◌, ◌≤?◌, fmax}
use momentum_system.Exits.Data.{Bar, ExitConfig}
use momentum_system.Exits.Trail.{
  lock_tiers, breakeven_by_r, breakeven_by_pct, trailed, step_trailed, profit_locked, trail_stop_of,
}
use momentum_system.Exits.Manage.{live_walk}

module _ ⦃n : Float⦄ where
  ge-fmax_if : (t : Bool) (a b : Real) → rank a ≤ rank (if t then fmax a b else a)
  ge-fmax_if t a b = ground arith

  lock_tiers-ge :
      (entry gain : Real) (tiers : List (Real × Real)) (new : Real)
      → rank new ≤ rank (lock_tiers entry gain tiers new)
  unfolding lock_tiers
  lock_tiers-ge entry gain [] new = ground arith
  lock_tiers-ge entry gain ((g, l) ∷ tiers) new = omega (
    arith,
    ge-fmax_if (g ≤? gain) new (entry ⊗ (one ⊕ l)),
    lock_tiers-ge entry gain tiers (if g ≤? gain then fmax new (entry ⊗ (one ⊕ l)) else new),
  )

  module _ (cfg : ExitConfig Real) (entry high_water bar_low reached_r new : Real) where
    breakeven_by_r-ge : rank new ≤ rank (breakeven_by_r cfg entry reached_r new)
    unfolding breakeven_by_r
    breakeven_by_r-ge = ground arith

    breakeven_by_pct-ge : rank new ≤ rank (breakeven_by_pct cfg entry high_water new)
    unfolding breakeven_by_pct
    breakeven_by_pct-ge = ground arith

    trailed-ge : rank new ≤ rank (trailed cfg high_water bar_low reached_r new)
    unfolding trailed
    trailed-ge = ground arith

    step_trailed-ge : rank new ≤ rank (step_trailed cfg entry high_water reached_r new)
    unfolding step_trailed
    step_trailed-ge = ground arith

    profit_locked-ge : rank new ≤ rank (profit_locked cfg entry high_water new)
    unfolding profit_locked
    profit_locked-ge =
        ground (arith, lock_tiers-ge entry ((high_water ⊖ entry) ⊘ entry) cfg.profit_lock_tiers new)

  -- Whatever the configuration, the stop after a bar is not below the stop before it.
  pub trail_stop_of-ge :
      (stop entry high_water bar_low reached_r : Real) (cfg : ExitConfig Real)
      → rank stop ≤ rank (trail_stop_of stop entry high_water bar_low reached_r cfg)
  unfolding trail_stop_of
  trail_stop_of-ge stop entry high_water bar_low reached_r cfg =
      let a = breakeven_by_r cfg entry reached_r stop in
      let b = breakeven_by_pct cfg entry high_water a in
      let c = trailed cfg high_water bar_low reached_r b in
      let d = step_trailed cfg entry high_water reached_r c in
      omega (
        arith,
        breakeven_by_r-ge cfg entry high_water bar_low reached_r stop,
        breakeven_by_pct-ge cfg entry high_water bar_low reached_r a,
        trailed-ge cfg entry high_water bar_low reached_r b,
        step_trailed-ge cfg entry high_water bar_low reached_r c,
        profit_locked-ge cfg entry high_water bar_low reached_r d,
      )

  pub live_walk-append :
      (cfg : ExitConfig Real) (entry risk : Real) (xs ys : List (Bar Real)) (s : Real × Real)
      → live_walk cfg entry risk (xs ++ ys) s
        ≡ live_walk cfg entry risk ys (live_walk cfg entry risk xs s)
  unfolding live_walk
  live_walk-append cfg entry risk [] ys (stop, high_water) = refl
  live_walk-append cfg entry risk (bar ∷ xs) ys (stop, high_water) =
      let high = fmax high_water bar.high in
      live_walk-append cfg entry risk xs ys
        (trail_stop_of stop entry high bar.low ((high ⊖ entry) ⊘ risk) cfg, high)

  pub live_walk-ge :
      (cfg : ExitConfig Real) (entry risk : Real) (bars : List (Bar Real)) (s : Real × Real)
      → rank s.0 ≤ rank (live_walk cfg entry risk bars s).0
  unfolding live_walk
  live_walk-ge cfg entry risk [] (stop, high_water) = omega arith
  live_walk-ge cfg entry risk (bar ∷ bars) (stop, high_water) =
      let high = fmax high_water bar.high in
      let reached_r = (high ⊖ entry) ⊘ risk in
      omega (
        arith,
        trail_stop_of-ge stop entry high bar.low reached_r cfg,
        live_walk-ge cfg entry risk bars
            (trail_stop_of stop entry high bar.low reached_r cfg, high),
      )
