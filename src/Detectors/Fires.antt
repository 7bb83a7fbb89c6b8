-- ===== src/Detectors/Fires.antt =====
-- strategy/evaluation/ignition.py and runner.py: on which bars the detectors fire.
use momentum_system.Prelude.{
  ℕ, ◌≤◌, ◌<◌, ◌≡◌, refl, Bool, true, false, ◌&&◌, Option, none, some, inl, inr, List, [], ◌∷◌,
  length, ltb, leb, All, Bool-cases, arith,
}
use momentum_system.Float.{Float, Real, rank, ◌≤?◌}
use momentum_system.Columns.{Columns}
use momentum_system.Setups.Data.{BarRow, last_row}
use momentum_system.Setups.Yields.{Yields, yields, last_row-Yields}
use momentum_system.Detectors.Data.{
  ShadowSignal, not_blue_sky, velocity_failed, volume_failed, momentum_ignition, last_higher_low,
  lows_of, volumes_of, gain, burst_ratio,
}
use momentum_system.Detectors.Ignition.{
  IgnitionConfig, IgnitionValues, above, bars_needed, ignition_of, detect_momentum_ignition,
}
use momentum_system.Detectors.HigherLow.{IsStop, last_higher_low-IsStop}
use momentum_system.Detectors.Gates.{
  Gated, gated-Gated, max_of-Bounds, row_back-Yields, rising_count-Yields, greens_of_last,
  green_count-greens,
}

module _ ⦃n : Float⦄ where
  -- The bars end on the highest of their highs.
  abbrev pub EndsOnHigh : List (BarRow Real) → Real → Type 0
  EndsOnHigh rows high =
      All (λ r. rank r.high ≤ rank high) rows
      × ((last : BarRow Real) × (last_row rows ≡ some last) × (rank high ≤ rank last.high))

  abbrev EndsOn : List (BarRow Real) → BarRow Real → Type 0
  EndsOn rows last = last_row rows ≡ some last

  both : (a b : Bool) → (a && b) ≡ true → (a ≡ true) × (b ≡ true)
  both true true h = (refl, refl)
  both true false h = ground arith
  both false b h = ground arith

  -- A level of the signal, rounded to the hundredth of a cent.
  abbrev pub Rounded : Option Real → (Real → Type 0) → Type 0
  Rounded level P = (x : Real) × (level ≡ some (n.round x 4)) × P x

  above-some :
      (ath : Option Real) (high : Real)
      → above ath high ≡ true
      → (x : Real) × (ath ≡ some x) × (rank x < rank high)
  above-some none high h = ground arith
  above-some (some x) high h = (x, refl, ground arith)

  module _ (pd : Columns) (k : IgnitionConfig Real) (rows : List (BarRow Real))
      (prior_ath : Option Real) where
    -- What a valid signal says of the bars.
    abbrev pub Ignites : ShadowSignal Real (IgnitionValues Real) → Type 0
    Ignites s =
        s.is_valid ≡ true
        → (bars_needed k ≤ length rows)
          × (k.green_min ≤ greens_of_last k.green_lookback rows)
          × Rounded s.level (λ high.
            EndsOnHigh rows high × ((ath : Real) × (prior_ath ≡ some ath) × (rank ath < rank high)))
          × Rounded s.stop_level (IsStop (lows_of rows))

    ignition_of-Ignites :
        (last : BarRow Real) (high base : Real) (highs : ℕ)
        → bars_needed k ≤ length rows
        → EndsOn rows last
        → All (λ r. rank r.high ≤ rank high) rows
        → Ignites (
            ignition_of pd k rows prior_ath last high base
              (greens_of_last k.green_lookback rows)
              highs)
    unfolding ignition_of
    ignition_of-Ignites last high base highs long ends most =
        let cum_volume = pd.sum (volumes_of rows) in
        let new_hod = high ≤? last.high in
        let velocity = gain last.close base in
        let greens = greens_of_last k.green_lookback rows in
        let velocity_ok =
          (k.velocity_min ≤? velocity) && leb k.green_min greens && leb k.green_min highs in
        let burst = burst_ratio pd rows k.burst_window last.volume in
        let volume_ok = (k.burst_mult ≤? burst) && (k.abs_vol_floor ≤? cum_volume) in
        let gates =
          (new_hod && above prior_ath high, not_blue_sky)
          ∷ (velocity_ok, velocity_failed)
          ∷ (volume_ok, volume_failed)
          ∷ [] in
        let stop = last_higher_low (lows_of rows) in
        let shape : Gated gates (n.round high 4) (n.round stop 4) (
            ignition_of pd k rows prior_ath last high base (greens_of_last k.green_lookback rows)
              highs) =
          gated-Gated gates _ momentum_ignition (n.round high 4) (n.round stop 4) in
        λ h.
          let opened = shape.0.0 h in
          let levels = shape.1 h in
          let first = both new_hod (above prior_ath high) opened.0 in
          let second =
            both ((k.velocity_min ≤? velocity) && leb k.green_min greens) (leb k.green_min highs)
              opened.1.0 in
          let third = both (k.velocity_min ≤? velocity) (leb k.green_min greens) second.0 in
          (
            long,
            ground (arith, third.1),
            (
              high,
              levels.0,
              ((most, (last, ends, ground (arith, first.0))), above-some prior_ath high first.1),
            ),
            (stop, levels.1, last_higher_low-IsStop (lows_of rows)),
          )

    -- The detector returns, whatever the bars. If it fires, there were enough bars, the last one is at
    -- the highest of the session and above the high before the session, enough of the last ones
    -- are green, the level is that high, and the stop is the low after the last rise of the lows,
    -- or, if there is none, the least of them.
    pub detect_momentum_ignition-Ignites :
        Yields Ignites (detect_momentum_ignition pd k rows prior_ath)
    unfolding detect_momentum_ignition
    detect_momentum_ignition-Ignites = elim (Bool-cases (ltb (length rows) (bars_needed k))) [
      | inl e ↦ rw e (yields _ (λ h. ground arith))
      | inr e ↦
          let long : bars_needed k ≤ length rows = ground arith in
          let last = last_row-Yields rows (omega arith) in
          let high = max_of-Bounds (λ r. r.high) rows (omega arith) in
          let base = row_back-Yields rows k.velocity_window (omega arith) in
          let highs = rising_count-Yields rows k.green_lookback (omega arith) in
          let greens = green_count-greens rows k.green_lookback (omega arith) in
          rw (e, last.returns, high.returns, base.returns, greens, highs.returns)
            (yields _ (
              ignition_of-Ignites last.value high.value base.value.close highs.value long
                last.returns high.holds))
    ]
