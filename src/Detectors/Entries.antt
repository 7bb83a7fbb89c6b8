-- ===== src/Detectors/Entries.antt =====
-- strategy/evaluation/vwap_pullback_entry.py and runner_propensity.py: what is found, and the tiers.
use momentum_system.Prelude.{
  ℕ, suc, ◌+◌, ◌≤◌, ◌<◌, ◌≡◌, ◌⊎◌, refl, ap, true, false, Option, none, some, inl, inr, List, [],
  ◌∷◌, ◌++◌, length, All, Bool-cases, arith,
}
use momentum_system.Float.{Float, Real, rank, nought, ◌≤?◌}
use momentum_system.Detectors.Entry.{
  ForwardBar, PullbackEntry, reclaims, reclaim_from, find_vwap_pullback_entry, gap_tier_of,
  price_tier_of, gap_of, runner_propensity,
}

module _ ⦃n : Float⦄ where
  -- The average price is positive, within the bar from its low to its close, and the stop is below.
  abbrev pub Reclaims : ForwardBar Real → Type 0
  Reclaims b =
      (rank nought < rank b.vwap)
      × (rank b.low ≤ rank b.vwap)
      × (rank b.vwap ≤ rank b.close)
      × (rank b.low < rank b.close)

  -- The entry is on the first bar that reclaims, from the `i`-th on, or there is none.
  abbrev pub FirstReclaim : ℕ → List (ForwardBar Real) → PullbackEntry Real → Type 0
  FirstReclaim i bars r =
      ((pre : List (ForwardBar Real)) × (b : ForwardBar Real) × (post : List (ForwardBar Real))
        × (bars ≡ pre ++ b ∷ post)
        × All (λ c. ¬ Reclaims c) pre
        × Reclaims b
        × (r.found ≡ true)
        × (r.entry_idx ≡ some (i + length pre))
        × (r.entry_price ≡ some b.close)
        × (r.stop_price ≡ some b.low))
      ⊎ (All (λ c. ¬ Reclaims c) bars × (r.found ≡ false) × (r.entry_idx ≡ none))

  pass_on :
      (i : ℕ) (b : ForwardBar Real) (bars : List (ForwardBar Real)) (r : PullbackEntry Real)
      → ¬ Reclaims b
      → FirstReclaim (suc i) bars r
      → FirstReclaim i (b ∷ bars) r
  pass_on i b bars r not_b (inr (none_does, out, idx)) = inr ((not_b, none_does), out, idx)
  pass_on i b bars r not_b (inl (pre, c, post, e, clear, does, found, idx, price, stop)) =
      let shift : suc i + length pre ≡ i + suc (length pre) = omega arith in
      inl (
        b ∷ pre,
        c,
        post,
        ap (λ xs. b ∷ xs) e,
        (not_b, clear),
        does,
        found,
        rw (← shift) idx,
        price,
        stop,
      )

  reclaim_from-FirstReclaim :
      (i : ℕ) (bars : List (ForwardBar Real)) → FirstReclaim i bars (reclaim_from i bars)
  unfolding reclaim_from
  reclaim_from-FirstReclaim i [] = inr (tt, refl, refl)
  reclaim_from-FirstReclaim i (b ∷ bars) =
      let rest = reclaim_from-FirstReclaim (suc i) bars in
      let r = reclaim_from (suc i) bars in
      elim (Bool-cases (b.vwap ≤? nought)) [
        | inl e ↦ rw e (pass_on i b bars r (λ d. ground arith) rest)
        | inr e ↦ elim (Bool-cases (reclaims b)) [
          | inl f ↦
              rw (e, f)
                (inl ([], b, bars, refl, tt, ground arith, refl, ap some (omega arith), refl, refl))
          | inr f ↦ rw (e, f) (pass_on i b bars r (λ d. ground arith) rest)
        ]
      ]

  -- The entry is taken on the first bar that dips to a positive average price and closes at or above
  -- it and above its low: at its close, with the stop at its low, under the index of the bar; if no
  -- bar does, nothing is found.
  pub find_vwap_pullback_entry-FirstReclaim :
      (bars : List (ForwardBar Real)) → FirstReclaim 0 bars (find_vwap_pullback_entry bars)
  unfolding find_vwap_pullback_entry
  find_vwap_pullback_entry-FirstReclaim [] = inr (tt, refl, refl)
  find_vwap_pullback_entry-FirstReclaim (b ∷ bars) = reclaim_from-FirstReclaim 0 (b ∷ bars)

  gap_tier_mono :
      (x y : Real)
      → rank x ≤ rank y
      → (gap_tier_of (some x) ≤ gap_tier_of (some y)) × (gap_tier_of (some y) ≤ 3)
  unfolding gap_tier_of
  gap_tier_mono x y h = ground arith

  price_tier-le : (cheap mid : Real) (price : Option Real) → price_tier_of cheap mid price ≤ 2
  unfolding price_tier_of
  price_tier-le cheap mid none = omega arith
  price_tier-le cheap mid (some x) = ground arith

  -- A gap before the open that is no smaller has a tier that is no lower, whatever the gap at the
  -- open, and no tier is above 5.
  pub runner_propensity_mono :
      (price gap_pct : Option Real) (x y cheap mid : Real)
      → rank x ≤ rank y
      → let low = runner_propensity price gap_pct (some x) cheap mid in
        let high = runner_propensity price gap_pct (some y) cheap mid in
        (low.tier ≤ high.tier) × (high.tier ≤ 5)
  unfolding runner_propensity gap_of
  runner_propensity_mono price gap_pct x y cheap mid h =
      let gaps = gap_tier_mono x y h in
      let prices = price_tier-le cheap mid price in (omega (arith, gaps.0), omega (arith, gaps.1))
