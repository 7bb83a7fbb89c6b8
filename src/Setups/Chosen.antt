-- ===== src/Setups/Chosen.antt =====
-- strategy/evaluation/structure.py: what `classify_setup` returns.
use momentum_system.Prelude.{
  ℕ, ◌≤◌, ◌≡◌, ◌⊎◌, inl, inr, refl, String, true, false, Option, none, some, List, [], ◌∷◌, length,
  filter, if◌then◌else◌, All, Bool-cases, if_elim, sym, arith,
}
use momentum_system.Float.{Float, Real, rank, lit, nought, ◌<?◌}
use momentum_system.Setups.Data.{Frame, no_setup, refused, StructureDetectionResult}
use momentum_system.Setups.Opening.{detect_opening_range_breakout}
use momentum_system.Setups.Classify.{is_accepted, best_of, pick, detectors, classify_setup}
use momentum_system.Setups.Yields.{Yields, yields}
use momentum_system.Setups.Sound.{Sound, Levels, Legs, detect_bull_flag-Sound}
use momentum_system.Setups.Leveled.{
  detect_gap_and_go-Sound, detect_hod_break-Sound, detect_opening_range_breakout-Sound,
}
use momentum_system.Setups.Legged.{detect_first_pullback-Sound, detect_continuation_fallback-Sound}

module _ ⦃n : Float⦄ (enabled : List String) (min_quality : Real) where
  -- Nothing, or a result that may be taken, with its levels, and its legs in order.
  abbrev pub Chosen : ℕ → StructureDetectionResult Real → Type 0
  Chosen k r =
      ((r.is_valid ≡ false) × (r.setup_type ≡ no_setup))
      ⊎ ((is_accepted enabled min_quality r ≡ true)
          × Levels r
          × ((r.impulse_start_idx ≡ none) ⊎ Legs k r))

  accepted-Chosen :
      (k : ℕ) (r : StructureDetectionResult Real)
      → is_accepted enabled min_quality r ≡ true
      → Sound k r
      → Chosen k r
  unfolding is_accepted
  accepted-Chosen k r h (inl e) = ground arith
  accepted-Chosen k r h (inr (l, s)) = inr (h, l, s)

  accepted-All :
      (k : ℕ) (rs : List (StructureDetectionResult Real))
      → All (Sound k) rs
      → All (Chosen k) (filter (is_accepted enabled min_quality) rs)
  accepted-All k [] h = tt
  accepted-All k (r ∷ rs) h = elim (Bool-cases (is_accepted enabled min_quality r)) [
    | inl e ↦ rw e (accepted-Chosen k r e h.0, accepted-All k rs h.1)
    | inr e ↦ rw e (accepted-All k rs h.1)
  ]

  best_of-Chosen :
      (k : ℕ) (best : StructureDetectionResult Real) (rs : List (StructureDetectionResult Real))
      → Chosen k best
      → All (Chosen k) rs
      → Chosen k (best_of best rs)
  unfolding best_of
  best_of-Chosen k best [] h hs = h
  best_of-Chosen k best (r ∷ rs) h hs =
      let better = best.quality_score <? r.quality_score in
      best_of-Chosen k (if better then r else best) rs
        (if_elim (Chosen k) {b = better} {x = r} {y = best} (λ e. hs.0) (λ e. h)) hs.1

  pick-Chosen :
      (k : ℕ) (rs : List (StructureDetectionResult Real)) → All (Chosen k) rs → Chosen k (pick rs)
  unfolding pick refused
  pick-Chosen k [] h = inl (refl, refl)
  pick-Chosen k (r ∷ rs) h = best_of-Chosen k r rs h.0 h.1

  detectors-Sound :
      (bars : Frame Real) (premarket_high session_high : Option Real)
      → Yields (All (Sound (length bars.rows))) (detectors bars premarket_high session_high)
  unfolding detectors
  detectors-Sound bars premarket_high session_high =
      let rows = bars.rows in
      let flag = detect_bull_flag-Sound rows 3 10 (lit 15 1000) (omega arith) in
      let pullback = detect_first_pullback-Sound rows 5 (lit 6 10) 120 (omega arith) in
      let gap = detect_gap_and_go-Sound rows premarket_high (lit 2 100) in
      let hod = detect_hod_break-Sound rows session_high in
      let fallback =
        detect_continuation_fallback-Sound rows 40 25 (lit 15 1000) (lit 65 100) (omega arith) in
      rw (flag.returns, pullback.returns, gap.returns, hod.returns, fallback.returns)
        (yields _ (flag.holds, (pullback.holds, (gap.holds, (hod.holds, (fallback.holds, tt))))))

  module _ (mean : List Real → Real) (bars : Frame Real)
      (premarket_high session_high : Option Real) where
    -- On any frame of bars `classify_setup` returns, and raises nothing. The result says that there
    -- is no setup, or it is one that may be taken: valid, enabled, and of the least quality at least.
    -- It then has both levels, and if it names its legs, they are in order and in the frame.
    pub classify_setup-Chosen :
        Yields
          (Chosen (length bars.rows))
          (classify_setup mean enabled bars premarket_high session_high min_quality)
    unfolding classify_setup
    classify_setup-Chosen =
        let k = length bars.rows in
        let orb =
          detect_opening_range_breakout-Sound mean k bars 5 (lit 4 1000) nought (omega arith) in
        let found = detectors-Sound bars premarket_high session_high in
        elim (Bool-cases (is_accepted enabled min_quality orb.value)) [
          | inl e ↦ rw (orb.returns, e) (yields _ (accepted-Chosen k orb.value e orb.holds))
          | inr e ↦
              rw (orb.returns, e, found.returns)
                (yields _ (pick-Chosen k _ (accepted-All k found.value found.holds)))
        ]

  best_of-ge :
      (best : StructureDetectionResult Real) (rs : List (StructureDetectionResult Real))
      → (rank best.quality_score ≤ rank (best_of best rs).quality_score)
        × All (λ r. rank r.quality_score ≤ rank (best_of best rs).quality_score) rs
  unfolding best_of
  best_of-ge best [] = (omega arith, tt)
  best_of-ge best (r ∷ rs) =
      let next = if best.quality_score <? r.quality_score then r else best in
      let (l, hs) = best_of-ge next rs in
      let kept : rank best.quality_score ≤ rank next.quality_score = ground arith in
      let beaten : rank r.quality_score ≤ rank next.quality_score = ground arith in
      (omega (arith, l, kept), (omega (arith, l, beaten), hs))

  pick-ge :
      (rs : List (StructureDetectionResult Real))
      → All (λ r. rank r.quality_score ≤ rank (pick rs).quality_score) rs
  unfolding pick
  pick-ge [] = tt
  pick-ge (r ∷ rs) = best_of-ge r rs

  -- the quality of each result that may be taken is not above `top`
  abbrev pub Below : ℕ → StructureDetectionResult Real → Type 0
  Below top r = (is_accepted enabled min_quality r ≡ false) ⊎ (rank r.quality_score ≤ top)

  filter-Below :
      (top : ℕ) (rs : List (StructureDetectionResult Real))
      → All (λ r. rank r.quality_score ≤ top) (filter (is_accepted enabled min_quality) rs)
      → All (Below top) rs
  filter-Below top [] h = tt
  filter-Below top (r ∷ rs) h = elim (Bool-cases (is_accepted enabled min_quality r)) [
    | inl e ↦ (let (l, hs) = rw e at h in (inr l, filter-Below top rs hs))
    | inr e ↦ (inl e, filter-Below top rs (rw e at h))
  ]

  -- Where the opening-range breakout may not be taken, `classify_setup` returns one of the greatest
  -- quality: each of the five other detectors' results is not above it, or may not be taken.
  pub classify_setup-greatest :
      (mean : List Real → Real) (bars : Frame Real) (premarket_high session_high : Option Real)
      (orb best : StructureDetectionResult Real) (found : List (StructureDetectionResult Real))
      → detect_opening_range_breakout mean bars 5 (lit 4 1000) nought ≡ some orb
      → is_accepted enabled min_quality orb ≡ false
      → detectors bars premarket_high session_high ≡ some found
      → classify_setup mean enabled bars premarket_high session_high min_quality ≡ some best
      → All (Below (rank best.quality_score)) found
  unfolding classify_setup
  classify_setup-greatest mean bars premarket_high session_high orb best found ran refused' ran' h =
      let taken = filter (is_accepted enabled min_quality) found in
      let chosen : pick taken ≡ best = ground (arith, ran, refused', ran', h) in
      rw (sym chosen) (filter-Below (rank (pick taken).quality_score) found (pick-ge taken))
