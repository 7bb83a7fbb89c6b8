-- ===== src/Setups/Range.antt =====
-- strategy/evaluation/structure.py: the opening range and its breakout.
use momentum_system.Prelude.{
  ℕ, ◌+◌, ◌<◌, ◌≤◌, ◌≡◌, inl, inr, refl, Bool, true, false, some, List, [], length, take, drop, ltb,
  Bool-cases, Option-cases, arith,
}
use momentum_system.Float.{Float, Real, rank, lit, nought, one, ◌⊕◌, ◌⊗◌}
use momentum_system.Exits.Data.{is_empty}
use momentum_system.Setups.Data.{
  BarRow, Frame, StructureDetectionResult, refused, last_row, max_of, min_of,
}
use momentum_system.Setups.Opening.{
  regular, opening_range, orb_quality, break_of, detect_opening_range_breakout,
}

module _ ⦃n : Float⦄ (mean : List Real → Real) where
  -- A breakout of a range: entered at the high, stopped below the low, after a close over the high.
  pub record BreaksOut (bars : Frame Real) (orb_bars : ℕ) (break_pct : Real)
      (r : StructureDetectionResult Real) : Type 0 where
    pub high : Real
    pub low : Real
    pub last : BarRow Real
    pub range :
        opening_range bars orb_bars
        ≡ some (record { high = some high; low = some low; complete = true })
    pub entered : r.breakout_level ≡ some high
    pub stopped : r.stop_level ≡ some (low ⊗ lit 995 1000)
    pub risky : rank (low ⊗ lit 995 1000) < rank high
    pub latest : last_row (drop orb_bars (regular bars)) ≡ some last
    pub broke : rank (high ⊗ (one ⊕ break_pct)) ≤ rank last.close
    pub scored : rank nought ≤ rank r.quality_score

  break_of-levels :
      (has_volume : Bool) (break_pct high low : Real) (orb after : List (BarRow Real))
      (last : BarRow Real) (r : StructureDetectionResult Real)
      → last_row after ≡ some last
      → break_of mean has_volume break_pct high low orb after ≡ some r
      → r.is_valid ≡ true
      → (r.breakout_level ≡ some high)
        × (r.stop_level ≡ some (low ⊗ lit 995 1000))
        × (rank (low ⊗ lit 995 1000) < rank high)
        × (rank (high ⊗ (one ⊕ break_pct)) ≤ rank last.close)
        × (rank nought ≤ rank r.quality_score)
  unfolding break_of refused orb_quality
  break_of-levels has_volume pct high low orb after last r l h v = ground arith

  break_of-last :
      (has_volume : Bool) (break_pct high low : Real) (orb after : List (BarRow Real))
      (r : StructureDetectionResult Real)
      → break_of mean has_volume break_pct high low orb after ≡ some r
      → (last : BarRow Real) × (last_row after ≡ some last)
  unfolding break_of
  break_of-last has_volume pct high low orb after r h = elim (Option-cases (last_row after)) [
    | inl e ↦ ground (arith, e, h)
    | inr found ↦ found
  ]

  regular-empty : (bars : Frame Real) → bars.rows ≡ [] → regular bars ≡ []
  unfolding regular
  regular-empty bars e = ground arith

  -- `opening_range` on bars that have a range
  range_of :
      (bars : Frame Real) (orb_bars : ℕ) (high low : Real)
      → ltb (length (regular bars)) (orb_bars + 1) ≡ false
      → max_of (λ r. r.high) (take orb_bars (regular bars)) ≡ some high
      → min_of (λ r. r.low) (take orb_bars (regular bars)) ≡ some low
      → opening_range bars orb_bars
        ≡ some (record { high = some high; low = some low; complete = true })
  unfolding opening_range
  range_of bars k high low long h l =
      let enough : ltb (length (regular bars)) k ≡ false = ground (arith, long) in
      elim (Bool-cases (is_empty bars.rows)) [
        | inl e ↦
            (let none_left : regular bars ≡ [] = regular-empty bars (ground (arith, e)) in
              ground (arith, none_left, long))
        | inr e ↦ rw (e, enough, h, l) refl
      ]

  -- A valid opening-range breakout is one of the range that `opening_range` gives for the same bars
  -- and the same number of bars: it enters at the high, its stop is half a percent under the low and
  -- below the entry, the last bar after the range closes at the high and the margin or over it, and
  -- the quality is not negative.
  pub detect_opening_range_breakout-BreaksOut :
      (bars : Frame Real) (orb_bars : ℕ) (range_pct break_pct : Real)
      (r : StructureDetectionResult Real)
      → detect_opening_range_breakout mean bars orb_bars range_pct break_pct ≡ some r
      → r.is_valid ≡ true
      → BreaksOut bars orb_bars break_pct r
  unfolding detect_opening_range_breakout refused
  detect_opening_range_breakout-BreaksOut bars k range_pct break_pct r h v =
      let rth = regular bars in
      elim (Bool-cases (ltb (length rth) (k + 1))) [
        | inl e ↦ ground (arith, e, h, v)
        | inr e ↦ elim (Option-cases (max_of (λ r. r.high) (take k rth))) [
          | inl f ↦ ground (arith, e, f, h, v)
          | inr (high, f) ↦ elim (Option-cases (min_of (λ r. r.low) (take k rth))) [
            | inl g ↦ ground (arith, e, f, g, h, v)
            | inr (low, g) ↦
                (let orb = take k rth in
                  let after = drop k rth in
                  let ran : break_of mean bars.has_volume break_pct high low orb after ≡ some r =
                    ground (arith, e, f, g, h, v) in
                  let (last, l) =
                    break_of-last bars.has_volume break_pct high low orb after r ran in
                  let (entered, stopped, risky, broke, scored) =
                    break_of-levels bars.has_volume break_pct high low orb after last r l ran v in
                  record {
                    high = high;
                    low = low;
                    last = last;
                    range = range_of bars k high low e f g;
                    entered = entered;
                    stopped = stopped;
                    risky = risky;
                    latest = l;
                    broke = broke;
                    scored = scored;
                  })
          ]
        ]
      ]
