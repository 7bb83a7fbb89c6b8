-- ===== src/Setups/Leveled.antt =====
-- strategy/evaluation/structure.py: the detectors without legs return, with both levels.
use momentum_system.Prelude.{
  ℕ, ◌+◌, ◌-◌, ◌<◌, ◌≤◌, min, inl, inr, Bool, Option, none, some, List, length, take, drop, ltb,
  Bool-cases, Option-cases, ◌&&◌, ◌||◌, arith,
}
use momentum_system.Float.{Float, Real, lit, nought, one, ◌⊕◌, ◌⊖◌, ◌⊗◌, ◌⊘◌, ◌<?◌, ◌≤?◌}
use momentum_system.Exits.Data.{truthy, is_empty}
use momentum_system.Setups.Data.{BarRow, Frame, max_of}
use momentum_system.Setups.Gap.{given_or, detect_gap_and_go}
use momentum_system.Setups.Hod.{index_of_high, hod_at, hod_found, detect_hod_break}
use momentum_system.Setups.Opening.{regular, break_of, detect_opening_range_breakout}
use momentum_system.Setups.Yields.{
  Any, Yields, yields, length-take, length-drop, get_elem?-Yields, last_row-Yields, max_of-Yields,
  min_of-Yields,
}
use momentum_system.Setups.Sound.{Sound, refused-Sound, without_legs-Sound}

module _ ⦃n : Float⦄ where
  given_or-Yields :
      (given : Option Real) (level : Option Real)
      → Yields Any level
      → Yields Any (given_or given level)
  given_or-Yields none level y = y
  given_or-Yields (some x) level y = elim (Bool-cases (truthy x)) [
    | inl e ↦ rw e (yields x tt)
    | inr e ↦ rw e y
  ]

  module _ (rows : List (BarRow Real)) where
    first_rows : (k : ℕ) → 0 < k → 0 < length rows → 0 < length (take (min k (length rows)) rows)
    first_rows k h l = omega (arith, h, l, length-take (min k (length rows)) rows)

    pub detect_gap_and_go-Sound :
        (premarket_high : Option Real) (min_gap_pct : Real)
        → Yields (Sound (length rows)) (detect_gap_and_go rows premarket_high min_gap_pct)
    unfolding detect_gap_and_go
    detect_gap_and_go-Sound premarket_high pct = elim (Bool-cases (ltb (length rows) 5)) [
      | inl e ↦ rw e (refused-Sound _ _ _)
      | inr e ↦
          (let long : 5 ≤ length rows = ground (arith, e) in
            let some_rows : 0 < length rows = omega (arith, long) in
            let opening = get_elem?-Yields rows 0 some_rows in
            let early = get_elem?-Yields rows (min (length rows - 1) 3) (omega (arith, long)) in
            let last = last_row-Yields rows some_rows in
            let reference =
              min_of-Yields (λ r. r.low) (take (min 5 (length rows)) rows)
                (first_rows 5 (omega arith) some_rows) in
            let low =
              min_of-Yields (λ r. r.low) (take (min 10 (length rows)) rows)
                (first_rows 10 (omega arith) some_rows) in
            let breakout =
              given_or-Yields premarket_high
                (max_of (λ r. r.high) (take (min 3 (length rows)) rows))
                (max_of-Yields (λ r. r.high) (take (min 3 (length rows)) rows)
                  (first_rows 3 (omega arith) some_rows)) in
            let gap_pct = (opening.value.open_price ⊖ reference.value) ⊘ reference.value in
            rw (e, opening.returns, reference.returns)
              (elim (Bool-cases (gap_pct <? pct)) [
                | inl f ↦ rw f (refused-Sound _ _ _)
                | inr f ↦
                    rw (f, breakout.returns, last.returns)
                      (elim (Bool-cases (last.value.close <? (breakout.value ⊗ lit 97 100))) [
                        | inl g ↦ rw g (refused-Sound _ _ _)
                        | inr g ↦
                            rw (g, early.returns, low.returns) (without_legs-Sound (length rows))
                      ])
              ]))
    ]

    hod_at-Sound :
        (hod : Real) (at : ℕ) → 10 ≤ length rows → Yields (Sound (length rows)) (hod_at rows hod at)
    unfolding hod_at
    hod_at-Sound hod at long =
        let last = last_row-Yields rows (omega arith) in
        let low =
          min_of-Yields (λ r. r.low) (drop (length rows - 5) rows)
            (omega (arith, length-drop (length rows - 5) rows)) in
        elim (Bool-cases (ltb at (length rows - 5))) [
          | inl e ↦ rw e (refused-Sound _ _ _)
          | inr e ↦
              rw (e, last.returns)
                (elim (Bool-cases (last.value.close <? (hod ⊗ lit 99 100))) [
                  | inl f ↦ rw f (refused-Sound _ _ _)
                  | inr f ↦ rw (f, low.returns) (without_legs-Sound (length rows))
                ])
        ]

    hod_found-Sound :
        (hod : Real) → 10 ≤ length rows → Yields (Sound (length rows)) (hod_found rows hod)
    unfolding hod_found
    hod_found-Sound hod long = elim (Option-cases (index_of_high 0 hod rows)) [
      | inl f ↦ rw (f, hod_found) (refused-Sound _ _ _)
      | inr (at, f) ↦ rw (f, hod_found) (hod_at-Sound hod at long)
    ]

    pub detect_hod_break-Sound :
        (session_high : Option Real)
        → Yields (Sound (length rows)) (detect_hod_break rows session_high)
    unfolding detect_hod_break
    detect_hod_break-Sound session_high = elim (Bool-cases (ltb (length rows) 10)) [
      | inl e ↦ rw e (refused-Sound _ _ _)
      | inr e ↦
          (let long : 10 ≤ length rows = ground (arith, e) in
            let hod =
              given_or-Yields session_high (max_of (λ r. r.high) rows)
                (max_of-Yields (λ r. r.high) rows (omega (arith, long))) in
            rw (e, hod.returns) (hod_found-Sound hod.value long))
    ]

  module _ (mean : List Real → Real) (k : ℕ) where
    break_of-Sound :
        (has_volume : Bool) (min_break_pct high low : Real) (orb after : List (BarRow Real))
        → 0 < length after
        → Yields (Sound k) (break_of mean has_volume min_break_pct high low orb after)
    unfolding break_of
    break_of-Sound has_volume pct high low orb after some_after =
        let last = last_row-Yields after some_after in
        rw last.returns (elim (Bool-cases (last.value.close <? (high ⊗ (one ⊕ pct)))) [
          | inl e ↦ rw e (refused-Sound _ _ _)
          | inr e ↦ rw e (elim (Bool-cases (high ≤? (low ⊗ lit 995 1000))) [
            | inl f ↦ rw f (refused-Sound _ _ _)
            | inr f ↦ rw f (without_legs-Sound k)
          ])
        ])

    pub detect_opening_range_breakout-Sound :
        (bars : Frame Real) (orb_bars : ℕ) (min_range_pct min_break_pct : Real)
        → 0 < orb_bars
        → Yields
            (Sound k)
            (detect_opening_range_breakout mean bars orb_bars min_range_pct min_break_pct)
    unfolding detect_opening_range_breakout
    detect_opening_range_breakout-Sound bars orb_bars range_pct break_pct pos =
        let rth = regular bars in
        elim (Bool-cases (bars.marks_hours && is_empty rth)) [
          | inl e ↦ rw e (refused-Sound _ _ _)
          | inr e ↦ rw e (elim (Bool-cases (ltb (length rth) (orb_bars + 1))) [
            | inl f ↦ rw f (refused-Sound _ _ _)
            | inr f ↦
                (let long : orb_bars + 1 ≤ length rth = ground (arith, f) in
                  let orb = take orb_bars rth in
                  let after = drop orb_bars rth in
                  let some_orb : 0 < length orb =
                    omega (arith, long, pos, length-take orb_bars rth) in
                  let some_after : 0 < length after =
                    omega (arith, long, length-drop orb_bars rth) in
                  let high = max_of-Yields (λ r. r.high) orb some_orb in
                  let low = min_of-Yields (λ r. r.low) orb some_orb in
                  let tight =
                    (high.value ≤? nought)
                    || (((high.value ⊖ low.value) ⊘ high.value) <? range_pct) in
                  rw (f, high.returns, low.returns)
                    (elim (Bool-cases tight) [
                      | inl g ↦ rw g (refused-Sound _ _ _)
                      | inr g ↦ rw g (
                          break_of-Sound bars.has_volume break_pct high.value low.value orb after
                            some_after)
                    ]))
          ])
        ]
