-- ===== src/Setups/Flag.antt =====
-- strategy/evaluation/structure.py: `detect_bull_flag`.
use momentum_system.Prelude.{
  ◌>>=◌, ℕ, suc, ◌+◌, ◌-◌, min, Option, none, some, List, [], ◌∷◌, length, drop, get_elem?, ltb,
  leb, if◌then◌else◌,
}
use momentum_system.Float.{Float, Real, lit, nought, one, ◌⊕◌, ◌⊖◌, ◌⊗◌, ◌⊘◌, ◌≤?◌, fmax, fmin}
use momentum_system.Setups.Data.{
  BarRow, bull_flag, insufficient_bars, no_impulse, no_consolidation, consolidation_too_short,
  StructureDetectionResult, slice, as_real, max_of, min_of, refused, with_legs,
}

module _ ⦃n : Float⦄ where
  -- the search for the impulse: rows and the rows `min_impulse_bars` later, which is where `i` stands
  unfoldable pub find_impulse : Real → ℕ → List (BarRow Real) → List (BarRow Real) → Option ℕ
  find_impulse pct i olds [] = none
  find_impulse pct i [] (c ∷ cs) = none
  find_impulse pct i (o ∷ os) (c ∷ cs) =
      let rest = find_impulse pct (suc i) os cs in
      if pct ≤? ((c.close ⊖ o.close) ⊘ o.close) then some i else rest

  -- the end of the consolidation: the rows from `i` on, while their range does not expand
  unfoldable pub contract : ℕ → Real → ℕ → List (BarRow Real) → ℕ
  contract i prev_range found [] = found
  contract i prev_range found (r ∷ rs) =
      let range = r.high ⊖ r.low in
      let rest = contract (suc i) (fmin prev_range range) i rs in
      if range ≤? (prev_range ⊗ lit 12 10) then rest else found

  unfoldable pub flag_quality : ℕ → ℕ → Real → Real → Real
  flag_quality bars max_bars impulse_pct depth =
      let impulse_quality = fmin one (impulse_pct ⊘ lit 1 10) in
      let consolidation_quality = fmax nought (one ⊖ (as_real bars ⊘ as_real max_bars)) in
      let depth_quality = fmax nought (one ⊖ (depth ⊘ lit 5 100)) in
      impulse_quality ⊗ lit 4 10 ⊕ consolidation_quality ⊗ lit 3 10 ⊕ depth_quality ⊗ lit 3 10

  -- from the end of the impulse on
  unfoldable pub flag_after :
      List (BarRow Real) → ℕ → ℕ → ℕ → Option (StructureDetectionResult Real)
  flag_after rows min_impulse_bars max_consolidation_bars impulse_end =
      let start = impulse_end + 1 in
      let max_idx = min (start + max_consolidation_bars) (length rows - 1) in
      let impulse_start = impulse_end - min_impulse_bars in
      if leb (length rows) start then some (refused bull_flag no_consolidation) else do
        top ← get_elem? rows impulse_end
        let end = contract start (top.high ⊖ top.low) start (slice start max_idx rows)
        let bars = end - start + 1
        if ltb bars 2 then some (refused bull_flag consolidation_too_short) else do
          bottom ← get_elem? rows impulse_start
          first ← get_elem? rows start
          high ← max_of (λ r. r.high) (slice start (end + 1) rows)
          low ← min_of (λ r. r.low) (slice start (end + 1) rows)
          low_of_all ← min_of (λ r. r.low) (slice impulse_start (end + 1) rows)
          some (
              with_legs bull_flag impulse_start impulse_end start end high
                (fmin low_of_all (first.low ⊗ lit 995 1000))
                (flag_quality bars max_consolidation_bars
                  ((top.close ⊖ bottom.close) ⊘ bottom.close) ((high ⊖ low) ⊘ top.close)))

  unfoldable pub detect_bull_flag :
      List (BarRow Real) → ℕ → ℕ → Real → Option (StructureDetectionResult Real)
  detect_bull_flag rows min_impulse_bars max_consolidation_bars min_impulse_pct =
      if ltb (length rows) (min_impulse_bars + 2)
      then some (refused bull_flag insufficient_bars)
      else elim (find_impulse min_impulse_pct min_impulse_bars rows (drop min_impulse_bars rows)) [
        | none ↦ some (refused bull_flag no_impulse)
        | some impulse_end ↦ flag_after rows min_impulse_bars max_consolidation_bars impulse_end
      ]
