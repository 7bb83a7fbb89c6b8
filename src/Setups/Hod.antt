-- ===== src/Setups/Hod.antt =====
-- strategy/evaluation/structure.py: `detect_hod_break`.
use momentum_system.Prelude.{
  ◌>>=◌, ℕ, suc, ◌-◌, Option, none, some, List, [], ◌∷◌, length, count, drop, ltb, if◌then◌else◌,
}
use momentum_system.Float.{Float, Real, lit, one, ◌⊕◌, ◌⊗◌, ◌⊘◌, ◌<?◌, ◌=?◌, fmin}
use momentum_system.Setups.Data.{
  BarRow, hod_break, insufficient_bars, no_recent_high, waiting_for_high, StructureDetectionResult,
  slice, as_real, last_row, max_of, min_of, refused, without_legs,
}
use momentum_system.Setups.Gap.{given_or}

module _ ⦃n : Float⦄ where
  -- the first row whose high is the level; `i` is the first of the rows
  unfoldable pub index_of_high : ℕ → Real → List (BarRow Real) → Option ℕ
  index_of_high i level [] = none
  index_of_high i level (r ∷ rs) =
      let rest = index_of_high (suc i) level rs in if r.high =? level then some i else rest

  -- from the row of the high of the day on
  unfoldable pub hod_at : List (BarRow Real) → Real → ℕ → Option (StructureDetectionResult Real)
  hod_at rows hod at =
      let zone = slice (at - 10) at rows in
      let touches = count (λ r. (hod ⊗ lit 995 1000) <? r.high) zone in
      let quality = fmin one (as_real touches ⊘ lit 3 1) ⊗ lit 7 10 ⊕ lit 3 10 in
      if ltb at (length rows - 5) then some (refused hod_break no_recent_high) else do
        last ← last_row rows
        if last.close <? (hod ⊗ lit 99 100) then some (refused hod_break waiting_for_high) else do
          low ← min_of (λ r. r.low) (drop (length rows - 5) rows)
          some (without_legs hod_break hod (low ⊗ lit 995 1000) quality)

  unfoldable pub hod_found : List (BarRow Real) → Real → Option (StructureDetectionResult Real)
  hod_found rows hod = elim (index_of_high 0 hod rows) [
    | none ↦ some (refused hod_break no_recent_high)
    | some at ↦ hod_at rows hod at
  ]

  unfoldable pub detect_hod_break :
      List (BarRow Real) → Option Real → Option (StructureDetectionResult Real)
  detect_hod_break rows session_high =
      if ltb (length rows) 10
      then some (refused hod_break insufficient_bars)
      else do hod ← given_or session_high (max_of (λ r. r.high) rows); hod_found rows hod
