-- ===== src/Evaluation/Levels.antt =====
-- strategy/evaluation/levels.py
use momentum_system.Prelude.{
  ◌>>=◌, ℕ, Option, none, some, List, [], ◌∷◌, ◌++◌, map, filter, take, if◌then◌else◌,
}
use momentum_system.Float.{Float, Real, lit, nought, ◌⊕◌, ◌⊖◌, ◌⊗◌, ◌⊘◌, ◌<?◌, ◌=?◌}
use momentum_system.Exits.Data.{is_empty}
use momentum_system.Columns.{Columns}
use momentum_system.Setups.Data.{BarRow, last_row, max_of, min_of}
use momentum_system.Evaluation.Data.{Session, rows_of}

pub record KeyLevels (R : Type 0) : Type 0 where
  pub vwap : Option R
  pub ema_9 : Option R
  pub ema_20 : Option R
  pub premarket_high : Option R
  pub premarket_low : Option R
  pub opening_range_high : Option R
  pub opening_range_low : Option R
  pub high_of_day : Option R
  pub low_of_day : Option R
  pub previous_close : Option R

-- The names that the lists of levels carry.
pub data LevelName : Type 0 where
  high_of_day premarket_high opening_range_high vwap ema_9 opening_range_low low_of_day : LevelName

module _ ⦃n : Float⦄ where
  abbrev pub typical : BarRow Real → Real
  typical r = ((r.high ⊕ r.low) ⊕ r.close) ⊘ lit 3 1

  -- `.clip(lower=0)`
  abbrev pub clipped : BarRow Real → Real
  clipped r = if r.volume <? nought then nought else r.volume

  -- the row's value: of the sums so far if there is volume, else the last one, else the typical price
  abbrev pub vwap_of : Real → Real → Option Real → Option Real
  vwap_of paid traded before = if traded =? nought then before else some (paid ⊘ traded)

  abbrev or_typical : Option Real → BarRow Real → Real
  or_typical none r = typical r
  or_typical (some x) r = x

  unfoldable pub vwap_from : Real → Real → Option Real → List (BarRow Real) → List Real
  vwap_from paid traded before [] = []
  vwap_from paid traded before (r ∷ rs) =
      let paid' = paid ⊕ typical r ⊗ clipped r in
      let traded' = traded ⊕ clipped r in
      let now = vwap_of paid' traded' before in or_typical now r ∷ vwap_from paid' traded' now rs

  unfoldable pub calculate_vwap : List (BarRow Real) → List Real
  calculate_vwap [] = []
  calculate_vwap (r ∷ rs) =
      let paid = typical r ⊗ clipped r in
      let now = vwap_of paid (clipped r) none in
      or_typical now r ∷ vwap_from paid (clipped r) now rs

  -- a group of rows that may be empty has no extremes
  unfoldable pub regular_rows : Session Real → List (BarRow Real)
  regular_rows s = if s.marks_hours then filter (λ r. r.is_regular_hours) (rows_of s) else rows_of s

  unfoldable pub premarket_rows : Session Real → List (BarRow Real)
  premarket_rows s =
      if s.marks_premarket then map (λ b. b.row) (filter (λ b. b.is_premarket) s.bars) else []

  abbrev pub no_levels : Option Real → KeyLevels Real
  no_levels close = record {
    vwap = none;
    ema_9 = none;
    ema_20 = none;
    premarket_high = none;
    premarket_low = none;
    opening_range_high = none;
    opening_range_low = none;
    high_of_day = none;
    low_of_day = none;
    previous_close = close;
  }

  unfoldable pub compute_key_levels :
      Columns → Session Real → Option Real → ℕ → Option (KeyLevels Real)
  compute_key_levels pd s close minutes =
      let rows = rows_of s in
      let closes = map (λ r. r.close) rows in
      let premarket = premarket_rows s in
      let opening = take minutes (regular_rows s) in
      if is_empty rows then some (no_levels close) else do
        weighted ← last_row (calculate_vwap rows)
        fast ← last_row (pd.ewm_mean 9 closes)
        slow ← last_row (pd.ewm_mean 20 closes)
        some (record {
          vwap = some weighted;
          ema_9 = some fast;
          ema_20 = some slow;
          premarket_high = max_of (λ r. r.high) premarket;
          premarket_low = min_of (λ r. r.low) premarket;
          opening_range_high = max_of (λ r. r.high) opening;
          opening_range_low = min_of (λ r. r.low) opening;
          high_of_day = max_of (λ r. r.high) rows;
          low_of_day = min_of (λ r. r.low) rows;
          previous_close = close;
        })

  -- a level that is known, and one that is known and below the entry
  abbrev named : LevelName → Option Real → List (LevelName × Real)
  named name none = []
  named name (some x) = (name, x) ∷ []

  abbrev pub named_below : Real → LevelName → Option Real → List (LevelName × Real)
  named_below entry name none = []
  named_below entry name (some x) = if x <? entry then (name, x) ∷ [] else []

  unfoldable pub get_trigger_levels : KeyLevels Real → List (LevelName × Real)
  get_trigger_levels l =
      named high_of_day l.high_of_day
      ++ named premarket_high l.premarket_high
      ++ named opening_range_high l.opening_range_high

  unfoldable pub stop_candidates : KeyLevels Real → Real → List (LevelName × Real)
  stop_candidates l entry =
      named_below entry vwap l.vwap
      ++ named_below entry ema_9 l.ema_9
      ++ named_below entry opening_range_low l.opening_range_low
      ++ named_below entry low_of_day l.low_of_day

  -- `sorted`, which is stable, by the distance below the entry
  unfoldable pub insert_by_distance :
      Real → LevelName × Real → List (LevelName × Real) → List (LevelName × Real)
  insert_by_distance entry x [] = x ∷ []
  insert_by_distance entry x (y ∷ ys) =
      let rest = insert_by_distance entry x ys in
      if (entry ⊖ y.1) <? (entry ⊖ x.1) then y ∷ rest else x ∷ y ∷ ys

  unfoldable pub sort_by_distance : Real → List (LevelName × Real) → List (LevelName × Real)
  sort_by_distance entry [] = []
  sort_by_distance entry (x ∷ xs) = insert_by_distance entry x (sort_by_distance entry xs)

  unfoldable pub get_stop_levels : KeyLevels Real → Real → List (LevelName × Real)
  get_stop_levels l entry = sort_by_distance entry (stop_candidates l entry)
