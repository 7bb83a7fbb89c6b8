-- ===== src/Setups/Data.antt =====
-- strategy/evaluation/structure.py: the frame of bars, the result, and what the detectors read with.
use momentum_system.Prelude.{
  ℕ, ◌-◌, String, Bool, true, false, Option, none, some, List, [], ◌∷◌, take, drop,
}
use momentum_system.Prelude.Int.{pos}
use momentum_system.Float.{Float, Real, fmax, fmin}

-- A row of the frame.
pub record BarRow (R : Type 0) : Type 0 where
  pub open_price : R
  pub high : R
  pub low : R
  pub close : R
  pub volume : R
  pub is_regular_hours : Bool

-- The frame, and whether it has the two columns that may be missing.
pub record Frame (R : Type 0) : Type 0 where
  pub rows : List (BarRow R)
  pub marks_hours : Bool
  pub has_volume : Bool

pub data SetupType : Type 0 where
  gap_and_go opening_range_break first_pullback bull_flag hod_break : SetupType
  continuation_fallback no_setup : SetupType

-- `SetupType.value`
unfoldable pub value_of : SetupType → String
value_of gap_and_go = "gap_and_go"
value_of opening_range_break = "opening_range_break"
value_of first_pullback = "first_pullback"
value_of bull_flag = "bull_flag"
value_of hod_break = "hod_break"
value_of continuation_fallback = "continuation_fallback"
value_of no_setup = "none"

-- The reasons, without their numbers.
pub data Refusal : Type 0 where
  insufficient_bars insufficient_window no_impulse no_consolidation : Refusal
  consolidation_too_short impulse_too_short impulse_too_small no_pullback : Refusal
  pullback_too_deep gap_too_small waiting_for_breakout no_recent_high : Refusal
  waiting_for_high invalid_range invalid_geometry no_regular_hours : Refusal
  range_not_complete range_too_tight no_break_yet nothing_valid : Refusal

pub record StructureDetectionResult (R : Type 0) : Type 0 where
  pub setup_type : SetupType
  pub is_valid : Bool
  pub impulse_start_idx : Option ℕ
  pub impulse_end_idx : Option ℕ
  pub consolidation_start_idx : Option ℕ
  pub consolidation_end_idx : Option ℕ
  pub breakout_level : Option R
  pub stop_level : Option R
  pub quality_score : R
  pub reason : Option Refusal

-- `xs[a:b]`
abbrev pub slice : {A : Type 0} → ℕ → ℕ → List A → List A
slice a b xs = take (b - a) (drop a xs)

-- `xs[-1]`
unfoldable pub last_row : {A : Type 0} → List A → Option A
last_row [] = none
last_row (x ∷ []) = some x
last_row (x ∷ y ∷ xs) = last_row (y ∷ xs)

module _ ⦃n : Float⦄ where
  abbrev pub as_real : ℕ → Real
  as_real k = n.of_int (pos k)

  unfoldable pub greatest : (BarRow Real → Real) → Real → List (BarRow Real) → Real
  greatest f best [] = best
  greatest f best (r ∷ rs) = greatest f (fmax best (f r)) rs

  unfoldable pub least : (BarRow Real → Real) → Real → List (BarRow Real) → Real
  least f best [] = best
  least f best (r ∷ rs) = least f (fmin best (f r)) rs

  -- `.max()` and `.min()` of a column
  unfoldable pub max_of : (BarRow Real → Real) → List (BarRow Real) → Option Real
  max_of f [] = none
  max_of f (r ∷ rs) = some (greatest f (f r) rs)

  unfoldable pub min_of : (BarRow Real → Real) → List (BarRow Real) → Option Real
  min_of f [] = none
  min_of f (r ∷ rs) = some (least f (f r) rs)

  unfoldable pub refused : SetupType → Refusal → StructureDetectionResult Real
  refused setup why = record {
    setup_type = setup;
    is_valid = false;
    impulse_start_idx = none;
    impulse_end_idx = none;
    consolidation_start_idx = none;
    consolidation_end_idx = none;
    breakout_level = none;
    stop_level = none;
    quality_score = n.lit 0 1;
    reason = some why;
  }

  -- a valid setup that names its legs, and one that does not
  abbrev pub with_legs :
      SetupType → ℕ → ℕ → ℕ → ℕ → Real → Real → Real → StructureDetectionResult Real
  with_legs setup i j k l breakout stop quality = record {
    setup_type = setup;
    is_valid = true;
    impulse_start_idx = some i;
    impulse_end_idx = some j;
    consolidation_start_idx = some k;
    consolidation_end_idx = some l;
    breakout_level = some breakout;
    stop_level = some stop;
    quality_score = quality;
    reason = none;
  }

  abbrev pub without_legs : SetupType → Real → Real → Real → StructureDetectionResult Real
  without_legs setup breakout stop quality = record {
    setup_type = setup;
    is_valid = true;
    impulse_start_idx = none;
    impulse_end_idx = none;
    consolidation_start_idx = none;
    consolidation_end_idx = none;
    breakout_level = some breakout;
    stop_level = some stop;
    quality_score = quality;
    reason = none;
  }
