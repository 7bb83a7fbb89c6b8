-- ===== src/Evaluation/Data.antt =====
-- strategy/evaluation: the frame of a session's minute bars, as the evaluation reads it.
use momentum_system.Prelude.{Bool, true, List, map}
use momentum_system.Prelude.Int.{ℤ}
use momentum_system.Setups.Data.{BarRow, Frame}

-- A row, its `is_premarket` and its `timestamp` (in microseconds).
pub record SessionRow (R : Type 0) : Type 0 where
  pub row : BarRow R
  pub is_premarket : Bool
  pub timestamp : ℤ

-- The frame, and whether it has the three columns that may be missing.
pub record Session (R : Type 0) : Type 0 where
  pub bars : List (SessionRow R)
  pub marks_premarket : Bool
  pub marks_hours : Bool
  pub marks_times : Bool

-- the columns of prices, volumes and hours
abbrev pub rows_of : {R : Type 0} → Session R → List (BarRow R)
rows_of s = map (λ b. b.row) s.bars

abbrev pub frame_of : {R : Type 0} → Session R → Frame R
frame_of s = record { rows = rows_of s; marks_hours = s.marks_hours; has_volume = true }
