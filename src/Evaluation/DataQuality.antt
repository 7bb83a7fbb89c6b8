-- ===== src/Evaluation/DataQuality.antt =====
-- strategy/evaluation/data_quality.py
use momentum_system.Prelude.{
  ℕ, max, Bool, false, ◌&&◌, ◌||◌, Option, none, some, List, [], ◌∷◌, ◌++◌, length, count, take,
  ltb, leb, ◌==◌, if◌then◌else◌,
}
use momentum_system.Prelude.Int.{ℤ, ◌-ℤ◌}
use momentum_system.Float.{Float, Real, lit, nought, one, ◌⊖◌, ◌⊘◌, ◌<?◌, ◌≤?◌, fmax, fmin}
use momentum_system.Setups.Data.{BarRow, as_real}
use momentum_system.Evaluation.Data.{SessionRow, Session, rows_of}

pub data DataGrade : Type 0 where
  grade_a grade_b grade_c grade_d grade_f : DataGrade

pub data Issue : Type 0 where
  no_bars wide_gap zero_volume_run : Issue
  bad_prices : ℕ → Issue

pub record DataQualityScore (R : Type 0) : Type 0 where
  pub score : R
  pub grade : DataGrade
  pub bar_count : ℕ
  pub coverage : R
  pub max_gap_minutes : R
  pub has_zero_volume_run : Bool
  pub issues : List Issue

-- `expected_bars or max(len(bars), 30)`
unfoldable pub expected_of : Option ℕ → ℕ → ℕ
expected_of none len = max len 30
expected_of (some k) len = if k == 0 then max len 30 else k

module _ ⦃n : Float⦄ where
  unfoldable pub get_quality_grade : Real → DataGrade
  get_quality_grade score =
      if lit 9 10 ≤? score
      then grade_a
      else if lit 75 100 ≤? score
      then grade_b
      else if lit 6 10 ≤? score
      then grade_c
      else if lit 4 10 ≤? score
      then grade_d
      else grade_f

  -- the greatest of `best` and the minutes between one row and the next
  unfoldable pub widest : Real → ℤ → List (SessionRow Real) → Real
  widest best before [] = best
  widest best before (b ∷ bs) =
      widest (fmax best (n.seconds (b.timestamp -ℤ before) ⊘ lit 60 1)) b.timestamp bs

  -- the first row's gap is filled with 60 seconds; a session of one row has no gaps
  unfoldable pub max_gap : Bool → List (SessionRow Real) → Real
  max_gap marked [] = nought
  max_gap marked (b ∷ []) = nought
  max_gap marked (b ∷ c ∷ bs) =
      if marked then widest (lit 60 1 ⊘ lit 60 1) b.timestamp (c ∷ bs) else nought

  abbrev pub is_dry : BarRow Real → Bool
  is_dry r = r.volume ≤? nought

  -- whether some five rows in a row have no volume: `.rolling(5).sum().max() >= 5`
  unfoldable pub dry_run : List (BarRow Real) → Bool
  dry_run [] = false
  dry_run (r ∷ rs) = leb 5 (count is_dry (take 5 (r ∷ rs))) || dry_run rs

  abbrev pub is_bad : BarRow Real → Bool
  is_bad r = (r.high <? r.low) || (r.close ≤? nought) || (r.open_price ≤? nought)

  unfoldable pub calculate_data_quality_score : Session Real → Option ℕ → DataQualityScore Real
  calculate_data_quality_score s expected_bars =
      let rows = rows_of s in
      let coverage =
        fmin one (as_real (length rows) ⊘ as_real (expected_of expected_bars (length rows))) in
      let gap = max_gap s.marks_times s.bars in
      let wide = s.marks_times && ltb 1 (length rows) && (lit 10 1 <? gap) in
      let dry = dry_run rows in
      let bad = count is_bad rows in
      let score = if wide then coverage ⊖ lit 2 10 else coverage in
      let score' = if dry then score ⊖ lit 2 10 else score in
      let score'' = if ltb 0 bad then score' ⊖ lit 3 10 else score' in
      let kept = fmax nought (fmin one score'') in
      if length rows == 0
      then record {
        score = nought;
        grade = grade_f;
        bar_count = 0;
        coverage = nought;
        max_gap_minutes = nought;
        has_zero_volume_run = false;
        issues = no_bars ∷ [];
      }
      else record {
        score = kept;
        grade = get_quality_grade kept;
        bar_count = length rows;
        coverage = coverage;
        max_gap_minutes = gap;
        has_zero_volume_run = dry;
        issues =
            (if wide then wide_gap ∷ [] else [])
            ++ (if dry then zero_volume_run ∷ [] else [])
            ++ (if ltb 0 bad then bad_prices bad ∷ [] else []);
      }

  unfoldable pub should_trade_symbol : DataQualityScore Real → Real → Bool
  should_trade_symbol dq min_score = min_score ≤? dq.score
