-- ===== src/Evaluation/Quality.antt =====
-- strategy/evaluation/quality.py and runner_quality.py
use mathlib.Core.Option
use momentum_system.Prelude.{Bool, Option, none, some, if◌then◌else◌}
use momentum_system.Float.{Float, Real, lit, nought, one, ◌⊕◌, ◌⊗◌, ◌⊘◌, ◌≤?◌, fmax, fmin}

pub record QualityThresholds (R : Type 0) : Type 0 where
  pub a_grade : R
  pub b_grade : R
  pub c_grade : R
  pub min_tradeable : R

pub data Grade : Type 0 where
  grade_a grade_b grade_c grade_f : Grade

pub data OpeningStrength : Type 0 where
  strong neutral weak : OpeningStrength

-- `components`; a component that a score does not have is `none`
pub record Components (R : Type 0) : Type 0 where
  pub gap : R
  pub volume : R
  pub vwap : R
  pub structure : Option R
  pub opening_strength : Option R
  pub data_quality : Option R
  pub velocity : Option R
  pub catalyst : Option R

pub record QualityScore (R : Type 0) : Type 0 where
  pub score : R
  pub grade : Grade
  pub components : Components R
  pub tradeable : Bool

module _ ⦃n : Float⦄ where
  abbrev pub default_thresholds : QualityThresholds Real
  default_thresholds = record {
    a_grade = lit 80 100;
    b_grade = lit 65 100;
    c_grade = lit 50 100;
    min_tradeable = lit 50 100;
  }

  -- `min(1.0, max(0.0, x))`
  unfoldable pub clip : Real → Real
  clip x = fmin one (fmax nought x)

  unfoldable pub opening_component : OpeningStrength → Real
  opening_component strong = one
  opening_component neutral = lit 1 2
  opening_component weak = nought

  unfoldable pub grade_of : QualityThresholds Real → Real → Grade
  grade_of t score =
      if t.a_grade ≤? score
      then grade_a
      else if t.b_grade ≤? score
      then grade_b
      else if t.c_grade ≤? score
      then grade_c
      else grade_f

  abbrev pub flag : Bool → Real
  flag b = if b then one else nought

  unfoldable pub blend : Real → Real → Real → Real → Real → Real → Option Real → Real
  blend gap volume structure vwap opening quality none =
      lit 20 100 ⊗ gap
      ⊕ lit 25 100 ⊗ volume
      ⊕ lit 30 100 ⊗ structure
      ⊕ lit 10 100 ⊗ vwap
      ⊕ lit 5 100 ⊗ opening
      ⊕ lit 10 100 ⊗ quality
  blend gap volume structure vwap opening quality (some catalyst) =
      lit 15 100 ⊗ gap
      ⊕ lit 20 100 ⊗ volume
      ⊕ lit 25 100 ⊗ structure
      ⊕ lit 10 100 ⊗ vwap
      ⊕ lit 5 100 ⊗ opening
      ⊕ lit 10 100 ⊗ quality
      ⊕ lit 15 100 ⊗ catalyst

  abbrev pub graded : QualityThresholds Real → Real → Components Real → QualityScore Real
  graded t score components = record {
    score = n.round score 4;
    grade = grade_of t score;
    components = components;
    tradeable = t.min_tradeable ≤? score;
  }

  -- the thresholds are `thresholds or QualityThresholds()`
  unfoldable pub calculate_setup_quality :
      Real
      → Real
      → Real
      → Bool
      → OpeningStrength
      → Real
      → QualityThresholds Real
      → Option Real
      → QualityScore Real
  calculate_setup_quality gap_pct relative_volume structure_quality above_vwap strength data_quality
        thresholds catalyst_score =
      let gap = clip (gap_pct ⊘ lit 10 100) in
      let volume = clip (relative_volume ⊘ lit 5 1) in
      let structure = clip structure_quality in
      let vwap = flag above_vwap in
      let opening = opening_component strength in
      let quality = clip data_quality in
      let catalyst = Option.map clip catalyst_score in
      graded thresholds (blend gap volume structure vwap opening quality catalyst) (record {
        gap = gap;
        volume = volume;
        vwap = vwap;
        structure = some structure;
        opening_strength = some opening;
        data_quality = some quality;
        velocity = none;
        catalyst = catalyst;
      })

  unfoldable pub calculate_runner_quality :
      Real → Real → Real → Bool → Real → Real → QualityThresholds Real → QualityScore Real
  calculate_runner_quality gap_pct vol_burst velocity above_vwap catalyst_score data_quality
        thresholds =
      let gap = clip (gap_pct ⊘ lit 1 1) in
      let speed = clip (velocity ⊘ lit 20 100) in
      let volume = clip (vol_burst ⊘ lit 3 1) in
      let vwap = flag above_vwap in
      let catalyst = clip catalyst_score in
      let score =
        (lit 30 100 ⊗ gap
          ⊕ lit 25 100 ⊗ speed
          ⊕ lit 15 100 ⊗ volume
          ⊕ lit 15 100 ⊗ vwap
          ⊕ lit 15 100 ⊗ catalyst)
        ⊗ clip data_quality in
      graded thresholds score (record {
        gap = gap;
        volume = volume;
        vwap = vwap;
        structure = none;
        opening_strength = none;
        data_quality = none;
        velocity = some speed;
        catalyst = some catalyst;
      })
