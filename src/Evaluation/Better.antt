-- ===== src/Evaluation/Better.antt =====
-- strategy/evaluation/quality.py: better ingredients are not graded worse.
use mathlib.Core.Option
use momentum_system.Prelude.{ℕ, ◌≤◌, ◌<◌, ◌≡◌, Bool, true, Option, none, some, arith}
use momentum_system.Float.{Float, Real, rank, lit, nought, ◌⊕◌, ◌⊗◌, IsMonotone}
use momentum_system.Evaluation.Quality.{
  QualityThresholds, QualityScore, Grade, grade_a, grade_b, grade_c, grade_f, OpeningStrength,
  strong, neutral, weak, clip, opening_component, grade_of, flag, blend, calculate_setup_quality,
}

-- the order of the grades
abbrev pub standing : Grade → ℕ
standing grade_a = 3
standing grade_b = 2
standing grade_c = 1
standing grade_f = 0

abbrev pub vigour : OpeningStrength → ℕ
vigour weak = 0
vigour neutral = 1
vigour strong = 2

-- What goes into a score.
pub record Ingredients (R : Type 0) : Type 0 where
  pub gap : R
  pub volume : R
  pub structure : R
  pub above : Bool
  pub opening : OpeningStrength
  pub quality : R
  pub catalyst : Option R

module _ ⦃n : Float⦄ where
  abbrev pub score_of : Ingredients Real → QualityThresholds Real → QualityScore Real
  score_of i t =
      calculate_setup_quality i.gap i.volume i.structure i.above i.opening i.quality t i.catalyst

  abbrev pub AtMost : Option Real → Option Real → Type 0
  AtMost none none = Unit
  AtMost (some x) (some y) = rank x ≤ rank y
  AtMost _ _ = ⊥

  -- No ingredient of `j` is worse than that of `i`.
  pub record IsBetter (i j : Ingredients Real) : Type 0 where
    pub gap : rank i.gap ≤ rank j.gap
    pub volume : rank i.volume ≤ rank j.volume
    pub structure : rank i.structure ≤ rank j.structure
    pub above : i.above ≡ true → j.above ≡ true
    pub opening : vigour i.opening ≤ vigour j.opening
    pub quality : rank i.quality ≤ rank j.quality
    pub catalyst : AtMost i.catalyst j.catalyst

  grade_of_mono :
      (t : QualityThresholds Real) (x y : Real)
      → rank x ≤ rank y
      → standing (grade_of t x) ≤ standing (grade_of t y)
  unfolding grade_of
  grade_of_mono t x y h = ground arith

  clip_mono : (x y : Real) → rank x ≤ rank y → rank (clip x) ≤ rank (clip y)
  unfolding clip
  clip_mono x y h = ground arith

  module _ (m : IsMonotone) where
    sum_mono : (a b c d : Real) → rank a ≤ rank b → rank c ≤ rank d → rank (a ⊕ c) ≤ rank (b ⊕ d)
    sum_mono a b c d h k = omega (arith, m.add_left a b c h, m.add_right c d b k)

    part_mono : (p : ℕ) (x y : Real) → rank x ≤ rank y → rank (lit p 100 ⊗ x) ≤ rank (lit p 100 ⊗ y)
    part_mono p x y h =
        m.mul_right x y (lit p 100) (m.lit_mono 0 1 p 100 (omega arith) (omega arith) (omega arith))
          h

    flag_mono : (a b : Bool) → (a ≡ true → b ≡ true) → rank (flag a) ≤ rank (flag b)
    flag_mono a b h =
        let low = m.lit_mono 0 1 1 1 (omega arith) (omega arith) (omega arith) in ground arith

    opening_mono :
        (a b : OpeningStrength)
        → vigour a ≤ vigour b
        → rank (opening_component a) ≤ rank (opening_component b)
    unfolding opening_component
    opening_mono a b h =
        let low = m.lit_mono 0 1 1 2 (omega arith) (omega arith) (omega arith) in
        let high = m.lit_mono 1 2 1 1 (omega arith) (omega arith) (omega arith) in ground arith

    -- the first five parts of a blend, with the weights of the code
    parts_mono :
        (p q r u : ℕ) (g g' v v' s s' w w' o o' d d' : Real)
        → rank g ≤ rank g'
        → rank v ≤ rank v'
        → rank s ≤ rank s'
        → rank w ≤ rank w'
        → rank o ≤ rank o'
        → rank d ≤ rank d'
        → rank (
            lit p 100 ⊗ g
            ⊕ lit q 100 ⊗ v
            ⊕ lit r 100 ⊗ s
            ⊕ lit u 100 ⊗ w
            ⊕ lit 5 100 ⊗ o
            ⊕ lit 10 100 ⊗ d)
          ≤ rank (
              lit p 100 ⊗ g'
              ⊕ lit q 100 ⊗ v'
              ⊕ lit r 100 ⊗ s'
              ⊕ lit u 100 ⊗ w'
              ⊕ lit 5 100 ⊗ o'
              ⊕ lit 10 100 ⊗ d')
    parts_mono p q r u g g' v v' s s' w w' o o' d d' hg hv hs hw ho hd =
        sum_mono _ _ _ _
          (sum_mono _ _ _ _
            (sum_mono _ _ _ _
              (sum_mono _ _ _ _ (sum_mono _ _ _ _ (part_mono p g g' hg) (part_mono q v v' hv))
                (part_mono r s s' hs))
              (part_mono u w w' hw))
            (part_mono 5 o o' ho))
          (part_mono 10 d d' hd)

    blend_mono :
        (g g' v v' s s' w w' o o' d d' : Real) (c c' : Option Real)
        → rank g ≤ rank g'
        → rank v ≤ rank v'
        → rank s ≤ rank s'
        → rank w ≤ rank w'
        → rank o ≤ rank o'
        → rank d ≤ rank d'
        → AtMost c c'
        → rank (blend g v s w o d (Option.map clip c))
          ≤ rank (blend g' v' s' w' o' d' (Option.map clip c'))
    unfolding blend
    blend_mono g g' v v' s s' w w' o o' d d' none none hg hv hs hw ho hd hc =
        parts_mono 20 25 30 10 g g' v v' s s' w w' o o' d d' hg hv hs hw ho hd
    blend_mono g g' v v' s s' w w' o o' d d' (some c) (some c') hg hv hs hw ho hd hc =
        sum_mono _ _ _ _ (parts_mono 15 20 25 10 g g' v v' s s' w w' o o' d d' hg hv hs hw ho hd)
          (part_mono 15 (clip c) (clip c') (clip_mono c c' hc))
    blend_mono g g' v v' s s' w w' o o' d d' none (some c') hg hv hs hw ho hd hc = absurd hc
    blend_mono g g' v v' s s' w w' o o' d d' (some c) none hg hv hs hw ho hd hc = absurd hc

    -- If no ingredient of `j` is worse than that of `i`, and both have a catalyst score or neither
    -- does, `j` is not graded worse, and it may be traded if `i` may; for arithmetic that rounds
    -- monotonically, and any thresholds.
    pub calculate_setup_quality_mono :
        (i j : Ingredients Real) (t : QualityThresholds Real)
        → rank nought < rank (lit 10 100)
        → rank nought < rank (lit 5 1)
        → IsBetter i j
        → (standing (score_of i t).grade ≤ standing (score_of j t).grade)
          × ((score_of i t).tradeable ≡ true → (score_of j t).tradeable ≡ true)
    unfolding calculate_setup_quality
    calculate_setup_quality_mono i j t tenth five better =
        let gap = clip_mono _ _ (m.div_left i.gap j.gap (lit 10 100) tenth better.gap) in
        let volume = clip_mono _ _ (m.div_left i.volume j.volume (lit 5 1) five better.volume) in
        let structure = clip_mono _ _ better.structure in
        let above = flag_mono i.above j.above better.above in
        let opening = opening_mono i.opening j.opening better.opening in
        let quality = clip_mono _ _ better.quality in
        let score =
          blend_mono _ _ _ _ _ _ _ _ _ _ _ _ i.catalyst j.catalyst gap volume structure above
            opening quality better.catalyst in
        (grade_of_mono t _ _ score, λ h. ground arith)
