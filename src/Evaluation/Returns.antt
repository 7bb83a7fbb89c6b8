-- ===== src/Evaluation/Returns.antt =====
-- strategy/evaluation/setup_evaluator.py: the evaluation returns, whatever the bars.
use momentum_system.Prelude.{
  ℕ, ◌≤◌, ◌<◌, max, ◌⊎◌, ◌≡◌, refl, String, true, false, ◌||◌, Option, none, some, inl, inr, List,
  [], ◌∷◌, map, length, take, ltb, Bool-cases, arith,
}
use momentum_system.Float.{Float, Real, lit, ◌⊕◌, ◌⊗◌}
use momentum_system.Columns.{Columns}
use momentum_system.Exits.Data.{is_empty}
use momentum_system.Setups.Data.{BarRow}
use momentum_system.Setups.Yields.{Any, Yields, yields, get_elem?-Yields, last_row-Yields}
use momentum_system.Setups.Chosen.{Chosen, classify_setup-Chosen}
use momentum_system.Evaluation.Data.{Session, rows_of, frame_of}
use momentum_system.Evaluation.Levels.{
  typical, clipped, vwap_of, calculate_vwap, vwap_from, regular_rows, compute_key_levels,
}
use momentum_system.Evaluation.Candles.{candle_features, calculate_first_candle_features}
use momentum_system.Evaluation.Volume.{calculate_enhanced_volume_metrics}
use momentum_system.Evaluation.Result.{SetupEvaluationResult, Context, Reading}
use momentum_system.Evaluation.Evaluate.{read_session, judge, blocked_result, evaluate_setup}

pub length-map : {A B : Type 0} (f : A → B) (xs : List A) → length (map f xs) ≡ length xs
length-map f [] = omega arith
length-map f (x ∷ xs) = omega (arith, length-map f xs)

pub is_empty-length : {A : Type 0} (xs : List A) → is_empty xs ≡ false → 0 < length xs
is_empty-length [] h = ground arith
is_empty-length (x ∷ xs) h = omega arith

module _ ⦃n : Float⦄ where
  pub length-vwap_from :
      (paid traded : Real) (before : Option Real) (rows : List (BarRow Real))
      → length (vwap_from paid traded before rows) ≡ length rows
  unfolding vwap_from
  length-vwap_from paid traded before [] = omega arith
  length-vwap_from paid traded before (r ∷ rs) =
      let paid' = paid ⊕ typical r ⊗ clipped r in
      let traded' = traded ⊕ clipped r in
      omega (arith, length-vwap_from paid' traded' (vwap_of paid' traded' before) rs)

  -- a value for each of the bars
  pub length-calculate_vwap :
      (rows : List (BarRow Real)) → length (calculate_vwap rows) ≡ length rows
  unfolding calculate_vwap
  length-calculate_vwap [] = omega arith
  length-calculate_vwap (r ∷ rs) =
      let paid = typical r ⊗ clipped r in
      omega (arith, length-vwap_from paid (clipped r) (vwap_of paid (clipped r) none) rs)

  pub candle_features-Yields :
      (pd : Columns) (high : Option Real) (rows : List (BarRow Real))
      → Yields Any (candle_features pd high rows)
  unfolding candle_features
  candle_features-Yields pd high [] = yields _ tt
  candle_features-Yields pd high (r ∷ rs) =
      let last = last_row-Yields (r ∷ rs) (omega arith) in rw last.returns (yields _ tt)

  module _ (pd : Columns) where
    pub compute_key_levels-Yields :
        (s : Session Real) (close : Option Real) (minutes : ℕ)
        → Yields Any (compute_key_levels pd s close minutes)
    unfolding compute_key_levels
    compute_key_levels-Yields s close minutes = elim (Bool-cases (is_empty (rows_of s))) [
      | inl e ↦ rw e (yields _ tt)
      | inr e ↦
          let some_rows : 0 < length (rows_of s) = is_empty-length (rows_of s) e in
          let closes = map (λ r. r.close) (rows_of s) in
          let vwap =
            last_row-Yields (calculate_vwap (rows_of s))
              (omega (arith, length-calculate_vwap (rows_of s))) in
          let fast =
            last_row-Yields (pd.ewm_mean 9 closes)
              (omega (arith, pd.length-ewm_mean 9 closes, length-map (λ r. r.close) (rows_of s))) in
          let slow =
            last_row-Yields (pd.ewm_mean 20 closes) (
              omega (arith, pd.length-ewm_mean 20 closes, length-map (λ r. r.close) (rows_of s))) in
          rw (e, vwap.returns, fast.returns, slow.returns) (yields _ tt)
    ]

    pub volume_metrics-Yields :
        (rows : List (BarRow Real)) (average shares : Option Real)
        → Yields Any (calculate_enhanced_volume_metrics pd rows average shares)
    unfolding calculate_enhanced_volume_metrics
    volume_metrics-Yields rows average shares = elim (Bool-cases (is_empty rows)) [
      | inl e ↦ rw e (yields _ tt)
      | inr e ↦
          let volumes = map (λ r. r.volume) rows in
          let some_rows = is_empty-length rows e in
          let last = last_row-Yields volumes (omega (arith, length-map (λ r. r.volume) rows)) in
          rw (e, last.returns) (yields _ tt)
    ]

    module _ (enabled : List String) (c : Context Real) (s : Session Real) where
      -- What the criteria read: the structure is one that may be taken, or there is none.
      abbrev pub IsRead : Reading Real → Type 0
      IsRead v = Chosen enabled (lit 2 10) (length (rows_of s)) v.structure

      pub read_session-Yields : 0 < length (rows_of s) → Yields IsRead (read_session pd enabled c s)
      unfolding read_session calculate_first_candle_features
      read_session-Yields some_rows =
          let last = last_row-Yields (rows_of s) some_rows in
          let opening = get_elem?-Yields (rows_of s) 0 some_rows in
          let vol = volume_metrics-Yields (rows_of s) c.avg_daily_volume none in
          let levels = compute_key_levels-Yields s c.previous_close 5 in
          let structure =
            classify_setup-Chosen enabled (lit 2 10) pd.mean (frame_of s)
              levels.value.premarket_high levels.value.high_of_day in
          let first =
            candle_features-Yields pd levels.value.premarket_high
              (take (max 1 1) (regular_rows s)) in
          rw
            (
              last.returns, opening.returns, vol.returns, levels.returns, structure.returns,
              first.returns,
            )
            (yields _ structure.holds)

      -- The evaluation refuses a frame that is empty or too short, and judges any other.
      abbrev pub Evaluated : SetupEvaluationResult Real → Type 0
      Evaluated r =
          ((r ≡ blocked_result c.evaluation_time)
            × ((length s.bars ≡ 0) ⊎ (length s.bars < c.min_bars)))
          ⊎ ((v : Reading Real) × (read_session pd enabled c s ≡ some v)
              × IsRead v
              × (c.min_bars ≤ length s.bars)
              × (r ≡ judge c v))

      pub evaluate_setup-Yields : Yields Evaluated (evaluate_setup pd enabled c s)
      unfolding evaluate_setup
      evaluate_setup-Yields =
          elim (Bool-cases (is_empty s.bars || ltb (length s.bars) c.min_bars)) [
            | inl e ↦ rw e (yields _ (inl (refl, too_few s.bars e)))
            | inr e ↦
                let enough : (0 < length s.bars) × (c.min_bars ≤ length s.bars) =
                  enough_bars s.bars e in
                let v =
                  read_session-Yields (omega (arith, length-map (λ b. b.row) s.bars, enough.0)) in
                rw (e, v.returns) (yields _ (inr (v.value, v.returns, v.holds, enough.1, refl)))
          ]
        where
          too_few :
              {A : Type 0} (xs : List A)
              → (is_empty xs || ltb (length xs) c.min_bars) ≡ true
              → (length xs ≡ 0) ⊎ (length xs < c.min_bars)
          too_few [] h = inl refl
          too_few (x ∷ xs) h = inr (ground arith)

          enough_bars :
              {A : Type 0} (xs : List A)
              → (is_empty xs || ltb (length xs) c.min_bars) ≡ false
              → (0 < length xs) × (c.min_bars ≤ length xs)
          enough_bars [] h = ground arith
          enough_bars (x ∷ xs) h = ground arith
