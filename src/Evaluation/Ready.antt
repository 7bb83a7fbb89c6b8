-- ===== src/Evaluation/Ready.antt =====
-- strategy/evaluation/setup_evaluator.py: when a setup is ready, late or blocked.
use momentum_system.Prelude.{
  ◌≤◌, ◌<◌, ◌⊎◌, ◌≡◌, ◌∙◌, ◌↔◌, refl, sym, String, Bool, true, false, not, ◌&&◌, some, inl, inr,
  List, [], ◌∷◌, length, Bool-cases, if◌then◌else◌, arith,
}
use momentum_system.Float.{Float, Real, lit, ◌<?◌}
use momentum_system.Columns.{Columns}
use momentum_system.Risk.Guards.{check_entry_cutoff}
use momentum_system.Setups.Data.{last_row}
use momentum_system.Setups.Classify.{is_accepted}
use momentum_system.Setups.Yields.{Yields}
use momentum_system.Evaluation.Data.{SessionRow, Session}
use momentum_system.Evaluation.Criteria.{score_criteria}
use momentum_system.Evaluation.Result.{
  Status, ready, late, blocked, SetupEvaluationResult, Context, Reading,
}
use momentum_system.Evaluation.Evaluate.{
  is_setup, results_of, setups_of, to_minute, report, blocked_result, judge, read_session,
  evaluate_setup,
}
use momentum_system.Evaluation.Returns.{IsRead, Evaluated, evaluate_setup-Yields}

module _ ⦃n : Float⦄ (c : Context Real) where
  abbrev pub has_structure : Reading Real → Bool
  has_structure v = v.structure.is_valid && is_setup v.structure.setup_type

  abbrev pub is_low : Reading Real → Bool
  is_low v = (score_criteria (results_of c.criteria v) c.weights).score_pct <? c.ready_score_pct

  abbrev pub in_time : Bool
  in_time = (check_entry_cutoff (to_minute c.evaluation_time) c.entry_cutoff).passed

  -- the status by the three tests alone
  abbrev pub status_of : Bool → Bool → Bool → Status
  status_of valid low timely = if valid && not low then if timely then ready else late else blocked

  judge-status :
      (v : Reading Real) → (judge c v).status ≡ status_of (has_structure v) (is_low v) in_time
  unfolding judge report setups_of
  judge-status v =
      let timely = (check_entry_cutoff (to_minute c.evaluation_time) c.entry_cutoff).passed in
      elim (Bool-cases (has_structure v)) [
        | inl e ↦ elim (Bool-cases (is_low v)) [
          | inl f ↦ rw (f, e)
          | inr f ↦ elim (Bool-cases timely) [ inl g ↦ rw (f, e, g) | inr g ↦ rw (f, e, g) ]
        ]
        | inr e ↦ elim (Bool-cases (is_low v)) [ inl f ↦ rw (f, e) | inr f ↦ rw (f, e) ]
      ]

  status_of-ready : (a b d : Bool) → status_of a b d ≡ ready → (a ≡ true) × (b ≡ false) × (d ≡ true)
  status_of-ready true true d h = ground arith
  status_of-ready true false true h = ground arith
  status_of-ready true false false h = ground arith
  status_of-ready false b d h = ground arith

  -- All that has to hold of a setup that is entered: enough bars, a structure that is valid and
  -- enabled, a score that is high enough, and an hour within the cutoff.
  module _ (pd : Columns) (enabled : List String) (s : Session Real) where
    abbrev pub Enterable : Reading Real → Type 0
    Enterable v =
        (c.min_bars ≤ length s.bars)
        × (has_structure v ≡ true)
        × (is_accepted enabled (lit 2 10) v.structure ≡ true)
        × (is_low v ≡ false)
        × (in_time ≡ true)

    accepted :
        (v : Reading Real)
        → IsRead pd enabled c s v
        → has_structure v ≡ true
        → is_accepted enabled (lit 2 10) v.structure ≡ true
    unfolding is_setup
    accepted v (inl (invalid, _)) h = ground arith
    accepted v (inr (h, _, _)) _ = h

    judge-Enterable :
        (v : Reading Real)
        → IsRead pd enabled c s v
        → c.min_bars ≤ length s.bars
        → ((judge c v).status ≡ ready) ↔ Enterable v
    judge-Enterable v r long = (
      λ h.
          let tests =
            status_of-ready (has_structure v) (is_low v) in_time (sym (judge-status v) ∙ h) in
          (long, tests.0, accepted v r tests.0, tests.1, tests.2),
      λ h. judge-status v ∙ rw (h.1, h.3, h.4),
    )

    -- there is nothing to read of an empty frame
    read_session_nonempty :
        (bars : List (SessionRow Real)) {v : Reading Real}
        → s.bars ≡ bars
        → read_session pd enabled c s ≡ some v
        → 0 < length bars
    unfolding read_session last_row
    read_session_nonempty [] e h = ground (arith, e)
    read_session_nonempty (b ∷ bars) e h = omega arith

    abbrev pub Ready : SetupEvaluationResult Real → Type 0
    Ready r =
        (r.status ≡ ready)
        ↔ ((v : Reading Real) × (read_session pd enabled c s ≡ some v) × Enterable v)

    blocked_result-Ready :
        (length s.bars ≡ 0) ⊎ (length s.bars < c.min_bars)
        → Ready (blocked_result c.evaluation_time)
    unfolding blocked_result
    blocked_result-Ready few = (
      λ h. ground arith,
      λ h. elim few [
        | inl e ↦ absurd (omega (arith, read_session_nonempty s.bars refl h.1))
        | inr short ↦ absurd (omega (arith, h.2))
      ],
    )

    judged-Ready :
        (v : Reading Real)
        → read_session pd enabled c s ≡ some v
        → IsRead pd enabled c s v
        → c.min_bars ≤ length s.bars
        → Ready (judge c v)
    judged-Ready v e r long =
        let known = judge-Enterable v r long in
        (
          λ h. (v, e, known.0 h),
          λ h. let v' = h.0 in let e' = h.1 in let same : v' ≡ v = cc in known.1 (rw (← same) h.2),
        )

    -- On any bars of finite numbers the evaluation returns, and raises nothing, where no number
    -- overflows. Its status is `ready` exactly when the
    -- bars are enough and what it reads of them has a valid structure that is enabled and of the
    -- least quality, the score of its criteria is not below the threshold, and the entry cutoff
    -- passes the hour.
    pub evaluate_setup-Ready : Yields Ready (evaluate_setup pd enabled c s)
    evaluate_setup-Ready =
        let y = evaluate_setup-Yields pd enabled c s in
        record { value = y.value; returns = y.returns; holds = of_evaluated y.value y.holds }
      where
        of_evaluated : (r : SetupEvaluationResult Real) → Evaluated pd enabled c s r → Ready r
        of_evaluated r (inl (e, few)) = rw e (blocked_result-Ready few)
        of_evaluated r (inr (v, e, read, long, made)) = rw made (judged-Ready v e read long)
