-- ===== src/Backtest/Resolved.antt =====
-- strategy/backtest/outcomes.py: which bar settles a setup, and what its extremes are.
use momentum_system.Prelude.{
  ℕ, suc, ◌+◌, ◌-◌, ◌≤◌, ◌≡◌, ◌⊎◌, refl, ap, String, Bool, ◌&&◌, true, false, inl, inr, List, [],
  ◌∷◌, ◌++◌, length, All, take, if◌then◌else◌, arith,
}
use momentum_system.Float.{Float, Real, rank, nought, one, ◌⊕◌, ◌⊖◌, ◌⊗◌, ◌⊘◌, ◌≤?◌, fmax, fmin}
use momentum_system.Exits.Data.{Bar}
use momentum_system.Backtest.Outcomes.{
  OutcomeLabel, outcome, win, loss, final_label, label_from, label_outcome,
}

module _ ⦃n : Float⦄ (entry stop risk target_r target : Real) where
  -- A bar that reaches neither the stop nor the target.
  abbrev pub Untouched : Bar Real → Type 0
  Untouched b = (b.low ≤? stop ≡ false) × (target ≤? b.high ≡ false)

  -- What the bar that settles the setup makes of it: the stop comes before the target.
  abbrev pub Settles : Bar Real → OutcomeLabel Real → Type 0
  Settles b r =
      ((b.low ≤? stop ≡ true)
        × (r.hit_stop ≡ true)
        × (r.hit_target ≡ false)
        × (r.r_multiple ≡ n.neg one)
        × (r.label ≡ loss))
      ⊎ ((b.low ≤? stop ≡ false)
          × (target ≤? b.high ≡ true)
          × (r.hit_stop ≡ false)
          × (r.hit_target ≡ true)
          × (r.r_multiple ≡ target_r)
          × (r.label ≡ win))

  -- What the closing price of the last bar makes of a setup that no bar settles.
  abbrev pub Expires : Bar Real → OutcomeLabel Real → Type 0
  Expires last r =
      (r.hit_stop ≡ false)
      × (r.hit_target ≡ false)
      × (r.r_multiple ≡ n.round ((last.close ⊖ entry) ⊘ risk) 3)
      × (r.label ≡ final_label ((last.close ⊖ entry) ⊘ risk))

  -- The last of some bars.
  abbrev last_of : Bar Real → List (Bar Real) → Bar Real
  last_of before [] = before
  last_of before (b ∷ bars) = last_of b bars

  -- After `i` bars: the next ones up to the first that is touched, which settles the setup, or all.
  abbrev pub Resolved : ℕ → Bar Real → List (Bar Real) → OutcomeLabel Real → Type 0
  Resolved i before bars r =
      ((pre : List (Bar Real)) × (b : Bar Real) × (post : List (Bar Real)) × (bars
          ≡ pre ++ b ∷ post)
        × All Untouched pre
        × (r.bars_to_resolution ≡ i + length pre + 1)
        × Settles b r)
      ⊎ (All Untouched bars
          × (r.bars_to_resolution ≡ i + length bars)
          × Expires (last_of before bars) r)

  -- The extremes reach as far as a bar did.
  abbrev pub Within : OutcomeLabel Real → Bar Real → Type 0
  Within r b =
      (rank ((b.high ⊖ entry) ⊘ risk) ≤ rank r.max_favorable_r)
      × (rank r.max_adverse_r ≤ rank ((b.low ⊖ entry) ⊘ risk))

  -- After `i` bars with the extremes `fav` and `adv`: neither shrinks.
  abbrev pub Reaches : ℕ → Real → Real → List (Bar Real) → OutcomeLabel Real → Type 0
  Reaches i fav adv bars r =
      (rank fav ≤ rank r.max_favorable_r)
      × (rank r.max_adverse_r ≤ rank adv)
      × (i ≤ r.bars_to_resolution)
      × All (Within r) (take (r.bars_to_resolution - i) bars)

  by_bar :
      (P : OutcomeLabel Real → Type 0) {s t : Bool} {x y z : OutcomeLabel Real}
      → (s ≡ true → P x)
      → (s ≡ false → t ≡ true → P y)
      → (s ≡ false → t ≡ false → P z)
      → P (if s && t then x else if s then x else if t then y else z)
  by_bar P {s = true} {t = true} f g h = f refl
  by_bar P {s = true} {t = false} f g h = f refl
  by_bar P {s = false} {t = true} f g h = g refl refl
  by_bar P {s = false} {t = false} f g h = h refl refl

  none_taken : (P : Bar Real → Type 0) (i : ℕ) (bars : List (Bar Real)) → All P (take (i - i) bars)
  none_taken P i bars = let e : i - i ≡ 0 = omega arith in rw e tt

  settled_Reaches :
      (i : ℕ) (fav adv : Real) (bars : List (Bar Real)) (r : OutcomeLabel Real)
      → r.max_favorable_r ≡ fav
      → r.max_adverse_r ≡ adv
      → r.bars_to_resolution ≡ i
      → Reaches i fav adv bars r
  settled_Reaches i fav adv bars r e f g =
      let over : r.bars_to_resolution - i ≡ 0 = omega arith in
      (rw e (omega arith), rw f (omega arith), omega arith, rw over tt)

  reach_on :
      (i : ℕ) (fav adv : Real) (b : Bar Real) (bars : List (Bar Real)) (r : OutcomeLabel Real)
      → Reaches
          (suc i)
          (fmax fav ((b.high ⊖ entry) ⊘ risk))
          (fmin adv ((b.low ⊖ entry) ⊘ risk))
          bars
          r
      → Reaches i fav adv (b ∷ bars) r
  reach_on i fav adv b bars r (up, down, on, all) =
      let k = r.bars_to_resolution in
      let more : k - i ≡ suc (k - suc i) = omega arith in
      let all' : All (Within r) (take (k - suc i) bars) = all in
      (ground arith, ground arith, omega arith, rw more ((ground arith, ground arith), all'))

  one_more :
      (i : ℕ) (before b : Bar Real) (bars : List (Bar Real)) (r : OutcomeLabel Real)
      → Untouched b
      → Resolved (suc i) b bars r
      → Resolved i before (b ∷ bars) r
  one_more i before b bars r u (inl (pre, c, post, e, clear, at, settled)) =
      inl (b ∷ pre, c, post, ap (λ xs. b ∷ xs) e, (u, clear), omega arith, settled)
  one_more i before b bars r u (inr (clear, at, expired)) = inr ((u, clear), omega arith, expired)

  module _ (setup_id : String) where
    label_from-Resolved :
        (i : ℕ) (fav adv : Real) (before : Bar Real) (bars : List (Bar Real))
        → Resolved i before bars
            (label_from setup_id entry stop risk target_r target i fav adv before bars)
    unfolding label_from
    label_from-Resolved i fav adv before [] = inr (tt, omega arith, (refl, refl, refl, refl))
    label_from-Resolved i fav adv before (b ∷ bars) =
        let fav' = fmax fav ((b.high ⊖ entry) ⊘ risk) in
        let adv' = fmin adv ((b.low ⊖ entry) ⊘ risk) in
        let rest = label_from setup_id entry stop risk target_r target (suc i) fav' adv' b bars in
        by_bar (Resolved i before (b ∷ bars)) {s = b.low ≤? stop} {t = target ≤? b.high} {z = rest}
          (λ s. inl ([], b, bars, refl, tt, omega arith, inl (s, refl, refl, refl, refl)))
          (λ s t. inl ([], b, bars, refl, tt, omega arith, inr (s, t, refl, refl, refl, refl)))
          (λ s t.
            one_more i before b bars rest (s, t) (label_from-Resolved (suc i) fav' adv' b bars))

    label_from-Reaches :
        (i : ℕ) (fav adv : Real) (before : Bar Real) (bars : List (Bar Real))
        → Reaches i fav adv bars
            (label_from setup_id entry stop risk target_r target i fav adv before bars)
    unfolding label_from
    label_from-Reaches i fav adv before [] = (
      omega arith,
      omega arith,
      omega arith,
      none_taken (Within (label_from setup_id entry stop risk target_r target i fav adv before []))
          i [],
    )
    label_from-Reaches i fav adv before (b ∷ bars) =
        let fav' = fmax fav ((b.high ⊖ entry) ⊘ risk) in
        let adv' = fmin adv ((b.low ⊖ entry) ⊘ risk) in
        let rest = label_from setup_id entry stop risk target_r target (suc i) fav' adv' b bars in
        let lost = outcome setup_id false true (n.neg one) fav' adv' (suc i) loss in
        let won = outcome setup_id true false target_r fav' adv' (suc i) win in
        by_bar (Reaches i fav adv (b ∷ bars)) {s = b.low ≤? stop} {t = target ≤? b.high} {z = rest}
          (λ s.
            reach_on i fav adv b bars lost
              (settled_Reaches (suc i) fav' adv' bars lost refl refl refl))
          (λ s t.
            reach_on i fav adv b bars won
              (settled_Reaches (suc i) fav' adv' bars won refl refl refl))
          (λ s t. reach_on i fav adv b bars rest (label_from-Reaches (suc i) fav' adv' b bars))

module _ ⦃n : Float⦄ (setup_id : String) (entry stop target_r : Real) where
  -- Of a setup with a positive risk and a bar after it: the first bar that reaches the stop or the
  -- target settles it, as a loss of one if it reaches the stop, else as a win of the target, and
  -- its number is reported; if none does, the last close decides, after all the bars. The adverse
  -- extreme is at most 0.0 and the favourable one at least that, and both reach as far as each of
  -- the bars up to the reported one.
  pub label_outcome-Resolved :
      (b : Bar Real) (bars : List (Bar Real))
      → ((entry ⊖ stop) ≤? nought) ≡ false
      → let risk = entry ⊖ stop in
        let target = entry ⊕ target_r ⊗ risk in
        let r = label_outcome setup_id entry stop (b ∷ bars) target_r in
        Resolved entry stop risk target_r target 0 b (b ∷ bars) r
        × Reaches entry stop risk target_r target 0 nought nought (b ∷ bars) r
  unfolding label_outcome
  label_outcome-Resolved b bars positive =
      let risk = entry ⊖ stop in
      let target = entry ⊕ target_r ⊗ risk in
      rw positive (
        label_from-Resolved entry stop risk target_r target setup_id 0 nought nought b (b ∷ bars),
        label_from-Reaches entry stop risk target_r target setup_id 0 nought nought b (b ∷ bars),
      )
