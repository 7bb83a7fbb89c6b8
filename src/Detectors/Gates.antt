-- ===== src/Detectors/Gates.antt =====
-- strategy/evaluation: what opens the gates of a signal, and that its readings return.
use momentum_system.Prelude.{
  ◌*◌, zero, suc, count, get_elem?, drop, ℕ, ◌-◌, ◌≤◌, ◌<◌, ◌≡◌, ◌↔◌, refl, Bool, true, false,
  Option, none, some, List, [], ◌∷◌, length, ltb, All, Bool-cases, inl, inr, arith,
}
use momentum_system.Float.{Float, Real, rank, fmax}
use momentum_system.Setups.Data.{BarRow, greatest, max_of}
use momentum_system.Setups.Yields.{Any, Yields, yields, get_elem?-Yields, last_row-Yields}
use momentum_system.Evaluation.Levels.{calculate_vwap}
use momentum_system.Evaluation.Returns.{length-calculate_vwap}
use momentum_system.Detectors.Data.{
  GateReason, ShadowSignal, shut, signal_of, gated, row_back, rising_count, green_count, is_green,
}
use momentum_system.Detectors.Runner.{vwap_or}

abbrev pub Open : List (Bool × GateReason) → Type 0
Open gates = All (λ g. g.0 ≡ true) gates

pub shut-Open : (gates : List (Bool × GateReason)) → shut gates ≡ none → Open gates
unfolding shut
shut-Open [] h = tt
shut-Open ((true, why) ∷ gates) h = (refl, shut-Open gates h)
shut-Open ((false, why) ∷ gates) h = ground arith

pub Open-shut : (gates : List (Bool × GateReason)) → Open gates → shut gates ≡ none
unfolding shut
Open-shut [] h = refl
Open-shut ((true, why) ∷ gates) h = Open-shut gates h.1
Open-shut ((false, why) ∷ gates) h = ground arith

-- A signal is valid exactly when its gates are open, and then it has its levels.
abbrev pub Gated : {R V : Type 0} → List (Bool × GateReason) → R → R → ShadowSignal R V → Type 0
Gated gates level stop s =
    ((s.is_valid ≡ true) ↔ Open gates)
    × (s.is_valid ≡ true → (s.level ≡ some level) × (s.stop_level ≡ some stop))

module _ {R V : Type 0} (gates : List (Bool × GateReason)) (values : V) (why : GateReason)
    (level stop : R) where
  signal_of-Gated :
      (o : Option GateReason)
      → shut gates ≡ o
      → Gated gates level stop (signal_of o values why level stop)
  unfolding signal_of
  signal_of-Gated none e = ((λ h. shut-Open gates e, λ h. refl), λ h. (refl, refl))
  signal_of-Gated (some refusal) e = (
    (λ h. ground arith, λ h. let none_shut = Open-shut gates h in ground arith),
    λ h. ground arith,
  )

  pub gated-Gated : Gated gates level stop (gated gates values why level stop)
  gated-Gated = signal_of-Gated (shut gates) refl

module _ ⦃n : Float⦄ where
  greatest-ge :
      (f : BarRow Real → Real) (best : Real) (rs : List (BarRow Real))
      → (rank best ≤ rank (greatest f best rs))
        × All (λ r. rank (f r) ≤ rank (greatest f best rs)) rs
  unfolding greatest
  greatest-ge f best [] = (omega arith, tt)
  greatest-ge f best (r ∷ rs) =
      let later = greatest-ge f (fmax best (f r)) rs in
      (ground (arith, later.0), (ground (arith, later.0), later.1))

  -- the maximum of a column is there, and no row is above it
  pub max_of-Bounds :
      (f : BarRow Real → Real) (rows : List (BarRow Real))
      → 0 < length rows
      → Yields (λ m. All (λ r. rank (f r) ≤ rank m) rows) (max_of f rows)
  unfolding max_of
  max_of-Bounds f [] h = ground arith
  max_of-Bounds f (r ∷ rs) h = yields _ (greatest-ge f (f r) rs)

  pub row_back-Yields :
      (rows : List (BarRow Real)) (k : ℕ) → k < 2 * length rows → Yields Any (row_back rows k)
  row_back-Yields rows k h = elim (Bool-cases (ltb k (length rows))) [
    | inl e ↦ rw e (get_elem?-Yields rows (length rows - 1 - k) (ground arith))
    | inr e ↦ elim (Bool-cases (ltb k (2 * length rows))) [
      | inl f ↦ rw (e, f) (get_elem?-Yields rows (2 * length rows - 1 - k) (ground arith))
      | inr f ↦ ground arith
    ]
  ]

  pub rising_count-Yields :
      (rows : List (BarRow Real)) (k : ℕ) → k < 2 * length rows → Yields Any (rising_count rows k)
  unfolding rising_count
  rising_count-Yields rows zero h = yields _ tt
  rising_count-Yields rows (suc k) h =
      let here = row_back-Yields rows k (omega arith) in
      let before = row_back-Yields rows (suc k) h in
      let rising = rising_count-Yields rows k (omega arith) in
      rw (here.returns, before.returns, rising.returns) (yields _ tt)

  -- The number of the green bars among the last `k`.
  abbrev pub greens_of_last : ℕ → List (BarRow Real) → ℕ
  greens_of_last k rows = count is_green (drop (length rows - k) rows)

  drop-at :
      (i : ℕ) (rows : List (BarRow Real)) (r : BarRow Real)
      → get_elem? rows i ≡ some r
      → drop i rows ≡ r ∷ drop (suc i) rows
  drop-at i [] r h = ground arith
  drop-at zero (x ∷ xs) r h = ground arith
  drop-at (suc i) (x ∷ xs) r h = drop-at i xs r h

  drop-all : (rows : List (BarRow Real)) → drop (length rows) rows ≡ []
  drop-all [] = refl
  drop-all (r ∷ rs) = drop-all rs

  -- where there are as many bars, the indices are those of the last ones
  pub green_count-greens :
      (rows : List (BarRow Real)) (k : ℕ)
      → k ≤ length rows
      → green_count rows k ≡ some (greens_of_last k rows)
  unfolding green_count
  green_count-greens rows zero h =
      let end : length rows - zero ≡ length rows = omega arith in rw (end, drop-all rows) refl
  green_count-greens rows (suc k) h =
      let at = length rows - 1 - k in
      let here = get_elem?-Yields rows at (omega arith) in
      let back : row_back rows k ≡ some here.value = ground (arith, here.returns) in
      let start : length rows - suc k ≡ at = omega arith in
      let next : length rows - k ≡ suc at = omega arith in
      rw
        (
          back,
          green_count-greens rows k (omega arith),
          start,
          next,
          drop-at at rows here.value here.returns,
        )
        refl

  pub vwap_or-Yields :
      (given : Option Real) (rows : List (BarRow Real))
      → 0 < length rows
      → Yields Any (vwap_or given rows)
  unfolding vwap_or
  vwap_or-Yields (some x) rows h = yields x tt
  vwap_or-Yields none rows h =
      last_row-Yields (calculate_vwap rows) (omega (arith, length-calculate_vwap rows))
