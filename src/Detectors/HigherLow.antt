-- ===== src/Detectors/HigherLow.antt =====
-- strategy/evaluation/ignition.py: the stop that `_last_higher_low` finds.
use momentum_system.Prelude.{
  ℕ, zero, suc, ◌-◌, ◌≤◌, ◌<◌, ◌≡◌, ◌⊎◌, refl, Bool, true, false, Option, none, some, inl, inr,
  List, [], ◌∷◌, length, get_elem?, All, Bool-cases, Option-cases, arith,
}
use momentum_system.Float.{Float, Real, rank, fmin}
use momentum_system.Detectors.Data.{least_low, lowest_low, rises, higher_low, last_higher_low}

module _ ⦃n : Float⦄ where
  -- whether the low after the `i`-th is higher than it
  abbrev pub rise : List Real → ℕ → Bool
  rise lows i = rises (get_elem? lows i) (get_elem? lows (suc i))

  -- `x` is the low after the last rise before the `k`-th low.
  abbrev pub LastRise : List Real → ℕ → Real → Type 0
  LastRise lows k x =
      (i : ℕ) × (i < k)
      × (rise lows i ≡ true)
      × (get_elem? lows (suc i) ≡ some x)
      × ((j : ℕ) → i < j → j < k → rise lows j ≡ false)

  abbrev pub NoRise : List Real → ℕ → Type 0
  NoRise lows k = (j : ℕ) → j < k → rise lows j ≡ false

  -- What the stop is read from: the low after the last rise, the last low apart, or the least.
  abbrev pub IsStop : List Real → Real → Type 0
  IsStop lows x =
      LastRise lows (length lows - 2) x
      ⊎ (NoRise lows (length lows - 2) × All (λ y. rank x ≤ rank y) lows)

  abbrev Found : List Real → ℕ → Option Real → Type 0
  Found lows k none = NoRise lows k
  Found lows k (some x) = LastRise lows k x

  or_last : (P : ℕ → Type 0) (k : ℕ) → P k → ((j : ℕ) → j < k → P j) → (j : ℕ) → j < suc k → P j
  or_last P k p below j h =
      let split : (j < k) ⊎ (j ≡ k) = ground arith in
      elim split [ inl less ↦ below j less | inr same ↦ rw same p ]

  not_risen :
      (lows : List Real) (k : ℕ) (o : Option Real)
      → rise lows k ≡ false
      → Found lows k o
      → Found lows (suc k) o
  not_risen lows k none e f = or_last (λ j. rise lows j ≡ false) k e f
  not_risen lows k (some x) e (i, le, up, at, later) = (
    i,
    omega arith,
    up,
    at,
    λ j above below.
        or_last (λ j. i < j → rise lows j ≡ false) k (λ _. e) (λ j less more. later j more less) j
          below above,
  )

  rises-some : (a b : Option Real) → rises a b ≡ true → (x : Real) × (b ≡ some x)
  unfolding rises
  rises-some none b h = ground arith
  rises-some (some a) none h = ground arith
  rises-some (some a) (some x) h = (x, refl)

  higher_low-Found : (lows : List Real) (k : ℕ) → Found lows k (higher_low lows k)
  unfolding higher_low
  higher_low-Found lows zero = λ j h. absurd (omega arith)
  higher_low-Found lows (suc k) = elim (Bool-cases (rise lows k)) [
    | inl e ↦
        let next = rises-some (get_elem? lows k) (get_elem? lows (suc k)) e in
        let found : Found lows (suc k) (some next.0) =
          (k, omega arith, e, next.1, λ j above below. absurd (omega arith)) in
        rw (e, next.1) found
    | inr e ↦ rw e (not_risen lows k (higher_low lows k) e (higher_low-Found lows k))
  ]

  least_low-le :
      (best : Real) (xs : List Real)
      → (rank (least_low best xs) ≤ rank best) × All (λ y. rank (least_low best xs) ≤ rank y) xs
  unfolding least_low
  least_low-le best [] = (omega arith, tt)
  least_low-le best (x ∷ xs) =
      let low = least_low-le (fmin best x) xs in
      (ground (arith, low.0), (ground (arith, low.0), low.1))

  lowest_low-le : (lows : List Real) → All (λ y. rank (lowest_low lows) ≤ rank y) lows
  unfolding lowest_low
  lowest_low-le [] = tt
  lowest_low-le (x ∷ xs) = least_low-le x xs

  pub last_higher_low-IsStop : (lows : List Real) → IsStop lows (last_higher_low lows)
  unfolding last_higher_low
  last_higher_low-IsStop lows =
      let found = higher_low-Found lows (length lows - 2) in
      elim (Option-cases (higher_low lows (length lows - 2))) [
        | inl e ↦ rw e (inr (rw e at found, lowest_low-le lows))
        | inr e ↦ rw e.1 (inl (rw e.1 at found))
      ]
