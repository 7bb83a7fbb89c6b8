-- ===== src/Calendar/Sessions.antt =====
-- `next_trading_day` of runtime/market_calendar.py ends, and finds the next session.
use momentum_system.Prelude.{
  ℕ, zero, suc, ◌+◌, ◌-◌, ◌≤◌, ◌<◌, ◌≡◌, ◌≢◌, refl, ◌⊎◌, inl, inr, Bool, true, false, ◌&&◌, ◌||◌,
  some, Bool-cases, arith,
}
use native.Mathlib.Decide.{dec_lt}
use momentum_system.Calendar.{is_market_holiday, is_trading_day, next_from, next_trading_day}

-- no holiday is listed outside 2026 and 2027
outside : (d : ℕ) → (d < 739617) ⊎ (740339 < d) → is_market_holiday d ≡ false
unfolding is_market_holiday
outside d h = ground arith

-- the days from `d` until the next trading day after it, and not more than five
soon : ℕ → Bool
soon d =
    is_trading_day (d + 1)
    || is_trading_day (d + 2)
    || is_trading_day (d + 3)
    || is_trading_day (d + 4)
    || is_trading_day (d + 5)

all_from : ℕ → ℕ → Bool
all_from zero d = true
all_from (suc k) d = soon d && all_from k (d + 1)

all_from_sound : (k d i : ℕ) → all_from k d ≡ true → i < k → soon (d + i) ≡ true
unfolding all_from
all_from_sound zero d i h lt = elim lt [ ]
all_from_sound (suc k) d zero h lt = let e : d + 0 ≡ d = omega arith in rw e (ground arith)
all_from_sound (suc k) d (suc i) h lt =
    let e : d + suc i ≡ d + 1 + i = omega arith in
    rw e (all_from_sound k (d + 1) i (ground arith) (omega arith))

listed_years : all_from 740 739610 ≡ true
unfolding all_from soon is_trading_day
listed_years = refl

weekdays : (d : ℕ) → (d < 739611) ⊎ (740339 ≤ d) → soon d ≡ true
unfolding soon is_trading_day
weekdays d h =
    ground
      (arith, outside (d + 1), outside (d + 2), outside (d + 3), outside (d + 4), outside (d + 5))

trading_soon : (d : ℕ) → soon d ≡ true
trading_soon d = elim (dec_lt d 739611) [
  | yes early ↦ weekdays d (inl early)
  | no other ↦ elim (dec_lt d 740339) [
    | no late ↦ weekdays d (inr (omega arith))
    | yes inside ↦
        let e : 739610 + (d - 739610) ≡ d = omega arith in
        rw e at (all_from_sound 740 739610 (d - 739610) listed_years (omega arith))
  ]
]

abbrev Found : ℕ → ℕ → ℕ → Type 0
Found fuel d x =
    (r : ℕ) × (next_from fuel d ≡ some r) × (is_trading_day r ≡ true) × (d ≤ r) × (r ≤ x)

next_from_finds : (fuel d x : ℕ) → d ≤ x → x < d + fuel → is_trading_day x ≡ true → Found fuel d x
unfolding next_from
next_from_finds zero d x a b t = absurd (omega arith)
next_from_finds (suc fuel) d x a b t = elim (Bool-cases (is_trading_day d)) [
  | inl e ↦ (d, rw e, e, omega arith, a)
  | inr e ↦
      let later : d ≢ x = λ q. ground arith in
      let (r, found, trading, after, before) =
        next_from_finds fuel (d + 1) x (omega arith) (omega arith) t in
      (r, rw e found, trading, omega arith, before)
]

soon_day : (d : ℕ) → soon d ≡ true → (x : ℕ) × (d < x) × (x ≤ d + 5) × (is_trading_day x ≡ true)
unfolding soon
soon_day d h = elim (Bool-cases (is_trading_day (d + 1))) [
  | inl e ↦ (d + 1, omega arith, omega arith, e)
  | inr e₁ ↦ elim (Bool-cases (is_trading_day (d + 2))) [
    | inl e ↦ (d + 2, omega arith, omega arith, e)
    | inr e₂ ↦ elim (Bool-cases (is_trading_day (d + 3))) [
      | inl e ↦ (d + 3, omega arith, omega arith, e)
      | inr e₃ ↦ elim (Bool-cases (is_trading_day (d + 4))) [
        | inl e ↦ (d + 4, omega arith, omega arith, e)
        | inr e₄ ↦ (d + 5, omega arith, omega arith, ground arith)
      ]
    ]
  ]
]

-- The search for the next session ends within its fuel for every date: the next trading day is one
-- to five days ahead.
pub next_trading_day_total :
    (d : ℕ)
    → (r : ℕ) × (next_trading_day d ≡ some r) × (is_trading_day r ≡ true) × (d < r) × (r ≤ d + 5)
unfolding next_trading_day
next_trading_day_total d =
    let (x, after, near, trading) = soon_day d (trading_soon d) in
    let (r, found, open_day, later, sooner) =
      next_from_finds 6 (d + 1) x (omega arith) (omega arith) trading in
    (r, found, open_day, omega arith, omega arith)

next_from-least :
    (fuel d r x : ℕ) → next_from fuel d ≡ some r → d ≤ x → x < r → is_trading_day x ≡ false
unfolding next_from
next_from-least zero d r x h a b = cc
next_from-least (suc fuel) d r x h a b = elim (dec_lt d x) [
  | yes after ↦ ground (arith, next_from-least fuel (d + 1) r x)
  | no same ↦ let e : x ≡ d = omega arith in rw e (ground arith)
]

-- No day that `next_trading_day` passes over is a trading day.
pub next_trading_day-least :
    (d r x : ℕ) → next_trading_day d ≡ some r → d < x → x < r → is_trading_day x ≡ false
unfolding next_trading_day
next_trading_day-least d r x h a b = next_from-least 6 (d + 1) r x h (omega arith) b
