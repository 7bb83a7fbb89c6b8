-- ===== src/Triggers/Arming.antt =====
-- `arm` and the eligibility test of runtime/triggers.py.
use momentum_system.Prelude.{
  ℕ, suc, String, Bool, true, false, not, ◌&&◌, ◌||◌, Option, none, some, List, [], ◌∷◌, leb,
  filter, count, if◌then◌else◌,
}
use momentum_system.Prelude.Dict.{Dict, lookup, contains, insert}
use momentum_system.Float.{Float, Real, nought, ◌⊖◌, ◌⊘◌, ◌<?◌, ◌≤?◌, ◌=?◌}
use momentum_system.Triggers.Data.{
  State, ArmedTrigger, Candidate, ArmedTriggerBook, committed, fresh_trigger, waiting, armed, weak,
}

module _ ⦃n : Float⦄ where
  abbrev distance : Option Real → Option Real → Option Real
  distance (some p) (some level) =
      if not (p =? nought) && not (level =? nought) then some ((p ⊖ level) ⊘ level) else none
  distance _ _ = none

  unfoldable pub distance_pct : ArmedTrigger Real → Option Real
  distance_pct t = distance t.price t.trigger

  -- the tests of `_eligible` on the levels, both of which must be known
  unfoldable pub stop_below_trigger : Option Real → Option Real → Bool
  stop_below_trigger (some stop) (some trigger) = stop <? trigger
  stop_below_trigger _ _ = false

  unfoldable pub eligible : ArmedTriggerBook Real → ArmedTrigger Real → Bool
  unfolding stop_below_trigger
  eligible book t =
      stop_below_trigger t.stop t.trigger
      && (book.gap_min ≤? t.gap_pct)
      && (t.gap_pct ≤? book.gap_max)
      && (book.rvol_min ≤? t.rvol)
      && (book.min_range_pct ≤? t.range_pct)
      && (book.min_dollar_vol ≤? t.dollar_vol)

  -- `float(c.get(key) or 0.0)`
  abbrev pub or_nought : Option Real → Real
  or_nought none = nought
  or_nought (some x) = x

  abbrev or_blank : Option String → String
  or_blank none = ""
  or_blank (some s) = s

  abbrev is_none {ℓ} : {A : Type ℓ} → Option A → Bool
  is_none none = true
  is_none (some _) = false

  abbrev pub or_fresh : Option (ArmedTrigger Real) → String → ArmedTrigger Real
  or_fresh none sym = fresh_trigger sym
  or_fresh (some t) sym = t

  -- the fields that `arm` copies from a candidate
  unfoldable pub copied : Candidate Real → ℕ → ArmedTrigger Real → ArmedTrigger Real
  copied c rank t = record t {
    gap_pct = or_nought c.gap_pct;
    rvol = or_nought c.rvol;
    trigger = c.trigger;
    stop = c.stop;
    range_pct = or_nought c.range_pct;
    cum_volume = or_nought c.cum_volume;
    dollar_vol = or_nought c.dollar_vol;
    catalyst = or_blank c.catalyst;
    day_open = c.day_open;
    rank = rank;
  }

  unfoldable pub classify : ArmedTriggerBook Real → Bool → ArmedTrigger Real → State
  unfolding eligible
  classify book complete t =
      if not complete || is_none t.trigger then waiting else if eligible book t then armed else weak

  unfoldable pub refreshed : ArmedTriggerBook Real → Candidate Real → ℕ → ArmedTrigger Real
  unfolding copied
  refreshed book c rank =
      let t = copied c rank (or_fresh (lookup c.symbol book.triggers) c.symbol) in
      record t { state = classify book c.complete t }

  -- `{s: t for s, t in self.triggers.items() if t.state in _COMMITTED}`
  unfoldable pub pinned : Dict (ArmedTrigger Real) → Dict (ArmedTrigger Real)
  unfolding committed
  pinned = filter (λ e. committed e.1.state)

  unfoldable pub active : Dict (ArmedTrigger Real) → ℕ
  unfolding committed
  active = count (λ e. not (committed e.1.state))

  -- the loop of `arm`: `new` and `rank` are its variables
  unfoldable pub arm_loop :
      ArmedTriggerBook Real
      → List (Candidate Real)
      → Dict (ArmedTrigger Real)
      → ℕ
      → Dict (ArmedTrigger Real)
  arm_loop book [] new rank = new
  arm_loop book (c ∷ candidates) new rank = elim (contains c.symbol new) [
    | true ↦ arm_loop book candidates new rank
    | false ↦ elim (leb book.max_armed (active new)) [
      | true ↦ new
      | false ↦
          arm_loop book candidates (insert c.symbol (refreshed book c (suc rank)) new) (suc rank)
    ]
  ]

  unfoldable pub arm : List (Candidate Real) → ArmedTriggerBook Real → ArmedTriggerBook Real
  arm candidates book = record book { triggers = arm_loop book candidates (pinned book.triggers) 0 }
