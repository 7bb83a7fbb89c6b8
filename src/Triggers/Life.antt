-- ===== src/Triggers/Life.antt =====
-- The life of a trigger in runtime/triggers.py, over any sequence of calls on the book.
use momentum_system.Prelude.{
  not, ◌||◌, false, ◌≤◌, ◌<◌, ◌⊎◌, ◌≡◌, refl, String, true, inl, inr, Option, none, some, List, [],
  ◌∷◌, filter, Bool-cases, All, arith,
}
use momentum_system.Prelude.Dict.{Dict, lookup, NoDup, NoDup-modify, All-modify}
use momentum_system.Float.{Float, Real, nought, ◌⊖◌}
use momentum_system.Triggers.Data.{
  is_armed, State, armed, fired, filled, ArmedTrigger, ArmedTriggerBook,
}
use momentum_system.Triggers.Arming.{stop_below_trigger, eligible}
use momentum_system.Triggers.Calls.{
  priced, update_price, reached, may_fire, values, fires, in_state, mark_fired, fill_held,
  mark_filled, mem, Call, arms, prices, marks_fired, marks_filled, step, run,
}
use momentum_system.Triggers.Arm.{IsSound, IsValid, arm-IsValid}

module _ ⦃n : Float⦄ where
  lookup-fill_held-none :
      (held : List String) (s : String) (d : Dict (ArmedTrigger Real))
      → lookup s d ≡ none
      → lookup s (fill_held held d) ≡ none
  unfolding fill_held
  lookup-fill_held-none held s [] h = refl
  lookup-fill_held-none held s ((k, t) ∷ d) h = ground (arith, lookup-fill_held-none held s d)

  fill_held-NoDup :
      (held : List String) (d : Dict (ArmedTrigger Real)) → NoDup d → NoDup (fill_held held d)
  unfolding fill_held
  fill_held-NoDup held [] h = tt
  fill_held-NoDup held ((k, t) ∷ d) h =
      (lookup-fill_held-none held k d h.0, fill_held-NoDup held d h.1)

  module _ (book : ArmedTriggerBook Real) where
    priced-IsSound :
        (price : Option Real) (now : Real) (k : String) (t : ArmedTrigger Real)
        → IsSound book (k, t)
        → IsSound book (k, priced price now t)
    unfolding priced eligible
    priced-IsSound none now k t h = h
    priced-IsSound (some p) now k t h = h

    in_state-IsSound :
        (s : State) (k : String) (t : ArmedTrigger Real)
        → is_armed s ≡ false
        → IsSound book (k, t)
        → IsSound book (k, in_state s t)
    unfolding in_state
    in_state-IsSound s k t ne h = (h.0, ground arith)

    fill_held-IsSound :
        (held : List String) (d : Dict (ArmedTrigger Real))
        → All (IsSound book) d
        → All (IsSound book) (fill_held held d)
    unfolding fill_held
    fill_held-IsSound held [] h = tt
    fill_held-IsSound held ((k, t) ∷ d) h = elim (Bool-cases (mem k held)) [
      | inl e ↦ rw e (in_state-IsSound filled k t refl h.0, fill_held-IsSound held d h.1)
      | inr e ↦ rw e (h.0, fill_held-IsSound held d h.1)
    ]

  -- Every call keeps the book valid.
  pub step-IsValid :
      (c : Call) (book : ArmedTriggerBook Real) → IsValid book → IsValid (step c book)
  unfolding step update_price mark_fired mark_filled eligible
  step-IsValid (arms candidates) book h = arm-IsValid candidates book h
  step-IsValid (prices symbol price now) book h = (
    NoDup-modify symbol (priced price now) book.triggers h.0,
    All-modify (IsSound book) symbol (priced price now) book.triggers
        (priced-IsSound book price now) h.1,
  )
  step-IsValid (marks_fired symbol) book h = (
    NoDup-modify symbol (in_state fired) book.triggers h.0,
    All-modify (IsSound book) symbol (in_state fired) book.triggers
        (λ k t. in_state-IsSound book fired k t refl) h.1,
  )
  step-IsValid (marks_filled held) book h =
      (fill_held-NoDup held book.triggers h.0, fill_held-IsSound book held book.triggers h.1)

  pub run-IsValid :
      (calls : List Call) (book : ArmedTriggerBook Real) → IsValid book → IsValid (run calls book)
  unfolding run
  run-IsValid [] book h = h
  run-IsValid (c ∷ calls) book h = run-IsValid calls (step c book) (step-IsValid c book h)

  -- The levels are known, and lie as stop < trigger ≤ price.
  abbrev pub Crossed : Option Real → Option Real → Option Real → Type 0
  Crossed (some stop) (some trigger) (some price) =
      (n.rank stop < n.rank trigger) × (n.rank trigger ≤ n.rank price)
  Crossed _ _ _ = ⊥

  -- What `fires` promises of a trigger at a time.
  pub record MayFire (book : ArmedTriggerBook Real) (now : Real) (t : ArmedTrigger Real)
      : Type 0 where
    pub ready : t.state ≡ armed
    pub crossed : Crossed t.stop t.trigger t.price
    pub gap_from : n.rank book.gap_min ≤ n.rank t.gap_pct
    pub gap_to : n.rank t.gap_pct ≤ n.rank book.gap_max
    pub volume : n.rank book.rvol_min ≤ n.rank t.rvol
    pub wide : n.rank book.min_range_pct ≤ n.rank t.range_pct
    pub liquid : n.rank book.min_dollar_vol ≤ n.rank t.dollar_vol
    pub fresh :
        (n.rank book.max_price_age_s ≤ n.rank nought)
        ⊎ (n.rank (now ⊖ t.price_ts) ≤ n.rank book.max_price_age_s)

  may_fire-MayFire :
      (book : ArmedTriggerBook Real) (now : Real) (t : ArmedTrigger Real)
      → (not (is_armed t.state) || eligible book t) ≡ true
      → may_fire book now t ≡ true
      → MayFire book now t
  unfolding may_fire eligible
  may_fire-MayFire book now t sound e = record {
    ready = ground arith;
    crossed = crossing t.stop t.trigger t.price (ground arith) (ground arith);
    gap_from = ground arith;
    gap_to = ground arith;
    volume = ground arith;
    wide = ground arith;
    liquid = ground arith;
    fresh = ground arith;
  }
    where
      crossing :
          (stop trigger price : Option Real)
          → stop_below_trigger stop trigger ≡ true
          → reached price trigger ≡ true
          → Crossed stop trigger price
      crossing (some s) (some l) (some p) h k = ground arith
      crossing (some s) (some l) none h k = cc
      crossing (some s) none p h k = cc
      crossing none l p h k = cc

  fires_sound :
      (book : ArmedTriggerBook Real) (now : Real) (d : Dict (ArmedTrigger Real))
      → All (IsSound book) d
      → All (MayFire book now) (filter (may_fire book now) (values d))
  unfolding may_fire
  fires_sound book now [] h = tt
  fires_sound book now ((k, t) ∷ d) h = elim (Bool-cases (may_fire book now t)) [
    | inl e ↦ rw e (may_fire-MayFire book now t h.0.1 e, fires_sound book now d h.1)
    | inr e ↦ rw e (fires_sound book now d h.1)
  ]

  -- Whatever calls have been made on a valid book, each trigger that fires is armed, qualifies under
  -- the book's thresholds (so its stop is known and below its trigger), has a price at or through
  -- its trigger, and has a fresh price where the book asks for one.
  pub fires-run :
      (calls : List Call) (book : ArmedTriggerBook Real) (now : Real)
      → IsValid book
      → All (MayFire (run calls book) now) (fires (run calls book) now)
  unfolding fires
  fires-run calls book now h =
      fires_sound (run calls book) now (run calls book).triggers (run-IsValid calls book h).1
