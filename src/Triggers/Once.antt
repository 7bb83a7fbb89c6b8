-- ===== src/Triggers/Once.antt =====
-- Committed trades in runtime/triggers.py: a symbol that has fired stays committed and is not fired again.
use momentum_system.Prelude.{
  ◌≡◌, ◌≢◌, refl, String, str_eq, eq_iff, true, false, inl, inr, Option, none, some, List, [], ◌∷◌,
  filter, if◌then◌else◌, Bool-cases, Option-cases, All, arith,
}
use momentum_system.Prelude.Dict.{Dict, lookup, modify, lookup-modify, NoDup}
use momentum_system.Float.{Float, Real}
use momentum_system.Triggers.Data.{fired, filled, committed, ArmedTrigger, ArmedTriggerBook}
use momentum_system.Triggers.Calls.{
  priced, update_price, may_fire, values, fires, in_state, mark_fired, fill_held, mark_filled, mem,
  Call, arms, prices, marks_fired, marks_filled, step, run,
}
use momentum_system.Triggers.Arm.{IsSound, IsValid, lookup-arm-committed}
use momentum_system.Triggers.Life.{step-IsValid, run-IsValid}

module _ ⦃n : Float⦄ where
  -- The symbol is in the book, with a trade committed to it.
  abbrev pub IsCommitted : String → ArmedTriggerBook Real → Type 0
  IsCommitted s book =
      (t : ArmedTrigger Real) × (lookup s book.triggers ≡ some t) × (committed t.state ≡ true)

  modify-committed :
      (symbol : String) (f : ArmedTrigger Real → ArmedTrigger Real) (s : String)
      (d : Dict (ArmedTrigger Real)) {t : ArmedTrigger Real}
      → ((u : ArmedTrigger Real) → committed u.state ≡ true → committed (f u).state ≡ true)
      → lookup s d ≡ some t
      → committed t.state ≡ true
      → (u : ArmedTrigger Real) × (lookup s (modify symbol f d) ≡ some u)
        × (committed u.state ≡ true)
  modify-committed symbol f s d {t} keep h c = elim (Bool-cases (str_eq symbol s)) [
    | inl e ↦ (f t, rw (lookup-modify symbol s f d) (ground arith), keep t c)
    | inr e ↦ (t, rw (lookup-modify symbol s f d) (ground arith), c)
  ]

  fill_held-committed :
      (held : List String) (s : String) (d : Dict (ArmedTrigger Real)) {t : ArmedTrigger Real}
      → lookup s d ≡ some t
      → committed t.state ≡ true
      → (u : ArmedTrigger Real) × (lookup s (fill_held held d) ≡ some u)
        × (committed u.state ≡ true)
  unfolding fill_held committed
  fill_held-committed held s [] h c = cc
  fill_held-committed held s ((k, v) ∷ d) {t} h c = elim (Bool-cases (str_eq k s)) [
    | inl e ↦ (if mem k held then in_state filled v else v, ground arith, ground arith)
    | inr e ↦ rw e (fill_held-committed held s d {t = t} (rw e at h) c)
  ]

  committed-priced :
      (price : Option Real) (now : Real) (u : ArmedTrigger Real)
      → committed u.state ≡ true
      → committed (priced price now u).state ≡ true
  unfolding priced
  committed-priced none now u h = h
  committed-priced (some p) now u h = h

  -- A symbol with a committed trade keeps one through every call.
  pub step-IsCommitted :
      (c : Call) (s : String) (book : ArmedTriggerBook Real)
      → IsCommitted s book
      → IsCommitted s (step c book)
  unfolding step update_price mark_fired mark_filled committed
  step-IsCommitted (arms candidates) s book (t, h, c) =
      (t, lookup-arm-committed candidates book s t h c, c)
  step-IsCommitted (prices symbol price now) s book (t, h, c) =
      modify-committed symbol (priced price now) s book.triggers (committed-priced price now) h c
  step-IsCommitted (marks_fired symbol) s book (t, h, c) =
      modify-committed symbol (in_state fired) s book.triggers (λ u k. refl) h c
  step-IsCommitted (marks_filled held) s book (t, h, c) =
      fill_held-committed held s book.triggers h c

  run-IsCommitted :
      (calls : List Call) (s : String) (book : ArmedTriggerBook Real)
      → IsCommitted s book
      → IsCommitted s (run calls book)
  unfolding run
  run-IsCommitted [] s book h = h
  run-IsCommitted (c ∷ calls) s book h =
      run-IsCommitted calls s (step c book) (step-IsCommitted c s book h)

  module _ (book : ArmedTriggerBook Real) (now : Real) (s : String) where
    abbrev OtherThan : ArmedTrigger Real → Type 0
    OtherThan t = t.symbol ≢ s

    fires_absent :
        (d : Dict (ArmedTrigger Real))
        → All (IsSound book) d
        → lookup s d ≡ none
        → All OtherThan (filter (may_fire book now) (values d))
    fires_absent [] h e = tt
    fires_absent ((k, t) ∷ d) h e = elim (Bool-cases (may_fire book now t)) [
      | inl f ↦ rw f (λ q. ground (arith, eq_iff k s, h.0.0), fires_absent d h.1 (ground arith))
      | inr f ↦ rw f (fires_absent d h.1 (ground arith))
    ]

    fires_others :
        (d : Dict (ArmedTrigger Real)) {u : ArmedTrigger Real}
        → NoDup d
        → All (IsSound book) d
        → lookup s d ≡ some u
        → committed u.state ≡ true
        → All OtherThan (filter (may_fire book now) (values d))
    unfolding may_fire committed
    fires_others [] nd h e c = cc
    fires_others ((k, t) ∷ d) {u} nd h e c = elim (Bool-cases (str_eq k s)) [
      | inl same ↦ rw (idle (ground arith)) (fires_absent d h.1 (rw ((eq_iff k s).0 same) at nd.0))
      | inr other ↦ elim (Bool-cases (may_fire book now t)) [
        | inl f ↦ rw f (
          λ q. ground (arith, eq_iff k s, h.0.0),
          fires_others d {u = u} nd.1 h.1 (rw other at e) c,
        )
        | inr f ↦ rw f (fires_others d {u = u} nd.1 h.1 (rw other at e) c)
      ]
    ]
      where
        idle : committed t.state ≡ true → may_fire book now t ≡ false
        idle k = ground arith

  mark_fired-IsCommitted :
      (s : String) (book : ArmedTriggerBook Real)
      → lookup s book.triggers ≢ none
      → IsCommitted s (mark_fired s book)
  unfolding mark_fired committed
  mark_fired-IsCommitted s book known = elim (Option-cases (lookup s book.triggers)) [
    | inl absent ↦ absurd (known absent)
    | inr (t, e) ↦ (
      in_state fired t,
      rw (lookup-modify s s (in_state fired) book.triggers) (ground (arith, eq_iff s s)),
      refl,
    )
  ]

  -- Once a symbol of a valid book is marked as fired it does not fire again, whatever calls follow:
  -- no re-ranking, price or fill makes `fires` return it.
  pub fires_once :
      (s : String) (calls : List Call) (book : ArmedTriggerBook Real) (now : Real)
      → IsValid book
      → lookup s book.triggers ≢ none
      → All (λ t. t.symbol ≢ s) (fires (run calls (mark_fired s book)) now)
  unfolding fires step
  fires_once s calls book now valid known =
      let marked = mark_fired s book in
      let after = run calls marked in
      let (t, found, c) = run-IsCommitted calls s marked (mark_fired-IsCommitted s book known) in
      let sound = run-IsValid calls marked (step-IsValid (marks_fired s) book valid) in
      fires_others after now s after.triggers {u = t} sound.0 sound.1 found c
