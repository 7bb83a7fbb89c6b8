-- ===== src/Triggers/Calls.antt =====
-- The other methods of the book of runtime/triggers.py, and the sequences of calls on it.
use momentum_system.Prelude.{
  String, str_eq, Bool, false, ◌&&◌, ◌||◌, Option, none, some, List, [], ◌∷◌, filter, if◌then◌else◌,
}
use momentum_system.Prelude.Dict.{Dict, modify}
use momentum_system.Float.{Float, Real, nought, ◌⊖◌, ◌≤?◌}
use momentum_system.Triggers.Data.{
  is_armed, State, ArmedTrigger, Candidate, ArmedTriggerBook, fired, filled,
}
use momentum_system.Triggers.Arming.{arm}

module _ ⦃n : Float⦄ where
  -- the price, and the time of it unless the fetch failed
  unfoldable pub priced : Option Real → Real → ArmedTrigger Real → ArmedTrigger Real
  priced none now t = record t { price = none }
  priced (some p) now t = record t { price = some p; price_ts = now }

  unfoldable pub update_price :
      String → Option Real → Real → ArmedTriggerBook Real → ArmedTriggerBook Real
  update_price symbol price now book = record book {
    triggers = modify symbol (priced price now) book.triggers;
  }

  abbrev pub reached : Option Real → Option Real → Bool
  reached (some price) (some trigger) = trigger ≤? price
  reached _ _ = false

  unfoldable pub may_fire : ArmedTriggerBook Real → Real → ArmedTrigger Real → Bool
  may_fire book now t =
      is_armed t.state
      && reached t.price t.trigger
      && ((book.max_price_age_s ≤? nought) || ((now ⊖ t.price_ts) ≤? book.max_price_age_s))

  abbrev pub values {ℓ} : {A : Type ℓ} → Dict A → List A
  values [] = []
  values ((k, t) ∷ d) = t ∷ values d

  unfoldable pub fires : ArmedTriggerBook Real → Real → List (ArmedTrigger Real)
  unfolding may_fire
  fires book now = filter (may_fire book now) (values book.triggers)

  unfoldable pub in_state : State → ArmedTrigger Real → ArmedTrigger Real
  in_state s t = record t { state = s }

  unfoldable pub mark_fired : String → ArmedTriggerBook Real → ArmedTriggerBook Real
  unfolding in_state
  mark_fired symbol book = record book { triggers = modify symbol (in_state fired) book.triggers }

  abbrev pub mem : String → List String → Bool
  mem s [] = false
  mem s (x ∷ xs) = str_eq x s || mem s xs

  -- the loop of `mark_filled`
  unfoldable pub fill_held : List String → Dict (ArmedTrigger Real) → Dict (ArmedTrigger Real)
  unfolding in_state
  fill_held held [] = []
  fill_held held ((sym, t) ∷ d) =
      (sym, if mem sym held then in_state filled t else t) ∷ fill_held held d

  unfoldable pub mark_filled : List String → ArmedTriggerBook Real → ArmedTriggerBook Real
  unfolding fill_held
  mark_filled held book = record book { triggers = fill_held held book.triggers }

  -- a call on the book that changes it
  pub data Call : Type 0 where
    arms : List (Candidate Real) → Call
    prices : String → Option Real → Real → Call
    marks_fired : String → Call
    marks_filled : List String → Call

  unfoldable pub step : Call → ArmedTriggerBook Real → ArmedTriggerBook Real
  step (arms candidates) = arm candidates
  step (prices symbol price now) = update_price symbol price now
  step (marks_fired symbol) = mark_fired symbol
  step (marks_filled held) = mark_filled held

  unfoldable pub run : List Call → ArmedTriggerBook Real → ArmedTriggerBook Real
  run [] book = book
  run (c ∷ calls) book = run calls (step c book)
