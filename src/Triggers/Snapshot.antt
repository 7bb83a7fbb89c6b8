-- ===== src/Triggers/Snapshot.antt =====
-- `snapshot` of runtime/triggers.py: the rows of the watchlist, in order.
use momentum_system.Prelude.{
  ℕ, String, Bool, ◌&&◌, ◌||◌, Option, none, some, List, [], ◌∷◌, map, ltb, leb, ◌==◌,
  if◌then◌else◌,
}
use momentum_system.Float.{Float, Real, nought, ◌=?◌}
use momentum_system.Triggers.Data.{
  State, ArmedTrigger, ArmedTriggerBook, waiting, armed, weak, fired, filled,
}
use momentum_system.Triggers.Arming.{distance_pct}
use momentum_system.Triggers.Calls.{values}

module _ ⦃n : Float⦄ where
  -- the order of `snapshot`, by state and then by rank
  unfoldable pub state_order : State → ℕ
  state_order armed = 0
  state_order fired = 1
  state_order filled = 2
  state_order waiting = 3
  state_order weak = 4

  -- the key of the sort puts `s` no later than `t`
  unfoldable pub no_later : ArmedTrigger Real → ArmedTrigger Real → Bool
  unfolding state_order
  no_later s t =
      ltb (state_order s.state) (state_order t.state)
      || ((state_order s.state == state_order t.state) && leb s.rank t.rank)

  unfoldable pub place : ArmedTrigger Real → List (ArmedTrigger Real) → List (ArmedTrigger Real)
  place t [] = t ∷ []
  place t (s ∷ rows) = if no_later t s then t ∷ s ∷ rows else s ∷ place t rows

  -- `sorted` is stable: equal keys keep the order of the dict
  unfoldable pub sorted : List (ArmedTrigger Real) → List (ArmedTrigger Real)
  sorted [] = []
  sorted (t ∷ rows) = place t (sorted rows)

  pub record Row : Type 0 where
    pub symbol : String
    pub state : State
    pub rank : ℕ
    pub gap : Real
    pub rvol : Real
    pub trigger : Option Real
    pub stop : Option Real
    pub price : Option Real
    pub dist : Option Real
    pub range_pct : Real
    pub catalyst : String

  -- `round(x, 4) if x else None`
  abbrev rounded : Option Real → Option Real
  rounded none = none
  rounded (some x) = if x =? nought then none else some (n.round x 4)

  abbrev round_dist : Option Real → Option Real
  round_dist none = none
  round_dist (some d) = some (n.round d 5)

  unfoldable pub as_dict : ArmedTrigger Real → Row
  unfolding distance_pct
  as_dict t = record {
    symbol = t.symbol;
    state = t.state;
    rank = t.rank;
    gap = n.round t.gap_pct 2;
    rvol = n.round t.rvol 2;
    trigger = rounded t.trigger;
    stop = rounded t.stop;
    price = rounded t.price;
    dist = round_dist (distance_pct t);
    range_pct = n.round t.range_pct 4;
    catalyst = t.catalyst;
  }

  unfoldable pub snapshot : ArmedTriggerBook Real → List Row
  unfolding as_dict sorted
  snapshot book = map as_dict (sorted (values book.triggers))
