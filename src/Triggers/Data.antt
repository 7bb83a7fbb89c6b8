-- ===== src/Triggers/Data.antt =====
-- The dataclasses of runtime/triggers.py.
use momentum_system.Prelude.{ℕ, String, Bool, true, false, Option, none}
use momentum_system.Prelude.Dict.{Dict}
use momentum_system.Float.{Float, Real, nought}

pub data State : Type 0 where
  waiting armed weak fired filled : State

-- `_COMMITTED`
unfoldable pub committed : State → Bool
committed fired = true
committed filled = true
committed _ = false

pub record ArmedTrigger (R : Type 0) : Type 0 where
  pub symbol : String
  pub gap_pct : R
  pub rvol : R
  pub trigger : Option R
  pub stop : Option R
  pub range_pct : R
  pub price : Option R
  pub price_ts : R
  pub cum_volume : R
  pub dollar_vol : R
  pub catalyst : String
  pub day_open : Option R
  pub state : State
  pub rank : ℕ

-- A candidate's dict; a key that is absent is `none`.
pub record Candidate (R : Type 0) : Type 0 where
  pub symbol : String
  pub gap_pct : Option R
  pub rvol : Option R
  pub trigger : Option R
  pub stop : Option R
  pub range_pct : Option R
  pub cum_volume : Option R
  pub dollar_vol : Option R
  pub catalyst : Option String
  pub day_open : Option R
  pub complete : Bool

pub record ArmedTriggerBook (R : Type 0) : Type 0 where
  pub max_armed : ℕ
  pub gap_min : R
  pub gap_max : R
  pub rvol_min : R
  pub min_range_pct : R
  pub min_dollar_vol : R
  pub max_price_age_s : R
  pub triggers : Dict (ArmedTrigger R)

abbrev pub is_armed : State → Bool
is_armed armed = true
is_armed _ = false

module _ ⦃n : Float⦄ where
  -- the dataclass's defaults
  abbrev pub fresh_trigger : String → ArmedTrigger Real
  fresh_trigger sym = record {
    symbol = sym;
    gap_pct = nought;
    rvol = nought;
    trigger = none;
    stop = none;
    range_pct = nought;
    price = none;
    price_ts = nought;
    cum_volume = nought;
    dollar_vol = nought;
    catalyst = "";
    day_open = none;
    state = waiting;
    rank = 0;
  }
