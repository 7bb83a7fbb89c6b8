-- ===== src/Tests/Triggers.antt =====
-- runtime/triggers.py on a small watchlist.
use momentum_system.Prelude.{◌≤◌, ◌≡◌, ◌≢◌, refl, String, true, none, some, List, [], ◌∷◌, All, map}
use momentum_system.Float.{Real}
use momentum_system.Triggers.Data.{filled, ArmedTrigger, ArmedTriggerBook, Candidate}
use momentum_system.Triggers.Arming.{active, pinned, classify, refreshed, arm_loop, arm}
use momentum_system.Triggers.Calls.{
  priced, update_price, mark_fired, fires, Call, arms, prices, step, run,
}
use momentum_system.Triggers.Arm.{IsValid, active-arm}
use momentum_system.Triggers.Life.{MayFire, fires-run}
use momentum_system.Triggers.Once.{fires_once}
use momentum_system.Tests.Fixed.{fixed}

abbrev empty : ArmedTriggerBook Real
empty = record {
  max_armed = 2;
  gap_min = 30000;
  gap_max = 10000000;
  rvol_min = 20000;
  min_range_pct = 40;
  min_dollar_vol = 0;
  max_price_age_s = 50000;
  triggers = [];
}

abbrev gapper : String → Candidate Real
gapper name = record {
  symbol = name;
  gap_pct = some 80000;
  rvol = some 30000;
  trigger = some 20000;
  stop = some 19000;
  range_pct = some 500;
  cum_volume = none;
  dollar_vol = some 10000;
  catalyst = none;
  day_open = none;
  complete = true;
}

abbrev ranking : List (Candidate Real)
ranking = gapper "A" ∷ gapper "B" ∷ gapper "C" ∷ []

abbrev calls : List Call
calls = arms ranking ∷ prices "A" (some 20100) 5 ∷ prices "B" (some 19900) 5 ∷ []

-- of the two that fit, the one whose price has crossed fires
one_fires : map (λ t. t.symbol) (fires (run calls empty) 6) ≡ "A" ∷ []
unfolding run step arm arm_loop pinned active refreshed classify update_price priced fires
one_fires = refl

active-arm_example : active (arm ranking empty).triggers ≤ 2
active-arm_example = active-arm ranking empty

abbrev filled_a : ArmedTrigger Real
filled_a = record {
  symbol = "A";
  gap_pct = 80000;
  rvol = 30000;
  trigger = some 20000;
  stop = some 19000;
  range_pct = 500;
  price = some 20100;
  price_ts = 5;
  cum_volume = 0;
  dollar_vol = 10000;
  catalyst = "";
  day_open = none;
  state = filled;
  rank = 1;
}

abbrev holding : ArmedTriggerBook Real
holding = record empty { triggers = ("A", filled_a) ∷ [] }

holding-IsValid : IsValid holding
holding-IsValid = ((refl, tt), ((refl, refl), tt))

fires-run_example : All (MayFire (run calls holding) 6) (fires (run calls holding) 6)
fires-run_example = fires-run calls holding 6 holding-IsValid

fires_once_example : All (λ t. t.symbol ≢ "A") (fires (run calls (mark_fired "A" holding)) 6)
fires_once_example = fires_once "A" calls holding 6 holding-IsValid (λ e. cc)
