-- ===== src/Tests/ExitManager.antt =====
-- runtime/exit_manager.py on one position.
use momentum_system.Prelude.{◌≡◌, refl, Bool, true, false, none, some, List, [], ◌∷◌, All, arith}
use momentum_system.Float.{Real}
use momentum_system.Exits.Data.{ExitConfig}
use momentum_system.ExitManager.Data.{
  BrokerPosition, Order, Minute, World, Manager, close_position, replace_order, emitted, stop_moved,
}
use momentum_system.ExitManager.Steps.{
  catastrophe_hit, is_naked, count_naked, first_red_step, scale_out_step, move_stop, ratchet_step,
  carry_out,
}
use momentum_system.ExitManager.Pass.{
  trail_on, trail_position, manage_position, manage_positions, held_of, drop_closed, manage_held,
  manage,
}
use momentum_system.ExitManager.Desk.{
  is_active, stop_leg, search_legs, find_leg, is_stop_leg, market_open, entry_time, entry_time_of,
}
use momentum_system.ExitManager.Tracking.{bars_since, since_entry, track, track_new}
use momentum_system.Exits.Backstop.{catastrophe_triggered}
use momentum_system.Exits.Trail.{
  trail_stop_of, breakeven_by_r, breakeven_by_pct, trailed, step_trailed, profit_locked,
}
use momentum_system.Exits.Manage.{manage_live, live_walk, closed_below_prior}
use momentum_system.ExitManager.Passes.{Permitted, manage-Permitted}
use momentum_system.ExitManager.Enforced.{Has, manage-catastrophe}
use momentum_system.ExitManager.Naked.{SeenNaked, Closes, passes, naked_stop_is_enforced}
use momentum_system.Tests.Fixed.{fixed}

-- a hard backstop at 10%, a grace of two passes, and a step trail
abbrev config : ExitConfig Real
config = record {
  target_r = 0;
  breakeven_at_r = 0;
  breakeven_at_pct = 0;
  trail_mode = "none";
  trail_pct = 0;
  trail_after_r = 10000;
  trail_r_step = 2500;
  scale_out_r = 0;
  scale_out_pct = 5000;
  first_red_exit = false;
  profit_lock_tiers = [];
  catastrophe_pct = 1000;
  catastrophe_risk_mult = 15000;
  enforce_stop_grace_passes = 2;
  default_trail_r_pct = 1000;
}

-- a hundred shares at 2.00, now at the price
abbrev held_at : Real → BrokerPosition Real
held_at price = record {
  symbol = "ABCD";
  avg_entry_price = 20000;
  current_price = price;
  qty = 1000000;
  is_long = true;
}

abbrev entry : Order Real
entry = record {
  id = some "1";
  symbol = some "ABCD";
  order_type = "limit";
  side = "buy";
  status = "filled";
  stop_price = none;
  filled_qty = 1000000;
  filled_at = some 3;
}

-- its stop leg at 1.90
abbrev leg : Order Real
leg = record {
  id = some "2";
  symbol = some "ABCD";
  order_type = "stop";
  side = "sell";
  status = "held";
  stop_price = some 19000;
  filled_qty = 0;
  filled_at = none;
}

abbrev minute : Minute Real
minute = record {
  timestamp = 4;
  bar = record { open_price = 20100; high = 20600; low = 20050; close = 20500 };
}

abbrev world : Bool → Real → List (Order Real) → World Real
world is_open price legs = record {
  positions = some (held_at price ∷ []);
  all_orders = λ symbols. some (record { parent = entry; legs = legs } ∷ []);
  open_orders = λ symbol. none;
  clock_is_open = some is_open;
  wall = none;
  bars = λ symbol. some (minute ∷ []);
  accepts = λ j a. true;
}

abbrev idle : Manager Real
idle = record { tracked = []; naked_passes = []; open_anchored = []; journal = []; actions = [] }

-- the high of 2.06 moves the stop to 2.025, rounded to cents
abbrev trailing : World Real
trailing = world true 20500 (leg ∷ [])

manage-Permitted_example : All (Permitted trailing config) (manage trailing config idle).journal
manage-Permitted_example = manage-Permitted trailing config idle

-- 25% under water, without a stop
abbrev sunk : World Real
sunk = world true 15000 []

manage-catastrophe_example : Has (close_position "ABCD") (manage sunk config idle).journal
unfolding catastrophe_hit catastrophe_triggered stop_leg search_legs find_leg is_stop_leg
    market_open held_of
manage-catastrophe_example =
    manage-catastrophe sunk config "ABCD" (held_at 15000) idle refl refl refl

-- at the entry, without a stop
abbrev bare : World Real
bare = world true 20000 []

seen : SeenNaked config "ABCD" bare
unfolding catastrophe_hit catastrophe_triggered is_naked stop_leg search_legs find_leg is_stop_leg
    market_open held_of
seen = record {
  position = held_at 20000;
  is_held = refl;
  no_hit = refl;
  naked = refl;
  opened = refl;
}

naked_stop_is_enforced_example : Closes "ABCD" (passes config (bare ∷ bare ∷ []) idle)
naked_stop_is_enforced_example =
    naked_stop_is_enforced config "ABCD" (bare ∷ bare ∷ []) idle tt (omega arith) refl
      (seen, (seen, tt))

-- one naked pass over another name
abbrev once : Manager Real
once = record idle { naked_passes = ("WXYZ", 1) ∷ [] }

-- the whole pass: the first pass over a bare position counts, and the second closes it
counts_first :
    let m = manage bare config idle in (m.journal ≡ []) × (m.naked_passes ≡ ("ABCD", 1) ∷ [])
unfolding manage manage_held manage_positions manage_position drop_closed count_naked
    catastrophe_hit catastrophe_triggered is_naked stop_leg search_legs find_leg is_stop_leg
    market_open held_of is_active
counts_first = (refl, refl)

-- the stop moves up behind the high
moves_stop :
    (manage trailing config idle).journal ≡ emitted stop_moved "ABCD" ∷ replace_order "2" 20300 ∷ []
unfolding manage manage_held manage_positions manage_position drop_closed count_naked
    catastrophe_hit catastrophe_triggered is_naked stop_leg search_legs find_leg is_stop_leg
    market_open held_of is_active trail_position trail_on track track_new entry_time entry_time_of
    since_entry bars_since carry_out first_red_step scale_out_step ratchet_step move_stop
    manage_live live_walk closed_below_prior trail_stop_of breakeven_by_r breakeven_by_pct trailed
    step_trailed profit_locked
moves_stop = refl
