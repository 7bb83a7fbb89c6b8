-- ===== src/Tests/Exits.antt =====
-- strategy/exits.py on two sessions.
use momentum_system.Prelude.{◌≤◌, ◌<◌, ◌≡◌, refl, true, false, some, [], ◌∷◌}
use momentum_system.Float.{Real, rank}
use momentum_system.Exits.Data.{Bar, ExitConfig, trail_stop}
use momentum_system.Exits.Trail.{
  trail_stop_of, breakeven_by_r, breakeven_by_pct, trailed, step_trailed, profit_locked,
}
use momentum_system.Exits.Backstop.{catastrophe_triggered}
use momentum_system.Exits.Backtest.{
  session_close, sim_bar, sim_loop, sim_start, SimState, running, simulate_exit,
}
use momentum_system.Exits.Manage.{manage_live}
use momentum_system.Exits.Simulate.{Booked, simulate_exit-Booked}
use momentum_system.Exits.Live.{manage_live_tightens, manage_live-eq-sim_loop}
use momentum_system.Tests.Fixed.{fixed}

-- a step trail of 0.25R, and no target
abbrev config : ExitConfig Real
config = record {
  target_r = 0;
  breakeven_at_r = 0;
  breakeven_at_pct = 0;
  trail_mode = "none";
  trail_pct = 0;
  trail_after_r = 10000;
  trail_r_step = 2500;
  scale_out_r = 0;
  scale_out_pct = 5000;
  first_red_exit = false;
  profit_lock_tiers = [];
  catastrophe_pct = 1000;
  catastrophe_risk_mult = 15000;
  enforce_stop_grace_passes = 2;
  default_trail_r_pct = 1000;
}

-- entry 2.00, stop 1.90: up to 2.06, then back through the ratcheted stop
abbrev pop : Bar Real
pop = record { open_price = 20100; high = 20600; low = 20050; close = 20500 }

abbrev fade : Bar Real
fade = record { open_price = 20400; high = 20400; low = 19500; close = 19600 }

-- the stop has moved to +0.25R, and the fade is filled there
trails_out :
    let res = simulate_exit 20000 19000 (pop ∷ fade ∷ []) config in
    (res.reason ≡ trail_stop) × (res.exit_index ≡ 1) × (res.r_multiple ≡ 2500)
unfolding simulate_exit sim_loop sim_bar session_close trail_stop_of breakeven_by_r breakeven_by_pct
    trailed step_trailed profit_locked
trails_out = (refl, refl, refl)

abbrev after_pop : SimState Real
after_pop = record {
  stop = 20250;
  high_water = 20600;
  remaining = 10000;
  realized_r = 0;
  scaled = false;
  fills = [];
  prev_low = some 20050;
}

runs_on : sim_loop config 20000 19000 0 (pop ∷ []) (sim_start 20000 19000) ≡ running after_pop
unfolding sim_loop sim_bar trail_stop_of breakeven_by_r breakeven_by_pct trailed step_trailed
    profit_locked
runs_on = refl

manage_live_tightens_example :
    rank (manage_live 20000 19000 (pop ∷ []) config false).desired_stop
    ≤ rank (manage_live 20000 19000 (pop ∷ fade ∷ []) config true).desired_stop
manage_live_tightens_example =
    manage_live_tightens 20000 19000 (pop ∷ []) (fade ∷ []) config false true

manage_live-eq-sim_loop_example :
    (manage_live 20000 19000 (pop ∷ []) config false).desired_stop ≡ 20250
manage_live-eq-sim_loop_example =
    manage_live-eq-sim_loop config 20000 19000 pop [] false after_pop refl runs_on

simulate_exit-Booked_example :
    let res = simulate_exit 20000 19000 (pop ∷ fade ∷ []) config in
    Booked 19000 res × (res.exit_index < 2)
simulate_exit-Booked_example = simulate_exit-Booked 20000 19000 pop (fade ∷ []) config refl

falls_through : catastrophe_triggered 20000 17500 (some 19000) 1000 15000 ≡ true
unfolding catastrophe_triggered
falls_through = refl
