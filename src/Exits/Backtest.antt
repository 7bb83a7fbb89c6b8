-- ===== src/Exits/Backtest.antt =====
-- `simulate_exit` of strategy/exits.py.
use momentum_system.Prelude.{
  ℕ, suc, Bool, true, false, not, ◌&&◌, Option, none, some, List, [], ◌∷◌, ◌++◌, length,
  if◌then◌else◌,
}
use momentum_system.Float.{
  Float, Real, lit, nought, one, ◌⊕◌, ◌⊖◌, ◌⊗◌, ◌⊘◌, ◌<?◌, ◌≤?◌, fmax, fmin, fabs,
}
use momentum_system.Exits.Data.{
  Bar, ExitConfig, Reason, invalid, breakeven, trail_stop, stop_loss, scale_out, first_red,
  session_end, ExitFill, ExitResult, truthy,
}
use momentum_system.Exits.Trail.{trail_stop_of}

-- The variables of the loop of `simulate_exit`.
pub record SimState (R : Type 0) : Type 0 where
  pub stop : R
  pub high_water : R
  pub remaining : R
  pub realized_r : R
  pub scaled : Bool
  pub fills : List (ExitFill R)
  pub prev_low : Option R

-- A round of the loop returns from the function, or goes on to the next bar.
pub data Round (R : Type 0) : Type 0 where
  closed : ExitResult R → Round R
  running : SimState R → Round R

module _ ⦃n : Float⦄ where
  -- (1) of the loop: the stop fills before anything else in the bar
  unfoldable pub stop_reason : Real → Real → Real → Reason
  stop_reason stop entry init_stop =
      if fabs (stop ⊖ entry) <? lit 1 1000000000
      then breakeven
      else if init_stop <? stop
      then trail_stop
      else stop_loss

  unfoldable pub stop_out : Real → Real → ℕ → SimState Real → ExitResult Real
  unfolding stop_reason
  stop_out entry init_stop idx st =
      let reason = stop_reason st.stop entry init_stop in
      record {
        r_multiple = st.realized_r ⊕ st.remaining ⊗ ((st.stop ⊖ entry) ⊘ (entry ⊖ init_stop));
        reason = reason;
        exit_index = idx;
        fills = st.fills ++ record { frac = st.remaining; price = st.stop; reason = reason } ∷ [];
      }

  -- (2): sell a fraction into strength, once
  unfoldable pub scales_out : ExitConfig Real → Real → Real → Bar Real → SimState Real → Bool
  scales_out cfg entry risk bar st =
      truthy cfg.scale_out_r && not st.scaled && ((entry ⊕ cfg.scale_out_r ⊗ risk) ≤? bar.high)

  unfoldable pub scale_fill : ExitConfig Real → Real → Real → SimState Real → SimState Real
  scale_fill cfg entry risk st =
      let frac = fmin cfg.scale_out_pct st.remaining in
      record st {
        realized_r = st.realized_r ⊕ frac ⊗ cfg.scale_out_r;
        remaining = st.remaining ⊖ frac;
        scaled = true;
        fills =
            st.fills
            ++ record { frac = frac; price = entry ⊕ cfg.scale_out_r ⊗ risk; reason = scale_out }
              ∷ [];
      }

  -- the result where the scale-out has sold everything
  unfoldable pub scaled_flat : ℕ → SimState Real → ExitResult Real
  scaled_flat idx part = record {
    r_multiple = part.realized_r;
    reason = scale_out;
    exit_index = idx;
    fills = part.fills;
  }

  -- the fill that closes what remains at a price, for a known number of R
  unfoldable pub close_at : Reason → Real → Real → ℕ → SimState Real → ExitResult Real
  close_at reason price r idx st = record {
    r_multiple = st.realized_r ⊕ st.remaining ⊗ r;
    reason = reason;
    exit_index = idx;
    fills = st.fills ++ record { frac = st.remaining; price = price; reason = reason } ∷ [];
  }

  unfoldable pub breaks_prior_low : ExitConfig Real → Bar Real → SimState Real → Bool
  breaks_prior_low cfg bar st =
      cfg.first_red_exit && elim st.prev_low [ none ↦ false | some low ↦ bar.close <? low ]

  unfoldable pub target_hit : ExitConfig Real → Real → Real → Bar Real → Bool
  target_hit cfg entry risk bar = truthy cfg.target_r && ((entry ⊕ cfg.target_r ⊗ risk) ≤? bar.high)

  -- (3), (4) and (5): the target, the first red bar, the stop for the next bar
  unfoldable pub after_scaling :
      ExitConfig Real → Real → Real → ℕ → Bar Real → Real → SimState Real → Round Real
  unfolding close_at target_hit breaks_prior_low
  after_scaling cfg entry init_stop idx bar reached_r st =
      let risk = entry ⊖ init_stop in
      if target_hit cfg entry risk bar
      then closed (close_at Reason.target (entry ⊕ cfg.target_r ⊗ risk) cfg.target_r idx st)
      else if breaks_prior_low cfg bar st
      then closed (close_at first_red bar.close ((bar.close ⊖ entry) ⊘ risk) idx st)
      else running (record st {
        stop = trail_stop_of st.stop entry st.high_water bar.low reached_r cfg;
        prev_low = some bar.low;
      })

  -- one round of the loop
  unfoldable pub sim_bar : ExitConfig Real → Real → Real → ℕ → Bar Real → SimState Real → Round Real
  unfolding stop_out scales_out scale_fill scaled_flat after_scaling
  sim_bar cfg entry init_stop idx bar st =
      let risk = entry ⊖ init_stop in
      let high_water = fmax st.high_water bar.high in
      let reached_r = (high_water ⊖ entry) ⊘ risk in
      let seen = record st { high_water = high_water } in
      let part = scale_fill cfg entry risk seen in
      if bar.low ≤? st.stop
      then closed (stop_out entry init_stop idx seen)
      else if scales_out cfg entry risk bar seen
      then (if part.remaining ≤? lit 1 1000000000
          then closed (scaled_flat idx part)
          else after_scaling cfg entry init_stop idx bar reached_r part)
      else after_scaling cfg entry init_stop idx bar reached_r seen

  -- the loop over the bars; a state is what is still open at the end of the session
  unfoldable pub sim_loop :
      ExitConfig Real → Real → Real → ℕ → List (Bar Real) → SimState Real → Round Real
  sim_loop cfg entry init_stop idx [] st = running st
  sim_loop cfg entry init_stop idx (bar ∷ bars) st = elim (sim_bar cfg entry init_stop idx bar st) [
    | closed res ↦ closed res
    | running st' ↦ sim_loop cfg entry init_stop (suc idx) bars st'
  ]

  abbrev pub sim_start : Real → Real → SimState Real
  sim_start entry init_stop = record {
    stop = init_stop;
    high_water = entry;
    remaining = one;
    realized_r = nought;
    scaled = false;
    fills = [];
    prev_low = none;
  }

  -- `bars.iloc[-1]`, of the bar `b` and those after it
  abbrev pub last_bar : Bar Real → List (Bar Real) → Bar Real
  last_bar b [] = b
  last_bar b (c ∷ bars) = last_bar c bars

  -- the fill at the last close, if the loop has run through
  unfoldable pub session_close : Real → Real → Bar Real → ℕ → Round Real → ExitResult Real
  session_close entry init_stop last idx (closed res) = res
  session_close entry init_stop last idx (running st) =
      close_at session_end last.close ((last.close ⊖ entry) ⊘ (entry ⊖ init_stop)) idx st

  unfoldable pub simulate_exit : Real → Real → List (Bar Real) → ExitConfig Real → ExitResult Real
  simulate_exit entry init_stop [] cfg = record {
    r_multiple = nought;
    reason = invalid;
    exit_index = 0;
    fills = [];
  }
  simulate_exit entry init_stop (b ∷ bars) cfg =
      if (entry ⊖ init_stop) ≤? nought
      then record { r_multiple = nought; reason = invalid; exit_index = 0; fills = [] }
      else session_close entry init_stop (last_bar b bars) (length bars)
          (sim_loop cfg entry init_stop 0 (b ∷ bars) (sim_start entry init_stop))
