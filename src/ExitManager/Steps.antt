-- ===== src/ExitManager/Steps.antt =====
-- runtime/exit_manager.py: the steps of `manage` on one position.
use momentum_system.Prelude.{
  ℕ, suc, String, str_eq, Bool, true, false, not, ◌&&◌, Option, none, some, List, leb, ◌==◌,
  if◌then◌else◌,
}
use momentum_system.Prelude.Int.{pos, leb_ℤ}
use momentum_system.Prelude.Dict.{lookup, insert, erase, modify}
use momentum_system.Float.{Float, Real, lit, nought, ◌⊕◌, ◌⊗◌, ◌<?◌, ◌≤?◌}
use momentum_system.Exits.Data.{ExitConfig, ExitDecision, truthy}
use momentum_system.Exits.Backstop.{catastrophe_triggered}
use momentum_system.ExitManager.Data.{
  Bracket, BrokerPosition, close_part, replace_order, exit_catastrophe, exit_naked_stop,
  exit_first_red, exit_scale_out, exit_trail, stop_moved, catastrophe_exit, naked_stop_exit,
  first_red_taken, trail_exit, catastrophe_rest_stop, rested_stop, scaled_out, stop_to, Tracked,
  World, Manager,
}
use momentum_system.ExitManager.Desk.{
  stop_leg, request, note, flatten, whole_qty, rest_protective_stop,
}

module _ ⦃n : Float⦄ where
  abbrev pub pop_tracked : String → Manager Real → Manager Real
  pop_tracked symbol m = record m { tracked = erase symbol m.tracked }

  abbrev pub pop_naked : String → Manager Real → Manager Real
  pop_naked symbol m = record m { naked_passes = erase symbol m.naked_passes }

  -- the test of the hard backstop, for a position whose stop leg is at `stop`
  unfoldable pub catastrophe_hit : ExitConfig Real → BrokerPosition Real → Option Real → Bool
  catastrophe_hit cfg p stop =
      truthy cfg.catastrophe_pct
      && (nought <? p.avg_entry_price)
      && (nought <? p.current_price)
      && p.is_long
      && catastrophe_triggered p.avg_entry_price p.current_price stop cfg.catastrophe_pct
          cfg.catastrophe_risk_mult

  -- what the pass does where the backstop is hit
  unfoldable pub enforce_catastrophe :
      World Real
      → ExitConfig Real
      → Option (List (Bracket Real))
      → Bool
      → String
      → BrokerPosition Real
      → Option Real
      → Manager Real
      → Manager Real
  enforce_catastrophe w cfg orders true symbol p stop m =
      let (ok, after) = flatten w symbol orders m in
      if ok
      then pop_naked symbol
          (pop_tracked symbol (note exit_catastrophe symbol catastrophe_exit after))
      else after
  enforce_catastrophe w cfg orders false symbol p (some stop) m = m
  enforce_catastrophe w cfg orders false symbol p none m =
      let (placed, after) =
        rest_protective_stop w cfg symbol p p.avg_entry_price p.current_price m in
      elim placed [
        | none ↦ after
        | some px ↦
            pop_naked symbol
              (pop_tracked symbol (note exit_catastrophe symbol (catastrophe_rest_stop px) after))
      ]

  -- the stop enforcement from the limit on
  unfoldable pub enforce_naked :
      World Real
      → ExitConfig Real
      → Option (List (Bracket Real))
      → Bool
      → String
      → BrokerPosition Real
      → Manager Real
      → Manager Real
  enforce_naked w cfg orders true symbol p m =
      let (ok, after) = flatten w symbol orders m in
      if ok then pop_tracked symbol (note exit_naked_stop symbol naked_stop_exit after) else after
  enforce_naked w cfg orders false symbol p m =
      let (placed, after) =
        rest_protective_stop w cfg symbol p p.avg_entry_price p.current_price m in
      elim placed [
        | none ↦ after
        | some px ↦ pop_tracked symbol (note exit_naked_stop symbol (rested_stop px) after)
      ]

  -- `self._naked_passes.get(sym, 0)`
  abbrev pub passes_of : String → Manager Real → ℕ
  passes_of symbol m = elim (lookup symbol m.naked_passes) [ none ↦ 0 | some k ↦ k ]

  -- a pass over a position without a live stop
  unfoldable pub count_naked :
      World Real
      → ExitConfig Real
      → Option (List (Bracket Real))
      → Bool
      → String
      → BrokerPosition Real
      → Manager Real
      → Manager Real
  count_naked w cfg orders is_open symbol p m =
      let passes = suc (passes_of symbol m) in
      let counted = record m { naked_passes = insert symbol passes m.naked_passes } in
      if leb cfg.enforce_stop_grace_passes passes
      then pop_naked symbol (enforce_naked w cfg orders is_open symbol p counted)
      else counted

  unfoldable pub is_naked : ExitConfig Real → BrokerPosition Real → Option String → Bool
  is_naked cfg p leg_id =
      not (cfg.enforce_stop_grace_passes == 0)
      && (nought <? p.avg_entry_price)
      && elim leg_id [ none ↦ true | some _ ↦ false ]

  -- (1) the first-red exit; whether the pass is done with the position
  unfoldable pub first_red_step :
      World Real
      → Option (List (Bracket Real))
      → String
      → ExitDecision Real
      → Manager Real
      → Bool × Manager Real
  first_red_step w orders symbol d m =
      let (ok, after) = flatten w symbol orders m in
      if d.exit_now
      then (if ok
          then (true, pop_tracked symbol (note exit_first_red symbol first_red_taken after))
          else (false, after))
      else (false, m)

  -- (2) the sale of a part
  unfoldable pub scale_out_step :
      World Real
      → String
      → BrokerPosition Real
      → ExitDecision Real
      → Tracked Real
      → Manager Real
      → Manager Real
  scale_out_step w symbol p d tr m =
      let sell = n.trunc (n.of_int (whole_qty p) ⊗ d.scale_out_frac) in
      let (ok, asked) = request w (close_part symbol sell) m in
      if (nought <? d.scale_out_frac) && not tr.scaled && leb_ℤ (pos 1) sell
      then (if ok
          then note exit_scale_out symbol (scaled_out sell) (record asked {
            tracked = modify symbol (λ t. record t { scaled = true }) asked.tracked;
          })
          else asked)
      else m

  -- (3) the move of the stop from `stop`, or the exit where it has been passed
  unfoldable pub move_stop :
      World Real
      → Option (List (Bracket Real))
      → String
      → BrokerPosition Real
      → Real
      → Option String
      → Manager Real
      → Manager Real
  move_stop w orders symbol p desired leg_id m =
      let (closed, after) = flatten w symbol orders m in
      if (nought <? p.current_price) && (p.current_price ≤? desired)
      then (if closed then pop_tracked symbol (note exit_trail symbol trail_exit after) else after)
      else elim leg_id [
        | none ↦ m
        | some id ↦
            let (ok, asked) = request w (replace_order id (n.round desired 2)) m in
            if str_eq id ""
            then m
            else if ok
            then note stop_moved symbol (stop_to desired) asked
            else asked
      ]

  unfoldable pub ratchet_step :
      World Real
      → Option (List (Bracket Real))
      → String
      → BrokerPosition Real
      → ExitDecision Real
      → Manager Real
      → Manager Real
  ratchet_step w orders symbol p d m =
      let (leg_id, stop) = stop_leg symbol orders in
      elim stop [
        | none ↦ m
        | some s ↦
            if (s ⊕ lit 1 100) <? d.desired_stop
            then move_stop w orders symbol p d.desired_stop leg_id m
            else m
      ]

  -- what the pass does with the decision on a tracked position
  unfoldable pub carry_out :
      World Real
      → Option (List (Bracket Real))
      → String
      → BrokerPosition Real
      → ExitDecision Real
      → Tracked Real
      → Manager Real
      → Manager Real
  carry_out w orders symbol p d tr m =
      let (gone, after) = first_red_step w orders symbol d m in
      if gone
      then after
      else ratchet_step w orders symbol p d (scale_out_step w symbol p d tr after)
