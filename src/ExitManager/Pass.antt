-- ===== src/ExitManager/Pass.antt =====
-- runtime/exit_manager.py: `manage`, one pass over the positions.
use momentum_system.Prelude.{
  String, str_eq, Bool, Option, none, some, List, [], ◌∷◌, map, if◌then◌else◌,
}
use momentum_system.Prelude.Dict.{Dict, contains, insert, erase}
use momentum_system.Prelude.Sets.{discard}
use momentum_system.Float.{Float, Real}
use momentum_system.Exits.Data.{ExitConfig}
use momentum_system.Exits.Manage.{manage_live}
use momentum_system.ExitManager.Data.{Bracket, BrokerPosition, Minute, World, Manager}
use momentum_system.ExitManager.Desk.{is_active, stop_leg, market_open}
use momentum_system.ExitManager.Tracking.{since_entry, track}
use momentum_system.ExitManager.Steps.{
  pop_naked, catastrophe_hit, enforce_catastrophe, count_naked, is_naked, carry_out,
}

module _ ⦃n : Float⦄ where
  -- the rest of a round, from the bars on
  unfoldable pub trail_on :
      World Real
      → ExitConfig Real
      → Option (List (Bracket Real))
      → String
      → BrokerPosition Real
      → Option Real
      → List (Minute Real)
      → Manager Real
      → Manager Real
  trail_on w cfg orders symbol p stop [] m = m
  trail_on w cfg orders symbol p stop (b ∷ bs) m =
      elim (track cfg orders symbol p.avg_entry_price stop (b ∷ bs) m) [
        | none ↦ m
        | some (tr, seen) ↦
            carry_out w orders symbol p
              (manage_live tr.entry_price tr.init_stop (since_entry (b ∷ bs) tr) cfg tr.scaled) tr
              seen
      ]

  unfoldable pub trail_position :
      World Real
      → ExitConfig Real
      → Option (List (Bracket Real))
      → String
      → BrokerPosition Real
      → Option Real
      → Manager Real
      → Manager Real
  trail_position w cfg orders symbol p stop m = elim (w.bars symbol) [
    | none ↦ m
    | some bars ↦ trail_on w cfg orders symbol p stop bars m
  ]

  -- one round of the loop of `manage`
  unfoldable pub manage_position :
      World Real
      → ExitConfig Real
      → Option (List (Bracket Real))
      → Bool
      → String
      → BrokerPosition Real
      → Manager Real
      → Manager Real
  manage_position w cfg orders is_open symbol p m =
      let (leg_id, stop) = stop_leg symbol orders in
      if catastrophe_hit cfg p stop
      then enforce_catastrophe w cfg orders is_open symbol p stop m
      else if is_naked cfg p leg_id
      then count_naked w cfg orders is_open symbol p m
      else if is_open
      then trail_position w cfg orders symbol p stop (pop_naked symbol m)
      else pop_naked symbol m

  unfoldable pub manage_positions :
      World Real
      → ExitConfig Real
      → Option (List (Bracket Real))
      → Bool
      → Dict (BrokerPosition Real)
      → Manager Real
      → Manager Real
  manage_positions w cfg orders is_open [] m = m
  manage_positions w cfg orders is_open ((symbol, p) ∷ held) m =
      manage_positions w cfg orders is_open held (manage_position w cfg orders is_open symbol p m)

  -- the positions by symbol; a later one replaces an earlier one
  unfoldable pub held_of :
      List (BrokerPosition Real) → Dict (BrokerPosition Real) → Dict (BrokerPosition Real)
  held_of [] held = held
  held_of (p ∷ ps) held = held_of ps (if str_eq p.symbol "" then held else insert p.symbol p held)

  -- the end of the tracking of names that are no longer held
  unfoldable pub drop_closed :
      Dict (BrokerPosition Real) → List String → Manager Real → Manager Real
  drop_closed held [] m = m
  drop_closed held (symbol ∷ symbols) m = drop_closed held symbols (
      if contains symbol held then m else record m {
        tracked = erase symbol m.tracked;
        open_anchored = discard symbol m.open_anchored;
      })

  abbrev pub keys : {V : Type 0} → Dict V → List String
  keys d = map (λ e. e.0) d

  -- the pass over the positions that the broker reports
  unfoldable pub manage_held :
      World Real → ExitConfig Real → Dict (BrokerPosition Real) → Manager Real → Manager Real
  manage_held w cfg [] m = drop_closed [] (keys m.tracked) m
  manage_held w cfg (p ∷ held) m =
      manage_positions w cfg (w.all_orders (keys (p ∷ held))) (market_open w) (p ∷ held)
        (drop_closed (p ∷ held) (keys m.tracked) m)

  -- `manage`, with an empty record of what it does
  unfoldable pub manage : World Real → ExitConfig Real → Manager Real → Manager Real
  manage w cfg m =
      let fresh = record m { journal = []; actions = [] } in
      if is_active cfg
      then elim w.positions [ none ↦ fresh | some ps ↦ manage_held w cfg (held_of ps []) fresh ]
      else fresh
