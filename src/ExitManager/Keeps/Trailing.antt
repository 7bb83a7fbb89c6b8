-- ===== src/ExitManager/Keeps/Trailing.antt =====
-- runtime/exit_manager.py: what a pass keeps where it trails a position.
use momentum_system.Prelude.{
  ℕ, ◌<◌, ◌≤◌, ◌≡◌, ◌⊎◌, inl, inr, refl, String, Bool, true, Option, none, some, List, [], ◌∷◌,
  Option-cases, arith,
}
use momentum_system.Prelude.Int.{pos, ◌≤ℤ◌}
use momentum_system.Prelude.Dict.{Dict, lookup}
use momentum_system.Float.{Float, Real, rank, lit, nought, ◌⊕◌, ◌⊗◌}
use momentum_system.Exits.Data.{ExitConfig, ExitDecision}
use momentum_system.Exits.Manage.{manage_live}
use momentum_system.ExitManager.Warrants.{Raises, Warranted}
use momentum_system.ExitManager.Data.{
  Bracket, BrokerPosition, Minute, Act, close_position, close_part, exit_first_red, exit_scale_out,
  exit_trail, stop_moved, replace_order, emitted, Tracked, World, Manager,
}
use momentum_system.ExitManager.Keeps.Requests.{flatten-Keeps, emitted-Keeps}
use momentum_system.ExitManager.Desk.{request, stop_leg, whole_qty}
use momentum_system.ExitManager.Tracking.{since_entry, track, track_new, track_again}
use momentum_system.ExitManager.Steps.{
  first_red_step, scale_out_step, move_stop, ratchet_step, carry_out,
}
use momentum_system.ExitManager.Pass.{trail_on, trail_position}

-- A property of the requests and of the counts of naked passes, which a warranted request keeps.
module _ ⦃n : Float⦄ (cfg : ExitConfig Real) (orders : Option (List (Bracket Real)))
    (is_open : Bool) (held : Dict (BrokerPosition Real)) (w : World Real) where
  abbrev Allowed : Act Real → Type 0
  Allowed = Warranted cfg orders is_open held w

  module _ (Q : List (Act Real) → Dict ℕ → Type 0)
      (step : (a : Act Real) (j : List (Act Real)) (d : Dict ℕ)
        → Allowed a
        → Q j d
        → Q (a ∷ j) d) where
    abbrev Keeps : Manager Real → Type 0
    Keeps m = Q m.journal m.naked_passes

    first_red_step-Keeps :
        (symbol : String) (d : ExitDecision Real) (m : Manager Real)
        → Allowed (close_position symbol)
        → Keeps m
        → Keeps (first_red_step w orders symbol d m).1
    unfolding first_red_step
    first_red_step-Keeps symbol d m c h =
        let closed = flatten-Keeps cfg orders is_open held w Q step symbol m c h in
        ground (
          arith,
          closed,
          emitted-Keeps cfg orders is_open held w Q step exit_first_red symbol _ _ closed,
        )

    scale_out_step-Keeps :
        (symbol : String) (p : BrokerPosition Real) (d : ExitDecision Real) (tr : Tracked Real)
        (m : Manager Real)
        → Allowed (close_position symbol)
        → Keeps m
        → Keeps (scale_out_step w symbol p d tr m)
    unfolding scale_out_step
    scale_out_step-Keeps symbol p d tr m (at, e) h =
        let sell = n.trunc (n.of_int (whole_qty p) ⊗ d.scale_out_frac) in
        let asked : pos 1 ≤ℤ sell → Keeps (request w (close_part symbol sell) m).1 =
          λ t. step _ _ _ (at, e, t) h in
        let told : pos 1 ≤ℤ sell
            → Q (emitted exit_scale_out symbol ∷ close_part symbol sell ∷ m.journal)
                m.naked_passes =
          λ t. emitted-Keeps cfg orders is_open held w Q step exit_scale_out symbol _ _ (asked t) in
        ground (arith, h, asked, told)

    move_stop-Keeps :
        (symbol : String) (p : BrokerPosition Real) (stop desired : Real) (leg_id : Option String)
        (m : Manager Real)
        → lookup symbol held ≡ some p
        → is_open ≡ true
        → stop_leg symbol orders ≡ (leg_id, some stop)
        → rank (stop ⊕ lit 1 100) < rank desired
        → Keeps m
        → Keeps (move_stop w orders symbol p desired leg_id m)
    unfolding move_stop
    move_stop-Keeps symbol p stop desired none m at e l up h =
        let closed = flatten-Keeps cfg orders is_open held w Q step symbol m ((p, at), e) h in
        ground (
          arith,
          h,
          closed,
          emitted-Keeps cfg orders is_open held w Q step exit_trail symbol _ _ closed,
        )
    move_stop-Keeps symbol p stop desired (some id) m at e l up h =
        let closed = flatten-Keeps cfg orders is_open held w Q step symbol m ((p, at), e) h in
        let px = n.round desired 2 in
        let Below : Type 0 =
          (rank p.current_price ≤ rank nought) ⊎ (rank desired < rank p.current_price) in
        let raises : Below → Raises cfg orders is_open held w id px = λ b. record {
          symbol = symbol;
          position = p;
          from = stop;
          desired = desired;
          is_held = at;
          leg = l;
          higher = up;
          below = b;
          price = refl;
        } in
        let asked : Below → Q (replace_order id px ∷ m.journal) m.naked_passes =
          λ b. step (replace_order id px) m.journal m.naked_passes (raises b, e) h in
        let told : Below
            → Q (emitted stop_moved symbol ∷ replace_order id px ∷ m.journal) m.naked_passes =
          λ b. emitted-Keeps cfg orders is_open held w Q step stop_moved symbol _ _ (asked b) in
        ground (
          arith,
          h,
          closed,
          emitted-Keeps cfg orders is_open held w Q step exit_trail symbol _ _ closed,
          asked,
          told,
        )

    ratchet_step-Keeps :
        (symbol : String) (p : BrokerPosition Real) (d : ExitDecision Real) (m : Manager Real)
        → lookup symbol held ≡ some p
        → is_open ≡ true
        → Keeps m
        → Keeps (ratchet_step w orders symbol p d m)
    unfolding ratchet_step
    ratchet_step-Keeps symbol p d m at e h =
        let (leg_id, stop) = stop_leg symbol orders in
        elim (Option-cases stop) [
          | inl f ↦ ground arith
          | inr (s, f) ↦
              (let leg : stop_leg symbol orders ≡ (leg_id, some s) = ground arith in
                let moved : rank (s ⊕ lit 1 100) < rank d.desired_stop
                    → Keeps (move_stop w orders symbol p d.desired_stop leg_id m) =
                  λ up. move_stop-Keeps symbol p s d.desired_stop leg_id m at e leg up h in
                ground (arith, moved))
        ]

    carry_out-Keeps :
        (symbol : String) (p : BrokerPosition Real) (d : ExitDecision Real) (tr : Tracked Real)
        (m : Manager Real)
        → lookup symbol held ≡ some p
        → is_open ≡ true
        → Keeps m
        → Keeps (carry_out w orders symbol p d tr m)
    unfolding carry_out
    carry_out-Keeps symbol p d t m at e h =
        let (gone, after) = first_red_step w orders symbol d m in
        let first = first_red_step-Keeps symbol d m ((p, at), e) h in
        let scaled = scale_out_step-Keeps symbol p d t after ((p, at), e) first in
        let sold = scale_out_step w symbol p d t after in
        ground (arith, first, ratchet_step-Keeps symbol p d sold at e scaled)

    track_new-Keeps :
        (symbol : String) (entry stop : Real) (bars : List (Minute Real)) (m m' : Manager Real)
        (t : Tracked Real)
        → track_new cfg orders symbol entry stop bars m ≡ some (t, m')
        → Keeps m
        → Keeps m'
    unfolding track_new
    track_new-Keeps symbol entry stop bars m m' t e h = ground arith

    track_again-Keeps :
        (symbol : String) (entry : Real) (stop : Option Real) (bars : List (Minute Real))
        (t : Tracked Real) (m : Manager Real)
        → Keeps m
        → Keeps (track_again cfg symbol entry stop bars t m).1
    unfolding track_again
    track_again-Keeps symbol entry none bars t m h = h
    track_again-Keeps symbol entry (some s) bars t m h = ground arith

    track-Keeps :
        (symbol : String) (entry : Real) (stop : Option Real) (bars : List (Minute Real))
        (m m' : Manager Real) (t : Tracked Real)
        → track cfg orders symbol entry stop bars m ≡ some (t, m')
        → Keeps m
        → Keeps m'
    unfolding track
    track-Keeps symbol entry stop bars m m' t e h = elim (Option-cases (lookup symbol m.tracked)) [
      | inl f ↦ elim (Option-cases stop) [
        | inl g ↦ ground arith
        | inr (s, g) ↦ ground (arith, track_new-Keeps symbol entry s bars m m' t)
      ]
      | inr (u, f) ↦ ground (arith, track_again-Keeps symbol entry stop bars u m h)
    ]

    trail_on-Keeps :
        (symbol : String) (p : BrokerPosition Real) (stop : Option Real) (bars : List (Minute Real))
        (m : Manager Real)
        → lookup symbol held ≡ some p
        → is_open ≡ true
        → Keeps m
        → Keeps (trail_on w cfg orders symbol p stop bars m)
    unfolding trail_on
    trail_on-Keeps symbol p stop [] m at e h = h
    trail_on-Keeps symbol p stop (b ∷ bs) m at e h =
        elim (Option-cases (track cfg orders symbol p.avg_entry_price stop (b ∷ bs) m)) [
          | inl f ↦ ground arith
          | inr ((t, seen), f) ↦
              (let bars = since_entry (b ∷ bs) t in
                let d = manage_live t.entry_price t.init_stop bars cfg t.scaled in
                let kept = track-Keeps symbol p.avg_entry_price stop (b ∷ bs) m seen t f h in
                ground (arith, carry_out-Keeps symbol p d t seen at e kept))
        ]

    pub trail_position-Keeps :
        (symbol : String) (p : BrokerPosition Real) (stop : Option Real) (m : Manager Real)
        → lookup symbol held ≡ some p
        → is_open ≡ true
        → Keeps m
        → Keeps (trail_position w cfg orders symbol p stop m)
    unfolding trail_position
    trail_position-Keeps symbol p stop m at e h = elim (Option-cases (w.bars symbol)) [
      | inl f ↦ ground arith
      | inr (bars, f) ↦ ground (arith, trail_on-Keeps symbol p stop bars m at e h)
    ]
