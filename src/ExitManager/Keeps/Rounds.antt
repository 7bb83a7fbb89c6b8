-- ===== src/ExitManager/Keeps/Rounds.antt =====
-- runtime/exit_manager.py: what a pass keeps, round by round.
use momentum_system.Prelude.{
  ℕ, suc, ◌≡◌, refl, String, Bool, true, false, Option, none, some, List, [], ◌∷◌, All, arith,
}
use momentum_system.Prelude.Dict.{Dict, lookup, insert, erase}
use momentum_system.Float.{Float, Real}
use momentum_system.Exits.Data.{ExitConfig}
use momentum_system.ExitManager.Warrants.{Warranted}
use momentum_system.ExitManager.Data.{
  Bracket, BrokerPosition, Act, exit_catastrophe, exit_naked_stop, World, Manager,
}
use momentum_system.ExitManager.Keeps.Requests.{
  flatten-Keeps, rest_protective_stop-Keeps, emitted-Keeps,
}
use momentum_system.ExitManager.Keeps.Trailing.{trail_position-Keeps}
use momentum_system.ExitManager.Desk.{stop_leg}
use momentum_system.ExitManager.Steps.{
  passes_of, enforce_catastrophe, enforce_naked, count_naked, pop_naked,
}
use momentum_system.ExitManager.Pass.{trail_position, manage_position, manage_positions}

-- A property of the requests and of the counts of naked passes, which a warranted request and a
-- change of the count of a symbol that stands in `On` keep, is kept by the pass.
module _ ⦃n : Float⦄ (cfg : ExitConfig Real) (orders : Option (List (Bracket Real)))
    (is_open : Bool) (held : Dict (BrokerPosition Real)) (w : World Real) where
  abbrev Allowed : Act Real → Type 0
  Allowed = Warranted cfg orders is_open held w

  module _ (On : String → Type 0) (Q : List (Act Real) → Dict ℕ → Type 0)
      (step : (a : Act Real) (j : List (Act Real)) (d : Dict ℕ) → Allowed a → Q j d → Q (a ∷ j) d)
      (pops : (s : String) (j : List (Act Real)) (d : Dict ℕ) → On s → Q j d → Q j (erase s d))
      (counts : (s : String) (k : ℕ) (j : List (Act Real)) (d : Dict ℕ)
        → On s
        → Q j d
        → Q j (insert s k d)) where
    abbrev Keeps : Manager Real → Type 0
    Keeps m = Q m.journal m.naked_passes

    enforce_catastrophe-Keeps :
        (b : Bool)
        → is_open ≡ b
        → (symbol : String) (p : BrokerPosition Real) (stop : Option Real) (m : Manager Real)
        → lookup symbol held ≡ some p
        → On symbol
        → Keeps m
        → Keeps (enforce_catastrophe w cfg orders b symbol p stop m)
    unfolding enforce_catastrophe
    enforce_catastrophe-Keeps true e symbol p stop m at on h =
        let closed = flatten-Keeps cfg orders is_open held w Q step symbol m ((p, at), e) h in
        let told =
          emitted-Keeps cfg orders is_open held w Q step exit_catastrophe symbol _ _ closed in
        ground (arith, closed, pops symbol _ _ on told)
    enforce_catastrophe-Keeps false e symbol p (some stop) m at on h = h
    enforce_catastrophe-Keeps false e symbol p none m at on h =
        let rested =
          rest_protective_stop-Keeps cfg orders is_open held w Q step symbol p m at e h in
        let told =
          emitted-Keeps cfg orders is_open held w Q step exit_catastrophe symbol _ _ rested in
        ground (arith, rested, pops symbol _ _ on told)

    enforce_naked-Keeps :
        (b : Bool)
        → is_open ≡ b
        → (symbol : String) (p : BrokerPosition Real) (m : Manager Real)
        → lookup symbol held ≡ some p
        → Keeps m
        → Keeps (enforce_naked w cfg orders b symbol p m)
    unfolding enforce_naked
    enforce_naked-Keeps true e symbol p m at h =
        let closed = flatten-Keeps cfg orders is_open held w Q step symbol m ((p, at), e) h in
        ground (
          arith,
          closed,
          emitted-Keeps cfg orders is_open held w Q step exit_naked_stop symbol _ _ closed,
        )
    enforce_naked-Keeps false e symbol p m at h =
        let rested =
          rest_protective_stop-Keeps cfg orders is_open held w Q step symbol p m at e h in
        ground (
          arith,
          rested,
          emitted-Keeps cfg orders is_open held w Q step exit_naked_stop symbol _ _ rested,
        )

    count_naked-Keeps :
        (symbol : String) (p : BrokerPosition Real) (m : Manager Real)
        → lookup symbol held ≡ some p
        → On symbol
        → Keeps m
        → Keeps (count_naked w cfg orders is_open symbol p m)
    unfolding count_naked
    count_naked-Keeps symbol p m at on h =
        let passes = suc (passes_of symbol m) in
        let counted : Manager Real = record m {
          naked_passes = insert symbol passes m.naked_passes;
        } in
        let kept : Keeps counted = counts symbol passes _ _ on h in
        let enforced = enforce_naked-Keeps is_open refl symbol p counted at kept in
        ground (arith, kept, pops symbol _ _ on enforced)

    pub manage_position-Keeps :
        (symbol : String) (p : BrokerPosition Real) (m : Manager Real)
        → lookup symbol held ≡ some p
        → On symbol
        → Keeps m
        → Keeps (manage_position w cfg orders is_open symbol p m)
    unfolding manage_position
    manage_position-Keeps symbol p m at on h =
        let (leg_id, stop) = stop_leg symbol orders in
        let live = pop_naked symbol m in
        let popped : Keeps live = pops symbol _ _ on h in
        let trailed : is_open ≡ true → Keeps (trail_position w cfg orders symbol p stop live) = λ e.
          trail_position-Keeps cfg orders is_open held w Q step symbol p stop live at e popped in
        ground (
          arith,
          popped,
          enforce_catastrophe-Keeps is_open refl symbol p stop m at on h,
          count_naked-Keeps symbol p m at on h,
          trailed,
        )

    pub manage_positions-Keeps :
        (ps : Dict (BrokerPosition Real)) (m : Manager Real)
        → All (λ e. (lookup e.0 held ≡ some e.1) × On e.0) ps
        → Keeps m
        → Keeps (manage_positions w cfg orders is_open ps m)
    unfolding manage_positions
    manage_positions-Keeps [] m at h = h
    manage_positions-Keeps ((symbol, p) ∷ ps) m at h =
        manage_positions-Keeps ps (manage_position w cfg orders is_open symbol p m) at.1
          (manage_position-Keeps symbol p m at.0.0 at.0.1 h)
