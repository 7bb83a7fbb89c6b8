-- ===== src/ExitManager/Warrants.antt =====
-- runtime/exit_manager.py: what a pass may request of the broker.
use momentum_system.Prelude.{
  ◌<◌, ◌≤◌, ◌≡◌, ◌⊎◌, String, Bool, true, false, Option, none, some, List, [], ◌∷◌,
}
use momentum_system.Prelude.Int.{pos, ◌≤ℤ◌}
use momentum_system.Prelude.Dict.{Dict, lookup}
use momentum_system.Float.{Float, Real, rank, lit, nought, ◌⊕◌}
use momentum_system.Exits.Data.{ExitConfig}
use momentum_system.ExitManager.Data.{
  Order, Bracket, World, BrokerPosition, Act, cancel_order, close_position, close_part, submit_stop,
  replace_order, emitted,
}
use momentum_system.ExitManager.Desk.{stop_leg, is_reserving, protective_price, whole_qty}

abbrev pub In : {A : Type 0} → A → List A → Type 0
In a [] = ⊥
In a (b ∷ bs) = (b ≡ a) ⊎ In a bs

module _ ⦃n : Float⦄ (cfg : ExitConfig Real) (orders : Option (List (Bracket Real)))
    (is_open : Bool) (held : Dict (BrokerPosition Real)) (w : World Real) where
  -- a move of the stop leg `id` to `px`
  pub record Raises (id : String) (px : Real) : Type 0 where
    pub symbol : String
    pub position : BrokerPosition Real
    pub from : Real
    pub desired : Real
    pub is_held : lookup symbol held ≡ some position
    pub leg : stop_leg symbol orders ≡ (some id, some from)
    pub higher : rank (from ⊕ lit 1 100) < rank desired
    pub below :
        (rank position.current_price ≤ rank nought) ⊎ (rank desired < rank position.current_price)
    pub price : px ≡ n.round desired 2

  abbrev pub Held : String → Type 0
  Held symbol = (p : BrokerPosition Real) × (lookup symbol held ≡ some p)

  -- the orders in which the legs to cancel are looked for
  abbrev pub shown : String → Option (List (Bracket Real)) → List (Bracket Real)
  shown symbol (some bs) = bs
  shown symbol none = elim (w.open_orders symbol) [ none ↦ [] | some bs ↦ bs ]

  -- a cancellation of the order `id`
  pub record Frees (id : String) : Type 0 where
    pub symbol : String
    pub bracket : Bracket Real
    pub order : Order Real
    pub is_held : Held symbol
    pub seen : In bracket (shown symbol orders)
    pub among : In order (bracket.parent ∷ bracket.legs)
    pub reserving : is_reserving symbol bracket.parent order ≡ true
    pub named : order.id ≡ some id

  abbrev pub Warranted : Act Real → Type 0
  Warranted (cancel_order id) = Frees id
  Warranted (close_position symbol) = Held symbol × (is_open ≡ true)
  Warranted (close_part symbol qty) = Held symbol × (is_open ≡ true) × (pos 1 ≤ℤ qty)
  Warranted (submit_stop symbol qty px) =
      ((p : BrokerPosition Real) × (lookup symbol held ≡ some p)
        × (qty ≡ whole_qty p)
        × (px ≡ protective_price cfg p.avg_entry_price p.current_price))
      × (is_open ≡ false)
      × (pos 1 ≤ℤ qty)
  Warranted (replace_order id px) = Raises id px × (is_open ≡ true)
  Warranted (emitted rule symbol) = Unit
