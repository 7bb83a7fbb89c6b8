-- ===== src/ExitManager/Desk.antt =====
-- runtime/exit_manager.py and runtime/flatten.py: the reading of the orders, and the requests.
use momentum_system.Prelude.{
  ℕ, suc, zero, String, str_eq, Bool, true, false, not, ◌&&◌, ◌||◌, Option, none, some, List, [],
  ◌∷◌, ltb, leb, ◌==◌, if◌then◌else◌,
}
use momentum_system.Prelude.Int.{ℤ, pos, ltb_ℤ}
use momentum_system.Prelude.Sets.{mem}
use momentum_system.Float.{Float, Real, lit, nought, one, ◌⊖◌, ◌⊗◌, ◌<?◌, ◌≤?◌, fabs}
use momentum_system.Exits.Data.{ExitConfig, truthy, is_empty}
use momentum_system.ExitManager.Data.{
  Timestamp, BrokerPosition, Order, Bracket, ExitRule, Act, cancel_order, close_position,
  submit_stop, emitted, Taken, World, Manager,
}

abbrev pub trail_none : String
trail_none = "none"

-- `_ACTIVE` of the manager, and `RESERVING_STATES`
abbrev pub active_states : List String
active_states =
    "held" ∷ "new" ∷ "accepted" ∷ "pending_new" ∷ "accepted_for_bidding" ∷ "partially_filled" ∷ []

abbrev pub reserving_states : List String
reserving_states =
    "held" ∷ "new" ∷ "accepted" ∷ "pending_new" ∷ "accepted_for_bidding" ∷ "partially_filled" ∷ []

-- `c.get("symbol") or o.get("symbol")`, compared with a symbol
abbrev pub names_symbol : {R : Type 0} → String → Order R → Order R → Bool
names_symbol symbol o c = elim c.symbol [
  | some s ↦ str_eq s symbol
  | none ↦ elim o.symbol [ some s ↦ str_eq s symbol | none ↦ false ]
]

module _ ⦃n : Float⦄ where
  -- `_is_active`
  unfoldable pub is_active : ExitConfig Real → Bool
  is_active cfg =
      truthy cfg.breakeven_at_r
      || truthy cfg.breakeven_at_pct
      || not (str_eq cfg.trail_mode trail_none)
      || truthy cfg.scale_out_r
      || cfg.first_red_exit
      || not (is_empty cfg.profit_lock_tiers)
      || truthy cfg.catastrophe_pct
      || not (cfg.enforce_stop_grace_passes == 0)

  unfoldable pub is_stop_leg : String → Order Real → Order Real → Bool
  is_stop_leg symbol o c =
      names_symbol symbol o c
      && (str_eq c.order_type "stop" || str_eq c.order_type "stop_limit")
      && str_eq c.side "sell"
      && mem c.status active_states

  unfoldable pub find_leg : String → Order Real → List (Order Real) → Option (Order Real)
  find_leg symbol o [] = none
  find_leg symbol o (c ∷ cs) = if is_stop_leg symbol o c then some c else find_leg symbol o cs

  -- the loops of `_stop_leg`
  unfoldable pub search_legs : String → List (Bracket Real) → Option String × Option Real
  search_legs symbol [] = (none, none)
  search_legs symbol (b ∷ bs) = elim (find_leg symbol b.parent (b.parent ∷ b.legs)) [
    | some c ↦ (c.id, c.stop_price)
    | none ↦ search_legs symbol bs
  ]

  -- `_stop_leg`: the id and the price of the first live sell-stop
  unfoldable pub stop_leg : String → Option (List (Bracket Real)) → Option String × Option Real
  stop_leg symbol none = (none, none)
  stop_leg symbol (some orders) = search_legs symbol orders

  -- `_market_open`: the broker's clock, else the wall clock, else open
  unfoldable pub market_open : World Real → Bool
  market_open w = elim w.clock_is_open [
    | some is_open ↦ is_open
    | none ↦ elim w.wall [
      | some t ↦
          ltb t.weekday 5 && (ltb 9 t.hour || ((t.hour == 9) && leb 30 t.minute)) && ltb t.hour 16
      | none ↦ true
    ]
  ]

  -- the loop of `_entry_time`, with the latest fill so far
  unfoldable pub entry_time_of : String → List (Bracket Real) → Option Timestamp → Option Timestamp
  entry_time_of symbol [] best = best
  entry_time_of symbol (b ∷ bs) best =
      let o = b.parent in
      let is_buy =
        elim o.symbol [ some s ↦ str_eq s symbol | none ↦ false ]
        && str_eq o.side "buy"
        && (nought <? o.filled_qty) in
      entry_time_of symbol bs (
        if is_buy
        then elim o.filled_at [
          | none ↦ best
          | some ts ↦ elim best [ none ↦ some ts | some t ↦ if ltb t ts then some ts else some t ]
        ]
        else best)

  unfoldable pub entry_time : String → Option (List (Bracket Real)) → Option Timestamp
  entry_time symbol none = none
  entry_time symbol (some orders) = entry_time_of symbol orders none

  -- a request, with the broker's answer
  abbrev pub request : World Real → Act Real → Manager Real → Bool × Manager Real
  request w a m = (w.accepts m.journal a, record m { journal = a ∷ m.journal })

  -- `_emit`, and the message that goes with it
  abbrev pub note : ExitRule → String → Taken Real → Manager Real → Manager Real
  note rule symbol taken m = record m {
    journal = emitted rule symbol ∷ m.journal;
    actions = (symbol, taken) ∷ m.actions;
  }

  unfoldable pub is_reserving : String → Order Real → Order Real → Bool
  is_reserving symbol parent o =
      names_symbol symbol parent o && str_eq o.side "sell" && mem o.status reserving_states

  -- a refused cancellation is only logged
  unfoldable pub cancel_leg :
      World Real → String → Order Real → Order Real → Manager Real → Manager Real
  cancel_leg w symbol parent o m = elim o.id [
    | none ↦ m
    | some id ↦
        if is_reserving symbol parent o && not (str_eq id "")
        then (request w (cancel_order id) m).1
        else m
  ]

  -- the cancellation of the legs of one order
  unfoldable pub cancel_legs :
      World Real → String → Order Real → List (Order Real) → Manager Real → Manager Real
  cancel_legs w symbol parent [] m = m
  cancel_legs w symbol parent (o ∷ os) m =
      cancel_legs w symbol parent os (cancel_leg w symbol parent o m)

  unfoldable pub cancel_protective :
      World Real → String → List (Bracket Real) → Manager Real → Manager Real
  cancel_protective w symbol [] m = m
  cancel_protective w symbol (b ∷ bs) m =
      cancel_protective w symbol bs (cancel_legs w symbol b.parent (b.parent ∷ b.legs) m)

  -- the attempts to close; whether one was taken
  unfoldable pub try_close : World Real → String → ℕ → Manager Real → Bool × Manager Real
  try_close w symbol zero m = (false, m)
  try_close w symbol (suc k) m =
      let (ok, asked) = request w (close_position symbol) m in
      let rest = try_close w symbol k asked in if ok then (true, asked) else rest

  -- the cancellation of the legs that the snapshot, or else a new one, shows
  unfoldable pub cancel_seen :
      World Real → String → Option (List (Bracket Real)) → Manager Real → Manager Real
  cancel_seen w symbol (some bs) m = cancel_protective w symbol bs m
  cancel_seen w symbol none m = elim (w.open_orders symbol) [
    | none ↦ m
    | some bs ↦ cancel_protective w symbol bs m
  ]

  unfoldable pub cancel_protective_and_close :
      World Real → String → Option (List (Bracket Real)) → ℕ → Manager Real → Bool × Manager Real
  cancel_protective_and_close w symbol orders retries m =
      try_close w symbol retries (cancel_seen w symbol orders m)

  -- `_flatten`; whether it does not raise
  unfoldable pub flatten :
      World Real → String → Option (List (Bracket Real)) → Manager Real → Bool × Manager Real
  flatten w symbol orders m = cancel_protective_and_close w symbol orders 4 m

  -- the price at which `_rest_protective_stop` rests its stop
  unfoldable pub protective_price : ExitConfig Real → Real → Real → Real
  protective_price cfg entry cur =
      if truthy cur && (cur ≤? entry)
      then (let pct = if truthy cfg.catastrophe_pct then cfg.catastrophe_pct else lit 1 10 in
          n.round (cur ⊗ (one ⊖ pct)) 2)
      else n.round entry 2

  abbrev pub whole_qty : BrokerPosition Real → ℤ
  whole_qty p = n.trunc (fabs p.qty)

  -- `_rest_protective_stop`: the price, or `none` if the broker raises
  unfoldable pub rest_protective_stop :
      World Real
      → ExitConfig Real
      → String
      → BrokerPosition Real
      → Real
      → Real
      → Manager Real
      → Option Real × Manager Real
  rest_protective_stop w cfg symbol p entry cur m =
      let qty = whole_qty p in
      let stop_px = protective_price cfg entry cur in
      let (ok, asked) = request w (submit_stop symbol qty stop_px) m in
      if ltb_ℤ qty (pos 1)
      then (some (n.round entry 2), m)
      else if ok
      then (some stop_px, asked)
      else (none, asked)
