-- ===== src/Trading/Carries.antt =====
-- runtime/flatten.py and trading_execution.py: the positions that a session before has left open, and
-- the catch-up that closes them.
use momentum_system.Prelude.{
  ℕ, ◌==◌, String, str_eq, Bool, false, ◌&&◌, not, Option, none, some, List, [], ◌∷◌, ◌++◌, filter,
  if◌then◌else◌,
}
use momentum_system.Prelude.Sets.{mem, add}
use momentum_system.Float.{Float, Real, nought, ◌<?◌, fabs}
use momentum_system.Exits.Data.{is_empty}

-- A fill of a buy; a symbol that is missing is "".
pub record BuyFill : Type 0 where
  pub symbol : String
  pub filled_at : String

-- An order or a leg as the broker reports it. A symbol or a time that is missing is "", and a
-- quantity that is missing or no number is 0.0.
pub record FilledOrder (R : Type 0) : Type 0 where
  pub symbol : String
  pub side : String
  pub filled_at : String
  pub filled_qty : R

pub record OrderTree (R : Type 0) : Type 0 where
  pub parent : FilledOrder R
  pub legs : List (FilledOrder R)

pub record Holding (R : Type 0) : Type 0 where
  pub symbol : String
  pub qty : R

-- What the broker answers to the catch-up; `none` is a call that raises. `closes` tells whether
-- `_release_and_close` of a symbol returns.
pub record CarryWorld (R : Type 0) : Type 0 where
  pub positions : Option (List (Holding R))
  pub orders : List String → Option (List (OrderTree R))
  pub closes : String → Bool

-- The lists have the latest first, but for `carries`.
pub record CarryResult : Type 0 where
  pub carries : List String
  pub closed : List String
  pub errors : List String

-- `date_of` is `_fill_et_date`.
module _ (date_of : String → Option ℕ) where
  unfoldable pub is_today : ℕ → BuyFill → Bool
  is_today today f = elim (date_of f.filled_at) [ none ↦ false | some d ↦ d == today ]

  -- the loop over the fills
  unfoldable pub bought_today : ℕ → List BuyFill → List String → List String
  bought_today today [] seen = seen
  bought_today today (f ∷ fs) seen =
      bought_today today fs
        (if is_today today f && not (str_eq f.symbol "") then add f.symbol seen else seen)

module _ ⦃n : Float⦄ where
  -- `x.get("symbol") or o.get("symbol")`
  abbrev pub symbol_or : FilledOrder Real → FilledOrder Real → String
  symbol_or o x = if str_eq x.symbol "" then o.symbol else x.symbol

  abbrev pub is_buy_fill : FilledOrder Real → Bool
  is_buy_fill x = str_eq x.side "buy" && not (str_eq x.filled_at "") && (nought <? x.filled_qty)

  unfoldable pub fills_of_legs : FilledOrder Real → List (FilledOrder Real) → List BuyFill
  fills_of_legs o [] = []
  fills_of_legs o (x ∷ xs) =
      let rest = fills_of_legs o xs in
      if is_buy_fill x
      then record { symbol = symbol_or o x; filled_at = x.filled_at } ∷ rest
      else rest

  unfoldable pub buy_fills_from_orders : List (OrderTree Real) → List BuyFill
  buy_fills_from_orders [] = []
  buy_fills_from_orders (t ∷ ts) =
      fills_of_legs t.parent (t.parent ∷ t.legs) ++ buy_fills_from_orders ts

  -- the set of the symbols of positions with shares
  unfoldable pub open_symbols_of : List (Holding Real) → List String
  open_symbols_of [] = []
  open_symbols_of (p ∷ ps) =
      let rest = open_symbols_of ps in if nought <? fabs p.qty then add p.symbol rest else rest

  -- the loop over the carries
  unfoldable pub close_carries : CarryWorld Real → List String → CarryResult → CarryResult
  close_carries w [] res = res
  close_carries w (symbol ∷ symbols) res = close_carries w symbols (
      if w.closes symbol
      then record res { closed = symbol ∷ res.closed }
      else record res { errors = symbol ∷ res.errors })

  abbrev pub no_carries : CarryResult
  no_carries = record { carries = []; closed = []; errors = [] }

-- `sorted` is that of strings.
module _ (date_of : String → Option ℕ) (sorted : List String → List String) where
  unfoldable pub find_overnight_carries : List String → List BuyFill → ℕ → List String
  find_overnight_carries open_symbols buy_fills today =
      let bought = bought_today date_of today buy_fills [] in
      sorted (filter (λ s. not (str_eq s "") && not (mem s bought)) open_symbols)

  module _ ⦃n : Float⦄ where
    -- `flatten_overnight_carries`
    unfoldable pub flatten_overnight_carries : CarryWorld Real → ℕ → CarryResult
    flatten_overnight_carries w today = elim w.positions [
      | none ↦ record no_carries { errors = "positions" ∷ [] }
      | some positions ↦
          let open_syms = open_symbols_of positions in
          if is_empty open_syms then no_carries else elim (w.orders (sorted open_syms)) [
            | none ↦ record no_carries { errors = "orders" ∷ [] }
            | some orders ↦
                let carries =
                  find_overnight_carries open_syms (buy_fills_from_orders orders) today in
                close_carries w carries (record no_carries { carries = carries })
          ]
    ]
