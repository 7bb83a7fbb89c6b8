-- ===== src/Trading/Payload.antt =====
-- alpaca_paper/execution.py: the request of an order, as the approval queue stores it.
use momentum_system.Prelude.{
  ◌>>=◌, ◌≡◌, refl, String, str_eq, false, Option, none, some, [], ◌∷◌, if◌then◌else◌, arith,
}
use momentum_system.Prelude.Int.{ℤ, pos}
use momentum_system.Prelude.Dict.{Dict, lookup}

pub record OrderRequest (R : Type 0) : Type 0 where
  pub symbol : String
  pub side : String
  pub quantity : ℤ
  pub entry_price : Option R
  pub stop_loss_price : Option R
  pub take_profit_price : Option R
  pub order_type : String
  pub time_in_force : String
  pub order_id : String

-- The values of a payload.
pub data Value (R : Type 0) : Type 0 where
  text : String → Value R
  number : R → Value R
  whole : ℤ → Value R
  null : Value R

module _ {R : Type 0} where
  abbrev pub price_value : Option R → Value R
  price_value none = null
  price_value (some x) = number x

  unfoldable pub to_payload : OrderRequest R → Dict (Value R)
  to_payload r =
      ("symbol", text r.symbol)
      ∷ ("side", text r.side)
      ∷ ("quantity", whole r.quantity)
      ∷ ("entry_price", price_value r.entry_price)
      ∷ ("stop_loss_price", price_value r.stop_loss_price)
      ∷ ("take_profit_price", price_value r.take_profit_price)
      ∷ ("order_type", text r.order_type)
      ∷ ("time_in_force", text r.time_in_force)
      ∷ ("order_id", text r.order_id)
      ∷ []

  -- a field of each type, or its default; a value of another type, which `to_payload` does not write,
  -- is not read
  abbrev pub as_text : Option (Value R) → Option String → Option String
  as_text none default = default
  as_text (some (text s)) default = some s
  as_text (some (number x)) default = none
  as_text (some (whole z)) default = none
  as_text (some null) default = none

  abbrev pub as_price : Option (Value R) → Option (Option R)
  as_price none = some none
  as_price (some null) = some none
  as_price (some (number x)) = some (some x)
  as_price (some (text s)) = none
  as_price (some (whole z)) = none

  abbrev pub as_whole : Option (Value R) → Option ℤ
  as_whole none = some (pos 0)
  as_whole (some (whole z)) = some z
  as_whole (some (text s)) = none
  as_whole (some (number x)) = none
  as_whole (some null) = none

  -- `str(payload.get("order_id") or "")`
  abbrev pub as_id : Option (Value R) → Option String
  as_id (some null) = some ""
  as_id none = some ""
  as_id (some (text s)) = some s
  as_id (some (number x)) = none
  as_id (some (whole z)) = none

  -- `from_payload`, with the fresh id that `__post_init__` gives a request without one; `none` is a
  -- payload without a symbol, which raises
  unfoldable pub from_payload : String → Dict (Value R) → Option (OrderRequest R)
  from_payload fresh_id payload = do
    symbol ← as_text (lookup "symbol" payload) none
    side ← as_text (lookup "side" payload) (some "buy")
    quantity ← as_whole (lookup "quantity" payload)
    entry_price ← as_price (lookup "entry_price" payload)
    stop_loss_price ← as_price (lookup "stop_loss_price" payload)
    take_profit_price ← as_price (lookup "take_profit_price" payload)
    order_type ← as_text (lookup "order_type" payload) (some "market")
    time_in_force ← as_text (lookup "time_in_force" payload) (some "day")
    order_id ← as_id (lookup "order_id" payload)
    some (record {
      symbol = symbol;
      side = side;
      quantity = quantity;
      entry_price = entry_price;
      stop_loss_price = stop_loss_price;
      take_profit_price = take_profit_price;
      order_type = order_type;
      time_in_force = time_in_force;
      order_id = if str_eq order_id "" then fresh_id else order_id;
    })

  as_price-price_value : (o : Option R) → as_price (some (price_value o)) ≡ some o
  as_price-price_value none = refl
  as_price-price_value (some x) = refl

  -- A request that is written to the approval queue and read back is the same request, with its own
  -- id, which every request has.
  pub from_payload-to_payload :
      (fresh_id : String) (r : OrderRequest R)
      → str_eq r.order_id "" ≡ false
      → from_payload fresh_id (to_payload r) ≡ some r
  unfolding from_payload to_payload
  from_payload-to_payload fresh_id r h = ground (
    arith,
    h,
    as_price-price_value r.entry_price,
    as_price-price_value r.stop_loss_price,
    as_price-price_value r.take_profit_price,
  )
