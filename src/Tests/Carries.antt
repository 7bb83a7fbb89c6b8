-- ===== src/Tests/Carries.antt =====
-- runtime/flatten.py and alpaca_paper/execution.py on small inputs.
use momentum_system.Prelude.{
  ℕ, ◌≡◌, refl, String, str_eq, if◌then◌else◌, true, ◌&&◌, not, Option, none, some, List, [], ◌∷◌,
}
use momentum_system.Prelude.Int.{pos}
use momentum_system.Prelude.Sets.{mem}
use momentum_system.Float.{Real}
use momentum_system.Trading.Carries.{
  OrderTree, Holding, CarryWorld, flatten_overnight_carries, open_symbols_of,
}
use momentum_system.Trading.Fresh.{was_bought, flatten_overnight_carries-exact}
use momentum_system.Trading.Payload.{
  OrderRequest, to_payload, from_payload, from_payload-to_payload,
}
use momentum_system.Trading.Executor.{Raw, execute, Accounted, answered, execute-Accounted}
use momentum_system.Tests.Fixed.{fixed}

-- the day of the two timestamps that the orders have
abbrev date_of : String → Option ℕ
date_of s = if str_eq s "today" then some 2 else some 1

abbrev bought : String → String → OrderTree Real
bought name day = record {
  parent = record { symbol = name; side = "buy"; filled_at = day; filled_qty = 10000 };
  legs = [];
}

abbrev holdings : List (Holding Real)
holdings = record { symbol = "OLDX"; qty = 10000 } ∷ record { symbol = "NEWX"; qty = 20000 } ∷ []

abbrev orders : List (OrderTree Real)
orders = bought "OLDX" "before" ∷ bought "NEWX" "today" ∷ []

abbrev world : CarryWorld Real
world = record { positions = some holdings; orders = λ symbols. some orders; closes = λ s. true }

flatten_overnight_carries-exact_example :
    let res = flatten_overnight_carries date_of (λ xs. xs) world 2 in
    (mem "NEWX" res.carries
      ≡ (mem "NEWX" (open_symbols_of holdings) && not (was_bought date_of 2 "NEWX" orders)))
    × (mem "NEWX" res.closed ≡ (mem "NEWX" res.carries && true))
flatten_overnight_carries-exact_example =
    flatten_overnight_carries-exact date_of (λ xs. xs) world 2 "NEWX" holdings orders (λ x xs. refl)
      refl refl refl

abbrev order_request : OrderRequest Real
order_request = record {
  symbol = "ABCD";
  side = "buy";
  quantity = pos 75;
  entry_price = some 20000;
  stop_loss_price = some 19000;
  take_profit_price = none;
  order_type = "limit";
  time_in_force = "day";
  order_id = "7";
}

from_payload-to_payload_example : from_payload "8" (to_payload order_request) ≡ some order_request
from_payload-to_payload_example = from_payload-to_payload "8" order_request refl

-- a broker that takes the order and has filled ten shares of it
abbrev answer : Raw Real
answer = record {
  id = some "b1";
  status = some "partially_filled";
  filled_qty = 100000;
  filled_avg_price = 20000;
}

execute-Accounted_example :
    Accounted order_request
      (answered (some answer) order_request.quantity)
      (execute (λ s. some answer) order_request)
execute-Accounted_example = execute-Accounted (λ s. some answer) order_request
