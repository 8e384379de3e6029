-- ===== src/Tests/Fixtures.antt =====
-- A small book: three asks of one pair at two prices, and the orders that meet them.
use hyliquid.Prelude.{ℕ, some, List, [], ◌∷◌}
use hyliquid.Types.{OrderId, Pair, OrderSide, OrderType, Order, OrderManager, OrderbookEvent}

abbrev pub eth_usdc : Pair
eth_usdc = ("ETH", "USDC")

abbrev pub ask_of : OrderId → (price quantity : ℕ) → Order
ask_of id price quantity = record {
  order_id = id;
  order_type = OrderType.limit;
  order_side = OrderSide.ask;
  price = some price;
  pair = eth_usdc;
  quantity = quantity;
}

abbrev pub book : OrderManager
book = record {
  orders = ("a1", ask_of "a1" 100 3) ∷ ("a2", ask_of "a2" 100 4) ∷ ("a3", ask_of "a3" 110 5) ∷ [];
  bid_orders = [];
  ask_orders = (eth_usdc, (100, "a1" ∷ "a2" ∷ []) ∷ (110, "a3" ∷ []) ∷ []) ∷ [];
  orders_owner = ("a1", 7) ∷ ("a2", 8) ∷ ("a3", 7) ∷ [];
}

-- A bid for ten that may pay 105: it takes both orders at 100 and rests with three.
abbrev pub taker : Order
taker = record (ask_of "b1" 105 10) { order_side = OrderSide.bid }

abbrev pub taker_events : List OrderbookEvent
taker_events =
    OrderbookEvent.order_executed "a1" "b1" eth_usdc
    ∷ OrderbookEvent.order_executed "a2" "b1" eth_usdc
    ∷ OrderbookEvent.order_created (record taker { quantity = 3 })
    ∷ []
