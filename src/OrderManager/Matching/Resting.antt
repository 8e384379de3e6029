-- ===== src/OrderManager/Matching/Resting.antt =====
-- The resting orders that an incoming order meets, in the order of their priority.
use hyliquid.Prelude.{ℕ, ◌≡◌, Option, none, some, List, [], lookup, get_or, pair_eq, reverse}
use hyliquid.Types.{OrderId, Pair, OrderSide, Order, OrderManager, PriceLevels}
use hyliquid.OrderManager.Levels.{side_map}
use hyliquid.OrderManager.Matching.{counter_side, counter_orders}
use hyliquid.OrderManager.Matching.Flat.{queue}

-- The price levels that an order meets, best price first: for a buyer the asks from the lowest
-- price up, for a seller the bids from the highest price down.
unfoldable pub opposite : OrderManager → OrderSide → Pair → PriceLevels
opposite m OrderSide.bid pair = get_or (lookup pair m.ask_orders) []
opposite m OrderSide.ask pair = reverse (get_or (lookup pair m.bid_orders) [])

-- The resting orders that an order meets, in the order of their priority.
unfoldable pub resting : OrderManager → Order → List (ℕ × OrderId)
unfolding queue opposite
resting m order = queue (opposite m order.order_side order.pair)

unfoldable pub counter : OrderManager → OrderSide → Pair → Option PriceLevels
counter m side pair = lookup pair (side_map m (counter_side side))

pub opposite-none :
    (m : OrderManager) (side : OrderSide) (pair : Pair)
    → counter m side pair ≡ none
    → opposite m side pair ≡ []
unfolding opposite counter counter_side side_map
opposite-none m OrderSide.bid pair e = rw e
opposite-none m OrderSide.ask pair e = rw e

pub opposite-some :
    (m : OrderManager) (side : OrderSide) (pair : Pair) {levels : PriceLevels}
    → counter m side pair ≡ some levels
    → opposite m side pair ≡ counter_orders side levels
unfolding opposite counter counter_side counter_orders side_map
opposite-some m OrderSide.bid pair e = rw e
opposite-some m OrderSide.ask pair e = rw e
