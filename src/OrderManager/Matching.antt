-- ===== src/OrderManager/Matching.antt =====
-- `execute_order_dry_run` of contracts/orderbook/src/order_manager.rs: the matching of an
-- incoming order against the opposite side of its pair. A loop returns the events that it pushes.
pub mod Flat
pub mod Resting
pub mod Cases
pub mod Fills
pub mod Remainder
pub mod Priority
pub mod Progress
pub mod Known
pub mod Closing
pub mod Execution
use hyliquid.Prelude.{
  ℕ, ◌-◌, Bool, true, false, not, ◌&&◌, Option, none, some, List, [], ◌∷◌, ◌++◌, reverse, ltb, eqb,
  if◌then◌else◌, lookup, ok, err, panic, ◌>>=◌, ◌>>◌, fail_if, ok_or, compare, Ordering, string_eq,
  pair_eq,
}
use hyliquid.Types.{
  OrderId, Pair, OrderSide, Order, is_limit, OrderbookEvent, OrderManager, PriceLevels,
}
use hyliquid.Errors.{
  Result, order_not_found, order_already_exists, no_matching_orders, price_missing, price_zero,
}
use hyliquid.OrderManager.Levels.{side_map}

unfoldable pub simulate_insert_order : Order → Result (List OrderbookEvent)
simulate_insert_order order = do
  price ← ok_or order.price price_missing
  fail_if (eqb price 0) price_zero
  ok (OrderbookEvent.order_created order ∷ [])

-- Whether a level at `existing` is worse than the limit of an order of this side.
unfoldable pub price_should_defer : OrderSide → ℕ → ℕ → Bool
price_should_defer OrderSide.bid existing price = ltb price existing
price_should_defer OrderSide.ask existing price = ltb existing price

unfoldable pub deferred_by : OrderSide → ℕ → Option ℕ → Bool
unfolding price_should_defer
deferred_by side existing none = false
deferred_by side existing (some price) = price_should_defer side existing price

-- How a loop ends: its range is exhausted, it breaks out of both loops, or the function returns.
-- Each carries the events pushed, and `order_to_execute` where the function goes on.
pub data Flow : Type 0 where
  exhausted : List OrderbookEvent → Order → Flow
  break_outer : List OrderbookEvent → Order → Flow
  returned : List OrderbookEvent → Flow

-- The events `es` pushed before those of `flow`.
unfoldable pub pushed : List OrderbookEvent → Flow → Flow
pushed es (Flow.exhausted es' order) = Flow.exhausted (es ++ es') order
pushed es (Flow.break_outer es' order) = Flow.break_outer (es ++ es') order
pushed es (Flow.returned es') = Flow.returned (es ++ es')

-- The three arms of `existing_order.quantity.cmp(&order_to_execute.quantity)`. `rest` is the
-- remainder of the inner loop, run on the reduced order.
unfoldable pub match_arms : Ordering → OrderId → Order → Order → (Order → Result Flow) → Result Flow
unfolding pushed
match_arms Ordering.gt id existing current rest =
    let update =
      OrderbookEvent.order_update id current.order_id current.quantity
        (existing.quantity - current.quantity) existing.pair in
    ok (Flow.break_outer (update ∷ []) (record current { quantity = 0 }))
match_arms Ordering.eq id existing current rest =
    let executed = OrderbookEvent.order_executed id current.order_id existing.pair in
    ok (Flow.break_outer (executed ∷ []) (record current { quantity = 0 }))
match_arms Ordering.lt id existing current rest =
    let executed = OrderbookEvent.order_executed id current.order_id existing.pair in
    rest (record current { quantity = current.quantity - existing.quantity }) >>= λ flow.
    ok (pushed (executed ∷ []) flow)

unfoldable pub match_quantity : OrderId → Order → Order → (Order → Result Flow) → Result Flow
unfolding match_arms
match_quantity id existing current rest =
    match_arms (compare existing.quantity current.quantity) id existing current rest

-- `events.extend(simulate_insert_order(..)?); return Ok(events)`
unfoldable pub return_inserted : Order → Result Flow
unfolding simulate_insert_order
return_inserted current = simulate_insert_order current >>= λ es. ok (Flow.returned es)

-- What follows one level in the outer loop.
unfoldable pub next_level : (Order → Result Flow) → Flow → Result Flow
unfolding pushed
next_level rest (Flow.exhausted es current) = rest current >>= λ flow. ok (pushed es flow)
next_level rest (Flow.break_outer es current) = ok (Flow.break_outer es current)
next_level rest (Flow.returned es) = ok (Flow.returned es)

module _ (m : OrderManager) (side : OrderSide) where
  -- One resting order: the price test comes before the quantities are compared.
  unfoldable pub match_one : ℕ → OrderId → (Order → Result Flow) → Order → Result Flow
  unfolding match_quantity deferred_by return_inserted
  match_one price id rest current = do
    existing ← ok_or (lookup id m.orders) (order_not_found id)
    (if deferred_by side price current.price
        then return_inserted current
        else match_quantity id existing current rest)

  -- The inner loop, over the queue of one price level.
  unfoldable pub match_ids : ℕ → List OrderId → Order → Result Flow
  unfolding match_one
  match_ids price [] current = ok (Flow.exhausted [] current)
  match_ids price (id ∷ ids) current = match_one price id (match_ids price ids) current

  -- The outer loop, over the price levels.
  unfoldable pub match_levels : PriceLevels → Order → Result Flow
  unfolding match_ids next_level
  match_levels [] current = ok (Flow.exhausted [] current)
  match_levels ((price, ids) ∷ levels) current =
      match_ids price ids current >>= next_level (match_levels levels)

-- After the loops: the taker's own `OrderExecuted`, and the rest of a limit order.
unfoldable pub close_order : Order → Result (List OrderbookEvent)
unfolding simulate_insert_order
close_order current = do
  inserted ←
      (if ltb 0 current.quantity && is_limit current.order_type
        then simulate_insert_order current
        else ok [])
  ok (
      (if eqb current.quantity 0
        then OrderbookEvent.order_executed current.order_id current.order_id current.pair ∷ []
        else [])
      ++ inserted)

unfoldable pub finish : Flow → Result (List OrderbookEvent)
unfolding close_order
finish (Flow.exhausted es current) = close_order current >>= λ closing. ok (es ++ closing)
finish (Flow.break_outer es current) = close_order current >>= λ closing. ok (es ++ closing)
finish (Flow.returned es) = ok es

unfoldable pub counter_side : OrderSide → OrderSide
counter_side OrderSide.bid = OrderSide.ask
counter_side OrderSide.ask = OrderSide.bid

-- `orders.iter()` for a bid, `orders.iter().rev()` for an ask: best price first.
unfoldable pub counter_orders : OrderSide → PriceLevels → PriceLevels
counter_orders OrderSide.bid levels = levels
counter_orders OrderSide.ask levels = reverse levels

-- The guard against an order id that is in use: an order of quantity zero does not count.
unfoldable pub check_new : OrderManager → Order → Result (Unit {0})
check_new m order = elim (lookup order.order_id m.orders) [
  | none ↦ ok tt
  | some existing ↦ fail_if (not (eqb existing.quantity 0)) (order_already_exists order.order_id)
]

-- The rest of the function, by whether the pair has a counter side at all.
unfoldable pub match_book : OrderManager → Order → Option PriceLevels → Result (List OrderbookEvent)
unfolding simulate_insert_order counter_orders match_levels finish
match_book m order none =
    if is_limit order.order_type
    then simulate_insert_order order
    else err (no_matching_orders order.order_id)
match_book m order (some levels) =
    match_levels m order.order_side (counter_orders order.order_side levels) order >>= finish

unfoldable pub execute_order_dry_run : OrderManager → Order → Result (List OrderbookEvent)
unfolding check_new side_map counter_side match_book
execute_order_dry_run m order = do
  check_new m order
  match_book m order (lookup order.pair (side_map m (counter_side order.order_side)))
