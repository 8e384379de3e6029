-- ===== src/OrderManager/Events.antt =====
-- `apply_event`, `clean` and `cancel_order_dry_run` of contracts/orderbook/src/order_manager.rs:
-- how events change the resting orders.
pub mod Removal
pub mod Queued
use hyliquid.Prelude.{
  ℕ, not, Option, none, some, List, [], ◌∷◌, ◌++◌, if◌then◌else◌, lookup, insert, remove, or_insert,
  is_empty, retain, ok, ◌>>=◌, ok_or, ◌==◌, string_eq, pair_eq, Map,
}
use hyliquid.Types.{
  OrderId, Pair, H256, OrderSide, Order, OrderbookEvent, OrderManager, PriceLevels,
}
use hyliquid.Errors.{
  Result, order_not_found, created_price_missing, cancelled_missing, executed_missing,
  update_missing,
}
use hyliquid.OrderManager.Levels.{side_map, set_side_map, get_order_list_mut, retain_nonempty}

unfoldable pub cancel_order_dry_run : OrderManager → OrderId → Result (List OrderbookEvent)
cancel_order_dry_run m order_id = do
  order ← ok_or (lookup order_id m.orders) (order_not_found order_id)
  ok (OrderbookEvent.order_cancelled order_id order.pair ∷ [])

-- `order_list.push_back(id)` and `order_list.retain(|id| id != order_id)`.
unfoldable pub push_back : OrderId → List OrderId → List OrderId
push_back order_id queue = queue ++ order_id ∷ []

unfoldable pub retain_other : OrderId → List OrderId → List OrderId
retain_other order_id queue = retain (λ id. not (id == order_id)) queue

unfoldable pub apply_created : OrderManager → H256 → Order → Result OrderManager
unfolding get_order_list_mut push_back
apply_created m user_info_key order = do
  price ← ok_or order.price created_price_missing
  let m' = get_order_list_mut m order.order_side order.pair price (push_back order.order_id)
  ok (record m' {
    orders = insert order.order_id order m'.orders;
    orders_owner = or_insert order.order_id user_info_key m'.orders_owner;
  })

-- `if let Some(price) = order.price { .. }`: the id leaves the queue of its price level.
unfoldable pub unlist : OrderManager → OrderId → Order → Option ℕ → OrderManager
unfolding get_order_list_mut retain_other
unlist m order_id order none = m
unlist m order_id order (some price) =
    get_order_list_mut m order.order_side order.pair price (retain_other order_id)

-- The common part of the arms for a cancelled and for an executed order: the id leaves its queue,
-- and the order stays with quantity zero.
unfoldable pub retire : OrderManager → OrderId → Order → OrderManager
unfolding unlist
retire m order_id order =
    let m' = unlist m order_id order order.price in
    record m' {
      orders = insert order_id (record order { quantity = 0 }) m'.orders;
      orders_owner = remove order_id m'.orders_owner;
    }

unfoldable pub apply_event : OrderManager → H256 → OrderbookEvent → Result OrderManager
unfolding apply_created retire
apply_event m user_info_key (OrderbookEvent.order_created order) =
    apply_created m user_info_key order
apply_event m user_info_key (OrderbookEvent.order_cancelled order_id _) = do
  order ← ok_or (lookup order_id m.orders) (cancelled_missing order_id)
  ok (retire m order_id order)
apply_event m user_info_key (OrderbookEvent.order_executed order_id taker_order_id _) =
    if order_id == taker_order_id
    then ok m
    else ok_or (lookup order_id m.orders) (executed_missing order_id) >>= λ order.
        ok (retire m order_id order)
apply_event m user_info_key (OrderbookEvent.order_update order_id _ _ remaining_quantity _) = do
  order ← ok_or (lookup order_id m.orders) (update_missing order_id)
  ok (record m {
    orders = insert order_id (record order { quantity = remaining_quantity }) m.orders;
  })
apply_event m user_info_key _ = ok m

-- The pair loses its entry where no level is left.
unfoldable pub store_levels : Pair → PriceLevels → Map Pair PriceLevels → Map Pair PriceLevels
store_levels pair levels book =
    if is_empty levels then remove pair book else insert pair levels book

unfoldable pub clean_empty_price_levels : OrderManager → OrderSide → Pair → OrderManager
unfolding side_map set_side_map retain_nonempty store_levels
clean_empty_price_levels m side pair = elim (lookup pair (side_map m side)) [
  | none ↦ m
  | some levels ↦ set_side_map m side (store_levels pair (retain_nonempty levels) (side_map m side))
]

-- One order that is done for: its side is cleaned and it leaves both tables.
unfoldable pub discard : OrderManager → OrderId → OrderManager
unfolding clean_empty_price_levels
discard m order_id =
    let m' : OrderManager = elim (lookup order_id m.orders) [
      | none ↦ m
      | some stored ↦
          let cleaned = clean_empty_price_levels m stored.order_side stored.pair in
          record cleaned { orders = remove order_id cleaned.orders }
    ] in
    record m' { orders_owner = remove order_id m'.orders_owner }

unfoldable pub clean_event : OrderManager → OrderbookEvent → OrderManager
unfolding discard
clean_event m (OrderbookEvent.order_executed order_id taker_order_id _) =
    if order_id == taker_order_id then m else discard m order_id
clean_event m (OrderbookEvent.order_cancelled order_id _) = discard m order_id
clean_event m _ = m

unfoldable pub clean : OrderManager → List OrderbookEvent → OrderManager
unfolding clean_event
clean m [] = m
clean m (event ∷ events) = clean (clean_event m event) events
