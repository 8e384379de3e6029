-- ===== src/Contract/Collection.antt =====
-- What a proof needs of the state: the users, balances, orders and price levels that events touch
-- (`collect_user_and_balance_updates` and `collect_orders_updates` of
-- contracts/orderbook/src/zk/commitment_metadata.rs, `resolve_user_from_state` of zk/mod.rs). A set
-- is a list without repetition.
use hyliquid.Prelude.{
  ℕ, Bool, ◌&&◌, true, false, Option, none, some, List, [], ◌∷◌, ◌++◌, ok, err, panic, ok_or, ◌>>=◌,
  if◌then◌else◌, Map, lookup, or_insert, insert, get_or, eqb, ◌==◌, string_eq, pair_eq, nat_eq,
  String,
}
use hyliquid.Types.{
  OrderId, Pair, Symbol, H256, Balance, OrderSide, OrderType, Order, OrderbookEvent,
  OrderCollectionMode, UserInfo, OrderManager, ExecuteState, is_market,
}
use hyliquid.Errors.{
  Result, cancelled_not_found, executed_not_found, updated_not_found, order_has_no_price,
  price_map_missing, order_queue_missing,
}
use hyliquid.Externals.{Externals}
use hyliquid.OrderManager.Levels.{side_map}
use hyliquid.State.Users.{get_key, get_user_info}
use hyliquid.Contract.Witness.{OrderPriceLevel, extend_set, same_user}

-- The derived equalities by which the sets tell their members apart.
abbrev pub same_type : OrderType → OrderType → Bool
same_type OrderType.market OrderType.market = true
same_type OrderType.limit OrderType.limit = true
same_type OrderType.stop OrderType.stop = true
same_type OrderType.stop_limit OrderType.stop_limit = true
same_type OrderType.stop_market OrderType.stop_market = true
same_type _ _ = false

abbrev pub same_side : OrderSide → OrderSide → Bool
same_side OrderSide.bid OrderSide.bid = true
same_side OrderSide.ask OrderSide.ask = true
same_side _ _ = false

abbrev pub same_price : Option ℕ → Option ℕ → Bool
same_price none none = true
same_price (some p) (some q) = eqb p q
same_price _ _ = false

unfoldable pub same_order : Order → Order → Bool
same_order o p =
    o.order_id == p.order_id
    && (same_type o.order_type p.order_type
        && (same_side o.order_side p.order_side
            && (same_price o.price p.price && (o.pair == p.pair && eqb o.quantity p.quantity))))

abbrev pub same_ids : List OrderId → List OrderId → Bool
same_ids [] [] = true
same_ids (i ∷ is) (j ∷ js) = i == j && same_ids is js
same_ids _ _ = false

unfoldable pub same_price_level : OrderPriceLevel → OrderPriceLevel → Bool
same_price_level l k = l.pair == k.pair && (eqb l.price k.price && same_ids l.order_ids k.order_ids)

-- `OrdersNeeded`
pub record OrdersNeeded : Type 0 where
  pub orders_to_update : List Order
  pub bid_order_price_levels : List OrderPriceLevel
  pub ask_order_price_levels : List OrderPriceLevel

-- `match order.order_side { .. insert(price_level) }`
unfoldable pub need_level : OrderSide → OrderPriceLevel → OrdersNeeded → OrdersNeeded
unfolding extend_set same_price_level
need_level OrderSide.bid level n = record n {
  bid_order_price_levels = extend_set same_price_level n.bid_order_price_levels (level ∷ []);
}
need_level OrderSide.ask level n = record n {
  ask_order_price_levels = extend_set same_price_level n.ask_order_price_levels (level ∷ []);
}

unfoldable pub need_order : Order → OrdersNeeded → OrdersNeeded
unfolding extend_set same_order
need_order order n = record n {
  orders_to_update = extend_set same_order n.orders_to_update (order ∷ []);
}

-- The arms of a cancelled, an updated and an executed order, after the order was found.
unfoldable pub collect_stored :
    OrderManager → OrderId → Pair → Order → OrdersNeeded → Result OrdersNeeded
unfolding side_map need_level need_order
collect_stored m order_id pair order n = do
  price ← ok_or order.price (order_has_no_price order_id)
  price_map ← ok_or (lookup pair (side_map m order.order_side)) (price_map_missing pair)
  order_queue ← ok_or (lookup price price_map) order_queue_missing
  ok (
      need_level order.order_side (record { pair = pair; price = price; order_ids = order_queue })
        (need_order order n))

-- A created order is shown not to exist before: its quantity is then 0.
abbrev pub created_order : OrderCollectionMode → Order → Order
created_order OrderCollectionMode.for_initial_state_witness order = record order { quantity = 0 }
created_order OrderCollectionMode.for_executing order = order

unfoldable pub collect_created :
    OrderManager → OrderCollectionMode → Order → OrdersNeeded → Result OrdersNeeded
unfolding side_map need_level need_order
collect_created m mode order n = if is_market order.order_type then ok n else (do
  price ← ok_or order.price (order_has_no_price order.order_id)
  let price_map = get_or (lookup order.pair (side_map m order.order_side)) []
  let order_queue = get_or (lookup price price_map) []
  ok (
      need_level order.order_side
        (record { pair = order.pair; price = price; order_ids = order_queue })
        (need_order (created_order mode order) n)))

unfoldable pub collect_event :
    OrderManager → OrderCollectionMode → OrderbookEvent → OrdersNeeded → Result OrdersNeeded
unfolding collect_stored collect_created
collect_event m mode (OrderbookEvent.order_cancelled order_id pair) n = do
  order ← ok_or (lookup order_id m.orders) (cancelled_not_found order_id)
  collect_stored m order_id pair order n
collect_event m mode (OrderbookEvent.order_update order_id _ _ _ pair) n = do
  order ← ok_or (lookup order_id m.orders) (updated_not_found order_id)
  collect_stored m order_id pair order n
collect_event m mode (OrderbookEvent.order_executed order_id taker_order_id pair) n =
    if order_id == taker_order_id
    then ok n
    else ok_or (lookup order_id m.orders) (executed_not_found order_id) >>= λ order.
        collect_stored m order_id pair order n
collect_event m mode (OrderbookEvent.order_created order) n = collect_created m mode order n
collect_event m mode _ n = ok n

unfoldable pub collect_events :
    OrderManager → OrderCollectionMode → List OrderbookEvent → OrdersNeeded → Result OrdersNeeded
unfolding collect_event
collect_events m mode [] n = ok n
collect_events m mode (event ∷ events) n =
    collect_event m mode event n >>= collect_events m mode events

unfoldable pub collect_orders_updates :
    OrderManager → List OrderbookEvent → OrderCollectionMode → Result OrdersNeeded
unfolding collect_events
collect_orders_updates m events mode =
    collect_events m mode events
      (record { orders_to_update = []; bid_order_price_levels = []; ask_order_price_levels = [] })

-- `Err(_) if fallback.user == user => Ok(fallback.clone())`
abbrev pub or_fallback : UserInfo → String → Result UserInfo → Result UserInfo
or_fallback fallback user (ok ui) = ok ui
or_fallback fallback user (err e) = if fallback.user == user then ok fallback else err e
or_fallback fallback user panic = panic

unfoldable pub resolve_user_from_state : ExecuteState → UserInfo → String → Result UserInfo
unfolding get_user_info
resolve_user_from_state s fallback user = or_fallback fallback user (get_user_info s user)

-- `UsersAndBalancesNeeded`
pub record UsersAndBalancesNeeded : Type 0 where
  pub users_info_needed : List UserInfo
  pub balances_needed : Map Symbol (List (H256 × Balance))

unfoldable pub need_user : UserInfo → UsersAndBalancesNeeded → UsersAndBalancesNeeded
unfolding extend_set same_user
need_user ui n = record n { users_info_needed = extend_set same_user n.users_info_needed (ui ∷ []) }

-- `entry(symbol).or_default().push(..)`
unfoldable pub need_balance :
    Symbol → H256 × Balance → UsersAndBalancesNeeded → UsersAndBalancesNeeded
need_balance symbol balance n = record n {
  balances_needed =
      insert symbol (get_or (lookup symbol n.balances_needed) [] ++ balance ∷ []) n.balances_needed;
}

unfoldable pub need_symbol : Symbol → UsersAndBalancesNeeded → UsersAndBalancesNeeded
unfolding or_insert
need_symbol symbol n = record n { balances_needed = or_insert symbol [] n.balances_needed }

module _ (x : Externals) where
  unfoldable pub collect_user :
      ExecuteState
      → UserInfo
      → OrderbookEvent
      → UsersAndBalancesNeeded
      → Result UsersAndBalancesNeeded
  unfolding resolve_user_from_state need_user need_balance need_symbol get_key
  collect_user s base_user (OrderbookEvent.balance_updated user symbol amount) n = do
    ui ← resolve_user_from_state s base_user user
    ok (need_balance symbol (get_key x ui, amount) (need_user ui n))
  collect_user s base_user (OrderbookEvent.session_key_added user _ _ _) n = do
    ui ← resolve_user_from_state s base_user user
    ok (need_user ui n)
  collect_user s base_user (OrderbookEvent.nonce_incremented user _) n = do
    ui ← resolve_user_from_state s base_user user
    ok (need_user ui n)
  collect_user s base_user (OrderbookEvent.pair_created pair _) n =
      ok (need_symbol pair.1 (need_symbol pair.0 n))
  collect_user s base_user _ n = ok n

  unfoldable pub collect_users :
      ExecuteState
      → UserInfo
      → List OrderbookEvent
      → UsersAndBalancesNeeded
      → Result UsersAndBalancesNeeded
  unfolding collect_user
  collect_users s base_user [] n = ok n
  collect_users s base_user (event ∷ events) n =
      collect_user s base_user event n >>= collect_users s base_user events

  unfoldable pub collect_user_and_balance_updates :
      ExecuteState → UserInfo → List OrderbookEvent → Result UsersAndBalancesNeeded
  unfolding collect_users resolve_user_from_state need_user
  collect_user_and_balance_updates s base_user [] =
      ok (record { users_info_needed = []; balances_needed = [] })
  collect_user_and_balance_updates s base_user events = do
    base ← resolve_user_from_state s base_user base_user.user
    collect_users s base_user events
        (need_user base (record { users_info_needed = []; balances_needed = [] }))
