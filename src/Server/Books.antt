-- ===== src/Server/Books.antt =====
-- The order book read back from the database (server/src/services/book_service.rs,
-- `get_order_manager`). The rows that the query selects, in the order of their events, are an
-- argument.
pub mod Queues
use hyliquid.Prelude.{
  ℕ, ◌^◌, ◌-◌, Bool, true, false, Option, none, some, List, [], ◌∷◌, ◌++◌, reverse, Map, lookup,
  insert, retain, Result, ok, err, panic, ◌>>=◌, nat_eq, string_eq, pair_eq, ℤ, pos, negsuc, String,
}
use hyliquid.Types.{
  OrderId, H256, Pair, OrderSide, OrderType, Order, OrderManager, PriceLevels, UserInfo,
}
use hyliquid.Externals.{Externals}
use hyliquid.State.Users.{get_key}
use hyliquid.OrderManager.Levels.{insert_level}
use hyliquid.OrderManager.Events.{push_back}

-- `n as u64`
abbrev pub as_u64 : ℤ → ℕ
as_u64 (pos n) = n
as_u64 (negsuc n) = 2 ^ 64 - n - 1

pub record BookRow : Type 0 where
  pub order_id : OrderId
  pub order_type : OrderType
  pub side : OrderSide
  pub price : ℤ
  pub qty_remaining : ℤ
  pub identity : String
  pub base_asset_symbol : String
  pub quote_asset_symbol : String

abbrev pub pair_of : BookRow → Pair
pair_of row = (row.base_asset_symbol, row.quote_asset_symbol)

abbrev pub order_of : BookRow → Order
order_of row = record {
  order_id = row.order_id;
  order_type = row.order_type;
  order_side = row.side;
  price = some (as_u64 row.price);
  pair = pair_of row;
  quantity = as_u64 row.qty_remaining;
}

-- `.map(..).collect()`: the order with its user.
unfoldable pub collect_orders :
    List BookRow → Map OrderId (Order × String) → Map OrderId (Order × String)
collect_orders [] orders = orders
collect_orders (row ∷ rows) orders =
    collect_orders rows (insert row.order_id (order_of row, row.identity) orders)

abbrev pub is_bid : BookRow → Bool
is_bid row = elim row.side [ OrderSide.bid ↦ true | OrderSide.ask ↦ false ]

abbrev pub is_ask : BookRow → Bool
is_ask row = elim row.side [ OrderSide.bid ↦ false | OrderSide.ask ↦ true ]

abbrev pub push_front : OrderId → List OrderId → List OrderId
push_front order_id queue = order_id ∷ queue

-- `entry(price).and_modify(push).or_insert(..)`
abbrev pub modify_level :
    (OrderId → List OrderId → List OrderId) → ℕ → OrderId → Option (List OrderId) → List OrderId
modify_level push price order_id none = order_id ∷ []
modify_level push price order_id (some queue) = push order_id queue

abbrev pub modify_levels :
    (OrderId → List OrderId → List OrderId) → ℕ → OrderId → Option PriceLevels → PriceLevels
modify_levels push price order_id none = (price, order_id ∷ []) ∷ []
modify_levels push price order_id (some levels) =
    insert_level price (modify_level push price order_id (lookup price levels)) levels

-- One round of a fold.
unfoldable pub add_row :
    (OrderId → List OrderId → List OrderId) → Map Pair PriceLevels → BookRow → Map Pair PriceLevels
unfolding insert_level
add_row push acc row =
    insert (pair_of row)
      (modify_levels push (as_u64 row.price) row.order_id (lookup (pair_of row) acc)) acc

unfoldable pub fold_rows :
    (OrderId → List OrderId → List OrderId)
    → Map Pair PriceLevels
    → List BookRow
    → Map Pair PriceLevels
unfolding add_row
fold_rows push acc [] = acc
fold_rows push acc (row ∷ rows) = fold_rows push (add_row push acc row) rows

unfoldable pub buy_orders : List BookRow → Map Pair PriceLevels
unfolding fold_rows
buy_orders rows = fold_rows push_front [] (retain is_bid (reverse rows))

unfoldable pub sell_orders : List BookRow → Map Pair PriceLevels
unfolding fold_rows
sell_orders rows = fold_rows push_back [] (retain is_ask rows)

abbrev pub without_users : Map OrderId (Order × String) → Map OrderId Order
without_users [] = []
without_users ((order_id, (order, user)) ∷ orders) = (order_id, order) ∷ without_users orders

module _ (x : Externals) (users_info : Map String UserInfo) where
  -- `users_info.get(user).unwrap().get_key()`
  abbrev pub key_of : Option UserInfo → Result (Unit {0}) H256
  key_of none = panic
  key_of (some user) = ok (get_key x user)

  unfoldable pub owners_of :
      Map OrderId (Order × String) → Map OrderId H256 → Result (Unit {0}) (Map OrderId H256)
  owners_of [] owners = ok owners
  owners_of ((order_id, (order, user)) ∷ orders) owners =
      key_of (lookup user users_info) >>= λ key. owners_of orders (insert order.order_id key owners)

  unfoldable pub get_order_manager : List BookRow → Result (Unit {0}) OrderManager
  unfolding collect_orders buy_orders sell_orders owners_of
  get_order_manager rows = do
    let orders = collect_orders rows []
    owners ← owners_of orders []
    ok (record {
      orders = without_users orders;
      bid_orders = buy_orders rows;
      ask_orders = sell_orders rows;
      orders_owner = owners;
    })
