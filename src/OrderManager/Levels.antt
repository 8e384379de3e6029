-- ===== src/OrderManager/Levels.antt =====
-- The price levels of one side of the book: `BTreeMap<u64, VecDeque<OrderId>>`, and the two maps
-- of an order manager from a pair to its levels (order_manager.rs).
use hyliquid.Prelude.{
  ℕ, ◌+◌, List, [], ◌∷◌, not, ltb, eqb, if◌then◌else◌, Map, lookup, insert, get_or, length,
  is_empty, nat_eq, string_eq, pair_eq,
}
use mathlib.Core.Option
use hyliquid.Types.{OrderId, Pair, OrderSide, OrderManager, PriceLevels}

-- `BTreeMap::insert`: keeps the levels in increasing order of price.
unfoldable pub insert_level : ℕ → List OrderId → PriceLevels → PriceLevels
insert_level p q [] = (p, q) ∷ []
insert_level p q ((p', q') ∷ levels) =
    if eqb p p'
    then (p, q) ∷ levels
    else if ltb p p'
    then (p, q) ∷ (p', q') ∷ levels
    else (p', q') ∷ insert_level p q levels

-- `entry(price).or_default()`, changed by `f`.
unfoldable pub update_level : ℕ → (List OrderId → List OrderId) → PriceLevels → PriceLevels
unfolding insert_level
update_level p f levels = insert_level p (f (get_or (lookup p levels) [])) levels

-- `retain(|_, order_ids| !order_ids.is_empty())`
unfoldable pub retain_nonempty : PriceLevels → PriceLevels
retain_nonempty [] = []
retain_nonempty ((p, q) ∷ levels) =
    if not (is_empty q) then (p, q) ∷ retain_nonempty levels else retain_nonempty levels

unfoldable pub side_map : OrderManager → OrderSide → Map Pair PriceLevels
side_map m OrderSide.bid = m.bid_orders
side_map m OrderSide.ask = m.ask_orders

-- A write through `side_map_mut`.
unfoldable pub set_side_map : OrderManager → OrderSide → Map Pair PriceLevels → OrderManager
set_side_map m OrderSide.bid book = record m { bid_orders = book }
set_side_map m OrderSide.ask book = record m { ask_orders = book }

-- The levels of a pair, empty where the side has none: `entry(pair).or_default()`.
unfoldable pub levels_of : OrderManager → OrderSide → Pair → PriceLevels
unfolding side_map
levels_of m side pair = get_or (lookup pair (side_map m side)) []

-- A change `f` of the queue that `get_order_list_mut` hands out. The entries of the pair and of
-- the price are created where they are missing.
unfoldable pub get_order_list_mut :
    OrderManager → OrderSide → Pair → ℕ → (List OrderId → List OrderId) → OrderManager
unfolding set_side_map side_map levels_of update_level
get_order_list_mut m side pair price f =
    set_side_map m side
      (insert pair (update_level price f (levels_of m side pair)) (side_map m side))

-- The number of ids in all queues.
unfoldable pub count_ids : PriceLevels → ℕ
count_ids [] = 0
count_ids ((_, q) ∷ levels) = length q + count_ids levels

unfoldable pub count_buy_orders : OrderManager → Pair → ℕ
unfolding count_ids
count_buy_orders m pair = get_or (Option.map count_ids (lookup pair m.bid_orders)) 0

unfoldable pub count_sell_orders : OrderManager → Pair → ℕ
unfolding count_ids
count_sell_orders m pair = get_or (Option.map count_ids (lookup pair m.ask_orders)) 0
