-- ===== src/Contract/Witness.antt =====
-- The state that the prover hands to the contract (`ZkVmState` of contracts/orderbook/src/zk/mod.rs
-- and `OrderManagerWitnesses` of zk/order_merkle.rs), and its conversion to an `ExecuteState` and
-- back (zk/contract.rs). A set of witnessed values is a list without repetition. The proofs beside
-- the values, which the conversions leave alone, and the roots that they yield are left out.
use hyliquid.Prelude.{
  ℕ, Bool, ◌&&◌, true, false, List, [], ◌∷◌, ◌++◌, map, if◌then◌else◌, eqb, lookup, insert,
  contains_key, get_or, Map, any, ◌==◌, nat_eq, string_eq, pair_eq, bytes_eq, bytes_beq, Bytes,
  String, ◌||◌,
}
use hyliquid.Types.{
  OrderId, H256, Symbol, Balance, Pair, ContractName, AssetInfo, Order, UserInfo, PriceLevels,
  OrderManager, ExecuteState,
}
use hyliquid.OrderManager.Levels.{insert_level}
use hyliquid.State.Users.{values}

pub record OrderPriceLevel : Type 0 where
  pub pair : Pair
  pub price : ℕ
  pub order_ids : List OrderId

pub record OrderManagerWitnesses : Type 0 where
  pub orders : List Order
  pub bid_orders : List OrderPriceLevel
  pub ask_orders : List OrderPriceLevel
  pub orders_owner : Map OrderId H256

pub record ZkVmState : Type 0 where
  pub users_info : List UserInfo
  pub balances : Map Symbol (List (H256 × Balance))
  pub lane_id : Bytes
  pub hashed_secret : H256
  pub last_block_number : ℕ
  pub order_manager : OrderManagerWitnesses
  pub assets : Map Symbol AssetInfo

unfoldable pub same_keys : List Bytes → List Bytes → Bool
unfolding bytes_beq
same_keys [] [] = true
same_keys (k ∷ ks) (l ∷ ls) = bytes_beq k l && same_keys ks ls
same_keys _ _ = false

-- The derived equality of users, by which a set of them tells its members apart.
unfoldable pub same_user : UserInfo → UserInfo → Bool
unfolding same_keys bytes_beq
same_user u v =
    u.user == v.user
    && (bytes_beq u.salt v.salt && (eqb u.nonce v.nonce && same_keys u.session_keys v.session_keys))

unfoldable pub same_balance : H256 × Balance → H256 × Balance → Bool
same_balance b c = eqb b.0 c.0 && eqb b.1 c.1

-- `HashSet::extend`: a value that is there already is not added again.
unfoldable pub extend_set {ℓ} : {A : Type ℓ} → (A → A → Bool) → List A → List A → List A
extend_set same set [] = set
extend_set same set (a ∷ rest) =
    extend_set same (if any (same a) set then set else set ++ a ∷ []) rest

unfoldable pub is_blob_whitelisted : ZkVmState → ContractName → Bool
unfolding values
is_blob_whitelisted z contract_name =
    if contract_name == "orderbook"
    then true
    else contains_key contract_name z.assets
      || any (λ info. info.contract_name == contract_name) (values z.assets)

-- The loops of `into_order_manager`: the orders by their ids, the levels by pair and price.
unfoldable pub index_orders : List Order → Map OrderId Order → Map OrderId Order
index_orders [] orders = orders
index_orders (order ∷ rest) orders = index_orders rest (insert order.order_id order orders)

unfoldable pub index_levels : List OrderPriceLevel → Map Pair PriceLevels → Map Pair PriceLevels
unfolding insert_level
index_levels [] side = side
index_levels (level ∷ rest) side = index_levels rest (
    insert level.pair
      (insert_level level.price level.order_ids (get_or (lookup level.pair side) [])) side)

unfoldable pub into_order_manager : OrderManagerWitnesses → OrderManager
unfolding index_orders index_levels
into_order_manager w = record {
  orders = index_orders w.orders [];
  bid_orders = index_levels w.bid_orders [];
  ask_orders = index_levels w.ask_orders [];
  orders_owner = w.orders_owner;
}

unfoldable pub index_users : List UserInfo → Map String UserInfo → Map String UserInfo
index_users [] users = users
index_users (u ∷ rest) users = index_users rest (insert u.user u users)

unfoldable pub index_balances : List (H256 × Balance) → Map H256 Balance → Map H256 Balance
index_balances [] balances = balances
index_balances ((key, balance) ∷ rest) balances = index_balances rest (insert key balance balances)

-- The witnessed values move into the new state: `self` is left without them, and without assets.
unfoldable pub into_orderbook_state : ZkVmState → ZkVmState × ExecuteState
unfolding into_order_manager index_users index_balances
into_orderbook_state z = (
  record z { users_info = []; balances = map (λ entry. (entry.0, [])) z.balances; assets = [] },
  record {
    assets_info = z.assets;
    users_info = index_users z.users_info [];
    balances = map (λ entry. (entry.0, index_balances entry.1 [])) z.balances;
    order_manager = into_order_manager z.order_manager;
  },
)

unfoldable pub levels_from : Pair → PriceLevels → List OrderPriceLevel
levels_from pair [] = []
levels_from pair ((price, queue) ∷ levels) =
    record { pair = pair; price = price; order_ids = queue } ∷ levels_from pair levels

unfoldable pub collect_price_levels : Map Pair PriceLevels → List OrderPriceLevel
unfolding levels_from
collect_price_levels [] = []
collect_price_levels ((pair, levels) ∷ rest) = levels_from pair levels ++ collect_price_levels rest

-- The balances of a symbol that the witness has: those of the state are added to them.
unfoldable pub return_balances :
    Map Symbol (Map H256 Balance)
    → Map Symbol (List (H256 × Balance))
    → Map Symbol (List (H256 × Balance))
unfolding extend_set same_balance
return_balances balances [] = []
return_balances balances ((symbol, set) ∷ rest) =
    (symbol, extend_set same_balance set (get_or (lookup symbol balances) []))
    ∷ return_balances balances rest

unfoldable pub take_changes_back : ZkVmState → ExecuteState → ZkVmState
unfolding return_balances extend_set same_user values collect_price_levels
take_changes_back z s = record z {
  users_info = extend_set same_user z.users_info (values s.users_info);
  balances = return_balances s.balances z.balances;
  assets = s.assets_info;
  order_manager = record {
    orders = values s.order_manager.orders;
    bid_orders = collect_price_levels s.order_manager.bid_orders;
    ask_orders = collect_price_levels s.order_manager.ask_orders;
    orders_owner = s.order_manager.orders_owner;
  };
}
