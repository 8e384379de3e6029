-- ===== src/Types.antt =====
-- The data types of contracts/orderbook/src/model.rs: orders, events, assets and users. Names are
-- native texts, a 32-byte hash is the number that its bytes spell, a `u64` is a native number.
use hyliquid.Prelude.{ℕ, String, Option, List, Bool, true, false, Bytes, Map}

abbrev pub OrderId : Type 0
OrderId = String

abbrev pub Symbol : Type 0
Symbol = String

abbrev pub Pair : Type 0
Pair = Symbol × Symbol

abbrev pub H256 : Type 0
H256 = ℕ

abbrev pub Balance : Type 0
Balance = ℕ

abbrev pub ContractName : Type 0
ContractName = String

pub record AssetInfo : Type 0 where
  pub scale : ℕ
  pub contract_name : ContractName

pub record PairInfo : Type 0 where
  pub base : AssetInfo
  pub quote : AssetInfo

pub data OrderSide : Type 0 where
  bid ask : OrderSide

pub data OrderType : Type 0 where
  market limit stop stop_limit stop_market : OrderType

-- `order_type == OrderType::Limit`
abbrev pub is_limit : OrderType → Bool
is_limit OrderType.limit = true
is_limit _ = false

-- `order_type == OrderType::Market`
abbrev pub is_market : OrderType → Bool
is_market OrderType.market = true
is_market _ = false

pub record Order : Type 0 where
  pub order_id : OrderId
  pub order_type : OrderType
  pub order_side : OrderSide
  pub price : Option ℕ
  pub pair : Pair
  pub quantity : ℕ

pub data OrderRetentionMode : Type 0 where
  retain_for_proof finalize_removals : OrderRetentionMode

pub data OrderCollectionMode : Type 0 where
  for_initial_state_witness for_executing : OrderCollectionMode

unfoldable pub should_cleanup : OrderRetentionMode → Bool
should_cleanup OrderRetentionMode.finalize_removals = true
should_cleanup OrderRetentionMode.retain_for_proof = false

pub record WithdrawDestination : Type 0 where
  pub network : String
  pub address : String

pub data OrderbookEvent : Type 0 where
  pair_created : (pair : Pair) (info : PairInfo) → OrderbookEvent
  order_created : (order : Order) → OrderbookEvent
  order_cancelled : (order_id : OrderId) (pair : Pair) → OrderbookEvent
  order_executed : (order_id taker_order_id : OrderId) (pair : Pair) → OrderbookEvent
  order_update :
      (order_id taker_order_id : OrderId) (executed_quantity remaining_quantity : ℕ) (pair : Pair)
      → OrderbookEvent
  balance_updated : (user symbol : String) (amount : ℕ) → OrderbookEvent
  session_key_added :
      (user : String) (salt : Bytes) (nonce : ℕ) (session_keys : List Bytes) → OrderbookEvent
  nonce_incremented : (user : String) (nonce : ℕ) → OrderbookEvent

pub record UserInfo : Type 0 where
  pub user : String
  pub salt : Bytes
  pub nonce : ℕ
  pub session_keys : List Bytes

-- A `BTreeMap<u64, VecDeque<OrderId>>`: the price levels in increasing order of price.
abbrev pub PriceLevels : Type 0
PriceLevels = List (ℕ × List OrderId)

pub record OrderManager : Type 0 where
  pub orders : Map OrderId Order
  pub bid_orders : Map Pair PriceLevels
  pub ask_orders : Map Pair PriceLevels
  pub orders_owner : Map OrderId H256

pub record ExecuteState : Type 0 where
  pub assets_info : Map Symbol AssetInfo
  pub users_info : Map String UserInfo
  pub balances : Map Symbol (Map H256 Balance)
  pub order_manager : OrderManager
