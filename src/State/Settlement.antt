-- ===== src/State/Settlement.antt =====
-- `execute_order` of contracts/orderbook/src/model.rs: what the fills of an order cost and bring.
-- A run works on a copy of the balances and notes which accounts it touched.
pub mod Totals
pub mod Locks
pub mod Sums
pub mod Costs
pub mod Reordered
pub mod Conservation
use hyliquid.Prelude.{
  ℕ, ◌*◌, ◌/◌, ◌%◌, ◌^◌, ltb, Option, none, some, List, [], ◌∷◌, ◌++◌, ok, ◌>>=◌, ok_or, unwrap,
  if◌then◌else◌, lookup, insert, get_or, Map, ◌==◌, nat_eq, string_eq, pair_eq, ℤ, pos, neg, ◌+ℤ◌,
  to_u64, u64_mod, String,
}
use hyliquid.Types.{
  OrderId, H256, Symbol, Balance, Pair, OrderSide, Order, UserInfo, OrderManager, ExecuteState,
  OrderbookEvent,
}
use hyliquid.Errors.{
  Result, asset_info_not_found, symbol_not_found, exchange_out_of_range, executed_owner_not_found,
  updated_owner_not_found, could_not_find, touched_symbol_missing, touched_balance_missing,
  user_name_missing,
}
use hyliquid.Externals.{Externals}
use hyliquid.OrderManager.Matching.{execute_order_dry_run}
use hyliquid.State.Users.{add_key, get_key, get_user_names, nonce_increment_event}

pub record Settlement : Type 0 where
  pub balance_changes : Map Symbol (Map H256 Balance)
  pub touched_accounts : Map Symbol (List H256)
  pub user_keys : List H256

unfoldable pub touch : Map Symbol (List H256) → Symbol → H256 → Map Symbol (List H256)
unfolding add_key
touch accounts symbol key =
    insert symbol (add_key key (get_or (lookup symbol accounts) [])) accounts

unfoldable pub record_balance_change : Settlement → H256 → Symbol → ℤ → Result Settlement
unfolding touch add_key
record_balance_change st key symbol amount = do
  balances ← ok_or (lookup symbol st.balance_changes) (symbol_not_found symbol)
  new_value ←
      ok_or (to_u64 (pos (get_or (lookup key balances) 0) +ℤ amount))
        (exchange_out_of_range key symbol)
  ok (record {
    balance_changes = insert symbol (insert key new_value balances) st.balance_changes;
    touched_accounts = touch st.touched_accounts symbol key;
    user_keys = add_key key st.user_keys;
  })

unfoldable pub record_transfer : Settlement → H256 → H256 → Symbol → ℤ → Result Settlement
unfolding record_balance_change
record_transfer st from to symbol amount = do
  st' ← record_balance_change st from symbol (neg amount)
  record_balance_change st' to symbol amount

-- `POW10[scale]`, which panics out of range.
unfoldable pub pow10 : ℕ → Option ℕ
pow10 scale = if ltb scale 20 then some (10 ^ scale) else none

-- `price * quantity / base_scale` on `u64`: the product wraps around.
unfoldable pub notional : (base_scale price quantity : ℕ) → ℕ
notional base_scale price quantity = price * quantity % u64_mod / base_scale

module _ (base_scale : ℕ) (user_info_key : H256) where
  -- A new order locks its price in the quote asset, or its quantity in the base asset.
  unfoldable pub settle_created : OrderSide → Settlement → Order → Result Settlement
  unfolding notional record_balance_change
  settle_created OrderSide.bid st created = do
    price ← unwrap created.price
    record_balance_change st user_info_key created.pair.1
        (neg (pos (notional base_scale created.quantity price)))
  settle_created OrderSide.ask st created =
      record_balance_change st user_info_key created.pair.0 (neg (pos created.quantity))

  -- `quantity` of the base asset changes hands at the price of the resting order `maker`, by the
  -- side of that order. The quote of a resting bid was locked when it was created.
  unfoldable pub settle_fill : OrderSide → Settlement → H256 → Order → Pair → ℕ → Result Settlement
  unfolding notional record_transfer touch
  settle_fill OrderSide.bid st maker_key maker pair quantity = do
    st₁ ← record_transfer st user_info_key maker_key pair.0 (pos quantity)
    price ← unwrap maker.price
    st₂ ← record_balance_change st₁ user_info_key pair.1 (pos (notional base_scale price quantity))
    ok (record st₂ { touched_accounts = touch st₂.touched_accounts pair.1 maker_key })
  settle_fill OrderSide.ask st maker_key maker pair quantity = do
    price ← unwrap maker.price
    st₁ ←
        record_transfer st user_info_key maker_key pair.1 (pos (notional base_scale price quantity))
    record_balance_change st₁ user_info_key pair.0 (pos quantity)

  module _ (m : OrderManager) (taker : OrderId) where
    unfoldable pub settle_executed : Settlement → OrderId → Pair → Result Settlement
    unfolding settle_fill
    settle_executed st order_id pair = do
      maker_key ← ok_or (lookup order_id m.orders_owner) (executed_owner_not_found order_id)
      maker ← ok_or (lookup order_id m.orders) (could_not_find order_id)
      settle_fill maker.order_side st maker_key maker pair maker.quantity

    unfoldable pub settle_updated : Settlement → OrderId → ℕ → Pair → Result Settlement
    unfolding settle_fill
    settle_updated st order_id executed_quantity pair = do
      maker_key ← ok_or (lookup order_id m.orders_owner) (updated_owner_not_found order_id)
      maker ← ok_or (lookup order_id m.orders) (could_not_find order_id)
      settle_fill maker.order_side st maker_key maker pair executed_quantity

    unfoldable pub settle_event : Settlement → OrderbookEvent → Result Settlement
    unfolding settle_created settle_executed settle_updated
    settle_event st (OrderbookEvent.order_created created) =
        settle_created created.order_side st created
    settle_event st (OrderbookEvent.order_executed order_id _ pair) =
        if order_id == taker then ok st else settle_executed st order_id pair
    settle_event st (OrderbookEvent.order_update order_id _ executed_quantity _ pair) =
        settle_updated st order_id executed_quantity pair
    settle_event st _ = ok st

    unfoldable pub settle : Settlement → List OrderbookEvent → Result Settlement
    unfolding settle_event
    settle st [] = ok st
    settle st (event ∷ events) = settle_event st event >>= λ st'. settle st' events

-- The final balances of the touched accounts of one symbol, as events.
unfoldable pub symbol_events :
    Map H256 String → Symbol → Map H256 Balance → List H256 → Result (List OrderbookEvent)
symbol_events names symbol balances [] = ok []
symbol_events names symbol balances (key ∷ keys) = do
  amount ← ok_or (lookup key balances) (touched_balance_missing key)
  name ← ok_or (lookup key names) (user_name_missing key)
  rest ← symbol_events names symbol balances keys
  ok (OrderbookEvent.balance_updated name symbol amount ∷ rest)

unfoldable pub balance_events :
    Map H256 String
    → Map Symbol (Map H256 Balance)
    → Map Symbol (List H256)
    → Result (List OrderbookEvent)
unfolding symbol_events
balance_events names changes [] = ok []
balance_events names changes ((symbol, keys) ∷ touched) = do
  balances ← ok_or (lookup symbol changes) (touched_symbol_missing symbol)
  events ← symbol_events names symbol balances keys
  rest ← balance_events names changes touched
  ok (events ++ rest)

module _ (x : Externals) where
  unfoldable pub execute_order : ExecuteState → UserInfo → Order → Result (List OrderbookEvent)
  unfolding pow10 execute_order_dry_run settle get_key get_user_names balance_events
      nonce_increment_event
  execute_order s user_info order = do
    base_asset_info ← ok_or (lookup order.pair.0 s.assets_info) (asset_info_not_found order.pair.0)
    base_scale ← unwrap (pow10 base_asset_info.scale)
    order_events ← execute_order_dry_run s.order_manager order
    let start : Settlement = record {
      balance_changes = s.balances;
      touched_accounts = [];
      user_keys = [];
    }
    st ← settle base_scale (get_key x user_info) s.order_manager order.order_id start order_events
    names ← get_user_names x s st.user_keys
    updates ← balance_events names st.balance_changes (x.touched_order st.touched_accounts)
    nonce ← nonce_increment_event user_info
    ok (order_events ++ updates ++ nonce ∷ [])
