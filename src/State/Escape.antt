-- ===== src/State/Escape.antt =====
-- `escape` of contracts/orderbook/src/model.rs: a user leaves with all funds, once the contract has
-- been silent for 5000 blocks.
use hyliquid.Prelude.{
  ℕ, ◌+◌, ◌%◌, Bool, false, ◌&&◌, none, some, List, [], ◌∷◌, ◌++◌, ok, ◌>>=◌, ◌>>◌, fail_if, ok_or,
  if◌then◌else◌, eqb, leb, lookup, insert, get_or, Map, any, not, ◌==◌, string_eq, u64_mod, String,
}
use hyliquid.Types.{
  OrderId, H256, Symbol, Balance, ContractName, Order, UserInfo, OrderManager, ExecuteState,
  OrderbookEvent,
}
use hyliquid.Errors.{
  Result, escape_needs_context, escape_too_early, asset_info_not_found, no_escape_transfer,
}
use hyliquid.Actions.{Blob, Calldata}
use hyliquid.Externals.{Externals}
use hyliquid.OrderManager.Events.{cancel_order_dry_run}
use hyliquid.State.Users.{get_key, get_user_balances}
use hyliquid.State.Accounts.{required_symbol}

abbrev pub orderbook_account_identity : String
orderbook_account_identity = "orderbook@orderbook"

-- The orders of one owner, of those that are on record.
unfoldable pub orders_of : OrderManager → H256 → Map OrderId H256 → List Order
orders_of m key [] = []
orders_of m key ((order_id, owner) ∷ owners) =
    let rest = orders_of m key owners in
    if eqb owner key
    then elim (lookup order_id m.orders) [ none ↦ rest | some o ↦ o ∷ rest ]
    else rest

-- Cancels the orders and adds what they hold to the balances of the user.
unfoldable pub refund_orders :
    OrderManager
    → List Order
    → Map Symbol Balance
    → Result (List OrderbookEvent × Map Symbol Balance)
unfolding cancel_order_dry_run required_symbol
refund_orders m [] balances = ok ([], balances)
refund_orders m (order ∷ orders) balances = do
  cancelled ← cancel_order_dry_run m order.order_id
  let symbol = required_symbol order
  let balance = get_or (lookup symbol balances) 0
  (events, balances') ←
      refund_orders m orders (insert symbol ((balance + order.quantity) % u64_mod) balances)
  ok (cancelled ++ events, balances')

module _ (x : Externals) where
  -- A transfer from the contract to the user of the whole balance.
  unfoldable pub is_escape_transfer : ContractName → String → ℕ → Blob → Bool
  is_escape_transfer contract_name user balance blob =
      blob.contract_name == contract_name && elim (x.decode_transfer blob.payload) [
        | none ↦ false
        | some (sender, recipient, amount) ↦
            sender == orderbook_account_identity && (recipient == user && eqb amount balance)
      ]

  unfoldable pub check_transfer :
      ExecuteState → List Blob → String → Symbol → Balance → Result (Unit {0})
  unfolding is_escape_transfer
  check_transfer s blobs user symbol balance = do
    asset_info ← ok_or (lookup symbol s.assets_info) (asset_info_not_found symbol)
    fail_if (not (any (is_escape_transfer asset_info.contract_name user balance) blobs))
        (no_escape_transfer symbol)

  unfoldable pub empty_balances :
      ExecuteState → List Blob → String → Map Symbol Balance → Result (List OrderbookEvent)
  unfolding check_transfer
  empty_balances s blobs user [] = ok []
  empty_balances s blobs user ((symbol, balance) ∷ balances) = do
    (if eqb balance 0 then ok tt else check_transfer s blobs user symbol balance)
    events ← empty_balances s blobs user balances
    ok (OrderbookEvent.balance_updated user symbol 0 ∷ events)

  unfoldable pub escape : ExecuteState → ℕ → Calldata → UserInfo → Result (List OrderbookEvent)
  unfolding get_key get_user_balances orders_of refund_orders empty_balances
  escape s last_block_number calldata user_info = do
    tx_ctx ← ok_or calldata.tx_ctx escape_needs_context
    fail_if (leb tx_ctx.block_height ((last_block_number + 5000) % u64_mod)) escape_too_early
    let key = get_key x user_info
    let m = s.order_manager
    (cancelled, balances) ←
        refund_orders m (orders_of m key m.orders_owner) (get_user_balances s key)
    emptied ← empty_balances s calldata.blobs user_info.user balances
    ok (cancelled ++ emptied)
