-- ===== src/State/Accounts.antt =====
-- Session keys, deposits, withdrawals and cancellations (contracts/orderbook/src/model.rs): each
-- reads the state and returns the events that change it.
pub mod Effects
pub mod Outcomes
use hyliquid.Prelude.{
  ℕ, ◌-◌, List, [], ◌∷◌, ◌++◌, ok, ◌>>=◌, ◌>>◌, fail_if, ok_or, if◌then◌else◌, eqb, ltb, lookup,
  contains, checked_add, u64_mod, Bytes, bytes_eq, string_eq,
}
use hyliquid.Types.{OrderId, Symbol, OrderSide, Order, UserInfo, ExecuteState, OrderbookEvent}
use hyliquid.Errors.{
  Result, order_not_found, session_key_exists, balance_overflow, insufficient_balance,
}
use hyliquid.Externals.{Externals}
use hyliquid.State.Users.{get_balance, get_user_info, nonce_increment_event}

unfoldable pub add_session_key : UserInfo → Bytes → Result (List OrderbookEvent)
unfolding nonce_increment_event
add_session_key user_info pubkey = do
  fail_if (contains pubkey user_info.session_keys) session_key_exists
  let updated = record user_info { session_keys = user_info.session_keys ++ pubkey ∷ [] }
  let added =
      OrderbookEvent.session_key_added updated.user updated.salt updated.nonce updated.session_keys
  let first = (nonce_increment_event updated >>= (λ event. ok (added ∷ event ∷ [])))
  (if eqb updated.nonce 0 then first else ok (added ∷ []))

-- The asset that an order locks: the quote of its pair for a bid, the base for an ask.
unfoldable pub required_symbol : Order → Symbol
required_symbol order = elim order.order_side [
  | OrderSide.bid ↦ order.pair.1
  | OrderSide.ask ↦ order.pair.0
]

module _ (x : Externals) where
  unfoldable pub deposit : ExecuteState → Symbol → ℕ → UserInfo → Result (List OrderbookEvent)
  unfolding get_user_info get_balance
  deposit s symbol amount user_info = do
    _ ← get_user_info s user_info.user
    new_balance ←
        ok_or (checked_add u64_mod (get_balance x s user_info symbol) amount) balance_overflow
    ok (OrderbookEvent.balance_updated user_info.user symbol new_balance ∷ [])

  unfoldable pub withdraw : ExecuteState → Symbol → ℕ → UserInfo → Result (List OrderbookEvent)
  unfolding get_balance nonce_increment_event
  withdraw s symbol amount user_info = do
    let balance = get_balance x s user_info symbol
    fail_if (ltb balance amount) (insufficient_balance symbol)
    nonce ← nonce_increment_event user_info
    ok (OrderbookEvent.balance_updated user_info.user symbol (balance - amount) ∷ nonce ∷ [])

  unfoldable pub cancel_order : ExecuteState → OrderId → UserInfo → Result (List OrderbookEvent)
  unfolding required_symbol get_balance nonce_increment_event
  cancel_order s order_id user_info = do
    order ← ok_or (lookup order_id s.order_manager.orders) (order_not_found order_id)
    let symbol = required_symbol order
    new_balance ←
        ok_or (checked_add u64_mod (get_balance x s user_info symbol) order.quantity)
          balance_overflow
    nonce ← nonce_increment_event user_info
    ok (
        OrderbookEvent.order_cancelled order_id order.pair
        ∷ OrderbookEvent.balance_updated user_info.user symbol new_balance
        ∷ nonce
        ∷ [])
