-- ===== src/Transaction.antt =====
-- contracts/orderbook/src/transaction.rs and utils.rs: how a permissioned action becomes events,
-- and the signature that authorises it.
pub mod Authorization
use hyliquid.Prelude.{
  ℕ, Bool, false, not, ◌&&◌, none, some, List, [], ◌++◌, ok, ◌>>=◌, ◌>>◌, fail_if, ok_or, map_err,
  is_some, contains, Bytes, bytes_eq, as_bytes, decimal, String,
}
use hyliquid.Types.{Order, is_limit, is_market, UserInfo, ExecuteState, OrderbookEvent}
use hyliquid.Errors.{
  Result, limit_without_price, market_with_price, deserialize, unknown_public_key,
  invalid_signature, signature_check, generate_events, apply_events_failed,
}
use hyliquid.Actions.{PermissionedOrderbookAction}
use hyliquid.Externals.{Externals}
use hyliquid.State.Assets.{create_pair}
use hyliquid.State.Accounts.{add_session_key, deposit, withdraw, cancel_order}
use hyliquid.State.Settlement.{execute_order}
use hyliquid.State.Apply.{apply_events_preserving_zeroed_orders}

-- `format!("{user}:{nonce}:{rest}")`
unfoldable pub signed_message : UserInfo → Bytes → Bytes
signed_message user_info rest =
    as_bytes user_info.user ++ (as_bytes ":" ++ (decimal user_info.nonce ++ (as_bytes ":" ++ rest)))

unfoldable pub create_order_text : String → Bytes
create_order_text order_id = as_bytes "create_order:" ++ as_bytes order_id

unfoldable pub cancel_text : String → Bytes
cancel_text order_id = as_bytes "cancel:" ++ as_bytes order_id

unfoldable pub withdraw_text : String → ℕ → Bytes
withdraw_text symbol amount =
    as_bytes "withdraw:" ++ (as_bytes symbol ++ (as_bytes ":" ++ decimal amount))

-- The guards on the price of a new order.
unfoldable pub check_price : Order → Result (Unit {0})
check_price order = do
  fail_if (is_limit order.order_type && not (is_some order.price)) limit_without_price
  fail_if (is_market order.order_type && is_some order.price) market_with_price

module _ (x : Externals) where
  unfoldable pub verify_signature : (signature msg public_key : Bytes) → Bool
  verify_signature signature msg public_key = elim (x.parse_signature signature) [
    | none ↦ false
    | some parsed ↦ elim (x.parse_point public_key) [
      | none ↦ false
      | some point ↦ elim (x.parse_key point) [
        | none ↦ false
        | some key ↦ x.verify_digest key (x.sha3_256 msg) parsed
      ]
    ]
  ]

  unfoldable pub verify_user_signature_authorization :
      UserInfo → (pubkey msg signature : Bytes) → Result (Unit {0})
  unfolding verify_signature
  verify_user_signature_authorization user_info pubkey msg signature = do
    fail_if (not (contains pubkey user_info.session_keys)) unknown_public_key
    fail_if (not (verify_signature signature msg pubkey)) invalid_signature

  -- The private input holds a signature of the message by a session key of the user.
  unfoldable pub authorize : UserInfo → (rest private_input : Bytes) → Result (Unit {0})
  unfolding verify_user_signature_authorization signed_message
  authorize user_info rest private_input = do
    (signature, public_key) ← ok_or (x.decode_signed private_input) deserialize
    map_err signature_check (
        verify_user_signature_authorization user_info public_key (signed_message user_info rest)
          signature)

  unfoldable pub generate_permissioned_execution_events :
      ExecuteState → UserInfo → PermissionedOrderbookAction → Bytes → Result (List OrderbookEvent)
  unfolding create_pair add_session_key deposit check_price authorize create_order_text
      execute_order cancel_text cancel_order withdraw_text withdraw
  generate_permissioned_execution_events s user_info PermissionedOrderbookAction.identify input =
      ok []
  generate_permissioned_execution_events s user_info
        (PermissionedOrderbookAction.upgrade_contract _) input =
      ok []
  generate_permissioned_execution_events s user_info
        (PermissionedOrderbookAction.create_pair pair info) input =
      create_pair s pair info
  generate_permissioned_execution_events s user_info PermissionedOrderbookAction.add_session_key
        input =
      do
        new_public_key ← ok_or (x.decode_new_public_key input) deserialize
        add_session_key user_info new_public_key
  generate_permissioned_execution_events s user_info
        (PermissionedOrderbookAction.deposit symbol amount) input =
      deposit x s symbol amount user_info
  generate_permissioned_execution_events s user_info
        (PermissionedOrderbookAction.create_order order) input =
      do
        check_price order
        authorize user_info (create_order_text order.order_id) input
        execute_order x s user_info order
  generate_permissioned_execution_events s user_info (PermissionedOrderbookAction.cancel order_id)
        input =
      do authorize user_info (cancel_text order_id) input; cancel_order x s order_id user_info
  generate_permissioned_execution_events s user_info
        (PermissionedOrderbookAction.withdraw symbol amount _) input =
      do
        authorize user_info (withdraw_text symbol amount) input
        withdraw x s symbol amount user_info

  -- The events, and the state with the events applied; zeroed orders stay for the proof.
  unfoldable pub execute_permissioned_action :
      ExecuteState
      → UserInfo
      → PermissionedOrderbookAction
      → Bytes
      → Result (ExecuteState × List OrderbookEvent)
  unfolding generate_permissioned_execution_events apply_events_preserving_zeroed_orders
  execute_permissioned_action s user_info action input = do
    events ←
        map_err generate_events (generate_permissioned_execution_events s user_info action input)
    s' ← map_err apply_events_failed (apply_events_preserving_zeroed_orders x s user_info events)
    ok (s', events)
