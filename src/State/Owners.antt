-- ===== src/State/Owners.antt =====
-- `verify_orders_owners` of contracts/orderbook/src/model.rs: every owner entry names an order and
-- a user that the state knows.
use hyliquid.Prelude.{
  Bool, false, not, ◌&&◌, [], ◌∷◌, ok, ◌>>=◌, ◌>>◌, fail_if, contains_key, Map, ◌==◌, string_eq,
}
use hyliquid.Types.{OrderId, H256, ExecuteState}
use hyliquid.Errors.{Result, order_without_record, owner_without_user}
use hyliquid.Actions.{OrderbookAction, PermissionedOrderbookAction}
use hyliquid.Externals.{Externals}
use hyliquid.State.Users.{has_user_info_key}

-- Whether the action creates the order of this id.
unfoldable pub creates : OrderbookAction → OrderId → Bool
creates (OrderbookAction.permissioned (PermissionedOrderbookAction.create_order order) _) order_id =
    order.order_id == order_id
creates _ order_id = false

module _ (x : Externals) (s : ExecuteState) (action : OrderbookAction) where
  unfoldable pub verify_owner : OrderId → H256 → Result (Unit {0})
  unfolding creates has_user_info_key
  verify_owner order_id key = do
    fail_if (not (contains_key order_id s.order_manager.orders) && not (creates action order_id))
        (order_without_record order_id)
    known ← has_user_info_key x s key
    fail_if (not known) (owner_without_user key)

  unfoldable pub verify_owners : Map OrderId H256 → Result (Unit {0})
  unfolding verify_owner
  verify_owners [] = ok tt
  verify_owners ((order_id, key) ∷ owners) = verify_owner order_id key >> verify_owners owners

unfoldable pub verify_orders_owners : Externals → ExecuteState → OrderbookAction → Result (Unit {0})
unfolding verify_owners
verify_orders_owners x s action = verify_owners x s action s.order_manager.orders_owner
