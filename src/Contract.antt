-- ===== src/Contract.antt =====
-- The entry point of the contract: `execute` of contracts/orderbook/src/zk/contract.rs, which
-- checks a transaction, runs its action on the witnessed state and takes the outcome back.
pub mod Witness
pub mod Guards
pub mod Restored
pub mod Collection
pub mod Collected
pub mod Covered
use hyliquid.Prelude.{
  ℕ, Bool, not, true, false, Option, none, some, List, [], ◌∷◌, ok, ◌>>=◌, ◌>>◌, fail_if, panic_if,
  ok_or, unwrap, or_panic, map_err, eqb, length, ◌==◌, bytes_eq, Bytes, retain, ◌&&◌,
}
use hyliquid.Types.{ExecuteState, OrderbookEvent}
use hyliquid.Errors.{
  Result, calldata_unreadable, not_whitelisted, default_program_id, apply_events_failed,
}
use hyliquid.Actions.{
  Blob, Calldata, TxContext, OrderbookAction, PermissionedOrderbookAction,
  PermissionlessOrderbookAction, PermissionedPrivateInput,
}
use hyliquid.Externals.{Externals}
use hyliquid.State.Users.{get_key, has_user_info_key}
use hyliquid.State.Owners.{verify_orders_owners}
use hyliquid.State.Apply.{apply_events_preserving_zeroed_orders}
use hyliquid.State.Escape.{escape}
use hyliquid.Transaction.{execute_permissioned_action}
use hyliquid.Contract.Witness.{
  ZkVmState, is_blob_whitelisted, into_orderbook_state, take_changes_back,
}

-- What a transaction makes public: the events that may be seen, where it writes any, and an upgrade
-- of the contract.
pub record Output : Type 0 where
  pub events : Option (List OrderbookEvent)
  pub upgrade : Option Bytes

-- Events on balances, session keys and nonces stay private.
unfoldable pub is_public : OrderbookEvent → Bool
is_public (OrderbookEvent.balance_updated _ _ _) = false
is_public (OrderbookEvent.session_key_added _ _ _ _) = false
is_public (OrderbookEvent.nonce_incremented _ _) = false
is_public _ = true

unfoldable pub check_blobs : ZkVmState → List Blob → Result (Unit {0})
unfolding is_blob_whitelisted
check_blobs z [] = ok tt
check_blobs z (blob ∷ blobs) =
    fail_if (not (is_blob_whitelisted z blob.contract_name)) (not_whitelisted blob.contract_name)
    >> check_blobs z blobs

-- The end of `execute`: the public events, and the changes taken back.
unfoldable pub finish_execute : ZkVmState → ExecuteState → List OrderbookEvent → ZkVmState × Output
unfolding is_public retain take_changes_back
finish_execute z s events =
    (take_changes_back z s, record { events = some (retain is_public events); upgrade = none })

module _ (x : Externals) where
  unfoldable pub run_permissioned :
      ZkVmState
      → ExecuteState
      → PermissionedPrivateInput
      → PermissionedOrderbookAction
      → Result (ZkVmState × Output)
  unfolding take_changes_back has_user_info_key get_key execute_permissioned_action finish_execute
  run_permissioned z s input PermissionedOrderbookAction.identify =
      ok (take_changes_back z s, record { events = none; upgrade = none })
  run_permissioned z s input (PermissionedOrderbookAction.upgrade_contract program_id) = do
    fail_if (program_id == x.default_program_id) default_program_id
    ok (z, record { events = none; upgrade = some program_id })
  run_permissioned z s input action = do
    known ← or_panic (has_user_info_key x s (get_key x input.user_info))
    panic_if (not known)
    (s', events) ← execute_permissioned_action x s input.user_info action input.private_input
    ok (finish_execute z s' events)

  unfoldable pub run_action :
      ZkVmState
      → ExecuteState
      → TxContext
      → Calldata
      → OrderbookAction
      → Result (ZkVmState × Output)
  unfolding run_permissioned has_user_info_key get_key escape apply_events_preserving_zeroed_orders
      finish_execute
  run_action z s tx_ctx calldata (OrderbookAction.permissioned action _) = do
    panic_if (not (tx_ctx.lane_id == z.lane_id))
    input ← unwrap (x.decode_permissioned calldata.private_input)
    panic_if (not (eqb (x.sha3_256 input.secret) z.hashed_secret))
    run_permissioned z s input action
  run_action z s tx_ctx calldata
        (OrderbookAction.permissionless (PermissionlessOrderbookAction.escape user_key) _) =
      do
        user_info ← unwrap (x.decode_escape_user calldata.private_input)
        _ ← or_panic (has_user_info_key x s (get_key x user_info))
        panic_if (not (eqb user_key (get_key x user_info)))
        events ← escape x s z.last_block_number calldata user_info
        s' ←
            map_err apply_events_failed (apply_events_preserving_zeroed_orders x s user_info events)
        ok (finish_execute z s' events)

  -- The state and the output of an accepted transaction. The caller reverts a refused one.
  unfoldable pub execute : ZkVmState → Calldata → Result (ZkVmState × Output)
  unfolding check_blobs into_orderbook_state verify_orders_owners run_action
  execute z calldata = do
    action ← ok_or (x.parse_calldata calldata) calldata_unreadable
    tx_ctx ← unwrap calldata.tx_ctx
    panic_if (not (eqb (length calldata.blobs) calldata.tx_blob_count))
    check_blobs z calldata.blobs
    let taken = into_orderbook_state z
    or_panic (verify_orders_owners x taken.1 action)
    run_action taken.0 taken.1 tx_ctx calldata action
