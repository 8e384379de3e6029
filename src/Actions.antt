-- ===== src/Actions.antt =====
-- The calls of the contract (contracts/orderbook/src/transaction.rs) and the part of the
-- transaction that they read (the calldata of the Hyli SDK).
use hyliquid.Prelude.{ℕ, Option, List, Bytes, String}
use hyliquid.Types.{ContractName, H256, Order, Pair, PairInfo, UserInfo, WithdrawDestination}

pub data PermissionedOrderbookAction : Type 0 where
  identify : PermissionedOrderbookAction
  add_session_key : PermissionedOrderbookAction
  create_pair : Pair → PairInfo → PermissionedOrderbookAction
  deposit : (symbol : String) (amount : ℕ) → PermissionedOrderbookAction
  create_order : Order → PermissionedOrderbookAction
  cancel : (order_id : String) → PermissionedOrderbookAction
  withdraw :
      (symbol : String) (amount : ℕ) (destination : WithdrawDestination)
      → PermissionedOrderbookAction
  upgrade_contract : (program_id : Bytes) → PermissionedOrderbookAction

pub data PermissionlessOrderbookAction : Type 0 where
  escape : (user_key : H256) → PermissionlessOrderbookAction

-- The number is the counter that makes the blob unique.
pub data OrderbookAction : Type 0 where
  permissioned : PermissionedOrderbookAction → ℕ → OrderbookAction
  permissionless : PermissionlessOrderbookAction → ℕ → OrderbookAction

pub record PermissionedPrivateInput : Type 0 where
  pub secret : Bytes
  pub user_info : UserInfo
  pub private_input : Bytes

pub record Blob : Type 0 where
  pub contract_name : ContractName
  pub payload : Bytes

pub record TxContext : Type 0 where
  pub block_height : ℕ
  pub lane_id : Bytes

pub record Calldata : Type 0 where
  pub tx_ctx : Option TxContext
  pub blobs : List Blob
  pub tx_blob_count : ℕ
  pub private_input : Bytes
