-- ===== src/Bridge/Withdrawals.antt =====
-- Settled transactions of the order book: deposits of tokens on Hyli, and withdrawals on Hyli or
-- on Ethereum (`handle_node_state_event`, `handle_settled_tx`, `handle_eth_withdraw` of
-- server/src/bridge.rs).
use hyliquid.Prelude.{
  Bool, ◌||◌, Option, none, some, List, [], ◌∷◌, ◌++◌, ok, err, panic, Result, ok_or, ltb,
  if◌then◌else◌, ◌==◌, string_eq, fail_if,
}
use hyliquid.Types.{ContractName}
use hyliquid.Actions.{OrderbookAction, PermissionedOrderbookAction, Blob}
use hyliquid.State.Escape.{orderbook_account_identity}
use hyliquid.Server.Requests.{PendingDeposit, PendingWithdraw, OrderbookRequest}
use hyliquid.Server.Assets.{AssetService, get_contract_name_from_symbol}
use hyliquid.Bridge.World.{World, BridgeError, M, ◌>>=◌, ◌>>◌, pure, lift, query, execute, call}
use hyliquid.Bridge.Parsers.{Parsers}
use hyliquid.Bridge.Logs.{EthNode}
use hyliquid.Bridge.Deposits.{BridgeModule, send}

abbrev pub kept {ℓ} : {A : Type ℓ} → Option A → List A → List A
kept none out = out
kept (some a) out = a ∷ out

abbrev pub withdraw_of : AssetService → Option OrderbookAction → Option PendingWithdraw
withdraw_of assets
      (some (
        OrderbookAction.permissioned
          (PermissionedOrderbookAction.withdraw symbol amount destination)
          counter)) =
    elim (get_contract_name_from_symbol assets symbol) [
      | none ↦ none
      | some contract_name ↦
          some
            (record { destination = destination; contract_name = contract_name; amount = amount })
    ]
withdraw_of assets other = none

unfoldable pub is_ethereum : PendingWithdraw → Bool
is_ethereum withdraw =
    withdraw.destination.network == "ethereum-mainnet"
    || withdraw.destination.network == "ethereum-sepolia"

-- `let _ = log_error!(..)`: an error is logged and goes no further, a panic does.
abbrev pub logged {ℓ} :
    {A : Type ℓ} → World × Result BridgeError A → World × Result BridgeError (Unit {0})
logged (w, ok a) = (w, ok tt)
logged (w, err e) = (w, ok tt)
logged (w, panic) = (w, panic)

abbrev pub log_error {ℓ} : {A : Type ℓ} → M A → M (Unit {0})
log_error m w = logged (m w)

unfoldable pub send_deposits : List PendingDeposit → M (Unit {0})
send_deposits [] = pure tt
send_deposits (deposit ∷ later) =
    send (OrderbookRequest.pending_deposit deposit) >> send_deposits later

module _ (x : Parsers) where
  -- The deposit that a blob makes, if it moves a token to the account of the order book.
  unfoldable pub deposit_in : Blob → Option PendingDeposit
  deposit_in blob = elim (x.decode_transfer blob.payload) [
    | none ↦ none
    | some (sender, recipient, amount) ↦
        if recipient == orderbook_account_identity
        then some (record { sender = sender; contract_name = blob.contract_name; amount = amount })
        else none
  ]

  unfoldable pub extract_relevant_transfers : List Blob → List PendingDeposit
  extract_relevant_transfers [] = []
  extract_relevant_transfers (blob ∷ blobs) =
      kept (deposit_in blob) (extract_relevant_transfers blobs)

  -- The withdrawal that a blob of the order book asks for, in a token that is known.
  unfoldable pub withdraw_in : AssetService → ContractName → Blob → Option PendingWithdraw
  withdraw_in assets orderbook_cn blob =
      if blob.contract_name == orderbook_cn
      then withdraw_of assets (x.decode_action blob.payload)
      else none

  unfoldable pub extract_relevant_withdraws :
      AssetService → ContractName → List Blob → List PendingWithdraw
  extract_relevant_withdraws assets orderbook_cn [] = []
  extract_relevant_withdraws assets orderbook_cn (blob ∷ blobs) =
      kept (withdraw_in assets orderbook_cn blob)
        (extract_relevant_withdraws assets orderbook_cn blobs)

  unfoldable pub handle_eth_withdraw : BridgeModule → EthNode → PendingWithdraw → M (Unit {0})
  handle_eth_withdraw b node withdraw = do
    to ← lift (ok_or (x.parse_address withdraw.destination.address) BridgeError.unparsed_address)
    balance ← query (λ w. node.token_balance w.transfers b.eth_contract_vault_address)
    lift (fail_if (ltb balance withdraw.amount) BridgeError.insufficient_balance)
    -- the transfer is sent, and then its receipt is waited for
    execute (λ w. record w {
      transfers = w.transfers ++ (record { to = to; amount = withdraw.amount }) ∷ [];
    })
    call

  unfoldable pub handle_withdraw : BridgeModule → EthNode → PendingWithdraw → M (Unit {0})
  handle_withdraw b node withdraw =
      if is_ethereum withdraw
      then log_error (handle_eth_withdraw b node withdraw)
      else send (OrderbookRequest.pending_withdraw withdraw)

  unfoldable pub handle_withdraws : BridgeModule → EthNode → List PendingWithdraw → M (Unit {0})
  handle_withdraws b node [] = pure tt
  handle_withdraws b node (withdraw ∷ later) =
      handle_withdraw b node withdraw >> handle_withdraws b node later

  unfoldable pub handle_settled_tx :
      BridgeModule → EthNode → AssetService → List Blob → M (Unit {0})
  handle_settled_tx b node assets blobs = do
    send_deposits (extract_relevant_transfers blobs)
    handle_withdraws b node (extract_relevant_withdraws assets b.orderbook_cn blobs)

  -- The settled transactions of a block, in the order of its events.
  unfoldable pub handle_node_state_event :
      BridgeModule → EthNode → AssetService → List (List Blob) → M (Unit {0})
  handle_node_state_event b node assets [] = pure tt
  handle_node_state_event b node assets (blobs ∷ later) =
      handle_settled_tx b node assets blobs >> handle_node_state_event b node assets later
