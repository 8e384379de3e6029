-- ===== src/Bridge/Deposits.antt =====
-- Deposits from Ethereum: a log of a transfer to the vault, and the logs of the blocks that were
-- missed (`handle_eth_to_vault_log`, `catch_up_eth` of server/src/bridge.rs).
use hyliquid.Prelude.{
  ℕ, zero, suc, ◌+◌, ◌-◌, ◌/◌, ◌^◌, min, Option, none, some, List, [], ◌∷◌, ◌++◌, ok, panic, Result,
  ltb, eqb, if◌then◌else◌, String,
}
use hyliquid.Types.{ContractName}
use hyliquid.Server.Requests.{OrderbookRequest}
use hyliquid.Bridge.World.{
  Address, EthTransaction, BridgeError, M, ◌>>=◌, ◌>>◌, pure, lift, get, execute,
}
use hyliquid.Bridge.Service.{
  eth_last_block, record_eth_block, is_eth_tracked, mark_eth_processed, hyli_identity_for_eth,
  add_eth_pending_transaction,
}
use hyliquid.Bridge.Logs.{
  Log, EthNode, log_to_eth_transaction, latest_block_number, fetch_transfers_to_range,
  saturating_suc,
}

-- The fields of `BridgeModule` that do not change.
pub record BridgeModule : Type 0 where
  pub collateral_token_cn : ContractName
  pub eth_contract_vault_address : Address
  pub orderbook_cn : ContractName

-- `bus.send`
unfoldable pub send : OrderbookRequest → M (Unit {0})
send request = execute (λ w. record w { sent = w.sent ++ request ∷ [] })

-- `u128::try_from(amount).expect(..)`
unfoldable pub expect_u128 : ℕ → Result BridgeError ℕ
expect_u128 amount = if ltb amount (2 ^ 128) then ok amount else panic

abbrev pub deposit_of : ContractName → String → ℕ → OrderbookRequest
deposit_of token identity amount =
    OrderbookRequest.pending_deposit
      (record { sender = identity; contract_name = token; amount = amount })

-- The deposit of a known address is sent on; that of an unknown one waits for the claim.
unfoldable pub credit_or_wait : BridgeModule → EthTransaction → Option String → M (Unit {0})
credit_or_wait b tx none = add_eth_pending_transaction tx >>= λ added. pure tt
credit_or_wait b tx (some hyli_identity) = do
  hyli_amount ← lift (expect_u128 tx.amount)
  send (deposit_of b.collateral_token_cn hyli_identity hyli_amount)
  mark_eth_processed tx.tx_hash

unfoldable pub handle_untracked : BridgeModule → EthTransaction → M (Unit {0})
handle_untracked b tx = hyli_identity_for_eth tx.from >>= credit_or_wait b tx

unfoldable pub handle_eth_transaction : BridgeModule → EthTransaction → M (Unit {0})
handle_eth_transaction b tx = if eqb tx.from 0 then pure tt else (do
  already_tracked ← is_eth_tracked tx.tx_hash
  if already_tracked then pure tt else handle_untracked b tx)

unfoldable pub handle_eth_to_vault_log : BridgeModule → Log → M (Unit {0})
handle_eth_to_vault_log b log = do
  w ← get
  tx ← lift (log_to_eth_transaction w.now log)
  handle_eth_transaction b tx

unfoldable pub handle_logs : BridgeModule → List Log → M (Unit {0})
handle_logs b [] = pure tt
handle_logs b (log ∷ logs) = handle_eth_to_vault_log b log >> handle_logs b logs

-- `(from_block..=latest).step_by(10)`: so many starts of chunks.
unfoldable pub starts : (count start : ℕ) → List ℕ
starts zero start = []
starts (suc count) start = start ∷ starts count (start + 10)

unfoldable pub chunk_starts : (from_block latest : ℕ) → List ℕ
chunk_starts from_block latest = starts ((latest + 10 - from_block) / 10) from_block

abbrev pub chunk_end : (chunk_start latest : ℕ) → ℕ
chunk_end chunk_start latest = min (chunk_start + 9) latest

unfoldable pub handle_chunks : BridgeModule → EthNode → (latest : ℕ) → List ℕ → M (Unit {0})
handle_chunks b node latest [] = pure tt
handle_chunks b node latest (chunk_start ∷ later) = do
  logs ←
      fetch_transfers_to_range node b.eth_contract_vault_address chunk_start
        (chunk_end chunk_start latest)
  handle_logs b logs
  handle_chunks b node latest later

unfoldable pub catch_up_eth : BridgeModule → EthNode → M (Unit {0})
catch_up_eth b node = do
  last_block ← eth_last_block
  latest ← latest_block_number node
  if ltb latest (saturating_suc last_block) then pure tt else (do
    record_eth_block latest
    handle_chunks b node latest (chunk_starts (saturating_suc last_block) latest))
