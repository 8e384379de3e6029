-- ===== src/Bridge/Retry.antt =====
-- A log that is handled again after a failure (server/src/bridge.rs, `handle_eth_to_vault_log`).
use hyliquid.Prelude.{
  ◌+◌, ◌*◌, Bool, false, List, [], ◌∷◌, ◌≡◌, ◌≢◌, inl, inr, ap, ◌∙◌, ok, err, eqb, arith,
}
use hyliquid.Bridge.World.{BridgeError, EthTransaction, World}
use hyliquid.Bridge.Deposits.{BridgeModule, deposit_of, handle_eth_transaction}
use hyliquid.Bridge.Ledger.{Ledger, ledger_of, seen, total}
use hyliquid.Bridge.Delivery.{handle_eth_transaction-ledger}
use hyliquid.Bridge.Outcomes.{MayHaveSent}
use hyliquid.Bridge.Books.{handle_eth_transaction-err}
use hyliquid.Bridge.Replay.{total-deliver, total_sent-append}

module _ (b : BridgeModule) (tx : EthTransaction) (w w1 w2 : World) where
  sent_once :
      (l : Ledger)
      → MayHaveSent b tx (ledger_of w) l
      → l ≢ ledger_of w
      → seen (ledger_of w) tx.tx_hash ≡ false
      → (total l ≡ total (ledger_of w) + tx.amount) × (seen l tx.tx_hash ≡ false)
  unfolding seen
  sent_once l (inl same) changed fresh = absurd (changed same)
  sent_once l (inr (identity, known, more)) changed fresh = (
    ap total more
        ∙ omega (
          arith,
          total_sent-append w.sent (deposit_of b.collateral_token_cn identity tx.amount ∷ []),
        ),
    ap (λ (k : Ledger). seen k tx.tx_hash) more ∙ fresh,
  )

  -- The deposit is sent before its hash is finished: when a run for a new transfer fails with a
  -- changed ledger, and the transfer is handled again with success, the total grows by the amount
  -- twice.
  pub handle_eth_transaction-retry :
      (e : BridgeError) (faults : List Bool)
      → eqb tx.from 0 ≡ false
      → seen (ledger_of w) tx.tx_hash ≡ false
      → handle_eth_transaction b tx w ≡ (w1, err e)
      → ledger_of w1 ≢ ledger_of w
      → handle_eth_transaction b tx (record w1 { faults = faults }) ≡ (w2, ok tt)
      → total (ledger_of w2) ≡ total (ledger_of w) + 2 * tx.amount
  handle_eth_transaction-retry e faults not_mint fresh h changed k =
      let once =
        sent_once (ledger_of w1) (handle_eth_transaction-err b tx w w1 e h) changed fresh in
      ap total (handle_eth_transaction-ledger b tx (record w1 { faults = faults }) w2 tt k)
      ∙ ground (arith, total-deliver b.collateral_token_cn tx (ledger_of w1))
