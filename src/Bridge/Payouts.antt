-- ===== src/Bridge/Payouts.antt =====
-- A settled transaction from end to end (server/src/bridge.rs, `handle_settled_tx`).
use hyliquid.Prelude.{
  Option, none, some, List, [], ◌∷◌, ◌++◌, ◌≡◌, refl, ◌∙◌, ap, ok, ltb, if◌then◌else◌, arith,
}
use mathlib.Core.List.{append_assoc, append-nil}
use hyliquid.Actions.{Blob}
use hyliquid.Server.Requests.{PendingDeposit, PendingWithdraw, OrderbookRequest}
use hyliquid.Server.Assets.{AssetService}
use hyliquid.Bridge.World.{Address, Transfer, World, query, call, execute}
use hyliquid.Bridge.Parsers.{Parsers}
use hyliquid.Bridge.Logs.{EthNode}
use hyliquid.Bridge.Deposits.{BridgeModule, send}
use hyliquid.Bridge.Withdrawals.{
  send_deposits, handle_withdraw, handle_withdraws, handle_eth_withdraw, handle_settled_tx,
  is_ethereum, extract_relevant_transfers, extract_relevant_withdraws,
}
use hyliquid.Bridge.Fetching.{faultless}

module _ (x : Parsers) (b : BridgeModule) (node : EthNode) where
  -- The transfer that a withdrawal on Ethereum makes, if its address can be read and the vault
  -- holds the amount after the transfers before it.
  abbrev pub paid : PendingWithdraw → List Transfer → Option Address → List Transfer
  paid withdraw transfers none = transfers
  paid withdraw transfers (some to) =
      if ltb (node.token_balance transfers b.eth_contract_vault_address) withdraw.amount
      then transfers
      else transfers ++ (record { to = to; amount = withdraw.amount }) ∷ []

  -- The transfers after a list of withdrawals.
  abbrev pub payouts : List PendingWithdraw → List Transfer → List Transfer
  payouts [] transfers = transfers
  payouts (withdraw ∷ later) transfers = payouts later (
      if is_ethereum withdraw
      then paid withdraw transfers (x.parse_address withdraw.destination.address)
      else transfers)

  -- What goes back to the order book: the withdrawals on Hyli.
  abbrev pub forwarded : List PendingWithdraw → List OrderbookRequest
  forwarded [] = []
  forwarded (withdraw ∷ later) =
      if is_ethereum withdraw
      then forwarded later
      else OrderbookRequest.pending_withdraw withdraw ∷ forwarded later

  withdraw_faultless :
      (withdraw : PendingWithdraw) (w : World)
      → handle_withdraw x b node withdraw (faultless w) ≡ (
        record (faultless w) {
          sent =
              if is_ethereum withdraw
              then w.sent
              else w.sent ++ OrderbookRequest.pending_withdraw withdraw ∷ [];
          transfers =
              if is_ethereum withdraw
              then paid withdraw w.transfers (x.parse_address withdraw.destination.address)
              else w.transfers;
        },
        ok tt,
      )
  unfolding handle_withdraw handle_eth_withdraw send query execute call
  withdraw_faultless withdraw w = ground arith

abbrev pub requests_of : List PendingDeposit → List OrderbookRequest
requests_of [] = []
requests_of (deposit ∷ later) = OrderbookRequest.pending_deposit deposit ∷ requests_of later

deposits_faultless :
    (deposits : List PendingDeposit) (w : World)
    → send_deposits deposits (faultless w)
      ≡ (record (faultless w) { sent = w.sent ++ requests_of deposits }, ok tt)
unfolding send_deposits send execute call
deposits_faultless [] w = rw append-nil refl
deposits_faultless (deposit ∷ later) w =
    deposits_faultless later
      (record w { sent = w.sent ++ OrderbookRequest.pending_deposit deposit ∷ [] })
    ∙ rw append_assoc refl

module _ (x : Parsers) (b : BridgeModule) (node : EthNode) where
  push_forwarded :
      (withdraw : PendingWithdraw) (later : List PendingWithdraw) (sent : List OrderbookRequest)
      → (if is_ethereum withdraw
            then sent
            else sent ++ OrderbookRequest.pending_withdraw withdraw ∷ [])
          ++ forwarded x b node later
        ≡ sent ++ forwarded x b node (withdraw ∷ later)
  push_forwarded withdraw later sent = ground (
    arith,
    append_assoc sent (OrderbookRequest.pending_withdraw withdraw ∷ []) (forwarded x b node later),
  )

  withdraws_faultless :
      (withdraws : List PendingWithdraw) (w : World)
      → handle_withdraws x b node withdraws (faultless w) ≡ (
        record (faultless w) {
          sent = w.sent ++ forwarded x b node withdraws;
          transfers = payouts x b node withdraws w.transfers;
        },
        ok tt,
      )
  unfolding handle_withdraws
  withdraws_faultless [] w = rw append-nil refl
  withdraws_faultless (withdraw ∷ later) w =
      let w1 = record w {
        sent =
            if is_ethereum withdraw
            then w.sent
            else w.sent ++ OrderbookRequest.pending_withdraw withdraw ∷ [];
        transfers =
            if is_ethereum withdraw
            then paid x b node withdraw w.transfers (x.parse_address withdraw.destination.address)
            else w.transfers;
      } in
      rw (withdraw_faultless x b node withdraw w) (
        withdraws_faultless later w1
        ∙ ap
            (λ (sent : List OrderbookRequest). (
              record (faultless w) {
                sent = sent;
                transfers = payouts x b node (withdraw ∷ later) w.transfers;
              },
              ok tt,
            ))
            (push_forwarded withdraw later w.sent))

  -- When no call fails, a settled transaction ends well: it sends the deposits of its blobs and then
  -- the withdrawals that are not on Ethereum, in order, and orders the transfers of `payouts` for
  -- those that are.
  pub handle_settled_tx-faultless :
      (assets : AssetService) (blobs : List Blob) (w : World)
      → handle_settled_tx x b node assets blobs (faultless w) ≡ (
        record (faultless w) {
          sent =
              w.sent
              ++ requests_of (extract_relevant_transfers x blobs)
              ++ forwarded x b node (extract_relevant_withdraws x assets b.orderbook_cn blobs);
          transfers =
              payouts x b node
                (extract_relevant_withdraws x assets b.orderbook_cn blobs)
                w.transfers;
        },
        ok tt,
      )
  unfolding handle_settled_tx
  handle_settled_tx-faultless assets blobs w =
      let deposits = extract_relevant_transfers x blobs in
      let withdraws = extract_relevant_withdraws x assets b.orderbook_cn blobs in
      rw (deposits_faultless deposits w) (
        withdraws_faultless withdraws (record w { sent = w.sent ++ requests_of deposits })
        ∙ rw append_assoc refl)
