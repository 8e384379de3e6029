-- ===== src/Bridge/Delivery.antt =====
-- One log of a transfer to the vault against the ledger (server/src/bridge.rs,
-- `handle_eth_to_vault_log`).
use hyliquid.Prelude.{
  ℕ, Bool, false, List, [], ◌∷◌, ◌++◌, ◌≡◌, refl, ok, map, arith, if◌then◌else◌, contains, retain,
  nat_eq, true, Option, none, some, Bool-cases, inl, inr, eqb, lookup, ◌∙◌, String, sym, ap,
}
use hyliquid.Bridge.World.{
  Address, EthTransaction, TxHash, World, ◌>>=◌, pure, lift, query, call, execute,
}
use hyliquid.Server.Requests.{OrderbookRequest}
use hyliquid.Bridge.Rules.{after}
use hyliquid.Bridge.Service.{
  hash_of, is_eth_pending, is_eth_processed, is_eth_tracked, mark_eth_processed, without_hash,
  insert_hash, record_eth_block, ensure_initialized, add_eth_pending_transaction,
  hyli_identity_for_eth, to_i64,
}
use hyliquid.Bridge.Deposits.{
  BridgeModule, send, expect_u128, credit_or_wait, handle_untracked, handle_eth_transaction,
  deposit_of,
}
use hyliquid.Bridge.Ledger.{Ledger, ledger_of, seen, deliver, credited}

-- To ask whether a hash is tracked changes nothing but the faults to come, and answers by the ledger.
pub is_eth_tracked-eq-seen :
    (h : TxHash) (w w' : World) (found : Bool)
    → is_eth_tracked h w ≡ (w', ok found)
    → (ledger_of w' ≡ ledger_of w) × (found ≡ seen (ledger_of w) h)
unfolding is_eth_tracked is_eth_pending is_eth_processed seen query call
is_eth_tracked-eq-seen h w w' found e = ground arith

mark_eth_processed-ledger :
    (h : TxHash) (w w' : World) (u : Unit {0})
    → mark_eth_processed h w ≡ (w', ok u)
    → ledger_of w' ≡ record (ledger_of w) {
      waiting = without_hash h w.pending_txs;
      finished = insert_hash h w.processed_txs;
    }
unfolding mark_eth_processed execute call
mark_eth_processed-ledger h w w' u e = ground arith

record_eth_block-ledger :
    (n : ℕ) (w w' : World) (u : Unit {0})
    → record_eth_block n w ≡ (w', ok u)
    → ledger_of w' ≡ ledger_of w
unfolding record_eth_block ensure_initialized execute call to_i64
record_eth_block-ledger n w w' u e = ground arith

add_eth_pending_transaction-ledger :
    (tx : EthTransaction) (w w' : World) (added : Bool)
    → add_eth_pending_transaction tx w ≡ (w', ok added)
    → ledger_of w' ≡ (
        if seen (ledger_of w) tx.tx_hash
        then ledger_of w
        else record (ledger_of w) { waiting = w.pending_txs ++ tx ∷ [] })
unfolding add_eth_pending_transaction execute call query is_eth_tracked is_eth_pending
    is_eth_processed record_eth_block ensure_initialized to_i64 seen
add_eth_pending_transaction-ledger tx w w' added e = ground arith

pub without_hash_absent :
    (h : TxHash) (txs : List EthTransaction)
    → contains h (map hash_of txs) ≡ false
    → without_hash h txs ≡ txs
unfolding without_hash retain contains
without_hash_absent h [] e = refl
without_hash_absent h (tx ∷ txs) e = ground (arith, without_hash_absent h txs)

identity-ledger :
    (a : Address) (w w' : World) (identity : Option String)
    → hyli_identity_for_eth a w ≡ (w', ok identity)
    → (ledger_of w' ≡ ledger_of w) × (identity ≡ lookup a (ledger_of w).known)
unfolding hyli_identity_for_eth query call
identity-ledger a w w' identity e = ground arith

waiting-ledger :
    (tx : EthTransaction) (w w' : World) (added : Bool)
    → seen (ledger_of w) tx.tx_hash ≡ false
    → add_eth_pending_transaction tx w ≡ (w', ok added)
    → ledger_of w' ≡ record (ledger_of w) { waiting = w.pending_txs ++ tx ∷ [] }
waiting-ledger tx w w' added fresh e =
    add_eth_pending_transaction-ledger tx w w' added e ∙ rw fresh refl

-- A hash that was not seen is finished with nothing that waited for it.
finished-ledger :
    (h : TxHash) (w w' : World) (u : Unit {0})
    → seen (ledger_of w) h ≡ false
    → mark_eth_processed h w ≡ (w', ok u)
    → ledger_of w' ≡ record (ledger_of w) { finished = w.processed_txs ++ h ∷ [] }
unfolding seen insert_hash
finished-ledger h w w' u fresh e =
    ground (arith, mark_eth_processed-ledger h w w' u e, without_hash_absent h w.pending_txs)

seen-sent :
    (l : Ledger) (credits : List OrderbookRequest) (h : TxHash)
    → seen (record l { credits = credits }) h ≡ seen l h
unfolding seen
seen-sent l credits h = refl

sent-ledger :
    (r : OrderbookRequest) (w w' : World) (u : Unit {0})
    → send r w ≡ (w', ok u)
    → ledger_of w' ≡ record (ledger_of w) { credits = w.sent ++ r ∷ [] }
unfolding send execute call
sent-ledger r w w' u e = ground arith

-- A deposit is sent and its hash is finished with.
sent_and_finished-ledger :
    (r : OrderbookRequest) (h : TxHash) (w w1 w' : World) (u v : Unit {0})
    → seen (ledger_of w) h ≡ false
    → send r w ≡ (w1, ok u)
    → mark_eth_processed h w1 ≡ (w', ok v)
    → ledger_of w'
      ≡ record (ledger_of w) { credits = w.sent ++ r ∷ []; finished = w.processed_txs ++ h ∷ [] }
sent_and_finished-ledger r h w w1 w' u v fresh e e' =
    let sends = sent-ledger r w w1 u e in
    let still : seen (ledger_of w1) h ≡ false =
      rw (sends, seen-sent (ledger_of w) (w.sent ++ r ∷ []) h) fresh in
    finished-ledger h w1 w' v still e'
    ∙ ap {A = Ledger} (λ l. record l { finished = l.finished ++ h ∷ [] }) sends

amount-ledger :
    (amount : ℕ) (w w' : World) (n : ℕ)
    → lift (expect_u128 amount) w ≡ (w', ok n)
    → (w' ≡ w) × (n ≡ amount)
unfolding expect_u128
amount-ledger amount w w' n e = ground arith

credit_or_wait-ledger :
    (b : BridgeModule) (tx : EthTransaction) (identity : Option String) (w w' : World)
    → (u : Unit {0}) → seen (ledger_of w) tx.tx_hash ≡ false
    → credit_or_wait b tx identity w ≡ (w', ok u)
    → ledger_of w' ≡ credited b.collateral_token_cn tx identity (ledger_of w)
unfolding credit_or_wait
credit_or_wait-ledger b tx none w w' u fresh e =
    after (add_eth_pending_transaction tx w) (λ _. pure tt) e
      λ w1 added a h. let waits = waiting-ledger tx w w1 added fresh a in cc
credit_or_wait-ledger b tx (some identity) w w' u fresh e =
    after (lift (expect_u128 tx.amount) w) _ e λ w1 amount a h.
      let (same, whole) = amount-ledger tx.amount w w1 amount a in
      let r = deposit_of b.collateral_token_cn identity in
      after (send (r amount) w1) (λ _. mark_eth_processed tx.tx_hash) h
        λ w2 u2 a2 h2.
          sent_and_finished-ledger (r amount) tx.tx_hash w w2 w' u2 u fresh (rw same at a2) h2
          ∙ rw whole refl

untracked-ledger :
    (b : BridgeModule) (tx : EthTransaction) (w w' : World) (u : Unit {0})
    → seen (ledger_of w) tx.tx_hash ≡ false
    → handle_untracked b tx w ≡ (w', ok u)
    → ledger_of w' ≡ credited b.collateral_token_cn tx (lookup tx.from w.bindings) (ledger_of w)
unfolding handle_untracked
untracked-ledger b tx w w' u fresh e =
    after (hyli_identity_for_eth tx.from w) (credit_or_wait b tx) e λ w1 identity a h.
      let (same, answer) = identity-ledger tx.from w w1 identity a in
      credit_or_wait-ledger b tx identity w1 w' u (rw same fresh) h
      ∙ ap (credited b.collateral_token_cn tx identity) same
      ∙ rw answer refl

-- The ledger after a transfer of which it is known whether its hash was seen.
abbrev handled : BridgeModule → EthTransaction → Ledger → (found : Bool) → Ledger
handled b tx l found =
    if found then l else credited b.collateral_token_cn tx (lookup tx.from l.known) l

tracked-ledger :
    (b : BridgeModule) (tx : EthTransaction) (found : Bool) (w w' : World) (u : Unit {0})
    → found ≡ seen (ledger_of w) tx.tx_hash
    → (if found then pure tt else handle_untracked b tx) w ≡ (w', ok u)
    → ledger_of w' ≡ handled b tx (ledger_of w) found
tracked-ledger b tx true w w' u answer e = cc
tracked-ledger b tx false w w' u answer e = untracked-ledger b tx w w' u (sym answer) e

checked-ledger :
    (b : BridgeModule) (tx : EthTransaction) (w w' : World) (u : Unit {0})
    → (is_eth_tracked tx.tx_hash >>= λ found. if found then pure tt else handle_untracked b tx) w
      ≡ (w', ok u)
    → ledger_of w' ≡ handled b tx (ledger_of w) (seen (ledger_of w) tx.tx_hash)
checked-ledger b tx w w' u e =
    after (is_eth_tracked tx.tx_hash w) (λ found. if found then pure tt else handle_untracked b tx)
      e
      λ w1 found a h.
        let (same, answer) = is_eth_tracked-eq-seen tx.tx_hash w w1 found a in
        tracked-ledger b tx found w1 w' u (answer ∙ ap (λ l. seen l tx.tx_hash) (sym same)) h
        ∙ ap (λ l. handled b tx l found) same
        ∙ ap (handled b tx (ledger_of w)) answer

-- When a transfer to the vault is handled with success, whatever faults are to come, the tables are
-- those that `deliver` makes of the ledger before.
pub handle_eth_transaction-ledger :
    (b : BridgeModule) (tx : EthTransaction) (w w' : World) (u : Unit {0})
    → handle_eth_transaction b tx w ≡ (w', ok u)
    → ledger_of w' ≡ deliver b.collateral_token_cn tx (ledger_of w)
unfolding handle_eth_transaction handle_untracked deliver
handle_eth_transaction-ledger b tx w w' u e = elim (Bool-cases (eqb tx.from 0)) [
  | inl mint ↦ let left = rw mint at e in rw mint cc
  | inr real ↦ rw real (checked-ledger b tx w w' u (rw real at e))
]
