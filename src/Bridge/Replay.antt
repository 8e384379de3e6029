-- ===== src/Bridge/Replay.antt =====
-- Deliveries that come again (server/src/bridge.rs, `handle_eth_to_vault_log`): a node repeats the
-- logs of a block, and a transaction of Ethereum can hold several transfers.
use hyliquid.Prelude.{
  ℕ, ◌+◌, Bool, true, false, ◌||◌, Option, none, some, List, [], ◌∷◌, ◌++◌, ◌≡◌, refl, ap, ◌∙◌, ok,
  map, eqb, arith, if◌then◌else◌, lookup, contains, nat_eq, String, Bool-cases, inl, inr, eqb_iff,
}
use hyliquid.Types.{ContractName}
use hyliquid.Server.Requests.{OrderbookRequest}
use hyliquid.Bridge.World.{EthTransaction, TxHash, World}
use hyliquid.Bridge.Service.{hash_of}
use hyliquid.Bridge.Deposits.{deposit_of, BridgeModule, handle_eth_transaction}
use hyliquid.Bridge.Ledger.{
  Ledger, ledger_of, seen, credited, deliver, deliver_all, total, total_sent, total_waiting,
}
use hyliquid.Bridge.Delivery.{handle_eth_transaction-ledger}

pub contains-append :
    (h : ℕ) (xs ys : List ℕ) → contains h (xs ++ ys) ≡ (contains h xs || contains h ys)
unfolding contains
contains-append h [] ys = refl
contains-append h (x ∷ xs) ys = ground (arith, contains-append h xs ys)

pub contains-hash-append :
    (h : TxHash) (txs : List EthTransaction) (tx : EthTransaction)
    → contains h (map hash_of (txs ++ tx ∷ [])) ≡ (contains h (map hash_of txs) || eqb tx.tx_hash h)
unfolding contains
contains-hash-append h [] tx = ground arith
contains-hash-append h (t ∷ txs) tx = ground (arith, contains-hash-append h txs tx)

-- A delivery makes its own hash known and no other.
pub seen-deliver :
    (token : ContractName) (tx : EthTransaction) (l : Ledger) (h : TxHash)
    → seen (deliver token tx l) h
      ≡ (seen l h || (if eqb tx.from 0 then false else eqb tx.tx_hash h))
unfolding seen deliver contains
seen-deliver token tx l h =
    ground
      (arith, contains-hash-append h l.waiting tx, contains-append h l.finished (tx.tx_hash ∷ []))

pub deliver-seen :
    (token : ContractName) (tx : EthTransaction) (l : Ledger)
    → seen l tx.tx_hash ≡ true
    → deliver token tx l ≡ l
unfolding deliver
deliver-seen token tx l e = ground arith

pub total_sent-append :
    (xs ys : List OrderbookRequest) → total_sent (xs ++ ys) ≡ total_sent xs + total_sent ys
total_sent-append [] ys = omega arith
total_sent-append (x ∷ xs) ys = omega (arith, total_sent-append xs ys)

total_waiting-append :
    (xs ys : List EthTransaction) → total_waiting (xs ++ ys) ≡ total_waiting xs + total_waiting ys
total_waiting-append [] ys = omega arith
total_waiting-append (x ∷ xs) ys = omega (arith, total_waiting-append xs ys)

total-credited :
    (token : ContractName) (tx : EthTransaction) (l : Ledger) (identity : Option String)
    → total (credited token tx identity l) ≡ total l + tx.amount
total-credited token tx l none = omega (arith, total_waiting-append l.waiting (tx ∷ []))
total-credited token tx l (some identity) =
    omega (arith, total_sent-append l.credits (deposit_of token identity tx.amount ∷ []))

pub total-deliver :
    (token : ContractName) (tx : EthTransaction) (l : Ledger)
    → total (deliver token tx l)
      ≡ total l + (if eqb tx.from 0 || seen l tx.tx_hash then 0 else tx.amount)
unfolding deliver
total-deliver token tx l = elim (Bool-cases (eqb tx.from 0 || seen l tx.tx_hash)) [
  | inl known ↦ rw (deliver, known) (omega arith)
  | inr fresh ↦ rw (deliver, fresh) (total-credited token tx l (lookup tx.from l.known))
]

-- Nothing is left to do for transactions that mint or that were all seen.
abbrev pub AllSeen : Ledger → List EthTransaction → Type 0
AllSeen l [] = Unit {0}
AllSeen l (tx ∷ txs) = ((eqb tx.from 0 || seen l tx.tx_hash) ≡ true) × AllSeen l txs

pub deliver_all-AllSeen :
    (token : ContractName) (txs : List EthTransaction) (l : Ledger)
    → AllSeen l txs
    → deliver_all token txs l ≡ l
unfolding deliver_all deliver
deliver_all-AllSeen token [] l h = refl
deliver_all-AllSeen token (tx ∷ txs) l h = rw h.0 (deliver_all-AllSeen token txs l h.1)

seen-deliver_all :
    (token : ContractName) (txs : List EthTransaction) (l : Ledger) (h : TxHash)
    → seen l h ≡ true
    → seen (deliver_all token txs l) h ≡ true
unfolding deliver_all
seen-deliver_all token [] l h e = e
seen-deliver_all token (tx ∷ txs) l h e =
    seen-deliver_all token txs (deliver token tx l) h (ground (arith, seen-deliver token tx l h))

-- After a batch every transaction in it was seen.
pub AllSeen-deliver_all :
    (token : ContractName) (txs : List EthTransaction) (l : Ledger)
    → AllSeen (deliver_all token txs l) txs
unfolding deliver_all
AllSeen-deliver_all token [] l = tt
AllSeen-deliver_all token (tx ∷ txs) l = (
  ground (
    arith,
    seen-deliver token tx l tx.tx_hash,
    eqb_iff tx.tx_hash tx.tx_hash,
    seen-deliver_all token txs (deliver token tx l) tx.tx_hash,
  ),
  AllSeen-deliver_all token txs (deliver token tx l),
)

module _ (b : BridgeModule) where
  -- A transaction counts by its hash alone: after a transfer that is no mint was handled, another
  -- with the same hash that is handled with success, whatever its sender, its amount and the faults
  -- to come, leaves the ledger as it is, and the total has grown by the first amount, or not at all
  -- if the hash was seen before.
  pub handle_eth_transaction-same_hash :
      (first second : EthTransaction) (w w1 w2 : World) (faults : List Bool)
      → eqb first.from 0 ≡ false
      → second.tx_hash ≡ first.tx_hash
      → handle_eth_transaction b first w ≡ (w1, ok tt)
      → handle_eth_transaction b second (record w1 { faults = faults }) ≡ (w2, ok tt)
      → (ledger_of w2 ≡ ledger_of w1)
        × (total (ledger_of w2)
            ≡ total (ledger_of w) + (if seen (ledger_of w) first.tx_hash then 0 else first.amount))
  handle_eth_transaction-same_hash first second w w1 w2 faults not_mint same h k =
      let one = handle_eth_transaction-ledger b first w w1 tt h in
      let two = handle_eth_transaction-ledger b second (record w1 { faults = faults }) w2 tt k in
      let known : seen (ledger_of w1) second.tx_hash ≡ true =
        rw (one, same)
          (ground (
            arith,
            seen-deliver b.collateral_token_cn first (ledger_of w) first.tx_hash,
            eqb_iff first.tx_hash first.tx_hash,
          )) in
      let same_ledger : ledger_of w2 ≡ ledger_of w1 =
        two ∙ deliver-seen b.collateral_token_cn second (ledger_of w1) known in
      (
        same_ledger,
        ap total (same_ledger ∙ one)
            ∙ ground (arith, total-deliver b.collateral_token_cn first (ledger_of w)),
      )
