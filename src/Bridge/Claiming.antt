-- ===== src/Bridge/Claiming.antt =====
-- Claims against the ledger (server/src/bridge.rs, `claim`).
use hyliquid.Prelude.{
  false, List, [], ◌∷◌, ◌++◌, ◌≡◌, ◌≢◌, refl, ok, err, arith, lookup, insert, nat_eq, string_eq,
  String, Result, panic,
}
use mathlib.Core.List.{append_assoc, append-nil}
use hyliquid.Types.{ContractName}
use hyliquid.Server.Requests.{OrderbookRequest}
use hyliquid.Bridge.World.{
  Address, TxHash, BridgeError, EthTransaction, World, query, call, execute, continue,
}
use hyliquid.Bridge.Service.{
  without_hash, insert_hash, pending_of, mark_eth_processed, record_eth_identity_binding,
  hyli_identity_for_eth, pending_eth_transactions_for_address,
}
use hyliquid.Bridge.Parsers.{Parsers}
use hyliquid.Bridge.Signatures.{ClaimDepositRequest, claimed_address}
use hyliquid.Bridge.Deposits.{send, deposit_of}
use hyliquid.Bridge.Claims.{
  claim, claim_for, credit_tx, bind_address, credit_pending, try_u128, is_conflict,
}
use hyliquid.Bridge.Rules.{after}
use hyliquid.Bridge.Ledger.{ledger_of}

abbrev pub deposits_of : ContractName → String → List EthTransaction → List OrderbookRequest
deposits_of token identity [] = []
deposits_of token identity (tx ∷ txs) =
    deposit_of token identity tx.amount ∷ deposits_of token identity txs

abbrev pub insert_hashes : List EthTransaction → List TxHash → List TxHash
insert_hashes [] table = table
insert_hashes (tx ∷ txs) table = insert_hashes txs (insert_hash tx.tx_hash table)

abbrev pub without_hashes : List EthTransaction → List EthTransaction → List EthTransaction
without_hashes [] table = table
without_hashes (tx ∷ txs) table = without_hashes txs (without_hash tx.tx_hash table)

module _ (token : ContractName) (identity : String) where
  credit_tx-ledger :
      (tx : EthTransaction) (w w' : World) (u : Unit {0})
      → credit_tx token identity tx w ≡ (w', ok u)
      → ledger_of w' ≡ record (ledger_of w) {
        credits = w.sent ++ deposit_of token identity tx.amount ∷ [];
        waiting = without_hash tx.tx_hash w.pending_txs;
        finished = insert_hash tx.tx_hash w.processed_txs;
      }
  unfolding credit_tx try_u128 send mark_eth_processed execute call
  credit_tx-ledger tx w w' u h = ground arith

  pub credit_pending-ledger :
      (txs : List EthTransaction) (w w' : World)
      → credit_pending token identity txs w ≡ (w', ok tt)
      → ledger_of w' ≡ record (ledger_of w) {
        credits = w.sent ++ deposits_of token identity txs;
        waiting = without_hashes txs w.pending_txs;
        finished = insert_hashes txs w.processed_txs;
      }
  unfolding credit_pending
  credit_pending-ledger [] w w' h = ground (arith, append-nil w.sent)
  credit_pending-ledger (tx ∷ txs) w w' h =
      after (credit_tx token identity tx w) (λ _. credit_pending token identity txs) h
        λ w1 u e k. ground (
          arith,
          credit_tx-ledger tx w w1 u e,
          credit_pending-ledger txs w1 w' k,
          append_assoc w.sent (deposit_of token identity tx.amount ∷ [])
              (deposits_of token identity txs),
        )

pub bind_address-ledger :
    (identity : String) (a : Address) (w w' : World) (txs : List EthTransaction)
    → bind_address identity a w ≡ (w', ok txs)
    → (txs ≡ pending_of a w.pending_txs)
      × (is_conflict (lookup a w.bindings) identity ≡ false)
      × (ledger_of w' ≡ record (ledger_of w) { known = insert a identity w.bindings })
unfolding bind_address hyli_identity_for_eth pending_eth_transactions_for_address
    record_eth_identity_binding query execute call
bind_address-ledger identity a w w' txs h = (ground arith, ground arith, ground arith)

-- The conditions under which a run fails, and what it leaves then.
module _ (token : ContractName) (identity : String) where
  credit_tx-err :
      (tx : EthTransaction) (w w' : World) (e : BridgeError)
      → credit_tx token identity tx w ≡ (w', err e)
      → e ≡ BridgeError.internal_server_error
  unfolding credit_tx try_u128 send mark_eth_processed execute call
  credit_tx-err tx w w' e h = ground arith

  credit_pending-err :
      (txs : List EthTransaction) (w w' : World) (e : BridgeError)
      → credit_pending token identity txs w ≡ (w', err e)
      → e ≡ BridgeError.internal_server_error
  unfolding credit_pending
  credit_pending-err [] w w' e h = cc
  credit_pending-err (tx ∷ txs) w w' e h =
      first (credit_pending-err txs) (credit_tx token identity tx w) refl h
    where
      first :
          ((v v' : World) (f : BridgeError)
            → credit_pending token identity txs v ≡ (v', err f)
            → f ≡ BridgeError.internal_server_error)
          → (o : World × Result BridgeError (Unit {0})) → credit_tx token identity tx w ≡ o
          → continue (λ _. credit_pending token identity txs) o ≡ (w', err e)
          → e ≡ BridgeError.internal_server_error
      first later (w1, ok u) p q = later w1 w' e q
      first later (w1, err f) p q = ground (arith, credit_tx-err tx w w1 f p)
      first later (w1, panic) p q = cc

  bind_address-err :
      (a : Address) (w w' : World) (e : BridgeError)
      → bind_address identity a w ≡ (w', err e)
      → ledger_of w' ≡ ledger_of w
  unfolding bind_address hyli_identity_for_eth pending_eth_transactions_for_address
      record_eth_identity_binding query execute call
  bind_address-err a w w' e h = ground arith

  claim_for-err :
      (a : Address) (w w' : World) (e : BridgeError)
      → claim_for token identity a w ≡ (w', err e)
      → e ≢ BridgeError.internal_server_error
      → ledger_of w' ≡ ledger_of w
  unfolding claim_for
  claim_for-err a w w' e h refused = bound (bind_address identity a w) refl h
    where
      bound :
          (o : World × Result BridgeError (List EthTransaction))
          → bind_address identity a w ≡ o
          → continue (credit_pending token identity) o ≡ (w', err e)
          → ledger_of w' ≡ ledger_of w
      bound (w1, ok txs) p q = absurd (refused (credit_pending-err txs w1 w' e q))
      bound (w1, err f) p q = ground (arith, bind_address-err a w w1 f p)
      bound (w1, panic) p q = cc

-- A claim that ends in an error other than an internal one, such as that of a malformed request, a
-- signature of another address or an address of another identity, leaves the ledger as it was.
pub claim-refused :
    (x : Parsers) (token : ContractName) (r : ClaimDepositRequest) (w w' : World) (e : BridgeError)
    → claim x token r w ≡ (w', err e)
    → e ≢ BridgeError.internal_server_error
    → ledger_of w' ≡ ledger_of w
unfolding claim
claim-refused x token r w w' e h refused = proved (claimed_address x r) refl h
  where
    proved :
        (o : Result BridgeError Address)
        → claimed_address x r ≡ o
        → continue (claim_for token r.user_identity) (w, o) ≡ (w', err e)
        → ledger_of w' ≡ ledger_of w
    proved (ok a) p q = claim_for-err token r.user_identity a w w' e q refused
    proved (err f) p q = cc
    proved panic p q = cc
