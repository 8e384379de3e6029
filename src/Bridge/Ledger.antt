-- ===== src/Bridge/Ledger.antt =====
-- What the bridge promises, without the database: deposits that are credited, deposits that wait
-- for a claim, hashes that are done with, and the identities that are known of addresses.
use hyliquid.Prelude.{
  ℕ, ◌+◌, Bool, ◌||◌, Option, none, some, List, [], ◌∷◌, ◌++◌, map, eqb, if◌then◌else◌, lookup,
  contains, nat_eq, String,
}
use hyliquid.Types.{ContractName}
use hyliquid.Server.Requests.{OrderbookRequest}
use hyliquid.Bridge.World.{Address, TxHash, EthTransaction, World}
use hyliquid.Bridge.Service.{hash_of}
use hyliquid.Bridge.Deposits.{deposit_of}

pub record Ledger : Type 0 where
  pub credits : List OrderbookRequest
  pub waiting : List EthTransaction
  pub finished : List TxHash
  pub known : List (Address × String)

abbrev pub ledger_of : World → Ledger
ledger_of w = record {
  credits = w.sent;
  waiting = w.pending_txs;
  finished = w.processed_txs;
  known = w.bindings;
}

unfoldable pub seen : Ledger → TxHash → Bool
seen l h = contains h (map hash_of l.waiting) || contains h l.finished

abbrev pub credited : ContractName → EthTransaction → Option String → Ledger → Ledger
credited token tx none l = record l { waiting = l.waiting ++ tx ∷ [] }
credited token tx (some identity) l = record l {
  credits = l.credits ++ deposit_of token identity tx.amount ∷ [];
  finished = l.finished ++ tx.tx_hash ∷ [];
}

-- A transfer to the vault: nothing for a mint or for a hash that was seen, otherwise a credit of
-- the identity that is known, or a deposit that waits.
unfoldable pub deliver : ContractName → EthTransaction → Ledger → Ledger
deliver token tx l =
    if eqb tx.from 0 || seen l tx.tx_hash then l else credited token tx (lookup tx.from l.known) l

unfoldable pub deliver_all : ContractName → List EthTransaction → Ledger → Ledger
deliver_all token [] l = l
deliver_all token (tx ∷ txs) l = deliver_all token txs (deliver token tx l)

-- What the credits and the waiting deposits come to.
abbrev pub amount_of : OrderbookRequest → ℕ
amount_of (OrderbookRequest.pending_deposit deposit) = deposit.amount
amount_of (OrderbookRequest.pending_withdraw withdraw) = 0

abbrev pub total_sent : List OrderbookRequest → ℕ
total_sent [] = 0
total_sent (request ∷ requests) = amount_of request + total_sent requests

abbrev pub total_waiting : List EthTransaction → ℕ
total_waiting [] = 0
total_waiting (tx ∷ txs) = tx.amount + total_waiting txs

abbrev pub total : Ledger → ℕ
total l = total_sent l.credits + total_waiting l.waiting
