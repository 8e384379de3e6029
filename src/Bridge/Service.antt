-- ===== src/Bridge/Service.antt =====
-- The tables of the bridge (server/src/services/bridge_service.rs).
use hyliquid.Prelude.{
  ℕ, ◌^◌, Bool, true, false, not, Option, none, some, List, [], ◌∷◌, ◌++◌, ok, err, map, ltb, eqb,
  if◌then◌else◌, lookup, insert, contains, retain, ◌==◌, nat_eq, string_eq, length, String, Result,
}
use hyliquid.Bridge.World.{
  Address, TxHash, TxStatus, EthTransaction, World, BridgeError, M, ◌>>=◌, ◌>>◌, pure, lift, call,
  execute, query, get,
}

unfoldable pub as_str : TxStatus → String
as_str TxStatus.pending = "pending"
as_str TxStatus.confirmed = "confirmed"

unfoldable pub try_from : String → Option TxStatus
try_from value =
    if value == "pending"
    then some TxStatus.pending
    else if value == "confirmed"
    then some TxStatus.confirmed
    else none

-- `i64::try_from` on a `u64`
unfoldable pub to_i64 : ℕ → Result BridgeError ℕ
to_i64 n = if ltb n (2 ^ 63) then ok n else err BridgeError.out_of_range

-- `GREATEST` in SQL
abbrev pub greatest : ℕ → ℕ → ℕ
greatest a b = if ltb a b then b else a

abbrev pub initialized : ℕ → Option ℕ → Option ℕ
initialized block none = some block
initialized block (some stored) = some (greatest stored block)

unfoldable pub ensure_initialized : ℕ → M (Unit {0})
ensure_initialized initial_block = do
  block ← lift (to_i64 initial_block)
  execute (λ w. record w { last_block = initialized block w.last_block })

abbrev pub block_or_zero : Option ℕ → ℕ
block_or_zero none = 0
block_or_zero (some block) = block

unfoldable pub eth_last_block : M ℕ
eth_last_block = query (λ w. block_or_zero w.last_block)

-- `UPDATE .. WHERE id = 0` changes no row where there is none, and says so.
abbrev pub updated : ℕ → Option ℕ → Option ℕ
updated block none = none
updated block (some stored) = some (greatest stored block)

abbrev pub any_row : Option ℕ → Bool
any_row none = false
any_row (some stored) = true

unfoldable pub record_eth_block : ℕ → M (Unit {0})
record_eth_block block_number = do
  block ← lift (to_i64 block_number)
  execute (λ w. record w { last_block = updated block w.last_block })
  w ← get
  if any_row w.last_block then pure tt else ensure_initialized block_number

abbrev pub hash_of : EthTransaction → TxHash
hash_of tx = tx.tx_hash

unfoldable pub is_eth_pending : TxHash → M Bool
is_eth_pending tx_hash = query (λ w. contains tx_hash (map hash_of w.pending_txs))

unfoldable pub is_eth_processed : TxHash → M Bool
is_eth_processed tx_hash = query (λ w. contains tx_hash w.processed_txs)

-- `a.await? || b.await?`: the second question is asked only after a "no".
unfoldable pub is_eth_tracked : TxHash → M Bool
is_eth_tracked tx_hash = do
  found ← is_eth_pending tx_hash
  if found then pure true else is_eth_processed tx_hash

-- `INSERT .. ON CONFLICT (tx_hash) DO NOTHING`
unfoldable pub insert_hash : TxHash → List TxHash → List TxHash
insert_hash tx_hash table = if contains tx_hash table then table else table ++ tx_hash ∷ []

unfoldable pub without_hash : TxHash → List EthTransaction → List EthTransaction
without_hash tx_hash table = retain (λ tx. not (eqb tx.tx_hash tx_hash)) table

abbrev pub processed : TxHash → World → World
processed tx_hash w = record w {
  pending_txs = without_hash tx_hash w.pending_txs;
  processed_txs = insert_hash tx_hash w.processed_txs;
}

-- The two writes are one transaction of the database, which a fault at any of its four calls
-- undoes.
unfoldable pub mark_eth_processed : TxHash → M (Unit {0})
mark_eth_processed tx_hash = do call; call; call; execute (processed tx_hash)

unfoldable pub record_eth_identity_binding : Address → String → M (Unit {0})
record_eth_identity_binding address user_identity =
    execute (λ w. record w { bindings = insert address user_identity w.bindings })

unfoldable pub hyli_identity_for_eth : Address → M (Option String)
hyli_identity_for_eth address = query (λ w. lookup address w.bindings)

unfoldable pub first_address : String → List (Address × String) → Option Address
first_address identity [] = none
first_address identity ((address, name) ∷ rest) =
    if name == identity then some address else first_address identity rest

unfoldable pub eth_address_for_hyli_identity : String → M (Option Address)
eth_address_for_hyli_identity identity = query (λ w. first_address identity w.bindings)

-- The row of a transaction, after the block number.
unfoldable pub insert_pending : EthTransaction → M Bool
insert_pending tx = do
  record_eth_block tx.block_number
  _ ← lift (to_i64 tx.block_number)
  _ ← lift (to_i64 tx.timestamp)
  execute (λ w. record w { pending_txs = w.pending_txs ++ tx ∷ [] })
  pure true

unfoldable pub add_eth_pending_transaction : EthTransaction → M Bool
unfolding insert_pending
add_eth_pending_transaction tx = do
  tracked ← is_eth_tracked tx.tx_hash
  if tracked then pure false else insert_pending tx

-- The query has no ORDER BY: the rows are taken in the order of their insertion.
unfoldable pub pending_of : Address → List EthTransaction → List EthTransaction
pending_of address table = retain (λ tx. eqb tx.from address) table

unfoldable pub pending_eth_transactions_for_address : Address → M (List EthTransaction)
pending_eth_transactions_for_address address = query (λ w. pending_of address w.pending_txs)

unfoldable pub pending_eth_tx_count : M ℕ
pending_eth_tx_count = query (λ w. length w.pending_txs)
