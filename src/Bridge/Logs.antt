-- ===== src/Bridge/Logs.antt =====
-- The logs of the token contract on Ethereum and how they are fetched (server/src/bridge/eth.rs
-- and server/src/bridge/utils.rs).
use hyliquid.Prelude.{
  ℕ, zero, suc, ◌+◌, ◌-◌, ◌*◌, ◌%◌, ◌^◌, min, Option, none, some, List, [], ◌∷◌, ◌++◌, ok, panic,
  Result, leb, ltb, if◌then◌else◌, get_or, Bytes, take, drop, length,
}
use hyliquid.Bridge.World.{
  Address, TxHash, TxStatus, EthTransaction, Transfer, BridgeError, M, ◌>>=◌, pure, lift, query,
}

-- The topics are the numbers of their 32 bytes.
pub record Log : Type 0 where
  pub topics : List ℕ
  pub payload : Bytes
  pub transaction_hash : Option TxHash
  pub block_number : Option ℕ

-- What a node of Ethereum answers: the number of its last block, the transfers of the token in a
-- range of blocks with the wanted sender and recipient, and the token balance of an address after
-- the transfers that the bridge has ordered.
pub record EthNode : Type 0 where
  pub latest_block : ℕ
  pub get_logs : (from_block to_block : ℕ) (topic1 topic2 : Option ℕ) → List Log
  pub token_balance : List Transfer → Address → ℕ

-- `topic[12..]`: the last 20 of the 32 bytes
abbrev pub address_of_topic : ℕ → Address
address_of_topic topic = topic % 2 ^ 160

-- The first bytes of a topic that is made of an address are zero.
unfoldable pub address_to_topic : Address → ℕ
address_to_topic address = address

-- `u64::from_be_bytes`, for bytes read so far
unfoldable pub from_be_bytes : ℕ → Bytes → ℕ
from_be_bytes high [] = high
from_be_bytes high (byte ∷ bytes) = from_be_bytes (high * 256 + byte) bytes

-- An index out of range panics.
unfoldable pub parse_log_data : Log → Result BridgeError (Address × Address × ℕ)
parse_log_data log = elim log.topics [
  | (topic0 ∷ topic1 ∷ topic2 ∷ rest) ↦
      if ltb (length log.payload) 32
      then panic
      else ok (
        address_of_topic topic1,
        address_of_topic topic2,
        from_be_bytes 0 (take 8 (drop 24 log.payload)),
      )
  | _ ↦ panic
]

unfoldable pub transaction_of : (now : ℕ) → Log → Address × Address × ℕ → EthTransaction
transaction_of now log parsed = record {
  tx_hash = get_or log.transaction_hash 0;
  block_number = get_or log.block_number 0;
  from = parsed.0;
  to = parsed.1;
  amount = parsed.2;
  timestamp = now;
  status = TxStatus.confirmed;
}

abbrev pub parsed_at :
    ℕ → Log → Result BridgeError (Address × Address × ℕ) → Result BridgeError EthTransaction
parsed_at now log (ok parsed) = ok (transaction_of now log parsed)
parsed_at now log (Result.err e) = Result.err e
parsed_at now log panic = panic

unfoldable pub log_to_eth_transaction : (now : ℕ) → Log → Result BridgeError EthTransaction
log_to_eth_transaction now log = parsed_at now log (parse_log_data log)

unfoldable pub latest_block_number : EthNode → M ℕ
latest_block_number node = query (λ _. node.latest_block)

abbrev pub range_batch_size : ℕ
range_batch_size = 1000

abbrev pub u64_max : ℕ
u64_max = 2 ^ 64 - 1

-- The sum is one of `u64`, which wraps in a release build.
abbrev pub batch_end : (current to_block : ℕ) → ℕ
batch_end current to_block = min ((current + range_batch_size - 1) % 2 ^ 64) to_block

abbrev pub saturating_suc : ℕ → ℕ
saturating_suc n = min (n + 1) u64_max

-- The loop over the batches; to run out of fuel is shown as a panic.
unfoldable pub fetch_batches :
    ℕ → EthNode → (current to_block : ℕ) (topic1 topic2 : Option ℕ) → M (List Log)
fetch_batches zero node current to_block topic1 topic2 = lift panic
fetch_batches (suc fuel) node current to_block topic1 topic2 =
    let rest =
      fetch_batches fuel node (saturating_suc (batch_end current to_block)) to_block topic1
        topic2 in
    if leb current to_block
    then (do
      batch ← query (λ _. node.get_logs current (batch_end current to_block) topic1 topic2)
      later ← rest
      pure (batch ++ later))
    else pure []

unfoldable pub fetch_transfers_with_topics :
    EthNode → (from_block to_block : ℕ) (topic1 topic2 : Option ℕ) → M (List Log)
fetch_transfers_with_topics node from_block to_block topic1 topic2 =
    if ltb to_block from_block
    then pure []
    else fetch_batches (to_block - from_block + 2) node from_block to_block topic1 topic2

unfoldable pub fetch_transfers_to_range :
    EthNode → Address → (from_block to_block : ℕ) → M (List Log)
fetch_transfers_to_range node target_address from_block to_block =
    fetch_transfers_with_topics node from_block to_block none
      (some (address_to_topic target_address))

unfoldable pub fetch_transfers_from_range :
    EthNode → Address → (from_block to_block : ℕ) → M (List Log)
fetch_transfers_from_range node source_address from_block to_block =
    fetch_transfers_with_topics node from_block to_block (some (address_to_topic source_address))
      none
