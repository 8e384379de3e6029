-- ===== src/Tests/Bridge.antt =====
-- The laws of the bridge at small inputs: an address that is bound, a transfer of it to the vault,
-- and a node with one log.
use hyliquid.Prelude.{
  ℕ, ◌+◌, ◌*◌, ◌≡◌, ◌≢◌, refl, Bool, true, false, none, some, List, [], ◌∷◌, ok, err, panic,
  if◌then◌else◌, leb, ◌&&◌, arith, lookup, contains, retain,
}
use hyliquid.Bridge.World.{TxStatus, EthTransaction, World, BridgeError}
use hyliquid.Bridge.Logs.{Log, EthNode, fetch_transfers_with_topics}
use hyliquid.Bridge.World.{execute, call, query}
use hyliquid.Bridge.Logs.{log_to_eth_transaction, transaction_of, parse_log_data, from_be_bytes}
use hyliquid.Bridge.Service.{
  add_eth_pending_transaction, insert_pending, is_eth_tracked, is_eth_pending, is_eth_processed,
  record_eth_block, ensure_initialized, to_i64, mark_eth_processed, hyli_identity_for_eth,
  insert_hash, without_hash,
}
use hyliquid.Bridge.Deposits.{
  handle_untracked, credit_or_wait, send, expect_u128, BridgeModule, handle_eth_transaction,
  handle_eth_to_vault_log, handle_logs, catch_up_eth, chunk_starts,
}
use hyliquid.Bridge.Ledger.{ledger_of, deliver, total, seen}
use hyliquid.Bridge.Delivery.{handle_eth_transaction-ledger}
use hyliquid.Bridge.Replay.{handle_eth_transaction-same_hash}
use hyliquid.Bridge.Books.{IsConsistent, handle_eth_transaction-IsConsistent}
use hyliquid.Bridge.Retry.{handle_eth_transaction-retry}
use hyliquid.Bridge.CatchUp.{
  chunks_with, chunks_with-chunk_starts, handle_logs-again, catch_up_eth-lost_range,
}
use hyliquid.Bridge.Fetching.{IsAdditive, faultless, fetch_transfers_with_topics-get_logs}
use hyliquid.Bridge.Amounts.{handle_eth_to_vault_log-ne-panic}

abbrev pub bridge : BridgeModule
bridge = record {
  collateral_token_cn = "usdc";
  eth_contract_vault_address = 9;
  orderbook_cn = "orderbook";
}

abbrev pub transfer_of : ℕ → ℕ → EthTransaction
transfer_of tx_hash amount = record {
  tx_hash = tx_hash;
  block_number = 5;
  from = 3;
  to = 9;
  amount = amount;
  timestamp = 1;
  status = TxStatus.confirmed;
}

-- The address 3 is bound, and a transfer of the address 4 waits.
abbrev pub bound : World
bound = record {
  last_block = some 4;
  pending_txs = record (transfer_of 6 30) { from = 4 } ∷ [];
  processed_txs = [];
  bindings = (3, "a") ∷ [];
  sent = [];
  transfers = [];
  now = 1;
  faults = [];
}

abbrev credited_once : World
credited_once = (handle_eth_transaction bridge (transfer_of 7 100) bound).0

run_once : handle_eth_transaction bridge (transfer_of 7 100) bound ≡ (credited_once, ok tt)
unfolding handle_eth_transaction handle_untracked credit_or_wait send expect_u128
    add_eth_pending_transaction insert_pending execute call query is_eth_tracked is_eth_pending
    is_eth_processed record_eth_block ensure_initialized to_i64 mark_eth_processed
    hyli_identity_for_eth insert_hash without_hash lookup contains retain
run_once = refl

handle_eth_transaction-ledger_example :
    ledger_of credited_once ≡ deliver "usdc" (transfer_of 7 100) (ledger_of bound)
handle_eth_transaction-ledger_example =
    handle_eth_transaction-ledger bridge (transfer_of 7 100) bound credited_once tt run_once

run_second :
    handle_eth_transaction bridge (transfer_of 7 50) (record credited_once { faults = [] })
    ≡ (credited_once, ok tt)
unfolding handle_eth_transaction handle_untracked credit_or_wait send expect_u128
    add_eth_pending_transaction insert_pending execute call query is_eth_tracked is_eth_pending
    is_eth_processed record_eth_block ensure_initialized to_i64 mark_eth_processed
    hyli_identity_for_eth insert_hash without_hash lookup contains retain
run_second = refl

handle_eth_transaction-same_hash_example :
    (ledger_of credited_once ≡ ledger_of credited_once)
    × (total (ledger_of credited_once)
        ≡ total (ledger_of bound) + (if seen (ledger_of bound) 7 then 0 else 100))
handle_eth_transaction-same_hash_example =
    handle_eth_transaction-same_hash bridge (transfer_of 7 100) (transfer_of 7 50) bound
      credited_once credited_once [] (ground arith) refl run_once run_second

consistent : IsConsistent (ledger_of bound)
unfolding contains
consistent = (refl, refl, tt)

handle_eth_transaction-IsConsistent_example :
    IsConsistent (ledger_of (handle_eth_transaction bridge (transfer_of 7 100) bound).0)
handle_eth_transaction-IsConsistent_example =
    handle_eth_transaction-IsConsistent bridge (transfer_of 7 100) bound consistent

-- The eighth call fails: the deposit is sent, and its hash is not finished.
abbrev faulty : World
faulty = record bound { faults = false ∷ false ∷ false ∷ false ∷ true ∷ [] }

abbrev sent_only : World
sent_only = (handle_eth_transaction bridge (transfer_of 7 100) faulty).0

abbrev credited_twice : World
credited_twice =
    (handle_eth_transaction bridge (transfer_of 7 100) (record sent_only { faults = [] })).0

run_fails :
    handle_eth_transaction bridge (transfer_of 7 100) faulty
    ≡ (sent_only, err BridgeError.call_failed)
unfolding handle_eth_transaction handle_untracked credit_or_wait send expect_u128
    add_eth_pending_transaction insert_pending execute call query is_eth_tracked is_eth_pending
    is_eth_processed record_eth_block ensure_initialized to_i64 mark_eth_processed
    hyli_identity_for_eth insert_hash without_hash lookup contains retain
run_fails = refl

run_again :
    handle_eth_transaction bridge (transfer_of 7 100) (record sent_only { faults = [] })
    ≡ (credited_twice, ok tt)
unfolding handle_eth_transaction handle_untracked credit_or_wait send expect_u128
    add_eth_pending_transaction insert_pending execute call query is_eth_tracked is_eth_pending
    is_eth_processed record_eth_block ensure_initialized to_i64 mark_eth_processed
    hyli_identity_for_eth insert_hash without_hash lookup contains retain
run_again = refl

unseen : seen (ledger_of faulty) 7 ≡ false
unfolding seen contains
unseen = refl

changed : ledger_of sent_only ≢ ledger_of faulty
unfolding handle_eth_transaction handle_untracked credit_or_wait send expect_u128
    add_eth_pending_transaction insert_pending execute call query is_eth_tracked is_eth_pending
    is_eth_processed record_eth_block ensure_initialized to_i64 mark_eth_processed
    hyli_identity_for_eth insert_hash without_hash lookup contains retain
changed h = cc h

handle_eth_transaction-retry_example :
    total (ledger_of credited_twice) ≡ total (ledger_of faulty) + 2 * 100
handle_eth_transaction-retry_example =
    handle_eth_transaction-retry bridge (transfer_of 7 100) faulty sent_only credited_twice
      BridgeError.call_failed [] (ground arith) unseen run_fails changed run_again

-- The block 14 is in the second chunk of the blocks 3 to 20.
chunks_with-chunk_starts_example : chunks_with 14 20 (chunk_starts 3 20) ≡ 1
chunks_with-chunk_starts_example = chunks_with-chunk_starts 14 3 20

abbrev zeros : List ℕ
zeros = 0 ∷ 0 ∷ 0 ∷ 0 ∷ 0 ∷ 0 ∷ 0 ∷ 0 ∷ []

-- A transfer of 260 from the address 3 to the vault.
abbrev pub log : Log
log = record {
  topics = 1 ∷ 3 ∷ 9 ∷ [];
  payload =
      0 ∷ 0 ∷ 0 ∷ 0 ∷ 0 ∷ 0 ∷ 0 ∷ 0 ∷ 0 ∷ 0 ∷ 0 ∷ 0 ∷ 0 ∷ 0 ∷ 0 ∷ 0 ∷ 0 ∷ 0 ∷ 0 ∷ 0 ∷ 0 ∷ 0 ∷ 0 ∷ 0
      ∷ 0 ∷ 0 ∷ 0 ∷ 0 ∷ 0 ∷ 0 ∷ 1 ∷ 4 ∷ [];
  transaction_hash = some 7;
  block_number = some 5;
}

abbrev handled : World
handled = (handle_logs bridge (log ∷ []) bound).0

run_logs : handle_logs bridge (log ∷ []) bound ≡ (handled, ok tt)
unfolding handle_logs handle_eth_to_vault_log log_to_eth_transaction transaction_of parse_log_data
    from_be_bytes handle_eth_transaction handle_untracked credit_or_wait send expect_u128
    add_eth_pending_transaction insert_pending execute call query is_eth_tracked is_eth_pending
    is_eth_processed record_eth_block ensure_initialized to_i64 mark_eth_processed
    hyli_identity_for_eth insert_hash without_hash lookup contains retain
run_logs = refl

run_logs_again :
    handle_logs bridge (log ∷ []) (record handled { now = 8; faults = false ∷ [] })
    ≡ (record handled { now = 8 }, ok tt)
unfolding handle_logs handle_eth_to_vault_log log_to_eth_transaction transaction_of parse_log_data
    from_be_bytes handle_eth_transaction handle_untracked credit_or_wait send expect_u128
    add_eth_pending_transaction insert_pending execute call query is_eth_tracked is_eth_pending
    is_eth_processed record_eth_block ensure_initialized to_i64 mark_eth_processed
    hyli_identity_for_eth insert_hash without_hash lookup contains retain
run_logs_again = refl

handle_logs-again_example : ledger_of (record handled { now = 8 }) ≡ ledger_of handled
handle_logs-again_example =
    handle_logs-again bridge (log ∷ []) bound handled (record handled { now = 8 }) 8 (false ∷ [])
      run_logs run_logs_again

-- A node with the log in block 5.
abbrev node : EthNode
node = record {
  latest_block = 6;
  get_logs = λ from_block to_block topic1 topic2. [];
  token_balance = λ transfers address. 1000;
}

catch_up_eth-lost_range_example :
    (w1 : World) × (catch_up_eth bridge node
        (record bound { faults = false ∷ false ∷ false ∷ true ∷ [] })
      ≡ (w1, err BridgeError.call_failed))
    × (ledger_of w1 ≡ ledger_of bound)
    × ((faults : List Bool)
        → ledger_of (catch_up_eth bridge node (record w1 { faults = faults })).0 ≡ ledger_of bound)
catch_up_eth-lost_range_example =
    catch_up_eth-lost_range bridge node
      (record bound { faults = false ∷ false ∷ false ∷ true ∷ [] }) 4 [] refl (omega arith)
      (omega arith) refl

-- One log, of block 5, for any range that has the block.
abbrev one_log : EthNode
one_log = record node {
  get_logs = λ from_block to_block topic1 topic2.
      if leb from_block 5 && leb 5 to_block then log ∷ [] else [];
}

one_log-IsAdditive : IsAdditive one_log
one_log-IsAdditive topic1 topic2 first middle last h k = ground arith

fetch_transfers_with_topics-get_logs_example :
    fetch_transfers_with_topics one_log 1 2500 none none (faultless bound)
    ≡ (faultless bound, ok (log ∷ []))
fetch_transfers_with_topics-get_logs_example =
    fetch_transfers_with_topics-get_logs one_log one_log-IsAdditive none none bound 1 2500
      (omega arith)

handle_eth_to_vault_log-ne-panic_example : (handle_eth_to_vault_log bridge log faulty).1 ≢ panic
handle_eth_to_vault_log-ne-panic_example =
    handle_eth_to_vault_log-ne-panic bridge log faulty (omega arith)
