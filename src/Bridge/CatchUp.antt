-- ===== src/Bridge/CatchUp.antt =====
-- The logs of the blocks that were missed (server/src/bridge.rs, `catch_up_eth`): the chunks of
-- blocks, a batch of logs, and a fetch that fails.
use hyliquid.Prelude.{
  ℕ, zero, suc, ◌+◌, ◌-◌, ◌*◌, ◌/◌, ◌^◌, ◌≤◌, ◌<◌, Bool, true, false, ◌||◌, ◌&&◌, some, List, [],
  ◌∷◌, ◌≡◌, refl, sym, ◌∙◌, ap, ok, err, ltb, leb, eqb, arith, if◌then◌else◌,
}
use mathlib.Core.Path.{subst}
use hyliquid.Bridge.World.{BridgeError, EthTransaction, World, query, call, execute}
use hyliquid.Bridge.Service.{eth_last_block, record_eth_block, to_i64}
use hyliquid.Bridge.Logs.{
  Log, EthNode, log_to_eth_transaction, transaction_of, latest_block_number, saturating_suc,
  fetch_transfers_to_range, fetch_transfers_with_topics, fetch_batches,
}
use hyliquid.Bridge.Deposits.{
  BridgeModule, handle_eth_transaction, handle_eth_to_vault_log, handle_logs, starts, chunk_starts,
  chunk_end, handle_chunks, catch_up_eth,
}
use hyliquid.Bridge.Rules.{after}
use hyliquid.Bridge.Ledger.{Ledger, ledger_of, seen, deliver, deliver_all}
use hyliquid.Bridge.Delivery.{handle_eth_transaction-ledger}
use hyliquid.Bridge.Replay.{AllSeen, AllSeen-deliver_all, deliver_all-AllSeen}

-- How many chunks hold a block.
abbrev pub chunks_with : (block latest : ℕ) → List ℕ → ℕ
chunks_with block latest [] = 0
chunks_with block latest (start ∷ later) =
    (if leb start block && leb block (chunk_end start latest) then 1 else 0)
    + chunks_with block latest later

chunks_with-starts :
    (block latest count start : ℕ)
    → chunks_with block latest (starts count start)
      ≡ (if leb start block && (leb block latest && ltb block (start + 10 * count)) then 1 else 0)
unfolding starts
chunks_with-starts block latest zero start = ground arith
chunks_with-starts block latest (suc count) start =
    ground (arith, chunks_with-starts block latest count (start + 10))

-- Every block of the range is in one chunk, and no other block is in any.
pub chunks_with-chunk_starts :
    (block from_block latest : ℕ)
    → chunks_with block latest (chunk_starts from_block latest)
      ≡ (if leb from_block block && leb block latest then 1 else 0)
unfolding chunk_starts
chunks_with-chunk_starts block from_block latest =
    ground (arith, chunks_with-starts block latest ((latest + 10 - from_block) / 10) from_block)

-- The transactions of logs, each read at some time.
abbrev pub Parsed : List Log → List EthTransaction → Type 0
Parsed [] [] = Unit {0}
Parsed (log ∷ logs) (tx ∷ txs) =
    ((now : ℕ) × (log_to_eth_transaction now log ≡ ok tx)) × Parsed logs txs
Parsed [] (tx ∷ txs) = ⊥
Parsed (log ∷ logs) [] = ⊥

-- The time at which a log is read changes neither its hash nor its sender.
same_seen :
    (l : Ledger) (now then_ : ℕ) (log : Log) (tx tx' : EthTransaction)
    → log_to_eth_transaction now log ≡ ok tx
    → log_to_eth_transaction then_ log ≡ ok tx'
    → (eqb tx.from 0 || seen l tx.tx_hash) ≡ (eqb tx'.from 0 || seen l tx'.tx_hash)
unfolding log_to_eth_transaction transaction_of
same_seen l now then_ log tx tx' h k = ground arith

AllSeen-Parsed :
    (l : Ledger) (logs : List Log) (txs txs' : List EthTransaction)
    → Parsed logs txs
    → Parsed logs txs'
    → AllSeen l txs
    → AllSeen l txs'
AllSeen-Parsed l [] [] [] p q s = tt
AllSeen-Parsed l [] [] (tx ∷ txs') p q s = absurd q
AllSeen-Parsed l [] (tx ∷ txs) txs' p q s = absurd p
AllSeen-Parsed l (log ∷ logs) [] txs' p q s = absurd p
AllSeen-Parsed l (log ∷ logs) (tx ∷ txs) [] p q s = absurd q
AllSeen-Parsed l (log ∷ logs) (tx ∷ txs) (tx' ∷ txs') p q s = (
  sym (same_seen l p.0.0 q.0.0 log tx tx' p.0.1 q.0.1) ∙ s.0,
  AllSeen-Parsed l logs txs txs' p.1 q.1 s.1,
)

module _ (b : BridgeModule) where
  pub handle_eth_to_vault_log-ledger :
      (log : Log) (w w' : World)
      → handle_eth_to_vault_log b log w ≡ (w', ok tt)
      → (tx : EthTransaction) × (log_to_eth_transaction w.now log ≡ ok tx)
        × (ledger_of w' ≡ deliver b.collateral_token_cn tx (ledger_of w))
  unfolding handle_eth_to_vault_log
  handle_eth_to_vault_log-ledger log w w' h =
      after (w, log_to_eth_transaction w.now log) (handle_eth_transaction b) h
        λ w1 tx e k.
          let same : w1 ≡ w = cc in
          (
            tx,
            cc e,
            handle_eth_transaction-ledger b tx w1 w' tt k
                ∙ ap (λ (v : World). deliver b.collateral_token_cn tx (ledger_of v)) same,
          )

  -- A batch of logs is the delivery of their transactions, one after the other.
  pub handle_logs-ledger :
      (logs : List Log) (w w' : World)
      → handle_logs b logs w ≡ (w', ok tt)
      → (txs : List EthTransaction) × Parsed logs txs
        × (ledger_of w' ≡ deliver_all b.collateral_token_cn txs (ledger_of w))
  unfolding handle_logs deliver_all
  handle_logs-ledger [] w w' h = ([], tt, cc)
  handle_logs-ledger (log ∷ logs) w w' h =
      after (handle_eth_to_vault_log b log w) (λ _. handle_logs b logs) h
        λ w1 u e k.
          let (tx, parsed, first) = handle_eth_to_vault_log-ledger log w w1 e in
          let (txs, rest, all) = handle_logs-ledger logs w1 w' k in
          (
            tx ∷ txs,
            ((w.now, parsed), rest),
            all ∙ ap (deliver_all b.collateral_token_cn txs) first,
          )

  -- When logs that were handled with success come again, at any time and with any faults, and are
  -- handled with success, the ledger stays as it was.
  pub handle_logs-again :
      (logs : List Log) (w w1 w2 : World) (now : ℕ) (faults : List Bool)
      → handle_logs b logs w ≡ (w1, ok tt)
      → handle_logs b logs (record w1 { now = now; faults = faults }) ≡ (w2, ok tt)
      → ledger_of w2 ≡ ledger_of w1
  handle_logs-again logs w w1 w2 now faults h k =
      let (txs, parsed, first) = handle_logs-ledger logs w w1 h in
      let (txs', parsed', second) =
        handle_logs-ledger logs (record w1 { now = now; faults = faults }) w2 k in
      let settled : AllSeen (ledger_of w1) txs =
        subst (λ l. AllSeen l txs) (sym first)
          (AllSeen-deliver_all b.collateral_token_cn txs (ledger_of w)) in
      second
      ∙ deliver_all-AllSeen b.collateral_token_cn txs' (ledger_of w1)
          (AllSeen-Parsed (ledger_of w1) logs txs txs' parsed parsed' settled)

  fetch_fails :
      (node : EthNode) (w : World) (from_block to_block : ℕ) (later : List Bool)
      → from_block ≤ to_block
      → w.faults ≡ true ∷ later
      → fetch_transfers_to_range node b.eth_contract_vault_address from_block to_block w
        ≡ (record w { faults = later }, err BridgeError.call_failed)
  unfolding fetch_transfers_to_range fetch_transfers_with_topics fetch_batches query call
  fetch_fails node w from_block to_block later h f =
      let some_fuel : to_block - from_block + 2 ≡ suc (to_block - from_block + 1) = omega arith in
      rw some_fuel (ground arith)

  -- A fetch that fails at once ends the first chunk.
  first_chunk_fails :
      (node : EthNode) (w : World) (from_block : ℕ) (later : List Bool)
      → from_block ≤ node.latest_block
      → w.faults ≡ true ∷ later
      → handle_chunks b node node.latest_block (chunk_starts from_block node.latest_block) w
        ≡ (record w { faults = later }, err BridgeError.call_failed)
  unfolding handle_chunks chunk_starts starts
  first_chunk_fails node w from_block later h f =
      let a_chunk : (node.latest_block + 10 - from_block) / 10
          ≡ suc ((node.latest_block - from_block) / 10) =
        omega arith in
      rw
        (
          a_chunk,
          fetch_fails node w from_block (chunk_end from_block node.latest_block) later (omega arith)
              f,
        )
        refl

  -- The last block is recorded before the logs are fetched. When the stored block is older than that
  -- of the node, which fits an `i64`, and the first fetch fails, the catch-up fails with the ledger
  -- unchanged, and the next one, whatever faults it meets, leaves the ledger unchanged too.
  pub catch_up_eth-lost_range :
      (node : EthNode) (w : World) (stored : ℕ) (later : List Bool)
      → w.last_block ≡ some stored
      → stored < node.latest_block
      → node.latest_block < 2 ^ 63
      → w.faults ≡ false ∷ false ∷ false ∷ true ∷ later
      → (w1 : World) × (catch_up_eth b node w ≡ (w1, err BridgeError.call_failed))
        × (ledger_of w1 ≡ ledger_of w)
        × ((faults : List Bool)
            → ledger_of (catch_up_eth b node (record w1 { faults = faults })).0 ≡ ledger_of w)
  unfolding catch_up_eth eth_last_block latest_block_number record_eth_block to_i64 query execute
      call
  catch_up_eth-lost_range node w stored later l older fits f = (
    record w { last_block = some node.latest_block; faults = later },
    ground (
      arith,
      first_chunk_fails node
          (record w { last_block = some node.latest_block; faults = true ∷ later })
          (saturating_suc stored) later,
    ),
    refl,
    λ faults. ground arith,
  )
