-- ===== src/Bridge/Amounts.antt =====
-- The amount of a log (server/src/bridge/eth.rs, `parse_log_data`) on its way to the order book.
use hyliquid.Prelude.{
  ℕ, zero, suc, ◌+◌, ◌*◌, ◌^◌, ◌≤◌, ◌<◌, false, List, [], ◌∷◌, ◌≡◌, ◌≢◌, refl, ok, panic, ltb, eqb,
  arith, All, Bytes, take, drop, length, String, Option, none, some,
}
use hyliquid.Bridge.World.{World, EthTransaction, pure, query, call, execute}
use hyliquid.Bridge.Service.{
  is_eth_pending, is_eth_processed, is_eth_tracked, mark_eth_processed, record_eth_block,
  ensure_initialized, insert_pending, add_eth_pending_transaction, hyli_identity_for_eth, to_i64,
}
use hyliquid.Bridge.Deposits.{
  BridgeModule, send, expect_u128, credit_or_wait, handle_untracked, handle_eth_transaction,
  handle_eth_to_vault_log,
}
use hyliquid.Bridge.Rules.{Calm, Calm-chain, Calm-choice, Calm-pure}
use hyliquid.Bridge.Logs.{
  address_of_topic, Log, from_be_bytes, parse_log_data, log_to_eth_transaction, transaction_of,
}

abbrev pub IsByte : ℕ → Type 0
IsByte n = n < 256

-- What n more bytes can make of a number, and one.
abbrev cap_of : (more high : ℕ) → ℕ
cap_of zero high = high + 1
cap_of (suc more) high = cap_of more (high * 256 + 255)

cap_of_mono : (more low high : ℕ) → low ≤ high → cap_of more low ≤ cap_of more high
cap_of_mono zero low high h = omega arith
cap_of_mono (suc more) low high h =
    cap_of_mono more (low * 256 + 255) (high * 256 + 255) (omega arith)

cap_of_above : (more high : ℕ) → high < cap_of more high
cap_of_above zero high = omega arith
cap_of_above (suc more) high = omega (arith, cap_of_above more (high * 256 + 255))

from_be_bytes-lt :
    (bytes : Bytes) (more high : ℕ)
    → All IsByte bytes
    → length bytes ≤ more
    → from_be_bytes high bytes < cap_of more high
unfolding from_be_bytes
from_be_bytes-lt [] more high b l = cap_of_above more high
from_be_bytes-lt (byte ∷ bytes) zero high b l = absurd (omega arith)
from_be_bytes-lt (byte ∷ bytes) (suc more) high b l = omega (
  arith,
  from_be_bytes-lt bytes more (high * 256 + byte) b.1 (omega arith),
  cap_of_mono more (high * 256 + byte) (high * 256 + 255) (omega (arith, b.0)),
)

All-take : (n : ℕ) (bytes : Bytes) → All IsByte bytes → All IsByte (take n bytes)
All-take zero bytes b = tt
All-take (suc n) [] b = tt
All-take (suc n) (byte ∷ bytes) b = (b.0, All-take n bytes b.1)

All-drop : (n : ℕ) (bytes : Bytes) → All IsByte bytes → All IsByte (drop n bytes)
All-drop zero bytes b = b
All-drop (suc n) [] b = tt
All-drop (suc n) (byte ∷ bytes) b = All-drop n bytes b.1

length-take : (n : ℕ) (bytes : Bytes) → length (take n bytes) ≤ n
length-take zero bytes = omega arith
length-take (suc n) [] = omega arith
length-take (suc n) (byte ∷ bytes) = omega (arith, length-take n bytes)

amount_bound :
    (payload : Bytes) → All IsByte payload → from_be_bytes 0 (take 8 (drop 24 payload)) < 2 ^ 64
amount_bound payload b =
    from_be_bytes-lt (take 8 (drop 24 payload)) 8 0
      (All-take 8 (drop 24 payload) (All-drop 24 payload b)) (length-take 8 (drop 24 payload))

-- A log as a node sends it: three topics, and at least the 32 bytes of an amount.
abbrev pub IsWellFormed : Log → Type 0
IsWellFormed log = (3 ≤ length log.topics) × (32 ≤ length log.payload) × All IsByte log.payload

parse_log_data-bound :
    (log : Log)
    → IsWellFormed log
    → (from : ℕ) × (to : ℕ) × (amount : ℕ) × (parse_log_data log ≡ ok (from, to, amount))
      × (amount < 2 ^ 64)
unfolding parse_log_data
parse_log_data-bound log f = of_topics log.topics refl f.0
  where
    of_topics :
        (topics : List ℕ)
        → log.topics ≡ topics
        → 3 ≤ length topics
        → (from : ℕ) × (to : ℕ) × (amount : ℕ) × (parse_log_data log ≡ ok (from, to, amount))
          × (amount < 2 ^ 64)
    of_topics (topic0 ∷ topic1 ∷ topic2 ∷ rest) e h =
        let long : ltb (length log.payload) 32 ≡ false = ground (arith, f.1) in
        (
          address_of_topic topic1,
          address_of_topic topic2,
          from_be_bytes 0 (take 8 (drop 24 log.payload)),
          rw (e, parse_log_data, long) refl,
          amount_bound log.payload f.2,
        )
    of_topics [] e h = absurd (omega arith)
    of_topics (topic0 ∷ []) e h = absurd (omega arith)
    of_topics (topic0 ∷ topic1 ∷ []) e h = absurd (omega arith)

tracked_Calm : (h : ℕ) → Calm (is_eth_tracked h)
unfolding is_eth_tracked is_eth_pending is_eth_processed query call
tracked_Calm h = record { at = λ w e. ground arith }

identity_Calm : (a : ℕ) → Calm (hyli_identity_for_eth a)
unfolding hyli_identity_for_eth query call
identity_Calm a = record { at = λ w e. ground arith }

insert_rest : (tx : EthTransaction) (w : World) → (insert_pending tx w).1 ≢ panic
unfolding insert_pending record_eth_block ensure_initialized to_i64 execute call
insert_rest tx w e = ground arith

add_Calm : (tx : EthTransaction) → Calm (add_eth_pending_transaction tx)
unfolding add_eth_pending_transaction
add_Calm tx =
    Calm-chain (is_eth_tracked tx.tx_hash) _ (tracked_Calm tx.tx_hash) λ tracked.
      Calm-choice tracked _ _ (Calm-pure false) (record { at = λ w e. insert_rest tx w e })

module _ (b : BridgeModule) where
  send_rest :
      (tx : EthTransaction) (identity : String) (w : World)
      → tx.amount < 2 ^ 128
      → (credit_or_wait b tx (some identity) w).1 ≢ panic
  unfolding credit_or_wait expect_u128 send mark_eth_processed execute call
  send_rest tx identity w small e = ground arith

  credit_Calm :
      (tx : EthTransaction) (identity : Option String)
      → tx.amount < 2 ^ 128
      → Calm (credit_or_wait b tx identity)
  unfolding credit_or_wait
  credit_Calm tx none small =
      Calm-chain (add_eth_pending_transaction tx) (λ _. pure tt) (add_Calm tx) (λ _. Calm-pure tt)
  credit_Calm tx (some identity) small = record { at = λ w e. send_rest tx identity w small e }

  no_panic : (tx : EthTransaction) → tx.amount < 2 ^ 128 → Calm (handle_eth_transaction b tx)
  unfolding handle_eth_transaction handle_untracked
  no_panic tx small = Calm-choice (eqb tx.from 0) _ _ (Calm-pure tt) (
      Calm-chain (is_eth_tracked tx.tx_hash) _ (tracked_Calm tx.tx_hash) λ tracked.
        Calm-choice tracked _ _ (Calm-pure tt) (
          Calm-chain (hyli_identity_for_eth tx.from) (credit_or_wait b tx) (identity_Calm tx.from)
            λ identity. credit_Calm tx identity small))

  -- A log that is well formed, with three topics and 32 bytes at least, never panics, whatever fails
  -- on the way.
  pub handle_eth_to_vault_log-ne-panic :
      (log : Log) (w : World) → IsWellFormed log → (handle_eth_to_vault_log b log w).1 ≢ panic
  unfolding handle_eth_to_vault_log log_to_eth_transaction transaction_of
  handle_eth_to_vault_log-ne-panic log w f =
      let (from, to, amount, parsed, small) = parse_log_data-bound log f in
      rw parsed ((no_panic (transaction_of w.now log (from, to, amount)) (omega arith)).at w)
