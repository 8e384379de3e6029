-- ===== src/Server/Database/Tables.antt =====
-- The tables of the server's database that the database module writes
-- (server/src/migrations/1_create_table.sql and 5_blob_tx_outbox.sql), with the constraints that an
-- INSERT can meet. A row is left out of a table's list of columns where no code reads it.
use hyliquid.Prelude.{
  ℕ, ◌^◌, ◌-◌, ltb, Bool, Option, List, if◌then◌else◌, Bytes, String, ℤ, pos, negsuc,
}
use hyliquid.Types.{OrderId, OrderSide, OrderType, OrderbookEvent, UserInfo}
use hyliquid.Server.Assets.{Instrument}
use hyliquid.Server.App.{BlobTransaction, OrderbookProverRequest}

-- `n as i64`
abbrev pub as_i64 : ℕ → ℤ
as_i64 n = if ltb n (2 ^ 63) then pos n else negsuc (2 ^ 64 - n - 1)

pub data OrderStatus : Type 0 where
  open_order partially_filled filled cancelled : OrderStatus

pub record CommitRow : Type 0 where
  pub commit_id : ℕ
  pub tx_hash : ℕ

pub record OrderRow : Type 0 where
  pub order_id : OrderId
  pub identity : String
  pub instrument_id : ℕ
  pub side : OrderSide
  pub order_type : OrderType
  pub price : Option ℤ
  pub qty : ℤ
  pub qty_filled : ℤ
  pub status : OrderStatus

pub record OrderEventRow : Type 0 where
  pub commit_id : ℕ
  pub order : OrderRow

pub record TradeRow : Type 0 where
  pub commit_id : ℕ
  pub maker_order_id : OrderId
  pub taker_order_id : OrderId
  pub instrument_id : ℕ
  pub price : Option ℤ
  pub qty : ℤ
  pub side : OrderSide
  pub maker_identity : String
  pub taker_identity : String

pub record BalanceEventRow : Type 0 where
  pub commit_id : ℕ
  pub identity : String
  pub asset_id : ℕ
  pub total : ℤ

pub record UserRow : Type 0 where
  pub commit_id : ℕ
  pub identity : String
  pub salt : Bytes
  pub nonce : ℕ

pub record SessionKeysRow : Type 0 where
  pub commit_id : ℕ
  pub identity : String
  pub session_keys : List Bytes

pub record NonceRow : Type 0 where
  pub commit_id : ℕ
  pub identity : String
  pub nonce : ℕ

pub record ProverRequestRow : Type 0 where
  pub commit_id : ℕ
  pub tx_hash : ℕ
  pub request : OrderbookProverRequest

pub record ContractEventsRow : Type 0 where
  pub commit_id : ℕ
  pub user_info : UserInfo
  pub events : List OrderbookEvent

-- A blob transaction that is `pending` or `sent`.
pub record OutboxRow : Type 0 where
  pub commit_id : ℕ
  pub blob_tx : BlobTransaction
  pub is_sent : Bool
  pub attempts : ℕ

pub record BalanceRow : Type 0 where
  pub identity : String
  pub asset_id : ℕ
  pub total : ℤ

pub record Tables : Type 0 where
  pub commits : List CommitRow
  pub instruments : List Instrument
  pub balance_events : List BalanceEventRow
  pub orders : List OrderRow
  pub order_events : List OrderEventRow
  pub trade_events : List TradeRow
  pub users : List UserRow
  pub user_session_keys : List SessionKeysRow
  pub user_events_nonces : List NonceRow
  pub prover_requests : List ProverRequestRow
  pub contract_events : List ContractEventsRow
  pub blob_tx_outbox : List OutboxRow
  pub balances : List BalanceRow
