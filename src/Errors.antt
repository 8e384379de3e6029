-- ===== src/Errors.antt =====
-- The error messages of the orderbook crate, one constructor for each `Err(..)` of the source.
use hyliquid.Prelude.{String}
use hyliquid.Prelude
use hyliquid.Types.{OrderId, Symbol, Pair, H256}

pub data Error : Type 0 where
  -- order_manager.rs
  order_not_found : OrderId → Error
  order_already_exists : OrderId → Error
  no_matching_orders : OrderId → Error
  price_missing price_zero created_price_missing : Error
  cancelled_missing executed_missing update_missing : OrderId → Error
  -- model.rs
  asset_conflict : Symbol → Error
  scale_too_large : Symbol → Error
  nonce_overflow session_key_exists balance_overflow : Error
  insufficient_balance : Symbol → Error
  user_not_found : String → Error
  key_not_found : H256 → Error
  asset_info_not_found : Symbol → Error
  symbol_not_found : Symbol → Error
  exchange_out_of_range : H256 → Symbol → Error
  executed_owner_not_found : OrderId → Error
  updated_owner_not_found : OrderId → Error
  could_not_find : OrderId → Error
  user_names_missing : Error
  user_name_missing : H256 → Error
  touched_symbol_missing : Symbol → Error
  touched_balance_missing : H256 → Error
  order_without_record : OrderId → Error
  owner_without_user : H256 → Error
  escape_needs_context escape_too_early : Error
  no_escape_transfer : Symbol → Error
  -- transaction.rs and utils.rs
  limit_without_price market_with_price deserialize : Error
  unknown_public_key invalid_signature : Error
  signature_check generate_events apply_events_failed : Error → Error
  -- zk/
  not_whitelisted : String → Error
  calldata_unreadable default_program_id : Error
  cancelled_not_found updated_not_found executed_not_found : OrderId → Error
  order_has_no_price : OrderId → Error
  price_map_missing : Pair → Error
  order_queue_missing : Error
  order_owner_missing : OrderId → Error
  smt_failure : Error

abbrev pub Result {ℓ} : Type ℓ → Type ℓ
Result A = Prelude.Result Error A
