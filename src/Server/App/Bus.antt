-- ===== src/Server/App/Bus.antt =====
-- The requests that the bridge sends to the order book module (server/src/app.rs,
-- `execute_deposit`, `execute_withdraw`).
use hyliquid.Prelude.{
  ℕ, not, [], ◌∷◌, ok, ◌>>=◌, ◌>>◌, fail_if, ok_or, ltb, if◌then◌else◌, ◌==◌, string_eq, Bytes,
  u64_mod,
}
use hyliquid.Types.{UserInfo}
use hyliquid.Actions.{PermissionedOrderbookAction, OrderbookAction}
use hyliquid.State.Escape.{orderbook_account_identity}
use hyliquid.State.Users.{new_user}
use hyliquid.State.Accounts
use hyliquid.Server.Requests.{PendingDeposit, PendingWithdraw}
use hyliquid.Server.Assets.{get_symbol_from_contract_name}
use hyliquid.Server.App.{
  App, Router, Status, Failure, Answer, or_status, known_or_new, BlobTransaction, WriteEvents,
  write, commit, next_id, empty_input,
}

-- `UserInfo::default()`
abbrev pub default_user : UserInfo
default_user = record { user = ""; salt = []; nonce = 0; session_keys = [] }

module _ (ctx : Router) where
  unfoldable pub execute_deposit : App → (salt : Bytes) → PendingDeposit → Answer App
  unfolding known_or_new commit
  execute_deposit app salt deposit = do
    symbol ←
        ok_or (get_symbol_from_contract_name ctx.asset_service deposit.contract_name)
          (Failure.refused Status.internal_server_error)
    fail_if (not (ltb deposit.amount u64_mod)) (Failure.refused Status.internal_server_error)
    let user_info = known_or_new app.orderbook deposit.sender salt
    events ←
        or_status Status.internal_server_error
          (Accounts.deposit ctx.externals app.orderbook symbol deposit.amount user_info)
    (app', tx_hash) ←
        commit ctx app user_info events (PermissionedOrderbookAction.deposit symbol deposit.amount)
          empty_input
    ok app'

  -- The transfer of a token from the account of the order book.
  unfoldable pub transfer_tx : PendingWithdraw → ℕ → BlobTransaction
  transfer_tx withdraw action_id = record {
    identity = orderbook_account_identity;
    blobs =
        (record {
          contract_name = ctx.orderbook_cn;
          payload =
              ctx.encode_action
                (OrderbookAction.permissioned PermissionedOrderbookAction.identify action_id);
        })
        ∷ (record {
          contract_name = withdraw.contract_name;
          payload =
              ctx.encode_transfer orderbook_account_identity withdraw.destination.address
                withdraw.amount;
        })
        ∷ [];
  }

  unfoldable pub transfer_events : PendingWithdraw → ℕ → WriteEvents
  unfolding transfer_tx
  transfer_events withdraw action_id =
      let blob_tx = transfer_tx withdraw action_id in
      record {
        user = new_user orderbook_account_identity [];
        tx_hash = ctx.hashed blob_tx;
        blob_tx = blob_tx;
        prover_request = record {
          events = [];
          user_info = default_user;
          action_private_input = [];
          orderbook_action = PermissionedOrderbookAction.identify;
          tx_hash = ctx.hashed blob_tx;
          nonce = action_id;
        };
      }

  unfoldable pub execute_withdraw : App → PendingWithdraw → Answer App
  unfolding transfer_events write
  execute_withdraw app withdraw =
      if not (withdraw.destination.network == "hyli")
      then ok app
      else write ctx (record app { action_id_counter = next_id app.action_id_counter })
          (transfer_events withdraw app.action_id_counter)
