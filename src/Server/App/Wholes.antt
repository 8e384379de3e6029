-- ===== src/Server/App/Wholes.antt =====
-- Requests whose events can always be applied (server/src/app.rs): a handler that fails in the
-- middle of `apply_events` would leave a state that no one has described.
use hyliquid.Prelude.{
  Bool, true, false, not, Option, none, some, List, ◌≡◌, ◌≢◌, refl, Result, ok, err, panic, ◌>>=◌,
  arith, Bytes, String, string_eq, ok_or, bytes_eq, eqb, ltb, lookup, u64_mod,
}
use hyliquid.Types.{UserInfo, ExecuteState, OrderbookEvent, OrderId}
use hyliquid.Errors.{Error}
use hyliquid.Actions.{PermissionedOrderbookAction}
use hyliquid.State.Users.{get_key, get_balance}
use hyliquid.State.Apply.{apply_events}
use hyliquid.State.Accounts
use hyliquid.State.Accounts.{required_symbol}
use hyliquid.State.Accounts.Outcomes.{deposit_credits, withdraw_debits, cancel_order_credits}
use hyliquid.Transaction.{cancel_text, withdraw_text}
use hyliquid.Server.Requests.{PendingDeposit}
use hyliquid.Server.Assets.{get_symbol_from_contract_name}
use hyliquid.Server.App.{
  App, Router, Status, Answer, from_headers, Failure, Headers, or_status, known_or_new, commit,
  empty_input, process_orderbook_action, write,
}
use hyliquid.Server.App.Bus.{execute_deposit}
use hyliquid.Server.App.Handlers.{WithdrawRequest, refuse_if, check_signed, cancel_order, withdraw}
use hyliquid.Server.App.Commits.{or_status-eq-ok}
use hyliquid.Server.App.Runs.{cancelled_order}

-- Errors that no request ends in.
module _ {A B : Type 0} where
  chain_ne :
      (m : Answer A) (f : A → Answer B)
      → m ≢ err Failure.spoiled
      → ((a : A) → m ≡ ok a → f a ≢ err Failure.spoiled)
      → (m >>= f) ≢ err Failure.spoiled
  chain_ne (ok a) f n k = k a refl
  chain_ne (err e) f n k = λ h. absurd (n cc)
  chain_ne panic f n k = λ h. cc

or_status_ne :
    {A : Type 0} (status : Status) (m : Result Error A) → or_status status m ≢ err Failure.spoiled
or_status_ne status (ok a) h = cc
or_status_ne status (err e) h = cc
or_status_ne status panic h = cc

ok_or_ne :
    {A : Type 0} (o : Option A) (status : Status)
    → ok_or o (Failure.refused status) ≢ err Failure.spoiled
ok_or_ne none status h = cc
ok_or_ne (some a) status h = cc

refuse_if_ne : (b : Bool) (status : Status) → refuse_if b status ≢ err Failure.spoiled
refuse_if_ne true status h = cc
refuse_if_ne false status h = cc

module _ (ctx : Router) (app : App) where
  -- Events that can be applied are committed, or their message is not taken.
  commit_ne :
      (u : UserInfo) (es : List OrderbookEvent) (action : PermissionedOrderbookAction)
      (input : Bytes) (s : ExecuteState)
      → apply_events ctx.externals app.orderbook u es ≡ ok s
      → commit ctx app u es action input ≢ err Failure.spoiled
  unfolding commit process_orderbook_action write
  commit_ne u es action input s e h = ground arith

  check_signed_ne :
      (stored : String → Option UserInfo) (headers : Headers) (text : Bytes)
      → check_signed ctx stored headers text ≢ err Failure.spoiled
  unfolding check_signed from_headers
  check_signed_ne stored headers text h = ground arith

  withdraw-ne-spoiled :
      (stored : String → Option UserInfo) (headers : Headers) (request : WithdrawRequest)
      → withdraw ctx stored app headers request ≢ err Failure.spoiled
  unfolding withdraw
  withdraw-ne-spoiled stored headers request =
      chain_ne (check_signed ctx stored headers (withdraw_text request.symbol request.amount)) _
        (check_signed_ne stored headers (withdraw_text request.symbol request.amount))
        λ signed _.
          chain_ne
            (refuse_if
              (ltb (get_balance ctx.externals app.orderbook signed.user_info request.symbol)
                request.amount)
              Status.bad_request)
            _ (refuse_if_ne _ _)
            λ _ _.
              let events =
                Accounts.withdraw ctx.externals app.orderbook request.symbol request.amount
                  signed.user_info in
              chain_ne (or_status Status.internal_server_error events) _ (or_status_ne _ events)
                λ es e.
                  let (s', a, _, _, _, _) =
                    withdraw_debits ctx.externals app.orderbook request.symbol request.amount
                      signed.user_info "" 0
                      (or_status-eq-ok Status.internal_server_error events es e) in
                  commit_ne signed.user_info es _ _ s' a

  cancel_order-ne-spoiled :
      (stored : String → Option UserInfo) (headers : Headers) (order_id : OrderId)
      → cancel_order ctx stored app headers order_id ≢ err Failure.spoiled
  unfolding cancel_order
  cancel_order-ne-spoiled stored headers order_id =
      chain_ne (check_signed ctx stored headers (cancel_text order_id)) _
        (check_signed_ne stored headers (cancel_text order_id))
        λ signed _.
          chain_ne
            (ok_or (lookup order_id app.orderbook.order_manager.orders_owner)
              (Failure.refused Status.bad_request))
            _ (ok_or_ne _ _)
            λ order_owner _.
              chain_ne
                (refuse_if (not (eqb (get_key ctx.externals signed.user_info) order_owner))
                  Status.unauthorized)
                _ (refuse_if_ne _ _)
                λ _ _.
                  let events =
                    Accounts.cancel_order ctx.externals app.orderbook order_id signed.user_info in
                  chain_ne (or_status Status.internal_server_error events) _ (or_status_ne _ events)
                    λ es e.
                      let made = or_status-eq-ok Status.internal_server_error events es e in
                      let (order, found) = cancelled_order ctx app order_id signed.user_info made in
                      let (s', a, _, _, _, _) =
                        cancel_order_credits ctx.externals app.orderbook order_id signed.user_info
                          order "" 0 found made in
                      commit_ne signed.user_info es _ _ s' a

  execute_deposit-ne-spoiled :
      (salt : Bytes) (request : PendingDeposit)
      → execute_deposit ctx app salt request ≢ err Failure.spoiled
  unfolding execute_deposit
  execute_deposit-ne-spoiled salt request =
      chain_ne
        (ok_or (get_symbol_from_contract_name ctx.asset_service request.contract_name)
          (Failure.refused Status.internal_server_error))
        _ (ok_or_ne _ _)
        λ symbol _.
          chain_ne (refuse_if (not (ltb request.amount u64_mod)) Status.internal_server_error) _
            (refuse_if_ne _ _)
            λ _ _.
              let u = known_or_new app.orderbook request.sender salt in
              let events = Accounts.deposit ctx.externals app.orderbook symbol request.amount u in
              chain_ne (or_status Status.internal_server_error events) _ (or_status_ne _ events)
                λ es e.
                  let (s', a, _, _, _) =
                    deposit_credits ctx.externals app.orderbook symbol request.amount u "" 0
                      (or_status-eq-ok Status.internal_server_error events es e) in
                  chain_ne
                    (commit ctx app u es (PermissionedOrderbookAction.deposit symbol request.amount)
                      empty_input)
                    _ (commit_ne u es _ _ s' a) λ _ _ h. cc

  -- Cancellations, withdrawals and the deposits of the bridge are applied as wholes: none stops
  -- after a part of its events.
  pub funds_as_wholes :
      (stored : String → Option UserInfo) (headers : Headers) (order_id : OrderId)
      (request : WithdrawRequest) (salt : Bytes) (deposit : PendingDeposit)
      → (cancel_order ctx stored app headers order_id ≢ err Failure.spoiled)
        × (withdraw ctx stored app headers request ≢ err Failure.spoiled)
        × (execute_deposit ctx app salt deposit ≢ err Failure.spoiled)
  funds_as_wholes stored headers order_id request salt deposit = (
    cancel_order-ne-spoiled stored headers order_id,
    withdraw-ne-spoiled stored headers request,
    execute_deposit-ne-spoiled salt deposit,
  )
