-- ===== src/Server/App/SignedCommits.antt =====
-- The inversion of an accepted request that is signed (server/src/app.rs, `create_order`,
-- `cancel_order`, `withdraw`).
use hyliquid.Prelude.{
  ℕ, not, Option, some, List, ◌≡◌, ok, >>=-elim, fail_if-eq-ok, eqb_iff, sym, ap, ok_or-eq-ok,
  ok_or, ltb, eqb, string_eq, lookup, Bytes, String, ◌∙◌,
}
use hyliquid.Types.{UserInfo, OrderbookEvent, Order, OrderId}
use hyliquid.Errors.{Error}
use hyliquid.Errors
use hyliquid.Actions.{PermissionedOrderbookAction}
use hyliquid.State.Users.{get_key, get_balance}
use hyliquid.State.Accounts
use hyliquid.State.Settlement.{execute_order}
use hyliquid.Transaction.{create_order_text, cancel_text, withdraw_text}
use hyliquid.Server.App.Handlers.{
  WithdrawRequest, refuse_if, create_order, cancel_order, withdraw, Signed, check_signed,
}
use hyliquid.Server.App.{App, Router, Status, Failure, Headers}
use hyliquid.Server.App.Commits.{Commit, committed}

module _ (ctx : Router) (app : App) where
  module _ (stored : String → Option UserInfo) (headers : Headers) (app' : App) (hash : ℕ) where
    -- A signed request was committed: with its signature as the private input.
    abbrev pub SignedCommit :
        Bytes
        → (Signed → Errors.Result (List OrderbookEvent))
        → PermissionedOrderbookAction
        → Type 0
    SignedCommit text m action =
        (signed : Signed) × (check_signed ctx stored headers text ≡ ok signed)
        × Commit ctx app (m signed) signed.user_info action
            (ctx.encode_signed signed.signature signed.public_key) app' hash

    pub create_order-eq-ok :
        (request : Order)
        → create_order ctx stored app headers request ≡ ok (app', hash)
        → SignedCommit
            (create_order_text request.order_id)
            (λ signed. execute_order ctx.externals app.orderbook signed.user_info request)
            (PermissionedOrderbookAction.create_order request)
    unfolding create_order
    create_order-eq-ok request h =
        >>=-elim (check_signed ctx stored headers (create_order_text request.order_id)) _ h
          λ signed c h1. (
            signed,
            c,
            committed ctx app Status.bad_request
                (execute_order ctx.externals app.orderbook signed.user_info request)
                signed.user_info (PermissionedOrderbookAction.create_order request)
                (ctx.encode_signed signed.signature signed.public_key) app' hash h1,
          )

    -- The order has an owner, and it is the key of the caller.
    pub cancel_order-eq-ok :
        (order_id : OrderId)
        → cancel_order ctx stored app headers order_id ≡ ok (app', hash)
        → (signed : Signed) × (check_signed ctx stored headers (cancel_text order_id) ≡ ok signed)
          × (lookup order_id app.orderbook.order_manager.orders_owner
              ≡ some (get_key ctx.externals signed.user_info))
          × Commit ctx app
              (Accounts.cancel_order ctx.externals app.orderbook order_id signed.user_info)
              signed.user_info
              (PermissionedOrderbookAction.cancel order_id)
              (ctx.encode_signed signed.signature signed.public_key)
              app'
              hash
    unfolding cancel_order
    cancel_order-eq-ok order_id h =
        >>=-elim (check_signed ctx stored headers (cancel_text order_id)) _ h λ signed c h1.
          >>=-elim
            (ok_or (lookup order_id app.orderbook.order_manager.orders_owner)
              (Failure.refused Status.bad_request))
            _ h1
            λ order_owner o h2.
              >>=-elim
                (refuse_if (not (eqb (get_key ctx.externals signed.user_info) order_owner))
                  Status.unauthorized)
                _ h2
                λ _ g h3.
                  let owned =
                    ok_or-eq-ok (lookup order_id app.orderbook.order_manager.orders_owner)
                      (Failure.refused Status.bad_request) o in
                  let same = (eqb_iff (get_key ctx.externals signed.user_info) order_owner).0 (
                    fail_if-eq-ok (eqb (get_key ctx.externals signed.user_info) order_owner)
                      (Failure.refused Status.unauthorized) g) in
                  (
                    signed,
                    c,
                    owned ∙ ap some (sym same),
                    committed ctx app Status.internal_server_error
                        (Accounts.cancel_order ctx.externals app.orderbook order_id
                          signed.user_info)
                        signed.user_info (PermissionedOrderbookAction.cancel order_id)
                        (ctx.encode_signed signed.signature signed.public_key) app' hash h3,
                  )

    pub withdraw-eq-ok :
        (request : WithdrawRequest)
        → withdraw ctx stored app headers request ≡ ok (app', hash)
        → SignedCommit
            (withdraw_text request.symbol request.amount)
            (λ signed.
              Accounts.withdraw ctx.externals app.orderbook request.symbol request.amount
                signed.user_info)
            (PermissionedOrderbookAction.withdraw request.symbol request.amount request.destination)
    unfolding withdraw
    withdraw-eq-ok request h =
        >>=-elim (check_signed ctx stored headers (withdraw_text request.symbol request.amount)) _ h
          λ signed c h1.
            >>=-elim
              (refuse_if
                (ltb (get_balance ctx.externals app.orderbook signed.user_info request.symbol)
                  request.amount)
                Status.bad_request)
              _ h1
              λ _ _ h2. (
                signed,
                c,
                committed ctx app Status.internal_server_error
                    (Accounts.withdraw ctx.externals app.orderbook request.symbol request.amount
                      signed.user_info)
                    signed.user_info
                    (PermissionedOrderbookAction.withdraw request.symbol request.amount
                      request.destination)
                    (ctx.encode_signed signed.signature signed.public_key) app' hash h2,
              )
