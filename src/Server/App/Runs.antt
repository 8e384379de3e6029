-- ===== src/Server/App/Runs.antt =====
-- Single requests from end to end (server/src/app.rs): a cancellation that is accepted, and a
-- deposit for a name that is not known.
use hyliquid.Prelude.{
  ℕ, ◌+◌, ◌&&◌, Option, none, some, List, ◌≡◌, sym, ◌∙◌, ap, ok, err, >>=-elim, if◌then◌else◌,
  arith, Bytes, String, ◌==◌, string_eq, ok_or, ok_or-eq-ok, ok-injective, bytes_eq, eqb, lookup,
}
use hyliquid.Types.{UserInfo, ExecuteState, OrderbookEvent, Order, OrderId, Symbol, H256}
use hyliquid.Errors.{Error}
use hyliquid.Errors
use hyliquid.Actions.{PermissionedOrderbookAction}
use hyliquid.State.Users.{get_key, get_user_info, new_user}
use hyliquid.State.Accounts
use hyliquid.State.Accounts.{required_symbol}
use hyliquid.State.Accounts.Effects.{balance_at}
use hyliquid.State.Accounts.Outcomes.{cancel_order_credits}
use hyliquid.Transaction.{verify_user_signature_authorization, signed_message, cancel_text}
use hyliquid.Server.Requests.{PendingDeposit}
use hyliquid.Server.App.{App, Router, Status, Failure, Headers, known_or_new}
use hyliquid.Server.App.Bus.{execute_deposit}
use hyliquid.Server.App.Handlers.{Signed, cancel_order}
use hyliquid.Server.App.Commits.{commit-eq-ok}
use hyliquid.Server.App.SignedCommits.{cancel_order-eq-ok}
use hyliquid.Server.App.SameOrder.{check_signed-eq-ok}

same_state : {x : Errors.Result ExecuteState} {s t : ExecuteState} → x ≡ ok s → x ≡ ok t → s ≡ t
same_state p q = ok-injective (sym p ∙ q)

module _ (ctx : Router) (app : App) where
  pub cancelled_order :
      (order_id : OrderId) (u : UserInfo) {es : List OrderbookEvent}
      → Accounts.cancel_order ctx.externals app.orderbook order_id u ≡ ok es
      → (order : Order) × (lookup order_id app.orderbook.order_manager.orders ≡ some order)
  unfolding Accounts.cancel_order
  cancelled_order order_id u h =
      >>=-elim
        (ok_or (lookup order_id app.orderbook.order_manager.orders)
          (Error.order_not_found order_id))
        _ h
        λ order e _. (
          order,
          ok_or-eq-ok (lookup order_id app.orderbook.order_manager.orders)
              (Error.order_not_found order_id) e,
        )

module _ (ctx : Router) (stored : String → Option UserInfo) (app app' : App) (headers : Headers)
    (hash : ℕ) where
  -- A cancellation that is accepted was signed, by a session key of the user that the database holds
  -- for the identity, and the key of that user owns the order. The order leaves the book, and its
  -- quantity is added to the user's balance in the asset that the order locks; no other balance
  -- changes.
  pub cancel_order-owner :
      (order_id : OrderId)
      → cancel_order ctx stored app headers order_id ≡ ok (app', hash)
      → (name : String) × (signed : Signed) × (order : Order) × (headers.x_identity ≡ some name)
        × (stored name ≡ some signed.user_info)
        × (verify_user_signature_authorization ctx.externals signed.user_info signed.public_key
              (signed_message signed.user_info (cancel_text order_id))
              signed.signature
            ≡ ok tt)
        × (lookup order_id app.orderbook.order_manager.orders_owner
            ≡ some (get_key ctx.externals signed.user_info))
        × (lookup order_id app.orderbook.order_manager.orders ≡ some order)
        × (lookup order_id app'.orderbook.order_manager.orders ≡ none)
        × ((q : Symbol) (key : H256)
            → balance_at app'.orderbook q key ≡ (
                if required_symbol order == q && eqb (get_key ctx.externals signed.user_info) key
                then balance_at app.orderbook q key + order.quantity
                else balance_at app.orderbook q key))
  cancel_order-owner order_id h =
      let (signed, c, owned, committed) =
        cancel_order-eq-ok ctx app stored headers app' hash order_id h in
      let (es, made, k) = committed in
      let (name, identity, known, verified) =
        check_signed-eq-ok ctx stored headers (cancel_text order_id) signed c in
      let (order, found) = cancelled_order ctx app order_id signed.user_info made in
      let (applied, _, _, _) =
        commit-eq-ok ctx app signed.user_info es (PermissionedOrderbookAction.cancel order_id)
          (ctx.encode_signed signed.signature signed.public_key) app' hash k in
      let effects = λ (q : Symbol) (key : H256).
        cancel_order_credits ctx.externals app.orderbook order_id signed.user_info order q key found
          made in
      (
        name,
        signed,
        order,
        identity,
        known,
        verified,
        owned,
        found,
        (let (s', a, _, _, gone, _) = effects "" 0 in
            ap (λ (t : ExecuteState). lookup order_id t.order_manager.orders) (same_state applied a)
            ∙ gone),
        λ q key.
            let (s', a, credited, _, _, _) = effects q key in
            ap (λ (t : ExecuteState). balance_at t q key) (same_state applied a) ∙ credited,
      )

module _ (ctx : Router) (app : App) where
  -- A deposit of the bridge for a name that the order book does not know is refused, whatever the
  -- token, the amount and the new salt.
  pub execute_deposit-unknown :
      (salt : Bytes) (request : PendingDeposit)
      → lookup request.sender app.orderbook.users_info ≡ none
      → execute_deposit ctx app salt request ≡ err (Failure.refused Status.internal_server_error)
  unfolding execute_deposit known_or_new Accounts.deposit get_user_info new_user
  execute_deposit-unknown salt request unknown = ground arith
