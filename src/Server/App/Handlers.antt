-- ===== src/Server/App/Handlers.antt =====
-- The routes of the order book module (server/src/app.rs). The users that the database holds
-- (`user_service.get_user_info`) and the salt for a new user are arguments.
use hyliquid.Prelude.{
  ℕ, Bool, not, Option, none, some, [], Result, ok, err, panic, ◌>>=◌, ◌>>◌, fail_if, ok_or, unwrap,
  leb, ltb, eqb, lookup, ◌==◌, string_eq, Bytes, String,
}
use hyliquid.Types.{
  OrderId, Symbol, Pair, ContractName, Order, PairInfo, UserInfo, WithdrawDestination,
}
use hyliquid.Errors.{Error, session_key_exists}
use hyliquid.Actions.{PermissionedOrderbookAction}
use hyliquid.State.Escape.{orderbook_account_identity}
use hyliquid.State.Users.{get_key, get_balance, new_user}
use hyliquid.State.Assets
use hyliquid.State.Accounts
use hyliquid.State.Settlement.{execute_order}
use hyliquid.Transaction.{
  verify_user_signature_authorization, signed_message, create_order_text, cancel_text,
  withdraw_text,
}
use hyliquid.Server.Assets.{get_asset_from_contract_name}
use hyliquid.Server.App.{
  App, Router, Status, Failure, Answer, or_status, Headers, from_headers, known_or_new,
  BlobTransaction, OrderbookProverRequest, write, commit, empty_input,
}

pub record CreatePairRequest : Type 0 where
  pub base_contract : ContractName
  pub quote_contract : ContractName

pub record SubmitProverRequest : Type 0 where
  pub secret : String
  pub blob_tx : BlobTransaction
  pub prover_request : OrderbookProverRequest

pub record WithdrawRequest : Type 0 where
  pub symbol : Symbol
  pub amount : ℕ
  pub destination : WithdrawDestination

abbrev pub refuse_if : Bool → Status → Answer (Unit {0})
refuse_if test status = fail_if test (Failure.refused status)

-- The error of a session key that is there already is told from the others.
unfoldable pub key_status : Error → Status
key_status session_key_exists = Status.not_modified
key_status _ = Status.internal_server_error

unfoldable pub session_key_status : {A : Type 0} → Result Error A → Answer A
session_key_status (ok a) = ok a
session_key_status (err e) = err (Failure.refused (key_status e))
session_key_status panic = panic

module _ (ctx : Router) where
  unfoldable pub create_pair : App → (salt : Bytes) → Headers → CreatePairRequest → Answer (App × ℕ)
  unfolding from_headers known_or_new commit
  create_pair app salt headers request = do
    auth ← from_headers ctx headers
    refuse_if (request.base_contract == request.quote_contract) Status.bad_request
    base_asset ←
        ok_or (get_asset_from_contract_name ctx.asset_service request.base_contract)
          (Failure.refused Status.not_found)
    quote_asset ←
        ok_or (get_asset_from_contract_name ctx.asset_service request.quote_contract)
          (Failure.refused Status.not_found)
    refuse_if (leb 20 base_asset.scale) Status.bad_request
    refuse_if (leb 20 quote_asset.scale) Status.bad_request
    let info : PairInfo = record {
      base = record { scale = base_asset.scale; contract_name = request.base_contract };
      quote = record { scale = quote_asset.scale; contract_name = request.quote_contract };
    }
    let pair : Pair = (base_asset.symbol, quote_asset.symbol)
    let user_info = known_or_new app.orderbook auth.identity salt
    events ← or_status Status.internal_server_error (Assets.create_pair app.orderbook pair info)
    commit ctx app user_info events (PermissionedOrderbookAction.create_pair pair info) empty_input

  unfoldable pub add_session_key : App → (salt : Bytes) → Headers → Answer (App × ℕ)
  unfolding from_headers known_or_new commit session_key_status
  add_session_key app salt headers = do
    auth ← from_headers ctx headers
    public_key ← unwrap auth.public_key
    let user_info = known_or_new app.orderbook auth.identity salt
    events ← session_key_status (Accounts.add_session_key user_info public_key)
    commit ctx app user_info events PermissionedOrderbookAction.add_session_key
        (ctx.encode_new_public_key public_key)

  unfoldable pub deposit : App → (salt : Bytes) → Headers → Symbol → ℕ → Answer (App × ℕ)
  unfolding from_headers known_or_new commit
  deposit app salt headers symbol amount = do
    auth ← from_headers ctx headers
    let user_info = known_or_new app.orderbook auth.identity salt
    events ←
        or_status Status.internal_server_error
          (Accounts.deposit ctx.externals app.orderbook symbol amount user_info)
    commit ctx app user_info events (PermissionedOrderbookAction.deposit symbol amount) empty_input

-- A request that is signed: the user as the database holds it, the key and the signature.
pub record Signed : Type 0 where
  pub user_info : UserInfo
  pub public_key : Bytes
  pub signature : Bytes

module _ (ctx : Router) (stored : String → Option UserInfo) where
  -- The head of the three signed routes; `text` is what is signed after name and nonce.
  unfoldable pub check_signed : Headers → (text : Bytes) → Answer Signed
  unfolding from_headers signed_message verify_user_signature_authorization
  check_signed headers text = do
    auth ← from_headers ctx headers
    public_key ← unwrap auth.public_key
    signature ← unwrap auth.signature
    user_info ← ok_or (stored auth.identity) (Failure.refused Status.not_found)
    or_status Status.bad_request (
        verify_user_signature_authorization ctx.externals user_info public_key
          (signed_message user_info text) signature)
    ok (record { user_info = user_info; public_key = public_key; signature = signature })

  unfoldable pub create_order : App → Headers → Order → Answer (App × ℕ)
  unfolding check_signed create_order_text commit
  create_order app headers request = do
    signed ← check_signed headers (create_order_text request.order_id)
    events ←
        or_status Status.bad_request
          (execute_order ctx.externals app.orderbook signed.user_info request)
    commit ctx app signed.user_info events (PermissionedOrderbookAction.create_order request)
        (ctx.encode_signed signed.signature signed.public_key)

  unfoldable pub cancel_order : App → Headers → OrderId → Answer (App × ℕ)
  unfolding check_signed cancel_text commit get_key
  cancel_order app headers order_id = do
    signed ← check_signed headers (cancel_text order_id)
    order_owner ←
        ok_or (lookup order_id app.orderbook.order_manager.orders_owner)
          (Failure.refused Status.bad_request)
    refuse_if (not (eqb (get_key ctx.externals signed.user_info) order_owner)) Status.unauthorized
    events ←
        or_status Status.internal_server_error
          (Accounts.cancel_order ctx.externals app.orderbook order_id signed.user_info)
    commit ctx app signed.user_info events (PermissionedOrderbookAction.cancel order_id)
        (ctx.encode_signed signed.signature signed.public_key)

  unfoldable pub withdraw : App → Headers → WithdrawRequest → Answer (App × ℕ)
  unfolding check_signed withdraw_text commit get_balance
  withdraw app headers request = do
    signed ← check_signed headers (withdraw_text request.symbol request.amount)
    refuse_if
        (ltb (get_balance ctx.externals app.orderbook signed.user_info request.symbol)
          request.amount)
        Status.bad_request
    events ← or_status Status.internal_server_error (
        Accounts.withdraw ctx.externals app.orderbook request.symbol request.amount
          signed.user_info)
    commit ctx app signed.user_info events
        (PermissionedOrderbookAction.withdraw request.symbol request.amount request.destination)
        (ctx.encode_signed signed.signature signed.public_key)

module _ (ctx : Router) where
  unfoldable pub get_nonce : App → Headers → Answer ℕ
  unfolding from_headers
  get_nonce app headers = do
    auth ← from_headers ctx headers
    ok (elim (lookup auth.identity app.orderbook.users_info) [
      | none ↦ 0
      | some user_info ↦ user_info.nonce
    ])

  unfoldable pub submit_prover_request : App → SubmitProverRequest → Answer (App × ℕ)
  unfolding write
  submit_prover_request app request = do
    refuse_if (not (request.secret == ctx.admin_secret)) Status.unauthorized
    let tx_hash = ctx.hashed request.blob_tx
    refuse_if (not (eqb tx_hash request.prover_request.tx_hash)) Status.bad_request
    app' ← write ctx app (record {
      user = new_user orderbook_account_identity [];
      tx_hash = tx_hash;
      blob_tx = request.blob_tx;
      prover_request = request.prover_request;
    })
    ok (app', tx_hash)
