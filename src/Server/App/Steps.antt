-- ===== src/Server/App/Steps.antt =====
-- The accepted requests of the order book module as steps (server/src/app.rs).
use hyliquid.Prelude.{ℕ, Option, ◌≡◌, ok, Bytes, String, string_eq}
use hyliquid.Types.{UserInfo, Order, OrderId, Symbol}
use hyliquid.Server.Requests.{PendingDeposit, PendingWithdraw}
use hyliquid.Server.App.{App, Router, Headers}
use hyliquid.Server.App.Bus.{execute_deposit, execute_withdraw}
use hyliquid.Server.App.Handlers.{
  CreatePairRequest, WithdrawRequest, create_pair, add_session_key, deposit, create_order,
  cancel_order, withdraw, SubmitProverRequest, submit_prover_request,
}

-- The steps of the module: each accepted request, of a user, of the bridge or
-- of the administrator. The users that the
-- database holds may differ from step to step.
pub data Step (ctx : Router) : App → App → Type 0 where
  pair_created :
      (app app' : App) (salt : Bytes) (headers : Headers) (request : CreatePairRequest) (hash : ℕ)
      → create_pair ctx app salt headers request ≡ ok (app', hash)
      → Step ctx app app'
  session_key_added :
      (app app' : App) (salt : Bytes) (headers : Headers) (hash : ℕ)
      → add_session_key ctx app salt headers ≡ ok (app', hash)
      → Step ctx app app'
  deposited :
      (app app' : App) (salt : Bytes) (headers : Headers) (symbol : Symbol) (amount hash : ℕ)
      → deposit ctx app salt headers symbol amount ≡ ok (app', hash)
      → Step ctx app app'
  order_created :
      (app app' : App) (stored : String → Option UserInfo) (headers : Headers) (request : Order)
      (hash : ℕ)
      → create_order ctx stored app headers request ≡ ok (app', hash)
      → Step ctx app app'
  order_cancelled :
      (app app' : App) (stored : String → Option UserInfo) (headers : Headers) (order_id : OrderId)
      (hash : ℕ)
      → cancel_order ctx stored app headers order_id ≡ ok (app', hash)
      → Step ctx app app'
  withdrawn :
      (app app' : App) (stored : String → Option UserInfo) (headers : Headers)
      (request : WithdrawRequest) (hash : ℕ)
      → withdraw ctx stored app headers request ≡ ok (app', hash)
      → Step ctx app app'
  deposit_executed :
      (app app' : App) (salt : Bytes) (request : PendingDeposit)
      → execute_deposit ctx app salt request ≡ ok app'
      → Step ctx app app'
  withdraw_executed :
      (app app' : App) (request : PendingWithdraw)
      → execute_withdraw ctx app request ≡ ok app'
      → Step ctx app app'
  prover_request_submitted :
      (app app' : App) (request : SubmitProverRequest) (hash : ℕ)
      → submit_prover_request ctx app request ≡ ok (app', hash)
      → Step ctx app app'

pub data Steps (ctx : Router) (first : App) : App → Type 0 where
  no_step : Steps ctx first first
  step : {app app' : App} → Steps ctx first app → Step ctx app app' → Steps ctx first app'
