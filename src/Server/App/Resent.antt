-- ===== src/Server/App/Resent.antt =====
-- A signed withdrawal that is sent again (server/src/app.rs, `withdraw`): the signature is checked
-- against the nonce that the database holds, and the database is behind the state in memory.
use hyliquid.Prelude.{
  ℕ, ◌+◌, ◌-◌, ◌*◌, ◌≤◌, true, Option, some, List, [], ◌∷◌, ◌++◌, ◌≡◌, refl, sym, ◌∙◌, ap, ok,
  arith, Bytes, String, eqb_iff, string_eq, eq_iff, checked_add, ok-injective,
}
use hyliquid.Types.{UserInfo, ExecuteState, OrderbookEvent, Symbol}
use hyliquid.Actions.{PermissionedOrderbookAction}
use hyliquid.Externals.{Externals}
use hyliquid.State.Users.{get_key, get_balance, nonce_increment_event}
use hyliquid.State.Apply.{apply_events}
use hyliquid.State.Accounts
use hyliquid.State.Accounts.Effects.{balance_at, get_balance-eq-balance_at}
use hyliquid.State.Accounts.Outcomes.{withdraw_debits}
use hyliquid.Transaction.{withdraw_text}
use hyliquid.Server.App.{
  App, Router, Headers, commit, process_orderbook_action, write, write_events_of, next_id,
}
use hyliquid.Server.App.Handlers.{Signed, WithdrawRequest, check_signed, withdraw}
use hyliquid.Server.App.Commits.{commit-eq-ok}
use hyliquid.Server.App.SignedCommits.{withdraw-eq-ok}
use hyliquid.Server.App.SameOrder.{check_signed-eq-ok}

-- The events of a withdrawal depend on the state by the balance alone.
withdraw_elsewhere :
    (x : Externals) (s t : ExecuteState) (symbol : Symbol) (amount : ℕ) (u : UserInfo)
    {es : List OrderbookEvent}
    → Accounts.withdraw x s symbol amount u ≡ ok es
    → amount ≤ get_balance x t u symbol
    → Accounts.withdraw x t symbol amount u
      ≡ ok (
          OrderbookEvent.balance_updated u.user symbol (get_balance x t u symbol - amount)
          ∷ OrderbookEvent.nonce_incremented u.user (u.nonce + 1)
          ∷ [])
unfolding Accounts.withdraw nonce_increment_event checked_add
withdraw_elsewhere x s t symbol amount u h covered = ground arith

-- A withdrawal that the state accepts takes the amount from the balance of its user.
own_debit :
    (x : Externals) (s : ExecuteState) (symbol : Symbol) (amount : ℕ) (u : UserInfo)
    {es : List OrderbookEvent}
    → Accounts.withdraw x s symbol amount u ≡ ok es
    → (s' : ExecuteState) × (apply_events x s u es ≡ ok s')
      × (balance_at s' symbol (get_key x u) ≡ balance_at s symbol (get_key x u) - amount)
own_debit x s symbol amount u h =
    let (s', applied, _, debited, _, _) =
      withdraw_debits x s symbol amount u symbol (get_key x u) h in
    (s', applied, ground (arith, eq_iff symbol symbol, eqb_iff (get_key x u) (get_key x u)))

module _ (ctx : Router) (stored : String → Option UserInfo) (headers : Headers)
    (request : WithdrawRequest) where
  commit-bus_open :
      (app : App) (u : UserInfo) (es : List OrderbookEvent) (action : PermissionedOrderbookAction)
      (input : Bytes) (app' : App) (hash : ℕ)
      → commit ctx app u es action input ≡ ok (app', hash)
      → ctx.bus_open ≡ true
  unfolding commit process_orderbook_action write
  commit-bus_open app u es action input app' hash h = ground arith

  -- A covered withdrawal with a valid signature is accepted.
  withdraw_accepted :
      (app : App) (signed : Signed) (es : List OrderbookEvent) (s : ExecuteState)
      → check_signed ctx stored headers (withdraw_text request.symbol request.amount) ≡ ok signed
      → request.amount ≤ get_balance ctx.externals app.orderbook signed.user_info request.symbol
      → Accounts.withdraw ctx.externals app.orderbook request.symbol request.amount signed.user_info
        ≡ ok es
      → apply_events ctx.externals app.orderbook signed.user_info es ≡ ok s
      → ctx.bus_open ≡ true
      → (app' : App) × (hash : ℕ) × (withdraw ctx stored app headers request ≡ ok (app', hash))
        × (app'.orderbook ≡ s)
  unfolding withdraw commit process_orderbook_action write
  withdraw_accepted app signed es s c covered made applied taken =
      let message =
        write_events_of ctx signed.user_info es
          (PermissionedOrderbookAction.withdraw request.symbol request.amount request.destination)
          app.action_id_counter (ctx.encode_signed signed.signature signed.public_key) in
      (
        record {
          orderbook = s;
          action_id_counter = next_id app.action_id_counter;
          written = app.written ++ message ∷ [];
        },
        message.tx_hash,
        ground arith,
        refl,
      )

  -- A request that was accepted is accepted in a later state, if the balance covers it.
  accepted_later :
      (app app1 : App) (signed : Signed) (es : List OrderbookEvent)
      → check_signed ctx stored headers (withdraw_text request.symbol request.amount) ≡ ok signed
      → Accounts.withdraw ctx.externals app.orderbook request.symbol request.amount signed.user_info
        ≡ ok es
      → ctx.bus_open ≡ true
      → request.amount
        ≤ balance_at app1.orderbook request.symbol (get_key ctx.externals signed.user_info)
      → (app2 : App) × (hash : ℕ) × (withdraw ctx stored app1 headers request ≡ ok (app2, hash))
        × (balance_at app2.orderbook request.symbol (get_key ctx.externals signed.user_info)
            ≡ balance_at app1.orderbook request.symbol (get_key ctx.externals signed.user_info)
              - request.amount)
  accepted_later app app1 signed es c made taken covered =
      let x = ctx.externals in
      let u = signed.user_info in
      let covered' : request.amount ≤ get_balance x app1.orderbook u request.symbol =
        rw (get_balance-eq-balance_at x app1.orderbook u request.symbol) covered in
      let made1 =
        withdraw_elsewhere x app.orderbook app1.orderbook request.symbol request.amount u made
          covered' in
      let (s2, applied, debited) =
        own_debit x app1.orderbook request.symbol request.amount u made1 in
      let (app2, hash, accepted, state) =
        withdraw_accepted app1 signed _ s2 c covered' made1 applied taken in
      (
        app2,
        hash,
        accepted,
        ap (λ (t : ExecuteState). balance_at t request.symbol (get_key x u)) state ∙ debited,
      )

  -- While the database holds the same user, a request that was accepted is accepted again in the
  -- state that it left, if the balance before covered the amount twice, and then the amount has
  -- been taken twice.
  pub withdraw-again :
      (name : String) (u : UserInfo) (app app1 : App) (hash1 : ℕ)
      → headers.x_identity ≡ some name
      → stored name ≡ some u
      → withdraw ctx stored app headers request ≡ ok (app1, hash1)
      → 2 * request.amount ≤ balance_at app.orderbook request.symbol (get_key ctx.externals u)
      → (app2 : App) × (hash2 : ℕ) × (withdraw ctx stored app1 headers request ≡ ok (app2, hash2))
        × (balance_at app2.orderbook request.symbol (get_key ctx.externals u)
            ≡ balance_at app.orderbook request.symbol (get_key ctx.externals u)
              - 2 * request.amount)
  withdraw-again name u app app1 hash1 identity known h covered =
      let x = ctx.externals in
      let (signed, c, committed) = withdraw-eq-ok ctx app stored headers app1 hash1 request h in
      let (es, made, k) = committed in
      let action =
        PermissionedOrderbookAction.withdraw request.symbol request.amount request.destination in
      let input = ctx.encode_signed signed.signature signed.public_key in
      let (name', identity', known', _) =
        check_signed-eq-ok ctx stored headers (withdraw_text request.symbol request.amount) signed
          c in
      let same : signed.user_info ≡ u = cc in
      let same_key : get_key x signed.user_info ≡ get_key x u = ap (get_key x) same in
      let (s1, a1, debited) =
        own_debit x app.orderbook request.symbol request.amount signed.user_info made in
      let (applied, _, _, _) = commit-eq-ok ctx app signed.user_info es action input app1 hash1 k in
      let left : balance_at app1.orderbook request.symbol (get_key x signed.user_info)
          ≡ balance_at app.orderbook request.symbol (get_key x signed.user_info) - request.amount =
        ap (λ (t : ExecuteState). balance_at t request.symbol (get_key x signed.user_info))
          (ok-injective (sym applied ∙ a1))
        ∙ debited in
      let before = ap (balance_at app.orderbook request.symbol) same_key in
      let (app2, hash2, accepted, debited2) =
        accepted_later app app1 signed es c made
          (commit-bus_open app signed.user_info es action input app1 hash1 k) (omega arith) in
      (
        app2,
        hash2,
        accepted,
        (let after_ = ap (balance_at app2.orderbook request.symbol) same_key in omega arith),
      )
