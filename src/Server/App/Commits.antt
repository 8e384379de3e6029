-- ===== src/Server/App/Commits.antt =====
-- An accepted action and what it leaves (server/src/app.rs, the end of each handler).
use hyliquid.Prelude.{
  ℕ, not, some, List, [], ◌∷◌, ◌++◌, ◌≡◌, Result, ok, err, panic, ◌>>=◌, >>=-elim, ok_or-eq-ok,
  ok_or, unwrap, leb, ltb, ◌==◌, string_eq, arith, Bytes, ◌∙◌, u64_mod,
}
use hyliquid.Types.{UserInfo, OrderbookEvent, Symbol, Pair, PairInfo}
use hyliquid.Errors.{Error}
use hyliquid.Errors
use hyliquid.Actions.{PermissionedOrderbookAction}
use hyliquid.State.Apply.{apply_events}
use hyliquid.State.Assets
use hyliquid.State.Accounts
use hyliquid.Server.Requests.{PendingDeposit}
use hyliquid.Server.App.Bus.{execute_deposit}
use hyliquid.Server.Assets.{get_asset_from_contract_name, get_symbol_from_contract_name}
use hyliquid.Server.App.Handlers.{
  CreatePairRequest, refuse_if, session_key_status, create_pair, add_session_key, deposit,
}
use hyliquid.Server.App.{
  App, Router, Status, Failure, or_status, or_spoiled, Headers, from_headers, write,
  write_events_of, process_orderbook_action, commit, next_id, known_or_new, empty_input,
}

or_spoiled-eq-ok : {A : Type 0} (m : Result Error A) (a : A) → or_spoiled m ≡ ok a → m ≡ ok a
or_spoiled-eq-ok (ok v) a h = cc
or_spoiled-eq-ok (err e) a h = cc
or_spoiled-eq-ok panic a h = cc

pub or_status-eq-ok :
    {A : Type 0} (status : Status) (m : Result Error A) (a : A)
    → or_status status m ≡ ok a
    → m ≡ ok a
or_status-eq-ok status (ok v) a h = cc
or_status-eq-ok status (err e) a h = cc
or_status-eq-ok status panic a h = cc

session_key_status-eq-ok :
    {A : Type 0} (m : Result Error A) (a : A) → session_key_status m ≡ ok a → m ≡ ok a
unfolding session_key_status
session_key_status-eq-ok (ok v) a h = cc
session_key_status-eq-ok (err e) a h = cc
session_key_status-eq-ok panic a h = cc

module _ (ctx : Router) (app : App) where
  -- The events are applied, one message is written, and its number is taken.
  pub commit-eq-ok :
      (u : UserInfo) (es : List OrderbookEvent) (action : PermissionedOrderbookAction)
      (input : Bytes) (app' : App) (hash : ℕ)
      → commit ctx app u es action input ≡ ok (app', hash)
      → (apply_events ctx.externals app.orderbook u es ≡ ok app'.orderbook)
        × (app'.action_id_counter ≡ next_id app.action_id_counter)
        × (app'.written
            ≡ app.written ++ write_events_of ctx u es action app.action_id_counter input ∷ [])
        × (hash ≡ (write_events_of ctx u es action app.action_id_counter input).tx_hash)
  unfolding commit process_orderbook_action write
  commit-eq-ok u es action input app' hash h =
      (ground arith, ground arith, ground arith, ground arith)

  -- Events that an operation of the order book returned were committed.
  abbrev pub Commit :
      Errors.Result (List OrderbookEvent)
      → UserInfo
      → PermissionedOrderbookAction
      → Bytes
      → App
      → ℕ
      → Type 0
  Commit m u action input app' hash =
      (es : List OrderbookEvent) × (m ≡ ok es)
      × (commit ctx app u es action input ≡ ok (app', hash))

  pub committed :
      (status : Status) (m : Result Error (List OrderbookEvent)) (u : UserInfo)
      (action : PermissionedOrderbookAction) (input : Bytes) (app' : App) (hash : ℕ)
      → (or_status status m >>= λ es. commit ctx app u es action input) ≡ ok (app', hash)
      → Commit m u action input app' hash
  committed status m u action input app' hash h =
      >>=-elim (or_status status m) (λ es. commit ctx app u es action input) h
        λ es p k. (es, or_status-eq-ok status m es p, k)

  pub create_pair-eq-ok :
      (salt : Bytes) (headers : Headers) (request : CreatePairRequest) (app' : App) (hash : ℕ)
      → create_pair ctx app salt headers request ≡ ok (app', hash)
      → (u : UserInfo) × (pair : Pair) × (info : PairInfo) × Commit
          (Assets.create_pair app.orderbook pair info)
          u
          (PermissionedOrderbookAction.create_pair pair info)
          empty_input
          app'
          hash
  unfolding create_pair
  create_pair-eq-ok salt headers request app' hash h =
      >>=-elim (from_headers ctx headers) _ h λ auth _ h1.
        >>=-elim (refuse_if (request.base_contract == request.quote_contract) Status.bad_request) _
          h1
          λ _ _ h2.
            >>=-elim
              (ok_or (get_asset_from_contract_name ctx.asset_service request.base_contract)
                (Failure.refused Status.not_found))
              _ h2
              λ base_asset _ h3.
                >>=-elim
                  (ok_or (get_asset_from_contract_name ctx.asset_service request.quote_contract)
                    (Failure.refused Status.not_found))
                  _ h3
                  λ quote_asset _ h4.
                    >>=-elim (refuse_if (leb 20 base_asset.scale) Status.bad_request) _ h4 λ _ _ h5.
                      >>=-elim (refuse_if (leb 20 quote_asset.scale) Status.bad_request) _ h5
                        λ _ _ h6.
                          let info : PairInfo = record {
                            base = record {
                              scale = base_asset.scale;
                              contract_name = request.base_contract;
                            };
                            quote = record {
                              scale = quote_asset.scale;
                              contract_name = request.quote_contract;
                            };
                          } in
                          let pair : Pair = (base_asset.symbol, quote_asset.symbol) in
                          let u = known_or_new app.orderbook auth.identity salt in
                          (
                            u,
                            pair,
                            info,
                            committed Status.internal_server_error
                                (Assets.create_pair app.orderbook pair info) u
                                (PermissionedOrderbookAction.create_pair pair info) empty_input app'
                                hash h6,
                          )

  pub add_session_key-eq-ok :
      (salt : Bytes) (headers : Headers) (app' : App) (hash : ℕ)
      → add_session_key ctx app salt headers ≡ ok (app', hash)
      → (u : UserInfo) × (public_key : Bytes) × Commit
          (Accounts.add_session_key u public_key)
          u
          PermissionedOrderbookAction.add_session_key
          (ctx.encode_new_public_key public_key)
          app'
          hash
  unfolding add_session_key
  add_session_key-eq-ok salt headers app' hash h =
      >>=-elim (from_headers ctx headers) _ h λ auth _ h1.
        >>=-elim (unwrap auth.public_key) _ h1 λ public_key _ h2.
          let u = known_or_new app.orderbook auth.identity salt in
          >>=-elim (session_key_status (Accounts.add_session_key u public_key)) _ h2 λ es p h3. (
            u,
            public_key,
            (es, session_key_status-eq-ok (Accounts.add_session_key u public_key) es p, h3),
          )

  pub deposit-eq-ok :
      (salt : Bytes) (headers : Headers) (symbol : Symbol) (amount : ℕ) (app' : App) (hash : ℕ)
      → deposit ctx app salt headers symbol amount ≡ ok (app', hash)
      → (u : UserInfo) × Commit
          (Accounts.deposit ctx.externals app.orderbook symbol amount u)
          u
          (PermissionedOrderbookAction.deposit symbol amount)
          empty_input
          app'
          hash
  unfolding deposit
  deposit-eq-ok salt headers symbol amount app' hash h =
      >>=-elim (from_headers ctx headers) _ h λ auth _ h1.
        let u = known_or_new app.orderbook auth.identity salt in
        (
          u,
          committed Status.internal_server_error
              (Accounts.deposit ctx.externals app.orderbook symbol amount u) u
              (PermissionedOrderbookAction.deposit symbol amount) empty_input app' hash h1,
        )

  pub execute_deposit-eq-ok :
      (salt : Bytes) (request : PendingDeposit) (app' : App)
      → execute_deposit ctx app salt request ≡ ok app'
      → (symbol : Symbol) × (hash : ℕ) × (get_symbol_from_contract_name ctx.asset_service
            request.contract_name
          ≡ some symbol)
        × Commit
            (Accounts.deposit ctx.externals app.orderbook symbol request.amount
              (known_or_new app.orderbook request.sender salt))
            (known_or_new app.orderbook request.sender salt)
            (PermissionedOrderbookAction.deposit symbol request.amount)
            empty_input
            app'
            hash
  unfolding execute_deposit
  execute_deposit-eq-ok salt request app' h =
      >>=-elim
        (ok_or (get_symbol_from_contract_name ctx.asset_service request.contract_name)
          (Failure.refused Status.internal_server_error))
        _ h
        λ symbol known h1.
          >>=-elim (refuse_if (not (ltb request.amount u64_mod)) Status.internal_server_error) _ h1
            λ _ _ h2.
              let u = known_or_new app.orderbook request.sender salt in
              >>=-elim
                (or_status Status.internal_server_error
                  (Accounts.deposit ctx.externals app.orderbook symbol request.amount u))
                _ h2
                λ es p h3.
                  let action = PermissionedOrderbookAction.deposit symbol request.amount in
                  >>=-elim (commit ctx app u es action empty_input) _ h3 λ done e h4. (
                    symbol,
                    done.1,
                    ok_or-eq-ok
                        (get_symbol_from_contract_name ctx.asset_service request.contract_name)
                        (Failure.refused Status.internal_server_error) known,
                    (
                      es,
                      or_status-eq-ok Status.internal_server_error
                          (Accounts.deposit ctx.externals app.orderbook symbol request.amount u) es
                          p,
                      e ∙ cc h4,
                    ),
                  )
