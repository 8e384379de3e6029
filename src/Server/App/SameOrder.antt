-- ===== src/Server/App/SameOrder.antt =====
-- The server against a contract that goes through the touched accounts in the same order
-- (server/src/app.rs and contracts/orderbook/src/transaction.rs).
use hyliquid.Prelude.{
  ℕ, Option, some, List, [], ◌∷◌, ◌++◌, ◌≡◌, ◌⊎◌, inl, inr, refl, ◌∙◌, ap, ok, >>=-elim, arith,
  Bytes, String, Bool-cases, ◌==◌, string_eq, ok_or, unwrap, ok_or-eq-ok, ok-injective, bytes_eq,
}
use mathlib.Core.Path.{subst}
use hyliquid.Types.{UserInfo, OrderbookEvent}
use hyliquid.Errors.{Error, signature_check}
use hyliquid.Errors
use hyliquid.Actions.{PermissionedOrderbookAction}
use hyliquid.Transaction.{
  check_price, authorize, generate_permissioned_execution_events, signed_message,
  verify_user_signature_authorization, create_order_text, cancel_text, withdraw_text,
}
use hyliquid.Server.Requests.{PendingWithdraw}
use hyliquid.Server.App.{
  App, Router, Status, Failure, Headers, AuthHeaders, or_status, from_headers, WriteEvents, write,
  write_events_of,
}
use hyliquid.Server.App.Bus.{execute_withdraw, transfer_events}
use hyliquid.Server.App.Submissions.{submission, submit_prover_request-eq-ok}
use hyliquid.Server.App.Handlers.{Signed, check_signed}
use hyliquid.Server.App.Commits.{
  or_status-eq-ok, Commit, commit-eq-ok, create_pair-eq-ok, add_session_key-eq-ok, deposit-eq-ok,
  execute_deposit-eq-ok,
}
use hyliquid.Server.App.SignedCommits.{create_order-eq-ok, cancel_order-eq-ok, withdraw-eq-ok}
use hyliquid.Server.App.Steps.{Step}

identity-eq-ok :
    (ctx : Router) (headers : Headers) (auth : AuthHeaders)
    → from_headers ctx headers ≡ ok auth
    → headers.x_identity ≡ some auth.identity
unfolding from_headers
identity-eq-ok ctx headers auth h = ground arith

-- A signed request that passed: its user is the one that the database holds for the identity, and
-- the signature is one of the text by a session key of the user.
pub check_signed-eq-ok :
    (ctx : Router) (stored : String → Option UserInfo) (headers : Headers) (text : Bytes)
    (signed : Signed)
    → check_signed ctx stored headers text ≡ ok signed
    → (name : String) × (headers.x_identity ≡ some name)
      × (stored name ≡ some signed.user_info)
      × (verify_user_signature_authorization ctx.externals signed.user_info signed.public_key
            (signed_message signed.user_info text)
            signed.signature
          ≡ ok tt)
unfolding check_signed from_headers
check_signed-eq-ok ctx stored headers text signed h =
    >>=-elim (from_headers ctx headers) _ h λ auth f h1.
      >>=-elim (unwrap auth.public_key) _ h1 λ public_key _ h2.
        >>=-elim (unwrap auth.signature) _ h2 λ signature _ h3.
          >>=-elim (ok_or (stored auth.identity) (Failure.refused Status.not_found)) _ h3 λ u p h4.
            let verified =
              verify_user_signature_authorization ctx.externals u public_key (signed_message u text)
                signature in
            >>=-elim (or_status Status.bad_request verified) _ h4 λ _ v h5.
              let known = ok_or-eq-ok (stored auth.identity) (Failure.refused Status.not_found) p in
              let checked = or_status-eq-ok Status.bad_request verified tt v in
              let same = ok-injective h5 in
              (
                auth.identity,
                identity-eq-ok ctx headers auth f,
                known ∙ ap (λ (s : Signed). some s.user_info) same,
                subst
                    (λ (s : Signed).
                      verify_user_signature_authorization ctx.externals s.user_info s.public_key
                        (signed_message s.user_info text) s.signature
                      ≡ ok tt)
                    same checked,
              )

-- What the encodings promise: a private input is read back as it was written.
abbrev pub ReadsBack : Router → Type 0
ReadsBack ctx =
    ((signature public_key : Bytes)
      → ctx.externals.decode_signed (ctx.encode_signed signature public_key)
        ≡ some (signature, public_key))
    × ((public_key : Bytes)
        → ctx.externals.decode_new_public_key (ctx.encode_new_public_key public_key)
          ≡ some public_key)

-- The price of a new order is as the contract wants it, in a step that creates one.
abbrev pub PriceChecked : {ctx : Router} {app app' : App} → Step ctx app app' → Type 0
PriceChecked (Step.order_created _ _ _ _ request _ _) = check_price request ≡ ok tt
PriceChecked _ = Unit {0}

module _ (ctx : Router) (reads : ReadsBack ctx) where
  -- What a step wrote, and what the contract makes of it on the state before.
  abbrev pub AgreesInOrder : App → App → Type 0
  AgreesInOrder app app' =
      (app' ≡ app)
      ⊎ ((message : WriteEvents) × (app'.written ≡ app.written ++ message ∷ [])
          × (generate_permissioned_execution_events ctx.externals app.orderbook
                message.prover_request.user_info message.prover_request.orderbook_action
                message.prover_request.action_private_input
              ≡ ok message.prover_request.events))

  abbrev pub OutcomeInOrder : {app app' : App} → Step ctx app app' → Type 0
  OutcomeInOrder (Step.prover_request_submitted app app' request hash _) =
      app' ≡ record app { written = app.written ++ submission ctx request ∷ [] }
  OutcomeInOrder {app} {app'} _ = AgreesInOrder app app'

  authorize-check_signed :
      (stored : String → Option UserInfo) (headers : Headers) (text : Bytes) (signed : Signed)
      → check_signed ctx stored headers text ≡ ok signed
      → authorize ctx.externals signed.user_info text
          (ctx.encode_signed signed.signature signed.public_key)
        ≡ ok tt
  unfolding authorize
  authorize-check_signed stored headers text signed h =
      rw
        (
          reads.0 signed.signature signed.public_key,
          (check_signed-eq-ok ctx stored headers text signed h).3,
        )
        refl

  Commit-AgreesInOrder :
      (app app' : App) (m : Errors.Result (List OrderbookEvent)) (u : UserInfo)
      (action : PermissionedOrderbookAction) (input : Bytes) (hash : ℕ)
      → Commit ctx app m u action input app' hash
      → generate_permissioned_execution_events ctx.externals app.orderbook u action input ≡ m
      → AgreesInOrder app app'
  unfolding write_events_of
  Commit-AgreesInOrder app app' m u action input hash (es, e, h) g =
      let (_, _, sent, _) = commit-eq-ok ctx app u es action input app' hash h in
      inr (write_events_of ctx u es action app.action_id_counter input, sent, g ∙ e)

  execute_withdraw-AgreesInOrder :
      (app app' : App) (request : PendingWithdraw)
      → execute_withdraw ctx app request ≡ ok app'
      → AgreesInOrder app app'
  unfolding execute_withdraw write transfer_events generate_permissioned_execution_events
  execute_withdraw-AgreesInOrder app app' request h =
      elim (Bool-cases (request.destination.network == "hyli")) [
        | inr elsewhere ↦ inl (ground arith)
        | inl here ↦ elim (Bool-cases ctx.bus_open) [
          | inr shut ↦ ground arith
          | inl taken ↦ inr (transfer_events ctx request app.action_id_counter, ground arith, refl)
        ]
      ]

  -- A step, for a contract that goes through the touched accounts in the same order.
  pub Step-AgreesInOrder :
      {app app' : App} (st : Step ctx app app') → PriceChecked st → OutcomeInOrder st
  unfolding generate_permissioned_execution_events
  Step-AgreesInOrder (Step.pair_created app app' salt headers request hash h) c =
      let (u, pair, info, k) = create_pair-eq-ok ctx app salt headers request app' hash h in
      Commit-AgreesInOrder app app' _ u _ _ hash k refl
  Step-AgreesInOrder (Step.session_key_added app app' salt headers hash h) c =
      let (u, key, k) = add_session_key-eq-ok ctx app salt headers app' hash h in
      Commit-AgreesInOrder app app' _ u _ _ hash k (rw (reads.1 key) refl)
  Step-AgreesInOrder (Step.deposited app app' salt headers symbol amount hash h) c =
      let (u, k) = deposit-eq-ok ctx app salt headers symbol amount app' hash h in
      Commit-AgreesInOrder app app' _ u _ _ hash k refl
  Step-AgreesInOrder (Step.order_created app app' stored headers request hash h) c =
      let (signed, s, k) = create_order-eq-ok ctx app stored headers app' hash request h in
      Commit-AgreesInOrder app app' _ signed.user_info _ _ hash k (
        rw (c, authorize-check_signed stored headers (create_order_text request.order_id) signed s)
          refl)
  Step-AgreesInOrder (Step.order_cancelled app app' stored headers order_id hash h) c =
      let (signed, s, _, k) = cancel_order-eq-ok ctx app stored headers app' hash order_id h in
      Commit-AgreesInOrder app app' _ signed.user_info _ _ hash k
        (rw (authorize-check_signed stored headers (cancel_text order_id) signed s) refl)
  Step-AgreesInOrder (Step.withdrawn app app' stored headers request hash h) c =
      let (signed, s, k) = withdraw-eq-ok ctx app stored headers app' hash request h in
      Commit-AgreesInOrder app app' _ signed.user_info _ _ hash k (
        rw
          (authorize-check_signed stored headers (withdraw_text request.symbol request.amount)
            signed s)
          refl)
  Step-AgreesInOrder (Step.deposit_executed app app' salt request h) c =
      let (symbol, hash, _, k) = execute_deposit-eq-ok ctx app salt request app' h in
      Commit-AgreesInOrder app app' _ _ _ _ hash k refl
  Step-AgreesInOrder (Step.withdraw_executed app app' request h) c =
      execute_withdraw-AgreesInOrder app app' request h
  Step-AgreesInOrder (Step.prover_request_submitted app app' request hash h) c =
      (submit_prover_request-eq-ok ctx app app' request hash h).2
