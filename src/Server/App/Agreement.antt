-- ===== src/Server/App/Agreement.antt =====
-- The server against the contract (server/src/app.rs and contracts/orderbook/src/transaction.rs):
-- both make events of the same action, and the contract has to make those that the server wrote.
use hyliquid.Prelude.{
  List, [], ◌∷◌, ◌++◌, ◌≡◌, ◌⊎◌, inl, inr, refl, ok, >>=-elim, Bytes, string_eq, bytes_eq, Map,
}
use mathlib.Core.List.Perm
use hyliquid.Types.{UserInfo, OrderbookEvent, ExecuteState, Symbol, H256}
use hyliquid.Externals.{Externals}
use hyliquid.State.Accounts
use hyliquid.State.Users.{get_key}
use hyliquid.State.Settlement.Reordered.{
  IsReordered, SameAccounts, SameEvents, with_order, execute_order-with_order,
}
use hyliquid.Actions.{PermissionedOrderbookAction}
use hyliquid.Transaction.{
  check_price, authorize, generate_permissioned_execution_events,
  verify_user_signature_authorization, create_order_text,
}
use hyliquid.Server.App.{App, Router, WriteEvents}
use hyliquid.Server.App.Submissions.{submission}
use hyliquid.Server.App.Steps.{Step}
use hyliquid.Server.App.SameOrder.{ReadsBack, PriceChecked, AgreesInOrder, Step-AgreesInOrder}

-- The contract with another order of the touched accounts makes the same events, in any order.
generate-with_order :
    (x : Externals) (order : Map Symbol (List H256) → Map Symbol (List H256))
    → ((touched : Map Symbol (List H256))
        → IsReordered SameAccounts (x.touched_order touched) (order touched))
    → (s : ExecuteState) (u : UserInfo) (action : PermissionedOrderbookAction) (input : Bytes)
      (es : List OrderbookEvent)
    → generate_permissioned_execution_events x s u action input ≡ ok es
    → SameEvents (generate_permissioned_execution_events (with_order x order) s u action input) es
unfolding generate_permissioned_execution_events Accounts.deposit Accounts.withdraw
    Accounts.cancel_order authorize verify_user_signature_authorization get_key
generate-with_order x order same s u (PermissionedOrderbookAction.create_order created) input es h =
    >>=-elim (check_price created) _ h λ _ p h1.
      >>=-elim (authorize x u (create_order_text created.order_id) input) _ h1 λ _ q h2.
        let (es', e, perm) = execute_order-with_order x order same s u created es h2 in
        (es', rw (p, q, e) refl, perm)
generate-with_order x order same s u action input es h = (es, h, Perm.refl es)

module _ (ctx : Router) (order : Map Symbol (List H256) → Map Symbol (List H256)) where
  -- Server and contract both go through the same touched accounts, each in an order of its own.
  abbrev pub SameTouched : Type 0
  SameTouched =
      (touched : Map Symbol (List H256))
      → IsReordered SameAccounts (ctx.externals.touched_order touched) (order touched)

  -- What a step wrote, and what the contract makes of it on the state before: the same events, in
  -- any order.
  abbrev pub Agrees : App → App → Type 0
  Agrees app app' =
      (app' ≡ app)
      ⊎ ((message : WriteEvents) × (app'.written ≡ app.written ++ message ∷ [])
          × SameEvents
              (generate_permissioned_execution_events (with_order ctx.externals order) app.orderbook
                message.prover_request.user_info message.prover_request.orderbook_action
                message.prover_request.action_private_input)
              message.prover_request.events)

  -- A step of the module's own actions agrees. A prover request leaves the memory alone and writes
  -- its message as it was given, with the events that its sender chose.
  abbrev pub Outcome : {app app' : App} → Step ctx app app' → Type 0
  Outcome (Step.prover_request_submitted app app' request hash _) =
      app' ≡ record app { written = app.written ++ submission ctx request ∷ [] }
  Outcome {app} {app'} _ = Agrees app app'

  module _ (reads : ReadsBack ctx) (same : SameTouched) where
    AgreesInOrder-Agrees : {app app' : App} → AgreesInOrder ctx reads app app' → Agrees app app'
    AgreesInOrder-Agrees (inl unchanged) = inl unchanged
    AgreesInOrder-Agrees {app} (inr (message, sent, made)) =
        let request = message.prover_request in
        inr (
          message,
          sent,
          generate-with_order ctx.externals order same app.orderbook request.user_info
              request.orderbook_action request.action_private_input request.events made,
        )

    -- If private inputs are read back as they were written, and server and contract go through the
    -- same touched accounts, in any order, then each accepted request, with the price of a new order
    -- checked, has this outcome: a prover request changes nothing but that its message is written as
    -- it was given; any other request changes nothing or writes one message, and the contract makes
    -- the events of the message, in any order, from its user, action and private input on the state
    -- before.
    pub Step-Agrees : {app app' : App} (st : Step ctx app app') → PriceChecked st → Outcome st
    Step-Agrees (Step.prover_request_submitted app app' request hash h) c =
        Step-AgreesInOrder ctx reads (Step.prover_request_submitted app app' request hash h) c
    Step-Agrees (Step.pair_created app app' salt headers request hash h) c =
        AgreesInOrder-Agrees
          (Step-AgreesInOrder ctx reads (Step.pair_created app app' salt headers request hash h) c)
    Step-Agrees (Step.session_key_added app app' salt headers hash h) c =
        AgreesInOrder-Agrees
          (Step-AgreesInOrder ctx reads (Step.session_key_added app app' salt headers hash h) c)
    Step-Agrees (Step.deposited app app' salt headers symbol amount hash h) c =
        AgreesInOrder-Agrees (
          Step-AgreesInOrder ctx reads (Step.deposited app app' salt headers symbol amount hash h)
            c)
    Step-Agrees (Step.order_created app app' stored headers request hash h) c =
        AgreesInOrder-Agrees (
          Step-AgreesInOrder ctx reads (Step.order_created app app' stored headers request hash h)
            c)
    Step-Agrees (Step.order_cancelled app app' stored headers order_id hash h) c =
        AgreesInOrder-Agrees (
          Step-AgreesInOrder ctx reads
            (Step.order_cancelled app app' stored headers order_id hash h) c)
    Step-Agrees (Step.withdrawn app app' stored headers request hash h) c =
        AgreesInOrder-Agrees
          (Step-AgreesInOrder ctx reads (Step.withdrawn app app' stored headers request hash h) c)
    Step-Agrees (Step.deposit_executed app app' salt request h) c =
        AgreesInOrder-Agrees
          (Step-AgreesInOrder ctx reads (Step.deposit_executed app app' salt request h) c)
    Step-Agrees (Step.withdraw_executed app app' request h) c =
        AgreesInOrder-Agrees
          (Step-AgreesInOrder ctx reads (Step.withdraw_executed app app' request h) c)
