-- ===== src/Transaction/Authorization.antt =====
-- The signature and the nonce of the signed actions (contracts/orderbook/src/transaction.rs).
use hyliquid.Prelude.{
  ℕ, ◌+◌, ◌≡◌, true, Option, none, some, List, [], ◌∷◌, ◌++◌, ok, arith, contains, Bytes, bytes_eq,
  >>=-eq-ok, >>=-elim, ok_or-eq-ok, ok-injective, sym, ap, ◌∙◌, lookup, unwrap, map_err-eq-ok,
  string_eq, ok_or, map_err, checked_add,
}
use hyliquid.Types.{OrderId, Symbol, Order, UserInfo, ExecuteState, OrderbookEvent}
use hyliquid.Errors.{generate_events, apply_events_failed, deserialize, signature_check}
use hyliquid.Actions.{PermissionedOrderbookAction}
use hyliquid.Externals.{Externals}
use hyliquid.State.Users.{nonce_increment_event}
use hyliquid.State.Accounts.{withdraw, cancel_order}
use hyliquid.State.Accounts.Effects.{nonce_of, nonce_of-apply_nonce_incremented}
use hyliquid.State.Accounts.Outcomes.{withdraw_events, cancel_order_events}
use hyliquid.State.Settlement.{pow10, settle, balance_events, execute_order}
use hyliquid.OrderManager.Matching.{execute_order_dry_run}
use hyliquid.State.Users.{get_key, get_user_names}
use hyliquid.State.Apply.{
  apply_one, apply_each, apply_events_with_mode, apply_events_preserving_zeroed_orders,
}
use hyliquid.Transaction.{
  signed_message, create_order_text, cancel_text, withdraw_text, verify_signature,
  verify_user_signature_authorization, authorize, check_price,
  generate_permissioned_execution_events, execute_permissioned_action,
}

-- The text that a user signs for an action, for those actions that want a signature.
unfoldable pub signed_text : PermissionedOrderbookAction → Option Bytes
signed_text (PermissionedOrderbookAction.create_order order) =
    some (create_order_text order.order_id)
signed_text (PermissionedOrderbookAction.cancel order_id) = some (cancel_text order_id)
signed_text (PermissionedOrderbookAction.withdraw symbol amount _) =
    some (withdraw_text symbol amount)
signed_text _ = none

-- The private input holds a session key of the user and a signature by it.
abbrev pub IsAuthorized : Externals → UserInfo → (rest input : Bytes) → Type 0
IsAuthorized x u rest input =
    (signature public_key : Bytes) × (x.decode_signed input ≡ some (signature, public_key))
    × (contains public_key u.session_keys ≡ true)
    × (verify_signature x signature (signed_message u rest) public_key ≡ true)

-- The last event counts the nonce up.
abbrev pub EndsWithNonce : UserInfo → List OrderbookEvent → Type 0
EndsWithNonce u events =
    (before : List OrderbookEvent) × (events
      ≡ before ++ OrderbookEvent.nonce_incremented u.user (u.nonce + 1) ∷ [])

-- The last of some events that were applied was applied to a state.
apply_each_last :
    (x : Externals) (u : UserInfo) (s : ExecuteState) (before : List OrderbookEvent)
    (event : OrderbookEvent) {s' : ExecuteState}
    → apply_each x s u (before ++ event ∷ []) ≡ ok s'
    → (t : ExecuteState) × (apply_one x t u event ≡ ok s')
unfolding apply_each
apply_each_last x u s [] event h =
    let (t, p, r) = >>=-eq-ok (apply_one x s u event) _ h in (s, p ∙ r)
apply_each_last x u s (first ∷ before) event h =
    let (t, p, r) = >>=-eq-ok (apply_one x s u first) _ h in apply_each_last x u t before event r

module _ (x : Externals) (u : UserInfo) where
  verify_authorization :
      (public_key msg signature : Bytes)
      → verify_user_signature_authorization x u public_key msg signature ≡ ok tt
      → (contains public_key u.session_keys ≡ true)
        × (verify_signature x signature msg public_key ≡ true)
  unfolding verify_user_signature_authorization
  verify_authorization public_key msg signature h = (ground arith, ground arith)

  authorize-IsAuthorized :
      (rest input : Bytes) → authorize x u rest input ≡ ok tt → IsAuthorized x u rest input
  unfolding authorize
  authorize-IsAuthorized rest input h =
      let (signed, p, r) = >>=-eq-ok (ok_or (x.decode_signed input) deserialize) _ h in
      (
        signed.0,
        signed.1,
        ok_or-eq-ok _ _ p,
        (verify_authorization signed.1 (signed_message u rest) signed.0
            (map_err-eq-ok signature_check _ r)).0,
        (verify_authorization signed.1 (signed_message u rest) signed.0
            (map_err-eq-ok signature_check _ r)).1,
      )

  authorized :
      (text rest input : Bytes)
      → some text ≡ some rest
      → authorize x u text input ≡ ok tt
      → IsAuthorized x u rest input
  authorized text rest input e h =
      authorize-IsAuthorized rest input (ap (λ t. authorize x u t input) (sym same) ∙ h)
    where
      same : text ≡ rest
      same = cc

  nonce_event_inv :
      {event : OrderbookEvent}
      → nonce_increment_event u ≡ ok event
      → event ≡ OrderbookEvent.nonce_incremented u.user (u.nonce + 1)
  unfolding nonce_increment_event checked_add
  nonce_event_inv h = ground arith

  withdraw-EndsWithNonce :
      (s : ExecuteState) (symbol : Symbol) (amount : ℕ) {es : List OrderbookEvent}
      → withdraw x s symbol amount u ≡ ok es
      → EndsWithNonce u es
  withdraw-EndsWithNonce s symbol amount h = (_ ∷ [], (withdraw_events x s symbol amount u h).1)

  cancel_order-EndsWithNonce :
      (s : ExecuteState) (id : OrderId) {es : List OrderbookEvent}
      → cancel_order x s id u ≡ ok es
      → EndsWithNonce u es
  unfolding cancel_order
  cancel_order-EndsWithNonce s id h =
      let (order, p, r) = >>=-eq-ok (ok_or (lookup id s.order_manager.orders) _) _ h in
      (_ ∷ _ ∷ [], cancel_order_events x s id u order (ok_or-eq-ok _ _ p) h)

  execute_order-EndsWithNonce :
      (s : ExecuteState) (order : Order) {es : List OrderbookEvent}
      → execute_order x s u order ≡ ok es
      → EndsWithNonce u es
  unfolding execute_order
  execute_order-EndsWithNonce s order h =
      >>=-elim (ok_or (lookup order.pair.0 s.assets_info) _) _ h λ info _ h₁.
        >>=-elim (unwrap (pow10 info.scale)) _ h₁ λ base_scale _ h₂.
          >>=-elim (execute_order_dry_run s.order_manager order) _ h₂ λ order_events _ h₃.
            >>=-elim (settle base_scale (get_key x u) s.order_manager order.order_id _ order_events)
              _ h₃
              λ st _ h₄. >>=-elim (get_user_names x s st.user_keys) _ h₄ λ names _ h₅.
                >>=-elim
                  (balance_events names st.balance_changes (x.touched_order st.touched_accounts)) _
                  h₅
                  λ updates _ h₆. >>=-elim (nonce_increment_event u) _ h₆ λ nonce p h₇. (
                    order_events ++ updates,
                    sym (ok-injective h₇)
                        ∙ ap (λ e. order_events ++ updates ++ e ∷ []) (nonce_event_inv p),
                  )

  generate-IsAuthorized :
      (s : ExecuteState) (action : PermissionedOrderbookAction) (rest input : Bytes)
      {es : List OrderbookEvent}
      → signed_text action ≡ some rest
      → generate_permissioned_execution_events x s u action input ≡ ok es
      → IsAuthorized x u rest input × EndsWithNonce u es
  unfolding generate_permissioned_execution_events signed_text
  generate-IsAuthorized s (PermissionedOrderbookAction.create_order order) rest input e h =
      >>=-elim (check_price order) _ h λ _ _ h₁.
        >>=-elim (authorize x u (create_order_text order.order_id) input) _ h₁ λ _ p h₂. (
          authorized (create_order_text order.order_id) rest input e p,
          execute_order-EndsWithNonce s order h₂,
        )
  generate-IsAuthorized s (PermissionedOrderbookAction.cancel order_id) rest input e h =
      >>=-elim (authorize x u (cancel_text order_id) input) _ h λ _ p h₂.
        (authorized (cancel_text order_id) rest input e p, cancel_order-EndsWithNonce s order_id h₂)
  generate-IsAuthorized s (PermissionedOrderbookAction.withdraw symbol amount _) rest input e h =
      >>=-elim (authorize x u (withdraw_text symbol amount) input) _ h λ _ p h₂. (
        authorized (withdraw_text symbol amount) rest input e p,
        withdraw-EndsWithNonce s symbol amount h₂,
      )
  generate-IsAuthorized s _ rest input e h = cc

  -- The state after events that end so holds the next nonce.
  apply_counted :
      (s : ExecuteState) (events : List OrderbookEvent) {s' : ExecuteState}
      → EndsWithNonce u events
      → apply_events_preserving_zeroed_orders x s u events ≡ ok s'
      → nonce_of s' u.user ≡ some (u.nonce + 1)
  unfolding apply_events_preserving_zeroed_orders apply_events_with_mode apply_one
  apply_counted s events (before, e) h = >>=-elim (apply_each x s u events) _ h λ t p r.
      let (t', q) = apply_each_last x u s before _ (ap (apply_each x s u) (sym e) ∙ p) in
      ap (λ m. nonce_of m u.user) (sym (ok-injective r) ∙ sym (ok-injective q))
      ∙ nonce_of-apply_nonce_incremented x u t' (u.nonce + 1)

  -- A permissioned action that wants a signature and is executed comes with a signature by a
  -- session key of the user, over the name of the user, the nonce and the text of the action; and
  -- the state that it leaves holds the next nonce for the user.
  pub execute_permissioned_action-IsAuthorized :
      (s : ExecuteState) (action : PermissionedOrderbookAction) (rest input : Bytes)
      {s' : ExecuteState} {es : List OrderbookEvent}
      → signed_text action ≡ some rest
      → execute_permissioned_action x s u action input ≡ ok (s', es)
      → IsAuthorized x u rest input × (nonce_of s' u.user ≡ some (u.nonce + 1))
  unfolding execute_permissioned_action
  execute_permissioned_action-IsAuthorized s action rest input e h =
      >>=-elim (map_err generate_events (generate_permissioned_execution_events x s u action input))
        _ h
        λ events p h₁.
          >>=-elim
            (map_err apply_events_failed (apply_events_preserving_zeroed_orders x s u events)) _ h₁
            λ t q h₂. (
              (generate-IsAuthorized s action rest input e (map_err-eq-ok generate_events _ p)).0,
              ap (λ r. nonce_of r.0 u.user) (sym (ok-injective h₂))
                  ∙ apply_counted s events
                      (generate-IsAuthorized s action rest input e
                        (map_err-eq-ok generate_events _ p)).1
                      (map_err-eq-ok apply_events_failed _ q),
            )
