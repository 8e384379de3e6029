-- ===== src/State/Queues.antt =====
-- The queues of the book under `apply_events_preserving_zeroed_orders` of
-- contracts/orderbook/src/model.rs, which cleans nothing.
use hyliquid.Prelude.{◌≡◌, List, [], ◌∷◌, ok, >>=-elim, ok-injective, sym}
use hyliquid.Types.{UserInfo, ExecuteState, OrderbookEvent}
use hyliquid.Errors.{Result}
use hyliquid.Externals.{Externals}
use hyliquid.OrderManager.Events.{apply_event}
use hyliquid.OrderManager.Events.Queued.{QueuesKnown, apply_event-QueuesKnown}
use hyliquid.State.Users.{get_key}
use hyliquid.State.Assets.{register_asset}
use hyliquid.State.Assets.Scales.{register_asset-keeps}
use hyliquid.State.Apply.{
  apply_pair_created, event_user, update_balances, apply_session_key_added, apply_nonce_incremented,
  apply_order_event, apply_one, apply_each, apply_events_with_mode,
  apply_events_preserving_zeroed_orders,
}

-- A run that ends in a state with this book.
ends :
    {s' : ExecuteState} (t : ExecuteState)
    → ◌≡◌ {A = Result ExecuteState} (ok t) (ok s')
    → QueuesKnown t.order_manager
    → QueuesKnown s'.order_manager
ends t done known = rw (sym (ok-injective done)) known

module _ (x : Externals) (u : UserInfo) where
  apply_order_event-QueuesKnown :
      (event : OrderbookEvent) (s : ExecuteState) {s' : ExecuteState}
      → QueuesKnown s.order_manager
      → apply_order_event x s u event ≡ ok s'
      → QueuesKnown s'.order_manager
  unfolding apply_order_event
  apply_order_event-QueuesKnown event s h e =
      >>=-elim (apply_event s.order_manager (get_key x u) event) _ e λ m p r.
        ends (record s { order_manager = m }) r
          (apply_event-QueuesKnown s.order_manager (get_key x u) event h p)

  apply_one-QueuesKnown :
      (event : OrderbookEvent) (s : ExecuteState) {s' : ExecuteState}
      → QueuesKnown s.order_manager
      → apply_one x s u event ≡ ok s'
      → QueuesKnown s'.order_manager
  unfolding apply_one apply_pair_created update_balances apply_session_key_added
      apply_nonce_incremented
  apply_one-QueuesKnown (OrderbookEvent.pair_created pair info) s h e =
      >>=-elim (register_asset s pair.0 info.base) _ e λ s₁ p e₁.
        >>=-elim (register_asset s₁ pair.1 info.quote) _ e₁ λ s₂ q e₂. ends _ e₂ (
          rw
            (register_asset-keeps s₁ pair.1 info.quote q, register_asset-keeps s pair.0 info.base p)
            h)
  apply_one-QueuesKnown (OrderbookEvent.balance_updated user symbol amount) s h e =
      >>=-elim (event_user s u user) _ e λ owner p e₁. ends _ e₁ h
  apply_one-QueuesKnown (OrderbookEvent.session_key_added _ _ _ _) s h e = ends _ e h
  apply_one-QueuesKnown (OrderbookEvent.nonce_incremented _ _) s h e = ends _ e h
  apply_one-QueuesKnown (OrderbookEvent.order_created o) s h e =
      apply_order_event-QueuesKnown (OrderbookEvent.order_created o) s h e
  apply_one-QueuesKnown (OrderbookEvent.order_cancelled i p) s h e =
      apply_order_event-QueuesKnown (OrderbookEvent.order_cancelled i p) s h e
  apply_one-QueuesKnown (OrderbookEvent.order_executed i t p) s h e =
      apply_order_event-QueuesKnown (OrderbookEvent.order_executed i t p) s h e
  apply_one-QueuesKnown (OrderbookEvent.order_update i t a b p) s h e =
      apply_order_event-QueuesKnown (OrderbookEvent.order_update i t a b p) s h e

  apply_each-QueuesKnown :
      (events : List OrderbookEvent) (s : ExecuteState) {s' : ExecuteState}
      → QueuesKnown s.order_manager
      → apply_each x s u events ≡ ok s'
      → QueuesKnown s'.order_manager
  unfolding apply_each
  apply_each-QueuesKnown [] s h e = ends s e h
  apply_each-QueuesKnown (event ∷ events) s h e =
      >>=-elim (apply_one x s u event) _ e
        λ t p r. apply_each-QueuesKnown events t (apply_one-QueuesKnown event s h p) r

  -- Whatever events the contract applies: if every id in a queue of the book has an order on
  -- record before, then so it has after.
  pub apply_events_preserving_zeroed_orders-QueuesKnown :
      (events : List OrderbookEvent) (s : ExecuteState) {s' : ExecuteState}
      → QueuesKnown s.order_manager
      → apply_events_preserving_zeroed_orders x s u events ≡ ok s'
      → QueuesKnown s'.order_manager
  unfolding apply_events_preserving_zeroed_orders apply_events_with_mode
  apply_events_preserving_zeroed_orders-QueuesKnown events s h e =
      >>=-elim (apply_each x s u events) _ e λ t p r. ends t r (apply_each-QueuesKnown events s h p)
