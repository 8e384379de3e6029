-- ===== src/OrderManager/Matching/Priority.antt =====
-- Which resting orders an incoming order trades with in `execute_order_dry_run`.
use hyliquid.Prelude.{
  ℕ, ◌-◌, ◌≡◌, refl, false, List, [], ◌∷◌, ◌++◌, map, ok, ok-injective, sym, ap, if◌then◌else◌,
  ◌==◌, string_eq, All,
}
use hyliquid.Types.{OrderId, OrderSide, Order, OrderManager, OrderbookEvent}
use hyliquid.Errors.{Result}
use hyliquid.OrderManager.Matching.{Flow}
use hyliquid.OrderManager.Matching.Cases.{reduced, Matched, match_one-Matched}
use hyliquid.OrderManager.Matching.Flat.{match_flat}
use hyliquid.OrderManager.Matching.Fills.{
  eligible, eligible_deferred, eligible_kept, return_inserted_inv, events_of, events_of-pushed,
}

-- The resting orders that some events trade with, in the order of the trades.
unfoldable pub maker_ids : List OrderbookEvent → List OrderId
maker_ids [] = []
maker_ids (OrderbookEvent.order_executed id taker _ ∷ events) =
    if id == taker then maker_ids events else id ∷ maker_ids events
maker_ids (OrderbookEvent.order_update id _ _ _ _ ∷ events) = id ∷ maker_ids events
maker_ids (event ∷ events) = maker_ids events

-- No queued order has this id.
abbrev pub NotQueued : OrderId → List (ℕ × OrderId) → Type 0
NotQueued id entries = All (λ entry. (entry.1 == id) ≡ false) entries

-- The events trade with the first of these resting orders, in their order, and with no other.
abbrev pub TradesFirst : List (ℕ × OrderId) → List OrderbookEvent → Type 0
TradesFirst entries events =
    (rest : List OrderId) × (map (λ entry. entry.1) entries ≡ maker_ids events ++ rest)

module _ (m : OrderManager) (side : OrderSide) where
  abbrev InOrder : List (ℕ × OrderId) → Order → Flow → Type 0
  InOrder entries current flow = TradesFirst (eligible side current.price entries) (events_of flow)

  Matched-InOrder :
      (entry : ℕ × OrderId) (entries : List (ℕ × OrderId)) (rest : Order → Result Flow)
      (current : Order) (flow : Flow)
      → NotQueued current.order_id (entry ∷ entries)
      → ((c : Order) (flow' : Flow)
          → NotQueued c.order_id entries
          → rest c ≡ ok flow'
          → InOrder entries c flow')
      → Matched m side entry.0 entry.1 rest current flow
      → InOrder (entry ∷ entries) current flow
  unfolding maker_ids events_of
  Matched-InOrder entry entries rest current flow other ih (Matched.deferred d r) =
      rw (return_inserted_inv current r, eligible_deferred side current.price entry entries d)
        ([], refl)
  Matched-InOrder entry entries rest current flow other ih (Matched.partial existing e d lt p) =
      rw (p, eligible_kept side current.price entry entries d)
        (map (λ e. e.1) (eligible side current.price entries), refl)
  Matched-InOrder entry entries rest current flow other ih (Matched.exact existing e d eq p) =
      rw (p, eligible_kept side current.price entry entries d, other.0)
        (map (λ e. e.1) (eligible side current.price entries), refl)
  Matched-InOrder entry entries rest current flow other ih
        (Matched.full existing flow' e d lt r p) =
      let (later, q) =
        ih (reduced current (current.quantity - existing.quantity)) flow' other.1 r in
      rw (p, events_of-pushed, eligible_kept side current.price entry entries d, other.0)
        (later, ap (◌∷◌ entry.1) q)

  pub match_flat-InOrder :
      (entries : List (ℕ × OrderId)) (current : Order) (flow : Flow)
      → NotQueued current.order_id entries
      → match_flat m side entries current ≡ ok flow
      → InOrder entries current flow
  unfolding match_flat eligible maker_ids events_of
  match_flat-InOrder [] current flow other h = rw (ok-injective (sym h), events_of) ([], refl)
  match_flat-InOrder (entry ∷ entries) current flow other h =
      Matched-InOrder entry entries (match_flat m side entries) current flow other
        (match_flat-InOrder entries)
        (match_one-Matched m side entry.0 entry.1 (match_flat m side entries) current h)
