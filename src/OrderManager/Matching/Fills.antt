-- ===== src/OrderManager/Matching/Fills.antt =====
-- How much an incoming order trades in `execute_order_dry_run`.
use hyliquid.Prelude.{
  ℕ, ◌+◌, ◌-◌, ◌≡◌, refl, true, false, Bool, leb, not, Option, none, some, List, [], ◌∷◌, ◌++◌, ok,
  arith, lookup, string_eq, min, take_while, if◌then◌else◌, ◌==◌, eq_iff, ok-injective, sym,
}
use hyliquid.Types.{OrderId, OrderSide, Order, OrderManager, OrderbookEvent}
use hyliquid.Errors.{Result}
use hyliquid.OrderManager.Matching.{Flow, pushed, deferred_by, return_inserted}
use hyliquid.OrderManager.Matching.Cases.{executed_by, reduced, Matched, match_one-Matched}
use hyliquid.OrderManager.Matching.Flat.{match_flat}

-- The quantity that rests under an id.
unfoldable pub quantity_of : OrderManager → OrderId → ℕ
quantity_of m id = elim (lookup id m.orders) [ none ↦ 0 | some order ↦ order.quantity ]

-- The quantity that an event takes from a resting order. The event in which an order names itself
-- only says that the taker is done.
unfoldable pub fill : OrderManager → OrderbookEvent → ℕ
unfolding quantity_of
fill m (OrderbookEvent.order_executed id taker _) = if id == taker then 0 else quantity_of m id
fill m (OrderbookEvent.order_update _ _ executed _ _) = executed
fill m _ = 0

unfoldable pub filled : OrderManager → List OrderbookEvent → ℕ
unfolding fill
filled m [] = 0
filled m (event ∷ events) = fill m event + filled m events

-- The quantity that new resting orders bring to the book.
unfoldable pub created : List OrderbookEvent → ℕ
created [] = 0
created (OrderbookEvent.order_created order ∷ events) = order.quantity + created events
created (event ∷ events) = created events

-- Whether an order with this limit may trade at a price: a buyer pays no more than the limit, a
-- seller takes no less, and an order without a limit trades at any price.
unfoldable pub within_limit : OrderSide → Option ℕ → (existing : ℕ) → Bool
within_limit side none existing = true
within_limit OrderSide.bid (some price) existing = leb existing price
within_limit OrderSide.ask (some price) existing = leb price existing

within_limit-eq-not-deferred_by :
    (side : OrderSide) (price : Option ℕ) (existing : ℕ)
    → within_limit side price existing ≡ not (deferred_by side existing price)
unfolding within_limit deferred_by
within_limit-eq-not-deferred_by OrderSide.bid none existing = refl
within_limit-eq-not-deferred_by OrderSide.ask none existing = refl
within_limit-eq-not-deferred_by OrderSide.bid (some price) existing = ground arith
within_limit-eq-not-deferred_by OrderSide.ask (some price) existing = ground arith

-- The resting orders of a queue that an order with this limit may trade with.
unfoldable pub eligible : OrderSide → Option ℕ → List (ℕ × OrderId) → List (ℕ × OrderId)
unfolding take_while within_limit
eligible side price entries = take_while (λ entry. within_limit side price entry.0) entries

-- The quantity that a queue offers.
unfoldable pub available : OrderManager → List (ℕ × OrderId) → ℕ
unfolding quantity_of
available m [] = 0
available m (entry ∷ entries) = quantity_of m entry.1 + available m entries

pub filled-append :
    (m : OrderManager) (es es' : List OrderbookEvent)
    → filled m (es ++ es') ≡ filled m es + filled m es'
unfolding filled
filled-append m [] es' = omega arith
filled-append m (e ∷ es) es' = omega (arith, filled-append m es es')

pub created-append : (es es' : List OrderbookEvent) → created (es ++ es') ≡ created es + created es'
unfolding created
created-append [] es' = omega arith
created-append (OrderbookEvent.order_created order ∷ es) es' = omega (arith, created-append es es')
created-append (_ ∷ es) es' = created-append es es'

-- The events of a flow, and the quantity that is left to the taker when the function goes on.
unfoldable pub events_of : Flow → List OrderbookEvent
events_of (Flow.exhausted es _) = es
events_of (Flow.break_outer es _) = es
events_of (Flow.returned es) = es

pub events_of-pushed :
    (es : List OrderbookEvent) (flow : Flow) → events_of (pushed es flow) ≡ es ++ events_of flow
unfolding events_of pushed
events_of-pushed es (Flow.exhausted _ _) = refl
events_of-pushed es (Flow.break_outer _ _) = refl
events_of-pushed es (Flow.returned _) = refl

-- A successful insertion pushes the one event that creates the order.
pub return_inserted_inv :
    (current : Order) {flow : Flow}
    → return_inserted current ≡ ok flow
    → flow ≡ Flow.returned (OrderbookEvent.order_created current ∷ [])
unfolding return_inserted
return_inserted_inv current h = ground arith

pub eligible_deferred :
    (side : OrderSide) (price : Option ℕ) (entry : ℕ × OrderId) (entries : List (ℕ × OrderId))
    → deferred_by side entry.0 price ≡ true
    → eligible side price (entry ∷ entries) ≡ []
unfolding eligible take_while
eligible_deferred side price entry entries d =
    rw (within_limit-eq-not-deferred_by side price entry.0, d)

pub eligible_kept :
    (side : OrderSide) (price : Option ℕ) (entry : ℕ × OrderId) (entries : List (ℕ × OrderId))
    → deferred_by side entry.0 price ≡ false
    → eligible side price (entry ∷ entries) ≡ entry ∷ eligible side price entries
unfolding eligible take_while
eligible_kept side price entry entries d =
    rw (within_limit-eq-not-deferred_by side price entry.0, d)

module _ (m : OrderManager) where
  pub quantity_of_found :
      (id : OrderId) (existing : Order)
      → lookup id m.orders ≡ some existing
      → quantity_of m id ≡ existing.quantity
  unfolding quantity_of
  quantity_of_found id existing e = rw (e, quantity_of)

  -- A taker whose id holds no quantity is counted right, even where a resting order has its id.
  pub fill-executed :
      (id : OrderId) (existing current : Order)
      → quantity_of m current.order_id ≡ 0
      → lookup id m.orders ≡ some existing
      → fill m (executed_by id existing current) ≡ existing.quantity
  unfolding fill
  fill-executed id existing current fresh e =
      ground (arith, eq_iff id current.order_id, quantity_of_found id existing e)

module _ (m : OrderManager) (side : OrderSide) where
  -- What a run over `entries` fills, in terms of what they offer.
  abbrev FillsMost : List (ℕ × OrderId) → Order → Flow → Type 0
  FillsMost entries current flow =
      filled m (events_of flow)
      ≡ min current.quantity (available m (eligible side current.price entries))

  Matched-FillsMost :
      (entry : ℕ × OrderId) (entries : List (ℕ × OrderId)) (rest : Order → Result Flow)
      (current : Order) (flow : Flow)
      → quantity_of m current.order_id ≡ 0
      → ((c : Order) (flow' : Flow)
          → quantity_of m c.order_id ≡ 0
          → rest c ≡ ok flow'
          → FillsMost entries c flow')
      → Matched m side entry.0 entry.1 rest current flow
      → FillsMost (entry ∷ entries) current flow
  unfolding available filled events_of
  Matched-FillsMost entry entries rest current flow fresh ih (Matched.deferred d r) =
      rw (return_inserted_inv current r, eligible_deferred side current.price entry entries d)
        (omega arith)
  Matched-FillsMost entry entries rest current flow fresh ih (Matched.partial existing e d lt p) =
      rw (p, eligible_kept side current.price entry entries d)
        (omega (arith, quantity_of_found m entry.1 existing e))
  Matched-FillsMost entry entries rest current flow fresh ih (Matched.exact existing e d eq p) =
      rw (p, eligible_kept side current.price entry entries d)
        (omega (
          arith,
          quantity_of_found m entry.1 existing e,
          fill-executed m entry.1 existing current fresh e,
        ))
  Matched-FillsMost entry entries rest current flow fresh ih
        (Matched.full existing flow' e d lt r p) =
      let next = reduced current (current.quantity - existing.quantity) in
      rw (p, events_of-pushed, eligible_kept side current.price entry entries d)
        (omega (
          arith,
          quantity_of_found m entry.1 existing e,
          fill-executed m entry.1 existing current fresh e,
          ih next flow' fresh r,
        ))

  pub match_flat-FillsMost :
      (entries : List (ℕ × OrderId)) (current : Order) (flow : Flow)
      → quantity_of m current.order_id ≡ 0
      → match_flat m side entries current ≡ ok flow
      → FillsMost entries current flow
  unfolding match_flat eligible take_while available filled events_of
  match_flat-FillsMost [] current flow fresh h = rw (ok-injective (sym h), events_of) (omega arith)
  match_flat-FillsMost (entry ∷ entries) current flow fresh h =
      Matched-FillsMost entry entries (match_flat m side entries) current flow fresh
        (match_flat-FillsMost entries)
        (match_one-Matched m side entry.0 entry.1 (match_flat m side entries) current h)
