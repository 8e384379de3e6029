-- ===== src/OrderManager/Matching/Remainder.antt =====
-- What becomes of the part of an order that finds no counterpart.
use hyliquid.Prelude.{
  ℕ, ◌-◌, ◌<◌, ◌≡◌, refl, List, [], ◌∷◌, ◌++◌, ok, arith, string_eq, ok-injective, sym, ap,
}
use mathlib.Core.Path.{subst}
use hyliquid.Types.{OrderId, OrderSide, Order, OrderManager, OrderbookEvent}
use hyliquid.Errors.{Result}
use hyliquid.OrderManager.Matching.{Flow, pushed}
use hyliquid.OrderManager.Matching.Cases.{executed_by, reduced, Matched, match_one-Matched}
use hyliquid.OrderManager.Matching.Flat.{match_flat}
use hyliquid.OrderManager.Matching.Fills.{
  quantity_of_found, eligible, eligible_deferred, eligible_kept, available, return_inserted_inv,
}

-- The orders that events put into the book.
unfoldable pub created_orders : List OrderbookEvent → List Order
created_orders [] = []
created_orders (OrderbookEvent.order_created order ∷ events) = order ∷ created_orders events
created_orders (event ∷ events) = created_orders events

pub created_orders-append :
    (es es' : List OrderbookEvent)
    → created_orders (es ++ es') ≡ created_orders es ++ created_orders es'
unfolding created_orders
created_orders-append [] es' = refl
created_orders-append (OrderbookEvent.order_created order ∷ es) es' =
    ap (◌∷◌ order) (created_orders-append es es')
created_orders-append (_ ∷ es) es' = created_orders-append es es'

-- At the end of the loops over a positive order, `n` is what remains of it: it stays with the
-- taker, or, where the function returns early, it is in the book.
abbrev pub Remains : Order → ℕ → Flow → Type 0
Remains current n (Flow.exhausted es c) = (created_orders es ≡ []) × (c ≡ reduced current n)
Remains current n (Flow.break_outer es c) = (created_orders es ≡ []) × (c ≡ reduced current n)
Remains current n (Flow.returned es) = (created_orders es ≡ reduced current n ∷ []) × (0 < n)

Remains-pushed :
    (current existing : Order) (k n : ℕ) (id : OrderId) (flow : Flow)
    → Remains (reduced current k) n flow
    → Remains current n (pushed (executed_by id existing current ∷ []) flow)
unfolding pushed created_orders
Remains-pushed current existing k n id (Flow.exhausted es c) h = h
Remains-pushed current existing k n id (Flow.break_outer es c) h = h
Remains-pushed current existing k n id (Flow.returned es) h = h

module _ (m : OrderManager) (side : OrderSide) where
  abbrev Leaves : List (ℕ × OrderId) → Order → Flow → Type 0
  Leaves entries current flow =
      Remains current (current.quantity - available m (eligible side current.price entries)) flow

  Matched-Leaves :
      (entry : ℕ × OrderId) (entries : List (ℕ × OrderId)) (rest : Order → Result Flow)
      (current : Order) (flow : Flow)
      → 0 < current.quantity
      → ((c : Order) (flow' : Flow) → 0 < c.quantity → rest c ≡ ok flow' → Leaves entries c flow')
      → Matched m side entry.0 entry.1 rest current flow
      → Leaves (entry ∷ entries) current flow
  unfolding available created_orders
  Matched-Leaves entry entries rest current flow lt ih (Matched.deferred d r) =
      rw (return_inserted_inv current r, eligible_deferred side current.price entry entries d)
        (ap (λ k. reduced current k ∷ []) (omega arith), omega arith)
  Matched-Leaves entry entries rest current flow lt ih (Matched.partial existing e d l p) =
      rw (p, eligible_kept side current.price entry entries d)
        (refl, ap (reduced current) (omega (arith, quantity_of_found m entry.1 existing e)))
  Matched-Leaves entry entries rest current flow lt ih (Matched.exact existing e d l p) =
      rw (p, eligible_kept side current.price entry entries d)
        (refl, ap (reduced current) (omega (arith, quantity_of_found m entry.1 existing e)))
  Matched-Leaves entry entries rest current flow lt ih (Matched.full existing flow' e d l r p) =
      let k = current.quantity - existing.quantity in
      let left : ℕ = available m (eligible side current.price entries) in
      rw (p, eligible_kept side current.price entry entries d)
        (Remains-pushed current existing k _ entry.1 flow' (
          subst (λ n. Remains (reduced current k) n flow')
            (omega (arith, quantity_of_found m entry.1 existing e))
            (ih (reduced current k) flow' (omega arith) r)))

  pub match_flat-Leaves :
      (entries : List (ℕ × OrderId)) (current : Order) (flow : Flow)
      → 0 < current.quantity
      → match_flat m side entries current ≡ ok flow
      → Leaves entries current flow
  unfolding match_flat eligible available created_orders
  match_flat-Leaves [] current flow lt h =
      rw (ok-injective (sym h)) (refl, ap (reduced current) (omega arith))
  match_flat-Leaves (entry ∷ entries) current flow lt h =
      Matched-Leaves entry entries (match_flat m side entries) current flow lt
        (match_flat-Leaves entries)
        (match_one-Matched m side entry.0 entry.1 (match_flat m side entries) current h)
