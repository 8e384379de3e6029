-- ===== src/OrderManager/Events/Removal.antt =====
-- The tables of the book after `clean` has discarded an order
-- (contracts/orderbook/src/order_manager.rs).
use hyliquid.Prelude.{
  ◌≡◌, none, arith, Option-cases, inl, inr, lookup, string_eq, lookup-remove, eq_iff,
}
use hyliquid.Types.{OrderId, OrderManager}
use hyliquid.OrderManager.Events.{discard}

pub lookup-discard : (m : OrderManager) (id : OrderId) → lookup id (discard m id).orders ≡ none
unfolding discard
lookup-discard m id = elim (Option-cases (lookup id m.orders)) [
  | inl e ↦ rw (e, discard) e
  | inr (stored, e) ↦ rw (e, discard) (rw lookup-remove (ground (arith, eq_iff id id)))
]

pub lookup-discard_owner :
    (m : OrderManager) (id : OrderId) → lookup id (discard m id).orders_owner ≡ none
unfolding discard
lookup-discard_owner m id = rw lookup-remove (ground (arith, eq_iff id id))
