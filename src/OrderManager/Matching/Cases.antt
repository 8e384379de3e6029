-- ===== src/OrderManager/Matching/Cases.antt =====
-- The ways in which the matching of one resting order can succeed (`match_one`), as a family that
-- the proofs about the loop split on.
use hyliquid.Prelude.{
  ℕ, ◌-◌, ◌<◌, ◌≡◌, refl, true, false, some, [], ◌∷◌, ok, arith, Bool-cases, Option-cases, inl, inr,
  lookup, string_eq, compare, Ordering, >>=-eq-ok,
}
use hyliquid.Types.{OrderId, OrderSide, Order, OrderManager, OrderbookEvent}
use hyliquid.Errors.{Result}
use hyliquid.OrderManager.Matching.{
  Flow, pushed, match_arms, match_quantity, match_one, deferred_by, return_inserted,
}

-- What is pushed for a resting order that is used up, and for one that is only reduced.
abbrev pub executed_by : OrderId → Order → Order → OrderbookEvent
executed_by id existing current = OrderbookEvent.order_executed id current.order_id existing.pair

abbrev pub updated_by : OrderId → Order → Order → OrderbookEvent
updated_by id existing current =
    OrderbookEvent.order_update id current.order_id current.quantity
      (existing.quantity - current.quantity) existing.pair

abbrev pub reduced : Order → ℕ → Order
reduced current n = record current { quantity = n }

pub data Matched (m : OrderManager) (side : OrderSide) (price : ℕ) (id : OrderId)
    (rest : Order → Result Flow) (current : Order) (flow : Flow) : Type 0 where
  deferred :
      deferred_by side price current.price ≡ true
      → return_inserted current ≡ ok flow
      → Matched m side price id rest current flow
  partial :
      (existing : Order)
      → lookup id m.orders ≡ some existing
      → deferred_by side price current.price ≡ false
      → current.quantity < existing.quantity
      → flow ≡ Flow.break_outer (updated_by id existing current ∷ []) (reduced current 0)
      → Matched m side price id rest current flow
  exact :
      (existing : Order)
      → lookup id m.orders ≡ some existing
      → deferred_by side price current.price ≡ false
      → existing.quantity ≡ current.quantity
      → flow ≡ Flow.break_outer (executed_by id existing current ∷ []) (reduced current 0)
      → Matched m side price id rest current flow
  full :
      (existing : Order) (flow' : Flow)
      → lookup id m.orders ≡ some existing
      → deferred_by side price current.price ≡ false
      → existing.quantity < current.quantity
      → rest (reduced current (current.quantity - existing.quantity)) ≡ ok flow'
      → flow ≡ pushed (executed_by id existing current ∷ []) flow'
      → Matched m side price id rest current flow

module _ (m : OrderManager) (side : OrderSide) (price : ℕ) (id : OrderId)
    (rest : Order → Result Flow) (current : Order) {flow : Flow} where
  match_arms-Matched :
      (o : Ordering) (existing : Order)
      → compare existing.quantity current.quantity ≡ o
      → lookup id m.orders ≡ some existing
      → deferred_by side price current.price ≡ false
      → match_arms o id existing current rest ≡ ok flow
      → Matched m side price id rest current flow
  unfolding match_arms
  match_arms-Matched Ordering.gt existing c e d h = Matched.partial existing e d (ground arith) (cc)
  match_arms-Matched Ordering.eq existing c e d h = Matched.exact existing e d (ground arith) (cc)
  match_arms-Matched Ordering.lt existing c e d h =
      let (flow', r, p) =
        >>=-eq-ok (rest (reduced current (current.quantity - existing.quantity))) _ h in
      Matched.full existing flow' e d (ground arith) r (cc)

  pub match_one-Matched :
      match_one m side price id rest current ≡ ok flow → Matched m side price id rest current flow
  unfolding match_one match_quantity
  match_one-Matched h = elim (Option-cases (lookup id m.orders)) [
    | inl e ↦ absurd (cc (rw e at h))
    | inr (existing, e) ↦ elim (Bool-cases (deferred_by side price current.price)) [
      | inl d ↦ Matched.deferred d (rw (e, d) at h)
      | inr d ↦ match_arms-Matched _ existing refl e d (rw (e, d) at h)
    ]
  ]
