-- ===== src/OrderManager/Matching/Progress.antt =====
-- When the loops of `execute_order_dry_run` succeed.
use hyliquid.Prelude.{
  ℕ, ◌-◌, ◌<◌, ◌≡◌, refl, true, Option, none, some, List, [], ◌∷◌, ok, arith, Bool-cases,
  Option-cases, inl, inr, lookup, string_eq, is_some, All, compare, Ordering,
}
use hyliquid.Types.{OrderId, OrderSide, Order, OrderManager, OrderbookEvent}
use hyliquid.Errors.{Result}
use hyliquid.OrderManager.Matching.{
  Flow, pushed, deferred_by, match_arms, match_quantity, match_one, return_inserted,
}
use hyliquid.OrderManager.Matching.Cases.{executed_by, reduced}
use hyliquid.OrderManager.Matching.Flat.{match_flat}

-- Every queued id has an order on record.
abbrev pub Resolves : OrderManager → List (ℕ × OrderId) → Type 0
Resolves m entries = All (λ entry. is_some (lookup entry.1 m.orders) ≡ true) entries

-- An order either has no limit, or a positive one.
abbrev pub IsPriced : Option ℕ → Type 0
IsPriced none = Unit
IsPriced (some price) = 0 < price

abbrev Succeeds {ℓ} : {A : Type ℓ} → Result A → Type ℓ
Succeeds {A = A} r = (a : A) × (r ≡ ok a)

return_inserted_total :
    (side : OrderSide) (existing : ℕ) (current : Order)
    → deferred_by side existing current.price ≡ true
    → IsPriced current.price
    → Succeeds (return_inserted current)
unfolding return_inserted deferred_by
return_inserted_total side existing current d priced =
    (Flow.returned (OrderbookEvent.order_created current ∷ []), ground arith)

module _ (m : OrderManager) (side : OrderSide) where
  match_arms_total :
      (o : Ordering) (id : OrderId) (existing current : Order) (rest : Order → Result Flow)
      → ((c : Order) → IsPriced c.price → Succeeds (rest c))
      → IsPriced current.price
      → Succeeds (match_arms o id existing current rest)
  unfolding match_arms
  match_arms_total Ordering.gt id existing current rest ih priced = (_, refl)
  match_arms_total Ordering.eq id existing current rest ih priced = (_, refl)
  match_arms_total Ordering.lt id existing current rest ih priced =
      let (flow, p) = ih (reduced current (current.quantity - existing.quantity)) priced in
      (pushed (executed_by id existing current ∷ []) flow, rw p)

  match_one_total :
      (price : ℕ) (id : OrderId) (rest : Order → Result Flow) (current : Order)
      → is_some (lookup id m.orders) ≡ true
      → ((c : Order) → IsPriced c.price → Succeeds (rest c))
      → IsPriced current.price
      → Succeeds (match_one m side price id rest current)
  unfolding match_one match_quantity
  match_one_total price id rest current found ih priced = elim (Option-cases (lookup id m.orders)) [
    | inl e ↦ absurd (cc (rw e at found))
    | inr (existing, e) ↦ elim (Bool-cases (deferred_by side price current.price)) [
      | inl d ↦ rw (e, d) (return_inserted_total side price current d priced)
      | inr d ↦
          rw (e, d)
            (match_arms_total (compare existing.quantity current.quantity) id existing current rest
              ih priced)
    ]
  ]

  pub match_flat_total :
      (entries : List (ℕ × OrderId)) (current : Order)
      → Resolves m entries
      → IsPriced current.price
      → (flow : Flow) × (match_flat m side entries current ≡ ok flow)
  unfolding match_flat
  match_flat_total [] current known priced = (Flow.exhausted [] current, refl)
  match_flat_total (entry ∷ entries) current known priced =
      match_one_total entry.0 entry.1 (match_flat m side entries) current known.0
        (λ c. match_flat_total entries c known.1) priced
