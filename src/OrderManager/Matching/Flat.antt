-- ===== src/OrderManager/Matching/Flat.antt =====
-- The two loops of `execute_order_dry_run` against one loop over the whole queue: levels in the
-- order of the iteration, ids in the order of arrival.
use hyliquid.Prelude.{
  ℕ, ◌-◌, ◌≡◌, refl, List, [], ◌∷◌, ◌++◌, map, ok, err, panic, ◌>>=◌, arith, Bool-cases,
  Option-cases, inl, inr, ap, sym, ◌∙◌, lookup, string_eq, compare, Ordering,
}
use mathlib.Core.List.{append_assoc}
use mathlib.Core.Path.{fun_ext}
use hyliquid.Types.{OrderId, OrderSide, Order, OrderManager, PriceLevels, OrderbookEvent}
use hyliquid.Errors.{Result}
use hyliquid.OrderManager.Matching.{
  Flow, pushed, match_arms, match_quantity, match_one, match_ids, next_level, match_levels,
  deferred_by, return_inserted,
}

-- The resting ids of some levels, with their prices.
unfoldable pub queue : PriceLevels → List (ℕ × OrderId)
queue [] = []
queue ((price, ids) ∷ levels) = map (λ id. (price, id)) ids ++ queue levels

-- Two pushes are one.
pub pushed-pushed :
    (es es' : List OrderbookEvent) (flow : Flow)
    → pushed (es ++ es') flow ≡ pushed es (pushed es' flow)
unfolding pushed
pushed-pushed es es' (Flow.exhausted es₁ current) = rw append_assoc
pushed-pushed es es' (Flow.break_outer es₁ current) = rw append_assoc
pushed-pushed es es' (Flow.returned es₁) = rw append_assoc

map_pushed-pushed :
    (es es' : List OrderbookEvent) (r : Result Flow)
    → (r >>= λ flow. ok (pushed (es ++ es') flow))
      ≡ ((r >>= λ flow. ok (pushed es' flow)) >>= λ flow. ok (pushed es flow))
map_pushed-pushed es es' (ok flow) = rw pushed-pushed
map_pushed-pushed es es' (err e) = refl
map_pushed-pushed es es' panic = refl

map_pushed_nil : (r : Result Flow) → r ≡ (r >>= λ flow. ok (pushed [] flow))
unfolding pushed
map_pushed_nil (ok (Flow.exhausted es current)) = refl
map_pushed_nil (ok (Flow.break_outer es current)) = refl
map_pushed_nil (ok (Flow.returned es)) = refl
map_pushed_nil (err e) = refl
map_pushed_nil panic = refl

next_level-pushed :
    (k : Order → Result Flow) (es : List OrderbookEvent) (flow : Flow)
    → next_level k (pushed es flow) ≡ (next_level k flow >>= λ flow'. ok (pushed es flow'))
unfolding next_level pushed
next_level-pushed k es (Flow.exhausted es' current) = map_pushed-pushed es es' (k current)
next_level-pushed k es (Flow.break_outer es' current) = refl
next_level-pushed k es (Flow.returned es') = refl

bind_next_level :
    (k : Order → Result Flow) (es : List OrderbookEvent) (r : Result Flow)
    → ((r >>= next_level k) >>= λ flow. ok (pushed es flow))
      ≡ ((r >>= λ flow. ok (pushed es flow)) >>= next_level k)
bind_next_level k es (ok flow) = sym (next_level-pushed k es flow)
bind_next_level k es (err e) = refl
bind_next_level k es panic = refl

match_arms-next_level :
    (o : Ordering) (id : OrderId) (existing current : Order) (r k : Order → Result Flow)
    → match_arms o id existing current (λ c. r c >>= next_level k)
      ≡ (match_arms o id existing current r >>= next_level k)
unfolding match_arms next_level
match_arms-next_level Ordering.gt id existing current r k = refl
match_arms-next_level Ordering.eq id existing current r k = refl
match_arms-next_level Ordering.lt id existing current r k =
    bind_next_level k (OrderbookEvent.order_executed id current.order_id existing.pair ∷ [])
      (r (record current { quantity = current.quantity - existing.quantity }))

return_inserted-next_level :
    (current : Order) (k : Order → Result Flow)
    → (return_inserted current >>= next_level k) ≡ return_inserted current
unfolding return_inserted next_level
return_inserted-next_level current k = ground arith

module _ (m : OrderManager) (side : OrderSide) where
  -- One loop over resting orders, best price first, and in the order of arrival at one price.
  unfoldable pub match_flat : List (ℕ × OrderId) → Order → Result Flow
  match_flat [] current = ok (Flow.exhausted [] current)
  match_flat (entry ∷ entries) current =
      match_one m side entry.0 entry.1 (match_flat entries) current

  match_one-next_level :
      (price : ℕ) (id : OrderId) (r k : Order → Result Flow) (current : Order)
      → match_one m side price id (λ c. r c >>= next_level k) current
        ≡ (match_one m side price id r current >>= next_level k)
  unfolding match_one match_quantity
  match_one-next_level price id r k current = elim (Option-cases (lookup id m.orders)) [
    | inl e ↦ rw e
    | inr (existing, e) ↦ elim (Bool-cases (deferred_by side price current.price)) [
      | inl d ↦ rw (e, d) (sym (return_inserted-next_level current k))
      | inr d ↦
          rw (e, d)
            (match_arms-next_level (compare existing.quantity current.quantity) id existing current
              r k)
    ]
  ]

  match_flat-append :
      (price : ℕ) (ids : List OrderId) (entries : List (ℕ × OrderId)) (current : Order)
      → match_flat (map (λ id. (price, id)) ids ++ entries) current
        ≡ (match_ids m side price ids current >>= next_level (match_flat entries))
  unfolding match_flat match_ids next_level pushed
  match_flat-append price [] entries current = map_pushed_nil (match_flat entries current)
  match_flat-append price (id ∷ ids) entries current =
      ap (λ rest. match_one m side price id rest current)
        (fun_ext (match_flat-append price ids entries))
      ∙ match_one-next_level price id (match_ids m side price ids) (match_flat entries) current

  -- The nested loops are the one loop over the flat queue.
  pub match_levels-eq-match_flat :
      (levels : PriceLevels) (current : Order)
      → match_levels m side levels current ≡ match_flat (queue levels) current
  unfolding match_levels match_flat queue
  match_levels-eq-match_flat [] current = refl
  match_levels-eq-match_flat ((price, ids) ∷ levels) current =
      ap (λ rest. match_ids m side price ids current >>= next_level rest)
        (fun_ext (match_levels-eq-match_flat levels))
      ∙ sym (match_flat-append price ids (queue levels) current)
