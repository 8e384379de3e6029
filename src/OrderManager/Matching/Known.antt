-- ===== src/OrderManager/Matching/Known.antt =====
-- The orders that an incoming order meets, and their records.
use hyliquid.Prelude.{
  ℕ, ◌≡◌, true, List, [], ◌∷◌, map, reverse, is_some, lookup, string_eq, All, All-append,
}
use mathlib.Core.List.{reverse-cons}
use hyliquid.Types.{OrderId, Pair, OrderSide, Order, OrderManager, PriceLevels}
use hyliquid.OrderManager.Events.Queued.{LevelsHold, Known, QueuesKnown, lookup_side}
use hyliquid.OrderManager.Matching.Flat.{queue}
use hyliquid.OrderManager.Matching.Progress.{Resolves}
use hyliquid.OrderManager.Matching.Resting.{opposite, resting}

All-reverse {ℓ κ} : {A : Type ℓ} (P : A → Type κ) (xs : List A) → All P xs → All P (reverse xs)
All-reverse P [] h = tt
All-reverse P (x ∷ xs) h =
    rw reverse-cons (All-append P (reverse xs) (x ∷ []) (All-reverse P xs h.1) (h.0, tt))

ids-Resolves :
    (m : OrderManager) (price : ℕ) (ids : List OrderId)
    → Known m.orders ids
    → Resolves m (map (λ id. (price, id)) ids)
ids-Resolves m price [] h = tt
ids-Resolves m price (id ∷ ids) h = (h.0, ids-Resolves m price ids h.1)

queue-Resolves :
    (m : OrderManager) (levels : PriceLevels)
    → LevelsHold (Known m.orders) levels
    → Resolves m (queue levels)
unfolding queue
queue-Resolves m [] h = tt
queue-Resolves m ((price, ids) ∷ levels) h =
    All-append (λ entry. is_some (lookup entry.1 m.orders) ≡ true) (map (λ id. (price, id)) ids)
      (queue levels) (ids-Resolves m price ids h.0) (queue-Resolves m levels h.1)

opposite-LevelsHold :
    (m : OrderManager) (side : OrderSide) (pair : Pair)
    → QueuesKnown m
    → LevelsHold (Known m.orders) (opposite m side pair)
unfolding opposite
opposite-LevelsHold m OrderSide.bid pair h = lookup_side (Known m.orders) pair m.ask_orders h.1
opposite-LevelsHold m OrderSide.ask pair h =
    All-reverse (λ level. Known m.orders level.1) _
      (lookup_side (Known m.orders) pair m.bid_orders h.0)

pub resting-Resolves :
    (m : OrderManager) (order : Order) → QueuesKnown m → Resolves m (resting m order)
unfolding resting
resting-Resolves m order h =
    queue-Resolves m _ (opposite-LevelsHold m order.order_side order.pair h)
