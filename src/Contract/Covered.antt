-- ===== src/Contract/Covered.antt =====
-- The collection for a proof against the orders that the events touch (`collect_orders_updates` of
-- contracts/orderbook/src/zk/commitment_metadata.rs).
use hyliquid.Prelude.{
  ℕ, Bool, true, Option, none, some, List, [], ◌∷◌, ◌++◌, ◌≡◌, refl, sym, inl, inr, ok, ok_or,
  ok-injective, >>=-elim, ◌>>=◌, lookup, any, if◌then◌else◌, ◌==◌, Bool-cases, string_eq, nat_eq,
  pair_eq, eqb_iff, arith,
}
use hyliquid.Types.{
  OrderId, Pair, OrderSide, OrderType, Order, OrderbookEvent, OrderCollectionMode, OrderManager,
  is_market,
}
use hyliquid.Errors.{Error}
use hyliquid.OrderManager.Levels.{side_map}
use hyliquid.Contract.Witness.{OrderPriceLevel, extend_set}
use hyliquid.Contract.Collection.{
  OrdersNeeded, need_level, need_order, collect_stored, created_order, collect_created,
  collect_event, collect_events, collect_orders_updates, same_order, same_type, same_side,
  same_price,
}

-- The order that an event touches: one of the book, or a created one that is to rest.
unfoldable pub touched : OrderManager → OrderCollectionMode → OrderbookEvent → Option Order
touched m mode (OrderbookEvent.order_cancelled order_id _) = lookup order_id m.orders
touched m mode (OrderbookEvent.order_update order_id _ _ _ _) = lookup order_id m.orders
touched m mode (OrderbookEvent.order_executed order_id taker_order_id _) =
    if order_id == taker_order_id then none else lookup order_id m.orders
touched m mode (OrderbookEvent.order_created order) =
    if is_market order.order_type then none else some (created_order mode order)
touched m mode _ = none

abbrev pub has : OrdersNeeded → Order → Bool
has n order = any (same_order order) n.orders_to_update

abbrev pub HasAny : OrdersNeeded → Option Order → Type 0
HasAny n none = Unit
HasAny n (some order) = has n order ≡ true

-- What each of the events touches is in the collection.
abbrev pub AllCovered :
    OrderManager → OrderCollectionMode → List OrderbookEvent → OrdersNeeded → Type 0
AllCovered m mode [] n = Unit
AllCovered m mode (event ∷ events) n = HasAny n (touched m mode event) × AllCovered m mode events n

-- What was in the collection stays.
record Grows (n n' : OrdersNeeded) : Type 0 where
  pub kept : (order : Order) → has n order ≡ true → has n' order ≡ true

module _ {ℓ} {A : Type ℓ} where
  any-append : (f : A → Bool) (xs ys : List A) → any f xs ≡ true → any f (xs ++ ys) ≡ true
  any-append f [] ys h = cc
  any-append f (x ∷ xs) ys h = ground (arith, any-append f xs ys)

  any_last : (f : A → Bool) (xs : List A) (a : A) → f a ≡ true → any f (xs ++ a ∷ []) ≡ true
  any_last f [] a h = ground arith
  any_last f (x ∷ xs) a h = ground (arith, any_last f xs a h)

  any-extend_set :
      (same : A → A → Bool) (f : A → Bool) (set : List A) (a : A)
      → any f set ≡ true
      → any f (extend_set same set (a ∷ [])) ≡ true
  unfolding extend_set
  any-extend_set same f set a h = elim (Bool-cases (any (same a) set)) [
    | inl found ↦ rw found h
    | inr new ↦ rw new (any-append f set (a ∷ []) h)
  ]

  any-extended :
      (same : A → A → Bool) (set : List A) (a : A)
      → same a a ≡ true
      → any (same a) (extend_set same set (a ∷ [])) ≡ true
  unfolding extend_set
  any-extended same set a h = elim (Bool-cases (any (same a) set)) [
    | inl found ↦ rw found found
    | inr new ↦ rw new (any_last (same a) set a h)
  ]

same_type_self : (t : OrderType) → same_type t t ≡ true
same_type_self OrderType.market = refl
same_type_self OrderType.limit = refl
same_type_self OrderType.stop = refl
same_type_self OrderType.stop_limit = refl
same_type_self OrderType.stop_market = refl

same_side_self : (s : OrderSide) → same_side s s ≡ true
same_side_self OrderSide.bid = refl
same_side_self OrderSide.ask = refl

same_price_self : (p : Option ℕ) → same_price p p ≡ true
same_price_self none = refl
same_price_self (some p) = (eqb_iff p p).1 refl

same_order_self : (o : Order) → same_order o o ≡ true
unfolding same_order
same_order_self o =
    rw (same_type_self o.order_type, same_side_self o.order_side, same_price_self o.price)
      (ground (arith, string_eq.same_iff o.order_id o.order_id, pair_eq.same_iff o.pair o.pair))

need-has :
    (side : OrderSide) (level : OrderPriceLevel) (order : Order) (n : OrdersNeeded)
    → has (need_level side level (need_order order n)) order ≡ true
unfolding need_level need_order
need-has OrderSide.bid level order n =
    any-extended same_order n.orders_to_update order (same_order_self order)
need-has OrderSide.ask level order n =
    any-extended same_order n.orders_to_update order (same_order_self order)

need-Grows :
    (side : OrderSide) (level : OrderPriceLevel) (order : Order) (n : OrdersNeeded)
    → Grows n (need_level side level (need_order order n))
unfolding need_level need_order
need-Grows OrderSide.bid level order n = record {
  kept = λ o h. any-extend_set same_order (same_order o) n.orders_to_update order h;
}
need-Grows OrderSide.ask level order n = record {
  kept = λ o h. any-extend_set same_order (same_order o) n.orders_to_update order h;
}

-- A step of the collection: nothing is lost, and `o` is there, if it is an order.
record Step (n n' : OrdersNeeded) (o : Option Order) : Type 0 where
  pub grows : Grows n n'
  pub covers : HasAny n' o

need-Step :
    (side : OrderSide) (level : OrderPriceLevel) (order : Order) (n : OrdersNeeded)
    → Step n (need_level side level (need_order order n)) (some order)
need-Step side level order n = record {
  grows = need-Grows side level order n;
  covers = need-has side level order n;
}

same-Step : (n n' : OrdersNeeded) → n ≡ n' → Step n n' none
same-Step n n' e = record { grows = record { kept = λ o h. rw (sym e) h }; covers = tt }

module _ (m : OrderManager) (mode : OrderCollectionMode) where
  stored-Step :
      (order_id : OrderId) (pair : Pair) (order : Order) (n n' : OrdersNeeded)
      → collect_stored m order_id pair order n ≡ ok n'
      → Step n n' (some order)
  unfolding collect_stored
  stored-Step order_id pair order n n' e = >>=-elim (ok_or order.price _) _ e λ price a e1.
      >>=-elim (ok_or (lookup pair (side_map m order.order_side)) _) _ e1 λ levels a1 e2.
        >>=-elim (ok_or (lookup price levels) _) _ e2
          λ queue a2 e3. rw (← ok-injective e3) (need-Step order.order_side _ order n)

  found-Step :
      (order_id : OrderId) (pair : Pair) (found : Option Order) (e : Error) (n n' : OrdersNeeded)
      → (ok_or found e >>= λ order. collect_stored m order_id pair order n) ≡ ok n'
      → Step n n' found
  found-Step order_id pair none e n n' h = cc
  found-Step order_id pair (some order) e n n' h = stored-Step order_id pair order n n' h

  event-Step :
      (event : OrderbookEvent) (n n' : OrdersNeeded)
      → collect_event m mode event n ≡ ok n'
      → Step n n' (touched m mode event)
  unfolding collect_event collect_created touched
  event-Step (OrderbookEvent.order_cancelled order_id pair) n n' e =
      found-Step order_id pair (lookup order_id m.orders) _ n n' e
  event-Step (OrderbookEvent.order_update order_id t q r pair) n n' e =
      found-Step order_id pair (lookup order_id m.orders) _ n n' e
  event-Step (OrderbookEvent.order_executed order_id taker pair) n n' e =
      elim (Bool-cases (order_id == taker)) [
        | inl own ↦ rw own (same-Step n n' (ok-injective (rw own at e)))
        | inr other ↦
            rw other (found-Step order_id pair (lookup order_id m.orders) _ n n' (rw other at e))
      ]
  event-Step (OrderbookEvent.order_created order) n n' e =
      elim (Bool-cases (is_market order.order_type)) [
        | inl market ↦ rw market (same-Step n n' (ok-injective (rw market at e)))
        | inr rests ↦ rw rests (
            >>=-elim (ok_or order.price _) _ (rw rests at e) λ price a e1.
              rw (← ok-injective e1) (need-Step order.order_side _ (created_order mode order) n))
      ]
  event-Step (OrderbookEvent.pair_created p i) n n' e = same-Step n n' (ok-injective e)
  event-Step (OrderbookEvent.balance_updated u s a) n n' e = same-Step n n' (ok-injective e)
  event-Step (OrderbookEvent.session_key_added u s k l) n n' e = same-Step n n' (ok-injective e)
  event-Step (OrderbookEvent.nonce_incremented u k) n n' e = same-Step n n' (ok-injective e)

HasAny-Grows : (o : Option Order) (n n' : OrdersNeeded) → Grows n n' → HasAny n o → HasAny n' o
HasAny-Grows none n n' g h = tt
HasAny-Grows (some order) n n' g h = g.kept order h

module _ (m : OrderManager) (mode : OrderCollectionMode) where
  events-Covered :
      (events : List OrderbookEvent) (n n' : OrdersNeeded)
      → collect_events m mode events n ≡ ok n'
      → Grows n n' × AllCovered m mode events n'
  unfolding collect_events
  events-Covered [] n n' e = ((same-Step n n' (ok-injective e)).grows, tt)
  events-Covered (event ∷ events) n n' e =
      >>=-elim (collect_event m mode event n) (collect_events m mode events) e λ n1 a e1.
        let step = event-Step m mode event n n1 a in
        let (grows, covered) = events-Covered events n1 n' e1 in
        (
          record { kept = λ o h. grows.kept o (step.grows.kept o h) },
          (HasAny-Grows (touched m mode event) n1 n' grows step.covers, covered),
        )

-- Where the collection succeeds, it has for each cancelled, updated or executed order of the events
-- the order that the book holds under the id, but for a market order that the event names as its
-- own taker, and for each created order that is no market order that order, with quantity 0 in the
-- mode for the first state.
pub collect_orders_updates-AllCovered :
    (m : OrderManager) (events : List OrderbookEvent) (mode : OrderCollectionMode)
    → (n : OrdersNeeded) → collect_orders_updates m events mode ≡ ok n
    → AllCovered m mode events n
unfolding collect_orders_updates
collect_orders_updates-AllCovered m events mode n e = (events-Covered m mode events _ n e).1
