-- ===== src/Contract/Collected.antt =====
-- What the collection for a proof comes to (`collect_orders_updates` of
-- contracts/orderbook/src/zk/commitment_metadata.rs).
use hyliquid.Prelude.{
  Bool, false, some, List, [], ◌∷◌, ◌≡◌, refl, ◌⊎◌, inl, inr, ok, ok_or, ok_or-eq-ok, ok-injective,
  >>=-elim, lookup, get_or, any, All, All-append, ◌==◌, Bool-cases, string_eq, nat_eq, pair_eq,
}
use hyliquid.Types.{
  OrderId, Pair, OrderSide, Order, OrderbookEvent, OrderCollectionMode, OrderManager, is_market,
}
use hyliquid.OrderManager.Levels.{side_map}
use hyliquid.Contract.Witness.{OrderPriceLevel, extend_set}
use hyliquid.Contract.Collection.{
  OrdersNeeded, need_level, need_order, collect_stored, created_order, collect_created,
  collect_event, collect_events, collect_orders_updates, same_price_level, same_order,
}

-- The level has the queue that the book holds for its pair and price, or none if there is none.
abbrev pub HeldOn : OrderManager → OrderSide → OrderPriceLevel → Type 0
HeldOn m side level =
    level.order_ids
    ≡ get_or (lookup level.price (get_or (lookup level.pair (side_map m side)) [])) []

-- The event is one of the list.
abbrev pub Occurs : OrderbookEvent → List OrderbookEvent → Type 0
Occurs event [] = ⊥
Occurs event (first ∷ later) = (event ≡ first) ⊎ Occurs event later

-- The event cancels the order of the id, or fills it as the resting one.
abbrev pub Names : OrderbookEvent → OrderId → Type 0
Names (OrderbookEvent.order_cancelled order_id _) id = order_id ≡ id
Names (OrderbookEvent.order_update order_id _ _ _ _) id = order_id ≡ id
Names (OrderbookEvent.order_executed order_id taker _) id =
    (order_id ≡ id) × ((order_id == taker) ≡ false)
Names _ id = ⊥

-- The order is the one that the book holds under an id that an event names, or the one of a
-- creation among the events, that is to rest.
abbrev pub KnownTo : OrderManager → OrderCollectionMode → List OrderbookEvent → Order → Type 0
KnownTo m mode events order =
    ((event : OrderbookEvent) × (id : OrderId) × Occurs event events
      × Names event id
      × (lookup id m.orders ≡ some order))
    ⊎ ((created : Order) × Occurs (OrderbookEvent.order_created created) events
        × (is_market created.order_type ≡ false)
        × (order ≡ created_order mode created))

pub record Genuine (m : OrderManager) (mode : OrderCollectionMode) (all : List OrderbookEvent)
    (n : OrdersNeeded) : Type 0 where
  pub orders : All (KnownTo m mode all) n.orders_to_update
  pub bids : All (HeldOn m OrderSide.bid) n.bid_order_price_levels
  pub asks : All (HeldOn m OrderSide.ask) n.ask_order_price_levels

module _ {ℓ κ} {A : Type ℓ} (P : A → Type κ) where
  All-extend :
      (same : A → A → Bool) (set : List A) (a : A)
      → All P set
      → P a
      → All P (extend_set same set (a ∷ []))
  unfolding extend_set
  All-extend same set a h k = elim (Bool-cases (any (same a) set)) [
    | inl found ↦ rw found h
    | inr new ↦ rw new (All-append P set (a ∷ []) h (k, tt))
  ]

module _ {m : OrderManager} {mode : OrderCollectionMode} {all : List OrderbookEvent} where
  need-Genuine :
      (side : OrderSide) (level : OrderPriceLevel) (order : Order) (n : OrdersNeeded)
      → Genuine m mode all n
      → HeldOn m side level
      → KnownTo m mode all order
      → Genuine m mode all (need_level side level (need_order order n))
  unfolding need_level need_order
  need-Genuine OrderSide.bid level order n g held known = record {
    orders = All-extend (KnownTo m mode all) same_order n.orders_to_update order g.orders known;
    bids =
        All-extend (HeldOn m OrderSide.bid) same_price_level n.bid_order_price_levels level g.bids
          held;
    asks = g.asks;
  }
  need-Genuine OrderSide.ask level order n g held known = record {
    orders = All-extend (KnownTo m mode all) same_order n.orders_to_update order g.orders known;
    bids = g.bids;
    asks =
        All-extend (HeldOn m OrderSide.ask) same_price_level n.ask_order_price_levels level g.asks
          held;
  }

  stored-Genuine :
      (event : OrderbookEvent) (order_id : OrderId) (pair : Pair) (order : Order)
      (n n' : OrdersNeeded)
      → Occurs event all
      → Names event order_id
      → Genuine m mode all n
      → lookup order_id m.orders ≡ some order
      → collect_stored m order_id pair order n ≡ ok n'
      → Genuine m mode all n'
  unfolding collect_stored
  stored-Genuine event order_id pair order n n' o named g stored e =
      >>=-elim (ok_or order.price _) _ e λ price a e1.
        >>=-elim (ok_or (lookup pair (side_map m order.order_side)) _) _ e1 λ levels a1 e2.
          >>=-elim (ok_or (lookup price levels) _) _ e2 λ queue a2 e3.
            let found = ok_or-eq-ok (lookup pair (side_map m order.order_side)) _ a1 in
            let queued = ok_or-eq-ok (lookup price levels) _ a2 in
            let level : OrderPriceLevel = record {
              pair = pair;
              price = price;
              order_ids = queue;
            } in
            let held : HeldOn m order.order_side level = rw found (rw queued refl) in
            rw (← ok-injective e3) (
              need-Genuine order.order_side level order n g held
                (inl (event, order_id, o, named, stored)))

  created-Genuine :
      (order : Order) (n n' : OrdersNeeded)
      → Occurs (OrderbookEvent.order_created order) all
      → Genuine m mode all n
      → collect_created m mode order n ≡ ok n'
      → Genuine m mode all n'
  unfolding collect_created
  created-Genuine order n n' o g e = elim (Bool-cases (is_market order.order_type)) [
    | inl market ↦ rw (ok-injective (rw market at e)) at g
    | inr rests ↦ >>=-elim (ok_or order.price _) _ (rw rests at e) λ price a e1.
        rw (← ok-injective e1) (
          need-Genuine order.order_side _ (created_order mode order) n g refl
            (inr (order, o, rests, refl)))
  ]

  event-Genuine :
      (event : OrderbookEvent) (n n' : OrdersNeeded)
      → Occurs event all
      → Genuine m mode all n
      → collect_event m mode event n ≡ ok n'
      → Genuine m mode all n'
  unfolding collect_event
  event-Genuine (OrderbookEvent.order_cancelled order_id pair) n n' o g e =
      >>=-elim (ok_or (lookup order_id m.orders) _) _ e λ order a e1.
        stored-Genuine (OrderbookEvent.order_cancelled order_id pair) order_id pair order n n' o
          refl g (ok_or-eq-ok (lookup order_id m.orders) _ a) e1
  event-Genuine (OrderbookEvent.order_update order_id t q r pair) n n' o g e =
      >>=-elim (ok_or (lookup order_id m.orders) _) _ e λ order a e1.
        stored-Genuine (OrderbookEvent.order_update order_id t q r pair) order_id pair order n n' o
          refl g (ok_or-eq-ok (lookup order_id m.orders) _ a) e1
  event-Genuine (OrderbookEvent.order_executed order_id taker pair) n n' o g e =
      elim (Bool-cases (order_id == taker)) [
        | inl own ↦ rw (ok-injective (rw own at e)) at g
        | inr other ↦ >>=-elim (ok_or (lookup order_id m.orders) _) _ (rw other at e) λ order a e1.
            stored-Genuine (OrderbookEvent.order_executed order_id taker pair) order_id pair order n
              n' o (refl, other) g (ok_or-eq-ok (lookup order_id m.orders) _ a) e1
      ]
  event-Genuine (OrderbookEvent.order_created order) n n' o g e = created-Genuine order n n' o g e
  event-Genuine (OrderbookEvent.pair_created p i) n n' o g e = rw (ok-injective e) at g
  event-Genuine (OrderbookEvent.balance_updated u s a) n n' o g e = rw (ok-injective e) at g
  event-Genuine (OrderbookEvent.session_key_added u s k l) n n' o g e = rw (ok-injective e) at g
  event-Genuine (OrderbookEvent.nonce_incremented u k) n n' o g e = rw (ok-injective e) at g

  events-Genuine :
      (events : List OrderbookEvent) (n n' : OrdersNeeded)
      → ((event : OrderbookEvent) → Occurs event events → Occurs event all)
      → Genuine m mode all n
      → collect_events m mode events n ≡ ok n'
      → Genuine m mode all n'
  unfolding collect_events
  events-Genuine [] n n' within g e = rw (ok-injective e) at g
  events-Genuine (event ∷ events) n n' within g e =
      >>=-elim (collect_event m mode event n) (collect_events m mode events) e λ n1 a e1.
        events-Genuine events n1 n' (λ one o. within one (inr o))
          (event-Genuine event n n1 (within event (inl refl)) g a) e1

-- Whatever the events and the mode, where the collection succeeds, each price level in it has the
-- queue that the book holds for its pair and price, or no order if the book has none there; and
-- each order in it is one that the book holds under the id of a cancellation or of a fill among
-- the events, or the one of a creation among the events that is no market order, whose quantity
-- the mode for the first state sets to 0.
pub collect_orders_updates-Genuine :
    (m : OrderManager) (events : List OrderbookEvent) (mode : OrderCollectionMode)
    → (n : OrdersNeeded) → collect_orders_updates m events mode ≡ ok n
    → Genuine m mode events n
unfolding collect_orders_updates
collect_orders_updates-Genuine m events mode n e =
    events-Genuine events _ n (λ event o. o) (record { orders = tt; bids = tt; asks = tt }) e
