-- ===== src/OrderManager/Events/Queued.antt =====
-- The ids in the queues of the book and their orders on record, under `apply_event` of
-- contracts/orderbook/src/order_manager.rs.
use hyliquid.Prelude.{
  ℕ, ◌≡◌, refl, Bool, true, Option, none, some, List, [], ◌∷◌, ok, arith, Bool-cases, inl, inr,
  >>=-elim, ok-injective, ok_or, sym, is_some, lookup, insert, get_or, Map, retain, not, ◌==◌,
  string_eq, pair_eq, lookup-insert, lookup-insert_self, All, All-append, eqb, ltb, nat_eq,
}
use hyliquid.Types.{
  OrderId, H256, Pair, OrderSide, Order, OrderManager, OrderbookEvent, PriceLevels,
}
use hyliquid.OrderManager.Levels.{
  insert_level, update_level, side_map, set_side_map, levels_of, get_order_list_mut,
}
use hyliquid.OrderManager.Events.{
  push_back, retain_other, unlist, retire, apply_created, apply_event,
}

module _ {ℓ κ} {A : Type ℓ} (P : A → Type κ) where
  All-map_of : {Q : A → Type κ} (xs : List A) → ((a : A) → P a → Q a) → All P xs → All Q xs
  All-map_of [] f h = tt
  All-map_of (a ∷ xs) f h = (f a h.0, All-map_of xs f h.1)

  All-retain : (keep : A → Bool) (xs : List A) → All P xs → All P (retain keep xs)
  unfolding retain
  All-retain keep [] h = tt
  All-retain keep (a ∷ xs) h = elim (Bool-cases (keep a)) [
    | inl kept ↦ rw kept (h.0, All-retain keep xs h.1)
    | inr dropped ↦ rw dropped (All-retain keep xs h.1)
  ]

-- Of every queue of some levels, and of every queue of a side.
abbrev pub LevelsHold : (List OrderId → Type 0) → PriceLevels → Type 0
LevelsHold P levels = All (λ level. P level.1) levels

abbrev pub SideHolds : (List OrderId → Type 0) → Map Pair PriceLevels → Type 0
SideHolds P side = All (λ entry. LevelsHold P entry.1) side

module _ (P : List OrderId → Type 0) where
  insert_level-LevelsHold :
      (price : ℕ) (queue : List OrderId) (levels : PriceLevels)
      → P queue
      → LevelsHold P levels
      → LevelsHold P (insert_level price queue levels)
  unfolding insert_level
  insert_level-LevelsHold price queue [] p h = (p, tt)
  insert_level-LevelsHold price queue ((other, old) ∷ levels) p h =
      elim (Bool-cases (eqb price other)) [
        | inl same ↦ rw same (p, h.1)
        | inr differ ↦ elim (Bool-cases (ltb price other)) [
          | inl before ↦ rw (differ, before) (p, h)
          | inr after ↦ rw (differ, after) (h.0, insert_level-LevelsHold price queue levels p h.1)
        ]
      ]

  lookup_level :
      (price : ℕ) (levels : PriceLevels)
      → P []
      → LevelsHold P levels
      → P (get_or (lookup price levels) [])
  unfolding lookup
  lookup_level price [] none_queued h = none_queued
  lookup_level price ((other, old) ∷ levels) none_queued h = elim (Bool-cases (eqb other price)) [
    | inl same ↦ rw same h.0
    | inr differ ↦ rw differ (lookup_level price levels none_queued h.1)
  ]

  insert-SideHolds :
      (pair : Pair) (levels : PriceLevels) (side : Map Pair PriceLevels)
      → LevelsHold P levels
      → SideHolds P side
      → SideHolds P (insert pair levels side)
  unfolding insert
  insert-SideHolds pair levels [] p h = (p, tt)
  insert-SideHolds pair levels ((other, old) ∷ side) p h = elim (Bool-cases (other == pair)) [
    | inl same ↦ rw same (p, h.1)
    | inr differ ↦ rw differ (h.0, insert-SideHolds pair levels side p h.1)
  ]

  pub lookup_side :
      (pair : Pair) (side : Map Pair PriceLevels)
      → SideHolds P side
      → LevelsHold P (get_or (lookup pair side) [])
  unfolding lookup
  lookup_side pair [] h = tt
  lookup_side pair ((other, old) ∷ side) h = elim (Bool-cases (other == pair)) [
    | inl same ↦ rw same h.0
    | inr differ ↦ rw differ (lookup_side pair side h.1)
  ]

abbrev pub Known : Map OrderId Order → List OrderId → Type 0
Known orders queue = All (λ id. is_some (lookup id orders) ≡ true) queue

-- Every id in a queue, of either side, has an order on record.
abbrev pub QueuesKnown : OrderManager → Type 0
QueuesKnown m = SideHolds (Known m.orders) m.bid_orders × SideHolds (Known m.orders) m.ask_orders

is_some-insert :
    (id key : OrderId) (order : Order) (orders : Map OrderId Order)
    → is_some (lookup id orders) ≡ true
    → is_some (lookup id (insert key order orders)) ≡ true
is_some-insert id key order orders h = rw lookup-insert (ground arith)

Known-insert :
    (key : OrderId) (order : Order) (orders : Map OrderId Order) (queue : List OrderId)
    → Known orders queue
    → Known (insert key order orders) queue
Known-insert key order orders queue =
    All-map_of (λ id. is_some (lookup id orders) ≡ true) queue
      (λ id. is_some-insert id key order orders)

-- A side whose queues hold is kept by what every queue keeps.
SideHolds-map :
    (P Q : List OrderId → Type 0) (side : Map Pair PriceLevels)
    → ((queue : List OrderId) → P queue → Q queue)
    → SideHolds P side
    → SideHolds Q side
SideHolds-map P Q side f =
    All-map_of (λ entry. LevelsHold P entry.1) side
      (λ entry. All-map_of (λ level. P level.1) entry.1 (λ level. f level.1))

SidesKnown : Map OrderId Order → OrderManager → Type 0
SidesKnown orders m = SideHolds (Known orders) m.bid_orders × SideHolds (Known orders) m.ask_orders

-- A change of one queue, where every other queue stays.
module _ (orders : Map OrderId Order) (m : OrderManager) (pair : Pair) (price : ℕ)
    (f : List OrderId → List OrderId) where
  changed_side :
      (side : Map Pair PriceLevels)
      → ((queue : List OrderId) → Known orders queue → Known orders (f queue))
      → SideHolds (Known orders) side
      → SideHolds
          (Known orders)
          (insert pair (update_level price f (get_or (lookup pair side) [])) side)
  unfolding update_level
  changed_side side keeps h =
      let levels = lookup_side (Known orders) pair side h in
      insert-SideHolds (Known orders) pair _ side
        (insert_level-LevelsHold (Known orders) price _ _
          (keeps _ (lookup_level (Known orders) price _ tt levels)) levels)
        h

  get_order_list_mut-SidesKnown :
      (side : OrderSide)
      → ((queue : List OrderId) → Known orders queue → Known orders (f queue))
      → SidesKnown orders m
      → SidesKnown orders (get_order_list_mut m side pair price f)
  unfolding SidesKnown get_order_list_mut set_side_map side_map levels_of
  get_order_list_mut-SidesKnown OrderSide.bid keeps h = (changed_side m.bid_orders keeps h.0, h.1)
  get_order_list_mut-SidesKnown OrderSide.ask keeps h = (h.0, changed_side m.ask_orders keeps h.1)

  orders-get_order_list_mut :
      (side : OrderSide) → (get_order_list_mut m side pair price f).orders ≡ m.orders
  unfolding get_order_list_mut set_side_map
  orders-get_order_list_mut OrderSide.bid = refl
  orders-get_order_list_mut OrderSide.ask = refl

-- An order that is put on record again, or for the first time, leaves every queue known.
inserted :
    (m : OrderManager) (key : OrderId) (order : Order)
    → QueuesKnown m
    → SidesKnown (insert key order m.orders) m
unfolding SidesKnown
inserted m key order h = (
  SideHolds-map (Known m.orders) (Known (insert key order m.orders)) m.bid_orders
      (Known-insert key order m.orders) h.0,
  SideHolds-map (Known m.orders) (Known (insert key order m.orders)) m.ask_orders
      (Known-insert key order m.orders) h.1,
)

unlist-SidesKnown :
    (orders : Map OrderId Order) (m : OrderManager) (id : OrderId) (order : Order)
    (price : Option ℕ)
    → SidesKnown orders m
    → SidesKnown orders (unlist m id order price) × ((unlist m id order price).orders ≡ m.orders)
unfolding unlist retain_other
unlist-SidesKnown orders m id order none h = (h, refl)
unlist-SidesKnown orders m id order (some price) h = (
  get_order_list_mut-SidesKnown orders m order.pair price (retain_other id) order.order_side
      (λ queue. All-retain (λ i. is_some (lookup i orders) ≡ true) (λ i. not (i == id)) queue) h,
  orders-get_order_list_mut orders m order.pair price (retain_other id) order.order_side,
)

retire-QueuesKnown :
    (m : OrderManager) (id : OrderId) (order : Order)
    → QueuesKnown m
    → QueuesKnown (retire m id order)
unfolding retire SidesKnown
retire-QueuesKnown m id order h =
    let zeroed = record order { quantity = 0 } in
    let (known, same) =
      unlist-SidesKnown (insert id zeroed m.orders) m id order order.price
        (inserted m id zeroed h) in
    rw same known

apply_created-QueuesKnown :
    (m : OrderManager) (key : H256) (order : Order) {m' : OrderManager}
    → QueuesKnown m
    → apply_created m key order ≡ ok m'
    → QueuesKnown m'
unfolding apply_created SidesKnown push_back
apply_created-QueuesKnown m key order h e =
    let orders = insert order.order_id order m.orders in
    >>=-elim (ok_or order.price _) _ e λ price _ r.
      let known =
        get_order_list_mut-SidesKnown orders m order.pair price (push_back order.order_id)
          order.order_side
          (λ queue q.
            All-append (λ id. is_some (lookup id orders) ≡ true) queue (order.order_id ∷ []) q
              (rw lookup-insert_self refl, tt))
          (inserted m order.order_id order h) in
      rw
        (
          sym (ok-injective r),
          orders-get_order_list_mut orders m order.pair price (push_back order.order_id)
              order.order_side,
        )
        known

pub apply_event-QueuesKnown :
    (m : OrderManager) (key : H256) (event : OrderbookEvent) {m' : OrderManager}
    → QueuesKnown m
    → apply_event m key event ≡ ok m'
    → QueuesKnown m'
unfolding apply_event SidesKnown
apply_event-QueuesKnown m key (OrderbookEvent.order_created order) h e =
    apply_created-QueuesKnown m key order h e
apply_event-QueuesKnown m key (OrderbookEvent.order_cancelled id _) h e =
    >>=-elim (ok_or (lookup id m.orders) _) _ e
      λ order _ r. rw (sym (ok-injective r)) (retire-QueuesKnown m id order h)
apply_event-QueuesKnown m key (OrderbookEvent.order_executed id taker _) h e =
    elim (Bool-cases (id == taker)) [
      | inl own ↦ rw (sym (ok-injective (rw own at e))) h
      | inr other ↦
          >>=-elim (ok_or (lookup id m.orders) _) _ (rw other at e)
            λ order _ r. rw (sym (ok-injective r)) (retire-QueuesKnown m id order h)
    ]
apply_event-QueuesKnown m key (OrderbookEvent.order_update id _ _ remaining _) h e =
    >>=-elim (ok_or (lookup id m.orders) _) _ e λ order _ r.
      rw (sym (ok-injective r)) (inserted m id (record order { quantity = remaining }) h)
apply_event-QueuesKnown m key _ h e = rw (sym (ok-injective e)) h
