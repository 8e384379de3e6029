-- ===== src/Contract/Restored.antt =====
-- The order manager that the contract hands back with the witnessed values and that the next
-- transaction reads from them (contracts/orderbook/src/zk/contract.rs, `take_changes_back` and
-- `into_orderbook_state`; zk/order_merkle.rs).
use hyliquid.Prelude.{
  ℕ, ◌<◌, none, some, List, [], ◌∷◌, ◌++◌, ◌≡◌, ◌≢◌, refl, sym, ap, ◌∙◌, Map, lookup, insert,
  get_or, arith, nat_eq, string_eq, pair_eq, Keyed,
}
use mathlib.Core.List.{append_assoc, append-nil}
use hyliquid.Types.{OrderId, Pair, Order, PriceLevels, OrderManager, ExecuteState}
use hyliquid.OrderManager.Levels.{insert_level}
use hyliquid.State.Users.{values}
use hyliquid.Contract.Witness.{
  ZkVmState, OrderPriceLevel, index_orders, index_levels, levels_from, collect_price_levels,
  into_order_manager, into_orderbook_state, take_changes_back,
}

-- Each order stands under its id, and no id stands twice: none is among the entries before.
abbrev pub IndexedAfter : (before orders : Map OrderId Order) → Type 0
IndexedAfter before [] = Unit
IndexedAfter before ((id, order) ∷ rest) =
    (id ≡ order.order_id)
    × (lookup id before ≡ none)
    × IndexedAfter (before ++ (id, order) ∷ []) rest

-- The prices increase from level to level.
abbrev pub AllBelow : ℕ → PriceLevels → Type 0
AllBelow price [] = Unit
AllBelow price ((p, q) ∷ levels) = (p < price) × AllBelow price levels

abbrev pub RisingAfter : (before levels : PriceLevels) → Type 0
RisingAfter before [] = Unit
RisingAfter before ((p, q) ∷ levels) =
    AllBelow p before × RisingAfter (before ++ (p, q) ∷ []) levels

-- No pair stands twice, and each has at least one level.
abbrev pub SidesAfter : (before side : Map Pair PriceLevels) → Type 0
SidesAfter before [] = Unit
SidesAfter before ((pair, levels) ∷ rest) =
    (lookup pair before ≡ none)
    × (levels ≢ [])
    × RisingAfter [] levels
    × SidesAfter (before ++ (pair, levels) ∷ []) rest

-- An order manager as the maps of the source can hold it, without a pair that has no levels.
pub record IsTable (m : OrderManager) : Type 0 where
  pub orders : IndexedAfter [] m.orders
  pub bids : SidesAfter [] m.bid_orders
  pub asks : SidesAfter [] m.ask_orders

module _ {ℓ κ} {K : Type ℓ} {V : Type κ} ⦃e : Keyed K⦄ where
  insert_absent :
      (key : K) (v : V) (table : Map K V)
      → lookup key table ≡ none
      → insert key v table ≡ table ++ (key, v) ∷ []
  unfolding insert lookup
  insert_absent key v [] h = refl
  insert_absent key v ((other, old) ∷ rest) h = ground (arith, insert_absent key v rest)

  insert_last :
      (key : K) (v old : V) (table : Map K V)
      → lookup key table ≡ none
      → insert key v (table ++ (key, old) ∷ []) ≡ table ++ (key, v) ∷ []
  unfolding insert lookup
  insert_last key v old [] h = ground (arith, e.same_iff key key)
  insert_last key v old ((other, w) ∷ rest) h = ground (arith, insert_last key v old rest)

  lookup_last :
      (key : K) (old : V) (table : Map K V)
      → lookup key table ≡ none
      → lookup key (table ++ (key, old) ∷ []) ≡ some old
  unfolding lookup
  lookup_last key old [] h = ground (arith, e.same_iff key key)
  lookup_last key old ((other, w) ∷ rest) h = ground (arith, lookup_last key old rest)

insert_level_above :
    (p : ℕ) (q : List OrderId) (levels : PriceLevels)
    → AllBelow p levels
    → insert_level p q levels ≡ levels ++ (p, q) ∷ []
unfolding insert_level
insert_level_above p q [] h = refl
insert_level_above p q ((p', q') ∷ levels) (below, h) =
    ground (arith, insert_level_above p q levels h)

index_orders-values :
    (before orders : Map OrderId Order)
    → IndexedAfter before orders
    → index_orders (values orders) before ≡ before ++ orders
unfolding index_orders values
index_orders-values before [] h = sym (append-nil before)
index_orders-values before ((id, order) ∷ rest) (named, fresh, h) =
    ap (λ key. index_orders (values rest) (insert key order before)) (sym named)
    ∙ ap (index_orders (values rest)) (insert_absent id order before fresh)
    ∙ index_orders-values (before ++ (id, order) ∷ []) rest h
    ∙ append_assoc before ((id, order) ∷ []) rest

-- The further levels of a pair that stands last.
index_levels-further :
    (before : Map Pair PriceLevels) (pair : Pair) (done levels : PriceLevels)
    → (more : List OrderPriceLevel) → lookup pair before ≡ none
    → RisingAfter done levels
    → index_levels (levels_from pair levels ++ more) (before ++ (pair, done) ∷ [])
      ≡ index_levels more (before ++ (pair, done ++ levels) ∷ [])
unfolding index_levels levels_from
index_levels-further before pair done [] more fresh h =
    ap (λ l. index_levels more (before ++ (pair, l) ∷ [])) (sym (append-nil done))
index_levels-further before pair done ((p, q) ∷ levels) more fresh (above, h) =
    let table = before ++ (pair, done) ∷ [] in
    let later = levels_from pair levels ++ more in
    ap (λ o. index_levels later (insert pair (insert_level p q (get_or o [])) table))
      (lookup_last pair done before fresh)
    ∙ ap (λ l. index_levels later (insert pair l table)) (insert_level_above p q done above)
    ∙ ap (index_levels later) (insert_last pair (done ++ (p, q) ∷ []) done before fresh)
    ∙ index_levels-further before pair (done ++ (p, q) ∷ []) levels more fresh h
    ∙ ap (λ l. index_levels more (before ++ (pair, l) ∷ []))
        (append_assoc done ((p, q) ∷ []) levels)

index_levels-collect :
    (before side : Map Pair PriceLevels)
    → SidesAfter before side
    → index_levels (collect_price_levels side) before ≡ before ++ side
unfolding index_levels levels_from collect_price_levels
index_levels-collect before [] h = sym (append-nil before)
index_levels-collect before ((pair, []) ∷ rest) (fresh, some_level, rising, h) =
    absurd (some_level refl)
index_levels-collect before ((pair, (p, q) ∷ levels) ∷ rest) (fresh, some_level, (_, rising), h) =
    let later = levels_from pair levels ++ collect_price_levels rest in
    ap (λ o. index_levels later (insert pair (insert_level p q (get_or o [])) before)) fresh
    ∙ ap (index_levels later) (insert_absent pair ((p, q) ∷ []) before fresh)
    ∙ index_levels-further before pair ((p, q) ∷ []) levels (collect_price_levels rest) fresh rising
    ∙ index_levels-collect (before ++ (pair, (p, q) ∷ levels) ∷ []) rest h
    ∙ append_assoc before ((pair, (p, q) ∷ levels) ∷ []) rest

-- The order manager that a transaction hands back with the witnessed values is the one that they
-- are read as, if in its tables each order stands under its own id, no id or pair stands twice,
-- each pair has a level and the prices of a pair increase. The queues may be empty.
pub into_orderbook_state-take_changes_back :
    (z : ZkVmState) (s : ExecuteState)
    → IsTable s.order_manager
    → (into_orderbook_state (take_changes_back z s)).1.order_manager ≡ s.order_manager
unfolding into_orderbook_state take_changes_back into_order_manager
into_orderbook_state-take_changes_back z s t =
    let orders = index_orders-values [] s.order_manager.orders t.orders in
    let bids = index_levels-collect [] s.order_manager.bid_orders t.bids in
    let asks = index_levels-collect [] s.order_manager.ask_orders t.asks in
    rw orders (rw bids (rw asks refl))
