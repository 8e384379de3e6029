-- ===== src/Tests/Collection.antt =====
-- The tables of the order book that go to a proof and come back.
use hyliquid.Prelude.{◌≡◌, refl, [], ◌∷◌, lookup, ok, List, arith}
use hyliquid.Types.{
  OrderManager, ExecuteState, OrderSide, Order, OrderbookEvent, OrderCollectionMode,
}
use hyliquid.Contract.Witness.{into_orderbook_state, take_changes_back}
use hyliquid.Contract.Restored.{IsTable, into_orderbook_state-take_changes_back}
use hyliquid.Contract.Collection.{OrdersNeeded, collect_orders_updates}
use hyliquid.Contract.Covered.{AllCovered, collect_orders_updates-AllCovered}
use hyliquid.Contract.Collected.{Genuine, collect_orders_updates-Genuine}
use hyliquid.Tests.Fixtures.{eth_usdc, ask_of}
use hyliquid.Tests.Ledger.{resting_bid, ledger}
use hyliquid.Tests.Contract.{witnessed}

-- Two levels of bids, of which one has lost its orders, and one of asks.
abbrev two_sided : OrderManager
two_sided = record {
  orders = ("o", resting_bid) ∷ ("p", ask_of "p" 130 2) ∷ [];
  bid_orders = (eth_usdc, (90, []) ∷ (100, "o" ∷ []) ∷ []) ∷ [];
  ask_orders = (eth_usdc, (130, "p" ∷ []) ∷ []) ∷ [];
  orders_owner = ("o", 97) ∷ ("p", 98) ∷ [];
}

abbrev two_sided_ledger : ExecuteState
two_sided_ledger = record ledger { order_manager = two_sided }

two_sided-IsTable : IsTable two_sided
unfolding lookup
two_sided-IsTable = record {
  orders = (refl, refl, (refl, refl, tt));
  bids = (refl, (λ h. cc), (tt, ((ground arith, tt), tt)), tt);
  asks = (refl, (λ h. cc), (tt, tt), tt);
}

into_orderbook_state-take_changes_back_example :
    (into_orderbook_state (take_changes_back witnessed two_sided_ledger)).1.order_manager
    ≡ two_sided
into_orderbook_state-take_changes_back_example =
    into_orderbook_state-take_changes_back witnessed two_sided_ledger two_sided-IsTable

-- An order takes the resting ask and rests with what is left of it.
abbrev newcomer : Order
newcomer = record (ask_of "b" 130 3) { order_side = OrderSide.bid }

abbrev outcome : List OrderbookEvent
outcome =
    OrderbookEvent.order_executed "p" "b" eth_usdc ∷ OrderbookEvent.order_created newcomer ∷ []

abbrev needed : OrdersNeeded
needed = record {
  orders_to_update = ask_of "p" 130 2 ∷ record newcomer { quantity = 0 } ∷ [];
  bid_order_price_levels = record { pair = eth_usdc; price = 130; order_ids = [] } ∷ [];
  ask_order_price_levels = record { pair = eth_usdc; price = 130; order_ids = "p" ∷ [] } ∷ [];
}

run_collect :
    collect_orders_updates two_sided outcome OrderCollectionMode.for_initial_state_witness
    ≡ ok needed
unfolding collect_orders_updates lookup
run_collect = refl

collect_orders_updates-Genuine_example :
    Genuine two_sided OrderCollectionMode.for_initial_state_witness outcome needed
collect_orders_updates-Genuine_example =
    collect_orders_updates-Genuine two_sided outcome OrderCollectionMode.for_initial_state_witness
      needed run_collect

collect_orders_updates-AllCovered_example :
    AllCovered two_sided OrderCollectionMode.for_initial_state_witness outcome needed
collect_orders_updates-AllCovered_example =
    collect_orders_updates-AllCovered two_sided outcome
      OrderCollectionMode.for_initial_state_witness needed run_collect
