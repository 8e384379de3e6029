-- ===== src/OrderManager/Matching/Execution.antt =====
-- `execute_order_dry_run` as a whole: how much an order trades, with whom, and what rests.
use hyliquid.Prelude.{
  ℕ, ◌+◌, ◌-◌, ◌<◌, ◌≡◌, refl, true, Option, none, some, List, [], ◌∷◌, ◌++◌, map, ok, arith, sym,
  ◌∙◌, min, sum, string_eq, pair_eq, >>=-eq-ok, if◌then◌else◌, eqb, ltb, ◌&&◌,
}
use hyliquid.Types.{Order, is_limit, OrderManager, OrderbookEvent, PriceLevels}
use hyliquid.OrderManager.Matching.{
  Flow, finish, check_new, counter_orders, match_levels, match_book, execute_order_dry_run,
  close_order, simulate_insert_order,
}
use hyliquid.OrderManager.Matching.Cases.{reduced}
use hyliquid.OrderManager.Matching.Flat.{queue, match_flat, match_levels-eq-match_flat}
use hyliquid.OrderManager.Matching.Resting.{resting, counter, opposite-none, opposite-some}
use hyliquid.OrderManager.Matching.Fills.{
  quantity_of, filled, available, eligible, match_flat-FillsMost,
}
use hyliquid.OrderManager.Matching.Priority.{maker_ids, NotQueued, TradesFirst, match_flat-InOrder}
use hyliquid.OrderManager.Matching.Remainder.{created_orders, Remains, match_flat-Leaves}
use hyliquid.OrderManager.Events.Queued.{QueuesKnown}
use hyliquid.OrderManager.Matching.Known.{resting-Resolves}
use hyliquid.OrderManager.Matching.Progress.{Resolves, match_flat_total}
use hyliquid.OrderManager.Matching.Closing.{rested, finish_trades, finish_rests}

-- A run that succeeds: the id was free, and either the side of the pair is missing and the limit
-- order rests whole, or the loop over the resting orders ends in some flow.
data Run (m : OrderManager) (order : Order) (es : List OrderbookEvent) : Type 0 where
  no_side :
      resting m order ≡ []
      → is_limit order.order_type ≡ true
      → es ≡ OrderbookEvent.order_created order ∷ []
      → Run m order es
  loops :
      (flow : Flow)
      → match_flat m order.order_side (resting m order) order ≡ ok flow
      → finish flow ≡ ok es
      → Run m order es

sum-rested :
    (order : Order) (n : ℕ)
    → is_limit order.order_type ≡ true
    → sum (map (λ o. o.quantity) (rested (reduced order n))) ≡ n
unfolding rested
sum-rested order n limited = ground arith

module _ (m : OrderManager) (order : Order) {es : List OrderbookEvent} where
  run_fresh : execute_order_dry_run m order ≡ ok es → quantity_of m order.order_id ≡ 0
  unfolding execute_order_dry_run quantity_of
  run_fresh h = ground arith

  match_book-Run :
      (side : Option PriceLevels)
      → counter m order.order_side order.pair ≡ side
      → match_book m order side ≡ ok es
      → Run m order es
  unfolding match_book resting simulate_insert_order
  match_book-Run none e h =
      Run.no_side (rw (opposite-none m order.order_side order.pair e)) (ground arith) (ground arith)
  match_book-Run (some levels) e h =
      let entries = counter_orders order.order_side levels in
      let (flow, p, q) = >>=-eq-ok (match_levels m order.order_side entries order) finish h in
      Run.loops flow
        (rw (opposite-some m order.order_side order.pair e)
          (sym (match_levels-eq-match_flat m order.order_side entries order) ∙ p))
        q

  execute-Run : execute_order_dry_run m order ≡ ok es → Run m order es
  unfolding execute_order_dry_run counter
  execute-Run h = let (_, _, p) = >>=-eq-ok (check_new m order) _ h in match_book-Run _ refl p

  Run-filled :
      quantity_of m order.order_id ≡ 0
      → Run m order es
      → filled m es
        ≡ min order.quantity (available m (eligible order.order_side order.price (resting m order)))
  unfolding filled available eligible
  Run-filled fresh (Run.no_side r limited p) = rw (p, r) (omega arith)
  Run-filled fresh (Run.loops flow p q) =
      (finish_trades m flow q).0
      ∙ match_flat-FillsMost m order.order_side (resting m order) order flow fresh p

  -- An order that is accepted trades as much as it can: its quantity, or all that the orders at the
  -- front of the opposite side offer within its limit, whichever is less.
  pub filled-execute_order_dry_run :
      execute_order_dry_run m order ≡ ok es
      → filled m es
        ≡ min order.quantity (available m (eligible order.order_side order.price (resting m order)))
  filled-execute_order_dry_run h = Run-filled (run_fresh h) (execute-Run h)

  Run-TradesFirst :
      NotQueued order.order_id (resting m order)
      → Run m order es
      → TradesFirst (eligible order.order_side order.price (resting m order)) es
  unfolding eligible maker_ids
  Run-TradesFirst other (Run.no_side r limited p) = rw (p, r) ([], refl)
  Run-TradesFirst other (Run.loops flow p q) =
      rw (finish_trades m flow q).1
        (match_flat-InOrder m order.order_side (resting m order) order flow other p)

  -- Price and time priority: the resting orders that an order trades with are the first of those
  -- within its limit, best price first and in the order of arrival at one price, where no resting
  -- order has the id of the new one.
  pub execute_order_dry_run-TradesFirst :
      NotQueued order.order_id (resting m order)
      → execute_order_dry_run m order ≡ ok es
      → TradesFirst (eligible order.order_side order.price (resting m order)) es
  execute_order_dry_run-TradesFirst other h = Run-TradesFirst other (execute-Run h)

  Run-rested :
      0 < order.quantity
      → is_limit order.order_type ≡ true
      → Run m order es
      → created_orders es
        ≡ rested (
            reduced order (
              order.quantity
              - available m (eligible order.order_side order.price (resting m order))))
  unfolding created_orders eligible available rested
  Run-rested lt limited (Run.no_side r _ p) = rw (p, r) (ground arith)
  Run-rested lt limited (Run.loops flow p q) =
      finish_rests m order _ flow limited
        (match_flat-Leaves m order.order_side (resting m order) order flow lt p) q

  -- What a positive limit order does not trade rests in the book: one order with the terms of the
  -- new one and the quantity that is left, and none where nothing is left.
  pub created_orders-execute_order_dry_run :
      0 < order.quantity
      → is_limit order.order_type ≡ true
      → execute_order_dry_run m order ≡ ok es
      → created_orders es
        ≡ rested (
            reduced order (
              order.quantity
              - available m (eligible order.order_side order.price (resting m order))))
  created_orders-execute_order_dry_run lt limited h = Run-rested lt limited (execute-Run h)

  -- No quantity is lost: a positive limit order trades and rests for just its quantity.
  pub execute_order_dry_run_conserves :
      0 < order.quantity
      → is_limit order.order_type ≡ true
      → execute_order_dry_run m order ≡ ok es
      → filled m es + sum (map (λ o. o.quantity) (created_orders es)) ≡ order.quantity
  execute_order_dry_run_conserves lt limited h =
      rw (created_orders-execute_order_dry_run lt limited h)
        (omega (arith, filled-execute_order_dry_run h, sum-rested order _ limited))

-- The events that close an order with a positive price.
closing_events : Order → List OrderbookEvent
closing_events order =
    (if eqb order.quantity 0
      then OrderbookEvent.order_executed order.order_id order.order_id order.pair ∷ []
      else [])
    ++ (if ltb 0 order.quantity && is_limit order.order_type
        then OrderbookEvent.order_created order ∷ []
        else [])

close_order_total :
    (order : Order) (price : ℕ)
    → order.price ≡ some price
    → 0 < price
    → close_order order ≡ ok (closing_events order)
unfolding close_order closing_events
close_order_total order price e lt = ground arith

finish_total :
    (order : Order) (n price : ℕ) (flow : Flow)
    → order.price ≡ some price
    → 0 < price
    → Remains order n flow
    → (es : List OrderbookEvent) × (finish flow ≡ ok es)
unfolding finish
finish_total order n price (Flow.exhausted es c) e lt r =
    (es ++ closing_events c, rw (close_order_total c price (cc) lt))
finish_total order n price (Flow.break_outer es c) e lt r =
    (es ++ closing_events c, rw (close_order_total c price (cc) lt))
finish_total order n price (Flow.returned es) e lt r = (es, refl)

module _ (m : OrderManager) (order : Order) {price : ℕ} where
  match_book_total :
      (side : Option PriceLevels)
      → counter m order.order_side order.pair ≡ side
      → order.price ≡ some price
      → 0 < price
      → 0 < order.quantity
      → is_limit order.order_type ≡ true
      → Resolves m (resting m order)
      → (es : List OrderbookEvent) × (match_book m order side ≡ ok es)
  unfolding match_book resting simulate_insert_order
  match_book_total none s e lt pos limited known =
      (OrderbookEvent.order_created order ∷ [], ground arith)
  match_book_total (some levels) s e lt pos limited known =
      let entries = counter_orders order.order_side levels in
      let (flow, p) =
        match_flat_total m order.order_side (queue entries) order
          (rw (opposite-some m order.order_side order.pair s) at known) (rw e lt) in
      let (es, q) =
        finish_total order _ price flow e lt
          (match_flat-Leaves m order.order_side (queue entries) order flow pos p) in
      (es, rw (match_levels-eq-match_flat m order.order_side entries order, p) q)

  -- A limit order with a positive price and quantity and a free id is never refused, where every
  -- id in a queue of the book has its order on record.
  pub execute_order_dry_run_total :
      quantity_of m order.order_id ≡ 0
      → order.price ≡ some price
      → 0 < price
      → 0 < order.quantity
      → is_limit order.order_type ≡ true
      → QueuesKnown m
      → (es : List OrderbookEvent) × (execute_order_dry_run m order ≡ ok es)
  unfolding execute_order_dry_run quantity_of counter
  execute_order_dry_run_total fresh e lt pos limited known =
      let (es, p) = match_book_total _ refl e lt pos limited (resting-Resolves m order known) in
      (es, ground arith)
