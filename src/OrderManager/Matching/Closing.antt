-- ===== src/OrderManager/Matching/Closing.antt =====
-- The events after the loops: the taker's own `OrderExecuted` and the rest of a limit order.
use hyliquid.Prelude.{
  ℕ, ◌≡◌, refl, true, ◌&&◌, List, [], ◌∷◌, ◌++◌, ok, arith, ap, sym, if◌then◌else◌, ltb, eq_iff,
  >>=-eq-ok, ok-injective,
}
use mathlib.Core.List.{append-nil}
use hyliquid.Types.{Order, is_limit, OrderManager, OrderbookEvent}
use hyliquid.OrderManager.Matching.{Flow, finish, close_order}
use hyliquid.OrderManager.Matching.Cases.{reduced}
use hyliquid.OrderManager.Matching.Fills.{filled, filled-append, events_of}
use hyliquid.OrderManager.Matching.Priority.{maker_ids}
use hyliquid.OrderManager.Matching.Remainder.{created_orders, created_orders-append, Remains}

-- The rest of an order that enters the book.
unfoldable pub rested : Order → List Order
rested order = if ltb 0 order.quantity && is_limit order.order_type then order ∷ [] else []

-- The closing events trade nothing.
pub record Closes (m : OrderManager) (order : Order) (closing : List OrderbookEvent) : Type 0 where
  pub nothing_filled : filled m closing ≡ 0
  pub no_maker : maker_ids closing ≡ []
  pub rest : created_orders closing ≡ rested order

pub close_order-Closes :
    (m : OrderManager) (order : Order) {closing : List OrderbookEvent}
    → close_order order ≡ ok closing
    → Closes m order closing
unfolding close_order filled maker_ids created_orders rested
close_order-Closes m order h = ground (arith, eq_iff order.order_id order.order_id)

pub maker_ids-append :
    (es es' : List OrderbookEvent) → maker_ids (es ++ es') ≡ maker_ids es ++ maker_ids es'
unfolding maker_ids
maker_ids-append [] es' = refl
maker_ids-append (OrderbookEvent.order_executed id taker _ ∷ es) es' =
    ground (arith, maker_ids-append es es')
maker_ids-append (OrderbookEvent.order_update id _ _ _ _ ∷ es) es' =
    ap (◌∷◌ id) (maker_ids-append es es')
maker_ids-append (_ ∷ es) es' = maker_ids-append es es'

-- What the loops pushed stands first, and the rest of the events trades nothing.
pub finish_trades :
    (m : OrderManager) (flow : Flow) {es : List OrderbookEvent}
    → finish flow ≡ ok es
    → (filled m es ≡ filled m (events_of flow)) × (maker_ids es ≡ maker_ids (events_of flow))
unfolding finish events_of
finish_trades m (Flow.exhausted es' c) h =
    let (closing, p, q) = >>=-eq-ok (close_order c) _ h in
    let closes = close_order-Closes m c p in
    rw (ok-injective (sym q), filled-append, maker_ids-append, closes.no_maker)
      (omega (arith, closes.nothing_filled), append-nil _)
finish_trades m (Flow.break_outer es' c) h =
    let (closing, p, q) = >>=-eq-ok (close_order c) _ h in
    let closes = close_order-Closes m c p in
    rw (ok-injective (sym q), filled-append, maker_ids-append, closes.no_maker)
      (omega (arith, closes.nothing_filled), append-nil _)
finish_trades m (Flow.returned es') h = rw (ok-injective (sym h)) (refl, refl)

-- What remains of a limit order is what the events put into the book.
pub finish_rests :
    (m : OrderManager) (order : Order) (n : ℕ) (flow : Flow) {es : List OrderbookEvent}
    → is_limit order.order_type ≡ true
    → Remains order n flow
    → finish flow ≡ ok es
    → created_orders es ≡ rested (reduced order n)
unfolding finish rested
finish_rests m order n (Flow.exhausted es' c) limited r h =
    let (closing, p, q) = >>=-eq-ok (close_order c) _ h in
    let closes = close_order-Closes m c p in
    rw (ok-injective (sym q), created_orders-append, r.0, closes.rest, r.1)
finish_rests m order n (Flow.break_outer es' c) limited r h =
    let (closing, p, q) = >>=-eq-ok (close_order c) _ h in
    let closes = close_order-Closes m c p in
    rw (ok-injective (sym q), created_orders-append, r.0, closes.rest, r.1)
finish_rests m order n (Flow.returned es') limited r h =
    rw (ok-injective (sym h), r.0) (ground arith)
