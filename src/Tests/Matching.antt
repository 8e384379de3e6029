-- ===== src/Tests/Matching.antt =====
-- `execute_order_dry_run` on the small book.
use hyliquid.Prelude.{◌≡◌, ◌-◌, refl, List, [], ◌∷◌, ok, arith, lookup, min}
use hyliquid.Types.{OrderbookEvent}
use hyliquid.OrderManager.Matching.{execute_order_dry_run, match_levels}
use hyliquid.OrderManager.Matching.Cases.{reduced}
use hyliquid.OrderManager.Matching.Fills.{quantity_of, filled, available, eligible}
use hyliquid.OrderManager.Matching.Flat.{queue, match_flat, match_levels-eq-match_flat}
use hyliquid.OrderManager.Matching.Priority.{TradesFirst}
use hyliquid.OrderManager.Matching.Remainder.{created_orders}
use hyliquid.OrderManager.Matching.Closing.{rested}
use hyliquid.OrderManager.Matching.Resting.{resting}
use hyliquid.OrderManager.Matching.Execution.{
  filled-execute_order_dry_run, execute_order_dry_run-TradesFirst,
  created_orders-execute_order_dry_run, execute_order_dry_run_total,
}
use hyliquid.Tests.Fixtures.{book, taker, taker_events}

run_taker : execute_order_dry_run book taker ≡ ok taker_events
unfolding execute_order_dry_run lookup
run_taker = refl

filled-execute_order_dry_run_example :
    filled book taker_events
    ≡ min 10 (available book (eligible taker.order_side taker.price (resting book taker)))
filled-execute_order_dry_run_example = filled-execute_order_dry_run book taker run_taker

execute_order_dry_run-TradesFirst_example :
    TradesFirst (eligible taker.order_side taker.price (resting book taker)) taker_events
unfolding resting lookup
execute_order_dry_run-TradesFirst_example =
    execute_order_dry_run-TradesFirst book taker (refl, (refl, (refl, tt))) run_taker

created_orders-execute_order_dry_run_example :
    created_orders taker_events
    ≡ rested (
        reduced taker
          (10 - available book (eligible taker.order_side taker.price (resting book taker))))
created_orders-execute_order_dry_run_example =
    created_orders-execute_order_dry_run book taker (omega arith) refl run_taker

execute_order_dry_run_total_example :
    (es : List OrderbookEvent) × (execute_order_dry_run book taker ≡ ok es)
unfolding resting lookup quantity_of
execute_order_dry_run_total_example =
    execute_order_dry_run_total book taker refl refl (omega arith) (omega arith) refl
      (tt, (((refl, (refl, tt)), ((refl, tt), tt)), tt))

match_levels-eq-match_flat_example :
    match_levels book taker.order_side ((100, "a1" ∷ "a2" ∷ []) ∷ []) taker
    ≡ match_flat book taker.order_side (queue ((100, "a1" ∷ "a2" ∷ []) ∷ [])) taker
match_levels-eq-match_flat_example =
    match_levels-eq-match_flat book taker.order_side ((100, "a1" ∷ "a2" ∷ []) ∷ []) taker
