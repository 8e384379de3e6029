-- ===== src/Tests/State.antt =====
-- Deposits, withdrawals, cancellations, settlement and authorisation on the small state.
use hyliquid.Prelude.{
  arith, ◌≤◌, ◌≡◌, remove, retain, or_insert, insert, lookup, sum, Bytes, bytes_eq, bytes_beq,
  decimal, ◌+◌, refl, none, some, List, [], ◌∷◌, ok, lookup, string_eq, nat_eq, insert, pos,
  as_bytes, checked_add, to_u64, ◌+ℤ◌, neg,
}
use hyliquid.Types.{OrderManager, ExecuteState, OrderbookEvent, OrderRetentionMode}
use hyliquid.State.Accounts.{required_symbol, deposit, withdraw, cancel_order}
use hyliquid.State.Accounts.Effects.{balance_at, nonce_of}
use hyliquid.State.Accounts.Outcomes.{cancel_order_credits}
use hyliquid.State.Users.{get_key}
use hyliquid.State.Apply.{
  apply_events, apply_events_with_mode, apply_events_preserving_zeroed_orders,
}
use hyliquid.OrderManager.Events.Queued.{QueuesKnown}
use hyliquid.State.Queues.{apply_events_preserving_zeroed_orders-QueuesKnown}
use hyliquid.State.Settlement.{Settlement, record_transfer, settle}
use hyliquid.State.Settlement.Totals.{total_of}
use hyliquid.State.Settlement.Conservation.{
  newly_held, no_longer_held, partial_fills, IsSound, settle_conserves,
}
use hyliquid.Tests.Fixtures.{book, eth_usdc, taker_events}
use hyliquid.Actions.{PermissionedOrderbookAction}
use hyliquid.Transaction.{execute_permissioned_action, withdraw_text}
use hyliquid.Transaction.Authorization.{
  IsAuthorized, signed_text, execute_permissioned_action-IsAuthorized,
}
use hyliquid.Tests.Ledger.{demo, alice, bids, resting_bid, user_of, ledger, unsettled}

run_deposit :
    deposit demo ledger "ETH" 5 alice ≡ ok (OrderbookEvent.balance_updated "a" "ETH" 15 ∷ [])
unfolding deposit lookup checked_add as_bytes
run_deposit = refl

abbrev withdrawn : List OrderbookEvent
withdrawn = OrderbookEvent.balance_updated "a" "ETH" 3 ∷ OrderbookEvent.nonce_incremented "a" 5 ∷ []

run_withdraw : withdraw demo ledger "ETH" 7 alice ≡ ok withdrawn
unfolding withdraw lookup as_bytes checked_add
run_withdraw = refl

-- The refund of a bid adds its quantity, 3, where 300 were locked.
abbrev cancelled : List OrderbookEvent
cancelled =
    OrderbookEvent.order_cancelled "o" eth_usdc
    ∷ OrderbookEvent.balance_updated "a" "USDC" 703
    ∷ OrderbookEvent.nonce_incremented "a" 5
    ∷ []

run_cancel : cancel_order demo ledger "o" alice ≡ ok cancelled
unfolding cancel_order lookup checked_add as_bytes
run_cancel = refl

cancel_order_credits_example :
    (s' : ExecuteState) × (apply_events demo ledger alice cancelled ≡ ok s')
    × (balance_at s' "USDC" 97 ≡ 703)
    × (nonce_of s' "a" ≡ some 5)
    × (lookup "o" s'.order_manager.orders ≡ none)
    × (lookup "o" s'.order_manager.orders_owner ≡ none)
unfolding balance_at lookup required_symbol get_key as_bytes
cancel_order_credits_example =
    cancel_order_credits demo ledger "o" alice _ "USDC" 97 refl run_cancel

abbrev transferred : Settlement
transferred = record {
  balance_changes = ("ETH", (97, 6) ∷ (7, 4) ∷ []) ∷ ("USDC", (97, 2000) ∷ []) ∷ [];
  touched_accounts = ("ETH", 7 ∷ 97 ∷ []) ∷ [];
  user_keys = 7 ∷ 97 ∷ [];
}

run_transfer : record_transfer unsettled 97 7 "ETH" (pos 4) ≡ ok transferred
unfolding record_transfer lookup to_u64 ◌+ℤ◌ neg insert
run_transfer = refl

abbrev settled : Settlement
settled = record {
  balance_changes = ("ETH", (97, 17) ∷ []) ∷ ("USDC", (97, 985) ∷ (7, 300) ∷ (8, 400) ∷ []) ∷ [];
  touched_accounts = ("USDC", 8 ∷ 7 ∷ 97 ∷ []) ∷ ("ETH", 97 ∷ []) ∷ [];
  user_keys = 8 ∷ 7 ∷ 97 ∷ [];
}

run_settle : settle 1 97 book "b1" unsettled taker_events ≡ ok settled
unfolding settle lookup to_u64 ◌+ℤ◌ neg insert
run_settle = refl

-- A third of a resting bid for three at 100 is filled, with a base scale of three: the bid holds 34
-- less, and 33 are paid.
abbrev one_third : List OrderbookEvent
one_third = OrderbookEvent.order_update "o" "s1" 1 2 eth_usdc ∷ []

abbrev bids_of_another : OrderManager
bids_of_another = record bids { orders_owner = ("o", 98) ∷ [] }

abbrev paid : Settlement
paid = record {
  balance_changes = ("ETH", (97, 9) ∷ (98, 1) ∷ []) ∷ ("USDC", (97, 2033) ∷ []) ∷ [];
  touched_accounts = ("ETH", 98 ∷ 97 ∷ []) ∷ ("USDC", 98 ∷ 97 ∷ []) ∷ [];
  user_keys = 98 ∷ 97 ∷ [];
}

run_one_third : settle 3 97 bids_of_another "s1" unsettled one_third ≡ ok paid
unfolding settle lookup to_u64 ◌+ℤ◌ neg insert
run_one_third = refl

one_third-IsSound : IsSound 3 "USDC" bids_of_another one_third
unfolding lookup
one_third-IsSound = (λ maker found. ground arith, tt)

settle_conserves_example :
    (total_of paid "USDC" + newly_held 3 "USDC" bids_of_another one_third
      ≤ total_of unsettled "USDC" + no_longer_held 3 "USDC" bids_of_another "s1" one_third)
    × (total_of unsettled "USDC" + no_longer_held 3 "USDC" bids_of_another "s1" one_third
        ≤ total_of paid "USDC"
          + newly_held 3 "USDC" bids_of_another one_third
          + partial_fills 3 "USDC" bids_of_another "s1" one_third)
settle_conserves_example =
    settle_conserves 3 "USDC" bids_of_another "s1" (omega arith) 97 one_third unsettled paid
      one_third-IsSound run_one_third

-- Seven units of the first asset are withdrawn to another network, with a signature over the text
-- of the action.
abbrev withdrawal : PermissionedOrderbookAction
withdrawal =
    PermissionedOrderbookAction.withdraw "ETH" 7 (record { network = "main"; address = "x" })

abbrev signature : Bytes
signature = sum (as_bytes "a:4:withdraw:ETH:7") ∷ []

abbrev after_withdrawal : ExecuteState
after_withdrawal = record ledger {
  users_info = ("a", user_of "a" 5) ∷ ("b", user_of "b" 0) ∷ [];
  balances = ("ETH", (97, 3) ∷ []) ∷ ("USDC", (97, 700) ∷ (98, 50) ∷ []) ∷ [];
}

run_withdrawal :
    execute_permissioned_action demo ledger alice withdrawal signature
    ≡ ok (after_withdrawal, withdrawn)
unfolding execute_permissioned_action lookup bytes_beq as_bytes decimal checked_add insert
run_withdrawal = refl

execute_permissioned_action-IsAuthorized_example :
    IsAuthorized demo alice (as_bytes "withdraw:ETH:7") signature
    × (nonce_of after_withdrawal "a" ≡ some 5)
unfolding signed_text as_bytes withdraw_text decimal
execute_permissioned_action-IsAuthorized_example =
    execute_permissioned_action-IsAuthorized demo alice ledger withdrawal
      (as_bytes "withdraw:ETH:7") signature refl run_withdrawal

abbrev new_pair : List OrderbookEvent
new_pair =
    OrderbookEvent.pair_created ("BTC", "USDC")
      (record {
        base = record { scale = 8; contract_name = "btc" };
        quote = record { scale = 2; contract_name = "usdc" };
      })
    ∷ []

abbrev listed : ExecuteState
listed = record ledger {
  assets_info =
      ("ETH", record { scale = 1; contract_name = "eth" })
      ∷ ("USDC", record { scale = 2; contract_name = "usdc" })
      ∷ ("BTC", record { scale = 8; contract_name = "btc" })
      ∷ [];
  balances = ("ETH", (97, 10) ∷ []) ∷ ("USDC", (97, 700) ∷ (98, 50) ∷ []) ∷ ("BTC", []) ∷ [];
}

run_new_pair :
    apply_events_with_mode demo ledger alice new_pair OrderRetentionMode.finalize_removals
    ≡ ok listed
unfolding apply_events_with_mode lookup insert or_insert
run_new_pair = refl

-- After the cancellation the id is off its queue, and the order stays with quantity zero.
abbrev retired : ExecuteState
retired = record ledger {
  users_info = ("a", user_of "a" 5) ∷ ("b", user_of "b" 0) ∷ [];
  balances = ("ETH", (97, 10) ∷ []) ∷ ("USDC", (97, 703) ∷ (98, 50) ∷ []) ∷ [];
  order_manager = record {
    orders = ("o", record resting_bid { quantity = 0 }) ∷ [];
    bid_orders = (eth_usdc, (100, []) ∷ []) ∷ [];
    ask_orders = [];
    orders_owner = [];
  };
}

run_cancelled : apply_events_preserving_zeroed_orders demo ledger alice cancelled ≡ ok retired
unfolding apply_events_preserving_zeroed_orders lookup insert as_bytes retain remove
run_cancelled = refl

apply_events_preserving_zeroed_orders-QueuesKnown_example : QueuesKnown retired.order_manager
unfolding lookup
apply_events_preserving_zeroed_orders-QueuesKnown_example =
    apply_events_preserving_zeroed_orders-QueuesKnown demo alice cancelled ledger
      (((((refl, tt), tt)), tt), tt) run_cancelled
