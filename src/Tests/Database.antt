-- ===== src/Tests/Database.antt =====
-- The laws of the database module at a small outbox: a commit that waits, and the request of the
-- next, which cancels an order.
use hyliquid.Prelude.{
  ℕ, map, lookup, ◌+ℤ◌, neg, ◌+◌, ◌≤◌, ◌<◌, ◌≡◌, ◌≢◌, refl, true, false, List, [], ◌∷◌, ◌++◌, ok,
  panic, inl, inr, All, arith,
}
use hyliquid.Types.{OrderbookEvent, UserInfo}
use hyliquid.Actions.{PermissionedOrderbookAction}
use hyliquid.Server.App.{BlobTransaction, WriteEvents}
use hyliquid.Server.Database.Tables.{Tables, OutboxRow}
use hyliquid.Server.Database.Session.{Database, transaction, statement}
use hyliquid.Server.Database.Writing.{write_event, write_events}
use hyliquid.Server.Database.Outbox.{last_sent, find_pending, flush_blob_queue}
use hyliquid.Server.Database.Flushing.{Step, Steps, no_step, step}
use hyliquid.Server.Database.Deliveries.{IsOrderly, reach}
use hyliquid.Server.Database.Ordered.{Steps-IsOrderly}
use hyliquid.Server.Database.Blocked.{OnlyCancels, IsBlocked, Steps-IsBlocked}
use hyliquid.Server.Database.Settled.{flush_blob_queue-NoPanic}
use hyliquid.Server.Database.Drained.{due, AllPending, flush_blob_queue-Drains}
use hyliquid.Server.Database.Aggregator.{DatabaseAggregator}
use hyliquid.Server.Database.Rows.{
  row_of, insert_commit, update_nonce, insert_nonce, insert_prover_request, insert_contract_events,
  insert_outbox,
}
use hyliquid.Server.Database.Dumping.{for_each, dump_rows, update_orders, dump_to_db}
use hyliquid.Server.Database.Statuses.{KeysOnce, settled_row}
use hyliquid.Server.Database.Dumped.{dump_to_db-settled_row}
use hyliquid.Server.Database.Forgotten.{dump_to_db-Forgotten}
use hyliquid.Server.Database.Written.{write_all, write_all-delivery_of}
use hyliquid.Tests.Fixtures.{eth_usdc, ask_of}

abbrev blob_of_alice : BlobTransaction
blob_of_alice = record { identity = "alice"; blobs = [] }

abbrev alice : UserInfo
alice = record { user = "alice"; salt = []; nonce = 4; session_keys = [] }

abbrev cancellation : WriteEvents
cancellation = record {
  user = alice;
  tx_hash = 6;
  blob_tx = blob_of_alice;
  prover_request = record {
    events =
        OrderbookEvent.order_cancelled "o" eth_usdc
        ∷ OrderbookEvent.nonce_incremented "alice" 5
        ∷ [];
    user_info = alice;
    action_private_input = [];
    orderbook_action = PermissionedOrderbookAction.identify;
    tx_hash = 6;
    nonce = 2;
  };
}

abbrev waiting : List OutboxRow
waiting = record { commit_id = 1; blob_tx = blob_of_alice; is_sent = false; attempts = 0 } ∷ []

abbrev tables : Tables
tables = record {
  commits = record { commit_id = 1; tx_hash = 5 } ∷ [];
  instruments = [];
  balance_events = [];
  orders = [];
  order_events = [];
  trade_events = [];
  users = [];
  user_session_keys = [];
  user_events_nonces = [];
  prover_requests = [];
  contract_events = [];
  blob_tx_outbox = waiting;
  balances = [];
}

abbrev nothing : DatabaseAggregator
nothing = record {
  executed_orders = [];
  cancelled_orders = [];
  updated_orders = [];
  trigger_notify_trades = false;
  trigger_notify_orders = false;
  symbol_book_updated = [];
  updated_balances = [];
}

-- The third call fails.
abbrev start : Database
start = record {
  tables = tables;
  instrument_seq = 0;
  asset_service = record { asset_map = []; instrument_map = [] };
  aggregator = nothing;
  received = [];
  faults = false ∷ false ∷ true ∷ [];
}

abbrev calm : Database
calm = record start { faults = [] }

abbrev tried : Database
tried = (flush_blob_queue start).0

abbrev refused : Database
refused = (write_events false cancellation tried).0

abbrev flushed : Database
flushed = (flush_blob_queue refused).0

-- A sending that fails, a request that cancels an order, and a sending that succeeds.
run : (Allowed : WriteEvents → Type 0) → Allowed cancellation → Steps Allowed false start flushed
run Allowed allowed =
    step (step (step no_step (Step.flushed start)) (Step.wrote tried cancellation allowed))
      (Step.flushed refused)

waiting-IsOrderly : IsOrderly waiting []
unfolding reach last_sent
waiting-IsOrderly = record { top = 0; reached = refl; close = inl refl; genuine = tt }

Steps-IsOrderly_example : IsOrderly flushed.tables.blob_tx_outbox flushed.received
Steps-IsOrderly_example =
    Steps-IsOrderly false start flushed waiting-IsOrderly (run (λ request. Unit) tt)

waiting-IsBlocked : IsBlocked 2 waiting []
unfolding last_sent
waiting-IsBlocked = record { missing = (ground arith, tt); marked = ground arith; before = tt }

Steps-IsBlocked_example : All (λ d. d.0 < 2) flushed.received
Steps-IsBlocked_example =
    Steps-IsBlocked 2 false start flushed waiting-IsBlocked (run (OnlyCancels 2) (inr refl))

flush_blob_queue-NoPanic_example : (flush_blob_queue start).1 ≢ panic
flush_blob_queue-NoPanic_example = flush_blob_queue-NoPanic start

all_pending : AllPending 1 waiting
unfolding find_pending last_sent
all_pending id above below = ground arith

flush_blob_queue-Drains_example :
    ((flush_blob_queue calm).1 ≡ ok tt)
    × ((flush_blob_queue calm).0.received ≡ [] ++ due 2 (last_sent waiting + 1) waiting)
    × (1 ≤ last_sent (flush_blob_queue calm).0.tables.blob_tx_outbox)
flush_blob_queue-Drains_example = flush_blob_queue-Drains 1 calm refl all_pending

-- An order that was filled in part and then cancelled, and one that was executed.
abbrev gathered : DatabaseAggregator
gathered = record nothing {
  executed_orders = "a2" ∷ [];
  cancelled_orders = "a1" ∷ [];
  updated_orders = ("a1", 2) ∷ [];
  trigger_notify_orders = true;
  symbol_book_updated = "ETH/USDC" ∷ [];
}

abbrev resting : Database
resting = record calm {
  tables = record tables {
    orders =
        row_of "alice" 1 (ask_of "a1" 100 3)
        ∷ row_of "alice" 1 (ask_of "a2" 100 4)
        ∷ row_of "alice" 1 (ask_of "a3" 110 5)
        ∷ [];
  };
  aggregator = gathered;
}

run_dump : (dump_to_db resting).1 ≡ ok tt
unfolding dump_to_db transaction statement update_orders ◌+ℤ◌ neg
run_dump = refl

gathered-KeysOnce : KeysOnce gathered.updated_orders
unfolding lookup
gathered-KeysOnce = (refl, tt)

dump_to_db-settled_row_example :
    (dump_to_db resting).0.tables.orders ≡ map (settled_row gathered) resting.tables.orders
dump_to_db-settled_row_example = dump_to_db-settled_row resting refl gathered-KeysOnce run_dump

-- The first update of the transaction fails.
abbrev unlucky : Database
unlucky = record resting { faults = false ∷ true ∷ [] }

unlucky_fails : (transaction dump_rows unlucky).1 ≢ ok tt
unfolding transaction dump_rows statement for_each
unlucky_fails h = cc

dump_to_db-Forgotten_example :
    ((dump_to_db unlucky).0.tables ≡ resting.tables)
    × ((dump_to_db unlucky).0.aggregator.executed_orders ≡ [])
    × ((dump_to_db unlucky).1 ≢ ok tt)
dump_to_db-Forgotten_example = dump_to_db-Forgotten unlucky refl refl unlucky_fails

-- Two requests that count the nonce of a user up.
abbrev counting : ℕ → WriteEvents
counting n = record cancellation {
  prover_request = record cancellation.prover_request {
    events = OrderbookEvent.nonce_incremented "alice" n ∷ [];
    nonce = n;
  };
}

abbrev two_requests : List WriteEvents
two_requests = counting 1 ∷ counting 2 ∷ []

abbrev empty : Database
empty = record calm { tables = record tables { commits = []; blob_tx_outbox = [] } }

run_two :
    ((write_all two_requests empty).1 ≡ ok tt) × ((write_all two_requests empty).0.faults ≡ [])
unfolding write_all write_events transaction statement insert_commit write_event update_nonce
    insert_nonce insert_prover_request insert_contract_events insert_outbox
run_two = (refl, refl)

write_all-delivery_of_example :
    ((flush_blob_queue (write_all two_requests empty).0).1 ≡ ok tt)
    × ((flush_blob_queue (write_all two_requests empty).0).0.received
        ≡ (1, blob_of_alice) ∷ (2, blob_of_alice) ∷ [])
write_all-delivery_of_example =
    write_all-delivery_of two_requests empty (refl, (refl, tt)) refl refl run_two.0 run_two.1
