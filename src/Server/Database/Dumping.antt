-- ===== src/Server/Database/Dumping.antt =====
-- The database module between its requests (server/src/database.rs): what it gathers of a request
-- (`handle_database_request`) and how it writes that (`dump_to_db`).
use hyliquid.Prelude.{
  ℕ, Bool, true, false, not, ◌&&◌, Option, none, some, List, [], ◌∷◌, map, any, ok, err, panic,
  Result, ◌==◌, string_eq, eqb, if◌then◌else◌, pos, negsuc,
}
use hyliquid.Types.{OrderId, OrderbookEvent}
use hyliquid.Server.App.{WriteEvents}
use hyliquid.Server.Database.Tables.{Tables, OrderRow, OrderStatus, BalanceRow, as_i64}
use hyliquid.Server.Database.Aggregator.{
  BalanceKey, DatabaseAggregator, create_order, cancel_order, execute_order, update_order,
  update_balance,
}
use hyliquid.Server.Database.Session.{
  Database, DbError, M, ◌>>=◌, ◌>>◌, pure, get, call, statement, transaction,
}
use hyliquid.Server.Database.Rows.{fits, as_filled, as_partially_filled}
use hyliquid.Server.Database.Writing.{symbol_of, find_asset}
use hyliquid.Server.Database.Outbox.{flush_blob_queue}

abbrev pub as_cancelled : OrderRow → OrderRow
as_cancelled row = record row { status = OrderStatus.cancelled }

abbrev pub update_order_row : OrderId → (OrderRow → OrderRow) → OrderRow → OrderRow
update_order_row order_id change row = if row.order_id == order_id then change row else row

-- `UPDATE orders SET .. WHERE order_id = $1`: the filled quantity is a bigint.
unfoldable pub update_orders : OrderId → (OrderRow → OrderRow) → Tables → Option Tables
update_orders order_id change t =
    if any (λ row. row.order_id == order_id && not (fits (change row).qty_filled)) t.orders
    then none
    else some (record t { orders = map (update_order_row order_id change) t.orders })

abbrev pub is_negative : ℕ → Bool
is_negative amount = elim (as_i64 amount) [ pos n ↦ false | negsuc n ↦ true ]

unfoldable pub upsert_balance : BalanceRow → List BalanceRow → List BalanceRow
upsert_balance row [] = row ∷ []
upsert_balance row (old ∷ rows) =
    if old.identity == row.identity && eqb old.asset_id row.asset_id
    then row ∷ rows
    else old ∷ upsert_balance row rows

-- `ON CONFLICT (identity, asset_id) DO UPDATE SET total = $3`, with `CHECK (total >= 0 ..)`
unfoldable pub insert_balance : BalanceKey → ℕ → Tables → Option Tables
unfolding upsert_balance
insert_balance key amount t =
    if is_negative amount
    then none
    else some (record t {
      balances =
          upsert_balance (record { identity = key.0; asset_id = key.1; total = as_i64 amount })
            t.balances;
    })

unfoldable pub for_each {ℓ} : {A : Type ℓ} → List A → (A → M (Unit {0})) → M (Unit {0})
for_each [] body = pure tt
for_each (a ∷ rest) body = body a >> for_each rest body

-- `drain()`: however the loop over it ends, nothing is left behind.
abbrev pub drain {ℓ} :
    {A : Type ℓ} → (DatabaseAggregator → A) → (DatabaseAggregator → DatabaseAggregator) → M A
drain f rest db = (record db { aggregator = rest db.aggregator }, ok (f db.aggregator))

unfoldable pub dump_executed : M (Unit {0})
dump_executed = drain (λ a. a.executed_orders) (λ a. record a { executed_orders = [] }) >>= λ ids.
    for_each ids (λ order_id. statement (update_orders order_id as_filled))

unfoldable pub dump_cancelled : M (Unit {0})
dump_cancelled =
    drain (λ a. a.cancelled_orders) (λ a. record a { cancelled_orders = [] }) >>= λ ids.
    for_each ids (λ order_id. statement (update_orders order_id as_cancelled))

unfoldable pub dump_updated : M (Unit {0})
dump_updated = drain (λ a. a.updated_orders) (λ a. record a { updated_orders = [] }) >>= λ es.
    for_each es (λ e. statement (update_orders e.0 (as_partially_filled e.1)))

unfoldable pub dump_balances : M (Unit {0})
dump_balances = drain (λ a. a.updated_balances) (λ a. record a { updated_balances = [] }) >>= λ es.
    for_each es (λ e. statement (insert_balance e.0 e.1))

-- The statements of the transaction.
unfoldable pub dump_rows : M (Unit {0})
unfolding dump_executed dump_cancelled dump_updated dump_balances
dump_rows = do dump_executed; dump_cancelled; dump_updated; dump_balances

abbrev pub notify_if : Bool → M (Unit {0})
notify_if trigger = if trigger then call else pure tt

abbrev pub reset_triggers : M (Unit {0})
reset_triggers db = (
  record db {
    aggregator = record db.aggregator {
      trigger_notify_trades = false;
      trigger_notify_orders = false;
    };
  },
  ok tt,
)

unfoldable pub notify_books : M (Unit {0})
unfolding for_each
notify_books = do
  symbols ← drain (λ a. a.symbol_book_updated) (λ a. record a { symbol_book_updated = [] })
  for_each symbols (λ symbol. call)
  reset_triggers

-- After the commit.
unfoldable pub notify_all : M (Unit {0})
unfolding notify_books
notify_all = do
  db ← get
  notify_if db.aggregator.trigger_notify_trades
  notify_if db.aggregator.trigger_notify_orders
  notify_books

abbrev pub is_empty {ℓ} : {A : Type ℓ} → List A → Bool
is_empty [] = true
is_empty (a ∷ rest) = false

abbrev pub has_nothing : DatabaseAggregator → Bool
has_nothing a =
    is_empty a.symbol_book_updated
    && is_empty a.updated_orders
    && is_empty a.executed_orders
    && is_empty a.cancelled_orders
    && is_empty a.updated_balances

unfoldable pub dump_to_db : M (Unit {0})
unfolding dump_rows notify_all
dump_to_db = do
  db ← get
  if has_nothing db.aggregator then pure tt else (transaction dump_rows >> notify_all)

abbrev pub gather : (DatabaseAggregator → DatabaseAggregator) → M (Unit {0})
gather change db = (record db { aggregator = change db.aggregator }, ok tt)

unfoldable pub gather_event : OrderbookEvent → M (Unit {0})
gather_event (OrderbookEvent.order_created order) = gather (create_order (symbol_of order.pair))
gather_event (OrderbookEvent.order_cancelled order_id pair) =
    gather (cancel_order order_id (symbol_of pair))
gather_event (OrderbookEvent.order_executed order_id taker pair) =
    gather (execute_order order_id (symbol_of pair))
gather_event (OrderbookEvent.order_update order_id taker executed remaining pair) =
    gather (update_order order_id remaining (symbol_of pair))
gather_event (OrderbookEvent.balance_updated user symbol amount) =
    find_asset symbol >>= λ asset. gather (update_balance user asset.asset_id amount)
gather_event _ = pure tt

unfoldable pub flush_unless : (no_blobs : Bool) → M (Unit {0})
flush_unless no_blobs = if no_blobs then pure tt else flush_blob_queue

unfoldable pub handle_database_request : (no_blobs : Bool) → WriteEvents → M (Unit {0})
unfolding gather_event flush_unless
handle_database_request no_blobs request =
    for_each request.prover_request.events gather_event >> flush_unless no_blobs

-- An error is logged and no more.
abbrev pub once_logged : Database × Result DbError (Unit {0}) → Database × Result DbError (Unit {0})
once_logged (db, ok u) = (db, ok u)
once_logged (db, err e) = (db, ok tt)
once_logged (db, panic) = (db, panic)

-- `interval.tick()`
unfoldable pub tick : (no_blobs : Bool) → M (Unit {0})
unfolding dump_to_db flush_unless
tick no_blobs = (λ db. once_logged (dump_to_db db)) >> flush_unless no_blobs
