-- ===== src/Server/Database/Dumped.antt =====
-- What a dump makes of the orders (server/src/database.rs, `dump_to_db`).
use hyliquid.Prelude.{String, Bool, true, false, List, [], ◌∷◌, map, ◌≡◌, refl, ◌∙◌, ok, string_eq}
use hyliquid.Server.Database.Tables.{OrderRow}
use hyliquid.Server.Database.Aggregator.{DatabaseAggregator}
use hyliquid.Server.Database.Session.{Database, ◌>>◌, call, transaction}
use hyliquid.Server.Database.Dumping.{
  for_each, dump_executed, dump_cancelled, dump_updated, dump_balances, dump_rows, notify_if,
  reset_triggers, notify_books, notify_all, has_nothing, dump_to_db,
}
use hyliquid.Server.Database.Rules.{Steady}
use hyliquid.Server.Database.Results.{
  ok-IfOk, Results, Results-chain, Results-call, Results-transaction,
}
use hyliquid.Server.Database.Statuses.{KeysOnce, settled_row, map-settled_row}
use hyliquid.Server.Database.Updates.{
  At, filled_of, cancelled_of, updated_of, emptied, executed-Results, cancelled-Results,
  updated-Results, dumped_balances-Results,
}

-- The table after the statements.
dump_rows-Results :
    (a : DatabaseAggregator) (rows : List OrderRow)
    → Results
        (At a rows)
        (λ u. At (emptied a) (map (updated_of a) (map (cancelled_of a) (map (filled_of a) rows))))
        dump_rows
unfolding dump_rows
dump_rows-Results a rows =
    let a1 = record a { executed_orders = [] } in
    let a2 = record a1 { cancelled_orders = [] } in
    let a3 = record a2 { updated_orders = [] } in
    let filled = map (filled_of a) rows in
    let cancelled = map (cancelled_of a) filled in
    Results-chain dump_executed (λ _. dump_cancelled >> (dump_updated >> dump_balances))
      (executed-Results a rows)
      (λ _.
        Results-chain dump_cancelled (λ _. dump_updated >> dump_balances)
          (cancelled-Results a1 filled)
          (λ _.
            Results-chain dump_updated (λ _. dump_balances) (updated-Results a2 cancelled)
              (λ _. dumped_balances-Results a3 (map (updated_of a) cancelled))))

calls-Results :
    {P : Database → Type 0} (symbols : List String)
    → Steady P
    → Results P (λ u. P) (for_each symbols (λ symbol. call))
unfolding for_each
calls-Results [] s = record { at = λ db p. p }
calls-Results (x ∷ xs) s =
    Results-chain call (λ _. for_each xs (λ symbol. call)) (Results-call s)
      (λ _. calls-Results xs s)

notify_if-Results :
    {P : Database → Type 0} (trigger : Bool) → Steady P → Results P (λ u. P) (notify_if trigger)
notify_if-Results true s = Results-call s
notify_if-Results false s = record { at = λ db p. p }

-- The orders of the table, whatever is gathered.
abbrev pub HasOrders : List OrderRow → Database → Type 0
HasOrders rows db = db.tables.orders ≡ rows

notify_books-Results :
    (rows : List OrderRow) → Results (HasOrders rows) (λ u. HasOrders rows) notify_books
unfolding notify_books
notify_books-Results rows = record {
  at = λ db p.
      let symbols = db.aggregator.symbol_book_updated in
      let left = record db.aggregator { symbol_book_updated = [] } in
      (Results-chain {R = λ _. HasOrders rows} (for_each symbols (λ symbol. call))
          (λ _. reset_triggers) (calls-Results {P = HasOrders rows} symbols (λ at later q. q))
          (λ _. record { at = λ at q. q })).at
        (record db { aggregator = left }) p;
}

notify_all-Results :
    (rows : List OrderRow) → Results (HasOrders rows) (λ u. HasOrders rows) notify_all
unfolding notify_all
notify_all-Results rows = record {
  at = λ db p.
      let orders = notify_if db.aggregator.trigger_notify_orders in
      (Results-chain {R = λ _. HasOrders rows} (notify_if db.aggregator.trigger_notify_trades)
          (λ _. orders >> notify_books)
          (notify_if-Results {P = HasOrders rows} db.aggregator.trigger_notify_trades
            (λ at later q. q))
          (λ _.
            Results-chain orders (λ _. notify_books)
              (notify_if-Results {P = HasOrders rows} db.aggregator.trigger_notify_orders
                (λ at later q. q))
              (λ _. notify_books-Results rows))).at
        db p;
}

-- A dump of gathered changes that ends with a result, whatever faults it met, has set the rows of the
-- orders as follows, and has changed no others: an order with a remaining quantity is partially
-- filled, also if it was cancelled or executed before; else a cancelled order is cancelled, and an
-- executed one is filled. The orders with a remaining quantity are different.
pub dump_to_db-settled_row :
    (db : Database)
    → has_nothing db.aggregator ≡ false
    → KeysOnce db.aggregator.updated_orders
    → (dump_to_db db).1 ≡ ok tt
    → (dump_to_db db).0.tables.orders ≡ map (settled_row db.aggregator) db.tables.orders
unfolding dump_to_db
dump_to_db-settled_row db some_thing h e =
    let rows = map (settled_row db.aggregator) db.tables.orders in
    let dumped =
      map (updated_of db.aggregator)
        (map (cancelled_of db.aggregator) (map (filled_of db.aggregator) db.tables.orders)) in
    let dumps : Results (At db.aggregator db.tables.orders) (λ u. HasOrders dumped)
        (transaction dump_rows >> notify_all) =
      Results-chain (transaction dump_rows) (λ _. notify_all)
        (Results-transaction dump_rows (λ at later q. q) (λ u at later q. q)
          (dump_rows-Results db.aggregator db.tables.orders))
        (λ _. record { at = λ at q. (notify_all-Results dumped).at at q.1 }) in
    ok-IfOk (HasOrders dumped) (dump_to_db db) e (rw some_thing (dumps.at db (refl, refl)))
    ∙ map-settled_row db.aggregator h db.tables.orders
