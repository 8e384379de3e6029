-- ===== src/Server/Database/Forgotten.antt =====
-- A dump that does not succeed (server/src/database.rs, `dump_to_db`): the tables, and what is still
-- gathered.
use hyliquid.Prelude.{
  false, Option, List, [], ◌∷◌, ◌≡◌, ◌≢◌, refl, ok, err, panic, Result, next_fails, later_faults,
}
use hyliquid.Types.{OrderId}
use hyliquid.Server.Database.Tables.{Tables}
use hyliquid.Server.Database.Aggregator.{DatabaseAggregator}
use hyliquid.Server.Database.Session.{
  Database, DbError, M, ◌>>=◌, ◌>>◌, continue, pure, call, statement, attempt, transaction,
  rolled_back,
}
use hyliquid.Server.Database.Rows.{as_filled, as_partially_filled}
use hyliquid.Server.Database.Rules.{
  Leads, Leads-then, Leads-chain, Leads-call, Leads-statement, Leads-pure,
}
use hyliquid.Server.Database.Dumping.{
  as_cancelled, update_orders, insert_balance, for_each, drain, dump_executed, dump_cancelled,
  dump_updated, dump_balances, dump_rows, notify_all, has_nothing, dump_to_db,
}

-- No executed order is gathered.
abbrev pub NoneExecuted : Database → Type 0
NoneExecuted db = db.aggregator.executed_orders ≡ []

statement-Keeps :
    (change : Tables → Option Tables) → Leads NoneExecuted NoneExecuted (statement change)
statement-Keeps change = Leads-statement (λ db later p. p) (λ db p. p) change (λ db t e p. p)

for_each-Keeps :
    {A : Type 0} (xs : List A) (body : A → M (Unit {0}))
    → ((x : A) → Leads NoneExecuted NoneExecuted (body x))
    → Leads NoneExecuted NoneExecuted (for_each xs body)
unfolding for_each
for_each-Keeps [] body k = Leads-pure tt
for_each-Keeps (x ∷ xs) body k =
    Leads-chain (λ db p. p) (body x) (λ _. for_each xs body) (k x) (λ _. for_each-Keeps xs body k)

-- Another set is drained and gone through.
drain-Keeps :
    {A : Type 0} (f : DatabaseAggregator → List A) (rest : DatabaseAggregator → DatabaseAggregator)
    (body : A → M (Unit {0}))
    → ((a : DatabaseAggregator) → (rest a).executed_orders ≡ a.executed_orders)
    → ((x : A) → Leads NoneExecuted NoneExecuted (body x))
    → Leads NoneExecuted NoneExecuted (drain f rest >>= λ xs. for_each xs body)
drain-Keeps f rest body same k = record {
  at = λ db p.
      (for_each-Keeps (f db.aggregator) body k).at (record db { aggregator = rest db.aggregator })
        (rw (same db.aggregator) p);
}

later-Keeps : Leads NoneExecuted NoneExecuted (dump_cancelled >> (dump_updated >> dump_balances))
unfolding dump_cancelled dump_updated dump_balances
later-Keeps =
    Leads-chain (λ db p. p) dump_cancelled (λ _. dump_updated >> dump_balances)
      (drain-Keeps (λ a. a.cancelled_orders) (λ a. record a { cancelled_orders = [] })
        (λ x. statement (update_orders x as_cancelled)) (λ a. refl)
        (λ x. statement-Keeps (update_orders x as_cancelled)))
      (λ _.
        Leads-chain (λ db p. p) dump_updated (λ _. dump_balances)
          (drain-Keeps (λ a. a.updated_orders) (λ a. record a { updated_orders = [] })
            (λ e. statement (update_orders e.0 (as_partially_filled e.1))) (λ a. refl)
            (λ e. statement-Keeps (update_orders e.0 (as_partially_filled e.1))))
          (λ _.
            drain-Keeps (λ a. a.updated_balances) (λ a. record a { updated_balances = [] })
              (λ e. statement (insert_balance e.0 e.1)) (λ a. refl)
              (λ e. statement-Keeps (insert_balance e.0 e.1))))

dump_rows-NoneExecuted : {P : Database → Type 0} → Leads P NoneExecuted dump_rows
unfolding dump_rows dump_executed
dump_rows-NoneExecuted = record {
  at = λ db p.
      let ids = db.aggregator.executed_orders in
      let update = λ (x : OrderId). statement (update_orders x as_filled) in
      (Leads-chain {P = NoneExecuted} (λ at q. q) (for_each ids update)
          (λ _. dump_cancelled >> (dump_updated >> dump_balances))
          (for_each-Keeps ids update (λ x. statement-Keeps (update_orders x as_filled)))
          (λ _. later-Keeps)).at
        (record db { aggregator = record db.aggregator { executed_orders = [] } }) refl;
}

-- The tables are as before, no executed order is gathered, and there is no result.
abbrev pub Forgotten : Tables → Database × Result DbError (Unit {0}) → Type 0
Forgotten before o = (o.0.tables ≡ before) × NoneExecuted o.0 × (o.1 ≢ ok tt)

rolled_back-Forgotten :
    (before : Tables) (o : Database × Result DbError (Unit {0}))
    → NoneExecuted o.0
    → (rolled_back before o).1 ≢ ok tt
    → Forgotten before (rolled_back before o)
rolled_back-Forgotten before (db, ok u) e h = absurd (h refl)
rolled_back-Forgotten before (db, err x) e h = (refl, e, h)
rolled_back-Forgotten before (db, panic) e h = (refl, e, h)

continue-Forgotten :
    (before : Tables) (o : Database × Result DbError (Unit {0})) (f : Unit {0} → M (Unit {0}))
    → Forgotten before o
    → Forgotten before (continue f o)
continue-Forgotten before (db, ok u) f h = absurd (h.2 refl)
continue-Forgotten before (db, err x) f h = (h.0, h.1, λ e. cc)
continue-Forgotten before (db, panic) f h = (h.0, h.1, λ e. cc)

begun-Forgotten :
    (db : Database) → (attempt dump_rows db).1 ≢ ok tt → Forgotten db.tables (attempt dump_rows db)
unfolding attempt
begun-Forgotten db h =
    let body = dump_rows >>= λ u. call >> pure u in
    rolled_back-Forgotten db.tables (body db)
      ((Leads-then dump_rows (λ u. call >> pure u) (dump_rows-NoneExecuted {P = λ at. Unit})
          (λ u.
            Leads-chain (λ at q. q) call (λ _. pure u) (Leads-call (λ at later q. q))
              (λ _. Leads-pure u))).at
        db tt)
      h

transaction-Forgotten :
    (db : Database)
    → next_fails db.faults ≡ false
    → (transaction dump_rows db).1 ≢ ok tt
    → Forgotten db.tables (transaction dump_rows db)
unfolding transaction call
transaction-Forgotten db begins failed =
    rw begins
      (begun-Forgotten (record db { faults = later_faults db.faults }) (rw begins at failed))

-- Where something is gathered and the transaction of a dump begins but does not succeed, the dump
-- ends without a result and with the tables as before, and yet no executed order is gathered any
-- more.
pub dump_to_db-Forgotten :
    (db : Database)
    → has_nothing db.aggregator ≡ false
    → next_fails db.faults ≡ false
    → (transaction dump_rows db).1 ≢ ok tt
    → ((dump_to_db db).0.tables ≡ db.tables)
      × ((dump_to_db db).0.aggregator.executed_orders ≡ [])
      × ((dump_to_db db).1 ≢ ok tt)
unfolding dump_to_db
dump_to_db-Forgotten db some_thing begins failed = rw some_thing (
    continue-Forgotten db.tables (transaction dump_rows db) (λ _. notify_all)
      (transaction-Forgotten db begins failed))
