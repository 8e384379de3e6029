-- ===== src/Server/Database/Updates.antt =====
-- The updates of a dump, one set after the other (server/src/database.rs, `dump_to_db`).
use hyliquid.Prelude.{ℕ, some, List, [], ◌∷◌, map, ◌≡◌, refl, ap, ◌∙◌, string_eq, Map, arith}
use hyliquid.Types.{OrderId}
use hyliquid.Server.Database.Tables.{Tables, OrderRow}
use hyliquid.Server.Database.Aggregator.{BalanceKey, DatabaseAggregator}
use hyliquid.Server.Database.Session.{Database, M, ◌>>=◌, statement}
use hyliquid.Server.Database.Rows.{as_filled, as_partially_filled}
use hyliquid.Server.Database.Dumping.{
  as_cancelled, update_order_row, update_orders, insert_balance, for_each, drain, dump_executed,
  dump_cancelled, dump_updated, dump_balances,
}
use hyliquid.Server.Database.Results.{Results, Results-chain, Results-statement}

-- What is gathered, and the orders of the table.
abbrev pub At : DatabaseAggregator → List OrderRow → Database → Type 0
At a rows db = (db.aggregator ≡ a) × (db.tables.orders ≡ rows)

drain-Results :
    {A : Type 0} {Q : Unit {0} → Database → Type 0} (f : DatabaseAggregator → A)
    (rest : DatabaseAggregator → DatabaseAggregator) (k : A → M (Unit {0})) (a : DatabaseAggregator)
    (rows : List OrderRow)
    → Results (At (rest a) rows) Q (k (f a))
    → Results (At a rows) Q (drain f rest >>= k)
drain-Results {Q = Q} f rest k a rows r = record {
  at = λ db p.
      let here : Results (At (rest db.aggregator) rows) Q (k (f db.aggregator)) = rw p.0 r in
      here.at (record db { aggregator = rest db.aggregator }) (refl, p.1);
}

module _ {A : Type 0} (key : A → OrderId) (change : A → OrderRow → OrderRow) where
  -- The updates of one row, in their order.
  unfoldable pub apply_updates : List A → OrderRow → OrderRow
  apply_updates [] row = row
  apply_updates (x ∷ xs) row = apply_updates xs (update_order_row (key x) (change x) row)

  updated-rows :
      (x : A) (t t' : Tables)
      → update_orders (key x) (change x) t ≡ some t'
      → t'.orders ≡ map (update_order_row (key x) (change x)) t.orders
  unfolding update_orders
  updated-rows x t t' e = ground arith

  map-updates :
      (x : A) (xs : List A) (rows : List OrderRow)
      → map (apply_updates xs) (map (update_order_row (key x) (change x)) rows)
        ≡ map (apply_updates (x ∷ xs)) rows
  unfolding apply_updates
  map-updates x xs [] = refl
  map-updates x xs (row ∷ rows) = rw (map-updates x xs rows) refl

  map-no_updates : (rows : List OrderRow) → rows ≡ map (apply_updates []) rows
  unfolding apply_updates
  map-no_updates [] = refl
  map-no_updates (row ∷ rows) = rw (← map-no_updates rows) refl

  updates-Results :
      (xs : List A) (a : DatabaseAggregator) (rows : List OrderRow)
      → Results
          (At a rows)
          (λ u. At a (map (apply_updates xs) rows))
          (for_each xs (λ x. statement (update_orders (key x) (change x))))
  unfolding for_each
  updates-Results [] a rows = record { at = λ db p. (p.0, p.1 ∙ map-no_updates rows) }
  updates-Results (x ∷ xs) a rows =
      Results-chain (statement (update_orders (key x) (change x)))
        (λ u. for_each xs (λ y. statement (update_orders (key y) (change y))))
        (Results-statement (λ db later p. p)
          {Q = λ u. At a (map (update_order_row (key x) (change x)) rows)}
          (update_orders (key x) (change x))
          (λ db t e p. (
            p.0,
            updated-rows x db.tables t e ∙ ap (map (update_order_row (key x) (change x))) p.1,
          )))
        (λ u.
          rw (← map-updates x xs rows)
            (updates-Results xs a (map (update_order_row (key x) (change x)) rows)))

insert_balance-rows :
    (key : BalanceKey) (amount : ℕ) (t t' : Tables)
    → insert_balance key amount t ≡ some t'
    → t'.orders ≡ t.orders
unfolding insert_balance
insert_balance-rows key amount t t' done = ground arith

balances-Results :
    (entries : Map BalanceKey ℕ) (a : DatabaseAggregator) (rows : List OrderRow)
    → Results
        (At a rows)
        (λ u. At a rows)
        (for_each entries (λ e. statement (insert_balance e.0 e.1)))
unfolding for_each
balances-Results [] a rows = record { at = λ db p. p }
balances-Results (e ∷ es) a rows =
    Results-chain (statement (insert_balance e.0 e.1))
      (λ u. for_each es (λ e. statement (insert_balance e.0 e.1)))
      (Results-statement (λ db later p. p) {Q = λ u. At a rows} (insert_balance e.0 e.1)
        (λ db t done p. (p.0, insert_balance-rows e.0 e.1 db.tables t done ∙ p.1)))
      (λ u. balances-Results es a rows)

abbrev pub filled_of : DatabaseAggregator → OrderRow → OrderRow
filled_of a = apply_updates (λ x. x) (λ x. as_filled) a.executed_orders

abbrev pub cancelled_of : DatabaseAggregator → OrderRow → OrderRow
cancelled_of a = apply_updates (λ x. x) (λ x. as_cancelled) a.cancelled_orders

abbrev pub updated_of : DatabaseAggregator → OrderRow → OrderRow
updated_of a =
    apply_updates (λ (e : OrderId × ℕ). e.0) (λ e. as_partially_filled e.1) a.updated_orders

-- What is gathered once the statements are done.
abbrev pub emptied : DatabaseAggregator → DatabaseAggregator
emptied a = record a {
  executed_orders = [];
  cancelled_orders = [];
  updated_orders = [];
  updated_balances = [];
}

module _ (a : DatabaseAggregator) (rows : List OrderRow) where
  pub executed-Results :
      Results
        (At a rows)
        (λ u. At (record a { executed_orders = [] }) (map (filled_of a) rows))
        dump_executed
  unfolding dump_executed
  executed-Results =
      drain-Results (λ b. b.executed_orders) (λ b. record b { executed_orders = [] })
        (λ ids. for_each ids (λ x. statement (update_orders x as_filled))) a rows
        (updates-Results (λ x. x) (λ x. as_filled) a.executed_orders
          (record a { executed_orders = [] }) rows)

  pub cancelled-Results :
      Results
        (At a rows)
        (λ u. At (record a { cancelled_orders = [] }) (map (cancelled_of a) rows))
        dump_cancelled
  unfolding dump_cancelled
  cancelled-Results =
      drain-Results (λ b. b.cancelled_orders) (λ b. record b { cancelled_orders = [] })
        (λ ids. for_each ids (λ x. statement (update_orders x as_cancelled))) a rows
        (updates-Results (λ x. x) (λ x. as_cancelled) a.cancelled_orders
          (record a { cancelled_orders = [] }) rows)

  pub updated-Results :
      Results
        (At a rows)
        (λ u. At (record a { updated_orders = [] }) (map (updated_of a) rows))
        dump_updated
  unfolding dump_updated
  updated-Results =
      drain-Results (λ b. b.updated_orders) (λ b. record b { updated_orders = [] })
        (λ es. for_each es (λ e. statement (update_orders e.0 (as_partially_filled e.1)))) a rows
        (updates-Results (λ (e : OrderId × ℕ). e.0) (λ e. as_partially_filled e.1) a.updated_orders
          (record a { updated_orders = [] }) rows)

  pub dumped_balances-Results :
      Results (At a rows) (λ u. At (record a { updated_balances = [] }) rows) dump_balances
  unfolding dump_balances
  dumped_balances-Results =
      drain-Results (λ b. b.updated_balances) (λ b. record b { updated_balances = [] })
        (λ es. for_each es (λ e. statement (insert_balance e.0 e.1))) a rows
        (balances-Results a.updated_balances (record a { updated_balances = [] }) rows)
