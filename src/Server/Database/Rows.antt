-- ===== src/Server/Database/Rows.antt =====
-- The statements of `write_events_internal` (server/src/database.rs) as changes of the tables;
-- `none` is a constraint that is not met. Only two of the order types are values of the enumeration
-- in the database.
use hyliquid.Prelude.{
  ℕ, ◌^◌, Bool, true, false, not, ◌&&◌, Option, none, some, List, [], ◌∷◌, ◌++◌, map, any, eqb, ltb,
  ◌==◌, string_eq, bytes_eq, if◌then◌else◌, String, ℤ, pos, negsuc, neg, ◌+ℤ◌, is_some,
}
use mathlib.Core.Option
use hyliquid.Types.{OrderId, OrderSide, OrderType, Order}
use hyliquid.Contract.Witness.{same_keys}
use hyliquid.Server.Assets.{Instrument}
use hyliquid.Server.Database.Tables.{
  CommitRow, OrderRow, OrderStatus, BalanceEventRow, UserRow, SessionKeysRow, NonceRow,
  ProverRequestRow, ContractEventsRow, OutboxRow, Tables, as_i64,
}

abbrev pub is_storable : OrderType → Bool
is_storable OrderType.market = true
is_storable OrderType.limit = true
is_storable _ = false

abbrev pub other_side : OrderSide → OrderSide
other_side OrderSide.bid = OrderSide.ask
other_side OrderSide.ask = OrderSide.bid

-- The range of a bigint.
abbrev pub fits : ℤ → Bool
fits (pos n) = ltb n (2 ^ 63)
fits (negsuc n) = ltb n (2 ^ 63)

unfoldable pub insert_commit : CommitRow → Tables → Option Tables
insert_commit row t =
    if any (λ c. eqb c.commit_id row.commit_id) t.commits
    then none
    else some (record t { commits = t.commits ++ row ∷ [] })

-- `ON CONFLICT DO NOTHING`, by the symbol
unfoldable pub insert_instrument : Instrument → Tables → Option Tables
insert_instrument row t =
    if any (λ i. i.symbol == row.symbol) t.instruments
    then some t
    else some (record t { instruments = t.instruments ++ row ∷ [] })

unfoldable pub insert_balance_event : BalanceEventRow → Tables → Option Tables
insert_balance_event row t = some (record t { balance_events = t.balance_events ++ row ∷ [] })

unfoldable pub insert_order : OrderRow → Tables → Option Tables
insert_order row t =
    if is_storable row.order_type && not (any (λ o. o.order_id == row.order_id) t.orders)
    then some (record t { orders = t.orders ++ row ∷ [] })
    else none

-- The price and the quantities of an event are NOT NULL bigints.
unfoldable pub insert_order_event : ℕ → OrderRow → Tables → Option Tables
insert_order_event commit_id row t =
    if is_storable row.order_type && (is_some row.price && fits row.qty_filled)
    then some (record t {
      order_events = t.order_events ++ record { commit_id = commit_id; order = row } ∷ [];
    })
    else none

unfoldable pub find_order : OrderId → List OrderRow → Option OrderRow
find_order order_id [] = none
find_order order_id (row ∷ rows) =
    if row.order_id == order_id then some row else find_order order_id rows

abbrev pub row_of : String → ℕ → Order → OrderRow
row_of user instrument_id order = record {
  order_id = order.order_id;
  identity = user;
  instrument_id = instrument_id;
  side = order.order_side;
  order_type = order.order_type;
  price = Option.map as_i64 order.price;
  qty = as_i64 order.quantity;
  qty_filled = pos 0;
  status = OrderStatus.open_order;
}

-- `INSERT INTO order_events .. SELECT .. FROM orders WHERE order_id = $2`: no row if there is none.
unfoldable pub select_order_event : ℕ → OrderId → (OrderRow → OrderRow) → Tables → Option Tables
unfolding find_order insert_order_event
select_order_event commit_id order_id change t = elim (find_order order_id t.orders) [
  | none ↦ some t
  | some row ↦ insert_order_event commit_id (change row) t
]

abbrev pub as_filled : OrderRow → OrderRow
as_filled row = record row { qty_filled = row.qty; status = OrderStatus.filled }

abbrev pub as_partially_filled : ℕ → OrderRow → OrderRow
as_partially_filled remaining row = record row {
  qty_filled = row.qty +ℤ neg (as_i64 remaining);
  status = OrderStatus.partially_filled;
}

-- The trade of a taker with the maker order; `qty` is a function of the latter.
unfoldable pub insert_trade :
    ℕ → OrderId → OrderId → ℕ → String → (OrderRow → ℤ) → Tables → Option Tables
unfolding find_order
insert_trade commit_id maker taker instrument_id user qty t = elim (find_order maker t.orders) [
  | none ↦ some t
  | some row ↦
      if is_some row.price
      then some (record t {
        trade_events =
            t.trade_events
            ++ record {
              commit_id = commit_id;
              maker_order_id = maker;
              taker_order_id = taker;
              instrument_id = instrument_id;
              price = row.price;
              qty = qty row;
              side = other_side row.side;
              maker_identity = row.identity;
              taker_identity = user;
            }
              ∷ [];
      })
      else none
]

-- `ON CONFLICT (identity) DO UPDATE SET nonce = EXCLUDED.nonce`
unfoldable pub upsert_user : UserRow → List UserRow → List UserRow
upsert_user row [] = row ∷ []
upsert_user row (user ∷ users) =
    if user.identity == row.identity
    then record user { nonce = row.nonce } ∷ users
    else user ∷ upsert_user row users

unfoldable pub insert_user : UserRow → Tables → Option Tables
unfolding upsert_user
insert_user row t = some (record t { users = upsert_user row t.users })

unfoldable pub insert_session_keys : SessionKeysRow → Tables → Option Tables
unfolding same_keys
insert_session_keys row t =
    if any (λ r. r.identity == row.identity && same_keys r.session_keys row.session_keys)
      t.user_session_keys
    then none
    else some (record t { user_session_keys = t.user_session_keys ++ row ∷ [] })

unfoldable pub update_nonce : String → ℕ → Tables → Option Tables
update_nonce identity nonce t = some (record t {
  users =
      map (λ user. if user.identity == identity then record user { nonce = nonce } else user)
        t.users;
})

unfoldable pub insert_nonce : NonceRow → Tables → Option Tables
insert_nonce row t = some (record t { user_events_nonces = t.user_events_nonces ++ row ∷ [] })

unfoldable pub insert_prover_request : ProverRequestRow → Tables → Option Tables
insert_prover_request row t = some (record t { prover_requests = t.prover_requests ++ row ∷ [] })

unfoldable pub insert_contract_events : ContractEventsRow → Tables → Option Tables
insert_contract_events row t = some (record t { contract_events = t.contract_events ++ row ∷ [] })

unfoldable pub insert_outbox : OutboxRow → Tables → Option Tables
insert_outbox row t =
    if any (λ r. eqb r.commit_id row.commit_id) t.blob_tx_outbox
    then none
    else some (record t { blob_tx_outbox = t.blob_tx_outbox ++ row ∷ [] })
