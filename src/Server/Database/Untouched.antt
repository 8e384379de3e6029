-- ===== src/Server/Database/Untouched.antt =====
-- The statements of a request that leave the outbox alone (server/src/database.rs,
-- `write_events_internal`).
use hyliquid.Prelude.{
  ℕ, Option, some, List, [], ◌∷◌, ◌≡◌, if◌then◌else◌, ◌==◌, string_eq, arith, String, Bytes, ◌∙◌, ℤ,
}
use hyliquid.Types.{OrderId, Order, Pair, OrderbookEvent}
use hyliquid.Server.App.{BlobTransaction}
use hyliquid.Server.Database.Tables.{
  Tables, OutboxRow, CommitRow, OrderRow, BalanceEventRow, UserRow, SessionKeysRow, NonceRow,
  ProverRequestRow, ContractEventsRow, as_i64,
}
use hyliquid.Server.Assets.{Instrument, get_asset, get_instrument}
use hyliquid.Server.Database.Session.{
  Database, DbError, M, ◌>>=◌, ◌>>◌, pure, fail, call, statement,
}
use hyliquid.Server.Database.Rows.{
  insert_commit, insert_instrument, insert_balance_event, insert_order, insert_order_event,
  select_order_event, insert_trade, insert_user, insert_session_keys, update_nonce, insert_nonce,
  insert_prover_request, insert_contract_events, as_filled, as_partially_filled,
}
use hyliquid.Server.Database.Writing.{
  symbol_of, new_instrument, next_instrument_id, find_asset, find_instrument, write_pair,
  write_balance, write_created, write_cancelled, write_executed, write_updated, is_known,
  write_session_keys, write_nonce, write_event, write_each,
}
use hyliquid.Server.Database.Rules.{
  Leads, Leads-chain, Leads-call, Leads-pure, Leads-found, Leads-choice, Leads-statement,
}

-- A change of the tables that leaves the outbox alone.
abbrev pub Aside : (Tables → Option Tables) → Type 0
Aside change = (t t' : Tables) → change t ≡ some t' → t'.blob_tx_outbox ≡ t.blob_tx_outbox

pub insert_commit-Aside : (row : CommitRow) → Aside (insert_commit row)
unfolding insert_commit
insert_commit-Aside row t t' h = ground arith

insert_instrument-Aside : (row : Instrument) → Aside (insert_instrument row)
unfolding insert_instrument
insert_instrument-Aside row t t' h = ground arith

insert_balance_event-Aside : (row : BalanceEventRow) → Aside (insert_balance_event row)
unfolding insert_balance_event
insert_balance_event-Aside row t t' h = ground arith

insert_user-Aside : (row : UserRow) → Aside (insert_user row)
unfolding insert_user
insert_user-Aside row t t' h = ground arith

insert_session_keys-Aside : (row : SessionKeysRow) → Aside (insert_session_keys row)
unfolding insert_session_keys
insert_session_keys-Aside row t t' h = ground arith

insert_nonce-Aside : (row : NonceRow) → Aside (insert_nonce row)
unfolding insert_nonce
insert_nonce-Aside row t t' h = ground arith

pub insert_prover_request-Aside : (row : ProverRequestRow) → Aside (insert_prover_request row)
unfolding insert_prover_request
insert_prover_request-Aside row t t' h = ground arith

pub insert_contract_events-Aside : (row : ContractEventsRow) → Aside (insert_contract_events row)
unfolding insert_contract_events
insert_contract_events-Aside row t t' h = ground arith

update_nonce-Aside : (user : String) (nonce : ℕ) → Aside (update_nonce user nonce)
unfolding update_nonce
update_nonce-Aside user nonce t t' h = ground arith

insert_trade-Aside :
    (n : ℕ) (maker taker : OrderId) (id : ℕ) (user : String) (qty : OrderRow → ℤ)
    → Aside (insert_trade n maker taker id user qty)
unfolding insert_trade
insert_trade-Aside n maker taker id user qty t t' h = ground arith

insert_order-Aside : (row : OrderRow) → Aside (insert_order row)
unfolding insert_order
insert_order-Aside row t t' h = ground arith

insert_order_event-Aside : (n : ℕ) (row : OrderRow) → Aside (insert_order_event n row)
unfolding insert_order_event
insert_order_event-Aside n row t t' h = ground arith

select_order_event-Aside :
    (n : ℕ) (order_id : OrderId) (change : OrderRow → OrderRow)
    → Aside (select_order_event n order_id change)
unfolding select_order_event insert_order_event
select_order_event-Aside n order_id change t t' h = ground arith

module _ (rows : List OutboxRow) (received : List (ℕ × BlobTransaction)) where
  abbrev pub Untouched : Database → Type 0
  Untouched db = (db.tables.blob_tx_outbox ≡ rows) × (db.received ≡ received)

  pub aside :
      (change : Tables → Option Tables)
      → Aside change
      → Leads Untouched Untouched (statement change)
  aside change h =
      Leads-statement (λ db later p. p) (λ db p. p) change λ db t e p. (h db.tables t e ∙ p.0, p.1)

  chain :
      {A B : Type 0} (m : M A) (f : A → M B)
      → Leads Untouched Untouched m
      → ((a : A) → Leads Untouched Untouched (f a))
      → Leads Untouched Untouched (m >>= f)
  chain m f k l = Leads-chain (λ db p. p) m f k l

  find_asset-Leads : (symbol : String) → Leads Untouched Untouched (find_asset symbol)
  unfolding find_asset
  find_asset-Leads symbol = record {
    at = λ db p.
        (Leads-found {P = Untouched} DbError.asset_not_found (get_asset db.asset_service symbol)).at
          db p;
  }

  find_instrument-Leads : (pair : Pair) → Leads Untouched Untouched (find_instrument pair)
  unfolding find_instrument
  find_instrument-Leads pair = record {
    at = λ db p.
        (Leads-found {P = Untouched} DbError.instrument_not_found
            (get_instrument db.asset_service (symbol_of pair))).at
          db p;
  }

  write_pair-Leads : (n : ℕ) (pair : Pair) → Leads Untouched Untouched (write_pair n pair)
  unfolding write_pair next_instrument_id
  write_pair-Leads n pair = chain (find_asset pair.0) _ (find_asset-Leads pair.0) λ base.
      chain (find_asset pair.1) _ (find_asset-Leads pair.1) λ quote.
        chain next_instrument_id _ (record { at = λ db p. p })
          λ id.
            aside (insert_instrument (new_instrument id pair base quote))
              (insert_instrument-Aside (new_instrument id pair base quote))

  write_balance-Leads :
      (n : ℕ) (user symbol : String) (amount : ℕ)
      → Leads Untouched Untouched (write_balance n user symbol amount)
  unfolding write_balance
  write_balance-Leads n user symbol amount =
      chain (find_asset symbol) _ (find_asset-Leads symbol)
        λ asset. aside (insert_balance_event _) (insert_balance_event-Aside _)

  write_created-Leads :
      (n : ℕ) (user : String) (order : Order)
      → Leads Untouched Untouched (write_created n user order)
  unfolding write_created
  write_created-Leads n user order =
      chain (find_instrument order.pair) _ (find_instrument-Leads order.pair) λ instrument.
        chain (statement (insert_order _)) _ (aside (insert_order _) (insert_order-Aside _))
          λ _. aside (insert_order_event n _) (insert_order_event-Aside n _)

  traded-Leads :
      (n : ℕ) (user : String) (maker taker : OrderId) (pair : Pair) (change : OrderRow → OrderRow)
      (qty : OrderRow → ℤ)
      → Leads Untouched Untouched (do
        instrument ← find_instrument pair
        statement (select_order_event n maker change)
        statement (insert_trade n maker taker instrument.instrument_id user qty))
  traded-Leads n user maker taker pair change qty =
      chain (find_instrument pair) _ (find_instrument-Leads pair) λ instrument.
        chain (statement (select_order_event n maker change)) _
          (aside (select_order_event n maker change) (select_order_event-Aside n maker change))
          λ _.
            aside (insert_trade n maker taker instrument.instrument_id user qty)
              (insert_trade-Aside n maker taker instrument.instrument_id user qty)

  is_known-Leads :
      (committed : Tables) (user : String) → Leads Untouched Untouched (is_known committed user)
  unfolding is_known
  is_known-Leads committed user = chain call _ (Leads-call (λ db later p. p)) λ _.
      chain call _ (Leads-call (λ db later p. p))
        λ _. chain call _ (Leads-call (λ db later p. p)) λ _. Leads-pure _

  write_session_keys-Leads :
      (committed : Tables) (n : ℕ) (user : String) (salt : Bytes) (nonce : ℕ) (keys : List Bytes)
      → Leads Untouched Untouched (write_session_keys committed n user salt nonce keys)
  unfolding write_session_keys
  write_session_keys-Leads committed n user salt nonce keys =
      chain (is_known committed user) _ (is_known-Leads committed user) λ known.
        chain (if known then pure tt else statement (insert_user _)) _
          (Leads-choice known (pure tt) (statement (insert_user _)) (Leads-pure tt)
            (aside (insert_user _) (insert_user-Aside _)))
          λ _. aside (insert_session_keys _) (insert_session_keys-Aside _)

  write_nonce-Leads :
      (n : ℕ) (user : String) (nonce : ℕ) → Leads Untouched Untouched (write_nonce n user nonce)
  unfolding write_nonce
  write_nonce-Leads n user nonce =
      chain (statement (update_nonce user nonce)) _
        (aside (update_nonce user nonce) (update_nonce-Aside user nonce))
        λ _. aside (insert_nonce _) (insert_nonce-Aside _)

  write_event-Leads :
      (committed : Tables) (n : ℕ) (user : String) (event : OrderbookEvent)
      → Leads Untouched Untouched (write_event committed n user event)
  unfolding write_event write_cancelled write_executed write_updated
  write_event-Leads committed n user (OrderbookEvent.pair_created pair info) =
      write_pair-Leads n pair
  write_event-Leads committed n user (OrderbookEvent.balance_updated name symbol amount) =
      Leads-choice (name == "orderbook") (pure tt) (write_balance n name symbol amount)
        (Leads-pure tt) (write_balance-Leads n name symbol amount)
  write_event-Leads committed n user (OrderbookEvent.order_created order) =
      write_created-Leads n user order
  write_event-Leads committed n user (OrderbookEvent.order_cancelled order_id pair) =
      chain call (λ _. fail DbError.syntax_error) (Leads-call (λ db later p. p))
        λ _. record { at = λ db p. p }
  write_event-Leads committed n user (OrderbookEvent.order_executed order_id taker pair) =
      traded-Leads n user order_id taker pair as_filled (λ row. row.qty)
  write_event-Leads committed n user
        (OrderbookEvent.order_update order_id taker executed remaining pair) =
      traded-Leads n user order_id taker pair (as_partially_filled remaining)
        (λ row. as_i64 executed)
  write_event-Leads committed n user (OrderbookEvent.session_key_added name salt nonce keys) =
      write_session_keys-Leads committed n name salt nonce keys
  write_event-Leads committed n user (OrderbookEvent.nonce_incremented name nonce) =
      write_nonce-Leads n name nonce

  pub write_each-Leads :
      (committed : Tables) (n : ℕ) (user : String) (events : List OrderbookEvent)
      → Leads Untouched Untouched (write_each committed n user events)
  unfolding write_each
  write_each-Leads committed n user [] = Leads-pure tt
  write_each-Leads committed n user (event ∷ events) =
      chain (write_event committed n user event) _ (write_event-Leads committed n user event)
        λ _. write_each-Leads committed n user events
