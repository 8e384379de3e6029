-- ===== src/Server/Database/Writing.antt =====
-- Writing what an accepted action leaves (server/src/database.rs, `write_events_internal`).
use hyliquid.Prelude.{
  ℕ, ◌+◌, Bool, true, false, List, [], ◌∷◌, ok, any, ◌==◌, string_eq, if◌then◌else◌, String, Bytes,
}
use Prim.Native.String
use hyliquid.Types.{OrderId, Order, Pair, OrderbookEvent}
use hyliquid.Server.Assets.{
  Asset, Instrument, MarketStatus, get_asset, get_instrument, reload_instrument_map,
}
use hyliquid.Server.App.{WriteEvents}
use hyliquid.Server.Database.Tables.{Tables, as_i64}
use hyliquid.Server.Database.Session.{
  DbError, M, ◌>>=◌, ◌>>◌, pure, fail, get, found, call, statement, query, transaction,
}
use hyliquid.Server.Database.Rows.{
  insert_commit, insert_instrument, insert_balance_event, insert_order, insert_order_event, row_of,
  select_order_event, as_filled, as_partially_filled, insert_trade, insert_user,
  insert_session_keys, update_nonce, insert_nonce, insert_prover_request, insert_contract_events,
  insert_outbox,
}

-- `format!("{}/{}", pair.0, pair.1)`
unfoldable pub symbol_of : Pair → String
symbol_of pair = String.◌++◌ pair.0 (String.◌++◌ "/" pair.1)

-- The next value of a bigserial, which no rollback gives back.
unfoldable pub next_instrument_id : M ℕ
next_instrument_id db =
    (record db { instrument_seq = db.instrument_seq + 1 }, ok (db.instrument_seq + 1))

unfoldable pub find_asset : String → M Asset
find_asset symbol db = found DbError.asset_not_found (get_asset db.asset_service symbol) db

unfoldable pub find_instrument : Pair → M Instrument
find_instrument pair db =
    found DbError.instrument_not_found (get_instrument db.asset_service (symbol_of pair)) db

abbrev pub new_instrument : ℕ → Pair → Asset → Asset → Instrument
new_instrument instrument_id pair base_asset quote_asset = record {
  instrument_id = instrument_id;
  symbol = symbol_of pair;
  tick_size = 1;
  qty_step = 1;
  base_asset_id = base_asset.asset_id;
  quote_asset_id = quote_asset.asset_id;
  status = MarketStatus.active;
}

unfoldable pub write_pair : ℕ → Pair → M (Unit {0})
unfolding next_instrument_id
write_pair commit_id pair = do
  base_asset ← find_asset pair.0
  quote_asset ← find_asset pair.1
  instrument_id ← next_instrument_id
  statement (insert_instrument (new_instrument instrument_id pair base_asset quote_asset))

unfoldable pub write_balance : ℕ → String → String → ℕ → M (Unit {0})
write_balance commit_id user symbol amount = do
  asset ← find_asset symbol
  statement (
      insert_balance_event (record {
        commit_id = commit_id;
        identity = user;
        asset_id = asset.asset_id;
        total = as_i64 amount;
      }))

unfoldable pub write_created : ℕ → String → Order → M (Unit {0})
write_created commit_id user order = do
  instrument ← find_instrument order.pair
  statement (insert_order (row_of user instrument.instrument_id order))
  statement (insert_order_event commit_id (row_of user instrument.instrument_id order))

-- `INSERT INTO order_events (..) VALUES select ..` is no SQL.
unfoldable pub write_cancelled : ℕ → OrderId → M (Unit {0})
write_cancelled commit_id order_id = call >> fail DbError.syntax_error

unfoldable pub write_executed : ℕ → String → OrderId → OrderId → Pair → M (Unit {0})
write_executed commit_id user order_id taker_order_id pair = do
  instrument ← find_instrument pair
  statement (select_order_event commit_id order_id as_filled)
  statement (
      insert_trade commit_id order_id taker_order_id instrument.instrument_id user (λ row. row.qty))

unfoldable pub write_updated : ℕ → String → OrderId → OrderId → ℕ → ℕ → Pair → M (Unit {0})
write_updated commit_id user order_id taker_order_id executed remaining pair = do
  instrument ← find_instrument pair
  statement (select_order_event commit_id order_id (as_partially_filled remaining))
  statement (
      insert_trade commit_id order_id taker_order_id instrument.instrument_id user
        (λ row. as_i64 executed))

-- `get_nonce` asks in a transaction of its own, which sees the tables `committed`.
unfoldable pub is_known : Tables → String → M Bool
is_known committed user = do
  call
  call
  call
  pure (any (λ row. row.identity == user) committed.users)

unfoldable pub write_session_keys : Tables → ℕ → String → Bytes → ℕ → List Bytes → M (Unit {0})
unfolding is_known
write_session_keys committed commit_id user salt nonce session_keys = do
  known ← is_known committed user
  if known
      then pure tt
      else statement (
          insert_user
            (record { commit_id = commit_id; identity = user; salt = salt; nonce = nonce }))
  statement (
      insert_session_keys
        (record { commit_id = commit_id; identity = user; session_keys = session_keys }))

unfoldable pub write_nonce : ℕ → String → ℕ → M (Unit {0})
write_nonce commit_id user nonce = do
  statement (update_nonce user nonce)
  statement (insert_nonce (record { commit_id = commit_id; identity = user; nonce = nonce }))

-- One event, of the user that the request names.
unfoldable pub write_event : Tables → ℕ → String → OrderbookEvent → M (Unit {0})
unfolding write_pair write_balance write_created write_cancelled write_executed write_updated
    write_session_keys write_nonce
write_event committed commit_id user (OrderbookEvent.pair_created pair info) =
    write_pair commit_id pair
write_event committed commit_id user (OrderbookEvent.balance_updated name symbol amount) =
    if name == "orderbook" then pure tt else write_balance commit_id name symbol amount
write_event committed commit_id user (OrderbookEvent.order_created order) =
    write_created commit_id user order
write_event committed commit_id user (OrderbookEvent.order_cancelled order_id pair) =
    write_cancelled commit_id order_id
write_event committed commit_id user (OrderbookEvent.order_executed order_id taker pair) =
    write_executed commit_id user order_id taker pair
write_event committed commit_id user
      (OrderbookEvent.order_update order_id taker executed remaining pair) =
    write_updated commit_id user order_id taker executed remaining pair
write_event committed commit_id user
      (OrderbookEvent.session_key_added name salt nonce session_keys) =
    write_session_keys committed commit_id name salt nonce session_keys
write_event committed commit_id user (OrderbookEvent.nonce_incremented name nonce) =
    write_nonce commit_id name nonce

unfoldable pub write_each : Tables → ℕ → String → List OrderbookEvent → M (Unit {0})
write_each committed commit_id user [] = pure tt
write_each committed commit_id user (event ∷ events) =
    write_event committed commit_id user event >> write_each committed commit_id user events

-- `reload_instrument_map = true`
abbrev pub makes_pair : OrderbookEvent → Bool
makes_pair (OrderbookEvent.pair_created pair info) = true
makes_pair _ = false

unfoldable pub enqueue_blob : (no_blobs : Bool) → ℕ → WriteEvents → M (Unit {0})
enqueue_blob no_blobs commit_id request =
    if no_blobs
    then pure tt
    else statement (
        insert_outbox (record {
          commit_id = commit_id;
          blob_tx = request.blob_tx;
          is_sent = false;
          attempts = 0;
        }))

-- The statements after those of the events.
unfoldable pub write_request : (no_blobs : Bool) → WriteEvents → M (Unit {0})
unfolding enqueue_blob
write_request no_blobs request = do
  let prover_request = request.prover_request
  let commit_id = prover_request.nonce
  statement (
      insert_prover_request
        (record { commit_id = commit_id; tx_hash = request.tx_hash; request = prover_request }))
  statement (
      insert_contract_events (record {
        commit_id = commit_id;
        user_info = request.user;
        events = prover_request.events;
      }))
  enqueue_blob no_blobs commit_id request

-- The statements of the transaction; other connections see the tables `committed`.
unfoldable pub write_rows : Tables → (no_blobs : Bool) → WriteEvents → M (Unit {0})
unfolding write_each write_request
write_rows committed no_blobs request = do
  let commit_id = request.prover_request.nonce
  statement (insert_commit (record { commit_id = commit_id; tx_hash = request.tx_hash }))
  write_each committed commit_id request.user.user request.prover_request.events
  write_request no_blobs request

abbrev pub keep_instruments : List Instrument → M (Unit {0})
keep_instruments rows db =
    (record db { asset_service = reload_instrument_map rows db.asset_service }, ok tt)

-- After the commit: the notification, and the instruments read again.
unfoldable pub reload_instruments : M (Unit {0})
reload_instruments = do call; rows ← query (λ t. t.instruments); keep_instruments rows

unfoldable pub write_events : (no_blobs : Bool) → WriteEvents → M (Unit {0})
unfolding write_rows reload_instruments
write_events no_blobs request = do
  committed ← get
  transaction (write_rows committed.tables no_blobs request)
  if any makes_pair request.prover_request.events then reload_instruments else pure tt
