-- ===== src/State/Apply.antt =====
-- How events change an `ExecuteState` (contracts/orderbook/src/model.rs).
use hyliquid.Prelude.{
  ℕ, List, [], ◌∷◌, ok, ◌>>=◌, if◌then◌else◌, lookup, insert, or_insert, get_or, Map, ◌==◌, nat_eq,
  string_eq, String, Bytes,
}
use hyliquid.Types.{
  H256, Symbol, Balance, Pair, PairInfo, UserInfo, ExecuteState, OrderbookEvent, OrderRetentionMode,
  should_cleanup,
}
use hyliquid.Errors.{Result}
use hyliquid.Externals.{Externals}
use hyliquid.OrderManager.Events.{apply_event, clean}
use hyliquid.State.Users.{get_key, get_user_info}
use hyliquid.State.Assets.{register_asset, create_pair}

-- `extend` with a list of entries.
unfoldable pub extend : List (H256 × Balance) → Map H256 Balance → Map H256 Balance
extend [] balances = balances
extend ((key, balance) ∷ entries) balances = extend entries (insert key balance balances)

unfoldable pub update_balances : ExecuteState → Symbol → List (H256 × Balance) → Result ExecuteState
unfolding extend
update_balances s symbol entries = ok (record s {
  balances = insert symbol (extend entries (get_or (lookup symbol s.balances) [])) s.balances;
})

unfoldable pub apply_pair_created : ExecuteState → Pair → PairInfo → Result ExecuteState
unfolding register_asset
apply_pair_created s pair info = do
  s₁ ← register_asset s pair.0 info.base
  s₂ ← register_asset s₁ pair.1 info.quote
  ok (record s₂ { balances = or_insert pair.1 [] (or_insert pair.0 [] s₂.balances) })

-- The user that a balance event is about: the caller, or a registered user.
unfoldable pub event_user : ExecuteState → UserInfo → String → Result UserInfo
unfolding get_user_info
event_user s user_info user = if user == user_info.user then ok user_info else get_user_info s user

unfoldable pub apply_session_key_added :
    ExecuteState → String → Bytes → ℕ → List Bytes → ExecuteState
apply_session_key_added s user salt nonce session_keys =
    let fresh : UserInfo = record {
      user = user;
      salt = salt;
      nonce = nonce;
      session_keys = session_keys;
    } in
    let entry = get_or (lookup user s.users_info) fresh in
    let entry' = record entry { salt = salt; nonce = nonce; session_keys = session_keys } in
    record s { users_info = insert user entry' s.users_info }

unfoldable pub apply_nonce_incremented : ExecuteState → UserInfo → String → ℕ → ExecuteState
apply_nonce_incremented s user_info user nonce =
    let entry = get_or (lookup user s.users_info) user_info in
    record s { users_info = insert user (record entry { nonce = nonce }) s.users_info }

module _ (x : Externals) where
  unfoldable pub apply_order_event : ExecuteState → UserInfo → OrderbookEvent → Result ExecuteState
  unfolding get_key apply_event
  apply_order_event s user_info event = do
    manager ← apply_event s.order_manager (get_key x user_info) event
    ok (record s { order_manager = manager })

  unfoldable pub apply_one : ExecuteState → UserInfo → OrderbookEvent → Result ExecuteState
  unfolding apply_pair_created event_user update_balances get_key apply_session_key_added
      apply_nonce_incremented apply_order_event
  apply_one s user_info (OrderbookEvent.pair_created pair info) = apply_pair_created s pair info
  apply_one s user_info (OrderbookEvent.balance_updated user symbol amount) = do
    owner ← event_user s user_info user
    update_balances s symbol ((get_key x owner, amount) ∷ [])
  apply_one s user_info (OrderbookEvent.session_key_added user salt nonce session_keys) =
      ok (apply_session_key_added s user salt nonce session_keys)
  apply_one s user_info (OrderbookEvent.nonce_incremented user nonce) =
      ok (apply_nonce_incremented s user_info user nonce)
  apply_one s user_info event = apply_order_event s user_info event

  unfoldable pub apply_each : ExecuteState → UserInfo → List OrderbookEvent → Result ExecuteState
  unfolding apply_one
  apply_each s user_info [] = ok s
  apply_each s user_info (event ∷ events) =
      apply_one s user_info event >>= λ s'. apply_each s' user_info events

  unfoldable pub apply_events_with_mode :
      ExecuteState → UserInfo → List OrderbookEvent → OrderRetentionMode → Result ExecuteState
  unfolding apply_each should_cleanup clean
  apply_events_with_mode s user_info events mode = do
    s' ← apply_each s user_info events
    ok (
        if should_cleanup mode
        then record s' { order_manager = clean s'.order_manager events }
        else s')

  unfoldable pub apply_events : ExecuteState → UserInfo → List OrderbookEvent → Result ExecuteState
  unfolding apply_events_with_mode
  apply_events s user_info events =
      apply_events_with_mode s user_info events OrderRetentionMode.finalize_removals

  unfoldable pub apply_events_preserving_zeroed_orders :
      ExecuteState → UserInfo → List OrderbookEvent → Result ExecuteState
  unfolding apply_events_with_mode
  apply_events_preserving_zeroed_orders s user_info events =
      apply_events_with_mode s user_info events OrderRetentionMode.retain_for_proof

  -- The loop of `from_data`: each pair is created and its events are applied.
  unfoldable pub create_pairs :
      ExecuteState → UserInfo → List (Pair × PairInfo) → Result ExecuteState
  unfolding create_pair apply_events
  create_pairs s nobody [] = ok s
  create_pairs s nobody ((pair, info) ∷ pairs) = do
    events ← create_pair s pair info
    s' ← apply_events s nobody events
    create_pairs s' nobody pairs
