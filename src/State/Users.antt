-- ===== src/State/Users.antt =====
-- The users of an `ExecuteState` (contracts/orderbook/src/model.rs) and their keys
-- (contracts/orderbook/src/zk/smt.rs).
use hyliquid.Prelude.{
  ℕ, Bool, Option, none, some, List, [], ◌∷◌, ◌++◌, ok, err, ◌>>=◌, ok_or, if◌then◌else◌, eqb,
  lookup, insert, get_or, contains, length, is_empty, Map, any, nat_eq, string_eq, as_bytes, String,
  checked_add, u32_mod,
}
use hyliquid.Types.{H256, Symbol, Balance, UserInfo, ExecuteState, OrderbookEvent}
use hyliquid.Errors.{Result, user_not_found, key_not_found, user_names_missing, nonce_overflow}
use hyliquid.Externals.{Externals}

-- The values of a map, in the order of iteration.
unfoldable pub values {ℓ κ} : {K : Type ℓ} {V : Type κ} → Map K V → List V
values [] = []
values ((_, v) ∷ m) = v ∷ values m

-- `HashSet::insert`
unfoldable pub add_key : H256 → List H256 → List H256
unfolding contains
add_key key keys = if contains key keys then keys else key ∷ keys

-- `UserInfo::new`
unfoldable pub new_user : String → List ℕ → UserInfo
new_user user salt = record { user = user; salt = salt; nonce = 0; session_keys = [] }

module _ (x : Externals) where
  -- The hash of the name and the salt.
  unfoldable pub get_key : UserInfo → H256
  get_key user_info = x.sha3_256 (as_bytes user_info.user ++ user_info.salt)

  -- The first user with the key.
  unfoldable pub find_key : H256 → List UserInfo → Option UserInfo
  unfolding get_key
  find_key key [] = none
  find_key key (user_info ∷ users) =
      if eqb (get_key user_info) key then some user_info else find_key key users

  unfoldable pub get_user_info_from_key : ExecuteState → H256 → Result UserInfo
  unfolding find_key values
  get_user_info_from_key s key = ok_or (find_key key (values s.users_info)) (key_not_found key)

  unfoldable pub has_user_info_key : ExecuteState → H256 → Result Bool
  unfolding get_key values
  has_user_info_key s key =
      ok (any (λ user_info. eqb (get_key user_info) key) (values s.users_info))

  unfoldable pub get_balance : ExecuteState → UserInfo → Symbol → Balance
  unfolding get_key
  get_balance s user_info symbol =
      get_or (lookup (get_key user_info) (get_or (lookup symbol s.balances) [])) 0

  -- The loop of `get_user_names`: the names of the wanted keys.
  unfoldable pub collect_names : List H256 → List UserInfo → Map H256 String → Map H256 String
  unfolding get_key
  collect_names keys [] names = names
  collect_names keys (user_info ∷ users) names = collect_names keys users (
      if contains (get_key user_info) keys
      then insert (get_key user_info) user_info.user names
      else names)

  unfoldable pub get_user_names : ExecuteState → List H256 → Result (Map H256 String)
  unfolding collect_names values
  get_user_names s keys =
      if is_empty keys
      then ok []
      else let names = collect_names keys (values s.users_info) [] in
        if eqb (length names) (length keys) then ok names else err user_names_missing

-- The entries for one user, of every symbol that has one.
unfoldable pub user_balances_of : H256 → Map Symbol (Map H256 Balance) → Map Symbol Balance
user_balances_of key [] = []
user_balances_of key ((symbol, balances) ∷ rest) = elim (lookup key balances) [
  | none ↦ user_balances_of key rest
  | some balance ↦ (symbol, balance) ∷ user_balances_of key rest
]

unfoldable pub get_user_balances : ExecuteState → H256 → Map Symbol Balance
unfolding user_balances_of
get_user_balances s key = user_balances_of key s.balances

unfoldable pub get_user_info : ExecuteState → String → Result UserInfo
get_user_info s user = ok_or (lookup user s.users_info) (user_not_found user)

unfoldable pub nonce_increment_event : UserInfo → Result OrderbookEvent
nonce_increment_event user_info = do
  next_nonce ← ok_or (checked_add u32_mod user_info.nonce 1) nonce_overflow
  ok (OrderbookEvent.nonce_incremented user_info.user next_nonce)

unfoldable pub increment_nonce_and_save_user_info :
    ExecuteState → UserInfo → Result (ExecuteState × OrderbookEvent)
increment_nonce_and_save_user_info s user_info = do
  next_nonce ← ok_or (checked_add u32_mod user_info.nonce 1) nonce_overflow
  let saved = record user_info { nonce = next_nonce }
  ok (
    record s { users_info = insert user_info.user saved s.users_info },
    OrderbookEvent.nonce_incremented user_info.user next_nonce,
  )
