-- ===== src/State/Accounts/Effects.antt =====
-- What the events of a deposit, a withdrawal and a cancellation do once they are applied.
use hyliquid.Prelude.{
  ℕ, ◌≡◌, refl, ◌&&◌, Option, none, some, [], ok, arith, if◌then◌else◌, eqb, lookup, insert, get_or,
  ◌==◌, nat_eq, string_eq, eq_iff, lookup-insert, lookup-insert_self, String,
}
use hyliquid.Types.{H256, Symbol, Balance, UserInfo, ExecuteState, OrderbookEvent}
use hyliquid.Externals.{Externals}
use hyliquid.State.Users.{get_key, get_balance}
use hyliquid.State.Apply.{apply_one, apply_nonce_incremented}

-- The balance of a key in an asset.
unfoldable pub balance_at : ExecuteState → Symbol → H256 → Balance
balance_at s symbol key = get_or (lookup key (get_or (lookup symbol s.balances) [])) 0

pub get_balance-eq-balance_at :
    (x : Externals) (s : ExecuteState) (u : UserInfo) (symbol : Symbol)
    → get_balance x s u symbol ≡ balance_at s symbol (get_key x u)
unfolding get_balance balance_at get_key
get_balance-eq-balance_at x s u symbol = refl

unfoldable pub set_balance : ExecuteState → Symbol → H256 → Balance → ExecuteState
set_balance s symbol key balance = record s {
  balances = insert symbol (insert key balance (get_or (lookup symbol s.balances) [])) s.balances;
}

pub balance_at-set_balance :
    (s : ExecuteState) (symbol : Symbol) (key : H256) (balance : Balance) (q : Symbol) (j : H256)
    → balance_at (set_balance s symbol key balance) q j
      ≡ (if symbol == q && eqb key j then balance else balance_at s q j)
unfolding balance_at set_balance
balance_at-set_balance s symbol key balance q j = rw lookup-insert (
    ground
      (arith, eq_iff symbol q, lookup-insert key j balance (get_or (lookup symbol s.balances) [])))

-- The nonce that the state holds for a name.
unfoldable pub nonce_of : ExecuteState → String → Option ℕ
nonce_of s user = elim (lookup user s.users_info) [ none ↦ none | some info ↦ some info.nonce ]

-- A balance depends on the table of balances alone.
pub balance_at_ext :
    (s t : ExecuteState) (q : Symbol) (j : H256)
    → s.balances ≡ t.balances
    → balance_at s q j ≡ balance_at t q j
unfolding balance_at
balance_at_ext s t q j e = rw e

pub balance_at-apply_nonce_incremented :
    (s : ExecuteState) (u : UserInfo) (user : String) (nonce : ℕ) (q : Symbol) (j : H256)
    → balance_at (apply_nonce_incremented s u user nonce) q j ≡ balance_at s q j
unfolding balance_at apply_nonce_incremented
balance_at-apply_nonce_incremented s u user nonce q j = refl

module _ (x : Externals) (u : UserInfo) where
  pub apply_own_balance :
      (s : ExecuteState) (symbol : Symbol) (amount : ℕ)
      → apply_one x s u (OrderbookEvent.balance_updated u.user symbol amount)
        ≡ ok (set_balance s symbol (get_key x u) amount)
  unfolding apply_one set_balance
  apply_own_balance s symbol amount = ground (arith, eq_iff u.user u.user)

  pub nonce_of-apply_nonce_incremented :
      (s : ExecuteState) (nonce : ℕ)
      → nonce_of (apply_nonce_incremented s u u.user nonce) u.user ≡ some nonce
  unfolding nonce_of apply_nonce_incremented
  nonce_of-apply_nonce_incremented s nonce = rw (lookup-insert_self, nonce_of)
