-- ===== src/Server/Database/Aggregator.antt =====
-- The changes that the database module gathers before it dumps them (server/src/database.rs,
-- `DatabaseAggregator`).
use hyliquid.Prelude.{
  ℕ, Bool, true, ◌&&◌, List, [], ◌∷◌, ◌++◌, ◌≡◌, ◌↔◌, Keyed, nat_eq, string_eq, ◌==◌, Map, insert,
  remove, contains, if◌then◌else◌, String, eqb, eqb_iff, arith,
}
use hyliquid.Types.{OrderId}

-- An identity with the number of an asset.
abbrev pub BalanceKey : Type 0
BalanceKey = String × ℕ

abbrev pub same_key : BalanceKey → BalanceKey → Bool
same_key k l = k.0 == l.0 && eqb k.1 l.1

pub same_key_iff : (k l : BalanceKey) → (same_key k l ≡ true) ↔ (k ≡ l)
same_key_iff (a, b) (c, d) = (
  λ h. ground (arith, string_eq.same_iff a c, eqb_iff b d),
  λ h. ground (arith, string_eq.same_iff a c, eqb_iff b d),
)

instance abbrev pub balance_key_eq : Keyed BalanceKey
balance_key_eq = record { same = same_key; same_iff = same_key_iff }

-- `HashSet::insert`
abbrev pub include {ℓ} : {A : Type ℓ} ⦃e : Keyed A⦄ → A → List A → List A
include a xs = if contains a xs then xs else xs ++ a ∷ []

pub record DatabaseAggregator : Type 0 where
  pub executed_orders : List OrderId
  pub cancelled_orders : List OrderId
  pub updated_orders : Map OrderId ℕ
  pub trigger_notify_trades : Bool
  pub trigger_notify_orders : Bool
  pub symbol_book_updated : List String
  pub updated_balances : Map BalanceKey ℕ

unfoldable pub create_order : String → DatabaseAggregator → DatabaseAggregator
create_order symbol a = record a {
  trigger_notify_orders = true;
  symbol_book_updated = include symbol a.symbol_book_updated;
}

unfoldable pub cancel_order : OrderId → String → DatabaseAggregator → DatabaseAggregator
cancel_order order_id symbol a = record a {
  cancelled_orders = include order_id a.cancelled_orders;
  trigger_notify_orders = true;
  symbol_book_updated = include symbol a.symbol_book_updated;
}

unfoldable pub execute_order : OrderId → String → DatabaseAggregator → DatabaseAggregator
execute_order order_id symbol a = record a {
  updated_orders = remove order_id a.updated_orders;
  executed_orders = include order_id a.executed_orders;
  trigger_notify_trades = true;
  trigger_notify_orders = true;
  symbol_book_updated = include symbol a.symbol_book_updated;
}

unfoldable pub update_order : OrderId → ℕ → String → DatabaseAggregator → DatabaseAggregator
update_order order_id remaining_quantity symbol a = record a {
  updated_orders = insert order_id remaining_quantity a.updated_orders;
  trigger_notify_trades = true;
  trigger_notify_orders = true;
  symbol_book_updated = include symbol a.symbol_book_updated;
}

unfoldable pub update_balance : String → ℕ → ℕ → DatabaseAggregator → DatabaseAggregator
update_balance user asset_id amount a = record a {
  updated_balances = insert (user, asset_id) amount a.updated_balances;
}
