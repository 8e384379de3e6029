-- ===== src/State/Settlement/Totals.antt =====
-- What the settlement of an order does to the sum of all balances of an asset.
use hyliquid.Prelude.{
  ℕ, ◌+◌, ◌≡◌, some, [], ◌∷◌, ok, arith, if◌then◌else◌, lookup, insert, get_or, Map, ◌==◌, nat_eq,
  string_eq, eq_iff, lookup-insert, ℤ, pos, neg, ◌+ℤ◌, to_u64, pos_part, neg_part, >>=-eq-ok,
  ok_or-eq-ok, ok-injective, sym, ok_or, ap, zero,
}
use hyliquid.Types.{H256, Symbol, Balance}
use hyliquid.State.Settlement.{Settlement, record_balance_change, record_transfer}

unfoldable pub total : Map H256 Balance → ℕ
total [] = 0
total ((_, balance) ∷ balances) = balance + total balances

pub total-insert :
    (key : H256) (balance : Balance) (balances : Map H256 Balance)
    → total (insert key balance balances) + get_or (lookup key balances) 0
      ≡ total balances + balance
unfolding total insert lookup
total-insert key balance [] = omega arith
total-insert key balance ((j, w) ∷ balances) = ground (arith, total-insert key balance balances)

-- The sum of the balances of one symbol.
unfoldable pub total_of : Settlement → Symbol → ℕ
unfolding total
total_of st symbol = total (get_or (lookup symbol st.balance_changes) [])

pub to_u64-eq-some :
    (balance : ℕ) (amount : ℤ) {v : ℕ}
    → to_u64 (pos balance +ℤ amount) ≡ some v
    → v + neg_part amount ≡ balance + pos_part amount
unfolding to_u64 ◌+ℤ◌
to_u64-eq-some balance amount h = ground arith

pub neg_parts : (a : ℤ) → (pos_part (neg a) ≡ neg_part a) × (neg_part (neg a) ≡ pos_part a)
unfolding neg
neg_parts (pos zero) = ground arith
neg_parts a = ground arith

-- What a successful change leaves.
pub record Changed (st : Settlement) (key : H256) (symbol : Symbol) (amount : ℤ) (st' : Settlement)
    : Type 0 where
  pub balances : Map H256 Balance
  pub value : ℕ
  pub found : lookup symbol st.balance_changes ≡ some balances
  pub fits : to_u64 (pos (get_or (lookup key balances) 0) +ℤ amount) ≡ some value
  pub changes : st'.balance_changes ≡ insert symbol (insert key value balances) st.balance_changes

pub record_balance_change-Changed :
    (st : Settlement) (key : H256) (symbol : Symbol) (amount : ℤ) {st' : Settlement}
    → record_balance_change st key symbol amount ≡ ok st'
    → Changed st key symbol amount st'
unfolding record_balance_change
record_balance_change-Changed st key symbol amount h =
    let (balances, p, q) = >>=-eq-ok (ok_or (lookup symbol st.balance_changes) _) _ h in
    let (value, r, e) =
      >>=-eq-ok (ok_or (to_u64 (pos (get_or (lookup key balances) 0) +ℤ amount)) _) _ q in
    record {
      balances = balances;
      value = value;
      found = ok_or-eq-ok _ _ p;
      fits = ok_or-eq-ok _ _ r;
      changes = ap (λ s. s.balance_changes) (sym (ok-injective e));
    }

module _ (st : Settlement) (key : H256) (symbol : Symbol) (amount : ℤ) {st' : Settlement} where
  -- A change moves the sum of its own symbol by the amount, and no other.
  pub total_of-record_balance_change :
      (q : Symbol)
      → record_balance_change st key symbol amount ≡ ok st'
      → total_of st' q + (if symbol == q then neg_part amount else 0)
        ≡ total_of st q + (if symbol == q then pos_part amount else 0)
  unfolding total_of
  total_of-record_balance_change q h =
      let c = record_balance_change-Changed st key symbol amount h in
      rw (c.changes, lookup-insert)
        (ground (
          arith,
          eq_iff symbol q,
          c.found,
          total-insert key c.value c.balances,
          to_u64-eq-some (get_or (lookup key c.balances) 0) amount c.fits,
        ))

-- A transfer between two accounts, or from one to itself, keeps every sum.
pub total_of-record_transfer :
    (st : Settlement) (from to : H256) (symbol : Symbol) (amount : ℤ) {st' : Settlement}
    (q : Symbol)
    → record_transfer st from to symbol amount ≡ ok st'
    → total_of st' q ≡ total_of st q
unfolding record_transfer
total_of-record_transfer st from to symbol amount q h =
    let (st₁, p, r) = >>=-eq-ok (record_balance_change st from symbol (neg amount)) _ h in
    ground (
      arith,
      neg_parts amount,
      total_of-record_balance_change st from symbol (neg amount) q p,
      total_of-record_balance_change st₁ to symbol amount q r,
    )
