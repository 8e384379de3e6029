-- ===== src/State/Accounts/Outcomes.antt =====
-- A deposit, a withdrawal and a cancellation as wholes: the events, applied to the state that they
-- were made for.
use hyliquid.Prelude.{
  ℕ, ◌+◌, ◌-◌, ◌≤◌, ◌≡◌, refl, ◌&&◌, none, some, List, [], ◌∷◌, ok, arith, if◌then◌else◌, eqb,
  lookup, ◌==◌, string_eq, eq_iff, ◌∙◌, checked_add,
}
use hyliquid.Types.{OrderId, H256, Symbol, Order, UserInfo, ExecuteState, OrderbookEvent}
use hyliquid.Externals.{Externals}
use hyliquid.OrderManager.Events.{apply_event, retire, discard}
use hyliquid.OrderManager.Events.Removal.{lookup-discard, lookup-discard_owner}
use hyliquid.State.Users.{get_key}
use hyliquid.State.Accounts.{deposit, withdraw, cancel_order, required_symbol}
use hyliquid.State.Accounts.Effects.{
  balance_at, set_balance, balance_at-set_balance, nonce_of, apply_own_balance,
  balance_at-apply_nonce_incremented, balance_at_ext, nonce_of-apply_nonce_incremented,
}
use hyliquid.State.Apply.{apply_one, apply_events, apply_nonce_incremented}

module _ (x : Externals) (s : ExecuteState) (symbol : Symbol) (amount : ℕ) (u : UserInfo) where
  abbrev balance : ℕ
  balance = balance_at s symbol (get_key x u)

  deposit_events :
      {es : List OrderbookEvent}
      → deposit x s symbol amount u ≡ ok es
      → es ≡ OrderbookEvent.balance_updated u.user symbol (balance + amount) ∷ []
  unfolding deposit checked_add balance_at
  deposit_events h = ground arith

  pub withdraw_events :
      {es : List OrderbookEvent}
      → withdraw x s symbol amount u ≡ ok es
      → (amount ≤ balance)
        × (es
            ≡ OrderbookEvent.balance_updated u.user symbol (balance - amount)
              ∷ OrderbookEvent.nonce_incremented u.user (u.nonce + 1)
              ∷ [])
  unfolding withdraw checked_add balance_at
  withdraw_events h = (ground arith, ground arith)

  -- An accepted deposit can be applied, and adds the amount to the one balance of the user.
  pub deposit_credits :
      (q : Symbol) (key : H256) {es : List OrderbookEvent}
      → deposit x s symbol amount u ≡ ok es
      → (s' : ExecuteState) × (apply_events x s u es ≡ ok s')
        × (balance_at s' q key ≡ (
            if symbol == q && eqb (get_key x u) key
            then balance_at s q key + amount
            else balance_at s q key))
        × (s'.users_info ≡ s.users_info)
        × (s'.order_manager ≡ s.order_manager)
  unfolding apply_events set_balance
  deposit_credits q key h = (
    set_balance s symbol (get_key x u) (balance + amount),
    rw (deposit_events h) (ground (arith, apply_own_balance x u s symbol (balance + amount))),
    rw balance_at-set_balance (ground (arith, eq_iff symbol q)),
    refl,
    refl,
  )

  -- An accepted withdrawal was covered, can be applied, takes the amount from the one balance of
  -- the user, and counts the nonce of the user up.
  pub withdraw_debits :
      (q : Symbol) (key : H256) {es : List OrderbookEvent}
      → withdraw x s symbol amount u ≡ ok es
      → (s' : ExecuteState) × (apply_events x s u es ≡ ok s')
        × (amount ≤ balance_at s symbol (get_key x u))
        × (balance_at s' q key ≡ (
            if symbol == q && eqb (get_key x u) key
            then balance_at s q key - amount
            else balance_at s q key))
        × (nonce_of s' u.user ≡ some (u.nonce + 1))
        × (s'.order_manager ≡ s.order_manager)
  unfolding apply_events set_balance
  withdraw_debits q key h =
      let paid = set_balance s symbol (get_key x u) (balance - amount) in
      (
        apply_nonce_incremented paid u u.user (u.nonce + 1),
        rw ((withdraw_events h).1)
            (ground (arith, apply_own_balance x u s symbol (balance - amount))),
        (withdraw_events h).0,
        balance_at-apply_nonce_incremented paid u u.user (u.nonce + 1) q key
            ∙ rw (balance_at-set_balance s symbol (get_key x u) (balance - amount) q key)
                (ground (arith, eq_iff symbol q)),
        nonce_of-apply_nonce_incremented x u paid (u.nonce + 1),
        refl,
      )

module _ (x : Externals) (s : ExecuteState) (id : OrderId) (u : UserInfo) (order : Order) where
  -- The balance that a cancellation credits.
  abbrev locked_balance : ℕ
  locked_balance = balance_at s (required_symbol order) (get_key x u)

  pub cancel_order_events :
      {es : List OrderbookEvent}
      → lookup id s.order_manager.orders ≡ some order
      → cancel_order x s id u ≡ ok es
      → es
        ≡ OrderbookEvent.order_cancelled id order.pair
          ∷ OrderbookEvent.balance_updated u.user
              (required_symbol order)
              (locked_balance + order.quantity)
          ∷ OrderbookEvent.nonce_incremented u.user (u.nonce + 1)
          ∷ []
  unfolding cancel_order checked_add balance_at
  cancel_order_events e h = ground arith

  apply_cancelled :
      lookup id s.order_manager.orders ≡ some order
      → apply_one x s u (OrderbookEvent.order_cancelled id order.pair)
        ≡ ok (record s { order_manager = retire s.order_manager id order })
  unfolding apply_one apply_event
  apply_cancelled e = rw e

  -- A cancellation that is accepted can be applied. It adds the quantity of the order to the
  -- balance of the caller in the asset that the order locks, whoever owns the order, counts the
  -- nonce of the caller up, and removes the order and its owner entry.
  pub cancel_order_credits :
      (q : Symbol) (key : H256) {es : List OrderbookEvent}
      → lookup id s.order_manager.orders ≡ some order
      → cancel_order x s id u ≡ ok es
      → (s' : ExecuteState) × (apply_events x s u es ≡ ok s')
        × (balance_at s' q key ≡ (
            if required_symbol order == q && eqb (get_key x u) key
            then balance_at s q key + order.quantity
            else balance_at s q key))
        × (nonce_of s' u.user ≡ some (u.nonce + 1))
        × (lookup id s'.order_manager.orders ≡ none)
        × (lookup id s'.order_manager.orders_owner ≡ none)
  unfolding apply_events nonce_of
  cancel_order_credits q key e h =
      let retired = record s { order_manager = retire s.order_manager id order } in
      let paid =
        set_balance retired (required_symbol order) (get_key x u)
          (locked_balance + order.quantity) in
      let counted = apply_nonce_incremented paid u u.user (u.nonce + 1) in
      (
        record counted { order_manager = discard counted.order_manager id },
        rw (cancel_order_events e h) (
            ground (
              arith,
              apply_cancelled e,
              apply_own_balance x u retired (required_symbol order)
                  (locked_balance + order.quantity),
            )),
        balance_at_ext (record counted { order_manager = discard counted.order_manager id }) counted
              q key refl
            ∙ balance_at-apply_nonce_incremented paid u u.user (u.nonce + 1) q key
            ∙ balance_at-set_balance retired (required_symbol order) (get_key x u)
                (locked_balance + order.quantity) q key
            ∙ ground (arith, eq_iff (required_symbol order) q, balance_at_ext retired s q key refl),
        nonce_of-apply_nonce_incremented x u paid (u.nonce + 1),
        lookup-discard counted.order_manager id,
        lookup-discard_owner counted.order_manager id,
      )
