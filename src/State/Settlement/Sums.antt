-- ===== src/State/Settlement/Sums.antt =====
-- The sum of all balances of an asset over the loop of `execute_order`
-- (contracts/orderbook/src/model.rs).
use hyliquid.Prelude.{
  ℕ, ◌+◌, ◌≡◌, Option, none, some, List, [], ◌∷◌, ok, arith, Bool-cases, inl, inr, if◌then◌else◌,
  lookup, get_or, ◌==◌, string_eq, >>=-eq-ok, ok_or-eq-ok, ok-injective, ok_or,
}
use hyliquid.Types.{OrderId, H256, Symbol, Pair, OrderManager, OrderbookEvent}
use hyliquid.State.Settlement.{Settlement, settle_executed, settle_updated, settle_event, settle}
use hyliquid.State.Settlement.Totals.{total_of}
use hyliquid.State.Settlement.Locks.{lock, release, settle_created_total, settle_fill_total}

module _ (base_scale : ℕ) (q : Symbol) (m : OrderManager) (taker : OrderId) where
  -- What the new orders of some events take out of the balances of `q`.
  unfoldable pub locked : List OrderbookEvent → ℕ
  unfolding lock
  locked [] = 0
  locked (OrderbookEvent.order_created created ∷ events) =
      lock base_scale q created.order_side created + locked events
  locked (event ∷ events) = locked events

  -- What the fill of the order on record under an id brings back.
  unfoldable pub release_of : OrderId → Pair → Option ℕ → ℕ
  unfolding release
  release_of order_id pair executed = elim (lookup order_id m.orders) [
    | none ↦ 0
    | some maker ↦ release base_scale q maker.order_side maker pair (get_or executed maker.quantity)
  ]

  -- What the fills of some events bring back into the balances of `q`.
  unfoldable pub released : List OrderbookEvent → ℕ
  unfolding release_of
  released [] = 0
  released (OrderbookEvent.order_executed order_id _ pair ∷ events) =
      (if order_id == taker then 0 else release_of order_id pair none) + released events
  released (OrderbookEvent.order_update order_id _ executed _ pair ∷ events) =
      release_of order_id pair (some executed) + released events
  released (event ∷ events) = released events

  module _ (user_info_key : H256) where
    settle_executed_total :
        (st st' : Settlement) (order_id : OrderId) (pair : Pair)
        → settle_executed base_scale user_info_key m taker st order_id pair ≡ ok st'
        → total_of st' q ≡ total_of st q + release_of order_id pair none
    unfolding settle_executed release_of
    settle_executed_total st st' order_id pair h =
        let (maker_key, p, h₁) = >>=-eq-ok (ok_or (lookup order_id m.orders_owner) _) _ h in
        let (maker, r, h₂) = >>=-eq-ok (ok_or (lookup order_id m.orders) _) _ h₁ in
        rw (ok_or-eq-ok _ _ r, release_of)
          (settle_fill_total base_scale q user_info_key maker.order_side st maker_key maker pair
            maker.quantity h₂)

    settle_updated_total :
        (st st' : Settlement) (order_id : OrderId) (executed : ℕ) (pair : Pair)
        → settle_updated base_scale user_info_key m taker st order_id executed pair ≡ ok st'
        → total_of st' q ≡ total_of st q + release_of order_id pair (some executed)
    unfolding settle_updated release_of
    settle_updated_total st st' order_id executed pair h =
        let (maker_key, p, h₁) = >>=-eq-ok (ok_or (lookup order_id m.orders_owner) _) _ h in
        let (maker, r, h₂) = >>=-eq-ok (ok_or (lookup order_id m.orders) _) _ h₁ in
        rw (ok_or-eq-ok _ _ r, release_of)
          (settle_fill_total base_scale q user_info_key maker.order_side st maker_key maker pair
            executed h₂)

    -- What one event does to the sum.
    settle_event_total :
        (event : OrderbookEvent) (st st' : Settlement)
        → settle_event base_scale user_info_key m taker st event ≡ ok st'
        → total_of st' q + locked (event ∷ []) ≡ total_of st q + released (event ∷ [])
    unfolding settle_event locked released
    settle_event_total (OrderbookEvent.order_created created) st st' h =
        omega
          (arith, settle_created_total base_scale q user_info_key created.order_side st created h)
    settle_event_total (OrderbookEvent.order_executed order_id _ pair) st st' h =
        elim (Bool-cases (order_id == taker)) [
          | inl own ↦ rw (own, ok-injective (rw own at h)) (omega arith)
          | inr other ↦
              rw other (omega (arith, settle_executed_total st st' order_id pair (rw other at h)))
        ]
    settle_event_total (OrderbookEvent.order_update order_id _ executed _ pair) st st' h =
        omega (arith, settle_updated_total st st' order_id executed pair h)
    settle_event_total _ st st' h = rw (ok-injective h) (omega arith)

    locked-cons :
        (event : OrderbookEvent) (events : List OrderbookEvent)
        → locked (event ∷ events) ≡ locked (event ∷ []) + locked events
    unfolding locked
    locked-cons (OrderbookEvent.order_created created) events = omega arith
    locked-cons _ events = omega arith

    released-cons :
        (event : OrderbookEvent) (events : List OrderbookEvent)
        → released (event ∷ events) ≡ released (event ∷ []) + released events
    unfolding released
    released-cons (OrderbookEvent.order_executed order_id _ pair) events = omega arith
    released-cons (OrderbookEvent.order_update order_id _ executed _ pair) events = omega arith
    released-cons _ events = omega arith

    -- The sum after the loop, with what the loop took out and brought back.
    pub settle_total :
        (events : List OrderbookEvent) (st st' : Settlement)
        → settle base_scale user_info_key m taker st events ≡ ok st'
        → total_of st' q + locked events ≡ total_of st q + released events
    unfolding settle locked released
    settle_total [] st st' h = rw (ok-injective h) (omega arith)
    settle_total (event ∷ events) st st' h =
        let (st₁, p, r) = >>=-eq-ok (settle_event base_scale user_info_key m taker st event) _ h in
        omega (
          arith,
          locked-cons event events,
          released-cons event events,
          settle_event_total event st st₁ p,
          settle_total events st₁ st' r,
        )
