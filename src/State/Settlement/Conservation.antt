-- ===== src/State/Settlement/Conservation.antt =====
-- The funds of an asset over the loop of `execute_order`: the balances of all accounts, and what
-- the orders hold (contracts/orderbook/src/model.rs).
use hyliquid.Prelude.{
  ℕ, ◌+◌, ◌-◌, ◌*◌, ◌/◌, ◌≤◌, ◌<◌, ◌≡◌, refl, ap, Option, none, some, List, [], ◌∷◌, ok, arith,
  Bool-cases, inl, inr, if◌then◌else◌, lookup, ◌==◌, string_eq, u64_mod,
}
use hyliquid.Types.{OrderId, H256, Symbol, Pair, OrderSide, Order, OrderManager, OrderbookEvent}
use hyliquid.State.Settlement.{Settlement, settle}
use hyliquid.State.Settlement.Costs.{lock_cost, release_cost, rest_cost}
use hyliquid.State.Settlement.Totals.{total_of}
use hyliquid.State.Settlement.Locks.{lock, release}
use hyliquid.State.Settlement.Sums.{locked, release_of, released, settle_total}

-- The price of the whole order fits a `u64`.
abbrev pub IsExact : Order → Type 0
IsExact order = (price : ℕ) → order.price ≡ some price → price * order.quantity < u64_mod

module _ (base_scale : ℕ) (q : Symbol) (m : OrderManager) where
  -- What an order on a quantity holds of the asset `q`, in exact numbers: a bid its price, an ask
  -- the quantity.
  unfoldable pub held : OrderSide → Order → ℕ → ℕ
  held OrderSide.bid order quantity =
      if order.pair.1 == q
      then elim order.price [ none ↦ 0 | some price ↦ price * quantity / base_scale ]
      else 0
  held OrderSide.ask order quantity = if order.pair.0 == q then quantity else 0

  -- What new orders hold.
  unfoldable pub newly_held : List OrderbookEvent → ℕ
  unfolding held
  newly_held [] = 0
  newly_held (OrderbookEvent.order_created created ∷ events) =
      held created.order_side created created.quantity + newly_held events
  newly_held (event ∷ events) = newly_held events

  -- What an order holds less after a fill, of the whole of it or of a part.
  unfoldable pub no_longer_held_by : Option Order → Option ℕ → ℕ
  unfolding held
  no_longer_held_by none executed = 0
  no_longer_held_by (some maker) none = held maker.order_side maker maker.quantity
  no_longer_held_by (some maker) (some executed) =
      held maker.order_side maker maker.quantity
      - held maker.order_side maker (maker.quantity - executed)

  module _ (taker : OrderId) where
    -- What the resting orders hold less after the fills.
    unfoldable pub no_longer_held : List OrderbookEvent → ℕ
    unfolding no_longer_held_by
    no_longer_held [] = 0
    no_longer_held (OrderbookEvent.order_executed order_id _ _ ∷ events) =
        (if order_id == taker then 0 else no_longer_held_by (lookup order_id m.orders) none)
        + no_longer_held events
    no_longer_held (OrderbookEvent.order_update order_id _ executed _ _ ∷ events) =
        no_longer_held_by (lookup order_id m.orders) (some executed) + no_longer_held events
    no_longer_held (event ∷ events) = no_longer_held events

    -- The partial fills.
    unfoldable pub partial_fills : List OrderbookEvent → ℕ
    partial_fills [] = 0
    partial_fills (OrderbookEvent.order_update _ _ _ _ _ ∷ events) = 1 + partial_fills events
    partial_fills (event ∷ events) = partial_fills events

  -- A fill of the order on record under an id: its pair, and of no more than its quantity.
  abbrev pub IsFill : OrderId → Pair → (Order → Type 0) → Type 0
  IsFill order_id pair Within =
      (maker : Order)
      → lookup order_id m.orders ≡ some maker
      → (pair ≡ maker.pair) × IsExact maker × Within maker

  -- The events are of orders whose prices fit a `u64`.
  abbrev pub IsSound : List OrderbookEvent → Type 0
  IsSound [] = Unit
  IsSound (OrderbookEvent.order_created created ∷ events) = IsExact created × IsSound events
  IsSound (OrderbookEvent.order_executed order_id _ pair ∷ events) =
      IsFill order_id pair (λ maker. Unit) × IsSound events
  IsSound (OrderbookEvent.order_update order_id _ executed _ pair ∷ events) =
      IsFill order_id pair (λ maker. executed ≤ maker.quantity) × IsSound events
  IsSound (event ∷ events) = IsSound events

  lock-held :
      (side : OrderSide) (created : Order)
      → IsExact created
      → lock base_scale q side created ≡ held side created created.quantity
  unfolding lock held
  lock-held OrderSide.bid created exact =
      ap (λ cost. if created.pair.1 == q then cost else 0)
        (lock_cost base_scale created.quantity created.price exact)
  lock-held OrderSide.ask created exact = refl

  release-held :
      (side : OrderSide) (maker : Order) (pair : Pair)
      → pair ≡ maker.pair
      → IsExact maker
      → release base_scale q side maker pair maker.quantity ≡ held side maker maker.quantity
  unfolding release held
  release-held OrderSide.bid maker pair same exact = rw same (
      ap (λ cost. if maker.pair.1 == q then cost else 0)
        (release_cost base_scale maker.quantity maker.price exact))
  release-held OrderSide.ask maker pair same exact = rw same refl

  release-rest_held :
      (side : OrderSide) (maker : Order) (pair : Pair) (executed : ℕ)
      → pair ≡ maker.pair
      → IsExact maker
      → executed ≤ maker.quantity
      → 0 < base_scale
      → (release base_scale q side maker pair executed
          ≤ held side maker maker.quantity - held side maker (maker.quantity - executed))
        × (held side maker maker.quantity - held side maker (maker.quantity - executed)
            ≤ release base_scale q side maker pair executed + 1)
  unfolding release held
  release-rest_held OrderSide.bid maker pair executed same exact h positive =
      rw same (elim (Bool-cases (maker.pair.1 == q)) [
        | inl here ↦
            rw here (rest_cost base_scale maker.quantity executed maker.price positive h exact)
        | inr elsewhere ↦ rw elsewhere (omega arith, omega arith)
      ])
  release-rest_held OrderSide.ask maker pair executed same exact h positive = rw same (ground arith)

  abbrev of_found : (Order → ℕ) → Option Order → ℕ
  of_found worth found = elim found [ none ↦ 0 | some maker ↦ worth maker ]

  fill-held :
      (found : Option Order) (pair : Pair)
      → ((maker : Order) → found ≡ some maker → (pair ≡ maker.pair) × IsExact maker × Unit {0})
      → of_found (λ maker. release base_scale q maker.order_side maker pair maker.quantity) found
        ≡ no_longer_held_by found none
  unfolding no_longer_held_by
  fill-held none pair fill = refl
  fill-held (some maker) pair fill =
      let (same, exact, _) = fill maker refl in release-held maker.order_side maker pair same exact

  fill-rest_held :
      (found : Option Order) (pair : Pair) (executed : ℕ)
      → 0 < base_scale
      → ((maker : Order)
          → found ≡ some maker
          → (pair ≡ maker.pair) × IsExact maker × (executed ≤ maker.quantity))
      → (of_found (λ maker. release base_scale q maker.order_side maker pair executed) found
          ≤ no_longer_held_by found (some executed))
        × (no_longer_held_by found (some executed)
            ≤ of_found (λ maker. release base_scale q maker.order_side maker pair executed) found
              + 1)
  unfolding no_longer_held_by
  fill-rest_held none pair executed positive fill = (omega arith, omega arith)
  fill-rest_held (some maker) pair executed positive fill =
      let (same, exact, within) = fill maker refl in
      release-rest_held maker.order_side maker pair executed same exact within positive

  module _ (taker : OrderId) (positive : 0 < base_scale) where
    locked-newly_held :
        (events : List OrderbookEvent)
        → IsSound events
        → locked base_scale q m taker events ≡ newly_held events
    unfolding locked newly_held
    locked-newly_held [] sound = refl
    locked-newly_held (OrderbookEvent.order_created created ∷ events) sound =
        omega
          (arith, lock-held created.order_side created sound.0, locked-newly_held events sound.1)
    locked-newly_held (OrderbookEvent.order_executed _ _ _ ∷ events) sound =
        locked-newly_held events sound.1
    locked-newly_held (OrderbookEvent.order_update _ _ _ _ _ ∷ events) sound =
        locked-newly_held events sound.1
    locked-newly_held (_ ∷ events) sound = locked-newly_held events sound

    released-no_longer_held :
        (events : List OrderbookEvent)
        → IsSound events
        → (released base_scale q m taker events ≤ no_longer_held taker events)
          × (no_longer_held taker events
              ≤ released base_scale q m taker events + partial_fills taker events)
    unfolding released release_of no_longer_held partial_fills
    released-no_longer_held [] sound = (omega arith, omega arith)
    released-no_longer_held (OrderbookEvent.order_executed order_id _ pair ∷ events) sound =
        let one = fill-held (lookup order_id m.orders) pair sound.0 in
        let (low, high) = released-no_longer_held events sound.1 in
        elim (Bool-cases (order_id == taker)) [
          | inl own ↦ rw own (omega (arith, low), omega (arith, high))
          | inr other ↦ rw other (omega (arith, one, low), omega (arith, one, high))
        ]
    released-no_longer_held (OrderbookEvent.order_update order_id _ executed _ pair ∷ events)
          sound =
        let (below, above) =
          fill-rest_held (lookup order_id m.orders) pair executed positive sound.0 in
        let (low, high) = released-no_longer_held events sound.1 in
        (omega (arith, below, low), omega (arith, above, high))
    released-no_longer_held (OrderbookEvent.order_created _ ∷ events) sound =
        released-no_longer_held events sound.1
    released-no_longer_held (_ ∷ events) sound = released-no_longer_held events sound

    -- If the base scale is positive, no price of a whole order overflows a `u64`, and each fill is
    -- of the pair of its order and of no more than its quantity, then the loop makes no funds of an
    -- asset, and loses at most one unit for each partial fill: the balances and what the new orders
    -- hold come to no more than the balances before and what the filled orders no longer hold, and
    -- to no less than that without the number of partial fills. What an order holds is reckoned in
    -- exact numbers: a bid its price times its quantity, over the scale, an ask its quantity.
    pub settle_conserves :
        (user_info_key : H256) (events : List OrderbookEvent) (st st' : Settlement)
        → IsSound events
        → settle base_scale user_info_key m taker st events ≡ ok st'
        → (total_of st' q + newly_held events ≤ total_of st q + no_longer_held taker events)
          × (total_of st q + no_longer_held taker events
              ≤ total_of st' q + newly_held events + partial_fills taker events)
    settle_conserves user_info_key events st st' sound h =
        let sum = settle_total base_scale q m taker user_info_key events st st' h in
        let locks = locked-newly_held events sound in
        let (low, high) = released-no_longer_held events sound in
        (omega (arith, sum, locks, low), omega (arith, sum, locks, high))
