-- ===== src/State/Settlement/Locks.antt =====
-- What a new order locks and what the fill of a resting order releases, and what either does to
-- the sum of the balances of an asset.
use hyliquid.Prelude.{
  ℕ, ◌+◌, ◌≡◌, none, some, ok, arith, if◌then◌else◌, ◌==◌, string_eq, pos, neg, >>=-eq-ok,
  ok-injective, sym, ap, ◌∙◌, unwrap, unwrap-eq-ok,
}
use hyliquid.Types.{H256, Symbol, Pair, OrderSide, Order}
use hyliquid.State.Settlement.{
  Settlement, record_balance_change, record_transfer, notional, settle_created, settle_fill,
}
use hyliquid.State.Settlement.Totals.{
  total_of, total_of-record_balance_change, total_of-record_transfer, neg_parts,
}

module _ (base_scale : ℕ) (q : Symbol) where
  -- What a new order takes out of the balances of `q`.
  unfoldable pub lock : OrderSide → Order → ℕ
  lock OrderSide.bid created =
      if created.pair.1 == q
      then elim created.price [ none ↦ 0 | some price ↦ notional base_scale created.quantity price ]
      else 0
  lock OrderSide.ask created = if created.pair.0 == q then created.quantity else 0

  -- What the fill of a resting order brings back into the balances of `q`: the locked quote of a
  -- bid, or the locked base of an ask.
  unfoldable pub release : OrderSide → Order → Pair → ℕ → ℕ
  release OrderSide.bid maker pair quantity =
      if pair.1 == q
      then elim maker.price [ none ↦ 0 | some price ↦ notional base_scale price quantity ]
      else 0
  release OrderSide.ask maker pair quantity = if pair.0 == q then quantity else 0

  module _ (user_info_key : H256) where
    created_total :
        (st st' : Settlement) (symbol : Symbol) (cost : ℕ)
        → record_balance_change st user_info_key symbol (neg (pos cost)) ≡ ok st'
        → total_of st' q + (if symbol == q then cost else 0) ≡ total_of st q
    created_total st st' symbol cost h = ground (
      arith,
      neg_parts (pos cost),
      total_of-record_balance_change st user_info_key symbol (neg (pos cost)) q h,
    )

    pub settle_created_total :
        (side : OrderSide) (st : Settlement) (created : Order) {st' : Settlement}
        → settle_created base_scale user_info_key side st created ≡ ok st'
        → total_of st' q + lock side created ≡ total_of st q
    unfolding settle_created lock
    settle_created_total OrderSide.bid st created {st'} h =
        let (price, p, r) = >>=-eq-ok (unwrap created.price) _ h in
        rw (unwrap-eq-ok created.price p)
          (created_total st st' created.pair.1 (notional base_scale created.quantity price) r)
    settle_created_total OrderSide.ask st created {st'} h =
        created_total st st' created.pair.0 created.quantity h

    -- A transfer of one asset and a gain in another.
    fill_total :
        (st st₁ st₂ : Settlement) (from to : H256) (symbol other : Symbol) (amount gain : ℕ)
        → record_transfer st from to symbol (pos amount) ≡ ok st₁
        → record_balance_change st₁ user_info_key other (pos gain) ≡ ok st₂
        → total_of st₂ q ≡ total_of st q + (if other == q then gain else 0)
    fill_total st st₁ st₂ from to symbol other amount gain p u = ground (
      arith,
      total_of-record_transfer st from to symbol (pos amount) q p,
      total_of-record_balance_change st₁ user_info_key other (pos gain) q u,
    )

    pub settle_fill_total :
        (side : OrderSide) (st : Settlement) (maker_key : H256) (maker : Order) (pair : Pair)
        (quantity : ℕ) {st' : Settlement}
        → settle_fill base_scale user_info_key side st maker_key maker pair quantity ≡ ok st'
        → total_of st' q ≡ total_of st q + release side maker pair quantity
    unfolding settle_fill release total_of
    settle_fill_total OrderSide.bid st maker_key maker pair quantity h =
        let (st₁, p, h₁) =
          >>=-eq-ok (record_transfer st user_info_key maker_key pair.0 (pos quantity)) _ h in
        let (price, r, h₂) = >>=-eq-ok (unwrap maker.price) _ h₁ in
        let gain = notional base_scale price quantity in
        let (st₂, u, e) =
          >>=-eq-ok (record_balance_change st₁ user_info_key pair.1 (pos gain)) _ h₂ in
        rw (unwrap-eq-ok maker.price r) (
          ap (λ s. total_of s q) (sym (ok-injective e))
          ∙ fill_total st st₁ st₂ user_info_key maker_key pair.0 pair.1 quantity gain p u)
    settle_fill_total OrderSide.ask st maker_key maker pair quantity {st'} h =
        let (price, r, h₁) = >>=-eq-ok (unwrap maker.price) _ h in
        let cost = notional base_scale price quantity in
        let (st₁, p, u) =
          >>=-eq-ok (record_transfer st user_info_key maker_key pair.1 (pos cost)) _ h₁ in
        fill_total st st₁ st' user_info_key maker_key pair.1 pair.0 cost quantity p u
