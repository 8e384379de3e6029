-- ===== src/State/Settlement/Costs.antt =====
-- The exact cost of an order and of its parts, against `price * quantity / base_scale` on `u64`.
use hyliquid.Prelude.{
  ℕ, ◌+◌, ◌-◌, ◌*◌, ◌/◌, ◌≤◌, ◌<◌, ◌≡◌, refl, sym, ap, ◌∙◌, Option, none, some, arith, u64_mod,
}
use mathlib.Core.Path.{subst}
use native.Mathlib.Nat.{
  le-div_iff_mul-le, div-lt_iff_lt-mul, mod-eq_of_lt, div-mul-le_self, lt-div-mul-add, mul-add,
  mul_comm,
}
use hyliquid.State.Settlement.{notional}

whole_cost :
    (price quantity executed : ℕ)
    → executed ≤ quantity
    → price * executed + price * (quantity - executed) ≡ price * quantity
whole_cost price quantity executed h =
    sym (mul-add price executed (quantity - executed)) ∙ ap (λ n. price * n) (omega arith)

module _ (scale : ℕ) (positive : 0 < scale) where
  -- The parts of a sum, each rounded down, lose at most one.
  div-add :
      (a b : ℕ)
      → (a / scale + b / scale ≤ (a + b) / scale) × ((a + b) / scale ≤ a / scale + b / scale + 1)
  div-add a b =
      let low : a / scale + b / scale ≤ (a + b) / scale =
        (le-div_iff_mul-le positive).1
          (omega (arith, div-mul-le_self a scale, div-mul-le_self b scale)) in
      let over_a : a < a / scale * scale + scale = lt-div-mul-add positive in
      let over_b : b < b / scale * scale + scale = lt-div-mul-add positive in
      let high =
        (div-lt_iff_lt-mul {x = a + b} {y = a / scale + b / scale + 2} positive).1
          (omega (arith, over_a, over_b)) in
      (low, omega (arith, high))

  -- The cost of a part of an order, and what the cost of the rest leaves of that of the whole.
  rest_held :
      (price quantity executed : ℕ)
      → executed ≤ quantity
      → (price * executed / scale
          ≤ price * quantity / scale - price * (quantity - executed) / scale)
        × (price * quantity / scale - price * (quantity - executed) / scale
            ≤ price * executed / scale + 1)
  rest_held price quantity executed h =
      let parts = div-add (price * executed) (price * (quantity - executed)) in
      let (low, high) =
        subst
          (λ n.
            (price * executed / scale + price * (quantity - executed) / scale ≤ n / scale)
            × (n / scale ≤ price * executed / scale + price * (quantity - executed) / scale + 1))
          (whole_cost price quantity executed h) parts in
      (omega (arith, low), omega (arith, high))

notional-exact :
    (scale price quantity : ℕ)
    → price * quantity < u64_mod
    → notional scale price quantity ≡ price * quantity / scale
unfolding notional
notional-exact scale price quantity h = rw (mod-eq_of_lt h) refl

-- The cost at a price that is there, or nothing.
abbrev pub at_price : (ℕ → ℕ) → Option ℕ → ℕ
at_price cost p = elim p [ none ↦ 0 | some price ↦ cost price ]

module _ (scale n : ℕ) where
  pub lock_cost :
      (p : Option ℕ)
      → ((price : ℕ) → p ≡ some price → price * n < u64_mod)
      → at_price (λ price. notional scale n price) p ≡ at_price (λ price. price * n / scale) p
  lock_cost none fits = refl
  lock_cost (some price) fits =
      notional-exact scale n price (rw (mul_comm n price) (fits price refl))
      ∙ ap (λ k. k / scale) (mul_comm n price)

  pub release_cost :
      (p : Option ℕ)
      → ((price : ℕ) → p ≡ some price → price * n < u64_mod)
      → at_price (λ price. notional scale price n) p ≡ at_price (λ price. price * n / scale) p
  release_cost none fits = refl
  release_cost (some price) fits = notional-exact scale price n (fits price refl)

  pub rest_cost :
      (executed : ℕ) (p : Option ℕ)
      → 0 < scale
      → executed ≤ n
      → ((price : ℕ) → p ≡ some price → price * n < u64_mod)
      → (at_price (λ price. notional scale price executed) p
          ≤ at_price (λ price. price * n / scale) p
            - at_price (λ price. price * (n - executed) / scale) p)
        × (at_price (λ price. price * n / scale) p
              - at_price (λ price. price * (n - executed) / scale) p
            ≤ at_price (λ price. notional scale price executed) p + 1)
  rest_cost executed none positive h fits = (omega arith, omega arith)
  rest_cost executed (some price) positive h fits =
      let small : price * executed < u64_mod =
        omega (arith, fits price refl, whole_cost price n executed h) in
      rw (notional-exact scale price executed small) (rest_held scale positive price n executed h)
