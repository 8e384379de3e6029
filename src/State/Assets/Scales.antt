-- ===== src/State/Assets/Scales.antt =====
-- The scales of the registered assets, by which `execute_order` of contracts/orderbook/src/model.rs
-- indexes its table of powers of ten.
use hyliquid.Prelude.{
  All-insert, ℕ, zero, suc, ◌^◌, ◌<◌, ◌≡◌, some, List, [], ◌∷◌, ok, err, arith, All, Map, lookup,
  insert, ◌==◌, string_eq, sym, >>=-elim, ok-injective, Bool-cases, Option-cases, leb, inl, inr,
}
use hyliquid.Types.{
  Symbol, AssetInfo, UserInfo, ExecuteState, OrderbookEvent, OrderRetentionMode, should_cleanup,
}
use hyliquid.Errors.{Error, Result}
use hyliquid.Externals.{Externals}
use hyliquid.OrderManager.Events.{apply_event, clean}
use hyliquid.State.Users.{get_key}
use hyliquid.State.Assets.{register_asset, differs}
use hyliquid.State.Apply.{
  apply_pair_created, apply_one, apply_each, apply_events_with_mode, apply_order_event, event_user,
  update_balances, apply_session_key_added, apply_nonce_incremented,
}
use hyliquid.State.Settlement.{pow10}

-- Every registered scale is below 20.
abbrev pub ScalesFit : ExecuteState → Type 0
ScalesFit s = All (λ entry. entry.1.scale < 20) s.assets_info

All-lookup :
    (symbol : Symbol) (m : Map Symbol AssetInfo) {info : AssetInfo}
    → All (λ entry. entry.1.scale < 20) m
    → lookup symbol m ≡ some info
    → info.scale < 20
unfolding lookup
All-lookup symbol [] h e = cc
All-lookup symbol ((other, old) ∷ m) h e = elim (Bool-cases (other == symbol)) [
  | inl same ↦ ground arith
  | inr differ ↦ All-lookup symbol m h.1 (rw differ at e)
]

-- A run that ends in a state with these assets keeps their scales.
ends :
    {s' : ExecuteState} (t : ExecuteState)
    → ◌≡◌ {A = Result ExecuteState} (ok t) (ok s')
    → ScalesFit t
    → ScalesFit s'
ends t done fits = rw (sym (ok-injective done)) fits

refused :
    {s' : ExecuteState} {e : Error} → ◌≡◌ {A = Result ExecuteState} (err e) (ok s') → ScalesFit s'
refused h = cc

register_asset-ScalesFit :
    (s : ExecuteState) (symbol : Symbol) (info : AssetInfo) {s' : ExecuteState}
    → ScalesFit s
    → register_asset s symbol info ≡ ok s'
    → ScalesFit s'
unfolding register_asset
register_asset-ScalesFit s symbol info fits h = elim (Option-cases (lookup symbol s.assets_info)) [
  | inl new ↦ elim (Bool-cases (leb 20 info.scale)) [
    | inl large ↦ refused (rw (new, register_asset, large) at h)
    | inr small ↦
        ends (record s { assets_info = insert symbol info s.assets_info })
          (rw (new, register_asset, small) at h)
          (All-insert (λ entry. entry.1.scale < 20) symbol info s.assets_info (ground arith) fits)
  ]
  | inr (existing, e) ↦ elim (Bool-cases (differs existing info)) [
    | inl other ↦ refused (rw (e, register_asset, other) at h)
    | inr same ↦ ends s (rw (e, register_asset, same) at h) fits
  ]
]

-- A registration leaves the book alone.
pub register_asset-keeps :
    (s : ExecuteState) (symbol : Symbol) (info : AssetInfo) {s' : ExecuteState}
    → register_asset s symbol info ≡ ok s'
    → s'.order_manager ≡ s.order_manager
unfolding register_asset
register_asset-keeps s symbol info h = ground arith

module _ (x : Externals) (u : UserInfo) where
  apply_one-ScalesFit :
      (event : OrderbookEvent) (s : ExecuteState) {s' : ExecuteState}
      → ScalesFit s
      → apply_one x s u event ≡ ok s'
      → ScalesFit s'
  unfolding apply_one apply_pair_created apply_order_event update_balances apply_session_key_added
      apply_nonce_incremented
  apply_one-ScalesFit (OrderbookEvent.pair_created pair info) s fits h =
      >>=-elim (register_asset s pair.0 info.base) _ h λ s₁ p h₁.
        >>=-elim (register_asset s₁ pair.1 info.quote) _ h₁ λ s₂ q h₂. ends _ h₂ (
          register_asset-ScalesFit s₁ pair.1 info.quote
            (register_asset-ScalesFit s pair.0 info.base fits p) q)
  apply_one-ScalesFit (OrderbookEvent.balance_updated user symbol amount) s fits h =
      >>=-elim (event_user s u user) _ h λ owner p h₁. ends _ h₁ fits
  apply_one-ScalesFit (OrderbookEvent.session_key_added _ _ _ _) s fits h = ends _ h fits
  apply_one-ScalesFit (OrderbookEvent.nonce_incremented _ _) s fits h = ends _ h fits
  apply_one-ScalesFit event s fits h =
      >>=-elim (apply_event s.order_manager (get_key x u) event) _ h λ m p h₁. ends _ h₁ fits

  apply_each-ScalesFit :
      (events : List OrderbookEvent) (s : ExecuteState) {s' : ExecuteState}
      → ScalesFit s
      → apply_each x s u events ≡ ok s'
      → ScalesFit s'
  unfolding apply_each
  apply_each-ScalesFit [] s fits h = ends s h fits
  apply_each-ScalesFit (event ∷ events) s fits h =
      >>=-elim (apply_one x s u event) _ h
        λ t p r. apply_each-ScalesFit events t (apply_one-ScalesFit event s fits p) r

  -- Whatever events are applied, in either retention mode: if every registered scale is below 20
  -- before, then so it is after.
  pub apply_events_with_mode-ScalesFit :
      (events : List OrderbookEvent) (mode : OrderRetentionMode) (s : ExecuteState)
      {s' : ExecuteState}
      → ScalesFit s
      → apply_events_with_mode x s u events mode ≡ ok s'
      → ScalesFit s'
  unfolding apply_events_with_mode
  apply_events_with_mode-ScalesFit events mode s fits h =
      >>=-elim (apply_each x s u events) _ h λ t p r. elim (Bool-cases (should_cleanup mode)) [
        | inl cleans ↦
            ends (record t { order_manager = clean t.order_manager events }) (rw cleans at r)
              (apply_each-ScalesFit events s fits p)
        | inr keeps ↦ ends t (rw keeps at r) (apply_each-ScalesFit events s fits p)
      ]

pow_pos : (n : ℕ) → 0 < 10 ^ n
pow_pos zero = omega arith
pow_pos (suc n) = omega (arith, pow_pos n)

-- Where every registered scale is below 20, the power of ten of a registered asset is in the
-- table, and it is positive, so that a division by it is defined.
pub pow10-ScalesFit :
    (s : ExecuteState) (symbol : Symbol) (info : AssetInfo)
    → ScalesFit s
    → lookup symbol s.assets_info ≡ some info
    → (pow10 info.scale ≡ some (10 ^ info.scale)) × (0 < 10 ^ info.scale)
unfolding pow10
pow10-ScalesFit s symbol info fits e =
    let fit = All-lookup symbol s.assets_info fits e in (ground arith, pow_pos info.scale)
