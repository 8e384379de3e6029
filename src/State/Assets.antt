-- ===== src/State/Assets.antt =====
-- The registered assets of an `ExecuteState` (contracts/orderbook/src/model.rs).
pub mod Scales
use hyliquid.Prelude.{
  Bool, not, ◌||◌, true, none, some, List, [], ◌∷◌, ok, err, ◌>>◌, fail_if, if◌then◌else◌, eqb, leb,
  lookup, insert, contains_key, any, ◌==◌, string_eq,
}
use hyliquid.Types.{Symbol, ContractName, AssetInfo, Pair, PairInfo, ExecuteState, OrderbookEvent}
use hyliquid.Errors.{Result, asset_conflict, scale_too_large}
use hyliquid.State.Users.{values}

unfoldable pub differs : AssetInfo → AssetInfo → Bool
differs existing asset_info =
    not (eqb existing.scale asset_info.scale)
    || not (existing.contract_name == asset_info.contract_name)

unfoldable pub ensure_asset_registration : ExecuteState → Symbol → AssetInfo → Result (Unit {0})
unfolding differs
ensure_asset_registration s symbol asset_info = elim (lookup symbol s.assets_info) [
  | some existing ↦ fail_if (differs existing asset_info) (asset_conflict symbol)
  | none ↦ fail_if (leb 20 asset_info.scale) (scale_too_large symbol)
]

unfoldable pub create_pair : ExecuteState → Pair → PairInfo → Result (List OrderbookEvent)
unfolding ensure_asset_registration
create_pair s pair info = do
  ensure_asset_registration s pair.0 info.base
  ensure_asset_registration s pair.1 info.quote
  ok (OrderbookEvent.pair_created pair info ∷ [])

unfoldable pub register_asset : ExecuteState → Symbol → AssetInfo → Result ExecuteState
unfolding differs
register_asset s symbol asset_info = elim (lookup symbol s.assets_info) [
  | some existing ↦ if differs existing asset_info then err (asset_conflict symbol) else ok s
  | none ↦
      if leb 20 asset_info.scale
      then err (scale_too_large symbol)
      else ok (record s { assets_info = insert symbol asset_info s.assets_info })
]

unfoldable pub is_blob_whitelisted : ExecuteState → ContractName → Bool
unfolding values
is_blob_whitelisted s contract_name =
    if contract_name == "orderbook"
    then true
    else contains_key contract_name s.assets_info
      || any (λ info. info.contract_name == contract_name) (values s.assets_info)
