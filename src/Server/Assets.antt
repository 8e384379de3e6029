-- ===== src/Server/Assets.antt =====
-- The assets and instruments that the server keeps in memory
-- (server/src/services/asset_service.rs). The order of a table is that in which an iteration over
-- the `HashMap` meets its entries.
use hyliquid.Prelude.{
  ℕ, Option, none, some, List, [], ◌∷◌, if◌then◌else◌, lookup, insert, Map, ◌==◌, string_eq, String,
  Bool,
}
use hyliquid.Types.{ContractName}

pub record Asset : Type 0 where
  pub asset_id : ℕ
  pub contract_name : ContractName
  pub symbol : String
  pub scale : ℕ
  pub step : ℕ

pub data MarketStatus : Type 0 where
  active halted closed : MarketStatus

pub record Instrument : Type 0 where
  pub instrument_id : ℕ
  pub symbol : String
  pub tick_size : ℕ
  pub qty_step : ℕ
  pub base_asset_id : ℕ
  pub quote_asset_id : ℕ
  pub status : MarketStatus

pub record AssetService : Type 0 where
  pub asset_map : Map String Asset
  pub instrument_map : Map String Instrument

-- `.values().find(p)`
unfoldable pub find_value {ℓ} : {V : Type ℓ} → (V → Bool) → Map String V → Option V
find_value p [] = none
find_value p ((key, value) ∷ rest) = if p value then some value else find_value p rest

-- The rows of a table, collected into a map by their symbol: a later row replaces an earlier one.
unfoldable pub collect {ℓ} : {V : Type ℓ} → (V → String) → Map String V → List V → Map String V
collect symbol_of table [] = table
collect symbol_of table (row ∷ rows) = collect symbol_of (insert (symbol_of row) row table) rows

abbrev pub asset_symbol : Asset → String
asset_symbol asset = asset.symbol

abbrev pub instrument_symbol : Instrument → String
instrument_symbol instrument = instrument.symbol

-- `AssetService::new`, from the rows of the two tables
unfoldable pub load_service : List Asset → List Instrument → AssetService
load_service assets instruments = record {
  asset_map = collect asset_symbol [] assets;
  instrument_map = collect instrument_symbol [] instruments;
}

unfoldable pub reload_instrument_map : List Instrument → AssetService → AssetService
reload_instrument_map rows service = record service {
  instrument_map = collect instrument_symbol [] rows;
}

unfoldable pub get_instrument : AssetService → String → Option Instrument
get_instrument service symbol = lookup symbol service.instrument_map

unfoldable pub get_asset : AssetService → String → Option Asset
get_asset service symbol = lookup symbol service.asset_map

unfoldable pub get_asset_from_contract_name : AssetService → ContractName → Option Asset
get_asset_from_contract_name service contract_name =
    find_value (λ asset. asset.contract_name == contract_name) service.asset_map

unfoldable pub get_symbol_from_contract_name : AssetService → ContractName → Option String
get_symbol_from_contract_name service contract_name =
    elim (get_asset_from_contract_name service contract_name) [
      | none ↦ none
      | some asset ↦ some asset.symbol
    ]

unfoldable pub get_contract_name_from_symbol : AssetService → String → Option ContractName
get_contract_name_from_symbol service symbol =
    elim (find_value (λ asset. asset.symbol == symbol) service.asset_map) [
      | none ↦ none
      | some asset ↦ some asset.contract_name
    ]
