-- ===== src/Tests/Books.antt =====
-- A book that is read back from the rows of three orders.
use hyliquid.Prelude.{
  ◌≡◌, refl, true, string_eq, List, [], ◌∷◌, ok, ℕ, String, Map, lookup, All, is_some, pos, retain,
}
use hyliquid.Types.{Pair, OrderSide, OrderType, OrderManager, UserInfo}
use hyliquid.OrderManager.Levels.{side_map}
use hyliquid.Server.Books.{BookRow, get_order_manager}
use hyliquid.Server.Books.Queues.{queue_of, ids_at, is_on, get_order_manager-ids_at}
use hyliquid.Tests.Ledger.{demo, alice}

abbrev row_at : String → ℕ → OrderSide → BookRow
row_at id price side = record {
  order_id = id;
  order_type = OrderType.limit;
  side = side;
  price = pos price;
  qty_remaining = pos 3;
  identity = "a";
  base_asset_symbol = "ETH";
  quote_asset_symbol = "USDC";
}

abbrev rows : List BookRow
rows =
    row_at "b1" 100 OrderSide.bid
    ∷ row_at "a1" 110 OrderSide.ask
    ∷ row_at "b2" 100 OrderSide.bid
    ∷ []

abbrev users : Map String UserInfo
users = ("a", alice) ∷ []

known : All (λ row. is_some (lookup row.identity users) ≡ true) rows
unfolding lookup
known = (refl, (refl, (refl, tt)))

get_order_manager-ids_at_example :
    (m : OrderManager) × (get_order_manager demo users rows ≡ ok m)
    × ((side : OrderSide) (pair : Pair) (price : ℕ)
        → queue_of pair price (side_map m side) ≡ ids_at pair price (retain (is_on side) rows))
get_order_manager-ids_at_example = get_order_manager-ids_at demo users rows known
