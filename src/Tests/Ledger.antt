-- ===== src/Tests/Ledger.antt =====
-- A small contract state: two users, two assets, and stand-ins for the hash and the signatures.
use hyliquid.Prelude.{ℕ, none, some, [], ◌∷◌, sum, bytes_beq, String}
use hyliquid.Types.{OrderSide, Order, UserInfo, OrderManager, ExecuteState}
use hyliquid.Externals.{Externals}
use hyliquid.State.Settlement.{Settlement}
use hyliquid.Tests.Fixtures.{eth_usdc, ask_of}

-- The hash adds the bytes up, and a signature is the digest itself.
abbrev pub demo : Externals
demo = record {
  touched_order = λ touched. touched;
  sha3_256 = sum;
  parse_signature = some;
  parse_point = some;
  parse_key = some;
  verify_digest = λ key digest signature. bytes_beq signature (digest ∷ []);
  decode_new_public_key = some;
  decode_signed = λ input. some (input, 1 ∷ []);
  decode_permissioned = λ input. none;
  decode_escape_user = λ input. none;
  decode_transfer = λ payload. none;
  parse_calldata = λ calldata. none;
  default_program_id = [];
}

abbrev pub user_of : String → ℕ → UserInfo
user_of name nonce = record { user = name; salt = []; nonce = nonce; session_keys = (1 ∷ []) ∷ [] }

abbrev pub alice : UserInfo
alice = user_of "a" 4

-- A bid of the first user rests: three at a price of 100.
abbrev pub resting_bid : Order
resting_bid = record (ask_of "o" 100 3) { order_side = OrderSide.bid }

abbrev pub bids : OrderManager
bids = record {
  orders = ("o", resting_bid) ∷ [];
  bid_orders = (eth_usdc, (100, "o" ∷ []) ∷ []) ∷ [];
  ask_orders = [];
  orders_owner = ("o", 97) ∷ [];
}

abbrev pub ledger : ExecuteState
ledger = record {
  assets_info =
      ("ETH", record { scale = 1; contract_name = "eth" })
      ∷ ("USDC", record { scale = 2; contract_name = "usdc" })
      ∷ [];
  users_info = ("a", alice) ∷ ("b", user_of "b" 0) ∷ [];
  balances = ("ETH", (97, 10) ∷ []) ∷ ("USDC", (97, 700) ∷ (98, 50) ∷ []) ∷ [];
  order_manager = bids;
}

-- The start of the settlement of an order on the small book.
abbrev pub unsettled : Settlement
unsettled = record {
  balance_changes = ("ETH", (97, 10) ∷ []) ∷ ("USDC", (97, 2000) ∷ []) ∷ [];
  touched_accounts = [];
  user_keys = [];
}
