-- ===== src/Tests/Contract.antt =====
-- A withdrawal and an upgrade as transactions of the contract.
use hyliquid.Prelude.{
  ◌≡◌, refl, false, none, some, [], ◌∷◌, ok, length, bytes_eq, ◌==◌, Bytes, sum, as_bytes, lookup,
  insert, Option, decimal, checked_add,
}
use hyliquid.Actions.{
  Calldata, TxContext, OrderbookAction, PermissionedOrderbookAction, PermissionedPrivateInput,
}
use hyliquid.Externals.{Externals}
use hyliquid.Contract.{Output, execute}
use hyliquid.Contract.Witness.{ZkVmState}
use hyliquid.Contract.Guards.{Whitelisted, execute-IsOperated, execute-upgrade_contract}
use hyliquid.Tests.Fixtures.{eth_usdc}
use hyliquid.Tests.Ledger.{demo, alice, user_of, resting_bid, ledger}

-- The private input is the signature of the user, and the secret is two bytes.
abbrev input_of : Bytes → PermissionedPrivateInput
input_of bytes = record { secret = 5 ∷ 6 ∷ []; user_info = alice; private_input = bytes }

abbrev running : PermissionedOrderbookAction → Externals
running action = record demo {
  parse_calldata = λ calldata. some (OrderbookAction.permissioned action 0);
  decode_permissioned = λ bytes. some (input_of bytes);
}

abbrev pub witnessed : ZkVmState
witnessed = record {
  users_info = alice ∷ user_of "b" 0 ∷ [];
  balances = ("ETH", (97, 10) ∷ []) ∷ ("USDC", (97, 700) ∷ []) ∷ [];
  lane_id = 1 ∷ [];
  hashed_secret = 11;
  last_block_number = 90;
  order_manager = record {
    orders = resting_bid ∷ [];
    bid_orders = record { pair = eth_usdc; price = 100; order_ids = "o" ∷ [] } ∷ [];
    ask_orders = [];
    orders_owner = ("o", 97) ∷ [];
  };
  assets = ledger.assets_info;
}

abbrev context : TxContext
context = record { block_height = 91; lane_id = 1 ∷ [] }

abbrev calldata : Calldata
calldata = record {
  tx_ctx = some context;
  blobs =
      record { contract_name = "orderbook"; payload = [] }
      ∷ record { contract_name = "eth"; payload = [] }
      ∷ [];
  tx_blob_count = 2;
  private_input = sum (as_bytes "a:4:withdraw:ETH:7") ∷ [];
}

abbrev withdraw_seven : PermissionedOrderbookAction
withdraw_seven =
    PermissionedOrderbookAction.withdraw "ETH" 7 (record { network = "main"; address = "x" })

abbrev paid : ZkVmState
paid = record witnessed {
  users_info = user_of "a" 5 ∷ user_of "b" 0 ∷ [];
  balances = ("ETH", (97, 3) ∷ []) ∷ ("USDC", (97, 700) ∷ []) ∷ [];
}

abbrev silent : Output
silent = record { events = some []; upgrade = none }

run_withdraw_seven : execute (running withdraw_seven) witnessed calldata ≡ ok (paid, silent)
unfolding execute lookup insert as_bytes decimal checked_add
run_withdraw_seven = refl

execute-IsOperated_example :
    (c : TxContext) × (i : PermissionedPrivateInput) × (calldata.tx_ctx ≡ some c)
    × (c.lane_id ≡ witnessed.lane_id)
    × (some (input_of calldata.private_input) ≡ some i)
    × (sum i.secret ≡ 11)
    × (length calldata.blobs ≡ 2)
    × Whitelisted witnessed calldata.blobs
execute-IsOperated_example =
    execute-IsOperated (running withdraw_seven) witnessed calldata withdraw_seven 0 refl
      run_withdraw_seven

abbrev upgrading : PermissionedOrderbookAction
upgrading = PermissionedOrderbookAction.upgrade_contract (3 ∷ [])

abbrev emptied : ZkVmState
emptied = record witnessed {
  users_info = [];
  balances = ("ETH", []) ∷ ("USDC", []) ∷ [];
  assets = [];
}

run_upgrading :
    execute (running upgrading) witnessed calldata
    ≡ ok (emptied, record { events = none; upgrade = some (3 ∷ []) })
unfolding execute lookup insert as_bytes
run_upgrading = refl

execute-upgrade_contract_example :
    (◌≡◌ {A = Option Bytes} (some (3 ∷ [])) (some (3 ∷ [])))
    × ((◌==◌ {A = Bytes} (3 ∷ []) []) ≡ false)
    × (emptied.assets ≡ [])
    × (emptied.users_info ≡ [])
execute-upgrade_contract_example =
    execute-upgrade_contract (running upgrading) witnessed calldata (3 ∷ []) 0 refl run_upgrading
