-- ===== src/Tests/Server.antt =====
-- The laws of the order book module at small inputs: two users, a bid that rests, and requests that
-- are signed.
use hyliquid.Prelude.{
  List, Map, ℕ, ◌*◌, ◌-◌, ◌+◌, ◌&&◌, ◌≡◌, ◌≢◌, refl, true, Option, none, some, [], ◌∷◌, ◌++◌, ok,
  err, String, Bytes, as_bytes, sum, take, drop, length, ◌≤◌, panic, insert, remove, retain,
  contains, decimal, checked_add, bytes_beq, if◌then◌else◌, ◌==◌, string_eq, eqb, lookup, arith,
}
use hyliquid.Types.{UserInfo, Order, Symbol, H256}
use hyliquid.State.Users.{get_key}
use hyliquid.State.Accounts
use hyliquid.State.Apply.{apply_events}
use hyliquid.State.Accounts.{required_symbol}
use hyliquid.State.Accounts.Effects.{balance_at}
use hyliquid.Transaction.{verify_user_signature_authorization, signed_message, cancel_text}
use hyliquid.Server.Requests.{PendingDeposit}
use hyliquid.Server.App.{App, Router, Status, Failure, Answer, Headers}
use hyliquid.Server.App.Bus.{execute_deposit}
use hyliquid.Server.App.Handlers.{Signed, WithdrawRequest, cancel_order, withdraw}
use hyliquid.Server.App.Steps.{Step, step}
use hyliquid.State.Settlement.Reordered.{IsReordered}
use hyliquid.Server.App.SameOrder.{ReadsBack}
use hyliquid.Server.App.Agreement.{SameTouched, Agrees, Step-Agrees}
use hyliquid.Server.App.Runs.{cancel_order-owner, execute_deposit-unknown}
use hyliquid.Server.App.Wholes.{funds_as_wholes}
use hyliquid.Server.App.Resent.{withdraw-again}
use hyliquid.Tests.Ledger.{demo, alice, ledger}

-- A private input: the length of the signature, the signature and the key.
abbrev read_signed : Bytes → Option (Bytes × Bytes)
read_signed [] = none
read_signed (n ∷ bytes) = some (take n bytes, drop n bytes)

abbrev router : Router
router = record {
  externals = record demo { decode_signed = read_signed };
  orderbook_cn = "orderbook";
  admin_secret = "secret";
  asset_service = record {
    asset_map =
        ("ETH", record { asset_id = 1; contract_name = "eth"; symbol = "ETH"; scale = 1; step = 1 })
        ∷ [];
    instrument_map = [];
  };
  bus_open = true;
  -- the text of a signature is the message that it signs
  decode_hex = λ text. if text == "key" then some (1 ∷ []) else some (sum (as_bytes text) ∷ []);
  hashed = λ blob_tx. 5;
  encode_action = λ action. [];
  encode_transfer = λ sender recipient amount. [];
  encode_signed = λ signature public_key. length signature ∷ signature ++ public_key;
  encode_new_public_key = λ public_key. public_key;
}

take-append : (xs ys : Bytes) → take (length xs) (xs ++ ys) ≡ xs
take-append [] ys = refl
take-append (x ∷ xs) ys = rw (take-append xs ys)

drop-append : (xs ys : Bytes) → drop (length xs) (xs ++ ys) ≡ ys
drop-append [] ys = refl
drop-append (x ∷ xs) ys = drop-append xs ys

reads : ReadsBack router
reads = (
  λ signature public_key. rw (take-append signature public_key, drop-append signature public_key),
  λ public_key. refl,
)

abbrev stored : String → Option UserInfo
stored name = some alice

abbrev signed_by : String → Headers
signed_by message = record {
  x_identity = some "a";
  x_public_key = some "key";
  x_signature = some message;
}

abbrev start : App
start = record { orderbook = ledger; action_id_counter = 1; written = [] }

-- The state that an answer comes with, or the first one.
abbrev state_of : Answer (App × ℕ) → App
state_of (ok (app, hash)) = app
state_of (err e) = start
state_of panic = start

abbrev cancelled : App
cancelled = state_of (cancel_order router stored start (signed_by "a:4:cancel:o") "o")

run_cancel : cancel_order router stored start (signed_by "a:4:cancel:o") "o" ≡ ok (cancelled, 5)
unfolding cancel_order lookup as_bytes decimal insert checked_add bytes_beq remove retain contains
    Accounts.cancel_order apply_events
run_cancel = refl

cancel_order-owner_example :
    (name : String) × (signed : Signed) × (order : Order) × (some "a" ≡ some name)
    × (stored name ≡ some signed.user_info)
    × (verify_user_signature_authorization router.externals signed.user_info signed.public_key
          (signed_message signed.user_info (cancel_text "o"))
          signed.signature
        ≡ ok tt)
    × (lookup "o" start.orderbook.order_manager.orders_owner
        ≡ some (get_key router.externals signed.user_info))
    × (lookup "o" start.orderbook.order_manager.orders ≡ some order)
    × (lookup "o" cancelled.orderbook.order_manager.orders ≡ none)
    × ((q : Symbol) (key : H256)
        → balance_at cancelled.orderbook q key ≡ (
            if required_symbol order == q && eqb (get_key router.externals signed.user_info) key
            then balance_at start.orderbook q key + order.quantity
            else balance_at start.orderbook q key))
cancel_order-owner_example =
    cancel_order-owner router stored start cancelled (signed_by "a:4:cancel:o") 5 "o" run_cancel

abbrev three_eth : WithdrawRequest
three_eth = record {
  symbol = "ETH";
  amount = 3;
  destination = record { network = "hyli"; address = "a" };
}

-- A deposit for a name that the order book does not know.
abbrev stranger : PendingDeposit
stranger = record { sender = "c"; contract_name = "eth"; amount = 7 }

funds_as_wholes_example :
    (cancel_order router stored start (signed_by "a:4:cancel:o") "o" ≢ err Failure.spoiled)
    × (withdraw router stored start (signed_by "a:4:cancel:o") three_eth ≢ err Failure.spoiled)
    × (execute_deposit router start [] stranger ≢ err Failure.spoiled)
funds_as_wholes_example =
    funds_as_wholes router start stored (signed_by "a:4:cancel:o") "o" three_eth [] stranger

unknown : lookup "c" start.orderbook.users_info ≡ none
unfolding lookup
unknown = refl

execute_deposit-unknown_example :
    execute_deposit router start [] stranger ≡ err (Failure.refused Status.internal_server_error)
execute_deposit-unknown_example = execute_deposit-unknown router start [] stranger unknown

abbrev paid : App
paid = state_of (withdraw router stored start (signed_by "a:4:withdraw:ETH:3") three_eth)

run_withdraw :
    withdraw router stored start (signed_by "a:4:withdraw:ETH:3") three_eth ≡ ok (paid, 5)
unfolding withdraw lookup as_bytes decimal insert checked_add bytes_beq contains Accounts.withdraw
    apply_events
run_withdraw = refl

-- The contract takes the second entry of the touched accounts before the first.
abbrev second_first : Map Symbol (List H256) → Map Symbol (List H256)
second_first (a ∷ b ∷ touched) = b ∷ a ∷ touched
second_first touched = touched

keys-IsReordered : (keys : List H256) → IsReordered (λ a b. a ≡ b) keys keys
keys-IsReordered [] = IsReordered.nothing
keys-IsReordered (key ∷ keys) = IsReordered.entry refl (keys-IsReordered keys)

same_touched : SameTouched router second_first
same_touched [] = IsReordered.nothing
same_touched ((symbol, keys) ∷ []) =
    IsReordered.entry (refl, keys-IsReordered keys) IsReordered.nothing
same_touched (a ∷ b ∷ touched) = IsReordered.exchange a b touched

Step-Agrees_example : Agrees router second_first start paid
Step-Agrees_example =
    Step-Agrees router second_first reads same_touched
      (Step.withdrawn start paid stored (signed_by "a:4:withdraw:ETH:3") three_eth 5 run_withdraw)
      tt

covered : 2 * 3 ≤ balance_at start.orderbook "ETH" (get_key router.externals alice)
unfolding balance_at lookup get_key as_bytes
covered = omega arith

withdraw-again_example :
    (app2 : App) × (hash2 : ℕ) × (withdraw router stored paid
        (signed_by "a:4:withdraw:ETH:3")
        three_eth
      ≡ ok (app2, hash2))
    × (balance_at app2.orderbook "ETH" (get_key router.externals alice)
        ≡ balance_at start.orderbook "ETH" (get_key router.externals alice) - 2 * 3)
withdraw-again_example =
    withdraw-again router stored (signed_by "a:4:withdraw:ETH:3") three_eth "a" alice start paid 5
      refl refl run_withdraw covered
