-- ===== src/Server/App.antt =====
-- The order book module of the server (server/src/app.rs): the state that its handlers share, the
-- answers, and what an accepted action writes. The handlers and their laws are its children.
pub mod Handlers
pub mod Bus
pub mod Commits
pub mod SignedCommits
pub mod Submissions
pub mod Steps
pub mod Journal
pub mod SameOrder
pub mod Agreement
pub mod Runs
pub mod Wholes
pub mod Resent
use hyliquid.Prelude.{
  ℕ, ◌+◌, ◌%◌, Bool, true, false, Option, none, some, List, [], ◌∷◌, ◌++◌, Result, ok, err, panic,
  ◌>>=◌, if◌then◌else◌, lookup, u32_mod, Bytes, String, string_eq, ok_or, unwrap,
}
use hyliquid.Types.{UserInfo, ExecuteState, OrderbookEvent, ContractName}
use hyliquid.Errors.{Error}
use hyliquid.Actions.{PermissionedOrderbookAction, OrderbookAction, Blob}
use hyliquid.Externals.{Externals}
use hyliquid.State.Escape.{orderbook_account_identity}
use hyliquid.State.Users.{new_user, get_user_info}
use hyliquid.State.Apply.{apply_events}
use hyliquid.Server.Assets.{AssetService}

pub record BlobTransaction : Type 0 where
  pub identity : String
  pub blobs : List Blob

pub record OrderbookProverRequest : Type 0 where
  pub events : List OrderbookEvent
  pub user_info : UserInfo
  pub action_private_input : Bytes
  pub orderbook_action : PermissionedOrderbookAction
  pub tx_hash : ℕ
  pub nonce : ℕ

-- `DatabaseRequest::WriteEvents`
pub record WriteEvents : Type 0 where
  pub user : UserInfo
  pub tx_hash : ℕ
  pub blob_tx : BlobTransaction
  pub prover_request : OrderbookProverRequest

-- The order book behind its lock, the counter of actions, and what was sent to the database.
pub record App : Type 0 where
  pub orderbook : ExecuteState
  pub action_id_counter : ℕ
  pub written : List WriteEvents

-- What the handlers read and do not change, and the crates whose code is not in the repository:
-- hexadecimal text, hashes of transactions, and the encodings of blobs and private inputs.
pub record Router : Type 0 where
  pub externals : Externals
  pub orderbook_cn : ContractName
  pub admin_secret : String
  pub asset_service : AssetService
  -- whether the bus takes a message
  pub bus_open : Bool
  pub decode_hex : String → Option Bytes
  pub hashed : BlobTransaction → ℕ
  pub encode_action : OrderbookAction → Bytes
  pub encode_transfer : (sender recipient : String) (amount : ℕ) → Bytes
  pub encode_signed : (signature public_key : Bytes) → Bytes
  pub encode_new_public_key : Bytes → Bytes

pub data Status : Type 0 where
  unauthorized bad_request not_found not_modified internal_server_error : Status

pub data Failure : Type 0 where
  -- refused, with the state as it was
  refused : Status → Failure
  -- the state has changed, and the bus did not take the message
  unsent : App → Failure
  -- `apply_events` failed: the state is what the events before the failure made of it
  spoiled : Failure

abbrev pub Answer {ℓ} : Type ℓ → Type ℓ
Answer A = Result Failure A

-- `map_err` of an error of the order book to a status
abbrev pub or_status {ℓ} : {A : Type ℓ} → Status → Result Error A → Answer A
or_status status (ok a) = ok a
or_status status (err e) = err (Failure.refused status)
or_status status panic = panic

-- `apply_events(..).map_err(..)`
abbrev pub or_spoiled {ℓ} : {A : Type ℓ} → Result Error A → Answer A
or_spoiled (ok a) = ok a
or_spoiled (err e) = err Failure.spoiled
or_spoiled panic = panic

pub record AuthHeaders : Type 0 where
  pub identity : String
  pub public_key : Option Bytes
  pub signature : Option Bytes

-- The three headers that are text.
pub record Headers : Type 0 where
  pub x_identity : Option String
  pub x_public_key : Option String
  pub x_signature : Option String

abbrev pub decoded : (String → Option Bytes) → Option String → Option Bytes
decoded decode none = none
decoded decode (some text) = decode text

unfoldable pub from_headers : Router → Headers → Answer AuthHeaders
from_headers ctx headers = do
  identity ← ok_or headers.x_identity (Failure.refused Status.unauthorized)
  ok (record {
    identity = identity;
    public_key = decoded ctx.decode_hex headers.x_public_key;
    signature = decoded ctx.decode_hex headers.x_signature;
  })

-- The user that the state knows by the name, or a new one with the salt.
unfoldable pub known_or_new : ExecuteState → String → Bytes → UserInfo
known_or_new s user salt = elim (lookup user s.users_info) [
  | none ↦ new_user user salt
  | some user_info ↦ user_info
]

-- `fetch_add(1)` on an `AtomicU32`
abbrev pub next_id : ℕ → ℕ
next_id action_id = (action_id + 1) % u32_mod

-- `bus.send(DatabaseRequest::WriteEvents { .. })?`
unfoldable pub write : Router → App → WriteEvents → Answer App
write ctx app request =
    if ctx.bus_open
    then ok (record app { written = app.written ++ request ∷ [] })
    else err (Failure.unsent app)

unfoldable pub action_tx : Router → PermissionedOrderbookAction → ℕ → BlobTransaction
action_tx ctx orderbook_action action_id = record {
  identity = orderbook_account_identity;
  blobs =
      (record {
        contract_name = ctx.orderbook_cn;
        payload = ctx.encode_action (OrderbookAction.permissioned orderbook_action action_id);
      })
      ∷ [];
}

-- `borsh::to_vec(&Vec::<u8>::new())`: the length alone, on four bytes
abbrev pub empty_input : Bytes
empty_input = 0 ∷ 0 ∷ 0 ∷ 0 ∷ []

-- What an action writes.
unfoldable pub write_events_of :
    Router → UserInfo → List OrderbookEvent → PermissionedOrderbookAction → ℕ → Bytes → WriteEvents
unfolding action_tx
write_events_of ctx user_info events orderbook_action action_id action_private_input =
    let blob_tx = action_tx ctx orderbook_action action_id in
    record {
      user = user_info;
      tx_hash = ctx.hashed blob_tx;
      blob_tx = blob_tx;
      prover_request = record {
        events = events;
        user_info = user_info;
        action_private_input = action_private_input;
        orderbook_action = orderbook_action;
        tx_hash = ctx.hashed blob_tx;
        nonce = action_id;
      };
    }

unfoldable pub process_orderbook_action :
    Router
    → App
    → UserInfo
    → List OrderbookEvent
    → PermissionedOrderbookAction
    → ℕ
    → Bytes
    → Answer (App × ℕ)
unfolding write write_events_of
process_orderbook_action ctx app user_info events orderbook_action action_id action_private_input =
    do
      let request =
          write_events_of ctx user_info events orderbook_action action_id action_private_input
      app' ← write ctx app request
      ok (app', request.tx_hash)

-- What the handlers have in common once they have the events: the events are applied, the counter
-- is increased, and the action is processed.
unfoldable pub commit :
    Router
    → App
    → UserInfo
    → List OrderbookEvent
    → PermissionedOrderbookAction
    → Bytes
    → Answer (App × ℕ)
unfolding process_orderbook_action
commit ctx app user_info events orderbook_action action_private_input = do
  orderbook ← or_spoiled (apply_events ctx.externals app.orderbook user_info events)
  let app' = record app { orderbook = orderbook; action_id_counter = next_id app.action_id_counter }
  process_orderbook_action ctx app' user_info events orderbook_action app.action_id_counter
      action_private_input
