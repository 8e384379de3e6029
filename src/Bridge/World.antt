-- ===== src/Bridge/World.antt =====
-- What the bridge reads and writes: its tables (bridge_metadata, bridge_eth_pending_txs,
-- bridge_eth_processed_txs, bridge_eth_address_bindings), what it has sent on the bus, and the
-- transfers that it has ordered on Ethereum. Addresses, hashes and amounts are the numbers that
-- their bytes spell. Every query of the database, call of the Ethereum node and message on the bus
-- may fail: `faults` says of the calls to come, in order, which of them do, and a call beyond the
-- list does not.
use hyliquid.Prelude.{ℕ, Bool, Option, List, Result, ok, err, panic, String, if◌then◌else◌}
pub use hyliquid.Prelude.{next_fails, later_faults}
use hyliquid.Server.Requests.{OrderbookRequest}

abbrev pub Address : Type 0
Address = ℕ

abbrev pub TxHash : Type 0
TxHash = ℕ

pub data TxStatus : Type 0 where
  pending confirmed : TxStatus

pub record EthTransaction : Type 0 where
  pub tx_hash : TxHash
  pub block_number : ℕ
  pub from : Address
  pub to : Address
  pub amount : ℕ
  pub timestamp : ℕ
  pub status : TxStatus

pub record Transfer : Type 0 where
  pub to : Address
  pub amount : ℕ

pub record World : Type 0 where
  pub last_block : Option ℕ
  pub pending_txs : List EthTransaction
  pub processed_txs : List TxHash
  -- in the order of `created_at`
  pub bindings : List (Address × String)
  pub sent : List OrderbookRequest
  pub transfers : List Transfer
  pub now : ℕ
  pub faults : List Bool

pub data BridgeError : Type 0 where
  -- a query, a call of the node or a message that failed
  call_failed : BridgeError
  out_of_range unparsed_address insufficient_balance : BridgeError
  -- the statuses of HTTP that `claim` answers with
  bad_request unauthorized conflict internal_server_error : BridgeError

abbrev pub M {ℓ} : Type ℓ → Type ℓ
M A = World → World × Result BridgeError A

abbrev pub continue {ℓ κ} :
    {A : Type ℓ} {B : Type κ}
    → (A → M B)
    → World × Result BridgeError A
    → World × Result BridgeError B
continue f (w, ok a) = f a w
continue f (w, err e) = (w, err e)
continue f (w, panic) = (w, panic)

infixl 5 ◌>>=◌ ◌>>◌
abbrev pub ◌>>=◌ {ℓ κ} : {A : Type ℓ} {B : Type κ} → M A → (A → M B) → M B
(m >>= f) w = continue f (m w)

abbrev pub ◌>>◌ {κ} : {B : Type κ} → M (Unit {0}) → M B → M B
m >> k = m >>= λ _. k

abbrev pub pure {ℓ} : {A : Type ℓ} → A → M A
pure a w = (w, ok a)

abbrev pub fail {ℓ} : {A : Type ℓ} → BridgeError → M A
fail e w = (w, err e)

abbrev pub lift {ℓ} : {A : Type ℓ} → Result BridgeError A → M A
lift r w = (w, r)

abbrev pub get : M World
get w = (w, ok w)

-- A call that may fail: one fault is used up.
unfoldable pub call : M (Unit {0})
call w = (
  record w { faults = later_faults w.faults },
  if next_fails w.faults then err BridgeError.call_failed else ok tt,
)

-- A call that changes the tables if it does not fail.
unfoldable pub execute : (World → World) → M (Unit {0})
execute f = call >> λ w. (f w, ok tt)

-- A call that reads the tables.
unfoldable pub query {ℓ} : {A : Type ℓ} → (World → A) → M A
query f = call >> λ w. (w, ok (f w))

-- `map_err(|err| AppError(StatusCode::INTERNAL_SERVER_ERROR, err))`
abbrev pub relabel {ℓ} : {A : Type ℓ} → World × Result BridgeError A → World × Result BridgeError A
relabel (w, ok a) = (w, ok a)
relabel (w, err e) = (w, err BridgeError.internal_server_error)
relabel (w, panic) = (w, panic)

abbrev pub or_internal {ℓ} : {A : Type ℓ} → M A → M A
or_internal m w = relabel (m w)
