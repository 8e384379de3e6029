-- ===== src/Server/Database/Session.antt =====
-- What the database module works on, and its statements. Every call of the database and of the node
-- may fail: `faults` says of the calls to come, in order, which of them do, and a call beyond the
-- list does not. The transactions of the workers are taken one at a time. A blob transaction whose
-- sending fails has not reached the node.
use hyliquid.Prelude.{
  ℕ, Bool, Option, none, some, List, Result, ok, err, panic, if◌then◌else◌, next_fails,
  later_faults,
}
use hyliquid.Server.Assets.{AssetService}
use hyliquid.Server.App.{BlobTransaction}
use hyliquid.Server.Database.Tables.{Tables}
use hyliquid.Server.Database.Aggregator.{DatabaseAggregator}

pub record Database : Type 0 where
  pub tables : Tables
  -- the numbers that `instrument_id` has used up, also by transactions that were rolled back
  pub instrument_seq : ℕ
  pub asset_service : AssetService
  pub aggregator : DatabaseAggregator
  -- the blob transactions that the node has received, with their commits
  pub received : List (ℕ × BlobTransaction)
  pub faults : List Bool

pub data DbError : Type 0 where
  call_failed : DbError
  -- a constraint of a table, or a statement that the database cannot parse
  constraint syntax_error : DbError
  asset_not_found instrument_not_found : DbError

abbrev pub M {ℓ} : Type ℓ → Type ℓ
M A = Database → Database × Result DbError A

abbrev pub continue {ℓ κ} :
    {A : Type ℓ} {B : Type κ}
    → (A → M B)
    → Database × Result DbError A
    → Database × Result DbError B
continue f (db, ok a) = f a db
continue f (db, err e) = (db, err e)
continue f (db, panic) = (db, panic)

infixl 5 ◌>>=◌ ◌>>◌
abbrev pub ◌>>=◌ {ℓ κ} : {A : Type ℓ} {B : Type κ} → M A → (A → M B) → M B
(m >>= f) db = continue f (m db)

abbrev pub ◌>>◌ {κ} : {B : Type κ} → M (Unit {0}) → M B → M B
m >> k = m >>= λ _. k

abbrev pub pure {ℓ} : {A : Type ℓ} → A → M A
pure a db = (db, ok a)

abbrev pub fail {ℓ} : {A : Type ℓ} → DbError → M A
fail e db = (db, err e)

abbrev pub get : M Database
get db = (db, ok db)

abbrev pub found {ℓ} : {A : Type ℓ} → DbError → Option A → M A
found e none db = (db, err e)
found e (some a) db = (db, ok a)

-- A call that may fail: one fault is used up.
unfoldable pub call : M (Unit {0})
call db = (
  record db { faults = later_faults db.faults },
  if next_fails db.faults then err DbError.call_failed else ok tt,
)

-- An INSERT or UPDATE: `none` is a constraint that is not met.
unfoldable pub statement : (Tables → Option Tables) → M (Unit {0})
statement change = do
  call
  db ← get
  tables ← found DbError.constraint (change db.tables)
  λ db'. (record db' { tables = tables }, ok tt)

unfoldable pub query {ℓ} : {A : Type ℓ} → (Tables → A) → M A
query f = call >> λ db. (db, ok (f db.tables))

abbrev pub rolled_back {ℓ} :
    {A : Type ℓ} → Tables → Database × Result DbError A → Database × Result DbError A
rolled_back before (db, ok a) = (db, ok a)
rolled_back before (db, err e) = (record db { tables = before }, err e)
rolled_back before (db, panic) = (record db { tables = before }, panic)

-- The statements and `commit`: unless all of this succeeds the tables are as before.
unfoldable pub attempt {ℓ} : {A : Type ℓ} → M A → M A
unfolding call
attempt body db = rolled_back db.tables ((body >>= λ a. call >> pure a) db)

-- `begin`, the statements, `commit`
unfoldable pub transaction {ℓ} : {A : Type ℓ} → M A → M A
unfolding attempt
transaction body = call >> attempt body
