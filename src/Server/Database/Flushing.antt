-- ===== src/Server/Database/Flushing.antt =====
-- What a flush of the outbox keeps, with any faults (server/src/database.rs, `flush_blob_queue`).
use hyliquid.Prelude.{
  ℕ, zero, suc, ◌+◌, Bool, Option, none, some, List, [], ◌∷◌, ◌++◌, ◌≡◌, refl, ap, inl, inr, arith,
  Bool-cases, next_fails, later_faults, length,
}
use hyliquid.Server.App.{BlobTransaction, WriteEvents}
use hyliquid.Server.Database.Tables.{OutboxRow}
use hyliquid.Prelude.{Result, ok, err, panic}
use hyliquid.Server.Database.Session.{
  continue, Database, DbError, M, ◌>>=◌, fail, call, statement, query,
}
use hyliquid.Server.Database.Outbox.{
  last_sent, find_pending, update_row, update_outbox, as_failed, as_sent, send_tx_blob, send_blob,
  with_next, flush, flush_blob_queue,
}
use hyliquid.Server.Database.Writing.{write_events}
use hyliquid.Server.Database.Rules.{Leads, Leads-then, Leads-read, Leads-statement}
use hyliquid.Server.Database.Deliveries.{Delivery}

-- The row of a commit that comes next, with its blob transaction.
abbrev pub Chosen : List OutboxRow → ℕ → BlobTransaction → Type 0
Chosen rows id b = (id ≡ last_sent rows + 1) × (find_pending id rows ≡ some b)

-- A predicate on the outbox and the deliveries that each step of a flush keeps: a sending that fails,
-- one that arrives, and one that arrives and is marked.
pub record KeptByFlush {κ} (P : List OutboxRow → List Delivery → Type κ) : Type κ where
  pub failing :
      (id : ℕ) (rows : List OutboxRow) (ds : List Delivery)
      → P rows ds
      → P (update_row id as_failed rows) ds
  pub arriving :
      (id : ℕ) (b : BlobTransaction) (rows : List OutboxRow) (ds : List Delivery)
      → Chosen rows id b
      → P rows ds
      → P rows (ds ++ (id, b) ∷ [])
  pub marking :
      (id : ℕ) (b : BlobTransaction) (rows : List OutboxRow) (ds : List Delivery)
      → Chosen rows id b
      → P rows ds
      → P (update_row id as_sent rows) (ds ++ (id, b) ∷ [])

module _ {κ} (P : List OutboxRow → List Delivery → Type κ) (keeps : KeptByFlush P) where
  abbrev Holds : Database → Type κ
  Holds db = P db.tables.blob_tx_outbox db.received

  noted-Holds : (id : ℕ) → Leads Holds Holds (statement (update_outbox id as_failed))
  unfolding update_outbox
  noted-Holds id =
      Leads-statement (λ db later p. p) (λ db p. p) (update_outbox id as_failed)
        λ db t e p.
          let rows = db.tables.blob_tx_outbox in
          let changed : t.blob_tx_outbox ≡ update_row id as_failed rows = ground arith in
          rw changed (keeps.failing id rows db.received p)

  -- The delivery has arrived, and the outbox is as before.
  abbrev Arrived : ℕ → BlobTransaction → List OutboxRow → List Delivery → Database → Type 0
  Arrived id b rows ds db = (db.tables.blob_tx_outbox ≡ rows) × (db.received ≡ ds ++ (id, b) ∷ [])

  -- After the arrival, whether the row is marked or not.
  marked-Holds :
      (id : ℕ) (b : BlobTransaction) (rows : List OutboxRow) (ds : List Delivery)
      → Chosen rows id b
      → P rows ds
      → (db : Database) → Arrived id b rows ds db
      → Holds (statement (update_outbox id as_sent) db).0
  unfolding update_outbox statement call
  marked-Holds id b rows ds c p db a = elim (Bool-cases (next_fails db.faults)) [
    | inl fails ↦ rw (fails, a.0, a.1) (keeps.arriving id b rows ds c p)
    | inr works ↦ rw (works, a.0, a.1) (keeps.marking id b rows ds c p)
  ]

  -- An error that is passed on is not followed by anything.
  passed_on :
      (e : DbError) (f : Unit {0} → M (Unit {0})) (o : Database × Result DbError (Unit {0}))
      → Holds o.0
      → Holds (continue f (continue (λ _. fail e) o)).0
  passed_on e f (db, ok u) p = p
  passed_on e f (db, err x) p = p
  passed_on e f (db, panic) p = p

  send_blob-Holds :
      (id : ℕ) (b : BlobTransaction) (db : Database)
      → Chosen db.tables.blob_tx_outbox id b
      → Holds db
      → Holds (send_blob id b db).0
  unfolding send_blob send_tx_blob call
  send_blob-Holds id b db c p = elim (Bool-cases (next_fails db.faults)) [
    | inl fails ↦
        let spent = record db { faults = later_faults db.faults } in
        rw fails (
          passed_on DbError.call_failed (λ _. statement (update_outbox id as_sent))
            (statement (update_outbox id as_failed) spent) ((noted-Holds id).at spent p))
    | inr works ↦ rw works (
        marked-Holds id b db.tables.blob_tx_outbox db.received c p
          (record db { faults = later_faults db.faults; received = db.received ++ (id, b) ∷ [] })
          (refl, refl))
  ]

  next-Holds :
      (go_on : M (Unit {0})) (id : ℕ) (next : Option BlobTransaction) (db : Database)
      → Leads Holds Holds go_on
      → id ≡ last_sent db.tables.blob_tx_outbox + 1
      → find_pending id db.tables.blob_tx_outbox ≡ next
      → Holds db
      → Holds (with_next go_on id next db).0
  unfolding with_next
  next-Holds go_on id none db k e h p = p
  next-Holds go_on id (some b) db k e h p =
      (Leads-then {P = λ db'. Holds db' × Chosen db'.tables.blob_tx_outbox id b} (send_blob id b)
          (λ _. go_on) (record { at = λ db' q. send_blob-Holds id b db' q.1 q.0 }) (λ _. k)).at
        db (p, (e, h))

  pub flush-Holds : (fuel : ℕ) → Leads Holds Holds (flush fuel)
  unfolding flush
  flush-Holds zero = record { at = λ db p. p }
  flush-Holds (suc fuel) =
      Leads-read (λ db later p. p) (λ db p. p) (λ t. last_sent t.blob_tx_outbox)
        (λ k. query (λ t. find_pending (k + 1) t.blob_tx_outbox) >>= with_next (flush fuel) (k + 1))
        λ db p.
          let k = last_sent db.tables.blob_tx_outbox in
          (Leads-read {P = λ db'. Holds db' × (k ≡ last_sent db'.tables.blob_tx_outbox)}
              (λ db' later q. q) (λ db' q. q.0) (λ t. find_pending (k + 1) t.blob_tx_outbox)
              (with_next (flush fuel) (k + 1))
              λ db' q.
                next-Holds (flush fuel) (k + 1) (find_pending (k + 1) db'.tables.blob_tx_outbox) db'
                  (flush-Holds fuel) (ap (λ (n : ℕ). n + 1) q.1) refl q.0).at
            db (p, refl)

-- The steps of the module: a request that is written, one of those that `Allowed` admits, and a
-- flush of the outbox, with any outcome.
pub data Step (Allowed : WriteEvents → Type 0) (no_blobs : Bool)
    : Database → Database → Type 0 where
  wrote :
      (db : Database) (request : WriteEvents)
      → Allowed request
      → Step Allowed no_blobs db (write_events no_blobs request db).0
  flushed : (db : Database) → Step Allowed no_blobs db (flush_blob_queue db).0

pub data Steps (Allowed : WriteEvents → Type 0) (no_blobs : Bool) (first : Database)
    : Database → Type 0 where
  no_step : Steps Allowed no_blobs first first
  step :
      {db db' : Database}
      → Steps Allowed no_blobs first db
      → Step Allowed no_blobs db db'
      → Steps Allowed no_blobs first db'

module _ {κ} (Allowed : WriteEvents → Type 0) (no_blobs : Bool)
    (P : List OutboxRow → List Delivery → Type κ) (keeps : KeptByFlush P)
    (writing : (db : Database) (request : WriteEvents)
      → Allowed request
      → P db.tables.blob_tx_outbox db.received
      → P
          (write_events no_blobs request db).0.tables.blob_tx_outbox
          (write_events no_blobs request db).0.received) where
  step_Holds :
      {db db' : Database}
      → Step Allowed no_blobs db db'
      → P db.tables.blob_tx_outbox db.received
      → P db'.tables.blob_tx_outbox db'.received
  unfolding flush_blob_queue
  step_Holds (Step.wrote db request allowed) p = writing db request allowed p
  step_Holds (Step.flushed db) p =
      (flush-Holds P keeps (suc (length db.tables.blob_tx_outbox))).at db p

  pub Steps-keep :
      {db db' : Database}
      → Steps Allowed no_blobs db db'
      → P db.tables.blob_tx_outbox db.received
      → P db'.tables.blob_tx_outbox db'.received
  Steps-keep no_step p = p
  Steps-keep (step before last) p = step_Holds last (Steps-keep before p)
