-- ===== src/Server/Database/Settled.antt =====
-- How a flush of the outbox ends (server/src/database.rs, `flush_blob_queue`): it does so whatever
-- fails, and where nothing fails it has sent what follows the last commit that was sent.
use hyliquid.Prelude.{
  ◌⊎◌, ℕ, zero, suc, ◌+◌, ◌≤◌, ◌<◌, Bool, Option, none, some, List, [], ◌∷◌, ◌++◌, ◌≡◌, ◌≢◌, refl,
  inl, inr, arith, if◌then◌else◌, Result, err, panic, Bool-cases, next_fails, later_faults, length,
}
use hyliquid.Server.App.{BlobTransaction}
use hyliquid.Server.Database.Tables.{Tables, OutboxRow}
use hyliquid.Server.Database.Session.{Database, DbError, M, ◌>>◌, continue, call, statement, query}
use hyliquid.Server.Database.Outbox.{
  last_sent, find_pending, update_row, update_outbox, as_sent, send_tx_blob, or_noted, send_blob,
  with_next, flush, flush_blob_queue,
}

unfoldable pub count_pending : List OutboxRow → ℕ
count_pending [] = 0
count_pending (row ∷ rows) = if row.is_sent then count_pending rows else suc (count_pending rows)

pub count_pending-le : (rows : List OutboxRow) → count_pending rows ≤ length rows
unfolding count_pending
count_pending-le [] = ground arith
count_pending-le (row ∷ rows) = ground (arith, count_pending-le rows)

sent-le :
    (id : ℕ) (rows : List OutboxRow)
    → count_pending (update_row id as_sent rows) ≤ count_pending rows
unfolding count_pending update_row
sent-le id [] = ground arith
sent-le id (row ∷ rows) = ground (arith, sent-le id rows)

pub sent-lt :
    (id : ℕ) (rows : List OutboxRow) (b : BlobTransaction)
    → find_pending id rows ≡ some b
    → count_pending (update_row id as_sent rows) < count_pending rows
unfolding count_pending update_row find_pending
sent-lt id [] b h = cc
sent-lt id (row ∷ rows) b h = ground (arith, sent-le id rows, sent-lt id rows b)

-- The tables once the row of the commit is marked.
abbrev pub without : ℕ → Tables → Tables
without id t = record t { blob_tx_outbox = update_row id as_sent t.blob_tx_outbox }

-- The database once the blob transaction has arrived and its row is marked.
abbrev pub sent : ℕ → BlobTransaction → List Bool → Database → Database
sent id b later db = record db {
  tables = without id db.tables;
  received = db.received ++ (id, b) ∷ [];
  faults = later;
}

module _ (id : ℕ) (b : BlobTransaction) (go_on : M (Unit {0})) where
  noted-err :
      (db : Database)
      → (continue
          (λ _. go_on)
          (continue
            (λ _. statement (update_outbox id as_sent))
            (or_noted id (db, err DbError.call_failed)))).1
        ≡ err DbError.call_failed
  unfolding statement update_outbox call
  noted-err db = elim (Bool-cases (next_fails db.faults)) [
    | inl fails ↦ rw fails refl
    | inr works ↦ rw works refl
  ]

  -- The sending has failed, or the run goes on after it.
  abbrev Goes : Database → Database × Result DbError (Unit {0}) → Type 0
  Goes before o =
      (o.1 ≡ err DbError.call_failed) ⊎ ((later : List Bool) × (o ≡ go_on (sent id b later before)))

  marked-Goes :
      (before : Database) (later : List Bool)
      → Goes before (
          continue
            (λ _. go_on)
            (statement
              (update_outbox id as_sent)
              (record before { received = before.received ++ (id, b) ∷ []; faults = later })))
  unfolding statement update_outbox call
  marked-Goes before later = elim (Bool-cases (next_fails later)) [
    | inl fails ↦ rw fails (inl refl)
    | inr works ↦ rw works (inr (later_faults later, refl))
  ]

  sent-Goes : (db : Database) → Goes db ((send_blob id b >> go_on) db)
  unfolding send_blob send_tx_blob call
  sent-Goes db = elim (Bool-cases (next_fails db.faults)) [
    | inl fails ↦ rw fails (inl (noted-err (record db { faults = later_faults db.faults })))
    | inr works ↦ rw works (marked-Goes db (later_faults db.faults))
  ]

-- A run that does not panic where few enough rows are pending.
record Settles (n : ℕ) (m : M (Unit {0})) : Type 0 where
  at : (db : Database) → count_pending db.tables.blob_tx_outbox < n → (m db).1 ≢ panic

next-NoPanic :
    (n id : ℕ) (next : Option BlobTransaction) (go_on : M (Unit {0})) (db : Database)
    → Settles n go_on
    → count_pending db.tables.blob_tx_outbox < suc n
    → find_pending id db.tables.blob_tx_outbox ≡ next
    → (with_next go_on id next db).1 ≢ panic
unfolding with_next
next-NoPanic n id none go_on db k l e = λ h. cc
next-NoPanic n id (some b) go_on db k l e = elim (sent-Goes id b go_on db) [
  | inl failed ↦ λ h. cc
  | inr (later, goes) ↦
      rw goes (k.at (sent id b later db) (omega (arith, sent-lt id db.tables.blob_tx_outbox b e)))
]

flush-Settles : (fuel : ℕ) → Settles fuel (flush fuel)
unfolding flush query call
flush-Settles zero = record { at = λ db l. omega arith }
flush-Settles (suc fuel) = record {
  at = λ db l.
      let k = last_sent db.tables.blob_tx_outbox in
      elim (Bool-cases (next_fails db.faults)) [
        | inl fails ↦ rw fails (λ h. cc)
        | inr works ↦ rw works (elim (Bool-cases (next_fails (later_faults db.faults))) [
          | inl fails ↦ rw fails (λ h. cc)
          | inr more ↦ rw more (
              next-NoPanic fuel (k + 1) (find_pending (k + 1) db.tables.blob_tx_outbox) (flush fuel)
                (record db { faults = later_faults (later_faults db.faults) }) (flush-Settles fuel)
                l refl)
        ])
      ];
}

-- A flush ends with a result or an error, whatever faults are to come: the fuel of the loop is never
-- used up.
pub flush_blob_queue-NoPanic : (db : Database) → (flush_blob_queue db).1 ≢ panic
unfolding flush_blob_queue
flush_blob_queue-NoPanic db =
    (flush-Settles (suc (length db.tables.blob_tx_outbox))).at db
      (omega (arith, count_pending-le db.tables.blob_tx_outbox))
