-- ===== src/Server/Database/Outbox.antt =====
-- The blob transactions leave the outbox in the order of their commits (server/src/database.rs,
-- `flush_blob_queue`).
use hyliquid.Prelude.{
  ℕ, zero, suc, ◌+◌, true, not, ◌&&◌, Option, none, some, List, [], ◌∷◌, ◌++◌, ok, err, panic, map,
  eqb, ltb, if◌then◌else◌, Result, length,
}
use hyliquid.Server.App.{BlobTransaction}
use hyliquid.Server.Database.Tables.{Tables, OutboxRow}
use hyliquid.Server.Database.Session.{
  Database, DbError, M, ◌>>=◌, ◌>>◌, pure, fail, call, statement, query,
}

abbrev pub max : ℕ → ℕ → ℕ
max a b = if ltb a b then b else a

-- `SELECT MAX(commit_id) .. WHERE status = 'sent'`, and 0 where no row is sent.
unfoldable pub last_sent : List OutboxRow → ℕ
last_sent [] = 0
last_sent (row ∷ rows) = if row.is_sent then max row.commit_id (last_sent rows) else last_sent rows

-- `.. WHERE status = 'pending' AND commit_id = $1`
unfoldable pub find_pending : ℕ → List OutboxRow → Option BlobTransaction
find_pending commit_id [] = none
find_pending commit_id (row ∷ rows) =
    if not row.is_sent && eqb row.commit_id commit_id
    then some row.blob_tx
    else find_pending commit_id rows

unfoldable pub update_row : ℕ → (OutboxRow → OutboxRow) → List OutboxRow → List OutboxRow
update_row commit_id change rows =
    map (λ row. if eqb row.commit_id commit_id then change row else row) rows

unfoldable pub update_outbox : ℕ → (OutboxRow → OutboxRow) → Tables → Option Tables
unfolding update_row
update_outbox commit_id change t =
    some (record t { blob_tx_outbox = update_row commit_id change t.blob_tx_outbox })

abbrev pub as_failed : OutboxRow → OutboxRow
as_failed row = record row { attempts = row.attempts + 1 }

abbrev pub as_sent : OutboxRow → OutboxRow
as_sent row = record row { is_sent = true; attempts = row.attempts + 1 }

-- `client.send_tx_blob`
unfoldable pub send_tx_blob : ℕ → BlobTransaction → M (Unit {0})
send_tx_blob commit_id blob_tx = do
  call
  λ db. (record db { received = db.received ++ (commit_id, blob_tx) ∷ [] }, ok tt)

-- The error of the sending, once it is noted in the table.
abbrev pub or_noted :
    ℕ → Database × Result DbError (Unit {0}) → Database × Result DbError (Unit {0})
or_noted commit_id (db, ok u) = (db, ok u)
or_noted commit_id (db, err e) = (statement (update_outbox commit_id as_failed) >> fail e) db
or_noted commit_id (db, panic) = (db, panic)

unfoldable pub send_blob : ℕ → BlobTransaction → M (Unit {0})
unfolding send_tx_blob update_outbox
send_blob commit_id blob_tx =
    (λ db. or_noted commit_id (send_tx_blob commit_id blob_tx db))
    >> statement (update_outbox commit_id as_sent)

-- A round, before the loop goes on: nothing is left to send, or one more is sent.
unfoldable pub with_next : M (Unit {0}) → ℕ → Option BlobTransaction → M (Unit {0})
with_next go_on next_commit_id none = pure tt
with_next go_on next_commit_id (some blob_tx) = send_blob next_commit_id blob_tx >> go_on

-- The loop; to run out of fuel is shown as a panic.
unfoldable pub flush : (fuel : ℕ) → M (Unit {0})
unfolding last_sent find_pending with_next send_blob
flush zero = λ db. (db, panic)
flush (suc fuel) = do
  last_sent_commit_id ← query (λ t. last_sent t.blob_tx_outbox)
  query (λ t. find_pending (last_sent_commit_id + 1) t.blob_tx_outbox)
      >>= with_next (flush fuel) (last_sent_commit_id + 1)

-- Each round but the last marks a row as sent.
unfoldable pub flush_blob_queue : M (Unit {0})
unfolding flush
flush_blob_queue db = flush (suc (length db.tables.blob_tx_outbox)) db
