-- ===== src/Server/Database/Drained.antt =====
-- A flush of the outbox while nothing fails (server/src/database.rs, `flush_blob_queue`).
use hyliquid.Prelude.{
  ℕ, zero, suc, ◌+◌, ◌≤◌, ◌<◌, true, Option, none, some, List, [], ◌∷◌, ◌++◌, ◌≡◌, ◌≢◌, refl, sym,
  ◌∙◌, ap, inl, inr, Option-cases, arith, ok, length, is_some,
}
use mathlib.Core.List.{append-nil, append_assoc}
use hyliquid.Server.App.{BlobTransaction}
use hyliquid.Server.Database.Tables.{OutboxRow}
use hyliquid.Server.Database.Session.{Database, call, statement, query}
use hyliquid.Server.Database.Outbox.{
  last_sent, find_pending, update_row, update_outbox, as_sent, send_tx_blob, send_blob, with_next,
  flush, flush_blob_queue,
}
use hyliquid.Server.Database.Deliveries.{Delivery, last_sent-marked}
use hyliquid.Server.Database.Settled.{count_pending, count_pending-le, sent, sent-lt}

abbrev followed : ℕ → Option BlobTransaction → List Delivery → List Delivery
followed id none later = []
followed id (some b) later = (id, b) ∷ later

-- The pending blob transactions of the commits from `id` on, up to the first that is missing, `limit`
-- of them at most.
unfoldable pub due : (limit : ℕ) → ℕ → List OutboxRow → List Delivery
due zero id rows = []
due (suc limit) id rows = followed id (find_pending id rows) (due limit (id + 1) rows)

-- Each commit up to `m` that follows the last one that is sent is pending.
abbrev pub AllPending : ℕ → List OutboxRow → Type 0
AllPending m rows = (id : ℕ) → last_sent rows < id → id ≤ m → is_some (find_pending id rows) ≡ true

find_pending-sent :
    (id other : ℕ) (rows : List OutboxRow)
    → other ≢ id
    → find_pending other (update_row id as_sent rows) ≡ find_pending other rows
unfolding find_pending update_row
find_pending-sent id other [] h = refl
find_pending-sent id other (row ∷ rows) h = ground (arith, find_pending-sent id other rows h)

due-sent :
    (limit id other : ℕ) (rows : List OutboxRow)
    → id < other
    → due limit other (update_row id as_sent rows) ≡ due limit other rows
unfolding due
due-sent zero id other rows h = refl
due-sent (suc limit) id other rows h =
    rw
      (
        find_pending-sent id other rows (ground arith),
        due-sent limit id (other + 1) rows (omega arith),
      )
      refl

AllPending-le :
    (m : ℕ) (rows : List OutboxRow)
    → AllPending m rows
    → find_pending (last_sent rows + 1) rows ≡ none
    → m ≤ last_sent rows
AllPending-le m rows h e = ground (arith, h (last_sent rows + 1))

AllPending-sent :
    (m : ℕ) (rows : List OutboxRow) (b : BlobTransaction)
    → find_pending (last_sent rows + 1) rows ≡ some b
    → AllPending m rows
    → AllPending m (update_row (last_sent rows + 1) as_sent rows)
AllPending-sent m rows b e h id above below =
    let marked = last_sent-marked (last_sent rows + 1) rows b e refl in
    rw (find_pending-sent (last_sent rows + 1) id rows (ground (arith, marked)))
      (h id (omega (arith, marked)) below)

-- What a flush on fuel makes of a database where nothing is to fail.
record Drains (m fuel : ℕ) (db : Database) : Type 0 where
  succeeds : (flush fuel db).1 ≡ ok tt
  delivers :
      (flush fuel db).0.received
      ≡ db.received ++ due fuel (last_sent db.tables.blob_tx_outbox + 1) db.tables.blob_tx_outbox
  marks : m ≤ last_sent (flush fuel db).0.tables.blob_tx_outbox

module _ (m fuel : ℕ) (db : Database) where
  done-Drains :
      find_pending (last_sent db.tables.blob_tx_outbox + 1) db.tables.blob_tx_outbox ≡ none
      → AllPending m db.tables.blob_tx_outbox
      → Drains m (suc fuel) (record db { faults = [] })
  unfolding flush query call with_next due
  done-Drains e h = record {
    succeeds = rw e refl;
    delivers = rw e (sym (append-nil db.received));
    marks = rw e (AllPending-le m db.tables.blob_tx_outbox h e);
  }

  more-Drains :
      (b : BlobTransaction)
      → find_pending (last_sent db.tables.blob_tx_outbox + 1) db.tables.blob_tx_outbox ≡ some b
      → Drains m fuel (sent (last_sent db.tables.blob_tx_outbox + 1) b [] db)
      → Drains m (suc fuel) (record db { faults = [] })
  unfolding flush query call with_next due send_blob send_tx_blob statement update_outbox
  more-Drains b e d =
      let rows = db.tables.blob_tx_outbox in
      let k = last_sent rows in
      record {
        succeeds = rw e d.succeeds;
        delivers = rw e (
            d.delivers
            ∙ rw
                (
                  last_sent-marked (k + 1) rows b e refl,
                  due-sent fuel (k + 1) (k + 1 + 1) rows (ground arith),
                  append_assoc db.received ((k + 1, b) ∷ []) (due fuel (k + 1 + 1) rows),
                )
                refl);
        marks = rw e d.marks;
      }

flush-Drains :
    (m fuel : ℕ) (db : Database)
    → count_pending db.tables.blob_tx_outbox < fuel
    → AllPending m db.tables.blob_tx_outbox
    → Drains m fuel (record db { faults = [] })
flush-Drains m zero db l h = absurd (omega arith)
flush-Drains m (suc fuel) db l h =
    let rows = db.tables.blob_tx_outbox in
    let k = last_sent rows in
    elim (Option-cases (find_pending (k + 1) rows)) [
      | inl e ↦ done-Drains m fuel db e h
      | inr (b, e) ↦ more-Drains m fuel db b e (
          flush-Drains m fuel (sent (k + 1) b [] db) (omega (arith, sent-lt (k + 1) rows b e))
            (AllPending-sent m rows b e h))
    ]

-- Where no call is to fail, a flush succeeds, and the node receives, after what it has received, the
-- pending blob transactions of the commits that follow the last one marked as sent, in their order
-- and up to the first that is missing; if each commit up to `m` that follows the last one marked is
-- pending, then the commits up to `m` are marked.
pub flush_blob_queue-Drains :
    (m : ℕ) (db : Database)
    → db.faults ≡ []
    → AllPending m db.tables.blob_tx_outbox
    → ((flush_blob_queue db).1 ≡ ok tt)
      × ((flush_blob_queue db).0.received
          ≡ db.received
            ++ due
                (suc (length db.tables.blob_tx_outbox))
                (last_sent db.tables.blob_tx_outbox + 1)
                db.tables.blob_tx_outbox)
      × (m ≤ last_sent (flush_blob_queue db).0.tables.blob_tx_outbox)
unfolding flush_blob_queue
flush_blob_queue-Drains m db e h =
    let rows = db.tables.blob_tx_outbox in
    let same : db ≡ record db { faults = [] } = ap (λ fs. record db { faults = fs }) e in
    let d : Drains m (suc (length rows)) db =
      rw same (flush-Drains m (suc (length rows)) db (omega (arith, count_pending-le rows)) h) in
    (d.succeeds, d.delivers, d.marks)
