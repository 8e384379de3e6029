-- ===== src/Server/Database/Written.antt =====
-- Requests that are written, and their way to the node (server/src/database.rs): from
-- `write_events_internal` through the outbox to `flush_blob_queue`.
use hyliquid.Prelude.{
  none, some, ℕ, zero, suc, ◌+◌, ◌<◌, false, List, [], ◌∷◌, ◌++◌, map, ◌≡◌, refl, sym, ap, ◌∙◌, ok,
  err, panic, Result, any, if◌then◌else◌, arith, length,
}
use mathlib.Core.List.{append_assoc, append-nil}
use hyliquid.Server.App.{BlobTransaction, WriteEvents}
use hyliquid.Server.Database.Tables.{
  Tables, OutboxRow, CommitRow, ProverRequestRow, ContractEventsRow,
}
use hyliquid.Server.Database.Session.{
  Database, DbError, M, ◌>>◌, pure, call, statement, query, transaction,
}
use hyliquid.Server.Database.Rows.{
  insert_commit, insert_prover_request, insert_contract_events, insert_outbox,
}
use hyliquid.Server.Database.Writing.{
  write_each, enqueue_blob, write_rows, write_request, reload_instruments, write_events, makes_pair,
  keep_instruments,
}
use hyliquid.Server.Database.Rules.{
  Leads, Leads-then, Leads-call, Leads-query, Leads-pure, Leads-choice,
}
use hyliquid.Server.Database.Untouched.{
  Untouched, aside, write_each-Leads, insert_commit-Aside, insert_prover_request-Aside,
  insert_contract_events-Aside,
}
use hyliquid.Server.Database.Outbox.{last_sent, find_pending, flush_blob_queue}
use hyliquid.Server.Database.Deliveries.{Delivery}
use hyliquid.Server.Database.Drained.{due, flush_blob_queue-Drains}
use hyliquid.Server.Database.Enqueued.{row_for}
use hyliquid.Server.Database.Results.{
  IfOk, ok-IfOk, Results, Results-chain, Results-statement, Results-transaction,
}

Leads-IfOk {ℓ} :
    {A : Type ℓ} (P : Database → Type 0) (o : Database × Result DbError A) → P o.0 → IfOk (λ a. P) o
Leads-IfOk P (db, ok a) p = p
Leads-IfOk P (db, err e) p = tt
Leads-IfOk P (db, panic) p = tt

-- What a run keeps however it ends it keeps where it ends with a result.
kept {ℓ} : {A : Type ℓ} {P : Database → Type 0} (m : M A) → Leads P P m → Results P (λ a. P) m
kept {P = P} m k = record { at = λ db p. Leads-IfOk P (m db) (k.at db p) }

module _ (rows : List OutboxRow) (received : List (ℕ × BlobTransaction)) where
  enqueue_blob-Results :
      (request : WriteEvents)
      → Results
          (Untouched rows received)
          (λ u. Untouched (rows ++ row_for request ∷ []) received)
          (enqueue_blob false request.prover_request.nonce request)
  unfolding enqueue_blob insert_outbox
  enqueue_blob-Results request =
      Results-statement (λ db later p. p)
        {Q = λ u. Untouched (rows ++ row_for request ∷ []) received}
        (insert_outbox (row_for request)) (λ db t e p. ground arith)

  write_rows-Results :
      (committed : Tables) (request : WriteEvents)
      → Results
          (Untouched rows received)
          (λ u. Untouched (rows ++ row_for request ∷ []) received)
          (write_rows committed false request)
  unfolding write_rows write_request
  write_rows-Results committed request =
      let n = request.prover_request.nonce in
      let commit_row : CommitRow = record { commit_id = n; tx_hash = request.tx_hash } in
      let prover_row : ProverRequestRow = record {
        commit_id = n;
        tx_hash = request.tx_hash;
        request = request.prover_request;
      } in
      let events_row : ContractEventsRow = record {
        commit_id = n;
        user_info = request.user;
        events = request.prover_request.events;
      } in
      let put = aside rows received in
      let each = write_each committed n request.user.user request.prover_request.events in
      Results-chain (statement (insert_commit commit_row)) _
        (kept (statement (insert_commit commit_row))
          (put (insert_commit commit_row) (insert_commit-Aside commit_row)))
        λ _.
          Results-chain each _
            (kept each (
              write_each-Leads rows received committed n request.user.user
                request.prover_request.events))
            λ _.
              Results-chain (statement (insert_prover_request prover_row)) _
                (kept (statement (insert_prover_request prover_row))
                  (put (insert_prover_request prover_row) (insert_prover_request-Aside prover_row)))
                λ _.
                  Results-chain (statement (insert_contract_events events_row)) _
                    (kept (statement (insert_contract_events events_row)) (
                      put (insert_contract_events events_row)
                        (insert_contract_events-Aside events_row)))
                    λ _. enqueue_blob-Results request

-- What is done after the commit changes neither the outbox nor what was received.
reload_instruments-Leads :
    (rows : List OutboxRow) (received : List (ℕ × BlobTransaction))
    → Leads (Untouched rows received) (Untouched rows received) reload_instruments
unfolding reload_instruments
reload_instruments-Leads rows received = Leads-then call _ (Leads-call (λ db later q. q)) λ _.
    Leads-then (query (λ t. t.instruments)) keep_instruments
      (Leads-query (λ db later q. q) (λ t. t.instruments)) λ _. record { at = λ db q. q }

-- A request that is written has its row at the end of the outbox.
pub write_events-Results :
    (rows : List OutboxRow) (received : List (ℕ × BlobTransaction)) (request : WriteEvents)
    → Results
        (Untouched rows received)
        (λ u. Untouched (rows ++ row_for request ∷ []) received)
        (write_events false request)
unfolding write_events
write_events-Results rows received request = record {
  at = λ db p.
      let more = rows ++ row_for request ∷ [] in
      let last =
        if any makes_pair request.prover_request.events then reload_instruments else pure tt in
      (Results-chain (transaction (write_rows db.tables false request)) (λ _. last)
          (Results-transaction (write_rows db.tables false request) (λ at later q. q)
            (λ u at later q. q) (write_rows-Results rows received db.tables request))
          (λ _. kept last (
            Leads-choice (any makes_pair request.prover_request.events) reload_instruments (pure tt)
              (reload_instruments-Leads more received) (Leads-pure tt)))).at
        db p;
}

-- The requests one after the other.
unfoldable pub write_all : List WriteEvents → M (Unit {0})
write_all [] = pure tt
write_all (request ∷ requests) = write_events false request >> write_all requests

write_all-Results :
    (rows : List OutboxRow) (received : List (ℕ × BlobTransaction)) (requests : List WriteEvents)
    → Results
        (Untouched rows received)
        (λ u. Untouched (rows ++ map row_for requests) received)
        (write_all requests)
unfolding write_all
write_all-Results rows received [] = record { at = λ db p. (p.0 ∙ sym (append-nil rows), p.1) }
write_all-Results rows received (request ∷ requests) =
    let more = rows ++ row_for request ∷ [] in
    Results-chain (write_events false request) (λ _. write_all requests)
      (write_events-Results rows received request)
      (λ _.
        rw (← append_assoc rows (row_for request ∷ []) (map row_for requests))
          (write_all-Results more received requests))

-- The numbers of the requests follow one another.
abbrev pub Numbered : ℕ → List WriteEvents → Type 0
Numbered n [] = Unit
Numbered n (request ∷ requests) = (request.prover_request.nonce ≡ n) × Numbered (n + 1) requests

abbrev pub delivery_of : WriteEvents → Delivery
delivery_of request = (request.prover_request.nonce, request.blob_tx)

last_sent-row_for : (requests : List WriteEvents) → last_sent (map row_for requests) ≡ 0
unfolding last_sent
last_sent-row_for [] = refl
last_sent-row_for (request ∷ requests) = last_sent-row_for requests

find_pending-later :
    (id : ℕ) (row : OutboxRow) (rows : List OutboxRow)
    → row.commit_id < id
    → find_pending id (row ∷ rows) ≡ find_pending id rows
unfolding find_pending
find_pending-later id row rows h = ground arith

find_pending-row_for :
    (request : WriteEvents) (rows : List OutboxRow)
    → find_pending request.prover_request.nonce (row_for request ∷ rows) ≡ some request.blob_tx
unfolding find_pending
find_pending-row_for request rows = ground arith

nothing_pending : (id : ℕ) → find_pending id [] ≡ none
unfolding find_pending
nothing_pending id = refl

due-later :
    (limit id : ℕ) (row : OutboxRow) (rows : List OutboxRow)
    → row.commit_id < id
    → due limit id (row ∷ rows) ≡ due limit id rows
unfolding due
due-later zero id row rows h = refl
due-later (suc limit) id row rows h =
    rw (find_pending-later id row rows h, due-later limit (id + 1) row rows (omega arith)) refl

due-Numbered :
    (limit n : ℕ) (requests : List WriteEvents)
    → Numbered n requests
    → length requests < limit
    → due limit n (map row_for requests) ≡ map delivery_of requests
unfolding due
due-Numbered zero n requests h l = absurd (omega arith)
due-Numbered (suc limit) n [] h l = rw (nothing_pending n) refl
due-Numbered (suc limit) n (request ∷ requests) h l =
    let id = request.prover_request.nonce in
    let rows = map row_for requests in
    let later : due limit (id + 1) rows ≡ map delivery_of requests =
      due-Numbered limit (id + 1) requests (rw h.0 h.1) (omega arith) in
    rw
      (
        ← h.0,
        find_pending-row_for request rows,
        due-later limit (id + 1) (row_for request) rows (omega arith),
        later,
      )
      refl

length-row_for : (requests : List WriteEvents) → length (map row_for requests) ≡ length requests
length-row_for [] = refl
length-row_for (request ∷ requests) = ap suc (length-row_for requests)

drained :
    (requests : List WriteEvents) (db : Database)
    → Numbered 1 requests
    → db.faults ≡ []
    → db.tables.blob_tx_outbox ≡ map row_for requests
    → ((flush_blob_queue db).1 ≡ ok tt)
      × ((flush_blob_queue db).0.received ≡ db.received ++ map delivery_of requests)
drained requests db h quiet rows =
    let d = flush_blob_queue-Drains 0 db quiet (λ id above below. absurd (omega arith)) in
    let all : due (suc (length requests)) 1 (map row_for requests) ≡ map delivery_of requests =
      due-Numbered (suc (length requests)) 1 requests h (omega arith) in
    (d.0, d.1 ∙ rw (rows, last_sent-row_for requests, length-row_for requests, all) refl)

-- Where nothing was written and received before, and the requests from number 1 on, in order, are
-- all written, a flush while nothing fails succeeds, and the node has received their blob
-- transactions, each once and in the order of the requests.
pub write_all-delivery_of :
    (requests : List WriteEvents) (db : Database)
    → Numbered 1 requests
    → db.tables.blob_tx_outbox ≡ []
    → db.received ≡ []
    → (write_all requests db).1 ≡ ok tt
    → (write_all requests db).0.faults ≡ []
    → ((flush_blob_queue (write_all requests db).0).1 ≡ ok tt)
      × ((flush_blob_queue (write_all requests db).0).0.received ≡ map delivery_of requests)
write_all-delivery_of requests db h none_written none_received written quiet =
    let after =
      ok-IfOk (Untouched (map row_for requests) []) (write_all requests db) written
        ((write_all-Results [] [] requests).at db (none_written, none_received)) in
    let d = drained requests (write_all requests db).0 h quiet after.0 in
    (d.0, d.1 ∙ rw after.1 refl)
