-- ===== src/Server/Database/Enqueued.antt =====
-- What a request leaves in the outbox (server/src/database.rs, `write_events_internal`).
use hyliquid.Prelude.{
  ℕ, Bool, false, List, [], ◌∷◌, ◌++◌, ◌≡◌, ◌⊎◌, inl, ok, err, panic, any, string_eq, arith, Result,
}
use hyliquid.Server.App.{WriteEvents, BlobTransaction}
use hyliquid.Server.Database.Tables.{
  Tables, OutboxRow, CommitRow, ProverRequestRow, ContractEventsRow,
}
use hyliquid.Server.Database.Session.{
  Database, DbError, M, ◌>>=◌, ◌>>◌, pure, call, statement, query, transaction, attempt,
  rolled_back,
}
use hyliquid.Server.Database.Rows.{
  insert_commit, insert_prover_request, insert_contract_events, insert_outbox,
}
use hyliquid.Server.Database.Writing.{
  write_each, enqueue_blob, write_rows, write_request, reload_instruments, write_events, makes_pair,
  keep_instruments,
}
use hyliquid.Server.Database.Rules.{
  Leads, Leads-chain, Leads-then, Leads-call, Leads-query, Leads-pure, Leads-choice,
  Leads-statement,
}
use hyliquid.Server.Database.Untouched.{
  Untouched, aside, write_each-Leads, insert_commit-Aside, insert_prover_request-Aside,
  insert_contract_events-Aside,
}

-- The row that a request adds.
abbrev pub row_for : WriteEvents → OutboxRow
row_for request = record {
  commit_id = request.prover_request.nonce;
  blob_tx = request.blob_tx;
  is_sent = false;
  attempts = 0;
}

-- The outbox is as it was, or it has one more row.
abbrev pub Enqueued : List OutboxRow → List (ℕ × BlobTransaction) → OutboxRow → Database → Type 0
Enqueued rows received row db =
    ((db.tables.blob_tx_outbox ≡ rows) ⊎ (db.tables.blob_tx_outbox ≡ rows ++ row ∷ []))
    × (db.received ≡ received)

module _ (rows : List OutboxRow) (received : List (ℕ × BlobTransaction)) where
  enqueue_blob-Enqueued :
      (no_blobs : Bool) (request : WriteEvents)
      → Leads
          (Untouched rows received)
          (Enqueued rows received (row_for request))
          (enqueue_blob no_blobs request.prover_request.nonce request)
  unfolding enqueue_blob insert_outbox
  enqueue_blob-Enqueued no_blobs request =
      Leads-choice no_blobs (pure tt) (statement (insert_outbox (row_for request)))
        (record { at = λ db p. (inl p.0, p.1) })
        (Leads-statement (λ db later p. p) (λ db p. (inl p.0, p.1))
          (insert_outbox (row_for request)) λ db t e p. ground arith)

  on :
      (row : OutboxRow) (m : M (Unit {0})) (f : Unit {0} → M (Unit {0}))
      → Leads (Untouched rows received) (Untouched rows received) m
      → ((a : Unit {0}) → Leads (Untouched rows received) (Enqueued rows received row) (f a))
      → Leads (Untouched rows received) (Enqueued rows received row) (m >>= f)
  on row m f = Leads-chain (λ db p. (inl p.0, p.1)) m f

  write_rows-Enqueued :
      (committed : Tables) (no_blobs : Bool) (request : WriteEvents)
      → Leads
          (Untouched rows received)
          (Enqueued rows received (row_for request))
          (write_rows committed no_blobs request)
  unfolding write_rows write_request
  write_rows-Enqueued committed no_blobs request =
      let n = request.prover_request.nonce in
      let commit_row : CommitRow = record { commit_id = n; tx_hash = request.tx_hash } in
      let prover_row : ProverRequestRow = record {
        commit_id = n;
        tx_hash = request.tx_hash;
        request = request.prover_request;
      } in
      let events_row : ContractEventsRow = record {
        commit_id = n;
        user_info = request.user;
        events = request.prover_request.events;
      } in
      let put = aside rows received in
      let onward = on (row_for request) in
      onward (statement (insert_commit commit_row)) _
        (put (insert_commit commit_row) (insert_commit-Aside commit_row))
        λ _.
          onward (write_each committed n request.user.user request.prover_request.events) _
            (write_each-Leads rows received committed n request.user.user
              request.prover_request.events)
            λ _.
              onward (statement (insert_prover_request prover_row)) _
                (put (insert_prover_request prover_row) (insert_prover_request-Aside prover_row))
                λ _.
                  onward (statement (insert_contract_events events_row)) _
                    (put (insert_contract_events events_row)
                      (insert_contract_events-Aside events_row))
                    λ _. enqueue_blob-Enqueued no_blobs request

  settled :
      (row : OutboxRow) (before : Tables) (o : Database × Result DbError (Unit {0}))
      → before.blob_tx_outbox ≡ rows
      → Enqueued rows received row o.0
      → Enqueued rows received row (rolled_back before o).0
  settled row before (db, ok a) e p = p
  settled row before (db, err x) e p = (inl e, p.1)
  settled row before (db, panic) e p = (inl e, p.1)

  transaction-Enqueued :
      (row : OutboxRow) (body : M (Unit {0}))
      → Leads (Untouched rows received) (Enqueued rows received row) body
      → Leads (Untouched rows received) (Enqueued rows received row) (transaction body)
  unfolding transaction attempt
  transaction-Enqueued row body k =
      on row call (λ _. attempt body) (Leads-call (λ db later p. p))
        λ _. record {
          at = λ db p. settled row db.tables ((body >>= λ a. call >> pure a) db) p.0 (
              (Leads-then body (λ a. call >> pure a) k
                  λ a.
                    Leads-then call (λ _. pure a) (Leads-call (λ db later q. q))
                      λ _. Leads-pure a).at
                db p);
        }

  -- Whatever faults are to come, a request leaves the outbox as it is or adds its one row, and sends
  -- nothing.
  pub write_events-Enqueued :
      (no_blobs : Bool) (request : WriteEvents)
      → Leads
          (Untouched rows received)
          (Enqueued rows received (row_for request))
          (write_events no_blobs request)
  unfolding write_events reload_instruments
  write_events-Enqueued no_blobs request = record {
    at = λ db p.
        (Leads-then (transaction (write_rows db.tables no_blobs request)) _
            (transaction-Enqueued (row_for request) (write_rows db.tables no_blobs request)
              (write_rows-Enqueued db.tables no_blobs request))
            λ _.
              Leads-choice (any makes_pair request.prover_request.events) reload_instruments
                (pure tt)
                (Leads-then call _ (Leads-call (λ db later q. q)) λ _.
                  Leads-then (query (λ t. t.instruments)) keep_instruments
                    (Leads-query (λ db later q. q) (λ t. t.instruments))
                    λ _. record { at = λ db q. q })
                (Leads-pure tt)).at
          db p;
  }
