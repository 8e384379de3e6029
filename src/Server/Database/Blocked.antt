-- ===== src/Server/Database/Blocked.antt =====
-- A commit that never reaches the outbox (server/src/database.rs): what the node receives then.
use hyliquid.Prelude.{
  ℕ, ◌<◌, Bool, true, false, some, List, [], ◌∷◌, ◌++◌, ◌≡◌, ◌≢◌, refl, ap, ◌⊎◌, inl, inr, any, All,
  All-append, arith,
}
use hyliquid.Server.App.{BlobTransaction, WriteEvents}
use hyliquid.Server.Database.Tables.{OutboxRow}
use hyliquid.Server.Database.Session.{Database}
use hyliquid.Server.Database.Writing.{write_events}
use hyliquid.Server.Database.Outbox.{last_sent, find_pending, update_row, as_failed, as_sent}
use hyliquid.Server.Database.Deliveries.{
  Delivery, last_sent-append, last_sent-failed, last_sent-marked,
}
use hyliquid.Server.Database.Enqueued.{row_for, write_events-Enqueued}
use hyliquid.Server.Database.Refused.{is_cancelled, write_events-Undone}
use hyliquid.Server.Database.Flushing.{Chosen, KeptByFlush, Steps, Steps-keep}

-- No row is that of the commit.
abbrev pub NoRow : ℕ → List OutboxRow → Type 0
NoRow n rows = All (λ row. row.commit_id ≢ n) rows

-- Every request with the number `n` has a cancelled order among its events.
abbrev pub OnlyCancels : ℕ → WriteEvents → Type 0
OnlyCancels n request =
    (request.prover_request.nonce ≢ n) ⊎ (any is_cancelled request.prover_request.events ≡ true)

-- The commit is missing, and what is marked or received comes before it.
pub record IsBlocked (n : ℕ) (rows : List OutboxRow) (ds : List Delivery) : Type 0 where
  pub missing : NoRow n rows
  pub marked : last_sent rows < n
  pub before : All (λ d. d.0 < n) ds

NoRow-failed :
    (n id : ℕ) (rows : List OutboxRow) → NoRow n rows → NoRow n (update_row id as_failed rows)
unfolding update_row
NoRow-failed n id [] h = h
NoRow-failed n id (row ∷ rows) h = (ground arith, NoRow-failed n id rows h.1)

NoRow-sent :
    (n id : ℕ) (rows : List OutboxRow) → NoRow n rows → NoRow n (update_row id as_sent rows)
unfolding update_row
NoRow-sent n id [] h = h
NoRow-sent n id (row ∷ rows) h = (ground arith, NoRow-sent n id rows h.1)

found_is_other :
    (n id : ℕ) (rows : List OutboxRow) (b : BlobTransaction)
    → NoRow n rows
    → find_pending id rows ≡ some b
    → id ≢ n
unfolding find_pending
found_is_other n id [] b h e = cc
found_is_other n id (row ∷ rows) b h e = ground (arith, found_is_other n id rows b h.1)

module _ (n : ℕ) where
  Chosen-lt :
      (id : ℕ) (b : BlobTransaction) (rows : List OutboxRow) (ds : List Delivery)
      → Chosen rows id b
      → IsBlocked n rows ds
      → id < n
  Chosen-lt id b rows ds c k =
      let other = found_is_other n id rows b k.missing c.1 in ground (arith, k.marked, c.0)

  IsBlocked-KeptByFlush : KeptByFlush (IsBlocked n)
  IsBlocked-KeptByFlush = record {
    failing = λ id rows ds k. record {
      missing = NoRow-failed n id rows k.missing;
      marked = rw (last_sent-failed id rows) k.marked;
      before = k.before;
    };
    arriving = λ id b rows ds c k. record {
      missing = k.missing;
      marked = k.marked;
      before =
          All-append (λ d. d.0 < n) ds ((id, b) ∷ []) k.before (Chosen-lt id b rows ds c k, tt);
    };
    marking = λ id b rows ds c k. record {
      missing = NoRow-sent n id rows k.missing;
      marked = rw (last_sent-marked id rows b c.1 c.0) (Chosen-lt id b rows ds c k);
      before =
          All-append (λ d. d.0 < n) ds ((id, b) ∷ []) k.before (Chosen-lt id b rows ds c k, tt);
    };
  }

  enqueued-IsBlocked :
      (rows rows' : List OutboxRow) (ds ds' : List Delivery) (row : OutboxRow)
      → row.is_sent ≡ false
      → (row.commit_id ≢ n) ⊎ (rows' ≡ rows)
      → IsBlocked n rows ds
      → (rows' ≡ rows) ⊎ (rows' ≡ rows ++ row ∷ [])
      → ds' ≡ ds
      → IsBlocked n rows' ds'
  enqueued-IsBlocked rows rows' ds ds' row pending other k (inl e) r = rw (e, r) k
  enqueued-IsBlocked rows rows' ds ds' row pending (inr e) k (inr _) r = rw (e, r) k
  enqueued-IsBlocked rows rows' ds ds' row pending (inl other) k (inr e) r =
      rw (e, r)
        (record {
          missing = All-append (λ x. x.commit_id ≢ n) rows (row ∷ []) k.missing (other, tt);
          marked = rw (last_sent-append rows row pending) k.marked;
          before = k.before;
        })

  write_events-IsBlocked :
      (no_blobs : Bool) (db : Database) (request : WriteEvents)
      → OnlyCancels n request
      → IsBlocked n db.tables.blob_tx_outbox db.received
      → IsBlocked n
          (write_events no_blobs request db).0.tables.blob_tx_outbox
          (write_events no_blobs request db).0.received
  write_events-IsBlocked no_blobs db request allowed k =
      let rows = db.tables.blob_tx_outbox in
      let after = (write_events no_blobs request db).0 in
      let (grown, kept) =
        (write_events-Enqueued rows db.received no_blobs request).at db (refl, refl) in
      enqueued-IsBlocked rows after.tables.blob_tx_outbox db.received after.received
        (row_for request) refl (kept_out allowed) k grown kept
    where
      kept_out :
          OnlyCancels n request
          → (request.prover_request.nonce ≢ n)
            ⊎ ((write_events no_blobs request db).0.tables.blob_tx_outbox
                ≡ db.tables.blob_tx_outbox)
      kept_out (inl other) = inl other
      kept_out (inr cancels) =
          inr (ap (λ t. t.blob_tx_outbox) (write_events-Undone no_blobs request db cancels).0)

  -- Where the outbox has no row of a commit, and what was marked or received comes before it, and
  -- every request with its number cancels an order, the node receives no later commit, whatever
  -- other requests are written and flushed and whatever faults are to come.
  pub Steps-IsBlocked :
      (no_blobs : Bool) (db db' : Database)
      → IsBlocked n db.tables.blob_tx_outbox db.received
      → Steps (OnlyCancels n) no_blobs db db'
      → All (λ d. d.0 < n) db'.received
  Steps-IsBlocked no_blobs db db' k steps =
      (Steps-keep (OnlyCancels n) no_blobs (IsBlocked n) IsBlocked-KeptByFlush
        (write_events-IsBlocked no_blobs) steps k).before
