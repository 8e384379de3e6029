-- ===== src/Server/Database/Ordered.antt =====
-- The order in which the node receives the blob transactions (server/src/database.rs,
-- `flush_blob_queue`).
use hyliquid.Prelude.{
  ℕ, Bool, false, some, List, [], ◌∷◌, ◌++◌, ◌≡◌, refl, sym, ◌⊎◌, inl, inr, All, All-append, arith,
}
use hyliquid.Server.App.{BlobTransaction}
use hyliquid.Server.Database.Tables.{OutboxRow}
use hyliquid.Server.Database.Session.{Database}
use hyliquid.Server.Database.Outbox.{update_row, as_failed, as_sent}
use hyliquid.Server.Database.Writing.{write_events}
use hyliquid.Server.Database.Enqueued.{row_for, write_events-Enqueued}
use hyliquid.Server.Database.Deliveries.{
  Delivery, reach, HasBlob, IsOrderly, reach-append, last_sent-append, last_sent-failed,
  last_sent-marked, HasBlob-append, HasBlob-found, HasBlob-failed, HasBlob-sent, All-weaken,
}
use hyliquid.Server.Database.Flushing.{Chosen, KeptByFlush, Steps, Steps-keep}

arrived :
    (id : ℕ) (b : BlobTransaction) (rows : List OutboxRow) (ds : List Delivery)
    → Chosen rows id b
    → IsOrderly rows ds
    → reach 0 (ds ++ (id, b) ∷ []) ≡ some id
arrived id b rows ds c o = reach-append 0 ds id b o.top id o.reached (ground (arith, o.close, c.0))

received_too :
    (id : ℕ) (b : BlobTransaction) (rows : List OutboxRow) (ds : List Delivery)
    → Chosen rows id b
    → IsOrderly rows ds
    → All (HasBlob rows) (ds ++ (id, b) ∷ [])
received_too id b rows ds c o =
    All-append (HasBlob rows) ds ((id, b) ∷ []) o.genuine (HasBlob-found id rows b c.1, tt)

IsOrderly-KeptByFlush : KeptByFlush IsOrderly
IsOrderly-KeptByFlush = record {
  failing = λ id rows ds o. record {
    top = o.top;
    reached = o.reached;
    close = rw (last_sent-failed id rows) o.close;
    genuine =
        All-weaken (HasBlob rows) (HasBlob (update_row id as_failed rows)) ds
          (HasBlob-failed id rows) o.genuine;
  };
  arriving = λ id b rows ds c o. record {
    top = id;
    reached = arrived id b rows ds c o;
    close = inr c.0;
    genuine = received_too id b rows ds c o;
  };
  marking = λ id b rows ds c o. record {
    top = id;
    reached = arrived id b rows ds c o;
    close = inl (sym (last_sent-marked id rows b c.1 c.0));
    genuine =
        All-weaken (HasBlob rows) (HasBlob (update_row id as_sent rows)) (ds ++ (id, b) ∷ [])
          (HasBlob-sent id rows) (received_too id b rows ds c o);
  };
}

enqueued-IsOrderly :
    (rows rows' : List OutboxRow) (received received' : List Delivery) (row : OutboxRow)
    → row.is_sent ≡ false
    → IsOrderly rows received
    → (rows' ≡ rows) ⊎ (rows' ≡ rows ++ row ∷ [])
    → received' ≡ received
    → IsOrderly rows' received'
enqueued-IsOrderly rows rows' received received' row pending o (inl e) r = rw (e, r) o
enqueued-IsOrderly rows rows' received received' row pending o (inr e) r =
    rw (e, r)
      (record {
        top = o.top;
        reached = o.reached;
        close = rw (last_sent-append rows row pending) o.close;
        genuine =
            All-weaken (HasBlob rows) (HasBlob (rows ++ row ∷ [])) received
              (HasBlob-append rows row) o.genuine;
      })

-- Over any steps of the module, whatever faults are to come, the node receives the commits from 1 on
-- in order, each once or more, with the blob transactions of the outbox; the last one that it has
-- received is the last that is marked as sent, or the one after it. This holds if it held at first.
pub Steps-IsOrderly :
    (no_blobs : Bool) (db db' : Database)
    → IsOrderly db.tables.blob_tx_outbox db.received
    → Steps (λ request. Unit) no_blobs db db'
    → IsOrderly db'.tables.blob_tx_outbox db'.received
Steps-IsOrderly no_blobs db db' o steps =
    Steps-keep (λ request. Unit) no_blobs IsOrderly IsOrderly-KeptByFlush
      (λ at request allowed p.
        let rows = at.tables.blob_tx_outbox in
        let after = (write_events no_blobs request at).0 in
        let (grown, kept) =
          (write_events-Enqueued rows at.received no_blobs request).at at (refl, refl) in
        enqueued-IsOrderly rows after.tables.blob_tx_outbox at.received after.received
          (row_for request) refl p grown kept)
      steps o
