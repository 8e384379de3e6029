-- ===== src/Server/Database/Refused.antt =====
-- Requests that are never written (server/src/database.rs, `write_events_internal`): the statement
-- for a cancelled order cannot be parsed.
use hyliquid.Prelude.{
  ℕ, Bool, true, false, List, [], ◌∷◌, ◌≡◌, ◌≢◌, refl, Result, ok, err, panic, any, if◌then◌else◌,
  Bool-cases, inl, inr, String, next_fails, later_faults,
}
use hyliquid.Types.{OrderbookEvent}
use hyliquid.Server.App.{WriteEvents}
use hyliquid.Server.Database.Tables.{Tables, CommitRow}
use hyliquid.Server.Database.Session.{
  Database, DbError, M, ◌>>=◌, ◌>>◌, continue, pure, fail, call, statement, transaction, attempt,
  rolled_back,
}
use hyliquid.Server.Database.Rows.{insert_commit}
use hyliquid.Server.Database.Writing.{
  makes_pair, reload_instruments, write_request, write_event, write_cancelled, write_each,
  write_rows, write_events,
}

abbrev pub is_cancelled : OrderbookEvent → Bool
is_cancelled (OrderbookEvent.order_cancelled order_id pair) = true
is_cancelled _ = false

-- A run that never ends with a result.
pub record Refuses {ℓ} {A : Type ℓ} (m : M A) : Type ℓ where
  pub at : (db db' : Database) (a : A) → m db ≡ (db', ok a) → ⊥

module _ {ℓ} {A B : Type ℓ} where
  first-Refuses :
      (o : Database × Result DbError A) (f : A → M B) (db' : Database) (b : B)
      → ((db1 : Database) (a : A) → o ≡ (db1, ok a) → ⊥)
      → continue f o ≡ (db', ok b)
      → ⊥
  first-Refuses (db, ok a) f db' b k h = k db a refl
  first-Refuses (db, err e) f db' b k h = cc
  first-Refuses (db, panic) f db' b k h = cc

  Refuses-first : (m : M A) (f : A → M B) → Refuses m → Refuses (m >>= f)
  Refuses-first m f r = record { at = λ db db' b h. first-Refuses (m db) f db' b (r.at db) h }

  later-Refuses :
      (o : Database × Result DbError A) (f : A → M B) (db' : Database) (b : B)
      → ((a : A) → Refuses (f a))
      → continue f o ≡ (db', ok b)
      → ⊥
  later-Refuses (db, ok a) f db' b k h = (k a).at db db' b h
  later-Refuses (db, err e) f db' b k h = cc
  later-Refuses (db, panic) f db' b k h = cc

  Refuses-later : (m : M A) (f : A → M B) → ((a : A) → Refuses (f a)) → Refuses (m >>= f)
  Refuses-later m f k = record { at = λ db db' b h. later-Refuses (m db) f db' b k h }

write_event-Refuses :
    (committed : Tables) (n : ℕ) (user : String) (event : OrderbookEvent)
    → is_cancelled event ≡ true
    → Refuses (write_event committed n user event)
unfolding write_event write_cancelled
write_event-Refuses committed n user (OrderbookEvent.order_cancelled order_id pair) h =
    Refuses-later call (λ _. fail DbError.syntax_error) λ _. record { at = λ db db' b k. cc }
write_event-Refuses committed n user _ h = cc

write_each-Refuses :
    (committed : Tables) (n : ℕ) (user : String) (events : List OrderbookEvent)
    → any is_cancelled events ≡ true
    → Refuses (write_each committed n user events)
unfolding write_each
write_each-Refuses committed n user [] h = cc
write_each-Refuses committed n user (event ∷ events) h = elim (Bool-cases (is_cancelled event)) [
  | inl here ↦
      Refuses-first (write_event committed n user event) (λ _. write_each committed n user events)
        (write_event-Refuses committed n user event here)
  | inr later ↦
      Refuses-later (write_event committed n user event) _
        λ _. write_each-Refuses committed n user events (rw later at h)
]

write_rows-Refuses :
    (committed : Tables) (no_blobs : Bool) (request : WriteEvents)
    → any is_cancelled request.prover_request.events ≡ true
    → Refuses (write_rows committed no_blobs request)
unfolding write_rows
write_rows-Refuses committed no_blobs request h =
    let commit_row : CommitRow = record {
      commit_id = request.prover_request.nonce;
      tx_hash = request.tx_hash;
    } in
    let events =
      write_each committed request.prover_request.nonce request.user.user
        request.prover_request.events in
    Refuses-later (statement (insert_commit commit_row))
      (λ _. events >> write_request no_blobs request)
      λ _.
        Refuses-first events (λ _. write_request no_blobs request)
          (write_each-Refuses committed request.prover_request.nonce request.user.user
            request.prover_request.events h)

-- The tables are as before, and there is no result.
abbrev pub Undone : Tables → Database × Result DbError (Unit {0}) → Type 0
Undone before o = (o.0.tables ≡ before) × (o.1 ≢ ok tt)

rolled_back-Undone :
    (before : Tables) (o : Database × Result DbError (Unit {0}))
    → ((db : Database) (u : Unit {0}) → o ≡ (db, ok u) → ⊥)
    → Undone before (rolled_back before o)
rolled_back-Undone before (db, ok u) k = absurd (k db u refl)
rolled_back-Undone before (db, err e) k = (refl, λ h. cc)
rolled_back-Undone before (db, panic) k = (refl, λ h. cc)

continue-Undone :
    (before : Tables) (o : Database × Result DbError (Unit {0})) (f : Unit {0} → M (Unit {0}))
    → Undone before o
    → Undone before (continue f o)
continue-Undone before (db, ok u) f k = absurd (k.1 refl)
continue-Undone before (db, err e) f k = (k.0, λ h. cc)
continue-Undone before (db, panic) f k = (k.0, λ h. cc)

attempt-Undone :
    (body : M (Unit {0})) (db : Database) → Refuses body → Undone db.tables (attempt body db)
unfolding attempt
attempt-Undone body db r =
    rolled_back-Undone db.tables ((body >>= λ u. call >> pure u) db)
      ((Refuses-first body (λ u. call >> pure u) r).at db)

transaction-Undone :
    (body : M (Unit {0})) (db : Database) → Refuses body → Undone db.tables (transaction body db)
unfolding transaction call
transaction-Undone body db r = elim (Bool-cases (next_fails db.faults)) [
  | inl fails ↦ rw fails (refl, λ h. cc)
  | inr works ↦ rw works (attempt-Undone body (record db { faults = later_faults db.faults }) r)
]

-- A request with a cancelled order is not written, whatever faults are to come: the tables stay as
-- they are, and the outcome is an error or a panic.
pub write_events-Undone :
    (no_blobs : Bool) (request : WriteEvents) (db : Database)
    → any is_cancelled request.prover_request.events ≡ true
    → ((write_events no_blobs request db).0.tables ≡ db.tables)
      × ((write_events no_blobs request db).1 ≢ ok tt)
unfolding write_events
write_events-Undone no_blobs request db h =
    continue-Undone db.tables (transaction (write_rows db.tables no_blobs request) db)
      (λ _. if any makes_pair request.prover_request.events then reload_instruments else pure tt)
      (transaction-Undone (write_rows db.tables no_blobs request) db
        (write_rows-Refuses db.tables no_blobs request h))
