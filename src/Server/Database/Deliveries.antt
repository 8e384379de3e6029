-- ===== src/Server/Database/Deliveries.antt =====
-- What the node has received, against the outbox (server/src/database.rs, `flush_blob_queue`).
use hyliquid.Prelude.{
  ℕ, ◌+◌, ◌≤◌, false, ◌&&◌, Option, none, some, List, [], ◌∷◌, ◌++◌, ◌≡◌, refl, ◌⊎◌, inl, inr, All,
  eqb, ltb, if◌then◌else◌, arith,
}
use hyliquid.Server.App.{BlobTransaction}
use hyliquid.Server.Database.Tables.{OutboxRow}
use hyliquid.Server.Database.Outbox.{last_sent, find_pending, update_row, as_failed, as_sent}

abbrev pub Delivery : Type 0
Delivery = ℕ × BlobTransaction

-- The last commit in a sequence of deliveries that follows `top`: each delivery is of the next
-- commit or of the same one again.
abbrev pub next_top : ℕ → ℕ → Option ℕ
next_top top id =
    if eqb id (top + 1) then some (top + 1) else if eqb id top && ltb 0 top then some top else none

unfoldable pub reach : ℕ → List Delivery → Option ℕ
reach top [] = some top
reach top ((id, blob_tx) ∷ later) = elim (next_top top id) [ none ↦ none | some t ↦ reach t later ]

-- A row of the commit with the blob transaction.
abbrev pub HasBlob : List OutboxRow → Delivery → Type 0
HasBlob [] d = ⊥
HasBlob (row ∷ rows) d = ((row.commit_id ≡ d.0) × (row.blob_tx ≡ d.1)) ⊎ HasBlob rows d

-- The node has received the commits from 1 on in order, each once or more, with the blob transactions
-- of the outbox; the last one is the last that is marked as sent, or the one after it.
pub record IsOrderly (rows : List OutboxRow) (received : List Delivery) : Type 0 where
  pub top : ℕ
  pub reached : reach 0 received ≡ some top
  pub close : (top ≡ last_sent rows) ⊎ (top ≡ last_sent rows + 1)
  pub genuine : All (HasBlob rows) received

pub reach-append :
    (start : ℕ) (ds : List Delivery) (id : ℕ) (b : BlobTransaction) (t u : ℕ)
    → reach start ds ≡ some t
    → next_top t id ≡ some u
    → reach start (ds ++ (id, b) ∷ []) ≡ some u
unfolding reach
reach-append start [] id b t u h k = ground arith
reach-append start ((i, c) ∷ ds) id b t u h k =
    ground (arith, reach-append (start + 1) ds id b t u, reach-append start ds id b t u)

pub last_sent-append :
    (rows : List OutboxRow) (row : OutboxRow)
    → row.is_sent ≡ false
    → last_sent (rows ++ row ∷ []) ≡ last_sent rows
unfolding last_sent
last_sent-append [] row h = ground arith
last_sent-append (r ∷ rows) row h = ground (arith, last_sent-append rows row h)

pub last_sent-failed :
    (id : ℕ) (rows : List OutboxRow) → last_sent (update_row id as_failed rows) ≡ last_sent rows
unfolding last_sent update_row
last_sent-failed id [] = refl
last_sent-failed id (r ∷ rows) = ground (arith, last_sent-failed id rows)

last_sent-le :
    (id : ℕ) (rows : List OutboxRow)
    → last_sent rows ≤ id
    → last_sent (update_row id as_sent rows) ≤ id
unfolding last_sent update_row
last_sent-le id [] h = h
last_sent-le id (r ∷ rows) h = ground (arith, last_sent-le id rows)

last_sent-ge :
    (id : ℕ) (rows : List OutboxRow) (b : BlobTransaction)
    → find_pending id rows ≡ some b
    → id ≤ last_sent (update_row id as_sent rows)
unfolding last_sent update_row find_pending
last_sent-ge id [] b h = cc
last_sent-ge id (r ∷ rows) b h = ground (arith, last_sent-ge id rows b)

pub last_sent-marked :
    (id : ℕ) (rows : List OutboxRow) (b : BlobTransaction)
    → find_pending id rows ≡ some b
    → id ≡ last_sent rows + 1
    → last_sent (update_row id as_sent rows) ≡ id
last_sent-marked id rows b h e =
    omega (arith, last_sent-ge id rows b h, last_sent-le id rows (omega arith))

pub HasBlob-append :
    (rows : List OutboxRow) (row : OutboxRow) (d : Delivery)
    → HasBlob rows d
    → HasBlob (rows ++ row ∷ []) d
HasBlob-append [] row d h = absurd h
HasBlob-append (r ∷ rows) row d (inl e) = inl e
HasBlob-append (r ∷ rows) row d (inr h) = inr (HasBlob-append rows row d h)

pub HasBlob-found :
    (id : ℕ) (rows : List OutboxRow) (b : BlobTransaction)
    → find_pending id rows ≡ some b
    → HasBlob rows (id, b)
unfolding find_pending
HasBlob-found id [] b h = cc
HasBlob-found id (r ∷ rows) b h = ground (arith, HasBlob-found id rows b)

pub HasBlob-failed :
    (id : ℕ) (rows : List OutboxRow) (d : Delivery)
    → HasBlob rows d
    → HasBlob (update_row id as_failed rows) d
unfolding update_row
HasBlob-failed id [] d h = h
HasBlob-failed id (r ∷ rows) d (inl e) = inl (ground arith)
HasBlob-failed id (r ∷ rows) d (inr h) = inr (HasBlob-failed id rows d h)

pub HasBlob-sent :
    (id : ℕ) (rows : List OutboxRow) (d : Delivery)
    → HasBlob rows d
    → HasBlob (update_row id as_sent rows) d
unfolding update_row
HasBlob-sent id [] d h = h
HasBlob-sent id (r ∷ rows) d (inl e) = inl (ground arith)
HasBlob-sent id (r ∷ rows) d (inr h) = inr (HasBlob-sent id rows d h)

pub All-weaken {ℓ κ} :
    {A : Type ℓ} (P Q : A → Type κ) (xs : List A) → ((a : A) → P a → Q a) → All P xs → All Q xs
All-weaken P Q [] k h = tt
All-weaken P Q (x ∷ xs) k h = (k x h.0, All-weaken P Q xs k h.1)
