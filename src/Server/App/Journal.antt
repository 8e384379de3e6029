-- ===== src/Server/App/Journal.antt =====
-- What the module has sent to the database, against the state that it holds in memory
-- (server/src/app.rs).
use hyliquid.Prelude.{ℕ, List, [], ◌∷◌, ◌++◌, ◌≡◌, ok, ◌>>=◌, ◌==◌, string_eq, true, All}
use hyliquid.Types.{ExecuteState}
use hyliquid.Errors.{Error}
use hyliquid.Errors
use hyliquid.Externals.{Externals}
use hyliquid.State.Apply.{apply_events}
use hyliquid.Server.App.{App, Router, WriteEvents, next_id}
use hyliquid.Server.App.Steps.{Steps}
use hyliquid.Server.App.Submissions.{submission}
use hyliquid.Server.App.Handlers.{SubmitProverRequest}

-- The state after the messages, each applied for its user.
unfoldable pub replay : Externals → ExecuteState → List WriteEvents → Errors.Result ExecuteState
replay x s [] = ok s
replay x s (message ∷ later) =
    apply_events x s message.prover_request.user_info message.prover_request.events >>= λ s'.
    replay x s' later

-- The messages bear the numbers that follow `start`, and `next` comes after them.
abbrev pub IsNumbered : (start : ℕ) → List WriteEvents → (next : ℕ) → Type 0
IsNumbered start [] next = next ≡ start
IsNumbered start (message ∷ later) next =
    (message.prover_request.nonce ≡ start) × IsNumbered (next_id start) later next

-- Two lists merged, each in its order.
pub data IsMerge {ℓ} {A : Type ℓ} : List A → List A → List A → Type ℓ where
  no_item : IsMerge [] [] []
  own_item :
      {own others merged : List A} (a : A)
      → IsMerge own others merged
      → IsMerge (own ++ a ∷ []) others (merged ++ a ∷ [])
  other_item :
      {own others merged : List A} (a : A)
      → IsMerge own others merged
      → IsMerge own (others ++ a ∷ []) (merged ++ a ∷ [])

-- The message is that of a prover request with the hash of its transaction.
abbrev pub IsSubmitted : Router → WriteEvents → Type 0
IsSubmitted ctx message =
    (request : SubmitProverRequest) × (message ≡ submission ctx request)
    × ((request.secret == ctx.admin_secret) ≡ true)
    × (request.prover_request.tx_hash ≡ ctx.hashed request.blob_tx)

-- What was written are messages of the module's own actions, which lead from the first state to
-- the one in memory and bear the numbers up to the counter, and messages of prover requests.
pub record IsJournaled (ctx : Router) (initial : ExecuteState) (start : ℕ) (app : App)
    : Type 0 where
  pub own : List WriteEvents
  pub others : List WriteEvents
  pub merged : IsMerge own others app.written
  pub replayed : replay ctx.externals initial own ≡ ok app.orderbook
  pub numbered : IsNumbered start own app.action_id_counter
  pub submitted : All (IsSubmitted ctx) others

module _ (ctx : Router) (initial : ExecuteState) (start : ℕ) where
  abbrev Holds : App → Type 0
  Holds app = IsJournaled ctx initial start app
