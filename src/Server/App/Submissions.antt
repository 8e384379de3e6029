-- ===== src/Server/App/Submissions.antt =====
-- An accepted prover request and its message (`submit_prover_request` of server/src/app.rs).
use hyliquid.Prelude.{
  ℕ, [], ◌∷◌, ◌++◌, ◌≡◌, ok, ◌==◌, string_eq, arith, true, eqb, Bool-cases, inl, inr,
}
use hyliquid.State.Escape.{orderbook_account_identity}
use hyliquid.State.Users.{new_user}
use hyliquid.Server.App.Handlers.{SubmitProverRequest, submit_prover_request}
use hyliquid.Server.App.{App, Router, write, WriteEvents}

-- The message of an accepted prover request.
abbrev pub submission : Router → SubmitProverRequest → WriteEvents
submission ctx request = record {
  user = new_user orderbook_account_identity [];
  tx_hash = ctx.hashed request.blob_tx;
  blob_tx = request.blob_tx;
  prover_request = request.prover_request;
}

pub submit_prover_request-eq-ok :
    (ctx : Router) (app app' : App) (request : SubmitProverRequest) (hash : ℕ)
    → submit_prover_request ctx app request ≡ ok (app', hash)
    → ((request.secret == ctx.admin_secret) ≡ true)
      × (request.prover_request.tx_hash ≡ ctx.hashed request.blob_tx)
      × (app' ≡ record app { written = app.written ++ submission ctx request ∷ [] })
unfolding submit_prover_request write
submit_prover_request-eq-ok ctx app app' request hash h =
    elim (Bool-cases (request.secret == ctx.admin_secret)) [
      | inr wrong ↦ ground arith
      | inl right ↦
          elim (Bool-cases (eqb (ctx.hashed request.blob_tx) request.prover_request.tx_hash)) [
            | inr other ↦ ground arith
            | inl same ↦ (right, ground arith, ground arith)
          ]
    ]
