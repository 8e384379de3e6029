-- ===== src/Bridge/Outcomes.antt =====
-- What a log of a transfer to the vault can leave behind when a call fails on the way
-- (server/src/bridge.rs, `handle_eth_to_vault_log`).
use hyliquid.Prelude.{
  ℕ, true, Option, none, some, [], ◌∷◌, ◌++◌, ◌≡◌, ◌⊎◌, inl, inr, sym, ok, eqb, arith, lookup,
  nat_eq, String,
}
use mathlib.Core.Path.{subst}
use hyliquid.Bridge.World.{EthTransaction, TxHash, World, query, call, execute, M}
use hyliquid.Bridge.Service.{
  is_eth_pending, is_eth_processed, is_eth_tracked, mark_eth_processed, record_eth_block,
  ensure_initialized, add_eth_pending_transaction, hyli_identity_for_eth, to_i64, processed,
}
use hyliquid.Bridge.Deposits.{
  BridgeModule, send, deposit_of, expect_u128, credit_or_wait, handle_untracked,
  handle_eth_transaction,
}
use hyliquid.Bridge.Rules.{
  Leads, Undone, Leads-lift, Leads-execute, Leads-call, Undone-chain, Undone-choice, Undone-execute,
  Undone-step, Undone-read, Undone-lift, Undone-pure, Leads-Undone,
}
use hyliquid.Bridge.Ledger.{Ledger, ledger_of}

-- A predicate on the ledger alone, as one on the world.
abbrev pub OfLedger : (Ledger → Type 0) → World → Type 0
OfLedger P w = P (ledger_of w)

is_eth_tracked-still : (h : TxHash) (w : World) → ledger_of (is_eth_tracked h w).0 ≡ ledger_of w
unfolding is_eth_tracked is_eth_pending is_eth_processed query call
is_eth_tracked-still h w = ground arith

record_eth_block-still : (n : ℕ) (w : World) → ledger_of (record_eth_block n w).0 ≡ ledger_of w
unfolding record_eth_block ensure_initialized execute call to_i64
record_eth_block-still n w = ground arith

module _ (P : Ledger → Type 0) where
  -- A run that leaves the ledger alone keeps every predicate on it.
  pub still :
      {A : Type 0} (m : M A)
      → ((w : World) → ledger_of (m w).0 ≡ ledger_of w)
      → Leads (OfLedger P) (OfLedger P) m
  still m e = record { at = λ w p. subst P (sym (e w)) p }

-- The ledger is as before, or a deposit has been sent on top of it.
abbrev pub MayHaveSent : BridgeModule → EthTransaction → Ledger → Ledger → Type 0
MayHaveSent b tx l l' =
    (l' ≡ l)
    ⊎ ((identity : String) × (lookup tx.from l.known ≡ some identity)
        × (l' ≡ record l {
          credits = l.credits ++ deposit_of b.collateral_token_cn identity tx.amount ∷ [];
        }))

module _ (b : BridgeModule) (tx : EthTransaction) (l : Ledger) where
  abbrev Before : World → Type 0
  Before w = ledger_of w ≡ l

  abbrev Between : World → Type 0
  Between w = MayHaveSent b tx l (ledger_of w)

  wait_Undone : Undone Before Between (add_eth_pending_transaction tx)
  unfolding add_eth_pending_transaction
  wait_Undone =
      Undone-chain _ _
        (still (λ k. k ≡ l) (is_eth_tracked tx.tx_hash) (is_eth_tracked-still tx.tx_hash))
        (λ w p. inl p)
        λ tracked. Undone-choice tracked _ _ (Leads-Undone _ (record { at = λ w p. inl p })) (
          Undone-chain _ _
            (still (λ k. k ≡ l) (record_eth_block tx.block_number)
              (record_eth_block-still tx.block_number))
            (λ w p. inl p)
            λ _.
              Undone-chain {A = ℕ} _ _ (Leads-lift (to_i64 tx.block_number)) (λ w p. inl p)
                λ _.
                  Undone-chain {A = ℕ} _ _ (Leads-lift (to_i64 tx.timestamp)) (λ w p. inl p)
                    λ _.
                      Undone-pure _ (λ _. true)
                        (Undone-execute (λ w later p. p) (λ w p. inl p)
                          (λ w. record w { pending_txs = w.pending_txs ++ tx ∷ [] })))

  mark_Undone : Undone Between Between (mark_eth_processed tx.tx_hash)
  unfolding mark_eth_processed
  mark_Undone =
      Undone-chain _ _ (Leads-call (λ w later p. p)) (λ w p. p)
        λ _.
          Undone-chain call _ (Leads-call (λ w later p. p)) (λ w p. p)
            λ _.
              Undone-chain call _ (Leads-call (λ w later p. p)) (λ w p. p)
                λ _. Undone-execute (λ w later p. p) (λ w p. p) (processed tx.tx_hash)

  expect_u128-eq-ok : (n m : ℕ) → expect_u128 n ≡ ok m → m ≡ n
  unfolding expect_u128
  expect_u128-eq-ok n m h = ground arith

  credit_Undone :
      (identity : Option String)
      → lookup tx.from l.known ≡ identity
      → Undone Before Between (credit_or_wait b tx identity)
  unfolding credit_or_wait send
  credit_Undone none e = Undone-pure _ (λ _. tt) wait_Undone
  credit_Undone (some identity) e =
      Undone-lift (expect_u128 tx.amount) _ (λ w p. inl p)
        λ amount within.
          Undone-step _ _ (Undone-execute (λ w later p. p) (λ w p. inl p) _)
            (Leads-execute {Q = Between} (λ w later p. p) _ (λ w p. inl p)
              (λ w p. inr (identity, e, ground (arith, expect_u128-eq-ok tx.amount amount within))))
            λ _. mark_Undone

  pub handle_eth_transaction-Undone : Undone Before Between (handle_eth_transaction b tx)
  unfolding handle_eth_transaction handle_untracked hyli_identity_for_eth
  handle_eth_transaction-Undone =
      Undone-choice (eqb tx.from 0) _ _ (Leads-Undone _ (record { at = λ w p. inl p })) (
        Undone-chain _ _
          (still (λ k. k ≡ l) (is_eth_tracked tx.tx_hash) (is_eth_tracked-still tx.tx_hash))
          (λ w p. inl p)
          λ tracked. Undone-choice tracked _ _ (Leads-Undone _ (record { at = λ w p. inl p })) (
            Undone-read (λ w later p. p) (λ w p. inl p) (λ w. lookup tx.from w.bindings)
              (credit_or_wait b tx)
              λ w p. (credit_Undone (lookup tx.from w.bindings) (cc p)).at w p))
