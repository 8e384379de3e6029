-- ===== src/Contract/Guards.antt =====
-- The guards of an accepted transaction, and what an upgrade leaves
-- (contracts/orderbook/src/zk/contract.rs).
use hyliquid.Prelude.{
  ℕ, ◌≡◌, true, false, some, List, [], ◌∷◌, ok, >>=-elim, ok_or-eq-ok, unwrap-eq-ok, ok-injective,
  panic_if-eq-ok, fail_if-eq-ok, fail_if-eq-false, ok_or, unwrap, or_panic, panic_if, fail_if, not,
  eqb, eqb_iff, length, All, sym, ap, ◌∙◌, bytes_eq, ◌==◌, bytes_beq_iff, Bytes, string_eq,
}
use hyliquid.Actions.{
  Blob, Calldata, TxContext, OrderbookAction, PermissionedOrderbookAction, PermissionedPrivateInput,
}
use hyliquid.Externals.{Externals}
use hyliquid.Contract.Witness.{ZkVmState, is_blob_whitelisted, into_orderbook_state}
use hyliquid.State.Owners.{verify_orders_owners}
use hyliquid.Contract.{Output, check_blobs, run_permissioned, run_action, execute}

-- Every blob belongs to a contract on the white list.
abbrev pub Whitelisted : ZkVmState → List Blob → Type 0
Whitelisted z blobs = All (λ blob. is_blob_whitelisted z blob.contract_name ≡ true) blobs

check_blobs-Whitelisted :
    (z : ZkVmState) (blobs : List Blob) {u : Unit {0}}
    → check_blobs z blobs ≡ ok u
    → Whitelisted z blobs
unfolding check_blobs
check_blobs-Whitelisted z [] h = tt
check_blobs-Whitelisted z (blob ∷ blobs) h =
    >>=-elim (fail_if (not (is_blob_whitelisted z blob.contract_name)) _) _ h
      λ _ p r. (fail_if-eq-ok _ _ p, check_blobs-Whitelisted z blobs r)

some-injective {ℓ} : {A : Type ℓ} {a b : A} → some a ≡ some b → a ≡ b
some-injective h = cc

module _ (x : Externals) (z : ZkVmState) (calldata : Calldata) where
  -- What the checks before the action establish, and the run of the action.
  pub record Entered (action : OrderbookAction) (out : ZkVmState × Output) : Type 0 where
    pub context : TxContext
    pub present : calldata.tx_ctx ≡ some context
    pub complete : length calldata.blobs ≡ calldata.tx_blob_count
    pub whitelisted : Whitelisted z calldata.blobs
    pub runs :
        run_action x (into_orderbook_state z).0 (into_orderbook_state z).1 context calldata action
        ≡ ok out

  execute-Entered :
      (action : OrderbookAction) {out : ZkVmState × Output}
      → x.parse_calldata calldata ≡ some action
      → execute x z calldata ≡ ok out
      → Entered action out
  unfolding execute
  execute-Entered action e h = >>=-elim (ok_or (x.parse_calldata calldata) _) _ h λ parsed p₁ h₁.
      >>=-elim (unwrap calldata.tx_ctx) _ h₁ λ context p₂ h₂.
        >>=-elim (panic_if (not (eqb (length calldata.blobs) calldata.tx_blob_count))) _ h₂
          λ _ p₃ h₃. >>=-elim (check_blobs z calldata.blobs) _ h₃ λ _ p₄ h₄.
            >>=-elim (or_panic (verify_orders_owners x (into_orderbook_state z).1 parsed)) _ h₄
              λ _ p₅ h₅. record {
                context = context;
                present = unwrap-eq-ok _ p₂;
                complete = (eqb_iff _ _).0 (panic_if-eq-ok _ p₃);
                whitelisted = check_blobs-Whitelisted z calldata.blobs p₄;
                runs =
                    ap
                      (run_action x (into_orderbook_state z).0 (into_orderbook_state z).1 context
                        calldata)
                      (some-injective (sym e ∙ ok_or-eq-ok _ _ p₁))
                    ∙ h₅;
              }

  -- An accepted permissioned transaction carries every blob that it says it has, each of a
  -- contract on the white list; it comes from the lane of the contract; and its private input
  -- holds the secret that the contract was set up with, up to the hash.
  pub execute-IsOperated :
      (action : PermissionedOrderbookAction) (n : ℕ) {out : ZkVmState × Output}
      → x.parse_calldata calldata ≡ some (OrderbookAction.permissioned action n)
      → execute x z calldata ≡ ok out
      → (context : TxContext) × (input : PermissionedPrivateInput) × (calldata.tx_ctx
          ≡ some context)
        × (context.lane_id ≡ z.lane_id)
        × (x.decode_permissioned calldata.private_input ≡ some input)
        × (x.sha3_256 input.secret ≡ z.hashed_secret)
        × (length calldata.blobs ≡ calldata.tx_blob_count)
        × Whitelisted z calldata.blobs
  unfolding run_action into_orderbook_state
  execute-IsOperated action n e h =
      let entered = execute-Entered (OrderbookAction.permissioned action n) e h in
      >>=-elim (panic_if (not (entered.context.lane_id == z.lane_id))) _ entered.runs λ _ p₁ h₁.
        >>=-elim (unwrap (x.decode_permissioned calldata.private_input)) _ h₁ λ input p₂ h₂.
          >>=-elim (panic_if (not (eqb (x.sha3_256 input.secret) z.hashed_secret))) _ h₂ λ _ p₃ h₃.
            (
              entered.context,
              input,
              entered.present,
              (bytes_beq_iff _ _).0 (panic_if-eq-ok _ p₁),
              unwrap-eq-ok _ p₂,
              (eqb_iff _ _).0 (panic_if-eq-ok _ p₃),
              entered.complete,
              entered.whitelisted,
            )

  -- An accepted upgrade names the new program and never the default one, and the state that it
  -- leaves has no assets and no witnessed users, whatever the state before had.
  pub execute-upgrade_contract :
      (program_id : Bytes) (n : ℕ) {out : ZkVmState × Output}
      → x.parse_calldata calldata
        ≡ some (
            OrderbookAction.permissioned
              (PermissionedOrderbookAction.upgrade_contract program_id)
              n)
      → execute x z calldata ≡ ok out
      → (out.1.upgrade ≡ some program_id)
        × ((program_id == x.default_program_id) ≡ false)
        × (out.0.assets ≡ [])
        × (out.0.users_info ≡ [])
  unfolding run_action run_permissioned into_orderbook_state
  execute-upgrade_contract program_id n e h =
      let entered =
        execute-Entered
          (OrderbookAction.permissioned (PermissionedOrderbookAction.upgrade_contract program_id) n)
          e h in
      >>=-elim (panic_if (not (entered.context.lane_id == z.lane_id))) _ entered.runs λ _ p₁ h₁.
        >>=-elim (unwrap (x.decode_permissioned calldata.private_input)) _ h₁ λ input p₂ h₂.
          >>=-elim (panic_if (not (eqb (x.sha3_256 input.secret) z.hashed_secret))) _ h₂ λ _ p₃ h₃.
            >>=-elim (fail_if (program_id == x.default_program_id) _) _ h₃ λ _ p₄ h₄. (
              ap (λ o. o.1.upgrade) (sym (ok-injective h₄)),
              fail_if-eq-false _ _ p₄,
              ap (λ o. o.0.assets) (sym (ok-injective h₄)),
              ap (λ o. o.0.users_info) (sym (ok-injective h₄)),
            )
