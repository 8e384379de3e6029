-- ===== src/Bridge/Claims.antt =====
-- Claims: a user shows that an Ethereum address is hers, and what the address has sent to the
-- vault is credited (`claim`, `claim_status` of server/src/bridge.rs).
use hyliquid.Prelude.{
  ℕ, ◌^◌, Bool, false, not, Option, none, some, List, [], ◌∷◌, ok, err, Result, ltb, if◌then◌else◌,
  ◌==◌, string_eq, is_some, String, fail_if,
}
use hyliquid.Types.{ContractName}
use hyliquid.Bridge.World.{
  Address, EthTransaction, BridgeError, M, ◌>>=◌, ◌>>◌, pure, lift, or_internal,
}
use hyliquid.Bridge.Service.{
  mark_eth_processed, record_eth_identity_binding, hyli_identity_for_eth,
  eth_address_for_hyli_identity, pending_eth_transactions_for_address,
}
use hyliquid.Bridge.Parsers.{Parsers}
use hyliquid.Bridge.Signatures.{ClaimDepositRequest, claimed_address}
use hyliquid.Bridge.Deposits.{send, deposit_of}

pub record ClaimStatusResponse : Type 0 where
  pub claimed : Bool
  pub eth_address : Option Address

abbrev pub status_of : Option Address → ClaimStatusResponse
status_of address = record { claimed = is_some address; eth_address = address }

unfoldable pub claim_status : String → M ClaimStatusResponse
claim_status identity =
    or_internal (eth_address_for_hyli_identity identity) >>= λ addr. pure (status_of addr)

-- `u128::try_from(amount).map_err(..)`
unfoldable pub try_u128 : ℕ → Result BridgeError ℕ
try_u128 amount = if ltb amount (2 ^ 128) then ok amount else err BridgeError.internal_server_error

-- The body of the loop over the pending transactions.
unfoldable pub credit_tx : ContractName → String → EthTransaction → M (Unit {0})
credit_tx token identity eth_tx = do
  hyli_amount ← lift (try_u128 eth_tx.amount)
  or_internal (send (deposit_of token identity hyli_amount))
  or_internal (mark_eth_processed eth_tx.tx_hash)

unfoldable pub credit_pending : ContractName → String → List EthTransaction → M (Unit {0})
credit_pending token identity [] = pure tt
credit_pending token identity (eth_tx ∷ later) =
    credit_tx token identity eth_tx >> credit_pending token identity later

-- Whether the address is bound to another identity.
abbrev pub is_conflict : Option String → String → Bool
is_conflict none identity = false
is_conflict (some existing) identity = not (existing == identity)

-- The address is bound to the identity, and the transactions that waited for it are returned.
unfoldable pub bind_address : String → Address → M (List EthTransaction)
bind_address identity eth_address = do
  existing ← or_internal (hyli_identity_for_eth eth_address)
  lift (fail_if (is_conflict existing identity) BridgeError.conflict)
  pending_eth_txs ← or_internal (pending_eth_transactions_for_address eth_address)
  or_internal (record_eth_identity_binding eth_address identity)
  pure pending_eth_txs

unfoldable pub claim_for : ContractName → String → Address → M (Unit {0})
claim_for token identity eth_address =
    bind_address identity eth_address >>= credit_pending token identity

unfoldable pub claim : Parsers → ContractName → ClaimDepositRequest → M (Unit {0})
claim x token r = lift (claimed_address x r) >>= claim_for token r.user_identity
