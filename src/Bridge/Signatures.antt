-- ===== src/Bridge/Signatures.antt =====
-- The signed request of a claim (`ClaimDepositRequest` and the checks at the head of `claim` in
-- server/src/bridge.rs).
use hyliquid.Prelude.{
  ◌&&◌, not, ◌∷◌, ◌++◌, ok, Result, ok_or, ◌>>=◌, ◌>>◌, eqb, if◌then◌else◌, Bytes, as_bytes, String,
  fail_if,
}
use hyliquid.Bridge.World.{Address, BridgeError}
use hyliquid.Bridge.Parsers.{Parsers}

pub record ClaimDepositRequest : Type 0 where
  pub chain : String
  pub eth_address : String
  pub user_identity : String
  pub signature : String

-- `trim_start_matches("0x")` takes every leading "0x" off.
unfoldable pub trim_0x : Bytes → Bytes
trim_0x (a ∷ b ∷ rest) = if eqb a b'0' && eqb b b'x' then trim_0x rest else a ∷ b ∷ rest
trim_0x short = short

-- `format!("{}:{}:{}", ..)`
unfoldable pub claim_message : ClaimDepositRequest → Bytes
claim_message r =
    as_bytes r.chain ++ b':' ∷ as_bytes r.eth_address ++ b':' ∷ as_bytes r.user_identity

-- The address that the signature proves, or the status of the refusal.
unfoldable pub claimed_address : Parsers → ClaimDepositRequest → Result BridgeError Address
unfolding trim_0x claim_message
claimed_address x r = do
  eth_address ← ok_or (x.parse_address r.eth_address) BridgeError.bad_request
  signature_bytes ← ok_or (x.decode_hex (trim_0x (as_bytes r.signature))) BridgeError.bad_request
  signature ← ok_or (x.parse_signature signature_bytes) BridgeError.bad_request
  recovered ← ok_or (x.recover_address signature (claim_message r)) BridgeError.bad_request
  fail_if (not (eqb recovered eth_address)) BridgeError.unauthorized
  ok eth_address
