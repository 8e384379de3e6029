-- ===== src/Externals.antt =====
-- What the contract takes from crates whose code is not in the repository: SHA3-256 (sha3), ECDSA
-- on secp256k1 (k256), and the decoding of private inputs and blobs (borsh and the Hyli SDK).
-- Parsed keys and signatures are kept as bytes. The order of a `HashMap` is the standard library's.
use hyliquid.Prelude.{ℕ, Bool, Option, List, Map, Bytes, String}
use hyliquid.Types.{H256, Symbol, UserInfo}
use hyliquid.Actions.{PermissionedPrivateInput, OrderbookAction, Calldata}

pub record Externals : Type 0 where
  -- The order in which `execute_order` goes through the touched accounts by symbol and the accounts
  -- of a symbol, a `HashMap` of `HashSet`s: no order is promised.
  pub touched_order : Map Symbol (List H256) → Map Symbol (List H256)
  pub sha3_256 : Bytes → H256
  -- `Signature::try_from`, `EncodedPoint::from_bytes`, `VerifyingKey::from_encoded_point`
  pub parse_signature : Bytes → Option Bytes
  pub parse_point : Bytes → Option Bytes
  pub parse_key : Bytes → Option Bytes
  -- `verifying_key.verify_digest(hasher, &signature).is_ok()`
  pub verify_digest : (key : Bytes) (digest : H256) (signature : Bytes) → Bool
  -- `borsh::from_slice`: the new key of `AddSessionKeyPrivateInput`; the signature and the public
  -- key of `CreateOrderPrivateInput` and `WithdrawPrivateInput`; the whole permissioned input; the
  -- user of `EscapePrivateInput`.
  pub decode_new_public_key : Bytes → Option Bytes
  pub decode_signed : Bytes → Option (Bytes × Bytes)
  pub decode_permissioned : Bytes → Option PermissionedPrivateInput
  pub decode_escape_user : Bytes → Option UserInfo
  -- `StructuredBlob::<SmtTokenAction>::try_from`: sender, recipient and amount of a transfer, and
  -- `none` for what is no blob of this kind or another action.
  pub decode_transfer : Bytes → Option (String × String × ℕ)
  -- `sdk::utils::parse_raw_calldata::<OrderbookAction>` and `ProgramId::default()`
  pub parse_calldata : Calldata → Option OrderbookAction
  pub default_program_id : Bytes
