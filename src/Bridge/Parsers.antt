-- ===== src/Bridge/Parsers.antt =====
-- What the bridge takes from crates that are not in the repository: addresses, hexadecimal text
-- and signatures (alloy, hex), and the decoding of blobs (borsh, the Hyli SDK).
use hyliquid.Prelude.{ℕ, Option, Bytes, String}
use hyliquid.Actions.{OrderbookAction}
use hyliquid.Bridge.World.{Address}

pub record Parsers : Type 0 where
  -- `Address::from_str`, `hex::decode`, `Signature::try_from`
  pub parse_address : String → Option Address
  pub decode_hex : Bytes → Option Bytes
  pub parse_signature : Bytes → Option Bytes
  -- `signature.recover_address_from_msg(message)`
  pub recover_address : (signature message : Bytes) → Option Address
  -- `StructuredBlob::<SmtTokenAction>::try_from`: sender, recipient and amount of a transfer
  pub decode_transfer : Bytes → Option (String × String × ℕ)
  -- `borsh::from_slice::<OrderbookAction>`
  pub decode_action : Bytes → Option OrderbookAction
