-- ===== src/Tests/Claims.antt =====
-- The laws of claims and of settled transactions at small inputs.
use hyliquid.Prelude.{
  ◌≡◌, ◌≢◌, refl, false, none, some, List, [], ◌∷◌, ◌++◌, ok, err, Bytes, as_bytes, lookup, insert,
  contains, retain, nat_eq,
}
use hyliquid.Actions.{OrderbookAction, PermissionedOrderbookAction, Blob}
use hyliquid.Server.Assets.{AssetService}
use hyliquid.Bridge.World.{Address, World, BridgeError, query, execute, call}
use hyliquid.Bridge.Service.{
  pending_of, insert_hash, without_hash, mark_eth_processed, record_eth_identity_binding,
  hyli_identity_for_eth, pending_eth_transactions_for_address,
}
use hyliquid.Bridge.Parsers.{Parsers}
use hyliquid.Bridge.Logs.{EthNode}
use hyliquid.Bridge.Deposits.{send}
use hyliquid.Bridge.Signatures.{ClaimDepositRequest, claimed_address, claim_message, trim_0x}
use hyliquid.Bridge.Claims.{
  claim, claim_for, bind_address, credit_pending, credit_tx, try_u128, is_conflict,
}
use hyliquid.Bridge.Withdrawals.{
  handle_settled_tx, extract_relevant_transfers, extract_relevant_withdraws,
}
use hyliquid.Bridge.Ledger.{ledger_of, total}
use hyliquid.Bridge.Books.{IsConsistent}
use hyliquid.Bridge.Claiming.{claim-refused, deposits_of, insert_hashes}
use hyliquid.Bridge.Settled.{claim-ledger, of_others}
use hyliquid.Bridge.Fetching.{faultless}
use hyliquid.Bridge.Payouts.{handle_settled_tx-faultless, requests_of, forwarded, payouts}
use hyliquid.Tests.Bridge.{bridge, bound}

-- An address is read as the sum of its bytes, and every signature is one of the address 4.
abbrev parsers : Parsers
parsers = record {
  parse_address = λ text. some 4;
  decode_hex = some;
  parse_signature = some;
  recover_address = λ signature message. some 4;
  decode_transfer = λ payload. none;
  decode_action = λ payload. some (
      OrderbookAction.permissioned
        (PermissionedOrderbookAction.withdraw "USDC" 20
          (record { network = "ethereum-sepolia"; address = "4" }))
        0);
}

abbrev request : ClaimDepositRequest
request = record { chain = "eth"; eth_address = "4"; user_identity = "b"; signature = "0x1" }

abbrev claimed : World
claimed = (claim parsers "usdc" request bound).0

run_claim : claim parsers "usdc" request bound ≡ (claimed, ok tt)
unfolding claim claim_for claimed_address trim_0x claim_message bind_address credit_pending
    credit_tx try_u128 send execute call query mark_eth_processed record_eth_identity_binding
    hyli_identity_for_eth pending_eth_transactions_for_address pending_of insert_hash without_hash
    lookup insert contains retain as_bytes
run_claim = refl

consistent : IsConsistent (ledger_of bound)
unfolding contains
consistent = (refl, refl, tt)

claim-ledger_example :
    (a : Address) × (signature : Bytes) × (parsers.parse_address request.eth_address ≡ some a)
    × (parsers.recover_address signature (claim_message request) ≡ some a)
    × (is_conflict (lookup a bound.bindings) "b" ≡ false)
    × (ledger_of claimed ≡ record {
      credits = [] ++ deposits_of "usdc" "b" (pending_of a bound.pending_txs);
      waiting = of_others a bound.pending_txs;
      finished = insert_hashes (pending_of a bound.pending_txs) [];
      known = insert a "b" bound.bindings;
    })
    × (total (ledger_of claimed) ≡ total (ledger_of bound))
claim-ledger_example = claim-ledger parsers "usdc" request bound claimed consistent run_claim

-- The address is bound to another identity.
abbrev taken : World
taken = record bound { bindings = (4, "c") ∷ [] }

run_refused : claim parsers "usdc" request taken ≡ (taken, err BridgeError.conflict)
unfolding claim claim_for claimed_address trim_0x claim_message bind_address credit_pending
    credit_tx try_u128 send execute call query mark_eth_processed record_eth_identity_binding
    hyli_identity_for_eth pending_eth_transactions_for_address pending_of insert_hash without_hash
    lookup insert contains retain as_bytes
run_refused = refl

not_internal : BridgeError.conflict ≢ BridgeError.internal_server_error
not_internal h = cc h

claim-refused_example : ledger_of taken ≡ ledger_of taken
claim-refused_example =
    claim-refused parsers "usdc" request taken taken BridgeError.conflict run_refused not_internal

abbrev assets : AssetService
assets = record {
  asset_map =
      (
        "USDC",
        record { asset_id = 1; contract_name = "usdc"; symbol = "USDC"; scale = 6; step = 1 },
      )
      ∷ [];
  instrument_map = [];
}

abbrev node : EthNode
node = record {
  latest_block = 6;
  get_logs = λ from_block to_block topic1 topic2. [];
  token_balance = λ transfers address. 1000;
}

abbrev blobs : List Blob
blobs = record { contract_name = "orderbook"; payload = [] } ∷ []

handle_settled_tx-faultless_example :
    handle_settled_tx parsers bridge node assets blobs (faultless bound) ≡ (
      record (faultless bound) {
        sent =
            []
            ++ requests_of (extract_relevant_transfers parsers blobs)
            ++ forwarded parsers bridge node
                (extract_relevant_withdraws parsers assets "orderbook" blobs);
        transfers =
            payouts parsers bridge node
              (extract_relevant_withdraws parsers assets "orderbook" blobs)
              [];
      },
      ok tt,
    )
handle_settled_tx-faultless_example =
    handle_settled_tx-faultless parsers bridge node assets blobs bound
