-- ===== src/Bridge/Settled.antt =====
-- What a claim that succeeds has done (server/src/bridge.rs, `claim`).
use hyliquid.Prelude.{
  >>=-elim, fail_if, fail_if-eq-ok, ok_or-eq-ok, ok-injective, ◌+◌, false, not, some, List, [], ◌∷◌,
  ◌++◌, ◌≡◌, refl, ◌∙◌, ap, ok, map, eqb, eqb_iff, arith, lookup, insert, contains, retain, nat_eq,
  String, Bytes, as_bytes, ok_or,
}
use mathlib.Core.List.{append_assoc}
use hyliquid.Types.{ContractName}
use hyliquid.Bridge.World.{BridgeError, Address, TxHash, EthTransaction, World}
use hyliquid.Bridge.Service.{hash_of, without_hash, pending_of}
use hyliquid.Bridge.Parsers.{Parsers}
use hyliquid.Bridge.Signatures.{ClaimDepositRequest, claimed_address, claim_message, trim_0x}
use hyliquid.Bridge.Claims.{bind_address, claim, claim_for, credit_pending, is_conflict}
use hyliquid.Bridge.Rules.{after}
use hyliquid.Bridge.Ledger.{ledger_of, total, total_sent, total_waiting}
use hyliquid.Bridge.Books.{Separate, IsConsistent}
use hyliquid.Bridge.Claiming.{
  deposits_of, insert_hashes, without_hashes, bind_address-ledger, credit_pending-ledger,
}
use hyliquid.Bridge.Delivery.{without_hash_absent}
use hyliquid.Bridge.Replay.{contains-hash-append, total_sent-append}

-- The transactions of other addresses.
abbrev pub of_others : Address → List EthTransaction → List EthTransaction
of_others a table = retain (λ tx. not (eqb tx.from a)) table

-- The hashes of the second list are new to the first, and differ.
abbrev Apart : List EthTransaction → List EthTransaction → Type 0
Apart pre [] = Unit {0}
Apart pre (tx ∷ txs) =
    (contains tx.tx_hash (map hash_of pre) ≡ false)
    × (contains tx.tx_hash (map hash_of txs) ≡ false)
    × Apart pre txs

Separate-Apart :
    (finished : List TxHash) (txs : List EthTransaction) → Separate finished txs → Apart [] txs
unfolding contains
Separate-Apart finished [] s = tt
Separate-Apart finished (tx ∷ txs) s = (refl, s.1, Separate-Apart finished txs s.2)

Apart-push :
    (pre txs : List EthTransaction) (t : EthTransaction)
    → contains t.tx_hash (map hash_of txs) ≡ false
    → Apart pre txs
    → Apart (pre ++ t ∷ []) txs
unfolding contains
Apart-push pre [] t new s = tt
Apart-push pre (tx ∷ txs) t new s = (
  ground (
    arith,
    contains-hash-append tx.tx_hash pre t,
    eqb_iff tx.tx_hash t.tx_hash,
    eqb_iff t.tx_hash tx.tx_hash,
  ),
  s.1,
  Apart-push pre txs t (ground arith) s.2,
)

without_hash-append :
    (h : TxHash) (xs ys : List EthTransaction)
    → without_hash h (xs ++ ys) ≡ without_hash h xs ++ without_hash h ys
unfolding without_hash retain
without_hash-append h [] ys = refl
without_hash-append h (x ∷ xs) ys = ground (arith, without_hash-append h xs ys)

take_head :
    (txs : List EthTransaction) (t : EthTransaction)
    → contains t.tx_hash (map hash_of txs) ≡ false
    → without_hash t.tx_hash (t ∷ txs) ≡ txs
unfolding without_hash retain
take_head txs t fresh =
    ground (arith, eqb_iff t.tx_hash t.tx_hash, without_hash_absent t.tx_hash txs fresh)

-- The one transaction with a hash is taken out.
take_one :
    (pre txs : List EthTransaction) (t : EthTransaction)
    → contains t.tx_hash (map hash_of pre) ≡ false
    → contains t.tx_hash (map hash_of txs) ≡ false
    → without_hash t.tx_hash (pre ++ t ∷ txs) ≡ pre ++ txs
take_one pre txs t new fresh = rw (
  without_hash-append t.tx_hash pre (t ∷ txs),
  without_hash_absent t.tx_hash pre new,
  take_head txs t fresh,
)

without_hashes-pending_of :
    (a : Address) (pre txs : List EthTransaction)
    → Apart pre txs
    → without_hashes (pending_of a txs) (pre ++ txs) ≡ pre ++ of_others a txs
unfolding pending_of retain
without_hashes-pending_of a pre [] s = refl
without_hashes-pending_of a pre (t ∷ txs) s = ground (
  arith,
  take_one pre txs t s.0 s.1,
  without_hashes-pending_of a pre txs s.2,
  without_hashes-pending_of a (pre ++ t ∷ []) txs (Apart-push pre txs t s.1 s.2),
  append_assoc pre (t ∷ []) txs,
  append_assoc pre (t ∷ []) (of_others a txs),
)

total_sent-deposits_of :
    (token : ContractName) (identity : String) (txs : List EthTransaction)
    → total_sent (deposits_of token identity txs) ≡ total_waiting txs
total_sent-deposits_of token identity [] = refl
total_sent-deposits_of token identity (tx ∷ txs) =
    omega (arith, total_sent-deposits_of token identity txs)

total_waiting_split :
    (a : Address) (txs : List EthTransaction)
    → total_waiting (pending_of a txs) + total_waiting (of_others a txs) ≡ total_waiting txs
unfolding pending_of retain
total_waiting_split a [] = refl
total_waiting_split a (tx ∷ txs) = ground (arith, total_waiting_split a txs)

-- The address was recovered from a signature over the chain, the address and the identity.
claimed_address-eq-ok :
    (x : Parsers) (r : ClaimDepositRequest) (a : Address)
    → claimed_address x r ≡ ok a
    → (x.parse_address r.eth_address ≡ some a)
      × (signature : Bytes) × (x.recover_address signature (claim_message r) ≡ some a)
unfolding claimed_address
claimed_address-eq-ok x r a h =
    >>=-elim (ok_or (x.parse_address r.eth_address) BridgeError.bad_request) _ h λ eth_address p h1.
      >>=-elim (ok_or (x.decode_hex (trim_0x (as_bytes r.signature))) BridgeError.bad_request) _ h1
        λ signature_bytes _ h2.
          >>=-elim (ok_or (x.parse_signature signature_bytes) BridgeError.bad_request) _ h2
            λ signature _ h3.
              >>=-elim
                (ok_or (x.recover_address signature (claim_message r)) BridgeError.bad_request) _ h3
                λ recovered q h4.
                  >>=-elim (fail_if (not (eqb recovered eth_address)) BridgeError.unauthorized) _ h4
                    λ _ same h5.
                      let matches =
                        (eqb_iff recovered eth_address).0 (
                          fail_if-eq-ok (eqb recovered eth_address) BridgeError.unauthorized
                            same) in
                      let parsed =
                        ok_or-eq-ok (x.parse_address r.eth_address) BridgeError.bad_request p in
                      let proved =
                        ok_or-eq-ok (x.recover_address signature (claim_message r))
                          BridgeError.bad_request q in
                      let returned = ok-injective h5 in (ground arith, signature, ground arith)

-- On consistent books, a claim that succeeds names an address that its signature over chain, address
-- and identity proves, and that no other identity had. It sends a deposit for each transaction of
-- the address that waited, in order, takes exactly those from the waiting ones, finishes their
-- hashes and binds the address. The total of what is sent and what waits stays the same.
pub claim-ledger :
    (x : Parsers) (token : ContractName) (r : ClaimDepositRequest) (w w' : World)
    → IsConsistent (ledger_of w)
    → claim x token r w ≡ (w', ok tt)
    → (a : Address) × (signature : Bytes) × (x.parse_address r.eth_address ≡ some a)
      × (x.recover_address signature (claim_message r) ≡ some a)
      × (is_conflict (lookup a w.bindings) r.user_identity ≡ false)
      × (ledger_of w' ≡ record {
        credits = w.sent ++ deposits_of token r.user_identity (pending_of a w.pending_txs);
        waiting = of_others a w.pending_txs;
        finished = insert_hashes (pending_of a w.pending_txs) w.processed_txs;
        known = insert a r.user_identity w.bindings;
      })
      × (total (ledger_of w') ≡ total (ledger_of w))
unfolding claim claim_for
claim-ledger x token r w w' s h =
    after (w, claimed_address x r) (claim_for token r.user_identity) h
      λ v a e h1.
        let same : v ≡ w = cc in
        let (parsed, signature, recovered) = claimed_address-eq-ok x r a (cc e) in
        after (bind_address r.user_identity a v) (credit_pending token r.user_identity) h1
          λ v1 txs e1 h2.
            let (waited, free, bound) = bind_address-ledger r.user_identity a v v1 txs e1 in
            let done = credit_pending-ledger token r.user_identity txs v1 w' h2 in
            let left =
              without_hashes-pending_of a [] w.pending_txs
                (Separate-Apart w.processed_txs w.pending_txs s) in
            let full : ledger_of w' ≡ record {
              credits = w.sent ++ deposits_of token r.user_identity (pending_of a w.pending_txs);
              waiting = of_others a w.pending_txs;
              finished = insert_hashes (pending_of a w.pending_txs) w.processed_txs;
              known = insert a r.user_identity w.bindings;
            } =
              ground (arith) in
            (
              a,
              signature,
              parsed,
              recovered,
              ground arith,
              full,
              ap total full
                  ∙ omega (
                    arith,
                    total_sent-append w.sent
                        (deposits_of token r.user_identity (pending_of a w.pending_txs)),
                    total_sent-deposits_of token r.user_identity (pending_of a w.pending_txs),
                    total_waiting_split a w.pending_txs,
                  ),
            )
