-- ===== src/Bridge/Books.antt =====
-- The tables of the bridge as books: what they hold when a log has been handled, whether the run
-- ended well or not (server/src/bridge.rs, `handle_eth_to_vault_log`).
use hyliquid.Prelude.{
  false, ◌||◌, Option, none, some, List, [], ◌∷◌, ◌++◌, ◌≡◌, inl, inr, refl, sym, ok, err, panic,
  map, eqb, eqb_iff, arith, lookup, contains, nat_eq, Result, String, Bool-cases,
}
use mathlib.Core.Path.{subst}
use hyliquid.Types.{ContractName}
use hyliquid.Bridge.World.{BridgeError, EthTransaction, TxHash, World}
use hyliquid.Bridge.Service.{hash_of}
use hyliquid.Bridge.Deposits.{BridgeModule, handle_eth_transaction}
use hyliquid.Bridge.Rules.{OnError}
use hyliquid.Bridge.Ledger.{Ledger, ledger_of, seen, credited, deliver}
use hyliquid.Bridge.Delivery.{handle_eth_transaction-ledger}
use hyliquid.Bridge.Outcomes.{MayHaveSent, handle_eth_transaction-Undone}
use hyliquid.Bridge.Replay.{contains-append, contains-hash-append}

-- Transactions that wait have different hashes, and none of them is finished.
abbrev pub Separate : List TxHash → List EthTransaction → Type 0
Separate finished [] = Unit {0}
Separate finished (tx ∷ txs) =
    (contains tx.tx_hash finished ≡ false)
    × (contains tx.tx_hash (map hash_of txs) ≡ false)
    × Separate finished txs

abbrev pub IsConsistent : Ledger → Type 0
IsConsistent l = Separate l.finished l.waiting

Separate-append :
    (finished : List TxHash) (txs : List EthTransaction) (tx : EthTransaction)
    → (contains tx.tx_hash (map hash_of txs) || contains tx.tx_hash finished) ≡ false
    → Separate finished txs
    → Separate finished (txs ++ tx ∷ [])
unfolding contains
Separate-append finished [] tx fresh s = (ground arith, refl, tt)
Separate-append finished (t ∷ txs) tx fresh s = (
  s.0,
  ground (
    arith,
    contains-hash-append t.tx_hash txs tx,
    eqb_iff t.tx_hash tx.tx_hash,
    eqb_iff tx.tx_hash t.tx_hash,
  ),
  Separate-append finished txs tx (ground arith) s.2,
)

-- A hash that no waiting transaction has can be finished.
Separate-finish :
    (finished : List TxHash) (txs : List EthTransaction) (h : TxHash)
    → contains h (map hash_of txs) ≡ false
    → Separate finished txs
    → Separate (finished ++ h ∷ []) txs
unfolding contains
Separate-finish finished [] h fresh s = tt
Separate-finish finished (t ∷ txs) h fresh s = (
  ground (
    arith,
    contains-append t.tx_hash finished (h ∷ []),
    eqb_iff t.tx_hash h,
    eqb_iff h t.tx_hash,
  ),
  s.1,
  Separate-finish finished txs h (ground arith) s.2,
)

credited-IsConsistent :
    (token : ContractName) (tx : EthTransaction) (l : Ledger) (identity : Option String)
    → seen l tx.tx_hash ≡ false
    → IsConsistent l
    → IsConsistent (credited token tx identity l)
unfolding seen
credited-IsConsistent token tx l none fresh s = Separate-append l.finished l.waiting tx fresh s
credited-IsConsistent token tx l (some identity) fresh s =
    Separate-finish l.finished l.waiting tx.tx_hash (ground arith) s

deliver-IsConsistent :
    (token : ContractName) (tx : EthTransaction) (l : Ledger)
    → IsConsistent l
    → IsConsistent (deliver token tx l)
unfolding deliver
deliver-IsConsistent token tx l s = elim (Bool-cases (eqb tx.from 0 || seen l tx.tx_hash)) [
  | inl known ↦ rw known s
  | inr fresh ↦
      rw fresh (credited-IsConsistent token tx l (lookup tx.from l.known) (ground arith) s)
]

module _ (b : BridgeModule) (tx : EthTransaction) (w : World) where
  MayHaveSent-IsConsistent :
      (l' : Ledger)
      → MayHaveSent b tx (ledger_of w) l'
      → IsConsistent (ledger_of w)
      → IsConsistent l'
  MayHaveSent-IsConsistent l' (inl same) s = rw same s
  MayHaveSent-IsConsistent l' (inr (identity, known, more)) s = rw more s

  outcome-IsConsistent :
      (o : World × Result BridgeError (Unit {0}))
      → handle_eth_transaction b tx w ≡ o
      → OnError (λ v. MayHaveSent b tx (ledger_of w) (ledger_of v)) o
      → IsConsistent (ledger_of w)
      → IsConsistent (ledger_of o.0)
  outcome-IsConsistent (w', ok u) e q s =
      subst IsConsistent (sym (handle_eth_transaction-ledger b tx w w' u e))
        (deliver-IsConsistent b.collateral_token_cn tx (ledger_of w) s)
  outcome-IsConsistent (w', err f) e q s = MayHaveSent-IsConsistent (ledger_of w') q s
  outcome-IsConsistent (w', panic) e q s = MayHaveSent-IsConsistent (ledger_of w') q s

  -- If no transaction both waits and is finished and no hash waits twice, then that is so after a
  -- transfer was handled, however the run ends.
  pub handle_eth_transaction-IsConsistent :
      IsConsistent (ledger_of w) → IsConsistent (ledger_of (handle_eth_transaction b tx w).0)
  handle_eth_transaction-IsConsistent s =
      outcome-IsConsistent (handle_eth_transaction b tx w) refl
        ((handle_eth_transaction-Undone b tx (ledger_of w)).at w refl) s

  -- A run that fails leaves the ledger as it was, or with the deposit sent and not finished.
  pub handle_eth_transaction-err :
      (w' : World) (e : BridgeError)
      → handle_eth_transaction b tx w ≡ (w', err e)
      → MayHaveSent b tx (ledger_of w) (ledger_of w')
  handle_eth_transaction-err w' e h =
      subst (OnError (λ v. MayHaveSent b tx (ledger_of w) (ledger_of v))) h
        ((handle_eth_transaction-Undone b tx (ledger_of w)).at w refl)
