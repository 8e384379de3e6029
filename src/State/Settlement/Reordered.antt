-- ===== src/State/Settlement/Reordered.antt =====
-- The order in which `execute_order` goes through the touched accounts, a `HashMap`: another order
-- gives the same events in another order (contracts/orderbook/src/model.rs).
use hyliquid.Prelude.{
  ◌≡◌, refl, sym, ◌∙◌, ap, List, [], ◌∷◌, ◌++◌, ok, ◌>>=◌, >>=-elim, ok-injective, ok_or, unwrap,
  lookup, Map, nat_eq, string_eq, pair_eq, String, err, panic,
}
use mathlib.Core.List.{Perm, perm_middle}
use mathlib.Core.List.Perm
use hyliquid.Types.{H256, Symbol, Balance, UserInfo, Order, ExecuteState, OrderbookEvent}
use hyliquid.Errors
use hyliquid.Errors.{Error, touched_symbol_missing, touched_balance_missing, user_name_missing}
use hyliquid.Externals.{Externals}
use hyliquid.OrderManager.Matching.{execute_order_dry_run}
use hyliquid.State.Users.{get_key, collect_names, get_user_names, nonce_increment_event}
use hyliquid.State.Settlement.{settle, symbol_events, balance_events, pow10, execute_order}

-- The same items in any order, each replaced by a related one.
pub data IsReordered {A : Type 0} (R : A → A → Type 0) : List A → List A → Type 0 where
  nothing : IsReordered R [] []
  entry : {a b : A} {l l' : List A} → R a b → IsReordered R l l' → IsReordered R (a ∷ l) (b ∷ l')
  exchange : (a b : A) (l : List A) → IsReordered R (a ∷ b ∷ l) (b ∷ a ∷ l)
  twice : {l l' l'' : List A} → IsReordered R l l' → IsReordered R l' l'' → IsReordered R l l''

-- The accounts of one symbol, in any order.
abbrev pub SameAccounts : Symbol × List H256 → Symbol × List H256 → Type 0
SameAccounts first other = (first.0 ≡ other.0) × IsReordered (λ a b. a ≡ b) first.1 other.1

module _ {A : Type 0} (f : A → Errors.Result (List OrderbookEvent)) where
  -- The events of all items, one after another.
  gather_events : List A → Errors.Result (List OrderbookEvent)
  gather_events [] = ok []
  gather_events (a ∷ l) = do one ← f a; rest ← gather_events l; ok (one ++ rest)

-- A result with the same events, in any order.
abbrev pub SameEvents : Errors.Result (List OrderbookEvent) → List OrderbookEvent → Type 0
SameEvents result es = (es' : List OrderbookEvent) × (result ≡ ok es') × Perm es es'

module _ {A B : Type 0} where
  bind_assoc :
      (m : Errors.Result A) (f : A → Errors.Result B) (g : B → Errors.Result (List OrderbookEvent))
      → ((m >>= f) >>= g) ≡ (m >>= λ a. f a >>= g)
  bind_assoc (ok a) f g = refl
  bind_assoc (err e) f g = refl
  bind_assoc panic f g = refl

  both_assoc :
      (m : Errors.Result A) (n : Errors.Result B) (made : A → B → List OrderbookEvent)
      (g : List OrderbookEvent → Errors.Result (List OrderbookEvent))
      → (m >>= λ a. n >>= λ b. g (made a b)) ≡ ((m >>= λ a. n >>= λ b. ok (made a b)) >>= g)
  both_assoc (ok a) (ok b) made g = refl
  both_assoc (ok a) (err e) made g = refl
  both_assoc (ok a) panic made g = refl
  both_assoc (err e) n made g = refl
  both_assoc panic n made g = refl

swap : (one two rest : List OrderbookEvent) → Perm (one ++ (two ++ rest)) (two ++ (one ++ rest))
swap [] two rest = Perm.refl (two ++ rest)
swap (event ∷ one) two rest =
    Perm.trans (Perm.cons event (swap one two rest)) (Perm.symm (perm_middle two (one ++ rest)))

module _ {A : Type 0} (f : A → Errors.Result (List OrderbookEvent)) (R : A → A → Type 0)
    (same : (a b : A)
      → R a b
      → (es : List OrderbookEvent) → f a ≡ ok es
      → SameEvents (f b) es) where
  gather_events-IsReordered :
      {l l' : List A}
      → IsReordered R l l'
      → (es : List OrderbookEvent) → gather_events f l ≡ ok es
      → SameEvents (gather_events f l') es
  unfolding gather_events
  gather_events-IsReordered IsReordered.nothing es h = (es, h, Perm.refl es)
  gather_events-IsReordered (IsReordered.entry {a} {b} {l} {l'} r d) es h =
      >>=-elim (f a) _ h λ one p h1. >>=-elim (gather_events f l) _ h1 λ rest q e.
        let (one', p', s) = same a b r one p in
        let (rest', q', t) = gather_events-IsReordered d rest q in
        (one' ++ rest', rw (p', q') refl, rw (← ok-injective e) (Perm.append s t))
  gather_events-IsReordered (IsReordered.exchange a b l) es h = >>=-elim (f a) _ h λ one p h1.
      >>=-elim (f b >>= λ two. gather_events f l >>= λ rest. ok (two ++ rest)) _ h1 λ both q e.
        >>=-elim (f b) _ q λ two p2 q1. >>=-elim (gather_events f l) _ q1 λ rest p3 e2. (
          two ++ (one ++ rest),
          rw (p2, p, p3) refl,
          rw (← ok-injective e, ← ok-injective e2) (swap one two rest),
        )
  gather_events-IsReordered (IsReordered.twice d d') es h =
      let (es1, h1, s1) = gather_events-IsReordered d es h in
      let (es2, h2, s2) = gather_events-IsReordered d' es1 h1 in (es2, h2, Perm.trans s1 s2)

module _ (names : Map H256 String) where
  key_event : Symbol → Map H256 Balance → H256 → Errors.Result (List OrderbookEvent)
  key_event symbol balances key = do
    amount ← ok_or (lookup key balances) (touched_balance_missing key)
    name ← ok_or (lookup key names) (user_name_missing key)
    ok (OrderbookEvent.balance_updated name symbol amount ∷ [])

  gather_events-symbol_events :
      (symbol : Symbol) (balances : Map H256 Balance) (keys : List H256)
      → symbol_events names symbol balances keys ≡ gather_events (key_event symbol balances) keys
  unfolding symbol_events gather_events key_event
  gather_events-symbol_events symbol balances [] = refl
  gather_events-symbol_events symbol balances (key ∷ keys) =
      rw (gather_events-symbol_events symbol balances keys) (
        both_assoc (ok_or (lookup key balances) _) (ok_or (lookup key names) _)
          (λ amount name. OrderbookEvent.balance_updated name symbol amount ∷ [])
          (λ one. gather_events (key_event symbol balances) keys >>= λ rest. ok (one ++ rest)))

  symbol_events-IsReordered :
      (symbol : Symbol) (balances : Map H256 Balance) {keys keys' : List H256}
      → IsReordered (λ a b. a ≡ b) keys keys'
      → (es : List OrderbookEvent) → symbol_events names symbol balances keys ≡ ok es
      → SameEvents (symbol_events names symbol balances keys') es
  symbol_events-IsReordered symbol balances {keys} {keys'} d es h =
      rw (gather_events-symbol_events symbol balances keys') (
        gather_events-IsReordered (key_event symbol balances) (λ a b. a ≡ b)
          (λ a b e es' p. (es', ap (key_event symbol balances) (sym e) ∙ p, Perm.refl es')) d es
          (sym (gather_events-symbol_events symbol balances keys) ∙ h))

  module _ (changes : Map Symbol (Map H256 Balance)) where
    entry_events : Symbol × List H256 → Errors.Result (List OrderbookEvent)
    entry_events touched = do
      balances ← ok_or (lookup touched.0 changes) (touched_symbol_missing touched.0)
      symbol_events names touched.0 balances touched.1

    gather_events-balance_events :
        (touched : Map Symbol (List H256))
        → balance_events names changes touched ≡ gather_events entry_events touched
    unfolding balance_events gather_events entry_events
    gather_events-balance_events [] = refl
    gather_events-balance_events ((symbol, keys) ∷ touched) =
        rw (gather_events-balance_events touched) (
          sym (
            bind_assoc (ok_or (lookup symbol changes) _)
              (λ balances. symbol_events names symbol balances keys)
              (λ one. gather_events entry_events touched >>= λ rest. ok (one ++ rest))))

    entry_events-IsReordered :
        (a b : Symbol × List H256)
        → SameAccounts a b
        → (es : List OrderbookEvent) → entry_events a ≡ ok es
        → SameEvents (entry_events b) es
    unfolding entry_events
    entry_events-IsReordered (symbol, keys) (symbol', keys') (e, d) es h =
        >>=-elim (ok_or (lookup symbol changes) _) _ h λ balances p h1.
          let (es', q, s) = symbol_events-IsReordered symbol balances d es h1 in
          (es', rw (← e, p) q, s)

    pub balance_events-IsReordered :
        {touched touched' : Map Symbol (List H256)}
        → IsReordered SameAccounts touched touched'
        → (es : List OrderbookEvent) → balance_events names changes touched ≡ ok es
        → SameEvents (balance_events names changes touched') es
    balance_events-IsReordered {touched} {touched'} d es h =
        rw (gather_events-balance_events touched') (
          gather_events-IsReordered entry_events SameAccounts entry_events-IsReordered d es
            (sym (gather_events-balance_events touched) ∙ h))

-- The same code, with another order of the touched accounts.
abbrev pub with_order : Externals → (Map Symbol (List H256) → Map Symbol (List H256)) → Externals
with_order x order = record x { touched_order = order }

module _ (x : Externals) (order : Map Symbol (List H256) → Map Symbol (List H256)) where
  collect_names-with_order :
      (keys : List H256) (users : List UserInfo) (names : Map H256 String)
      → collect_names (with_order x order) keys users names ≡ collect_names x keys users names
  unfolding collect_names get_key
  collect_names-with_order keys [] names = refl
  collect_names-with_order keys (u ∷ users) names = collect_names-with_order keys users _

  get_user_names-with_order :
      (s : ExecuteState) (keys : List H256)
      → get_user_names (with_order x order) s keys ≡ get_user_names x s keys
  unfolding get_user_names
  get_user_names-with_order s keys = rw (collect_names-with_order keys _ []) refl

  get_key-with_order : (u : UserInfo) → get_key (with_order x order) u ≡ get_key x u
  unfolding get_key
  get_key-with_order u = refl

  -- Where both orders are orders of the same accounts, the events are the same, in any order.
  pub execute_order-with_order :
      ((touched : Map Symbol (List H256))
        → IsReordered SameAccounts (x.touched_order touched) (order touched))
      → (s : ExecuteState) (u : UserInfo) (created : Order) (es : List OrderbookEvent)
      → execute_order x s u created ≡ ok es
      → SameEvents (execute_order (with_order x order) s u created) es
  unfolding execute_order
  execute_order-with_order same s u created es h =
      >>=-elim (ok_or (lookup created.pair.0 s.assets_info) _) _ h λ info p h1.
        >>=-elim (unwrap (pow10 info.scale)) _ h1 λ base_scale p1 h2.
          >>=-elim (execute_order_dry_run s.order_manager created) _ h2 λ order_events p2 h3.
            >>=-elim
              (settle base_scale (get_key x u) s.order_manager created.order_id _ order_events) _ h3
              λ st p3 h4. >>=-elim (get_user_names x s st.user_keys) _ h4 λ names p4 h5.
                >>=-elim
                  (balance_events names st.balance_changes (x.touched_order st.touched_accounts)) _
                  h5
                  λ updates p5 h6. >>=-elim (nonce_increment_event u) _ h6 λ nonce p6 h7.
                    let (updates', q, perm) =
                      balance_events-IsReordered names st.balance_changes (same st.touched_accounts)
                        updates p5 in
                    (
                      order_events ++ updates' ++ nonce ∷ [],
                      rw
                          (
                            p,
                            p1,
                            p2,
                            get_key-with_order u,
                            p3,
                            get_user_names-with_order s st.user_keys,
                            p4,
                            q,
                            p6,
                          )
                          refl,
                      rw (← ok-injective h7)
                          (Perm.append_right (nonce ∷ []) (Perm.append_left order_events perm)),
                    )
