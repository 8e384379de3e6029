-- ===== src/Server/Books/Queues.antt =====
-- The queues of a book that is read back (server/src/services/book_service.rs,
-- `get_order_manager`), against the rows that it is made of.
use hyliquid.Prelude.{
  All-insert, All, is_some, ℕ, ◌&&◌, Bool, true, Option, none, some, List, [], ◌∷◌, ◌++◌, reverse,
  Map, lookup, insert, retain, ◌≡◌, refl, sym, ap, ◌∙◌, get_or, ok, ◌==◌, nat_eq, string_eq,
  pair_eq, eqb, eqb_iff, if◌then◌else◌, lookup-insert, eq_of_==, Bool-cases, Option-cases, inl, inr,
  arith, String,
}
use mathlib.Core.List.{reverse-cons, append_assoc, append-nil}
use hyliquid.Types.{Order, H256, OrderId, Pair, OrderSide, OrderManager, PriceLevels, UserInfo}
use hyliquid.Externals.{Externals}
use hyliquid.State.Users.{get_key}
use hyliquid.OrderManager.Levels.{insert_level, side_map}
use hyliquid.OrderManager.Events.{push_back}
use hyliquid.Server.Books.{
  collect_orders, without_users, order_of, BookRow, as_u64, pair_of, is_bid, is_ask, push_front,
  modify_level, modify_levels, add_row, fold_rows, buy_orders, sell_orders, owners_of,
  get_order_manager,
}

abbrev pub queue_at : ℕ → Option PriceLevels → List OrderId
queue_at price none = []
queue_at price (some levels) = get_or (lookup price levels) []

-- The queue of a pair at a price, empty where there is none.
abbrev pub queue_of : Pair → ℕ → Map Pair PriceLevels → List OrderId
queue_of pair price book = queue_at price (lookup pair book)

abbrev pub is_at : Pair → ℕ → BookRow → Bool
is_at pair price row = pair_of row == pair && eqb (as_u64 row.price) price

-- The ids of the rows of a pair at a price, in their order.
unfoldable pub ids_at : Pair → ℕ → List BookRow → List OrderId
ids_at pair price [] = []
ids_at pair price (row ∷ rows) =
    if is_at pair price row then row.order_id ∷ ids_at pair price rows else ids_at pair price rows

lookup-insert_level :
    (p q : ℕ) (v : List OrderId) (levels : PriceLevels)
    → lookup q (insert_level p v levels) ≡ (if eqb p q then some v else lookup q levels)
unfolding lookup insert_level
lookup-insert_level p q v [] = refl
lookup-insert_level p q v ((p', q') ∷ levels) = ground (arith, lookup-insert_level p q v levels)

module _ (push : OrderId → List OrderId → List OrderId)
    (single : (id : OrderId) → push id [] ≡ id ∷ []) where
  modify_level-get_or :
      (p : ℕ) (id : OrderId) (o : Option (List OrderId))
      → modify_level push p id o ≡ push id (get_or o [])
  modify_level-get_or p id none = sym (single id)
  modify_level-get_or p id (some queue) = refl

  queue_at-modify_levels :
      (p q : ℕ) (id : OrderId) (o : Option PriceLevels)
      → queue_at q (some (modify_levels push p id o))
        ≡ (if eqb p q then push id (queue_at q o) else queue_at q o)
  unfolding lookup
  queue_at-modify_levels p q id none = elim (Bool-cases (eqb p q)) [
    | inl same ↦ rw same (sym (single id))
    | inr other ↦ rw other refl
  ]
  queue_at-modify_levels p q id (some levels) =
      let queue = modify_level push p id (lookup p levels) in
      elim (Bool-cases (eqb p q)) [
        | inl same ↦
            let here : p ≡ q = (eqb_iff p q).0 same in
            rw (lookup-insert_level p q queue levels, same)
              (modify_level-get_or p id (lookup p levels)
                ∙ ap (λ k. push id (get_or (lookup k levels) [])) here)
        | inr other ↦ rw (lookup-insert_level p q queue levels, other) refl
      ]

  queue_of-add_row :
      (pair : Pair) (price : ℕ) (book : Map Pair PriceLevels) (row : BookRow)
      → queue_of pair price (add_row push book row) ≡ (
          if is_at pair price row
          then push row.order_id (queue_of pair price book)
          else queue_of pair price book)
  unfolding add_row
  queue_of-add_row pair price book row =
      let levels = modify_levels push (as_u64 row.price) row.order_id (lookup (pair_of row) book) in
      elim (Bool-cases (pair_of row == pair)) [
        | inl same ↦
            rw (lookup-insert (pair_of row) pair levels book, same)
              (queue_at-modify_levels (as_u64 row.price) price row.order_id
                  (lookup (pair_of row) book)
                ∙ ap
                    (λ k.
                      if eqb (as_u64 row.price) price
                      then push row.order_id (queue_of k price book)
                      else queue_of k price book)
                    (eq_of_== (pair_of row) pair same))
        | inr other ↦ rw (lookup-insert (pair_of row) pair levels book, other) refl
      ]

-- The asks: each goes behind those before it.
sold :
    (pair : Pair) (price : ℕ) (book : Map Pair PriceLevels) (rows : List BookRow)
    → queue_of pair price (fold_rows push_back book rows)
      ≡ queue_of pair price book ++ ids_at pair price rows
unfolding fold_rows ids_at push_back
sold pair price book [] = sym (append-nil (queue_of pair price book))
sold pair price book (row ∷ rows) =
    sold pair price (add_row push_back book row) rows
    ∙ rw (queue_of-add_row push_back (λ id. refl) pair price book row)
        (elim (Bool-cases (is_at pair price row)) [
          | inl here ↦
              rw here (
                append_assoc (queue_of pair price book) (row.order_id ∷ [])
                  (ids_at pair price rows))
          | inr other ↦ rw other refl
        ])

fold_rows-append :
    (push : OrderId → List OrderId → List OrderId) (book : Map Pair PriceLevels)
    (rows more : List BookRow)
    → fold_rows push book (rows ++ more) ≡ fold_rows push (fold_rows push book rows) more
unfolding fold_rows
fold_rows-append push book [] more = refl
fold_rows-append push book (row ∷ rows) more =
    fold_rows-append push (add_row push book row) rows more

retain-append :
    (p : BookRow → Bool) (rows more : List BookRow)
    → retain p (rows ++ more) ≡ retain p rows ++ retain p more
unfolding retain
retain-append p [] more = refl
retain-append p (row ∷ rows) more = ground (arith, retain-append p rows more)

-- The bids: the rows are taken from the last one on, and each goes before those after it.
bought :
    (pair : Pair) (price : ℕ) (rows : List BookRow)
    → queue_of pair price (buy_orders rows) ≡ ids_at pair price (retain is_bid rows)
unfolding buy_orders fold_rows ids_at retain lookup
bought pair price [] = refl
bought pair price (row ∷ rows) =
    let later = retain is_bid (reverse rows) in
    ap (λ l. queue_of pair price (fold_rows push_front [] (retain is_bid l)))
      (reverse-cons row rows)
    ∙ ap (λ l. queue_of pair price (fold_rows push_front [] l))
        (retain-append is_bid (reverse rows) (row ∷ []))
    ∙ ap (queue_of pair price) (fold_rows-append push_front [] later (retain is_bid (row ∷ [])))
    ∙ elim (Bool-cases (is_bid row)) [
      | inl bid ↦ rw bid (
          queue_of-add_row push_front (λ id. refl) pair price (buy_orders rows) row
          ∙ elim (Bool-cases (is_at pair price row)) [
            | inl here ↦ rw here (ap (λ ids. row.order_id ∷ ids) (bought pair price rows))
            | inr other ↦ rw other (bought pair price rows)
          ])
      | inr ask ↦ rw ask (bought pair price rows)
    ]

-- The rows of a side.
abbrev pub is_on : OrderSide → BookRow → Bool
is_on OrderSide.bid = is_bid
is_on OrderSide.ask = is_ask

on_side :
    (rows : List BookRow) (m : OrderManager)
    → m.bid_orders ≡ buy_orders rows
    → m.ask_orders ≡ sell_orders rows
    → (side : OrderSide) (pair : Pair) (price : ℕ)
    → queue_of pair price (side_map m side) ≡ ids_at pair price (retain (is_on side) rows)
unfolding side_map sell_orders lookup
on_side rows m b a OrderSide.bid pair price = ap (queue_of pair price) b ∙ bought pair price rows
on_side rows m b a OrderSide.ask pair price =
    ap (queue_of pair price) a ∙ sold pair price [] (retain is_ask rows)

module _ (x : Externals) (users_info : Map String UserInfo) where
  -- The users of the orders are known.
  abbrev AllOwned : Map OrderId (Order × String) → Type 0
  AllOwned orders = All (λ e. is_some (lookup e.1.1 users_info) ≡ true) orders

  collect_orders-AllOwned :
      (rows : List BookRow) (orders : Map OrderId (Order × String))
      → All (λ row. is_some (lookup row.identity users_info) ≡ true) rows
      → AllOwned orders
      → AllOwned (collect_orders rows orders)
  unfolding collect_orders
  collect_orders-AllOwned [] orders k h = h
  collect_orders-AllOwned (row ∷ rows) orders k h =
      collect_orders-AllOwned rows (insert row.order_id (order_of row, row.identity) orders) k.1 (
        All-insert (λ e. is_some (lookup e.1.1 users_info) ≡ true) row.order_id
          (order_of row, row.identity) orders k.0 h)

  owners_of-ok :
      (orders : Map OrderId (Order × String)) (owners : Map OrderId H256)
      → AllOwned orders
      → (r : Map OrderId H256) × (owners_of x users_info orders owners ≡ ok r)
  unfolding owners_of
  owners_of-ok [] owners h = (owners, refl)
  owners_of-ok ((id, (order, user)) ∷ orders) owners h =
      elim (Option-cases (lookup user users_info)) [
        | inl unknown ↦ absurd (cc (rw unknown at h.0))
        | inr (info, found) ↦
            rw found (owners_of-ok orders (insert order.order_id (get_key x info) owners) h.1)
      ]

  -- Where the users of all rows are known, the order book is read back, and the queue of each side,
  -- pair and price has the ids of the rows of that side, pair and price, in the order of the rows.
  pub get_order_manager-ids_at :
      (rows : List BookRow)
      → All (λ row. is_some (lookup row.identity users_info) ≡ true) rows
      → (m : OrderManager) × (get_order_manager x users_info rows ≡ ok m)
        × ((side : OrderSide) (pair : Pair) (price : ℕ)
            → queue_of pair price (side_map m side) ≡ ids_at pair price (retain (is_on side) rows))
  unfolding get_order_manager
  get_order_manager-ids_at rows known =
      let orders = collect_orders rows [] in
      let (owners, owned) = owners_of-ok orders [] (collect_orders-AllOwned rows [] known tt) in
      let m : OrderManager = record {
        orders = without_users orders;
        bid_orders = buy_orders rows;
        ask_orders = sell_orders rows;
        orders_owner = owners;
      } in
      (m, rw owned refl, on_side rows m refl refl)
