-- ===== src/Server/Database/Statuses.antt =====
-- A row of an order under the updates of a dump (server/src/database.rs, `dump_to_db`).
use hyliquid.Prelude.{
  ℕ, Bool, true, false, Option, none, some, List, [], ◌∷◌, map, ◌≡◌, refl, ap, ◌∙◌, ◌==◌, string_eq,
  Map, lookup, contains, contains_key, if◌then◌else◌, arith, inl, inr, Bool-cases, eq_of_==,
}
use hyliquid.Types.{OrderId}
use hyliquid.Server.Database.Tables.{OrderRow}
use hyliquid.Server.Database.Aggregator.{DatabaseAggregator}
use hyliquid.Server.Database.Rows.{as_filled, as_partially_filled}
use hyliquid.Server.Database.Dumping.{as_cancelled}
use hyliquid.Server.Database.Updates.{filled_of, cancelled_of, updated_of, apply_updates}

-- The keys of the entries are different.
abbrev pub KeysOnce : Map OrderId ℕ → Type 0
KeysOnce [] = Unit
KeysOnce (e ∷ es) = (contains_key e.0 es ≡ false) × KeysOnce es

abbrev pub filled_if : Bool → OrderRow → OrderRow
filled_if b row = if b then as_filled row else row

abbrev pub cancelled_if : Bool → OrderRow → OrderRow
cancelled_if b row = if b then as_cancelled row else row

abbrev pub partially_filled_if : Option ℕ → OrderRow → OrderRow
partially_filled_if none row = row
partially_filled_if (some remaining) row = as_partially_filled remaining row

-- A row once the gathered changes are made: an update with a remaining quantity counts for more than
-- a cancellation, and that for more than an execution.
unfoldable pub settled_row : DatabaseAggregator → OrderRow → OrderRow
settled_row a row = partially_filled_if (lookup row.order_id a.updated_orders) (
    cancelled_if (contains row.order_id a.cancelled_orders)
      (filled_if (contains row.order_id a.executed_orders) row))

==_comm : (x y : OrderId) → (x == y) ≡ (y == x)
==_comm x y = ground (arith, string_eq.same_iff x y, string_eq.same_iff y x)

module _ (c : OrderRow → OrderRow) (again : (row : OrderRow) → c (c row) ≡ c row) where
  once_more : (b : Bool) (row : OrderRow) → (if b then c (c row) else c row) ≡ c row
  once_more true row = again row
  once_more false row = refl

  -- The same update for each id of a list.
  apply_updates-contains :
      (ids : List OrderId) (row : OrderRow)
      → apply_updates (λ x. x) (λ x. c) ids row ≡ (if contains row.order_id ids then c row else row)
  unfolding apply_updates contains
  apply_updates-contains [] row = refl
  apply_updates-contains (x ∷ xs) row = elim (Bool-cases (row.order_id == x)) [
    | inl here ↦
        rw (==_comm x row.order_id, here, apply_updates-contains xs (c row))
          (once_more (contains (c row).order_id xs) row)
    | inr other ↦ rw (==_comm x row.order_id, other) (apply_updates-contains xs row)
  ]

-- A later update of a row that was updated before.
apply_updates-absent :
    (es : Map OrderId ℕ) (row : OrderRow)
    → contains_key row.order_id es ≡ false
    → apply_updates (λ e. e.0) (λ e. as_partially_filled e.1) es row ≡ row
unfolding apply_updates lookup
apply_updates-absent [] row h = refl
apply_updates-absent ((id, q) ∷ es) row h = elim (Bool-cases (row.order_id == id)) [
  | inl here ↦ absurd (cc (rw (==_comm id row.order_id, here) at h))
  | inr other ↦ rw other (apply_updates-absent es row (rw (==_comm id row.order_id, other) at h))
]

apply_updates-lookup :
    (es : Map OrderId ℕ) (row : OrderRow)
    → KeysOnce es
    → apply_updates (λ e. e.0) (λ e. as_partially_filled e.1) es row
      ≡ partially_filled_if (lookup row.order_id es) row
unfolding apply_updates lookup
apply_updates-lookup [] row h = refl
apply_updates-lookup ((id, q) ∷ es) row h = elim (Bool-cases (row.order_id == id)) [
  | inl here ↦
      rw (==_comm id row.order_id, here)
        (apply_updates-absent es (as_partially_filled q row)
          (rw (eq_of_== row.order_id id here) h.0))
  | inr other ↦ rw (==_comm id row.order_id, other) (apply_updates-lookup es row h.1)
]

filled_if-order_id : (b : Bool) (row : OrderRow) → (filled_if b row).order_id ≡ row.order_id
filled_if-order_id true row = refl
filled_if-order_id false row = refl

cancelled_if-order_id : (b : Bool) (row : OrderRow) → (cancelled_if b row).order_id ≡ row.order_id
cancelled_if-order_id true row = refl
cancelled_if-order_id false row = refl

updates-settled_row :
    (a : DatabaseAggregator)
    → KeysOnce a.updated_orders
    → (row : OrderRow) → updated_of a (cancelled_of a (filled_of a row)) ≡ settled_row a row
unfolding settled_row
updates-settled_row a h row =
    let filled = filled_if (contains row.order_id a.executed_orders) row in
    let filled_id = filled_if-order_id (contains row.order_id a.executed_orders) row in
    let b = contains row.order_id a.cancelled_orders in
    ap (λ r. updated_of a (cancelled_of a r))
      (apply_updates-contains as_filled (λ r. refl) a.executed_orders row)
    ∙ ap (updated_of a) (
        apply_updates-contains as_cancelled (λ r. refl) a.cancelled_orders filled
        ∙ ap (λ id. cancelled_if (contains id a.cancelled_orders) filled) filled_id)
    ∙ apply_updates-lookup a.updated_orders (cancelled_if b filled) h
    ∙ ap (λ id. partially_filled_if (lookup id a.updated_orders) (cancelled_if b filled))
        (cancelled_if-order_id b filled ∙ filled_id)

-- One map for the three.
pub map-settled_row :
    (a : DatabaseAggregator)
    → KeysOnce a.updated_orders
    → (rows : List OrderRow)
    → map (updated_of a) (map (cancelled_of a) (map (filled_of a) rows)) ≡ map (settled_row a) rows
map-settled_row a h [] = refl
map-settled_row a h (row ∷ rows) = rw (updates-settled_row a h row, map-settled_row a h rows) refl
