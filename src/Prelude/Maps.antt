-- ===== src/Prelude/Maps.antt =====
-- `HashMap` as an association list: the position of an entry stands for the order in which an
-- iteration meets it, and no law below depends on it.
use mathlib.Core.Path.{◌≡◌, refl}
use mathlib.Core.Bool.{Bool, true, false}
use mathlib.Core.Option.{Option, none, some}
use mathlib.Core.List.{List, [], ◌∷◌}
use native.Mathlib.Omega.{arith}
use mathlib.Core.Logic.{inl, inr}
use hyliquid.Prelude.Tests.{if◌then◌else◌, Bool-cases}
use hyliquid.Prelude.Lists.{All}
use hyliquid.Prelude.Keys.{Keyed, ◌==◌}

abbrev pub Map {ℓ κ} : Type ℓ → Type κ → Type (ℓ ⊔ κ)
Map K V = List (K × V)

abbrev pub is_some {ℓ} : {A : Type ℓ} → Option A → Bool
is_some none = false
is_some (some a) = true

abbrev pub get_or {ℓ} : {A : Type ℓ} → Option A → A → A
get_or none d = d
get_or (some a) d = a

module _ {ℓ κ} {K : Type ℓ} {V : Type κ} ⦃e : Keyed K⦄ where
  -- `get`
  unfoldable pub lookup : K → Map K V → Option V
  lookup key [] = none
  lookup key ((other, found) ∷ rest) = if other == key then some found else lookup key rest

  -- `insert`
  unfoldable pub insert : K → V → Map K V → Map K V
  insert key v [] = (key, v) ∷ []
  insert key v ((other, old) ∷ rest) =
      if other == key then (key, v) ∷ rest else (other, old) ∷ insert key v rest

  -- `remove`
  unfoldable pub remove : K → Map K V → Map K V
  remove k [] = []
  remove k ((j, w) ∷ m) = if j == k then remove k m else (j, w) ∷ remove k m

  -- `contains_key`
  abbrev pub contains_key : K → Map K V → Bool
  contains_key k m = is_some (lookup k m)

  -- `entry(k).or_insert(v)`: the entry that is there stays.
  unfoldable pub or_insert : K → V → Map K V → Map K V
  or_insert k v m = elim (lookup k m) [ none ↦ insert k v m | some _ ↦ m ]

  pub lookup-insert :
      (key wanted : K) (v : V) (table : Map K V)
      → lookup wanted (insert key v table) ≡ (if key == wanted then some v else lookup wanted table)
  unfolding insert lookup
  lookup-insert key wanted v [] = refl
  lookup-insert key wanted v ((other, old) ∷ rest) = ground (
    arith,
    lookup-insert key wanted v rest,
    e.same_iff other key,
    e.same_iff key wanted,
    e.same_iff other wanted,
  )

  pub lookup-remove :
      (k j : K) (m : Map K V) → lookup j (remove k m) ≡ (if k == j then none else lookup j m)
  unfolding lookup remove
  lookup-remove k j [] = ground arith
  lookup-remove k j ((i, w) ∷ m) =
      ground (arith, e.same_iff k j, e.same_iff i k, e.same_iff i j, lookup-remove k j m)

  pub lookup-or_insert :
      (k j : K) (v : V) (m : Map K V)
      → lookup j (or_insert k v m) ≡ (if k == j then some (get_or (lookup k m) v) else lookup j m)
  unfolding or_insert
  lookup-or_insert k j v m = ground (arith, lookup-insert k j v m, e.same_iff k j)

  pub lookup-insert_self : (k : K) (v : V) (m : Map K V) → lookup k (insert k v m) ≡ some v
  lookup-insert_self k v m = ground (arith, lookup-insert k k v m, e.same_iff k k)

  -- What holds of an entry and of those there holds after the insertion.
  pub All-insert {μ} :
      (P : K × V → Type μ) (k : K) (v : V) (m : Map K V) → P (k, v) → All P m → All P (insert k v m)
  unfolding insert
  All-insert P k v [] p h = (p, tt)
  All-insert P k v ((j, w) ∷ m) p h = elim (Bool-cases (j == k)) [
    | inl same ↦ rw same (p, h.1)
    | inr other ↦ rw other (h.0, All-insert P k v m p h.1)
  ]
