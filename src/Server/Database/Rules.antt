-- ===== src/Server/Database/Rules.antt =====
-- How a run of the database module goes on: the predicates that it keeps however it ends.
use hyliquid.Prelude.{
  Bool, true, false, Option, none, some, ◌≡◌, Result, ok, err, panic, if◌then◌else◌, next_fails,
  later_faults, List, Bool-cases, Option-cases, inl, inr,
}
use hyliquid.Server.Database.Tables.{Tables}
use hyliquid.Server.Database.Session.{
  Database, DbError, M, ◌>>=◌, continue, pure, found, call, statement, query,
}

-- From a database that satisfies `P` the run ends, with a result or without, in one that satisfies
-- `Q`.
pub record Leads {ℓ κ} {A : Type ℓ} (P Q : Database → Type κ) (m : M A) : Type (ℓ ⊔ κ) where
  pub at : (db : Database) → P db → Q (m db).0

-- A predicate that does not depend on the faults to come.
abbrev pub Steady {κ} : (Database → Type κ) → Type κ
Steady P = (db : Database) (later : List Bool) → P db → P (record db { faults = later })

module _ {ℓ κ} {A B : Type ℓ} {P Q : Database → Type κ}
    (weaken : (db : Database) → P db → Q db) where
  continue_Leads :
      (o : Database × Result DbError A) (f : A → M B)
      → P o.0
      → ((a : A) → Leads P Q (f a))
      → Q (continue f o).0
  continue_Leads (db, ok a) f p k = (k a).at db p
  continue_Leads (db, err e) f p k = weaken db p
  continue_Leads (db, panic) f p k = weaken db p

  -- The first part keeps `P`, and the rest leads on.
  pub Leads-chain :
      (m : M A) (f : A → M B) → Leads P P m → ((a : A) → Leads P Q (f a)) → Leads P Q (m >>= f)
  Leads-chain m f k l = record { at = λ db p. continue_Leads (m db) f (k.at db p) l }

module _ {ℓ κ} {A B : Type ℓ} (Q : Database → Type κ) where
  continue_Keeps :
      (o : Database × Result DbError A) (f : A → M B)
      → Q o.0
      → ((a : A) → Leads Q Q (f a))
      → Q (continue f o).0
  continue_Keeps (db, ok a) f p k = (k a).at db p
  continue_Keeps (db, err e) f p k = p
  continue_Keeps (db, panic) f p k = p

module _ {ℓ κ} {A B : Type ℓ} {P Q : Database → Type κ} where
  -- The first part leads on, and the rest keeps `Q`.
  pub Leads-then :
      (m : M A) (f : A → M B) → Leads P Q m → ((a : A) → Leads Q Q (f a)) → Leads P Q (m >>= f)
  Leads-then m f k l = record { at = λ db p. continue_Keeps Q (m db) f (k.at db p) l }

module _ {κ} {P : Database → Type κ} (steady : Steady P) where
  pub Leads-call : Leads P P call
  unfolding call
  Leads-call = record { at = λ db p. steady db (later_faults db.faults) p }

  pub Leads-query : {A : Type 0} (f : Tables → A) → Leads P P (query f)
  unfolding query call
  Leads-query f = record {
    at = λ db p. elim (Bool-cases (next_fails db.faults)) [
      | inl fails ↦ rw fails (steady db (later_faults db.faults) p)
      | inr works ↦ rw works (steady db (later_faults db.faults) p)
    ];
  }

module _ {ℓ κ} {A : Type ℓ} {P : Database → Type κ} where
  pub Leads-pure : (a : A) → Leads P P (pure a)
  Leads-pure a = record { at = λ db p. p }

  pub Leads-found : (e : DbError) (o : Option A) → Leads P P (found e o)
  Leads-found e none = record { at = λ db p. p }
  Leads-found e (some a) = record { at = λ db p. p }

module _ {ℓ κ} {A : Type ℓ} {P Q : Database → Type κ} where
  pub Leads-choice :
      (b : Bool) (m n : M A) → Leads P Q m → Leads P Q n → Leads P Q (if b then m else n)
  Leads-choice true m n k l = k
  Leads-choice false m n k l = l

module _ {κ} {P Q : Database → Type κ} where
  -- A statement, of which is known what it makes of the tables where it succeeds.
  pub Leads-statement :
      Steady P
      → ((db : Database) → P db → Q db)
      → (change : Tables → Option Tables)
      → ((db : Database) (t : Tables)
          → change db.tables ≡ some t
          → P db
          → Q (record db { tables = t }))
      → Leads P Q (statement change)
  unfolding statement call
  Leads-statement steady weaken change k = record {
    at = λ db p.
        let spent = record db { faults = later_faults db.faults } in
        let p' = steady db (later_faults db.faults) p in
        elim (Bool-cases (next_fails db.faults)) [
          | inl fails ↦ rw fails (weaken spent p')
          | inr works ↦ rw works (elim (Option-cases (change db.tables)) [
            | inl refused ↦ rw refused (weaken spent p')
            | inr (t, done) ↦ rw done (k spent t done p')
          ])
        ];
  }

module _ {κ} {A B : Type 0} {P Q : Database → Type κ} where
  -- What a query reads is that of the tables.
  pub Leads-read :
      Steady P
      → ((db : Database) → P db → Q db)
      → (f : Tables → A) (g : A → M B) → ((db : Database) → P db → Q (g (f db.tables) db).0)
      → Leads P Q (query f >>= g)
  unfolding query call
  Leads-read steady weaken f g k = record {
    at = λ db p.
        let spent = record db { faults = later_faults db.faults } in
        let p' = steady db (later_faults db.faults) p in
        elim (Bool-cases (next_fails db.faults)) [
          | inl fails ↦ rw fails (weaken spent p')
          | inr works ↦ rw works (k spent p')
        ];
  }
