-- ===== src/Server/Database/Results.antt =====
-- What holds of a run of the database module that ends with a result, whatever faults it met.
use hyliquid.Prelude.{
  Option, some, ◌≡◌, Result, ok, err, panic, next_fails, later_faults, Bool-cases, Option-cases,
  inl, inr,
}
use hyliquid.Server.Database.Tables.{Tables}
use hyliquid.Server.Database.Session.{
  Database, DbError, M, ◌>>=◌, ◌>>◌, continue, pure, call, statement, attempt, transaction,
  rolled_back,
}
use hyliquid.Server.Database.Rules.{Steady}

-- A run that ends with a result satisfies `Q` with it.
abbrev pub IfOk {ℓ} : {A : Type ℓ} → (A → Database → Type 0) → Database × Result DbError A → Type 0
IfOk Q (db, ok a) = Q a db
IfOk Q (db, err e) = Unit
IfOk Q (db, panic) = Unit

-- The same for the run from any database that satisfies `P`.
pub record Results {ℓ} {A : Type ℓ} (P : Database → Type 0) (Q : A → Database → Type 0) (m : M A)
    : Type ℓ where
  pub at : (db : Database) → P db → IfOk Q (m db)

module _ {ℓ} {A B : Type ℓ} {Q : A → Database → Type 0} {R : B → Database → Type 0} where
  continue-IfOk :
      (o : Database × Result DbError A) (f : A → M B)
      → IfOk Q o
      → ((a : A) → Results (Q a) R (f a))
      → IfOk R (continue f o)
  continue-IfOk (db, ok a) f q k = (k a).at db q
  continue-IfOk (db, err e) f q k = tt
  continue-IfOk (db, panic) f q k = tt

  pub Results-chain :
      {P : Database → Type 0} (m : M A) (f : A → M B)
      → Results P Q m
      → ((a : A) → Results (Q a) R (f a))
      → Results P R (m >>= f)
  Results-chain m f r k = record { at = λ db p. continue-IfOk (m db) f (r.at db p) k }

module _ {P : Database → Type 0} (steady : Steady P) where
  pub Results-call : Results P (λ u. P) call
  unfolding call
  Results-call = record {
    at = λ db p. elim (Bool-cases (next_fails db.faults)) [
      | inl fails ↦ rw fails tt
      | inr works ↦ rw works (steady db (later_faults db.faults) p)
    ];
  }

  pub Results-statement :
      {Q : Unit {0} → Database → Type 0} (change : Tables → Option Tables)
      → ((db : Database) (t : Tables)
          → change db.tables ≡ some t
          → P db
          → Q tt (record db { tables = t }))
      → Results P Q (statement change)
  unfolding statement call
  Results-statement change k = record {
    at = λ db p.
        let spent = record db { faults = later_faults db.faults } in
        elim (Bool-cases (next_fails db.faults)) [
          | inl fails ↦ rw fails tt
          | inr works ↦ rw works (elim (Option-cases (change db.tables)) [
            | inl refused ↦ rw refused tt
            | inr (t, done) ↦ rw done (k spent t done (steady db (later_faults db.faults) p))
          ])
        ];
  }

rolled_back-IfOk {ℓ} :
    {A : Type ℓ} (Q : A → Database → Type 0) (before : Tables) (o : Database × Result DbError A)
    → IfOk Q o
    → IfOk Q (rolled_back before o)
rolled_back-IfOk Q before (db, ok b) q = q
rolled_back-IfOk Q before (db, err e) q = tt
rolled_back-IfOk Q before (db, panic) q = tt

module _ {A : Type 0} {Q : A → Database → Type 0} where
  Results-commit : (a : A) → Steady (Q a) → Results (Q a) Q (call >> pure a)
  Results-commit a t =
      Results-chain call (λ _. pure a) (Results-call t) (λ u. record { at = λ db q. q })

  pub Results-transaction :
      {P : Database → Type 0} (body : M A)
      → Steady P
      → ((a : A) → Steady (Q a))
      → Results P Q body
      → Results P Q (transaction body)
  unfolding transaction attempt
  Results-transaction body s t r =
      Results-chain call (λ _. attempt body) (Results-call s)
        λ u. record {
          at = λ db p.
              rolled_back-IfOk Q db.tables ((body >>= λ a. call >> pure a) db) (
                (Results-chain body (λ a. call >> pure a) r (λ a. Results-commit a (t a))).at db p);
        }

-- A result of the outcome.
pub ok-IfOk :
    (Q : Database → Type 0) (o : Database × Result DbError (Unit {0}))
    → o.1 ≡ ok tt
    → IfOk (λ u. Q) o
    → Q o.0
ok-IfOk Q (db, ok u) e q = q
ok-IfOk Q (db, err x) e q = absurd cc
ok-IfOk Q (db, panic) e q = absurd cc
