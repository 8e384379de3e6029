-- ===== src/Prelude/Fallible.antt =====
-- What a fallible Rust function ends in: a value, an `Err`, or a panic that unwinds the caller.
use mathlib.Core.Path.{◌≡◌, refl}
use mathlib.Core.Bool.{Bool, true, false, not}
use mathlib.Core.Option.{Option, none, some}

pub data Result {ℓ κ} (E : Type κ) (A : Type ℓ) : Type (ℓ ⊔ κ) where
  ok : A → Result E A
  err : E → Result E A
  panic : Result E A

infixl 5 ◌>>=◌ ◌>>◌
abbrev pub ◌>>=◌ {ℓ μ κ} :
    {E : Type κ} {A : Type ℓ} {B : Type μ} → Result E A → (A → Result E B) → Result E B
ok a >>= f = f a
err e >>= f = err e
panic >>= f = panic

abbrev pub ◌>>◌ {ℓ κ} : {E : Type κ} {B : Type ℓ} → Result E (Unit {0}) → Result E B → Result E B
m >> k = m >>= λ _. k

-- `if bad { return Err(e); }`
abbrev pub fail_if {κ} : {E : Type κ} → Bool → E → Result E (Unit {0})
fail_if true e = err e
fail_if false e = ok tt

-- `if bad { panic!(..) }`
abbrev pub panic_if {κ} : {E : Type κ} → Bool → Result E (Unit {0})
panic_if true = panic
panic_if false = ok tt

-- `Option::ok_or`
abbrev pub ok_or {ℓ κ} : {E : Type κ} {A : Type ℓ} → Option A → E → Result E A
ok_or none e = err e
ok_or (some a) e = ok a

-- `Option::unwrap`
abbrev pub unwrap {ℓ κ} : {E : Type κ} {A : Type ℓ} → Option A → Result E A
unwrap none = panic
unwrap (some a) = ok a

-- `Result::map_err`
abbrev pub map_err {ℓ κ} : {E : Type κ} {A : Type ℓ} → (E → E) → Result E A → Result E A
map_err f (ok a) = ok a
map_err f (err e) = err (f e)
map_err f panic = panic

-- `Result::unwrap_or_else(|e| panic!(..))`
abbrev pub or_panic {ℓ κ} : {E : Type κ} {A : Type ℓ} → Result E A → Result E A
or_panic (ok a) = ok a
or_panic (err e) = panic
or_panic panic = panic

-- Inversion of a successful chain.
pub >>=-eq-ok {ℓ μ κ} :
    {E : Type κ} {A : Type ℓ} {B : Type μ} (first : Result E A) (next : A → Result E B) {out : B}
    → (first >>= next) ≡ ok out
    → (v : A) × (first ≡ ok v) × (next v ≡ ok out)
>>=-eq-ok panic next h = cc
>>=-eq-ok (err e) next h = cc
>>=-eq-ok (ok v) next h = (v, refl, h)

pub ok_or-eq-ok {ℓ κ} :
    {E : Type κ} {A : Type ℓ} (o : Option A) (e : E) {a : A} → ok_or o e ≡ ok a → o ≡ some a
ok_or-eq-ok none e h = cc
ok_or-eq-ok (some a) e h = cc

pub ok-injective {ℓ κ} :
    {E : Type κ} {A : Type ℓ} {a b : A} → ◌≡◌ {A = Result E A} (ok a) (ok b) → a ≡ b
ok-injective h = cc

pub unwrap-eq-ok {ℓ κ} :
    {E : Type κ} {A : Type ℓ} (o : Option A) {a : A} → unwrap {E = E} o ≡ ok a → o ≡ some a
unwrap-eq-ok none h = cc
unwrap-eq-ok (some a) h = cc

pub map_err-eq-ok {ℓ κ} :
    {E : Type κ} {A : Type ℓ} (f : E → E) (m : Result E A) {a : A} → map_err f m ≡ ok a → m ≡ ok a
map_err-eq-ok f (ok a) h = h
map_err-eq-ok f (err e) h = cc
map_err-eq-ok f panic h = cc

-- The same inversion, for a proof that goes on with the value.
pub >>=-elim {ℓ μ κ ν} :
    {E : Type κ} {A : Type ℓ} {B : Type μ} {P : Type ν} (m : Result E A) (f : A → Result E B)
    {b : B}
    → (m >>= f) ≡ ok b
    → ((a : A) → m ≡ ok a → f a ≡ ok b → P)
    → P
>>=-elim (ok a) f h k = k a refl h
>>=-elim (err e) f h k = cc
>>=-elim panic f h k = cc

-- What a guard that was passed says.
pub panic_if-eq-ok {κ} :
    {E : Type κ} (b : Bool) {u : Unit {0}} → panic_if {E = E} (not b) ≡ ok u → b ≡ true
panic_if-eq-ok true h = refl
panic_if-eq-ok false h = cc

pub fail_if-eq-ok {κ} :
    {E : Type κ} (b : Bool) (e : E) {u : Unit {0}} → fail_if (not b) e ≡ ok u → b ≡ true
fail_if-eq-ok true e h = refl
fail_if-eq-ok false e h = cc

pub fail_if-eq-false {κ} :
    {E : Type κ} (b : Bool) (e : E) {u : Unit {0}} → fail_if b e ≡ ok u → b ≡ false
fail_if-eq-false true e h = cc
fail_if-eq-false false e h = refl
