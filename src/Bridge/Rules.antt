-- ===== src/Bridge/Rules.antt =====
-- How a run of the bridge goes on: what a part that succeeded has left for the rest, and the
-- predicates on the world that a run keeps however it ends.
use hyliquid.Prelude.{
  Bool, true, false, List, ◌≡◌, ◌≢◌, refl, Result, ok, err, panic, if◌then◌else◌, Bool-cases, inl,
  inr,
}
use hyliquid.Bridge.World.{
  World, BridgeError, M, ◌>>=◌, continue, pure, lift, call, execute, query, next_fails,
  later_faults,
}

module _ {ℓ κ} {A B : Type ℓ} {P : Type κ} {b : B} {w' : World} where
  pub after :
      (o : World × Result BridgeError A) (f : A → M B)
      → continue f o ≡ (w', ok b)
      → ((w1 : World) (a : A) → o ≡ (w1, ok a) → f a w1 ≡ (w', ok b) → P)
      → P
  after (w1, ok a) f h k = k w1 a refl h
  after (w1, err e) f h k = cc
  after (w1, panic) f h k = cc

-- From a world that satisfies `P` the run ends, with a result or without, in one that satisfies
-- `Q`.
pub record Leads {ℓ κ} {A : Type ℓ} (P Q : World → Type κ) (m : M A) : Type (ℓ ⊔ κ) where
  pub at : (w : World) → P w → Q (m w).0

abbrev pub OnError {ℓ κ} : {A : Type ℓ} → (World → Type κ) → World × Result BridgeError A → Type κ
OnError Q (w, ok a) = Unit
OnError Q (w, err e) = Q w
OnError Q (w, panic) = Q w

-- From a world that satisfies `P`, a run that fails ends in one that satisfies `Q`.
pub record Undone {ℓ κ} {A : Type ℓ} (P Q : World → Type κ) (m : M A) : Type (ℓ ⊔ κ) where
  pub at : (w : World) → P w → OnError Q (m w)

-- A predicate that does not depend on the faults to come.
abbrev pub Steady {κ} : (World → Type κ) → Type κ
Steady P = (w : World) (later : List Bool) → P w → P (record w { faults = later })

module _ {ℓ κ} {A B : Type ℓ} (Q : World → Type κ) where
  pub Leads-continue :
      (o : World × Result BridgeError A) (f : A → M B)
      → Q o.0
      → ((a : A) → Leads Q Q (f a))
      → Q (continue f o).0
  Leads-continue (w, ok a) f p k = (k a).at w p
  Leads-continue (w, err e) f p k = p
  Leads-continue (w, panic) f p k = p

module _ {ℓ κ} {A B : Type ℓ} {P Q : World → Type κ} where
  pub Leads-chain :
      (m : M A) (f : A → M B) → Leads P Q m → ((a : A) → Leads Q Q (f a)) → Leads P Q (m >>= f)
  Leads-chain m f k l = record { at = λ w p. Leads-continue Q (m w) f (k.at w p) l }

  Undone-continue :
      (o : World × Result BridgeError A) (f : A → M B)
      → P o.0
      → ((w : World) → P w → Q w)
      → ((a : A) → Undone P Q (f a))
      → OnError Q (continue f o)
  Undone-continue (w, ok a) f p weaken k = (k a).at w p
  Undone-continue (w, err e) f p weaken k = weaken w p
  Undone-continue (w, panic) f p weaken k = weaken w p

  pub Undone-chain :
      (m : M A) (f : A → M B)
      → Leads P P m
      → ((w : World) → P w → Q w)
      → ((a : A) → Undone P Q (f a))
      → Undone P Q (m >>= f)
  Undone-chain m f k weaken l = record { at = λ w p. Undone-continue (m w) f (k.at w p) weaken l }

module _ {ℓ κ} {A : Type ℓ} (Q : World → Type κ) where
  OnError-weaken : (o : World × Result BridgeError A) → Q o.0 → OnError Q o
  OnError-weaken (w, ok a) q = tt
  OnError-weaken (w, err e) q = q
  OnError-weaken (w, panic) q = q

module _ {ℓ κ} {A : Type ℓ} {P Q : World → Type κ} where
  pub Leads-Undone : (m : M A) → Leads P Q m → Undone P Q m
  Leads-Undone m k = record { at = λ w p. OnError-weaken Q (m w) (k.at w p) }

  pub Undone-choice :
      (b : Bool) (m n : M A) → Undone P Q m → Undone P Q n → Undone P Q (if b then m else n)
  Undone-choice true m n k l = k
  Undone-choice false m n k l = l

module _ {ℓ κ} {A : Type ℓ} {P : World → Type κ} where
  pub Leads-lift : (r : Result BridgeError A) → Leads P P (lift r)
  Leads-lift r = record { at = λ w p. p }

  pub Leads-choice :
      (b : Bool) (m n : M A) → Leads P P m → Leads P P n → Leads P P (if b then m else n)
  Leads-choice true m n k l = k
  Leads-choice false m n k l = l

  pub Leads-query : Steady P → (g : World → A) → Leads P P (query g)
  unfolding query call
  Leads-query steady g = record {
    at = λ w p. elim (Bool-cases (next_fails w.faults)) [
      | inl fails ↦ rw fails (steady w (later_faults w.faults) p)
      | inr works ↦ rw works (steady w (later_faults w.faults) p)
    ];
  }

module _ {κ} {P : World → Type κ} where
  pub Leads-call : Steady P → Leads P P call
  unfolding call
  Leads-call steady = record { at = λ w p. steady w (later_faults w.faults) p }

module _ {κ} {P Q : World → Type κ} where
  -- The change happens, or the call fails and it does not.
  pub Leads-execute :
      Steady P
      → (g : World → World) → ((w : World) → P w → Q w)
      → ((w : World) → P w → Q (g w))
      → Leads P Q (execute g)
  unfolding execute call
  Leads-execute steady g weaken change = record {
    at = λ w p. elim (Bool-cases (next_fails w.faults)) [
      | inl fails ↦ rw fails (weaken _ (steady w (later_faults w.faults) p))
      | inr works ↦ rw works (change _ (steady w (later_faults w.faults) p))
    ];
  }

  pub Undone-execute :
      Steady P → ((w : World) → P w → Q w) → (g : World → World) → Undone P Q (execute g)
  unfolding execute call
  Undone-execute steady weaken g = record {
    at = λ w p. elim (Bool-cases (next_fails w.faults)) [
      | inl fails ↦ rw fails (weaken _ (steady w (later_faults w.faults) p))
      | inr works ↦ rw works tt
    ];
  }

module _ {ℓ κ} {A B : Type ℓ} (Q R : World → Type κ) where
  step_at :
      (o : World × Result BridgeError A) (f : A → M B)
      → OnError Q o
      → R o.0
      → ((a : A) → Undone R Q (f a))
      → OnError Q (continue f o)
  step_at (w, ok a) f q r k = (k a).at w r
  step_at (w, err e) f q r k = q
  step_at (w, panic) f q r k = q

module _ {ℓ κ} {A B : Type ℓ} {P Q R : World → Type κ} where
  pub Undone-step :
      (m : M A) (f : A → M B)
      → Undone P Q m
      → Leads P R m
      → ((a : A) → Undone R Q (f a))
      → Undone P Q (m >>= f)
  Undone-step m f u l k = record { at = λ w p. step_at Q R (m w) f (u.at w p) (l.at w p) k }

module _ {ℓ κ} {A B : Type ℓ} (Q : World → Type κ) where
  pure_at :
      (o : World × Result BridgeError A) (g : A → B)
      → OnError Q o
      → OnError Q (continue (λ a. pure (g a)) o)
  pure_at (w, ok a) g q = tt
  pure_at (w, err e) g q = q
  pure_at (w, panic) g q = q

module _ {ℓ κ} {A B : Type ℓ} {P Q : World → Type κ} where
  -- What is done with the value that a query reads may depend on where it comes from.
  pub Undone-read :
      Steady P
      → ((w : World) → P w → Q w)
      → (g : World → A) (f : A → M B) → ((w : World) → P w → OnError Q (f (g w) w))
      → Undone P Q (query g >>= f)
  unfolding query call
  Undone-read steady weaken g f k = record {
    at = λ w p.
        let spent = record w { faults = later_faults w.faults } in
        elim (Bool-cases (next_fails w.faults)) [
          | inl fails ↦ rw fails (weaken spent (steady w (later_faults w.faults) p))
          | inr works ↦ rw works (k spent (steady w (later_faults w.faults) p))
        ];
  }

  pub Undone-pure : (m : M A) (g : A → B) → Undone P Q m → Undone P Q (m >>= λ a. pure (g a))
  Undone-pure m g k = record { at = λ w p. pure_at Q (m w) g (k.at w p) }

module _ {ℓ κ} {A B : Type ℓ} {P Q : World → Type κ} where
  pub Undone-lift :
      (r : Result BridgeError A) (f : A → M B)
      → ((w : World) → P w → Q w)
      → ((a : A) → r ≡ ok a → Undone P Q (f a))
      → Undone P Q (lift r >>= f)
  Undone-lift (ok a) f weaken k = record { at = (k a refl).at }
  Undone-lift (err e) f weaken k = record { at = weaken }
  Undone-lift panic f weaken k = record { at = weaken }

-- A run that does not panic.
pub record Calm {ℓ} {A : Type ℓ} (m : M A) : Type ℓ where
  pub at : (w : World) → (m w).1 ≢ panic

module _ {ℓ} {A B : Type ℓ} where
  Calm-at :
      (o : World × Result BridgeError A) (f : A → M B)
      → o.1 ≢ panic
      → ((a : A) → Calm (f a))
      → (continue f o).1 ≢ panic
  Calm-at (w, ok a) f c k = (k a).at w
  Calm-at (w, err e) f c k = λ h. cc
  Calm-at (w, panic) f c k = absurd (c refl)

  pub Calm-chain : (m : M A) (f : A → M B) → Calm m → ((a : A) → Calm (f a)) → Calm (m >>= f)
  Calm-chain m f c k = record { at = λ w. Calm-at (m w) f (c.at w) k }

module _ {ℓ} {A : Type ℓ} where
  pub Calm-choice : (b : Bool) (m n : M A) → Calm m → Calm n → Calm (if b then m else n)
  Calm-choice true m n c d = c
  Calm-choice false m n c d = d

  pub Calm-pure : (a : A) → Calm (pure a)
  Calm-pure a = record { at = λ w h. cc }
