-- ===== src/Prelude/Outcome.antt =====
-- exceptions.h and assertions.h: what a call that may throw returns. A thrown exception ends the
-- call; `undefined_behavior` marks a use of an uninitialised pointer or of one that points to no
-- object, `blocked` a wait that never ends, and `out_of_fuel` a loop of the model that was given too
-- few rounds.
use mathlib.Core.Path.{◌≡◌, refl}
use mathlib.Core.Bool.{Bool, true, false}

pub data Error : Type 0 where
  assertion_failure existent_key key_not_found undefined_behavior blocked out_of_fuel : Error

pub data Outcome {ℓ} (A : Type ℓ) : Type ℓ where
  ok : A → Outcome A
  throw : Error → Outcome A

infixl 5 ◌>>=◌ ◌>>◌
abbrev pub ◌>>=◌ {ℓ κ} : {A : Type ℓ} {B : Type κ} → Outcome A → (A → Outcome B) → Outcome B
ok a >>= f = f a
throw e >>= f = throw e

abbrev pub ◌>>◌ {ℓ} : {B : Type ℓ} → Outcome (Unit {0}) → Outcome B → Outcome B
m >> k = m >>= λ _. k

-- `assert<1>(condition)`, compiled in at the default debug level 1.
abbrev pub assert : Bool → Outcome (Unit {0})
assert true = ok tt
assert false = throw assertion_failure

-- The call returns, and its result has the property.
abbrev pub Returns {ℓ} : {A : Type ℓ} → Outcome A → (A → Type 0) → Type 0
Returns (ok a) P = P a
Returns (throw _) P = ⊥

pub Returns-inv {ℓ} :
    {A : Type ℓ} (m : Outcome A) (P : A → Type 0) → Returns m P → (a : A) × (m ≡ ok a) × P a
Returns-inv (ok a) P h = (a, refl, h)
Returns-inv (throw e) P h = absurd h

pub Returns->>= :
    {A B : Type 0} (m : Outcome A) (f : A → Outcome B) (P : A → Type 0) (Q : B → Type 0)
    → Returns m P
    → ((a : A) → P a → Returns (f a) Q)
    → Returns (m >>= f) Q
Returns->>= (ok a) f P Q h next = next a h
Returns->>= (throw e) f P Q h next = absurd h
