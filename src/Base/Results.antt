-- ===== src/Base/Results.antt =====
-- A Go result `(value, error)`: one of the two, over any type of errors.
use mathlib.Core.Path.{◌≡◌, refl}
use mathlib.Core.Bool.{Bool, true, false}
use mathlib.Core.Option.{Option, none, some}

pub data Outcome {ℓ κ} (E : Type κ) (A : Type ℓ) : Type (ℓ ⊔ κ) where
  ok : A → Outcome E A
  err : E → Outcome E A

module _ {ℓ κ μ} {E : Type κ} {A : Type ℓ} {B : Type μ} where
  infixl 5 ◌>>=◌
  abbrev pub ◌>>=◌ : Outcome E A → (A → Outcome E B) → Outcome E B
  ok a >>= f = f a
  err e >>= f = err e

module _ {κ μ} {E : Type κ} {B : Type μ} where
  infixl 5 ◌>>◌
  abbrev pub ◌>>◌ : Outcome E (Unit {0}) → Outcome E B → Outcome E B
  m >> k = m >>= λ _. k

-- `if cond { return err }`
abbrev pub reject_if {κ} : {E : Type κ} → Bool → E → Outcome E (Unit {0})
reject_if true e = err e
reject_if false e = ok tt

-- A row that a query returns, or the error that its absence is mapped to.
abbrev pub or_fail {ℓ κ} : {E : Type κ} {A : Type ℓ} → Option A → E → Outcome E A
or_fail none e = err e
or_fail (some a) e = ok a

-- Inversion of the steps of a successful run.
module _ {ℓ κ μ} {E : Type κ} {A : Type ℓ} {B : Type μ} where
  pub >>=-eq-ok :
      (m : Outcome E A) (f : A → Outcome E B) (b : B)
      → (m >>= f) ≡ ok b
      → (a : A) × (m ≡ ok a) × (f a ≡ ok b)
  >>=-eq-ok (ok a) f b h = (a, refl, h)
  >>=-eq-ok (err e) f b h = cc

module _ {κ μ} {E : Type κ} {B : Type μ} where
  pub >>-eq-ok :
      (m : Outcome E (Unit {0})) (k : Outcome E B) (b : B)
      → (m >> k) ≡ ok b
      → (m ≡ ok tt) × (k ≡ ok b)
  >>-eq-ok (ok u) k b h = (refl, h)
  >>-eq-ok (err e) k b h = cc

pub reject_if-ok {κ} : {E : Type κ} (c : Bool) (e : E) → reject_if c e ≡ ok tt → c ≡ false
reject_if-ok true e h = cc
reject_if-ok false e h = refl

pub or_fail-ok {ℓ κ} :
    {E : Type κ} {A : Type ℓ} (o : Option A) (e : E) (a : A) → or_fail o e ≡ ok a → o ≡ some a
or_fail-ok none e a h = cc
or_fail-ok (some b) e a h = cc

pub ok-injective {ℓ κ} :
    {E : Type κ} {A : Type ℓ} (a b : A) → ◌≡◌ {A = Outcome E A} (ok a) (ok b) → b ≡ a
ok-injective a b h = cc
