-- ===== src/Auth/Run.antt =====
-- A Go function that runs statements one after another outside a transaction: what it has written
-- stays written when a later step fails. The monad of such functions.
use team_manager.Base.{◌≡◌, refl, Bool, true, false, Option, none, some, Outcome, ok, err}

abbrev pub Run {ℓ κ μ} : Type ℓ → Type κ → Type μ → Type (ℓ ⊔ κ ⊔ μ)
Run S E A = S → S × Outcome E A

module _ {ℓ κ} {S : Type ℓ} {E : Type κ} where
  abbrev pub return {μ} : {A : Type μ} → A → Run S E A
  return a s = (s, ok a)

  abbrev pub throw {μ} : {A : Type μ} → E → Run S E A
  throw e s = (s, err e)

  abbrev pub continue {μ ν} :
      {A : Type μ} {B : Type ν} → (A → Run S E B) → S × Outcome E A → S × Outcome E B
  continue f (s, ok a) = f a s
  continue f (s, err e) = (s, err e)

  infixl 5 ◌>>=◌
  abbrev pub ◌>>=◌ {μ ν} : {A : Type μ} {B : Type ν} → Run S E A → (A → Run S E B) → Run S E B
  (m >>= f) s = continue f (m s)

  infixl 5 ◌>>◌
  abbrev pub ◌>>◌ {ν} : {B : Type ν} → Run S E (Unit {0}) → Run S E B → Run S E B
  m >> k = m >>= λ _. k

  -- `if cond { return err }`
  abbrev pub throw_if : Bool → E → Run S E (Unit {0})
  throw_if true e s = (s, err e)
  throw_if false e s = (s, ok tt)

  abbrev pub from_row {μ} : {A : Type μ} → E → Option A → Run S E A
  from_row e none s = (s, err e)
  from_row e (some a) s = (s, ok a)

  -- A query, and the error that its lack of a row is mapped to.
  abbrev pub found_or {μ} : {A : Type μ} → (S → Option A) → E → Run S E A
  found_or q e s = from_row e (q s) s

  -- A query of which both results are used.
  abbrev pub ask {μ} : {A : Type μ} → (S → A) → Run S E A
  ask q s = (s, ok (q s))

  -- A step that succeeded, taken out of a run that did.
  pub >>=-eq-ok {μ ν} :
      {A : Type μ} {B : Type ν} (m : Run S E A) (f : A → Run S E B) (s s' : S) (b : B)
      → (m >>= f) s ≡ (s', ok b)
      → (s₁ : S) × (a : A) × (m s ≡ (s₁, ok a)) × (f a s₁ ≡ (s', ok b))
  >>=-eq-ok m f s s' b h = go (m s) refl h
    where
      go :
          (r : S × Outcome E _)
          → m s ≡ r
          → continue f r ≡ (s', ok b)
          → (s₁ : S) × (a : _) × (m s ≡ (s₁, ok a)) × (f a s₁ ≡ (s', ok b))
      go (s₁, ok a) e q = (s₁, a, e, q)
      go (s₁, err x) e q = cc

  pub throw_if-ok :
      (c : Bool) (e : E) (s s' : S) (u : Unit {0})
      → throw_if c e s ≡ (s', ok u)
      → (c ≡ false) × (s' ≡ s)
  throw_if-ok true e s s' u h = cc
  throw_if-ok false e s s' u h = (refl, cc)

  pub found_or-ok {μ} :
      {A : Type μ} (q : S → Option A) (e : E) (s s' : S) (a : A)
      → found_or q e s ≡ (s', ok a)
      → (q s ≡ some a) × (s' ≡ s)
  found_or-ok q e s s' a h = go (q s) refl h
    where
      go : (o : Option _) → q s ≡ o → from_row e o s ≡ (s', ok a) → (q s ≡ some a) × (s' ≡ s)
      go none p h = cc
      go (some b) p h = (cc, cc)

-- The parts of an equation of successful results.
pub ok_pair {ℓ κ μ ν} :
    {S : Type ℓ} {E : Type κ} {A : Type μ} {B : Type ν} (s s' : S) (a a' : A) (b b' : B)
    → ◌≡◌ {A = S × Outcome E (A × B)} (s, ok (a, b)) (s', ok (a', b'))
    → (s ≡ s') × (b ≡ b')
ok_pair s s' a a' b b' h = (cc h, cc h)
