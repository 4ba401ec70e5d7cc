-- ===== src/Base/Rows.antt =====
-- Tables as lists of rows, with the queries that the repositories make of them.
use Prim.Native.Nat.{ℕ, suc}
use mathlib.Core.Path.{◌≡◌, refl, ap, subst}
use mathlib.Core.Logic.{◌⊎◌, ◌↔◌, inl, inr}
use mathlib.Core.Bool.{Bool, true, false, not, ◌||◌}
use mathlib.Core.Option.{Option, none, some}
use mathlib.Core.List.{List, [], ◌∷◌, ◌++◌, map}
use native.Mathlib.Omega.{arith}
use team_manager.Base.Tests.{if◌then◌else◌, Bool-cases}

-- `x` is a row of the table. Rows are data of `Type 0`, where `⊥` is.
abbrev pub In : {A : Type 0} → A → List A → Type 0
In x [] = ⊥
In x (y ∷ ys) = (x ≡ y) ⊎ In x ys

abbrev pub All {ℓ κ} : {A : Type ℓ} → (A → Type κ) → List A → Type κ
All P [] = Unit
All P (x ∷ xs) = P x × All P xs

module _ {A : Type 0} where
  -- `EXISTS (SELECT 1 FROM xs WHERE p)`
  abbrev pub any : (A → Bool) → List A → Bool
  any p [] = false
  any p (x ∷ xs) = p x || any p xs

  -- `SELECT … FROM xs WHERE p`, in the order of the table.
  abbrev pub select : (A → Bool) → List A → List A
  select p [] = []
  select p (x ∷ xs) = if p x then x ∷ select p xs else select p xs

  -- `DELETE FROM xs WHERE p`
  abbrev pub delete : (A → Bool) → List A → List A
  delete p xs = select (λ x. not (p x)) xs

  -- `SELECT COUNT(*) FROM xs WHERE p`
  abbrev pub count : (A → Bool) → List A → ℕ
  count p [] = 0
  count p (x ∷ xs) = if p x then suc (count p xs) else count p xs

  -- `SELECT … WHERE p`, read by `QueryRow`: the first row, or `pgx.ErrNoRows`.
  abbrev pub find : (A → Bool) → List A → Option A
  find p [] = none
  find p (x ∷ xs) = if p x then some x else find p xs

  -- `UPDATE xs SET … WHERE p`
  abbrev pub update : (A → Bool) → (A → A) → List A → List A
  update p f [] = []
  update p f (x ∷ xs) = (if p x then f x else x) ∷ update p f xs

  pub any-In : (p : A → Bool) (x : A) (xs : List A) → In x xs → p x ≡ true → any p xs ≡ true
  any-In p x [] i h = elim i [ ]
  any-In p x (y ∷ ys) (inl e) h = rw (← e, h)
  any-In p x (y ∷ ys) (inr i) h = ground (arith, any-In p x ys i h)

  pub any_witness :
      (p : A → Bool) (xs : List A) → any p xs ≡ true → (x : A) × In x xs × (p x ≡ true)
  any_witness p [] h = cc
  any_witness p (x ∷ xs) h = elim (Bool-cases (p x)) [
    | inl e ↦ (x, inl refl, e)
    | inr e ↦ let (y, i, q) = any_witness p xs (rw e at h) in (y, inr i, q)
  ]

  pub any-false : (p : A → Bool) (x : A) (xs : List A) → any p xs ≡ false → In x xs → p x ≡ false
  any-false p x xs h i = elim (Bool-cases (p x)) [ inl e ↦ cc (any-In p x xs i e) | inr e ↦ e ]

  pub find-In : (p : A → Bool) (x : A) (xs : List A) → find p xs ≡ some x → In x xs × (p x ≡ true)
  find-In p x [] h = cc
  find-In p x (y ∷ ys) h = elim (Bool-cases (p y)) [
    | inl e ↦ ground arith
    | inr e ↦ let (i, q) = find-In p x ys (rw e at h) in (inr i, q)
  ]

  pub find-none : (p : A → Bool) (x : A) (xs : List A) → find p xs ≡ none → In x xs → p x ≡ false
  find-none p x [] h i = elim i [ ]
  find-none p x (y ∷ ys) h (inl e) = ground arith
  find-none p x (y ∷ ys) h (inr i) = ground (arith, find-none p x ys)

  pub In-select : (p : A → Bool) (x : A) (xs : List A) → In x xs → p x ≡ true → In x (select p xs)
  In-select p x [] i h = elim i [ ]
  In-select p x (y ∷ ys) (inl e) h = rw (← e, h) (inl refl)
  In-select p x (y ∷ ys) (inr i) h = elim (Bool-cases (p y)) [
    | inl e ↦ rw e (inr (In-select p x ys i h))
    | inr e ↦ rw e (In-select p x ys i h)
  ]

  pub select-In : (p : A → Bool) (x : A) (xs : List A) → In x (select p xs) → In x xs × (p x ≡ true)
  select-In p x [] i = elim i [ ]
  select-In p x (y ∷ ys) i = elim (Bool-cases (p y)) [
    | inl e ↦ elim (rw e at i) [
      | inl q ↦ (inl q, rw q e)
      | inr j ↦ let (k, q) = select-In p x ys j in (inr k, q)
    ]
    | inr e ↦ let (k, q) = select-In p x ys (rw e at i) in (inr k, q)
  ]

  pub In-append_right : (x : A) (xs ys : List A) → In x ys → In x (xs ++ ys)
  In-append_right x [] ys i = i
  In-append_right x (z ∷ zs) ys i = inr (In-append_right x zs ys i)

  pub In-append_left : (x : A) (xs ys : List A) → In x xs → In x (xs ++ ys)
  In-append_left x [] ys i = elim i [ ]
  In-append_left x (z ∷ zs) ys (inl e) = inl e
  In-append_left x (z ∷ zs) ys (inr i) = inr (In-append_left x zs ys i)

  pub append-In : (x : A) (xs ys : List A) → In x (xs ++ ys) → In x xs ⊎ In x ys
  append-In x [] ys i = inr i
  append-In x (z ∷ zs) ys (inl e) = inl (inl e)
  append-In x (z ∷ zs) ys (inr i) = elim (append-In x zs ys i) [
    | inl j ↦ inl (inr j)
    | inr j ↦ inr j
  ]

  -- A row of the updated table, before the update.
  pub In-update :
      (p : A → Bool) (f : A → A) (x : A) (xs : List A)
      → In x xs
      → In (if p x then f x else x) (update p f xs)
  In-update p f x [] i = elim i [ ]
  In-update p f x (y ∷ ys) (inl e) = inl (ap (λ z. if p z then f z else z) e)
  In-update p f x (y ∷ ys) (inr i) = inr (In-update p f x ys i)

  pub update-In :
      (p : A → Bool) (f : A → A) (y : A) (xs : List A)
      → In y (update p f xs)
      → (x : A) × In x xs × (y ≡ (if p x then f x else x))
  update-In p f y [] i = elim i [ ]
  update-In p f y (x ∷ xs) (inl e) = (x, inl refl, e)
  update-In p f y (x ∷ xs) (inr i) = let (z, j, q) = update-In p f y xs i in (z, inr j, q)

-- A row outside the update stays, and no changed row takes its place.
pub In-update_other :
    {A : Type 0} (p : A → Bool) (f : A → A) (x : A) (xs : List A)
    → ((y : A) → p y ≡ true → p (f y) ≡ true)
    → p x ≡ false
    → In x xs ↔ In x (update p f xs)
In-update_other p f x xs keep out = (
  λ i. subst (λ y. In y (update p f xs)) (rw out) (In-update p f x xs i),
  λ i.
      let (y, j, e) = update-In p f x xs i in
      elim (Bool-cases (p y)) [
        | inl q ↦ absurd (ground (arith, keep y q, out, rw q at e))
        | inr q ↦ rw (rw q at e) j
      ],
)

module _ {κ} {A : Type 0} (P : A → Type κ) where
  pub All-In : (x : A) (xs : List A) → All P xs → In x xs → P x
  All-In x [] h i = elim i [ ]
  All-In x (y ∷ ys) h (inl e) = rw e h.0
  All-In x (y ∷ ys) h (inr i) = All-In x ys h.1 i

  pub All-of_In : (xs : List A) → ((x : A) → In x xs → P x) → All P xs
  All-of_In [] h = tt
  All-of_In (x ∷ xs) h = (h x (inl refl), All-of_In xs (λ y i. h y (inr i)))

-- Rows that are not deleted stay.
pub In-delete :
    {A : Type 0} (p : A → Bool) (x : A) (xs : List A) → In x xs → p x ≡ false → In x (delete p xs)
In-delete p x xs i h = In-select (λ y. not (p y)) x xs i (rw h)

pub delete-In :
    {A : Type 0} (p : A → Bool) (x : A) (xs : List A) → In x (delete p xs) → In x xs × (p x ≡ false)
delete-In p x xs i = let (j, e) = select-In (λ y. not (p y)) x xs i in (j, ground arith)

pub In-map : {A B : Type 0} (f : A → B) (x : A) (xs : List A) → In x xs → In (f x) (map f xs)
In-map f x [] i = elim i [ ]
In-map f x (y ∷ ys) (inl e) = inl (ap f e)
In-map f x (y ∷ ys) (inr i) = inr (In-map f x ys i)

pub map-In :
    {A B : Type 0} (f : A → B) (y : B) (xs : List A)
    → In y (map f xs)
    → (x : A) × In x xs × (y ≡ f x)
map-In f y [] i = elim i [ ]
map-In f y (x ∷ xs) (inl e) = (x, inl refl, e)
map-In f y (x ∷ xs) (inr i) = let (z, j, q) = map-In f y xs i in (z, inr j, q)
