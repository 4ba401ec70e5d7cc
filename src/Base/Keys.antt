-- ===== src/Base/Keys.antt =====
-- Tables with a key: the PRIMARY KEY and UNIQUE constraints of the schema.
use Prim.Native.Nat.{ℕ, ◌+◌, ◌≤◌}
use mathlib.Core.Path.{◌≡◌, refl, sym, ap, ◌∙◌, subst}
use mathlib.Core.Logic.{inl, inr, ◌≢◌}
use mathlib.Core.Bool.{Bool, true, false, ◌&&◌}
use mathlib.Core.List.{List, [], ◌∷◌}
use native.Mathlib.Omega.{arith}
use team_manager.Base.Tests.{if◌then◌else◌, Bool-cases, ◌==◌, ==_ne, ==_iff, and_true}
use team_manager.Base.Lists.{length}
use team_manager.Base.Rows.{
  In, All, All-In, All-of_In, any, any-false, select, select-In, update, update-In, count,
}

-- No two rows share a key: the table's PRIMARY KEY or UNIQUE constraint.
abbrev pub Distinct : {A : Type 0} → (A → ℕ) → List A → Type 0
Distinct key [] = Unit
Distinct key (x ∷ xs) = All (λ y. key x ≢ key y) xs × Distinct key xs

module _ {A : Type 0} (key : A → ℕ) where
  pub Distinct-eq :
      (x y : A) (xs : List A) → Distinct key xs → In x xs → In y xs → key x ≡ key y → x ≡ y
  Distinct-eq x y [] d i j e = elim i [ ]
  Distinct-eq x y (z ∷ zs) d (inl p) (inl q) e = p ∙ sym q
  Distinct-eq x y (z ∷ zs) d (inl p) (inr j) e = absurd (All-In _ y zs d.0 j (sym (ap key p) ∙ e))
  Distinct-eq x y (z ∷ zs) d (inr i) (inl q) e =
      absurd (All-In _ x zs d.0 i (sym (ap key q) ∙ sym e))
  Distinct-eq x y (z ∷ zs) d (inr i) (inr j) e = Distinct-eq x y zs d.1 i j e

  pub Distinct-select : (p : A → Bool) (xs : List A) → Distinct key xs → Distinct key (select p xs)
  Distinct-select p [] d = tt
  Distinct-select p (x ∷ xs) d = elim (Bool-cases (p x)) [
    | inl e ↦ rw e (
      All-of_In _ (select p xs) (λ y i. All-In _ y xs d.0 (select-In p y xs i).0),
      Distinct-select p xs d.1,
    )
    | inr e ↦ rw e (Distinct-select p xs d.1)
  ]

  pub Distinct-update :
      (p : A → Bool) (f : A → A) (xs : List A)
      → ((x : A) → key (f x) ≡ key x)
      → Distinct key xs
      → Distinct key (update p f xs)
  Distinct-update p f [] same d = tt
  Distinct-update p f (x ∷ xs) same d = (
    All-of_In _ (update p f xs) (λ y i.
        let (z, j, e) = update-In p f y xs i in
        λ h. All-In _ z xs d.0 j (sym (key-if x) ∙ h ∙ ap key e ∙ key-if z)),
    Distinct-update p f xs same d.1,
  )
    where
      key-if : (y : A) → key (if p y then f y else y) ≡ key y
      key-if y = elim (Bool-cases (p y)) [ inl e ↦ rw e (same y) | inr e ↦ rw e ]

  pub Distinct-cons :
      (x : A) (xs : List A)
      → any (λ y. key y == key x) xs ≡ false
      → Distinct key xs
      → Distinct key (x ∷ xs)
  Distinct-cons x xs fresh d = (
    All-of_In _ xs
        (λ y i e. ==_ne (key y) (key x) (any-false (λ z. key z == key x) y xs fresh i) (sym e)),
    d,
  )

not_both :
    (k : ℕ) (ks : List ℕ) (m : ℕ)
    → any (λ j. j == k) ks ≡ false
    → k ≡ m
    → any (λ j. j == m) ks ≡ false
not_both k ks m h e = rw (← e) h

not_any : (k : ℕ) (ks : List ℕ) → All (λ j. k ≢ j) ks → any (λ j. j == k) ks ≡ false
not_any k [] h = refl
not_any k (j ∷ js) h = ground (arith, not_any k js h.1, h.0)

count_pos :
    {A : Type 0} (q : A → Bool) (xs : List A) → count q xs ≢ 0 → (x : A) × In x xs × (q x ≡ true)
count_pos q [] h = absurd (h refl)
count_pos q (x ∷ xs) h = elim (Bool-cases (q x)) [
  | inl e ↦ (x, inl refl, e)
  | inr e ↦ let (y, i, k) = count_pos q xs (rw e at h) in (y, inr i, k)
]

count_false : {A : Type 0} (xs : List A) → count (λ x. false) xs ≡ 0
count_false [] = refl
count_false (x ∷ xs) = count_false xs

-- A key table of numbers: at most one row has the key, so a count over a set of keys that reaches
-- its size has a row for each of them.
module _ {A : Type 0} (key : A → ℕ) (p : A → Bool) where
  abbrev pub count_keys : List ℕ → List A → ℕ
  count_keys ks xs = count (λ x. any (λ k. k == key x) ks && p x) xs

  count_keys-cons :
      (k : ℕ) (ks : List ℕ) (xs : List A)
      → any (λ j. j == k) ks ≡ false
      → count_keys (k ∷ ks) xs ≡ count (λ x. k == key x && p x) xs + count_keys ks xs
  count_keys-cons k ks [] h = omega arith
  count_keys-cons k ks (x ∷ xs) h =
      ground (arith, count_keys-cons k ks xs h, not_both k ks (key x) h)

  count_none :
      (k : ℕ) (xs : List A) → All (λ y. k ≢ key y) xs → count (λ x. k == key x && p x) xs ≡ 0
  count_none k [] h = refl
  count_none k (x ∷ xs) h = ground (arith, count_none k xs h.1, h.0)

  count_key-le_one : (k : ℕ) (xs : List A) → Distinct key xs → count (λ x. k == key x && p x) xs ≤ 1
  count_key-le_one k [] d = omega arith
  count_key-le_one k (x ∷ xs) d = elim (Bool-cases (k == key x)) [
    | inl e ↦
        let eq : k ≡ key x = (==_iff k (key x)).0 e in
        ground (arith, count_none k xs (subst (λ z. All (λ y. z ≢ key y) xs) (sym eq) d.0))
    | inr e ↦ ground (arith, count_key-le_one k xs d.1)
  ]

  count_keys-le-length :
      (ks : List ℕ) (xs : List A)
      → Distinct (λ k. k) ks
      → Distinct key xs
      → count_keys ks xs ≤ length ks
  count_keys-le-length [] xs dk d = omega (arith, count_false xs)
  count_keys-le-length (k ∷ ks) xs dk d = omega (
    arith,
    count_keys-cons k ks xs (not_any k ks dk.0),
    count_key-le_one k xs d,
    count_keys-le-length ks xs dk.1 d,
  )

  pub count_keys-full :
      (ks : List ℕ) (xs : List A)
      → Distinct (λ k. k) ks
      → Distinct key xs
      → count_keys ks xs ≡ length ks
      → (k : ℕ) → In k ks
      → (x : A) × In x xs × (key x ≡ k) × (p x ≡ true)
  count_keys-full [] xs dk d full k i = elim i [ ]
  count_keys-full (j ∷ ks) xs dk d full k i =
      let split = count_keys-cons j ks xs (not_any j ks dk.0) in
      let one = count_key-le_one j xs d in
      let most = count_keys-le-length ks xs dk.1 d in
      elim i [
        | inl e ↦
            let (x, l, h) = count_pos (λ y. j == key y && p y) xs (omega arith) in
            let (h₁, h₂) = and_true (j == key x) (p x) h in
            (x, l, sym ((==_iff j (key x)).0 h₁) ∙ sym e, h₂)
        | inr l ↦ count_keys-full ks xs dk.1 d (omega arith) k l
      ]
