-- ===== src/Base/Ids.antt =====
-- Lists of identifiers (UUIDs are numbers here, since the code only compares them): the loop with a
-- `seen` map that dedupeUUIDs, dedupeStrings and dedupTeamIDs share.
use Prim.Native.Nat.{ℕ}
use mathlib.Core.Path.{◌≡◌, refl}
use mathlib.Core.Logic.{inl, inr, ◌≢◌}
use mathlib.Core.Bool.{Bool, true, not, ◌&&◌}
use mathlib.Core.List.{List, [], ◌∷◌}
use native.Mathlib.Omega.{arith}
use team_manager.Base.Tests.{if◌then◌else◌, Bool-cases, ◌==◌, ==_iff, ==_refl}
use team_manager.Base.Rows.{In, All, All-of_In, any, any_witness, any-In}
use team_manager.Base.Keys.{Distinct}

abbrev pub contains : List ℕ → ℕ → Bool
contains xs x = any (λ y. y == x) xs

-- `seen` holds the identifiers met so far.
unfoldable pub dedupe_from : List ℕ → List ℕ → List ℕ
dedupe_from seen [] = []
dedupe_from seen (x ∷ xs) =
    if contains seen x then dedupe_from seen xs else x ∷ dedupe_from (x ∷ seen) xs

pub contains→In : (xs : List ℕ) (x : ℕ) → contains xs x ≡ true → In x xs
contains→In xs x h =
    let (y, i, e) = any_witness (λ z. z == x) xs h in subst_In xs ((==_iff y x).0 e) i
  where
    subst_In : (zs : List ℕ) {y : ℕ} → y ≡ x → In y zs → In x zs
    subst_In zs e i = rw (← e) i

pub In→contains : (xs : List ℕ) (x : ℕ) → In x xs → contains xs x ≡ true
In→contains xs x i = any-In (λ z. z == x) x xs i (==_refl x)

-- The result holds the elements of `xs` that are not in `seen`.
pub contains-dedupe_from :
    (seen xs : List ℕ) (x : ℕ)
    → contains (dedupe_from seen xs) x ≡ (contains xs x && not (contains seen x))
unfolding dedupe_from
contains-dedupe_from seen [] x = refl
contains-dedupe_from seen (y ∷ ys) x = elim (Bool-cases (contains seen y)) [
  | inl e ↦ ground (arith, contains-dedupe_from seen ys x)
  | inr e ↦ ground (arith, contains-dedupe_from (y ∷ seen) ys x)
]

pub dedupe_from-Distinct : (seen xs : List ℕ) → Distinct (λ x. x) (dedupe_from seen xs)
unfolding dedupe_from
dedupe_from-Distinct seen [] = tt
dedupe_from-Distinct seen (y ∷ ys) = elim (Bool-cases (contains seen y)) [
  | inl e ↦ rw e (dedupe_from-Distinct seen ys)
  | inr e ↦ rw e (fresh, dedupe_from-Distinct (y ∷ seen) ys)
]
  where
    fresh : All (λ x. y ≢ x) (dedupe_from (y ∷ seen) ys)
    fresh = All-of_In _ (dedupe_from (y ∷ seen) ys) λ x i e.
        ground
          (arith, contains-dedupe_from (y ∷ seen) ys x, In→contains (dedupe_from (y ∷ seen) ys) x i)
