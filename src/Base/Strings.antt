-- ===== src/Base/Strings.antt =====
-- Go strings that the code takes apart, as lists of bytes, with the functions of package strings
-- that it calls.
use Prim.Native.Nat.{ℕ, suc}
use mathlib.Core.Path.{◌≡◌, refl}
use mathlib.Core.Bool.{Bool, true, false, ◌&&◌}
use mathlib.Core.Option.{Option, none, some}
use mathlib.Core.List.{List, [], ◌∷◌}
use native.Mathlib.Omega.{arith}
use team_manager.Base.Tests.{if◌then◌else◌, ◌==◌}

abbrev pub Bytes : Type 0
Bytes = List ℕ

abbrev pub bytes_eq : Bytes → Bytes → Bool
bytes_eq [] [] = true
bytes_eq (x ∷ xs) (y ∷ ys) = (x == y) && bytes_eq xs ys
bytes_eq _ _ = false

-- strings.HasPrefix
abbrev pub has_prefix : Bytes → Bytes → Bool
has_prefix s [] = true
has_prefix [] (p ∷ ps) = false
has_prefix (c ∷ cs) (p ∷ ps) = (c == p) && has_prefix cs ps

-- strings.Index; `none` is -1.
unfoldable pub index_of : Bytes → Bytes → Option ℕ
index_of [] sub = if has_prefix [] sub then some 0 else none
index_of (c ∷ cs) sub =
    let rest = index_of cs sub in
    if has_prefix (c ∷ cs) sub then some 0 else elim rest [ none ↦ none | some i ↦ some (suc i) ]

-- strings.TrimLeft of one byte.
unfoldable pub trim_left : ℕ → Bytes → Bytes
trim_left c [] = []
trim_left c (x ∷ xs) = let rest = trim_left c xs in if x == c then rest else x ∷ xs

-- strings.TrimRight of one byte: the trailing run is dropped.
unfoldable pub trim_right : ℕ → Bytes → Bytes
trim_right c [] = []
trim_right c (x ∷ xs) = elim (trim_right c xs) [
  | [] ↦ if x == c then [] else x ∷ []
  | y ∷ ys ↦ x ∷ y ∷ ys
]

-- strings.Split at one byte: the segments, of which there is at least one.
unfoldable pub split_at : ℕ → Bytes → List Bytes
split_at c [] = [] ∷ []
split_at c (x ∷ xs) = elim (split_at c xs) [
  | [] ↦ (x ∷ []) ∷ []
  | s ∷ ss ↦ if x == c then [] ∷ s ∷ ss else (x ∷ s) ∷ ss
]

-- strings.LastIndex of one byte, as the parts before and after it.
unfoldable pub split_last : ℕ → Bytes → Option (Bytes × Bytes)
split_last c [] = none
split_last c (x ∷ xs) = elim (split_last c xs) [
  | some p ↦ some (x ∷ p.0, p.1)
  | none ↦ if x == c then some ([], xs) else none
]

pub bytes_eq_iff : (xs ys : Bytes) → bytes_eq xs ys ≡ true → xs ≡ ys
bytes_eq_iff [] [] h = refl
bytes_eq_iff [] (y ∷ ys) h = cc
bytes_eq_iff (x ∷ xs) [] h = cc
bytes_eq_iff (x ∷ xs) (y ∷ ys) h = ground (arith, bytes_eq_iff xs ys)

pub bytes_eq_refl : (xs : Bytes) → bytes_eq xs xs ≡ true
bytes_eq_refl [] = refl
bytes_eq_refl (x ∷ xs) = ground (arith, bytes_eq_refl xs)
