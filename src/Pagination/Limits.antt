-- ===== src/Pagination/Limits.antt =====
-- ParseLimit and Parse of backend/internal/pagination/pagination.go. A Go int is a sign and a number.
use team_manager.Base.{ℕ, ◌≤◌, ◌≡◌, refl, Option, none, some, ltb, if◌then◌else◌, arith}

-- `negsuc n` is -(n + 1).
pub data ℤ : Type 0 where
  pos : ℕ → ℤ
  negsuc : ℕ → ℤ

abbrev pub default_limit : ℕ
default_limit = 50

abbrev pub max_limit : ℕ
max_limit = 500

-- `p != nil && *p > 0`, with the value.
abbrev pub positive : Option ℤ → Option ℕ
positive none = none
positive (some (pos n)) = if ltb 0 n then some n else none
positive (some (negsuc n)) = none

unfoldable pub parse_limit : Option ℤ → ℕ
parse_limit limit = elim (positive limit) [
  | none ↦ default_limit
  | some l ↦ if ltb max_limit l then max_limit else l
]

unfoldable pub parse : Option ℤ → Option ℤ → ℕ × ℕ
parse limit offset = (
  elim (positive limit) [
    | none ↦ default_limit
    | some l ↦ if ltb max_limit l then max_limit else l
  ],
  elim (positive offset) [ none ↦ 0 | some o ↦ o ],
)

-- ParseLimit returns a limit from 1 to 500, whatever the parameter is; it returns a parameter in that
-- range unchanged; and Parse returns the same limit.
pub parse_limit-bounds :
    (limit offset : Option ℤ)
    → (1 ≤ parse_limit limit)
      × (parse_limit limit ≤ max_limit)
      × ((n : ℕ) → limit ≡ some (pos n) → 1 ≤ n → n ≤ max_limit → parse_limit limit ≡ n)
      × ((parse limit offset).0 ≡ parse_limit limit)
unfolding parse_limit parse
parse_limit-bounds none offset = (omega arith, omega arith, λ n e. cc, refl)
parse_limit-bounds (some (negsuc k)) offset = (omega arith, omega arith, λ n e. cc, refl)
parse_limit-bounds (some (pos k)) offset =
    (ground arith, ground arith, λ n e le ge. let q : k ≡ n = cc e in ground arith, refl)
