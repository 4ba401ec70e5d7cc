-- ===== src/Finances/Store.antt =====
-- backend/internal/finances/model.go and the queries of repository.go. Amounts are cents: the CHECK
-- constraints of the schema want them from 1 to 100000000, so a negative one, refused like 0, is not
-- modelled. Dates are day numbers. The columns that are joined for display are not modelled.
use team_manager.Base.{
  ℕ, ◌+◌, Bool, not, ◌&&◌, String, List, [], ◌∷◌, Option, none, some, ◌==◌, leb, any, count, select,
  Outcome, reject_if,
}

pub data TransactionType : Type 0 where
  income expense : TransactionType

pub record TransactionRow : Type 0 where
  pub id : ℕ
  pub team_id : ℕ
  pub type : TransactionType
  pub title : String
  pub amount : ℕ
  pub date : ℕ
  pub category : Option String
  pub contribution_id : Option ℕ
  pub penalty_assignment_id : Option ℕ
  pub note : Option String
  pub created_at : ℕ

pub record PenaltyRow : Type 0 where
  pub id : ℕ
  pub team_id : ℕ
  pub label : String
  pub amount : ℕ

pub record PenaltyAssignmentRow : Type 0 where
  pub id : ℕ
  pub team_id : ℕ
  pub user_id : ℕ
  pub penalty_id : Option ℕ
  pub date : ℕ
  pub note : Option String
  pub penalty_label : Option String
  pub penalty_amount : Option ℕ

pub record ContributionRow : Type 0 where
  pub id : ℕ
  pub team_id : ℕ
  pub user_id : ℕ
  pub name : String
  pub description : Option String
  pub amount : ℕ
  pub due_date : Option ℕ
  pub archived : Bool

pub record Store : Type 0 where
  pub transactions : List TransactionRow
  pub penalties : List PenaltyRow
  pub assignments : List PenaltyAssignmentRow
  pub contributions : List ContributionRow

pub data Error : Type 0 where
  no_rows check_violation too_many_transactions too_many_assignments : Error
  too_many_penalties too_many_contributions : Error
  penalty_not_in_team contribution_not_in_team penalty_assignment_not_in_team : Error
  contribution_requires_income penalty_assignment_requires_income : Error
  transaction_links_multiple_targets cannot_change_type_of_linked_transaction : Error
  user_not_in_team : ℕ → Error

abbrev pub Result {ℓ} : Type ℓ → Type ℓ
Result A = Outcome Error A

abbrev pub is_income : TransactionType → Bool
is_income income = Bool.true
is_income expense = Bool.false

-- The bound of the constraints …_amount_max.
abbrev pub max_amount : ℕ
max_amount = 100000000

-- The constraints …_amount_positive and …_amount_max.
abbrev pub amount_allowed : ℕ → Bool
amount_allowed n = leb 1 n && leb n max_amount

abbrev pub check_amount : ℕ → Result (Unit {0})
check_amount n = reject_if (not (amount_allowed n)) check_violation

-- `SUM(amount)`, 0 of no rows.
abbrev pub sum : List TransactionRow → ℕ
sum [] = 0
sum (t ∷ ts) = t.amount + sum ts

abbrev pub links_to : Option ℕ → ℕ → Bool
links_to none id = Bool.false
links_to (some k) id = k == id

-- The LATERAL subqueries: what the income linked to a contribution or an assignment sums up to.
unfoldable pub contribution_paid : Store → ℕ → ℕ
contribution_paid s id =
    sum (select (λ t. links_to t.contribution_id id && is_income t.type) s.transactions)

unfoldable pub assignment_paid_amount : Store → ℕ → ℕ
assignment_paid_amount s id =
    sum (select (λ t. links_to t.penalty_assignment_id id && is_income t.type) s.transactions)

unfoldable pub contribution_belongs_to_team : Store → ℕ → ℕ → Bool
contribution_belongs_to_team s id team = any (λ c. c.id == id && c.team_id == team) s.contributions

unfoldable pub penalty_assignment_belongs_to_team : Store → ℕ → ℕ → Bool
penalty_assignment_belongs_to_team s id team =
    any (λ a. a.id == id && a.team_id == team) s.assignments

unfoldable pub penalty_belongs_to_team : Store → ℕ → ℕ → Bool
penalty_belongs_to_team s id team = any (λ p. p.id == id && p.team_id == team) s.penalties

unfoldable pub count_transactions : Store → ℕ → ℕ
count_transactions s team = count (λ t. t.team_id == team) s.transactions
