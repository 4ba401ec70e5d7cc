-- ===== src/Finances/Transactions.antt =====
-- Transactions: CreateTransaction, UpdateTransaction and DeleteTransaction of
-- backend/internal/finances/service.go with their queries in repository.go.
use team_manager.Base.{
  ℕ, Bool, not, ◌&&◌, ◌||◌, String, ◌∷◌, Option, none, some, ◌==◌, leb, any, delete, find, update,
  if◌then◌else◌, is_some, or_default, ok, ◌>>◌, ◌>>=◌, reject_if, or_fail,
}
use team_manager.Finances.Store.{
  TransactionType, TransactionRow, Store, Result, no_rows, too_many_transactions,
  contribution_not_in_team, penalty_assignment_not_in_team, contribution_requires_income,
  penalty_assignment_requires_income, transaction_links_multiple_targets,
  cannot_change_type_of_linked_transaction, is_income, check_amount, count_transactions,
  contribution_belongs_to_team, penalty_assignment_belongs_to_team,
}

-- gen.CreateTransactionJSONRequestBody
pub record CreateTransaction : Type 0 where
  pub type : TransactionType
  pub title : String
  pub amount : ℕ
  pub date : Option ℕ
  pub category : Option String
  pub contribution_id : Option ℕ
  pub penalty_assignment_id : Option ℕ
  pub note : Option String

abbrev pub max_transactions_per_team : ℕ
max_transactions_per_team = 100000

unfoldable pub check_contribution_link : Store → ℕ → CreateTransaction → Result (Unit {0})
check_contribution_link s team body = elim body.contribution_id [
  | none ↦ ok tt
  | some c ↦
      reject_if (not (is_income body.type)) contribution_requires_income
      >> reject_if (not (contribution_belongs_to_team s c team)) contribution_not_in_team
]

unfoldable pub check_assignment_link : Store → ℕ → CreateTransaction → Result (Unit {0})
check_assignment_link s team body = elim body.penalty_assignment_id [
  | none ↦ ok tt
  | some a ↦
      reject_if (not (is_income body.type)) penalty_assignment_requires_income
      >> reject_if (not (penalty_assignment_belongs_to_team s a team))
          penalty_assignment_not_in_team
]

abbrev pub new_transaction : ℕ → ℕ → ℕ → CreateTransaction → TransactionRow
new_transaction new_id now team body = record {
  id = new_id;
  team_id = team;
  type = body.type;
  title = body.title;
  amount = body.amount;
  date = or_default body.date now;
  category = body.category;
  contribution_id = body.contribution_id;
  penalty_assignment_id = body.penalty_assignment_id;
  note = body.note;
  created_at = now;
}

-- `new_id` and `now` are the generated key and today.
unfoldable pub create_transaction :
    Store → ℕ → ℕ → ℕ → CreateTransaction → Result (TransactionRow × Store)
unfolding check_contribution_link check_assignment_link
create_transaction s new_id now team body =
    let row = new_transaction new_id now team body in
    reject_if (leb max_transactions_per_team (count_transactions s team)) too_many_transactions
    >> reject_if (is_some body.contribution_id && is_some body.penalty_assignment_id)
        transaction_links_multiple_targets
    >> check_contribution_link s team body
    >> check_assignment_link s team body
    >> check_amount body.amount
    >> ok (row, record s { transactions = row ∷ s.transactions })

pub record TransactionPatch : Type 0 where
  pub type : Option TransactionType
  pub title : Option String
  pub amount : Option ℕ
  pub category : Option String
  pub date : Option ℕ
  pub note : Option String

abbrev pub is_transaction : ℕ → ℕ → TransactionRow → Bool
is_transaction id team t = t.id == id && t.team_id == team

abbrev pub is_linked : TransactionRow → Bool
is_linked t = is_some t.contribution_id || is_some t.penalty_assignment_id

-- The columns that the patch sets; the UPDATE of a patch that sets none is not made, and leaves the
-- row as it is too.
unfoldable pub patch_transaction : TransactionPatch → TransactionRow → TransactionRow
patch_transaction patch t = record t {
  type = or_default patch.type t.type;
  title = or_default patch.title t.title;
  amount = or_default patch.amount t.amount;
  category = if is_some patch.category then patch.category else t.category;
  date = or_default patch.date t.date;
  note = if is_some patch.note then patch.note else t.note;
}

-- The guard of UpdateTransaction on a patch that moves the type away from income.
unfoldable pub guard_type_change : Store → ℕ → ℕ → TransactionPatch → Result (Unit {0})
guard_type_change s id team patch =
    if is_income (or_default patch.type TransactionType.income)
    then ok tt
    else or_fail (find (is_transaction id team) s.transactions) no_rows >>= λ existing.
        reject_if (is_linked existing) cannot_change_type_of_linked_transaction

unfoldable pub update_transaction :
    Store → ℕ → ℕ → TransactionPatch → Result (TransactionRow × Store)
unfolding guard_type_change patch_transaction
update_transaction s id team patch = do
  guard_type_change s id team patch
  t ← or_fail (find (is_transaction id team) s.transactions) no_rows
  check_amount (patch_transaction patch t).amount
  ok (
    patch_transaction patch t,
    record s {
      transactions = update (is_transaction id team) (patch_transaction patch) s.transactions;
    },
  )

unfoldable pub delete_transaction : Store → ℕ → ℕ → Result Store
delete_transaction s id team =
    reject_if (not (any (is_transaction id team) s.transactions)) no_rows
    >> ok (record s { transactions = delete (is_transaction id team) s.transactions })
