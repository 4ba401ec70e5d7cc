-- ===== src/Finances/Penalties.antt =====
-- Penalties and their assignments: CreatePenalty, UpdatePenalty, DeletePenalty, CreateAssignment and
-- DeleteAssignment of backend/internal/finances/service.go with their queries in repository.go.
-- Memberships are those of the roster.
use team_manager.Base.{
  ℕ, Bool, not, ◌&&◌, String, List, ◌∷◌, Option, none, some, ◌==◌, leb, any, count, delete, find,
  update, or_default, ok, ◌>>◌, ◌>>=◌, reject_if, or_fail,
}
use team_manager.Roster.Db.{Db}
use team_manager.Roster.Queries.{is_member}
use team_manager.Finances.Store.{
  TransactionRow, PenaltyRow, PenaltyAssignmentRow, Store, Result, no_rows, too_many_penalties,
  too_many_assignments, penalty_not_in_team, user_not_in_team, check_amount, links_to,
  penalty_belongs_to_team,
}

abbrev pub max_penalties_per_team : ℕ
max_penalties_per_team = 500

abbrev pub max_assignments_per_team : ℕ
max_assignments_per_team = 100000

unfoldable pub create_penalty : Store → ℕ → ℕ → String → ℕ → Result (PenaltyRow × Store)
create_penalty s new_id team label amount =
    let row : PenaltyRow = record { id = new_id; team_id = team; label = label; amount = amount } in
    reject_if (leb max_penalties_per_team (count (λ p. p.team_id == team) s.penalties))
      too_many_penalties
    >> check_amount amount
    >> ok (row, record s { penalties = row ∷ s.penalties })

pub record PenaltyPatch : Type 0 where
  pub label : Option String
  pub amount : Option ℕ

abbrev pub is_penalty : ℕ → ℕ → PenaltyRow → Bool
is_penalty id team p = p.id == id && p.team_id == team

unfoldable pub patch_penalty : PenaltyPatch → PenaltyRow → PenaltyRow
patch_penalty patch p = record p {
  label = or_default patch.label p.label;
  amount = or_default patch.amount p.amount;
}

unfoldable pub update_penalty : Store → ℕ → ℕ → PenaltyPatch → Result (PenaltyRow × Store)
unfolding patch_penalty
update_penalty s id team patch = do
  p ← or_fail (find (is_penalty id team) s.penalties) no_rows
  check_amount (patch_penalty patch p).amount
  ok (
    patch_penalty patch p,
    record s { penalties = update (is_penalty id team) (patch_penalty patch) s.penalties },
  )

-- The foreign key of penalty_assignments is ON DELETE SET NULL.
unfoldable pub delete_penalty : Store → ℕ → ℕ → Result Store
delete_penalty s id team =
    reject_if (not (any (is_penalty id team) s.penalties)) no_rows
    >> ok (record s {
      penalties = delete (is_penalty id team) s.penalties;
      assignments =
          update (λ a. links_to a.penalty_id id) (λ a. record a { penalty_id = none })
            s.assignments;
    })

-- The service's checks in their order, and the insert with the label and the amount of the penalty
-- at that time.
unfoldable pub create_assignment :
    Db
    → Store
    → ℕ
    → ℕ
    → ℕ
    → ℕ
    → ℕ
    → Option ℕ
    → Option String
    → Result (PenaltyAssignmentRow × Store)
create_assignment db s new_id now team user penalty date remark = do
  reject_if (not (penalty_belongs_to_team s penalty team)) penalty_not_in_team
  reject_if (not (is_member db team user)) (user_not_in_team user)
  reject_if (leb max_assignments_per_team (count (λ a. a.team_id == team) s.assignments))
      too_many_assignments
  p ← or_fail (find (is_penalty penalty team) s.penalties) penalty_not_in_team
  let row : PenaltyAssignmentRow = record {
    id = new_id;
    team_id = team;
    user_id = user;
    penalty_id = some penalty;
    date = or_default date now;
    note = remark;
    penalty_label = some p.label;
    penalty_amount = some p.amount;
  }
  ok (row, record s { assignments = row ∷ s.assignments })

abbrev pub is_assignment : ℕ → ℕ → PenaltyAssignmentRow → Bool
is_assignment id team a = a.id == id && a.team_id == team

-- `ON DELETE SET NULL` of transactions.penalty_assignment_id
abbrev pub detach_assignment : ℕ → List TransactionRow → List TransactionRow
detach_assignment id ts =
    update (λ t. links_to t.penalty_assignment_id id)
      (λ t. record t { penalty_assignment_id = none }) ts

unfoldable pub delete_assignment : Store → ℕ → ℕ → Result Store
delete_assignment s id team =
    reject_if (not (any (is_assignment id team) s.assignments)) no_rows
    >> ok (record s {
      assignments = delete (is_assignment id team) s.assignments;
      transactions = detach_assignment id s.transactions;
    })
