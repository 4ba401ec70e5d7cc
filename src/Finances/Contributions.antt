-- ===== src/Finances/Contributions.antt =====
-- Contributions: CreateContributions, UpdateContribution, DeleteContribution and the derived status
-- of backend/internal/finances/service.go with their queries in repository.go.
use team_manager.Base.{
  ℕ, suc, ◌+◌, Bool, not, ◌&&◌, String, List, [], ◌∷◌, Option, none, some, ◌==◌, ltb, leb, any,
  count, delete, find, update, length, if◌then◌else◌, is_some, or_default, ok, ◌>>◌, ◌>>=◌,
  reject_if, or_fail,
}
use team_manager.Roster.Db.{Db}
use team_manager.Roster.Queries.{is_member}
use team_manager.Finances.Store.{
  TransactionRow, ContributionRow, Store, Result, no_rows, too_many_contributions, user_not_in_team,
  check_amount, links_to, contribution_paid,
}

abbrev pub max_contributions_per_team : ℕ
max_contributions_per_team = 100000

-- gen.CreateContributionsJSONRequestBody
pub record CreateContributions : Type 0 where
  pub name : String
  pub description : Option String
  pub amount : ℕ
  pub due_date : Option ℕ
  pub user_ids : List ℕ

abbrev pub new_contribution : ℕ → ℕ → CreateContributions → ℕ → ContributionRow
new_contribution new_id team body user = record {
  id = new_id;
  team_id = team;
  user_id = user;
  name = body.name;
  description = body.description;
  amount = body.amount;
  due_date = body.due_date;
  archived = Bool.false;
}

-- The loop of Repository.CreateContributions; `keys` are the ids that the database generates. The
-- result holds the rows in the order of the user ids, with the table.
unfoldable pub insert_contributions :
    Db
    → List ContributionRow
    → (ℕ → ℕ)
    → ℕ
    → ℕ
    → CreateContributions
    → List ℕ
    → Result (List ContributionRow × List ContributionRow)
insert_contributions db rows keys i team body [] = ok ([], rows)
insert_contributions db rows keys i team body (user ∷ users) =
    let row = new_contribution (keys i) team body user in
    let rest = insert_contributions db (row ∷ rows) keys (suc i) team body users in
    reject_if (not (is_member db team user)) (user_not_in_team user)
    >> check_amount body.amount
    >> (rest >>= λ r. ok (row ∷ r.0, r.1))

-- `seen` is what CountContributions read, before the transaction of the inserts: no lock is held, so
-- other contributions may have been added since.
unfoldable pub create_contributions :
    Store → Db → Store → (ℕ → ℕ) → ℕ → CreateContributions → Result (List ContributionRow × Store)
unfolding insert_contributions
create_contributions seen db s keys team body = do
  reject_if
      (ltb max_contributions_per_team
        (count (λ c. c.team_id == team) seen.contributions + length body.user_ids))
      too_many_contributions
  r ← insert_contributions db s.contributions keys 0 team body body.user_ids
  ok (r.0, record s { contributions = r.1 })

pub record ContributionPatch : Type 0 where
  pub name : Option String
  pub description : Option String
  pub amount : Option ℕ
  pub due_date : Option ℕ
  pub archived : Option Bool

abbrev pub is_contribution : ℕ → ℕ → ContributionRow → Bool
is_contribution id team c = c.id == id && c.team_id == team

unfoldable pub patch_contribution : ContributionPatch → ContributionRow → ContributionRow
patch_contribution patch c = record c {
  name = or_default patch.name c.name;
  description = if is_some patch.description then patch.description else c.description;
  amount = or_default patch.amount c.amount;
  due_date = if is_some patch.due_date then patch.due_date else c.due_date;
  archived = or_default patch.archived c.archived;
}

unfoldable pub update_contribution :
    Store → ℕ → ℕ → ContributionPatch → Result (ContributionRow × Store)
unfolding patch_contribution
update_contribution s id team patch = do
  c ← or_fail (find (is_contribution id team) s.contributions) no_rows
  check_amount (patch_contribution patch c).amount
  ok (
    patch_contribution patch c,
    record s {
      contributions = update (is_contribution id team) (patch_contribution patch) s.contributions;
    },
  )

-- `ON DELETE SET NULL` of transactions.contribution_id
abbrev pub detach_contribution : ℕ → List TransactionRow → List TransactionRow
detach_contribution id ts =
    update (λ t. links_to t.contribution_id id) (λ t. record t { contribution_id = none }) ts

unfoldable pub delete_contribution : Store → ℕ → ℕ → Result Store
delete_contribution s id team =
    reject_if (not (any (is_contribution id team) s.contributions)) no_rows
    >> ok (record s {
      contributions = delete (is_contribution id team) s.contributions;
      transactions = detach_contribution id s.transactions;
    })

pub data ContributionStatus : Type 0 where
  open_ partial paid : ContributionStatus

unfoldable pub contribution_status : ℕ → ℕ → ContributionStatus
contribution_status paid_amount amount =
    if leb paid_amount 0
    then open_
    else if leb amount paid_amount
    then ContributionStatus.paid
    else partial

unfoldable pub assignment_paid : ℕ → Option ℕ → Bool
assignment_paid paid_amount none = Bool.false
assignment_paid paid_amount (some amount) = leb amount paid_amount

unfoldable pub count_open_contributions : Store → ℕ → ℕ
unfolding contribution_paid
count_open_contributions s team =
    count (λ c. c.team_id == team && not c.archived && ltb (contribution_paid s c.id) c.amount)
      s.contributions
