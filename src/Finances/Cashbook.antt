-- ===== src/Finances/Cashbook.antt =====
-- Every sequence of operations of backend/internal/finances: the links of transactions.
use team_manager.Base.{
  ℕ, ◌≡◌, ap, ◌∙◌, false, ◌&&◌, String, List, [], Option, In, any, any-In, any_witness, ◌==◌, ok,
}
use team_manager.Roster.Db.{Db}
use team_manager.Finances.Store.{
  TransactionRow, ContributionRow, PenaltyRow, PenaltyAssignmentRow, Store,
  contribution_belongs_to_team, penalty_assignment_belongs_to_team,
}
use team_manager.Finances.Transactions.{
  CreateTransaction, TransactionPatch, create_transaction, update_transaction, delete_transaction,
}
use team_manager.Finances.Penalties.{
  PenaltyPatch, create_penalty, update_penalty, delete_penalty, create_assignment,
  delete_assignment,
}
use team_manager.Finances.Contributions.{
  CreateContributions, ContributionPatch, create_contributions, update_contribution,
  delete_contribution,
}
use team_manager.Finances.Links.{IsLinked, IsValid, create_transaction-IsValid}
use team_manager.Finances.Relinks.{update_transaction-IsValid, delete_transaction-IsValid}
use team_manager.Finances.Ledger.{
  targets_kept, create_penalty-IsValid, update_penalty-IsValid, delete_penalty-IsValid,
  create_assignment-IsValid, delete_assignment-IsValid, update_contribution-IsValid,
  delete_contribution-IsValid,
}
use team_manager.Finances.Batch.{create_contributions-Inserted}

create_contributions-IsValid :
    (seen : Store) (db : Db) (s : Store) (keys : ℕ → ℕ) (team : ℕ) (body : CreateContributions)
    (made : List ContributionRow) (s' : Store)
    → IsValid s
    → create_contributions seen db s keys team body ≡ ok (made, s')
    → IsValid s'
unfolding contribution_belongs_to_team penalty_assignment_belongs_to_team
create_contributions-IsValid seen db s keys team body made s' v h =
    let (rows, same, _, kept) = create_contributions-Inserted seen db s keys team body made s' h in
    targets_kept s s' same
      (λ c t q.
        let (x, i, e) =
          any_witness (λ (y : ContributionRow). y.id == c && y.team_id == t) s.contributions q in
        any-In (λ (y : ContributionRow). y.id == c && y.team_id == t) x s'.contributions
          (rows.old x i) e)
      (λ a t q. ap (any (λ (x : PenaltyAssignmentRow). x.id == a && x.team_id == t)) kept ∙ q) v

-- One successful operation of the service, under any roster. The keys of new transactions are fresh.
pub data Step (s s' : Store) : Type 0 where
  transaction_created :
      (new_id now team : ℕ) (body : CreateTransaction) (t : TransactionRow)
      → any (λ u. u.id == new_id) s.transactions ≡ false
      → create_transaction s new_id now team body ≡ ok (t, s')
      → Step s s'
  transaction_updated :
      (id team : ℕ) (patch : TransactionPatch) (t : TransactionRow)
      → update_transaction s id team patch ≡ ok (t, s')
      → Step s s'
  transaction_deleted : (id team : ℕ) → delete_transaction s id team ≡ ok s' → Step s s'
  penalty_created :
      (new_id team : ℕ) (label : String) (amount : ℕ) (p : PenaltyRow)
      → create_penalty s new_id team label amount ≡ ok (p, s')
      → Step s s'
  penalty_updated :
      (id team : ℕ) (patch : PenaltyPatch) (p : PenaltyRow)
      → update_penalty s id team patch ≡ ok (p, s')
      → Step s s'
  penalty_deleted : (id team : ℕ) → delete_penalty s id team ≡ ok s' → Step s s'
  assignment_created :
      (db : Db) (new_id now team user penalty : ℕ) (date : Option ℕ) (remark : Option String)
      (a : PenaltyAssignmentRow)
      → create_assignment db s new_id now team user penalty date remark ≡ ok (a, s')
      → Step s s'
  assignment_deleted : (id team : ℕ) → delete_assignment s id team ≡ ok s' → Step s s'
  contributions_created :
      (seen : Store) (db : Db) (keys : ℕ → ℕ) (team : ℕ) (body : CreateContributions)
      (made : List ContributionRow)
      → create_contributions seen db s keys team body ≡ ok (made, s')
      → Step s s'
  contribution_updated :
      (id team : ℕ) (patch : ContributionPatch) (c : ContributionRow)
      → update_contribution s id team patch ≡ ok (c, s')
      → Step s s'
  contribution_deleted : (id team : ℕ) → delete_contribution s id team ≡ ok s' → Step s s'

abbrev pub empty_store : Store
empty_store = record { transactions = []; penalties = []; assignments = []; contributions = [] }

pub data Reached : Store → Type 0 where
  empty : Reached empty_store
  next : (s s' : Store) → Reached s → Step s s' → Reached s'

Step-IsValid : (s s' : Store) → Step s s' → IsValid s → IsValid s'
Step-IsValid s s' (transaction_created k n t b r f h) v =
    create_transaction-IsValid s k n t b r s' f v h
Step-IsValid s s' (transaction_updated k t p r h) v = update_transaction-IsValid s k t p r s' v h
Step-IsValid s s' (transaction_deleted k t h) v = delete_transaction-IsValid s k t s' v h
Step-IsValid s s' (penalty_created k t l a p h) v = create_penalty-IsValid s k t l a p s' v h
Step-IsValid s s' (penalty_updated k t q p h) v = update_penalty-IsValid s k t q p s' v h
Step-IsValid s s' (penalty_deleted k t h) v = delete_penalty-IsValid s k t s' v h
Step-IsValid s s' (assignment_created db k n t u p d r a h) v =
    create_assignment-IsValid db s k n t u p d r a s' v h
Step-IsValid s s' (assignment_deleted k t h) v = delete_assignment-IsValid s k t s' v h
Step-IsValid s s' (contributions_created seen db ks t b m h) v =
    create_contributions-IsValid seen db s ks t b m s' v h
Step-IsValid s s' (contribution_updated k t p c h) v = update_contribution-IsValid s k t p c s' v h
Step-IsValid s s' (contribution_deleted k t h) v = delete_contribution-IsValid s k t s' v h

pub Reached-IsValid : (s : Store) → Reached s → IsValid s
Reached-IsValid _ empty = record { keys = tt; linked = λ t i. elim i [ ] }
Reached-IsValid s (next before _ r step) = Step-IsValid before s step (Reached-IsValid before r)

-- However transactions, penalties, assignments and contributions are created, changed and deleted, a
-- transaction that is linked to a contribution or to a penalty assignment is linked to no other
-- target, is income, and the target exists in the transaction's team.
pub links_valid : (s : Store) (t : TransactionRow) → Reached s → In t s.transactions → IsLinked s t
links_valid s t r i = (Reached-IsValid s r).linked t i
