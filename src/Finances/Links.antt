-- ===== src/Finances/Links.antt =====
-- The links of transactions to contributions and penalty assignments (backend/internal/finances):
-- a linked transaction is income of the same team as its only target, and CreateTransaction keeps it
-- so.
use team_manager.Base.{
  ℕ, ◌≡◌, ap, inl, inr, true, false, ◌&&◌, List, ◌∷◌, none, some, In, any, ◌==◌, Option-cases, leb,
  Distinct, Distinct-cons, is_some, ok, >>-eq-ok, reject_if, reject_if-ok, ok-injective, arith,
}
use team_manager.Finances.Store.{
  TransactionType, TransactionRow, Store, contribution_belongs_to_team,
  penalty_assignment_belongs_to_team, too_many_transactions, transaction_links_multiple_targets,
  count_transactions, check_amount,
}
use team_manager.Finances.Transactions.{
  CreateTransaction, new_transaction, create_transaction, max_transactions_per_team,
  check_contribution_link, check_assignment_link,
}

-- What holds of a transaction and its links.
pub record IsLinked (s : Store) (t : TransactionRow) : Type 0 where
  pub contribution :
      (c : ℕ)
      → t.contribution_id ≡ some c
      → (t.penalty_assignment_id ≡ none)
        × (t.type ≡ TransactionType.income)
        × (contribution_belongs_to_team s c t.team_id ≡ true)
  pub assignment :
      (a : ℕ)
      → t.penalty_assignment_id ≡ some a
      → (t.contribution_id ≡ none)
        × (t.type ≡ TransactionType.income)
        × (penalty_assignment_belongs_to_team s a t.team_id ≡ true)

pub record IsValid (s : Store) : Type 0 where
  pub keys : Distinct (λ t. t.id) s.transactions
  pub linked : (t : TransactionRow) → In t s.transactions → IsLinked s t

-- The targets that a transaction is linked to stay.
pub keep_links :
    (s s' : Store) (t : TransactionRow)
    → ((c : ℕ)
        → t.contribution_id ≡ some c
        → contribution_belongs_to_team s c t.team_id ≡ true
        → contribution_belongs_to_team s' c t.team_id ≡ true)
    → ((a : ℕ)
        → t.penalty_assignment_id ≡ some a
        → penalty_assignment_belongs_to_team s a t.team_id ≡ true
        → penalty_assignment_belongs_to_team s' a t.team_id ≡ true)
    → IsLinked s t
    → IsLinked s' t
keep_links s s' t cs as_ l = record {
  contribution = λ c e. let (x, y, z) = l.contribution c e in (x, y, cs c e z);
  assignment = λ a e. let (x, y, z) = l.assignment a e in (x, y, as_ a e z);
}

abbrev pub with_transactions : Store → List TransactionRow → Store
with_transactions s ts = record s { transactions = ts }

-- The targets do not depend on the transactions.
pub same_targets :
    (s : Store) (ts : List TransactionRow) (t : TransactionRow)
    → IsLinked s t
    → IsLinked (with_transactions s ts) t
unfolding contribution_belongs_to_team penalty_assignment_belongs_to_team
same_targets s ts t l = record { contribution = l.contribution; assignment = l.assignment }

pub create_transaction-checked :
    (s : Store) (new_id now team : ℕ) (body : CreateTransaction) (t : TransactionRow) (s' : Store)
    → create_transaction s new_id now team body ≡ ok (t, s')
    → ((is_some body.contribution_id && is_some body.penalty_assignment_id) ≡ false)
      × (check_contribution_link s team body ≡ ok tt)
      × (check_assignment_link s team body ≡ ok tt)
      × (leb max_transactions_per_team (count_transactions s team) ≡ false)
      × (check_amount body.amount ≡ ok tt)
      × (s' ≡ with_transactions s (new_transaction new_id now team body ∷ s.transactions))
unfolding create_transaction
create_transaction-checked s new_id now team body t s' h =
    let (h₁, last) = >>-eq-ok _ _ (t, s') h in
    let (h₂, amount) = >>-eq-ok _ (check_amount body.amount) tt h₁ in
    let (h₃, assignment) = >>-eq-ok _ (check_assignment_link s team body) tt h₂ in
    let (h₄, contribution) = >>-eq-ok _ (check_contribution_link s team body) tt h₃ in
    let (room, one) =
      >>-eq-ok
        (reject_if (leb max_transactions_per_team (count_transactions s team))
          too_many_transactions)
        (reject_if (is_some body.contribution_id && is_some body.penalty_assignment_id)
          transaction_links_multiple_targets)
        tt h₄ in
    (
      reject_if-ok _ transaction_links_multiple_targets one,
      contribution,
      assignment,
      reject_if-ok _ too_many_transactions room,
      amount,
      ap (λ (r : TransactionRow × Store). r.1)
          (ok-injective
            (
              new_transaction new_id now team body,
              with_transactions s (new_transaction new_id now team body ∷ s.transactions),
            )
            (t, s') last),
    )

new_transaction-IsLinked :
    (s : Store) (new_id now team : ℕ) (body : CreateTransaction)
    → (is_some body.contribution_id && is_some body.penalty_assignment_id) ≡ false
    → check_contribution_link s team body ≡ ok tt
    → check_assignment_link s team body ≡ ok tt
    → IsLinked s (new_transaction new_id now team body)
unfolding check_contribution_link check_assignment_link
new_transaction-IsLinked s new_id now team body one c a = record {
  contribution = λ k e. (not_assigned k e, ground (arith, e), ground (arith, e));
  assignment = λ k e. (not_contributed k e, ground (arith, e), ground (arith, e));
}
  where
    not_assigned : (k : ℕ) → body.contribution_id ≡ some k → body.penalty_assignment_id ≡ none
    not_assigned k e = elim (Option-cases body.penalty_assignment_id) [
      | inl q ↦ q
      | inr (j, q) ↦ absurd (ground (arith, e, q))
    ]

    not_contributed : (k : ℕ) → body.penalty_assignment_id ≡ some k → body.contribution_id ≡ none
    not_contributed k e = elim (Option-cases body.contribution_id) [
      | inl q ↦ q
      | inr (j, q) ↦ absurd (ground (arith, e, q))
    ]

pub create_transaction-IsValid :
    (s : Store) (new_id now team : ℕ) (body : CreateTransaction) (t : TransactionRow) (s' : Store)
    → any (λ u. u.id == new_id) s.transactions ≡ false
    → IsValid s
    → create_transaction s new_id now team body ≡ ok (t, s')
    → IsValid s'
create_transaction-IsValid s new_id now team body t s' fresh v h =
    let (one, c, a, _, _, e) = create_transaction-checked s new_id now team body t s' h in
    let row = new_transaction new_id now team body in
    rw e (record {
      keys = Distinct-cons (λ u. u.id) row s.transactions fresh v.keys;
      linked = λ u i. elim i [
        | inl q ↦
            rw q (same_targets s _ row (new_transaction-IsLinked s new_id now team body one c a))
        | inr j ↦ same_targets s _ u (v.linked u j)
      ];
    })
