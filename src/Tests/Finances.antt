-- ===== src/Tests/Finances.antt =====
-- A fee and its payment (backend/internal/finances), at the team of the tests of the roster.
use team_manager.Base.{
  ℕ, ◌+◌, ◌≤◌, ◌≡◌, Distinct, refl, inl, inr, true, List, [], ◌∷◌, none, some, In, ok, err, arith,
}
use team_manager.Roster.Queries.{is_member}
use team_manager.Finances.Store.{
  TransactionType, TransactionRow, ContributionRow, Store, Error, max_amount, sum,
  contribution_paid, user_not_in_team, contribution_requires_income,
  cannot_change_type_of_linked_transaction,
}
use team_manager.Finances.Transactions.{
  CreateTransaction, TransactionPatch, new_transaction, create_transaction, update_transaction,
  delete_transaction,
}
use team_manager.Finances.Contributions.{
  CreateContributions, create_contributions, new_contribution, delete_contribution,
}
use team_manager.Finances.Links.{IsLinked}
use team_manager.Finances.Cashbook.{
  Reached, empty, next, empty_store, contributions_created, transaction_created, links_valid,
}
use team_manager.Finances.Batch.{
  Inserted, create_contributions-Inserted, create_contributions_succeeds,
}
use team_manager.Finances.Totals.{Booked, transactions-Booked}
use team_manager.Tests.Roster.{team_db}

abbrev fee : CreateContributions
fee = record {
  name = "Season";
  description = none;
  amount = 5000;
  due_date = some 300;
  user_ids = 1 ∷ 2 ∷ [];
}

abbrev keys : ℕ → ℕ
keys i = i + 40

abbrev fees : List ContributionRow
fees = new_contribution 40 10 fee 1 ∷ new_contribution 41 10 fee 2 ∷ []

abbrev fee_store : Store
fee_store = record empty_store {
  contributions = new_contribution 41 10 fee 2 ∷ new_contribution 40 10 fee 1 ∷ [];
}

create_fees :
    create_contributions empty_store team_db empty_store keys 10 fee ≡ ok (fees, fee_store)
unfolding create_contributions is_member
create_fees = refl

abbrev payment : CreateTransaction
payment = record {
  type = TransactionType.income;
  title = "Anna";
  amount = 2000;
  date = none;
  category = none;
  contribution_id = some 40;
  penalty_assignment_id = none;
  note = none;
}

abbrev payment_row : TransactionRow
payment_row = new_transaction 90 250 10 payment

abbrev paid_store : Store
paid_store = record fee_store { transactions = payment_row ∷ [] }

pay_fee : create_transaction fee_store 90 250 10 payment ≡ ok (payment_row, paid_store)
unfolding create_transaction team_manager.Finances.Store.count_transactions
    team_manager.Finances.Store.contribution_belongs_to_team
pay_fee = refl

-- An expense cannot pay a fee, and the payment cannot become one.
expense_refused :
    create_transaction fee_store 90 250 10 (record payment { type = TransactionType.expense })
    ≡ err contribution_requires_income
unfolding create_transaction team_manager.Finances.Store.count_transactions
expense_refused = refl

abbrev to_expense : TransactionPatch
to_expense = record {
  type = some TransactionType.expense;
  title = none;
  amount = none;
  category = none;
  date = none;
  note = none;
}

change_refused :
    update_transaction paid_store 90 10 to_expense ≡ err cannot_change_type_of_linked_transaction
unfolding update_transaction
change_refused = refl

paid_Reached : Reached paid_store
paid_Reached =
    next fee_store paid_store
      (next empty_store fee_store empty
        (contributions_created empty_store team_db keys 10 fee fees create_fees))
      (transaction_created 90 250 10 payment payment_row refl pay_fee)

links_valid_example : IsLinked paid_store payment_row
links_valid_example = links_valid paid_store payment_row paid_Reached (inl refl)

create_contributions-Inserted_example :
    Inserted team_db [] 10 fee (1 ∷ 2 ∷ []) fees fee_store.contributions
    × (fee_store.transactions ≡ empty_store.transactions)
    × (fee_store.penalties ≡ empty_store.penalties)
    × (fee_store.assignments ≡ empty_store.assignments)
create_contributions-Inserted_example =
    create_contributions-Inserted empty_store team_db empty_store keys 10 fee fees fee_store
      create_fees

-- A user outside of the team, behind a member.
abbrev fee_for_stranger : CreateContributions
fee_for_stranger = record fee { user_ids = 1 ∷ 3 ∷ [] }

stranger_refused :
    create_contributions empty_store team_db empty_store keys 10 fee_for_stranger
    ≡ err (user_not_in_team 3)
unfolding create_contributions is_member
stranger_refused = refl

anna_and_ben : (u : ℕ) → In u (1 ∷ 2 ∷ []) → is_member team_db 10 u ≡ true
unfolding is_member
anna_and_ben u (inl e) = rw e
anna_and_ben u (inr (inl e)) = rw e
anna_and_ben u (inr (inr i)) = elim i [ ]

create_contributions_succeeds_example :
    (made : List ContributionRow) × (s' : Store) × (create_contributions empty_store team_db
        empty_store keys 10 fee
      ≡ ok (made, s'))
create_contributions_succeeds_example =
    create_contributions_succeeds empty_store team_db empty_store keys 10 fee (omega arith)
      anna_and_ben (omega arith) (omega arith)

transactions-Booked_example :
    ((new_id now : ℕ) (body : CreateTransaction) (t : TransactionRow)
      → create_transaction fee_store new_id now 10 body ≡ ok (t, paid_store)
      → (t.team_id ≡ 10)
        × (t.type ≡ body.type)
        × (t.amount ≡ body.amount)
        × Booked fee_store paid_store t)
    × ((id : ℕ)
        → Distinct (λ y. y.id) fee_store.transactions
        → delete_transaction fee_store id 10 ≡ ok paid_store
        → (t : TransactionRow) × In t fee_store.transactions
          × (t.id ≡ id)
          × (t.team_id ≡ 10)
          × Booked paid_store fee_store t)
transactions-Booked_example = transactions-Booked fee_store paid_store 10

-- The payment is booked, and taken off again.
payment-Booked : Booked fee_store paid_store payment_row
payment-Booked =
    let (created, _) = transactions-Booked fee_store paid_store 10 in
    let (_, _, _, booked) = created 90 250 payment payment_row pay_fee in booked

abbrev unlinked_store : Store
unlinked_store = record paid_store {
  transactions = record payment_row { contribution_id = none } ∷ [];
  contributions = new_contribution 41 10 fee 2 ∷ [];
}

delete_fee : delete_contribution paid_store 40 10 ≡ ok unlinked_store
unfolding delete_contribution
delete_fee = refl

fees_positive : (c : ContributionRow) → In c paid_store.contributions → 1 ≤ c.amount
fees_positive c (inl e) = rw e (omega arith)
fees_positive c (inr (inl e)) = rw e (omega arith)
fees_positive c (inr (inr i)) = elim i [ ]
