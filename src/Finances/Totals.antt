-- ===== src/Finances/Totals.antt =====
-- The derived figures of backend/internal/finances: the status of a contribution, the count of open
-- ones, and the income and the expense of a team.
use team_manager.Base.{
  ℕ, ◌+◌, ◌≤◌, ◌<◌, ◌≡◌, ◌≢◌, refl, All, All-In, Distinct, delete, subst, sym, ap, ◌∙◌,
  if◌then◌else◌, any_witness, not-false, reject_if-ok, inl, inr, ◌↔◌, Bool, true, false, not, ◌&&◌,
  List, [], ◌∷◌, In, any, ◌==◌, Bool-cases, count, select, ltb, none, ok, >>-eq-ok, reject_if,
  ok-injective, arith,
}
use team_manager.Finances.Store.{
  TransactionType, TransactionRow, ContributionRow, Store, is_income, sum, contribution_paid,
  links_to, no_rows,
}
use team_manager.Finances.Transactions.{
  CreateTransaction, new_transaction, create_transaction, is_transaction, delete_transaction,
}
use team_manager.Finances.Links.{create_transaction-checked}
use team_manager.Finances.Contributions.{
  ContributionStatus, open_, partial, contribution_status, count_open_contributions,
  delete_contribution, is_contribution, detach_contribution,
}

-- SumTransactions: the income and the expense of the team.
unfoldable pub sum_transactions : Store → ℕ → ℕ × ℕ
sum_transactions s team = (
  sum (select (λ t. t.team_id == team && is_income t.type) s.transactions),
  sum (select (λ t. t.team_id == team && not (is_income t.type)) s.transactions),
)

abbrev pub is_paid : ContributionStatus → Bool
is_paid ContributionStatus.paid = true
is_paid _ = false

-- For a positive amount, a contribution is open exactly when nothing is paid, paid exactly when what
-- is paid covers the amount, and partial exactly in between.
pub contribution_status_lem :
    (paid_amount amount : ℕ)
    → 1 ≤ amount
    → ((contribution_status paid_amount amount ≡ open_) ↔ (paid_amount ≡ 0))
      × ((contribution_status paid_amount amount ≡ ContributionStatus.paid)
          ↔ (amount ≤ paid_amount))
      × ((contribution_status paid_amount amount ≡ partial)
          ↔ ((0 < paid_amount) × (paid_amount < amount)))
unfolding contribution_status
contribution_status_lem p a h = (ground arith, ground arith, ground arith)

pair : {a b c d : ℕ} → a ≡ c → b ≡ d → ◌≡◌ {A = ℕ × ℕ} (a, b) (c, d)
pair p q = λ i. (p i, q i)

-- The sums after are those before with the transaction: on its side of its team its amount is added,
-- and neither the other side nor another team changes.
abbrev pub Booked : Store → Store → TransactionRow → Type 0
Booked s s' t =
    (t.type ≡ TransactionType.income
      → sum_transactions s' t.team_id
        ≡ (t.amount + (sum_transactions s t.team_id).0, (sum_transactions s t.team_id).1))
    × (t.type ≡ TransactionType.expense
        → sum_transactions s' t.team_id
          ≡ ((sum_transactions s t.team_id).0, t.amount + (sum_transactions s t.team_id).1))
    × ((other : ℕ) → other ≢ t.team_id → sum_transactions s' other ≡ sum_transactions s other)

create_transaction-Booked :
    (s : Store) (new_id now team : ℕ) (body : CreateTransaction) (t : TransactionRow) (s' : Store)
    → create_transaction s new_id now team body ≡ ok (t, s')
    → (t.team_id ≡ team) × (t.type ≡ body.type) × (t.amount ≡ body.amount) × Booked s s' t
unfolding sum_transactions create_transaction
create_transaction-Booked s new_id now team body t s' h =
    let (_, _, _, _, _, e) = create_transaction-checked s new_id now team body t s' h in
    let row : t ≡ new_transaction new_id now team body = ground (arith, h) in
    rw (row, e)
      (
        refl,
        refl,
        refl,
        (
          λ q. pair (ground (arith, q)) (ground (arith, q)),
          λ q. pair (ground (arith, q)) (ground (arith, q)),
          λ other ne. pair (ground (arith, ne)) (ground (arith, ne)),
        ),
      )

sum-delete_none :
    (q : TransactionRow → Bool) (id team : ℕ) (ts : List TransactionRow)
    → All (λ y. id ≢ y.id) ts
    → sum (select q (delete (is_transaction id team) ts)) ≡ sum (select q ts)
sum-delete_none q id team [] other = refl
sum-delete_none q id team (t ∷ ts) other =
    let out : is_transaction id team t ≡ false = ground (arith, other.0) in
    ground (arith, out, sum-delete_none q id team ts other.1)

sum-delete :
    (q : TransactionRow → Bool) (id team : ℕ) (t : TransactionRow) (ts : List TransactionRow)
    → Distinct (λ y. y.id) ts
    → In t ts
    → is_transaction id team t ≡ true
    → sum (select q ts)
      ≡ (if q t then t.amount else 0) + sum (select q (delete (is_transaction id team) ts))
sum-delete q id team t [] d i is_t = elim i [ ]
sum-delete q id team t (x ∷ xs) d (inl e) is_t =
    let id_of : t.id ≡ id = ground (arith, is_t) in
    let others : All (λ (y : TransactionRow). id ≢ y.id) xs =
      subst (λ k. All (λ (y : TransactionRow). k ≢ y.id) xs)
        (sym (ap (λ (y : TransactionRow). y.id) e) ∙ id_of) d.0 in
    let rest = sum-delete_none q id team xs others in
    let is_x : is_transaction id team x ≡ true = rw (← e) is_t in rw e (ground (arith, is_x, rest))
sum-delete q id team t (x ∷ xs) d (inr i) is_t =
    let apart = All-In (λ (y : TransactionRow). x.id ≢ y.id) t xs d.0 i in
    let out : is_transaction id team x ≡ false = ground (arith, is_t, apart) in
    ground (arith, out, sum-delete q id team t xs d.1 i is_t)

delete_transaction-Booked :
    (s : Store) (id team : ℕ) (s' : Store)
    → Distinct (λ y. y.id) s.transactions
    → delete_transaction s id team ≡ ok s'
    → (t : TransactionRow) × In t s.transactions × (t.id ≡ id) × (t.team_id ≡ team) × Booked s' s t
unfolding delete_transaction sum_transactions
delete_transaction-Booked s id team s' d h =
    let (found, last) =
      >>-eq-ok (reject_if (not (any (is_transaction id team) s.transactions)) no_rows) _ s' h in
    let (t, i, is_t) =
      any_witness (is_transaction id team) s.transactions
        (not-false _ (reject_if-ok _ no_rows found)) in
    let sums : (k : ℕ) (b : Bool → Bool)
        → sum (select (λ x. x.team_id == k && b (is_income x.type)) s.transactions)
          ≡ (if t.team_id == k && b (is_income t.type) then t.amount else 0)
            + sum (
                select (λ x. x.team_id == k && b (is_income x.type))
                  (delete (is_transaction id team) s.transactions)) =
      λ k b.
        sum-delete (λ x. x.team_id == k && b (is_income x.type)) id team t s.transactions d i
          is_t in
    (
      t,
      i,
      ground (arith, is_t),
      ground (arith, is_t),
      rw (ok-injective _ s' last) (
        λ q.
            pair (ground (arith, q, sums t.team_id (λ b. b)))
              (ground (arith, q, sums t.team_id not)),
        λ q.
            pair (ground (arith, q, sums t.team_id (λ b. b)))
              (ground (arith, q, sums t.team_id not)),
        λ other ne.
            pair (ground (arith, ne, sums other (λ b. b))) (ground (arith, ne, sums other not)),
      ),
    )

-- A successful CreateTransaction adds the amount to the team's income if the transaction is income and
-- to its expense if it is one, leaves the other of the two as it was, and changes neither of any other
-- team; a successful DeleteTransaction takes the amount of the team's transaction with the given id
-- off again in the same way, if no two transactions share an id.
pub transactions-Booked :
    (s s' : Store) (team : ℕ)
    → ((new_id now : ℕ) (body : CreateTransaction) (t : TransactionRow)
        → create_transaction s new_id now team body ≡ ok (t, s')
        → (t.team_id ≡ team) × (t.type ≡ body.type) × (t.amount ≡ body.amount) × Booked s s' t)
      × ((id : ℕ)
          → Distinct (λ y. y.id) s.transactions
          → delete_transaction s id team ≡ ok s'
          → (t : TransactionRow) × In t s.transactions
            × (t.id ≡ id)
            × (t.team_id ≡ team)
            × Booked s' s t)
transactions-Booked s s' team = (
  λ new_id now body t h. create_transaction-Booked s new_id now team body t s' h,
  λ id d h. delete_transaction-Booked s id team s' d h,
)

sum-detach :
    (id : ℕ) (p : TransactionRow → Bool) (ts : List TransactionRow)
    → ((t : TransactionRow) → p (record t { contribution_id = none }) ≡ p t)
    → sum (select p (detach_contribution id ts)) ≡ sum (select p ts)
sum-detach id p [] same = refl
sum-detach id p (t ∷ ts) same = elim (Bool-cases (links_to t.contribution_id id)) [
  | inl e ↦ ground (arith, same t, sum-detach id p ts same)
  | inr e ↦ ground (arith, sum-detach id p ts same)
]

-- Deleting a contribution changes neither the income nor the expense of any team: the payments that
-- were linked to it stay booked.
pub delete_contribution-sums :
    (s : Store) (id team : ℕ) (s' : Store) (t : ℕ)
    → delete_contribution s id team ≡ ok s'
    → sum_transactions s' t ≡ sum_transactions s t
unfolding delete_contribution sum_transactions
delete_contribution-sums s id team s' t h =
    let (_, last) =
      >>-eq-ok (reject_if (not (any (is_contribution id team) s.contributions)) no_rows) _ s' h in
    rw (ok-injective _ s' last) (
      pair (sum-detach id (λ x. x.team_id == t && is_income x.type) s.transactions (λ x. refl))
        (sum-detach id (λ x. x.team_id == t && not (is_income x.type)) s.transactions (λ x. refl)))

-- CountOpenContributions counts the contributions of the team that are not archived and whose
-- derived status is not "paid", if their amounts are positive.
pub count_open_contributions_lem :
    (s : Store) (team : ℕ)
    → ((c : ContributionRow) → In c s.contributions → 1 ≤ c.amount)
    → count_open_contributions s team
      ≡ count
          (λ c.
            c.team_id == team
            && not c.archived
            && not (is_paid (contribution_status (contribution_paid s c.id) c.amount)))
          s.contributions
unfolding count_open_contributions contribution_status
count_open_contributions_lem s team h = go s.contributions h
  where
    go :
        (cs : List ContributionRow)
        → ((c : ContributionRow) → In c cs → 1 ≤ c.amount)
        → count
            (λ c. c.team_id == team && not c.archived && ltb (contribution_paid s c.id) c.amount)
            cs
          ≡ count
              (λ c.
                c.team_id == team
                && not c.archived
                && not (is_paid (contribution_status (contribution_paid s c.id) c.amount)))
              cs
    go [] k = refl
    go (c ∷ cs) k = ground (arith, go cs (λ d i. k d (inr i)), k c (inl refl))
