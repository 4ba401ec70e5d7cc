-- ===== src/Finances/Batch.antt =====
-- CreateContributions of backend/internal/finances: one contribution for each of the users, or none.
use team_manager.Base.{
  ℕ, suc, ◌+◌, ◌≤◌, ◌≡◌, refl, ap, inl, inr, ◌⊎◌, true, false, not, List, [], ◌∷◌, map, In, All,
  ◌==◌, count, length, ltb, ok, >>-eq-ok, >>=-eq-ok, reject_if, reject_if-ok, not-false,
  ok-injective, arith,
}
use team_manager.Roster.Db.{Db}
use team_manager.Roster.Queries.{is_member}
use team_manager.Finances.Store.{
  ContributionRow, Store, max_amount, user_not_in_team, check_amount, check_violation,
  amount_allowed, too_many_contributions,
}
use team_manager.Finances.Contributions.{
  CreateContributions, new_contribution, insert_contributions, create_contributions,
  max_contributions_per_team,
}

-- An unarchived contribution of the team with the name, the description, the amount and the due date
-- of the request, the amount within the bounds of the table.
abbrev pub IsFee : ℕ → CreateContributions → ContributionRow → Type 0
IsFee team body c =
    (c.team_id ≡ team)
    × (c.name ≡ body.name)
    × (c.description ≡ body.description)
    × (c.amount ≡ body.amount)
    × (c.due_date ≡ body.due_date)
    × (c.archived ≡ false)
    × (1 ≤ c.amount)
    × (c.amount ≤ max_amount)

-- What the loop leaves when it succeeds.
pub record Inserted (db : Db) (rows : List ContributionRow) (team : ℕ) (body : CreateContributions)
    (users : List ℕ) (made rows' : List ContributionRow) : Type 0 where
  pub owners : map (λ c. c.user_id) made ≡ users
  pub fees : All (IsFee team body) made
  pub members : All (λ u. is_member db team u ≡ true) users
  pub old : (c : ContributionRow) → In c rows → In c rows'
  pub new : (c : ContributionRow) → In c made → In c rows'
  pub only : (c : ContributionRow) → In c rows' → In c rows ⊎ In c made
  pub size : length rows' ≡ length rows + length users

check_amount-bounds : (n : ℕ) → check_amount n ≡ ok tt → (1 ≤ n) × (n ≤ max_amount)
check_amount-bounds n h = ground (arith, reject_if-ok _ check_violation h)

pushed_only :
    (c row : ContributionRow) (rows made : List ContributionRow)
    → In c (row ∷ rows) ⊎ In c made
    → In c rows ⊎ In c (row ∷ made)
pushed_only c row rows made (inl (inl q)) = inr (inl q)
pushed_only c row rows made (inl (inr i)) = inl i
pushed_only c row rows made (inr j) = inr (inr j)

insert_contributions-Inserted :
    (db : Db) (rows : List ContributionRow) (keys : ℕ → ℕ) (i team : ℕ) (body : CreateContributions)
    (users : List ℕ) (made rows' : List ContributionRow)
    → insert_contributions db rows keys i team body users ≡ ok (made, rows')
    → Inserted db rows team body users made rows'
unfolding insert_contributions
insert_contributions-Inserted db rows keys i team body [] made rows' h =
    let e = ok-injective ([], rows) (made, rows') h in
    let m : made ≡ [] = ap (λ (p : List ContributionRow × List ContributionRow). p.0) e in
    let r : rows' ≡ rows = ap (λ (p : List ContributionRow × List ContributionRow). p.1) e in
    rw (m, r)
      (record {
        owners = refl;
        fees = tt;
        members = tt;
        old = λ c j. j;
        new = λ c j. elim j [ ];
        only = λ c j. inl j;
        size = omega arith;
      })
insert_contributions-Inserted db rows keys i team body (user ∷ users) made rows' h =
    let row = new_contribution (keys i) team body user in
    let (h₁, h₂) = >>-eq-ok _ _ (made, rows') h in
    let (member, bounded) =
      >>-eq-ok (reject_if (not (is_member db team user)) (user_not_in_team user))
        (check_amount body.amount) tt h₁ in
    let (positive, small) = check_amount-bounds body.amount bounded in
    let (p, done, last) =
      >>=-eq-ok (insert_contributions db (row ∷ rows) keys (suc i) team body users)
        (λ (r : List ContributionRow × List ContributionRow). ok (row ∷ r.0, r.1)) (made, rows')
        h₂ in
    let rest =
      insert_contributions-Inserted db (row ∷ rows) keys (suc i) team body users p.0 p.1 done in
    let e = ok-injective (row ∷ p.0, p.1) (made, rows') last in
    let m : made ≡ row ∷ p.0 = ap (λ (q : List ContributionRow × List ContributionRow). q.0) e in
    let r : rows' ≡ p.1 = ap (λ (q : List ContributionRow × List ContributionRow). q.1) e in
    rw (m, r)
      (record {
        owners = ap (λ us. user ∷ us) rest.owners;
        fees = ((refl, refl, refl, refl, refl, refl, positive, small), rest.fees);
        members = (
          not-false (is_member db team user) (reject_if-ok _ (user_not_in_team user) member),
          rest.members,
        );
        old = λ c j. rest.old c (inr j);
        new = λ c j. elim j [ inl q ↦ rest.old c (inl q) | inr k ↦ rest.new c k ];
        only = λ c j. pushed_only c row rows p.0 (rest.only c j);
        size = omega (arith, rest.size);
      })

-- A successful CreateContributions returns one contribution for each of the given users, in their
-- order, all with the team and the name, the description, the amount and the due date of the request
-- and unarchived; every user is a member of the team, and the amount within the bounds of the table;
-- the table of contributions holds the old ones and exactly these more, and the other tables are as
-- they were.
pub create_contributions-Inserted :
    (seen : Store) (db : Db) (s : Store) (keys : ℕ → ℕ) (team : ℕ) (body : CreateContributions)
    (made : List ContributionRow) (s' : Store)
    → create_contributions seen db s keys team body ≡ ok (made, s')
    → Inserted db s.contributions team body body.user_ids made s'.contributions
      × (s'.transactions ≡ s.transactions)
      × (s'.penalties ≡ s.penalties)
      × (s'.assignments ≡ s.assignments)
unfolding create_contributions
create_contributions-Inserted seen db s keys team body made s' h =
    let (_, h₁) =
      >>-eq-ok
        (reject_if
          (ltb max_contributions_per_team
            (count (λ c. c.team_id == team) seen.contributions + length body.user_ids))
          too_many_contributions)
        _ (made, s') h in
    let (p, done, last) =
      >>=-eq-ok (insert_contributions db s.contributions keys 0 team body body.user_ids)
        (λ (r : List ContributionRow × List ContributionRow).
          ok (r.0, record s { contributions = r.1 }))
        (made, s') h₁ in
    let e = ok-injective (p.0, record s { contributions = p.1 }) (made, s') last in
    let m : made ≡ p.0 = ap (λ (q : List ContributionRow × Store). q.0) e in
    let t : s' ≡ record s { contributions = p.1 } =
      ap (λ (q : List ContributionRow × Store). q.1) e in
    (
      rw (m, ap (λ (x : Store). x.contributions) t)
          (insert_contributions-Inserted db s.contributions keys 0 team body body.user_ids p.0 p.1
            done),
      ap (λ (x : Store). x.transactions) t,
      ap (λ (x : Store). x.penalties) t,
      ap (λ (x : Store). x.assignments) t,
    )

insert_contributions_succeeds :
    (db : Db) (rows : List ContributionRow) (keys : ℕ → ℕ) (i team : ℕ) (body : CreateContributions)
    (users : List ℕ)
    → ((u : ℕ) → In u users → is_member db team u ≡ true)
    → amount_allowed body.amount ≡ true
    → (r : List ContributionRow × List ContributionRow) × (insert_contributions db rows keys i team
          body users
        ≡ ok r)
unfolding insert_contributions
insert_contributions_succeeds db rows keys i team body [] members allowed = (([], rows), refl)
insert_contributions_succeeds db rows keys i team body (user ∷ users) members allowed =
    let row = new_contribution (keys i) team body user in
    let (r, done) =
      insert_contributions_succeeds db (row ∷ rows) keys (suc i) team body users
        (λ u j. members u (inr j)) allowed in
    ((row ∷ r.0, r.1), rw (members user (inl refl), allowed, done) refl)

-- CreateContributions succeeds for any users, repeated or not, who are all members of the team, and an
-- amount within the bounds of the table, if the contributions that the team was seen to have and the
-- users together are not more than the maximum.
pub create_contributions_succeeds :
    (seen : Store) (db : Db) (s : Store) (keys : ℕ → ℕ) (team : ℕ) (body : CreateContributions)
    → count (λ c. c.team_id == team) seen.contributions + length body.user_ids
      ≤ max_contributions_per_team
    → ((u : ℕ) → In u body.user_ids → is_member db team u ≡ true)
    → 1 ≤ body.amount
    → body.amount ≤ max_amount
    → (made : List ContributionRow) × (s' : Store) × (create_contributions seen db s keys team body
        ≡ ok (made, s'))
unfolding create_contributions
create_contributions_succeeds seen db s keys team body room members positive small =
    let (r, done) =
      insert_contributions_succeeds db s.contributions keys 0 team body body.user_ids members
        (ground (arith, positive, small)) in
    let fits : ltb max_contributions_per_team
          (count (λ c. c.team_id == team) seen.contributions + length body.user_ids)
        ≡ false =
      ground (arith, room) in
    (r.0, record s { contributions = r.1 }, rw (fits, done) refl)
