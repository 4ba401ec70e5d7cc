-- ===== src/Finances/Ledger.antt =====
-- The operations on penalties, assignments and contributions keep the links of transactions
-- (backend/internal/finances), and so does every sequence of operations.
use team_manager.Base.{
  ℕ, ◌≡◌, refl, ap, ◌∙◌, inl, inr, Bool, true, false, not, ◌&&◌, String, List, [], ◌∷◌, Option,
  none, In, any, any-In, any_witness, ◌==◌, Bool-cases, delete, In-delete, find, update, update-In,
  Distinct-update, ok, >>-eq-ok, >>=-eq-ok, or_fail, reject_if, ok-injective, arith,
}
use team_manager.Roster.Db.{Db}
use team_manager.Finances.Store.{
  TransactionRow, ContributionRow, PenaltyRow, PenaltyAssignmentRow, Store, no_rows, links_to,
  contribution_belongs_to_team, penalty_assignment_belongs_to_team, check_amount,
}
use team_manager.Finances.Penalties.{
  PenaltyPatch, create_penalty, update_penalty, delete_penalty, create_assignment,
  delete_assignment, is_assignment, is_penalty,
}
use team_manager.Finances.Contributions.{
  ContributionPatch, update_contribution, patch_contribution, delete_contribution, is_contribution,
}
use team_manager.Finances.Links.{IsValid, keep_links}

-- An operation that keeps the transactions and the targets keeps the links.
pub targets_kept :
    (s s' : Store)
    → s'.transactions ≡ s.transactions
    → ((c team : ℕ)
        → contribution_belongs_to_team s c team ≡ true
        → contribution_belongs_to_team s' c team ≡ true)
    → ((a team : ℕ)
        → penalty_assignment_belongs_to_team s a team ≡ true
        → penalty_assignment_belongs_to_team s' a team ≡ true)
    → IsValid s
    → IsValid s'
targets_kept s s' same cs as_ v = record {
  keys = rw same v.keys;
  linked = λ t i.
      keep_links s s' t (λ c _ h. cs c t.team_id h) (λ a _ h. as_ a t.team_id h)
        (v.linked t (old t i));
}
  where
    old : (t : TransactionRow) → In t s'.transactions → In t s.transactions
    old t i = rw same at i

any-update :
    {A : Type 0} (p q : A → Bool) (f : A → A) (xs : List A)
    → ((x : A) → p (f x) ≡ p x)
    → any p (update q f xs) ≡ any p xs
any-update p q f [] same = refl
any-update p q f (x ∷ xs) same = elim (Bool-cases (q x)) [
  | inl e ↦ ground (arith, same x, any-update p q f xs same)
  | inr e ↦ ground (arith, any-update p q f xs same)
]

any-delete :
    {A : Type 0} (p q : A → Bool) (xs : List A)
    → ((x : A) → p x ≡ true → q x ≡ false)
    → any p xs ≡ true
    → any p (delete q xs) ≡ true
any-delete p q xs apart h =
    let (x, i, e) = any_witness p xs h in
    any-In p x (delete q xs) (In-delete q x xs i (apart x e)) e

pub create_penalty-IsValid :
    (s : Store) (new_id team : ℕ) (label : String) (amount : ℕ) (p : PenaltyRow) (s' : Store)
    → IsValid s
    → create_penalty s new_id team label amount ≡ ok (p, s')
    → IsValid s'
unfolding create_penalty contribution_belongs_to_team penalty_assignment_belongs_to_team
create_penalty-IsValid s new_id team label amount p s' v h =
    targets_kept s s' (ground arith) (λ c t q. ground arith) (λ a t q. ground arith) v

pub update_penalty-IsValid :
    (s : Store) (id team : ℕ) (patch : PenaltyPatch) (p : PenaltyRow) (s' : Store)
    → IsValid s
    → update_penalty s id team patch ≡ ok (p, s')
    → IsValid s'
unfolding update_penalty contribution_belongs_to_team penalty_assignment_belongs_to_team
update_penalty-IsValid s id team patch p s' v h =
    targets_kept s s' (ground arith) (λ c t q. ground arith) (λ a t q. ground arith) v

pub delete_penalty-IsValid :
    (s : Store) (id team : ℕ) (s' : Store)
    → IsValid s
    → delete_penalty s id team ≡ ok s'
    → IsValid s'
unfolding delete_penalty contribution_belongs_to_team penalty_assignment_belongs_to_team
delete_penalty-IsValid s id team s' v h =
    let (_, last) =
      >>-eq-ok (reject_if (not (any (is_penalty id team) s.penalties)) no_rows) _ s' h in
    rw (ok-injective _ s' last) (
      targets_kept s _ refl (λ c t q. q)
        (λ a t q.
          any-update (λ (x : PenaltyAssignmentRow). x.id == a && x.team_id == t)
            (λ x. links_to x.penalty_id id) (λ x. record x { penalty_id = none }) s.assignments
            (λ x. refl)
          ∙ q)
        v)

pub create_assignment-IsValid :
    (db : Db) (s : Store) (new_id now team user penalty : ℕ) (date : Option ℕ)
    (remark : Option String) (a : PenaltyAssignmentRow) (s' : Store)
    → IsValid s
    → create_assignment db s new_id now team user penalty date remark ≡ ok (a, s')
    → IsValid s'
unfolding create_assignment contribution_belongs_to_team penalty_assignment_belongs_to_team
create_assignment-IsValid db s new_id now team user penalty date remark a s' v h =
    targets_kept s s' (ground arith) (λ c t q. ground arith) (λ k t q. ground arith) v

pub delete_assignment-IsValid :
    (s : Store) (id team : ℕ) (s' : Store)
    → IsValid s
    → delete_assignment s id team ≡ ok s'
    → IsValid s'
unfolding delete_assignment contribution_belongs_to_team penalty_assignment_belongs_to_team
delete_assignment-IsValid s id team s' v h =
    let (_, last) =
      >>-eq-ok (reject_if (not (any (is_assignment id team) s.assignments)) no_rows) _ s' h in
    rw (ok-injective _ s' last) (record {
      keys = Distinct-update (λ t. t.id) _ _ s.transactions (λ t. refl) v.keys;
      linked = λ t i.
          let (x, j, e) =
            update-In (λ y. links_to y.penalty_assignment_id id)
              (λ y. record y { penalty_assignment_id = none }) t s.transactions i in
          let l = v.linked x j in
          elim (Bool-cases (links_to x.penalty_assignment_id id)) [
            | inl own ↦
                rw (e, own)
                  (record {
                    contribution = λ c q. let (_, y, z) = l.contribution c q in (refl, y, z);
                    assignment = λ k q. absurd (cc q);
                  })
            | inr other ↦
                rw (e, other)
                  (keep_links s _ x (λ c _ q. q)
                    (λ k linked q.
                      any-delete _ (is_assignment id team) s.assignments
                        (λ y is_k. ground (arith, linked)) q)
                    l)
          ];
    })

pub update_contribution-IsValid :
    (s : Store) (id team : ℕ) (patch : ContributionPatch) (c : ContributionRow) (s' : Store)
    → IsValid s
    → update_contribution s id team patch ≡ ok (c, s')
    → IsValid s'
unfolding update_contribution contribution_belongs_to_team penalty_assignment_belongs_to_team
    patch_contribution
update_contribution-IsValid s id team patch c s' v h =
    let (row, _, h₁) =
      >>=-eq-ok (or_fail (find (is_contribution id team) s.contributions) no_rows) _ (c, s') h in
    let (_, last) = >>-eq-ok (check_amount (patch_contribution patch row).amount) _ (c, s') h₁ in
    let e : s' ≡ record s {
      contributions = update (is_contribution id team) (patch_contribution patch) s.contributions;
    } =
      ap (λ (r : ContributionRow × Store). r.1)
        (ok-injective
          (
            patch_contribution patch row,
            record s {
              contributions =
                  update (is_contribution id team) (patch_contribution patch) s.contributions;
            },
          )
          (c, s') last) in
    rw e (
      targets_kept s _ refl
        (λ k t q.
          any-update (λ (x : ContributionRow). x.id == k && x.team_id == t)
            (is_contribution id team) (patch_contribution patch) s.contributions (λ x. refl)
          ∙ q)
        (λ a t q. q) v)

pub delete_contribution-IsValid :
    (s : Store) (id team : ℕ) (s' : Store)
    → IsValid s
    → delete_contribution s id team ≡ ok s'
    → IsValid s'
unfolding delete_contribution contribution_belongs_to_team penalty_assignment_belongs_to_team
delete_contribution-IsValid s id team s' v h =
    let (_, last) =
      >>-eq-ok (reject_if (not (any (is_contribution id team) s.contributions)) no_rows) _ s' h in
    rw (ok-injective _ s' last) (record {
      keys = Distinct-update (λ t. t.id) _ _ s.transactions (λ t. refl) v.keys;
      linked = λ t i.
          let (x, j, e) =
            update-In (λ y. links_to y.contribution_id id)
              (λ y. record y { contribution_id = none }) t s.transactions i in
          let l = v.linked x j in
          elim (Bool-cases (links_to x.contribution_id id)) [
            | inl own ↦
                rw (e, own)
                  (record {
                    contribution = λ c q. absurd (cc q);
                    assignment = λ k q. let (_, y, z) = l.assignment k q in (refl, y, z);
                  })
            | inr other ↦
                rw (e, other)
                  (keep_links s _ x
                    (λ c linked q.
                      any-delete _ (is_contribution id team) s.contributions
                        (λ y is_c. ground (arith, linked)) q)
                    (λ k _ q. q) l)
          ];
    })
