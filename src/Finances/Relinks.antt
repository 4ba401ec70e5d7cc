-- ===== src/Finances/Relinks.antt =====
-- UpdateTransaction and DeleteTransaction of backend/internal/finances keep the links of
-- transactions.
use team_manager.Base.{
  ℕ, ◌≡◌, refl, ap, inl, inr, true, not, Option, none, some, In, any, Bool-cases, delete-In, find,
  find-In, update, update-In, Distinct-eq, Distinct-select, Distinct-update, or_default,
  if◌then◌else◌, ok, >>-eq-ok, >>=-eq-ok, or_fail, reject_if, ok-injective, arith,
}
use team_manager.Finances.Store.{TransactionType, TransactionRow, Store, no_rows, check_amount}
use team_manager.Finances.Transactions.{
  TransactionPatch, is_transaction, patch_transaction, guard_type_change, update_transaction,
  delete_transaction, is_linked,
}
use team_manager.Finances.Links.{IsLinked, IsValid, same_targets, with_transactions}

patch-id : (patch : TransactionPatch) (x : TransactionRow) → (patch_transaction patch x).id ≡ x.id
unfolding patch_transaction
patch-id patch x = refl

-- What a successful UpdateTransaction has checked.
update_transaction-checked :
    (s : Store) (id team : ℕ) (patch : TransactionPatch) (t : TransactionRow) (s' : Store)
    → update_transaction s id team patch ≡ ok (t, s')
    → (guard_type_change s id team patch ≡ ok tt)
      × (s'
          ≡ with_transactions s
              (update (is_transaction id team) (patch_transaction patch) s.transactions))
unfolding update_transaction
update_transaction-checked s id team patch t s' h =
    let (guard, h₁) = >>-eq-ok (guard_type_change s id team patch) _ (t, s') h in
    let (row, _, h₂) =
      >>=-eq-ok (or_fail (find (is_transaction id team) s.transactions) no_rows) _ (t, s') h₁ in
    let (_, last) = >>-eq-ok (check_amount (patch_transaction patch row).amount) _ (t, s') h₂ in
    (
      guard,
      ap (λ (r : TransactionRow × Store). r.1)
          (ok-injective
            (
              patch_transaction patch row,
              with_transactions s
                  (update (is_transaction id team) (patch_transaction patch) s.transactions),
            )
            (t, s') last),
    )

-- A linked row that the update changes keeps the type income.
patched-IsLinked :
    (s : Store) (id team : ℕ) (patch : TransactionPatch) (t : TransactionRow)
    → IsValid s
    → In t s.transactions
    → is_transaction id team t ≡ true
    → guard_type_change s id team patch ≡ ok tt
    → IsLinked s (patch_transaction patch t)
unfolding guard_type_change patch_transaction
patched-IsLinked s id team patch t v i own guard =
    let l = v.linked t i in
    record {
      contribution =
          λ c e. let (x, y, z) = l.contribution c e in (x, keeps_income (ground (arith, e)) y, z);
      assignment =
          λ a e. let (x, y, z) = l.assignment a e in (x, keeps_income (ground (arith, e)) y, z);
    }
  where
    found :
        (o : Option TransactionRow)
        → find (is_transaction id team) s.transactions ≡ o
        → is_linked t ≡ true
        → t.type ≡ TransactionType.income
        → or_default patch.type t.type ≡ TransactionType.income
    found none e linked inc = ground (arith, e)
    found (some u) e linked inc =
        let (j, is_u) = find-In (is_transaction id team) u s.transactions e in
        let row : u ≡ t = Distinct-eq (λ x. x.id) u t s.transactions v.keys j i (ground arith) in
        ground (arith, e, ap is_linked row)

    keeps_income :
        is_linked t ≡ true
        → t.type ≡ TransactionType.income
        → or_default patch.type t.type ≡ TransactionType.income
    keeps_income = found (find (is_transaction id team) s.transactions) refl

pub update_transaction-IsValid :
    (s : Store) (id team : ℕ) (patch : TransactionPatch) (t : TransactionRow) (s' : Store)
    → IsValid s
    → update_transaction s id team patch ≡ ok (t, s')
    → IsValid s'
update_transaction-IsValid s id team patch t s' v h =
    let (guard, e) = update_transaction-checked s id team patch t s' h in
    rw e (record {
      keys =
          Distinct-update (λ u. u.id) (is_transaction id team) (patch_transaction patch)
            s.transactions same_id v.keys;
      linked = λ u i.
          let (x, j, q) =
            update-In (is_transaction id team) (patch_transaction patch) u s.transactions i in
          rw q (same_targets s _ _ (row guard x j));
    })
  where
    same_id : (x : TransactionRow) → (patch_transaction patch x).id ≡ x.id
    same_id x = patch-id patch x

    row :
        guard_type_change s id team patch ≡ ok tt
        → (x : TransactionRow) → In x s.transactions
        → IsLinked s (if is_transaction id team x then patch_transaction patch x else x)
    row guard x j = elim (Bool-cases (is_transaction id team x)) [
      | inl own ↦ rw own (patched-IsLinked s id team patch x v j own guard)
      | inr other ↦ rw other (v.linked x j)
    ]

pub delete_transaction-IsValid :
    (s : Store) (id team : ℕ) (s' : Store)
    → IsValid s
    → delete_transaction s id team ≡ ok s'
    → IsValid s'
unfolding delete_transaction
delete_transaction-IsValid s id team s' v h =
    let (_, last) =
      >>-eq-ok (reject_if (not (any (is_transaction id team) s.transactions)) no_rows) _ s' h in
    rw (ok-injective _ s' last) (record {
      keys = Distinct-select (λ u. u.id) _ s.transactions v.keys;
      linked = λ u i.
          same_targets s _ u (v.linked u (delete-In (is_transaction id team) u s.transactions i).0);
    })
