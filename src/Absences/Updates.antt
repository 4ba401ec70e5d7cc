-- ===== src/Absences/Updates.antt =====
-- Update, Delete and SetStatsRelevance of backend/internal/absences keep the ranges apart and
-- within the bound.
use team_manager.Base.{
  ℕ, ◌≡◌, refl, sym, ap, ◌∙◌, inl, inr, Bool, true, false, not, ◌&&◌, String, List, Option, some,
  none, In, any, Distinct-eq, Distinct-select, Distinct-update, find, find-In, update, update-In,
  delete-In, Bool-cases, or_default, if◌then◌else◌, ok, >>-eq-ok, reject_if, ok-injective, arith,
}
use team_manager.Roster.Db.{Db}
use team_manager.Roster.Queries.{is_member}
use team_manager.Absences.Store.{
  AbsenceRow, check_range, user_has_overlapping_absence, is_own, resolve_final_range, coalesce_row,
  update_absence, delete_absence, is_absence, write_stats_relevance, no_rows,
}
use team_manager.Absences.Service.{set_stats_relevance}
use team_manager.Absences.Overlap.{
  Bounded, Apart, IsValid, Apart-sym, check_range-Bounded, no_overlap,
}

-- What a successful Update has checked: the range of the row that it writes.
pub update-checked :
    (db : Db) (rows : List AbsenceRow) (id team user : ℕ) (from_date to_date : Option ℕ)
    (reason : Option String) (rows' : List AbsenceRow)
    → update_absence db rows id team user from_date to_date reason ≡ ok rows'
    → (a : AbsenceRow) × (find (is_own id team user) rows ≡ some a)
      × (user_has_overlapping_absence rows team user id
            (or_default from_date a.from_date)
            (or_default to_date a.to_date)
          ≡ false)
      × (is_member db team user ≡ true)
      × (check_range (or_default from_date a.from_date) (or_default to_date a.to_date) ≡ ok tt)
      × (rows' ≡ update (is_own id team user) (coalesce_row from_date to_date reason) rows)
unfolding update_absence resolve_final_range
update-checked db rows id team user from_date to_date reason rows' h =
    let (a, e) = go (find (is_own id team user) rows) refl in
    (a, e, ground (arith, e), ground (arith, e), ground (arith, e), ground (arith, e))
  where
    go :
        (o : Option AbsenceRow)
        → find (is_own id team user) rows ≡ o
        → (a : AbsenceRow) × (find (is_own id team user) rows ≡ some a)
    go none e = absurd (ground (arith, e))
    go (some a) e = (a, e)

-- The row that the update leaves in place of `a`.
abbrev updated : (AbsenceRow → Bool) → (AbsenceRow → AbsenceRow) → AbsenceRow → AbsenceRow
updated p f a = if p a then f a else a

-- An update that keeps keys, owners and teams, and that leaves a valid range apart from the others
-- on the rows that it changes, keeps the table valid.
update-IsValid :
    (rows : List AbsenceRow) (p : AbsenceRow → Bool) (f : AbsenceRow → AbsenceRow)
    → ((a : AbsenceRow) → (f a).id ≡ a.id)
    → ((a : AbsenceRow) → (f a).team_id ≡ a.team_id)
    → ((a : AbsenceRow) → (f a).user_id ≡ a.user_id)
    → ((a : AbsenceRow) → In a rows → p a ≡ true → Bounded (f a))
    → ((a b : AbsenceRow) → In a rows → In b rows → p a ≡ true → Apart (f a) b)
    → ((a b : AbsenceRow) → In a rows → In b rows → p a ≡ true → p b ≡ true → Apart (f a) (f b))
    → IsValid rows
    → IsValid (update p f rows)
update-IsValid rows p f same_id same_team same_user range apart one v = record {
  keys = Distinct-update (λ a. a.id) p f rows same_id v.keys;
  no_nil = λ b i.
      let (a, j, e) = update-In p f b rows i in
      λ z. v.no_nil a j (sym (id_of a) ∙ sym (ap (λ (x : AbsenceRow). x.id) e) ∙ z);
  bounded = λ b i. let (a, j, e) = update-In p f b rows i in rw e (bounded_of a j);
  apart = λ c d i j.
      let (a, k, e) = update-In p f c rows i in
      let (b, l, q) = update-In p f d rows j in rw (e, q) (apart_of a b k l);
}
  where
    id_of : (a : AbsenceRow) → (updated p f a).id ≡ a.id
    id_of a = elim (Bool-cases (p a)) [ inl e ↦ rw e (same_id a) | inr e ↦ rw e ]

    bounded_of : (a : AbsenceRow) → In a rows → Bounded (updated p f a)
    bounded_of a i = elim (Bool-cases (p a)) [
      | inl e ↦ rw e (range a i e)
      | inr e ↦ rw e (v.bounded a i)
    ]

    apart_of : (a b : AbsenceRow) → In a rows → In b rows → Apart (updated p f a) (updated p f b)
    apart_of a b i j = elim (Bool-cases (p a)) [
      | inl e ↦ elim (Bool-cases (p b)) [
        | inl q ↦ rw (e, q) (one a b i j e q)
        | inr q ↦ rw (e, q) (apart a b i j e)
      ]
      | inr e ↦ elim (Bool-cases (p b)) [
        | inl q ↦ rw (e, q) (Apart-sym (f b) a (apart b a j i q))
        | inr q ↦ rw (e, q) (v.apart a b i j)
      ]
    ]

coalesce_row-range :
    (from_date to_date : Option ℕ) (reason : Option String) (a : AbsenceRow)
    → ((coalesce_row from_date to_date reason a).from_date ≡ or_default from_date a.from_date)
      × ((coalesce_row from_date to_date reason a).to_date ≡ or_default to_date a.to_date)
      × ((coalesce_row from_date to_date reason a).id ≡ a.id)
      × ((coalesce_row from_date to_date reason a).team_id ≡ a.team_id)
      × ((coalesce_row from_date to_date reason a).user_id ≡ a.user_id)
unfolding coalesce_row
coalesce_row-range from_date to_date reason a = (refl, refl, refl, refl, refl)

pub update_absence-IsValid :
    (db : Db) (rows : List AbsenceRow) (id team user : ℕ) (from_date to_date : Option ℕ)
    (reason : Option String) (rows' : List AbsenceRow)
    → IsValid rows
    → update_absence db rows id team user from_date to_date reason ≡ ok rows'
    → IsValid rows'
update_absence-IsValid db rows id team user from_date to_date reason rows' v h =
    let (a, found, clear, _, range, e) =
      update-checked db rows id team user from_date to_date reason rows' h in
    let (i, is_a) = find-In (is_own id team user) a rows found in
    let f : AbsenceRow → AbsenceRow = coalesce_row from_date to_date reason in
    let facts = coalesce_row-range from_date to_date reason in
    let (le, span) = check_range-Bounded _ _ range in
    let same : (b : AbsenceRow) → In b rows → is_own id team user b ≡ true → b ≡ a =
      λ b j is_b. Distinct-eq (λ x. x.id) b a rows v.keys j i (ground arith) in
    rw e (
      update-IsValid rows (is_own id team user) f (λ b. (facts b).2) (λ b. (facts b).3)
        (λ b. (facts b).4) (λ b j is_b. rw (same b j is_b, (facts a).0, (facts a).1) (le, span))
        (λ b c j k is_b t u d.
          let o =
            no_overlap rows team user id _ _ c clear k (ground (arith, t, (facts b).3))
              (ground (arith, u, (facts b).4)) (λ q. d ((facts b).2 ∙ ground arith ∙ sym q)) in
          rw (same b j is_b, (facts a).0, (facts a).1) o)
        (λ b c j k is_b is_c t u d.
          absurd (d (ap (λ (x : AbsenceRow). (f x).id) (same b j is_b ∙ sym (same c k is_c)))))
        v)

pub delete_absence-IsValid :
    (db : Db) (rows : List AbsenceRow) (id team user : ℕ) (rows' : List AbsenceRow)
    → IsValid rows
    → delete_absence db rows id team user ≡ ok rows'
    → IsValid rows'
unfolding delete_absence
delete_absence-IsValid db rows id team user rows' v h =
    let (_, last) =
      >>-eq-ok (reject_if (not (is_member db team user && any (is_own id team user) rows)) no_rows)
        _ rows' h in
    let old : (a : AbsenceRow) → In a _ → In a rows =
      λ a i. (delete-In (is_own id team user) a rows i).0 in
    rw (ok-injective _ rows' last) (record {
      keys = Distinct-select (λ a. a.id) _ rows v.keys;
      no_nil = λ a i. v.no_nil a (old a i);
      bounded = λ a i. v.bounded a (old a i);
      apart = λ a b i j. v.apart a b (old a i) (old b j);
    })

abbrev pub with_relevance : ℕ → Bool → AbsenceRow → AbsenceRow
with_relevance caller not_relevant a = record a {
  not_relevant_for_stats = not_relevant;
  not_relevant_set_by = some caller;
}

pub set_stats_relevance-written :
    (db : Db) (rows : List AbsenceRow) (id team caller : ℕ) (not_relevant : Bool)
    (rows' : List AbsenceRow)
    → set_stats_relevance db rows id team caller not_relevant ≡ ok rows'
    → rows' ≡ update (is_absence id team) (with_relevance caller not_relevant) rows
unfolding set_stats_relevance write_stats_relevance
set_stats_relevance-written db rows id team caller not_relevant rows' h = ground arith

pub set_stats_relevance-IsValid :
    (db : Db) (rows : List AbsenceRow) (id team caller : ℕ) (not_relevant : Bool)
    (rows' : List AbsenceRow)
    → IsValid rows
    → set_stats_relevance db rows id team caller not_relevant ≡ ok rows'
    → IsValid rows'
set_stats_relevance-IsValid db rows id team caller not_relevant rows' v h =
    rw (set_stats_relevance-written db rows id team caller not_relevant rows' h) (
      update-IsValid rows (is_absence id team) (with_relevance caller not_relevant) (λ a. refl)
        (λ a. refl) (λ a. refl) (λ a i _. v.bounded a i) (λ a b i j _. v.apart a b i j)
        (λ a b i j _ _. v.apart a b i j) v)
