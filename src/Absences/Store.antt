-- ===== src/Absences/Store.antt =====
-- backend/internal/absences/repository.go: Create, Update, Delete, GetOwner and SetStatsRelevance
-- over the table of absences. A date is its day number; the columns that the queries join for
-- display are not modelled. Memberships are those of the roster.
use team_manager.Base.{
  ℕ, ◌-◌, Bool, false, not, ◌&&◌, String, List, ◌∷◌, Option, none, some, ◌==◌, ltb, leb, any,
  delete, find, update, if◌then◌else◌, is_some, or_default, Outcome, ok, ◌>>◌, ◌>>=◌, reject_if,
  or_fail,
}
use team_manager.Roster.Db.{Db}
use team_manager.Roster.Queries.{is_member}

pub record AbsenceRow : Type 0 where
  pub id : ℕ
  pub user_id : ℕ
  pub team_id : ℕ
  pub from_date : ℕ
  pub to_date : ℕ
  pub reason : Option String
  pub not_relevant_for_stats : Bool
  pub not_relevant_set_by : Option ℕ

pub data Error : Type 0 where
  not_member invalid_date_range span_too_long overlapping_absence : Error
  no_rows forbidden_stats_relevance : Error

abbrev pub Result {ℓ} : Type ℓ → Type ℓ
Result A = Outcome Error A

-- uuid.Nil
abbrev pub nil_id : ℕ
nil_id = 0

-- The bound of the constraint absences_span_within_limit, in days.
abbrev pub max_span : ℕ
max_span = 1095

-- The two CHECK constraints of the table, and the errors that their violations are mapped to.
unfoldable pub check_range : ℕ → ℕ → Result (Unit {0})
check_range from_date to_date =
    reject_if (ltb max_span (to_date - from_date)) span_too_long
    >> reject_if (ltb to_date from_date) invalid_date_range

unfoldable pub user_has_overlapping_absence : List AbsenceRow → ℕ → ℕ → ℕ → ℕ → ℕ → Bool
user_has_overlapping_absence rows team user exclude from_date to_date =
    any
      (λ a.
        a.team_id == team
        && a.user_id == user
        && not (a.id == exclude)
        && leb a.from_date to_date
        && leb from_date a.to_date)
      rows

abbrev pub new_row : ℕ → ℕ → ℕ → ℕ → ℕ → Option String → AbsenceRow
new_row new_id team user from_date to_date reason = record {
  id = new_id;
  user_id = user;
  team_id = team;
  from_date = from_date;
  to_date = to_date;
  reason = reason;
  not_relevant_for_stats = false;
  not_relevant_set_by = none;
}

-- `new_id` is the key that the database generates.
unfoldable pub create :
    Db → List AbsenceRow → ℕ → ℕ → ℕ → ℕ → ℕ → Option String → Result (AbsenceRow × List AbsenceRow)
unfolding check_range
create db rows new_id team user from_date to_date reason =
    let row = new_row new_id team user from_date to_date reason in
    reject_if (user_has_overlapping_absence rows team user nil_id from_date to_date)
      overlapping_absence
    >> reject_if (not (is_member db team user)) not_member
    >> check_range from_date to_date
    >> ok (row, row ∷ rows)

-- `WHERE id = $1 AND team_id = $2 AND user_id = $3`
abbrev pub is_own : ℕ → ℕ → ℕ → AbsenceRow → Bool
is_own id team user a = a.id == id && a.team_id == team && a.user_id == user

-- The stored range with the dates that the patch supplies.
unfoldable pub resolve_final_range :
    List AbsenceRow → ℕ → ℕ → ℕ → Option ℕ → Option ℕ → Result (ℕ × ℕ)
resolve_final_range rows id team user from_date to_date = do
  a ← or_fail (find (is_own id team user) rows) no_rows
  ok (or_default from_date a.from_date, or_default to_date a.to_date)

-- `SET from_date = COALESCE($4, from_date), …`
unfoldable pub coalesce_row : Option ℕ → Option ℕ → Option String → AbsenceRow → AbsenceRow
coalesce_row from_date to_date reason a = record a {
  from_date = or_default from_date a.from_date;
  to_date = or_default to_date a.to_date;
  reason = if is_some reason then reason else a.reason;
}

-- The range that is checked is that of the updated row: the id is a key, so the UPDATE writes the
-- row whose range was resolved.
unfoldable pub update_absence :
    Db
    → List AbsenceRow
    → ℕ
    → ℕ
    → ℕ
    → Option ℕ
    → Option ℕ
    → Option String
    → Result (List AbsenceRow)
unfolding check_range resolve_final_range coalesce_row
update_absence db rows id team user from_date to_date reason = do
  final ← resolve_final_range rows id team user from_date to_date
  reject_if (user_has_overlapping_absence rows team user id final.0 final.1) overlapping_absence
  reject_if (not (is_member db team user)) no_rows
  check_range final.0 final.1
  ok (update (is_own id team user) (coalesce_row from_date to_date reason) rows)

unfoldable pub delete_absence : Db → List AbsenceRow → ℕ → ℕ → ℕ → Result (List AbsenceRow)
delete_absence db rows id team user =
    reject_if (not (is_member db team user && any (is_own id team user) rows)) no_rows
    >> ok (delete (is_own id team user) rows)

abbrev pub is_absence : ℕ → ℕ → AbsenceRow → Bool
is_absence id team a = a.id == id && a.team_id == team

unfoldable pub get_owner : List AbsenceRow → ℕ → ℕ → Result ℕ
get_owner rows id team = do a ← or_fail (find (is_absence id team) rows) no_rows; ok a.user_id

unfoldable pub write_stats_relevance : List AbsenceRow → ℕ → ℕ → Bool → ℕ → Result (List AbsenceRow)
write_stats_relevance rows id team not_relevant set_by =
    reject_if (not (any (is_absence id team) rows)) no_rows
    >> ok (
        update (is_absence id team)
          (λ a. record a {
            not_relevant_for_stats = not_relevant;
            not_relevant_set_by = some set_by;
          })
          rows)
