-- ===== src/Events/Listing.antt =====
-- The attendance list of an event: ListAttendance of backend/internal/events/service.go. The rows of
-- the queries are arguments. `precedes` compares two names in lower case.
use team_manager.Base.{
  ℕ, Bool, false, not, ◌&&◌, ◌||◌, String, str_eq, List, [], ◌∷◌, map, Option, some, none, any,
  find, select, contains, length, is_some, if◌then◌else◌, ◌==◌, ltb, ok, ◌>>=◌, or_fail,
}
use team_manager.Roster.Db.{Db}
use team_manager.Events.Store.{Result, no_rows}
use team_manager.Events.Attendance.{AttendanceEnriched, ResponseRow, EventTeamRow, MemberTeam}

unfoldable pub reason_shared_with_team : Option String → Bool
reason_shared_with_team none = false
reason_shared_with_team (some v) = str_eq v "team"

unfoldable pub role_sets_intersect : List ℕ → List ℕ → Bool
role_sets_intersect a b = any (contains a) b

-- The roles of the team that the viewer holds.
unfoldable pub viewer_role_ids : Db → ℕ → ℕ → List ℕ
viewer_role_ids db team viewer =
    map (λ r. r.id)
      (select
        (λ r.
          r.team_id == team
          && any
              (λ a.
                a.role_id == r.id
                && any (λ m. m.id == a.membership_id && m.team_id == team && m.user_id == viewer)
                    db.memberships)
              db.membership_roles)
        db.roles)

unfoldable pub get_reason_visibility_context : Db → ℕ → ℕ → Result (List ℕ × List ℕ)
unfolding viewer_role_ids
get_reason_visibility_context db team viewer = do
  t ← or_fail (find (λ t. t.id == team) db.teams) no_rows
  ok (t.reason_visibility_role_ids, viewer_role_ids db team viewer)

unfoldable pub needs_redaction_check : ℕ → List AttendanceEnriched → Bool
needs_redaction_check viewer rows =
    any
      (λ a.
        not (a.user_id == viewer)
        && (is_some a.effective.reason || is_some a.effective.reason_id)
        && not (reason_shared_with_team a.effective.reason_visibility))
      rows

unfoldable pub can_viewer_see_attendance_reasons :
    Db → ℕ → ℕ → List AttendanceEnriched → Result Bool
can_viewer_see_attendance_reasons db team viewer rows =
    if needs_redaction_check viewer rows
    then (get_reason_visibility_context db team viewer >>= λ c. ok (role_sets_intersect c.0 c.1))
    else ok false

unfoldable pub to_gen_attendance_row : AttendanceEnriched → ResponseRow
to_gen_attendance_row a = record {
  user_id = a.user_id;
  membership_id = some a.membership_id;
  status = a.effective.status;
  name = a.name;
  avatar_color = a.avatar_color;
  has_photo = a.has_photo;
  reason = a.effective.reason;
  reason_id = a.effective.reason_id;
  reason_visibility = a.effective.reason_visibility;
  group = a.group;
  title = a.title;
  primary_role = a.primary_role;
  auto = some a.effective.auto;
  absent = some a.effective.absent;
  team_name = none;
}

-- The loop of computeTeamBadge, with the best name so far.
unfoldable pub badge_from :
    (String → String → Bool) → ℕ → String → List EventTeamRow → Option String
badge_from precedes viewer_team best [] = some best
badge_from precedes viewer_team best (t ∷ ts) =
    let rest =
      badge_from precedes viewer_team
        (if str_eq best "" || precedes t.team_name best then t.team_name else best) ts in
    if t.team_id == viewer_team then none else rest

unfoldable pub compute_team_badge : (String → String → Bool) → ℕ → List EventTeamRow → Option String
compute_team_badge precedes viewer_team [] = none
compute_team_badge precedes viewer_team (t ∷ ts) = badge_from precedes viewer_team "" (t ∷ ts)

unfoldable pub redact_foreign_attendee : ResponseRow → Option String → ResponseRow
redact_foreign_attendee row badge = record row {
  team_name = badge;
  membership_id = none;
  group = none;
  title = none;
  primary_role = none;
  reason = none;
  reason_id = none;
  reason_visibility = none;
  auto = none;
  absent = none;
}

-- `c.memberTeams[userID]`
abbrev pub teams_of : ℕ → List MemberTeam → List EventTeamRow
teams_of user member_teams = map (λ t. t.team) (select (λ t. t.user_id == user) member_teams)

-- A user is a key of the map if a row of the query is about it.
unfoldable pub apply_badge :
    (String → String → Bool) → Bool → ℕ → List MemberTeam → ResponseRow → ResponseRow
apply_badge precedes active viewer_team member_teams row =
    if not active
    then row
    else if not (any (λ t. t.user_id == row.user_id) member_teams)
    then redact_foreign_attendee row none
    else elim (compute_team_badge precedes viewer_team (teams_of row.user_id member_teams)) [
      | none ↦ row
      | some badge ↦ redact_foreign_attendee row (some badge)
    ]

unfoldable pub hide_reason : ℕ → Bool → AttendanceEnriched → AttendanceEnriched
hide_reason viewer can_see a =
    if not (a.user_id == viewer)
      && not can_see
      && not (reason_shared_with_team a.effective.reason_visibility)
    then record a { effective = record a.effective { reason = none; reason_id = none } }
    else a

-- The body of the loop of ListAttendance.
unfoldable pub render :
    (String → String → Bool)
    → ℕ
    → ℕ
    → List EventTeamRow
    → List MemberTeam
    → Bool
    → AttendanceEnriched
    → ResponseRow
render precedes team viewer event_teams member_teams can_see a =
    apply_badge precedes (ltb 1 (length event_teams)) team member_teams
      (to_gen_attendance_row (hide_reason viewer can_see a))

unfoldable pub list_attendance :
    (String → String → Bool)
    → Db
    → ℕ
    → ℕ
    → List AttendanceEnriched
    → List EventTeamRow
    → List MemberTeam
    → Result (List ResponseRow)
list_attendance precedes db team viewer rows event_teams member_teams = do
  can_see ← can_viewer_see_attendance_reasons db team viewer rows
  ok (map (render precedes team viewer event_teams member_teams can_see) rows)
