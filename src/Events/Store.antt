-- ===== src/Events/Store.antt =====
-- backend/internal/events/repository.go: GetEvent, SetAttendance and SetNomination over the tables
-- of events, their target teams and attendance, and EventStartInstant of zonedtime.go. A date is its
-- day number, a time of day its minute (the columns have the type time), an instant a number of
-- seconds. `berlin` is the conversion of a date and a wall-clock minute in Europe/Berlin to an
-- instant, by the time zone database: Go's and PostgreSQL's, which the model takes to be one (they may
-- choose differently in the hour that a change of the clocks repeats). Memberships and roles are those of the roster.
use team_manager.Base.{
  ℕ, ◌+◌, ◌*◌, Bool, true, not, ◌&&◌, ◌||◌, String, str_eq, List, [], ◌∷◌, Option, none, some, ◌==◌,
  leb, any, delete, find, update, if◌then◌else◌, Outcome, ok, ◌>>◌, reject_if, or_fail,
}
use team_manager.Roster.Db.{Db, RoleRow}
use team_manager.Roster.Queries.{holds_role, is_member}

-- The time of creation and the column `result`, which no operation writes, are left out.
pub record EventRow : Type 0 where
  pub id : ℕ
  pub team_id : ℕ
  pub series_id : Option ℕ
  pub type : String
  pub title : String
  pub status : String
  pub date : ℕ
  pub end_date : Option ℕ
  pub location : Option String
  pub note : Option String
  pub meet_time : Option ℕ
  pub start_time : Option ℕ
  pub end_time : Option ℕ
  pub meet_time_mandatory : Bool
  pub response_mode : String
  pub nominated_role_ids : List ℕ
  pub cancel_lead_minutes : Option ℕ
  pub exclude_from_stats : Bool

-- event_series. The columns that its occurrences copy are not read again and are left out.
pub record EventSeriesRow : Type 0 where
  pub id : ℕ
  pub team_id : ℕ
  pub repeat_weeks : ℕ
  pub repeat_end_date : Option ℕ

-- event_teams: the teams that an event is for.
pub record EventTeam : Type 0 where
  pub event_id : ℕ
  pub team_id : ℕ

pub record AttendanceRow : Type 0 where
  pub id : ℕ
  pub event_id : ℕ
  pub user_id : ℕ
  pub status : String
  pub reason : Option String
  pub reason_id : Option String
  pub reason_visibility : Option String
  pub at : ℕ

pub record Tables : Type 0 where
  pub events : List EventRow
  pub series : List EventSeriesRow
  pub event_teams : List EventTeam
  pub attendance : List AttendanceRow

pub data Error : Type 0 where
  no_rows status_not_nominated set_attendance_forbidden : Error
  event_cancelled cancel_lead_time_passed set_nomination_forbidden check_violation : Error

abbrev pub Result {ℓ} : Type ℓ → Type ℓ
Result A = Outcome Error A

unfoldable pub event_scoped_by_any_target_team : Tables → ℕ → EventRow → Bool
event_scoped_by_any_target_team s team e =
    any (λ et. et.event_id == e.id && et.team_id == team) s.event_teams

unfoldable pub get_event : Tables → ℕ → ℕ → Result EventRow
get_event s event team =
    or_fail (find (λ e. e.id == event && event_scoped_by_any_target_team s team e) s.events) no_rows

-- The start time, else the meeting time, else 18:00.
unfoldable pub wall_clock : Option ℕ → Option ℕ → ℕ
wall_clock (some t) meet = t
wall_clock none (some t) = t
wall_clock none none = 1080

unfoldable pub event_start_instant : (ℕ → ℕ → ℕ) → EventRow → ℕ
unfolding wall_clock
event_start_instant berlin e = berlin e.date (wall_clock e.start_time e.meet_time)

-- `cancel_lead_minutes IS NULL OR now() <= start - cancel_lead_minutes`
unfoldable pub before_cutoff : (ℕ → ℕ → ℕ) → ℕ → EventRow → Bool
before_cutoff berlin now e = elim e.cancel_lead_minutes [
  | none ↦ true
  | some lead ↦ leb (now + lead * 60) (event_start_instant berlin e)
]

-- `r.permissions->>'events' = 'write'`
abbrev pub events_write : RoleRow → Bool
events_write r = str_eq r.permissions.events "write"

-- The CTE caller_write.
unfoldable pub has_write : Db → ℕ → ℕ → Bool
has_write db team caller =
    any
      (λ m.
        m.team_id == team
        && m.user_id == caller
        && holds_role db m (λ r. r.team_id == team && events_write r))
      db.memberships

-- The unique key (event_id, user_id).
abbrev pub is_response : ℕ → ℕ → AttendanceRow → Bool
is_response event user a = a.event_id == event && a.user_id == user

-- `ON CONFLICT (event_id, user_id) DO UPDATE SET …`: the stored row keeps its id.
abbrev pub overwrite : AttendanceRow → AttendanceRow → AttendanceRow
overwrite new old = record new { id = old.id }

unfoldable pub upsert : AttendanceRow → List AttendanceRow → List AttendanceRow
upsert new rows =
    if any (is_response new.event_id new.user_id) rows
    then update (is_response new.event_id new.user_id) (overwrite new) rows
    else new ∷ rows

-- `EXISTS (SELECT 1 FROM events e WHERE …)` of SetAttendance.
unfoldable pub accepts_response : (ℕ → ℕ → ℕ) → ℕ → Tables → ℕ → ℕ → Bool → EventRow → Bool
accepts_response berlin now s event team write e =
    e.id == event
    && event_scoped_by_any_target_team s team e
    && not (str_eq e.status "cancelled")
    && (before_cutoff berlin now e || write)

-- `CHECK (status IN (…))` of attendance.
abbrev pub attendance_statuses : List String
attendance_statuses = "yes" ∷ "no" ∷ "maybe" ∷ "pending" ∷ "not_nominated" ∷ []

-- `CHECK (reason_visibility IN (…))` of attendance, which NULL passes.
abbrev pub reason_visibilities : List String
reason_visibilities = "trainers" ∷ "team" ∷ []

unfoldable pub attendance_allowed : AttendanceRow → Bool
attendance_allowed a =
    any (str_eq a.status) attendance_statuses
    && elim a.reason_visibility [ none ↦ true | some v ↦ any (str_eq v) reason_visibilities ]

-- `new` is the row to insert, its id the key that the database generates. The constraints see a row
-- only where there is one to insert.
unfoldable pub write_attendance :
    (ℕ → ℕ → ℕ) → ℕ → Db → Tables → ℕ → ℕ → AttendanceRow → Result Tables
write_attendance berlin now db s caller team new =
    let write = has_write db team caller in
    reject_if
      (not (
        any (accepts_response berlin now s new.event_id team write) s.events
        && is_member db team new.user_id
        && (caller == new.user_id || write)))
      no_rows
    >> reject_if (not (attendance_allowed new)) check_violation
    >> ok (record s { attendance = upsert (record new { at = now }) s.attendance })

abbrev pub not_nominated_row : ℕ → ℕ → ℕ → ℕ → AttendanceRow
not_nominated_row new_id event user now = record {
  id = new_id;
  event_id = event;
  user_id = user;
  status = "not_nominated";
  reason = none;
  reason_id = none;
  reason_visibility = none;
  at = now;
}

unfoldable pub event_in_team : Tables → ℕ → ℕ → Bool
event_in_team s event team =
    any (λ e. e.id == event && event_scoped_by_any_target_team s team e) s.events

-- `a.event_id = $1 AND a.user_id = $2 AND a.status = 'not_nominated'`
abbrev pub is_not_nominated : ℕ → ℕ → AttendanceRow → Bool
is_not_nominated event user a = is_response event user a && str_eq a.status "not_nominated"

-- The DELETE writes nothing where its conditions on the event or the caller fail, and its caller is
-- then told so.
unfoldable pub write_nomination : Db → Tables → ℕ → ℕ → ℕ → ℕ → ℕ → ℕ → Bool → Result Tables
write_nomination db s new_id now event caller user team nominated =
    let may = event_in_team s event team && has_write db team caller in
    if nominated
    then reject_if (not may) no_rows
      >> ok (record s { attendance = delete (is_not_nominated event user) s.attendance })
    else reject_if (not (may && is_member db team user)) no_rows
      >> ok
          (record s { attendance = upsert (not_nominated_row new_id event user now) s.attendance })
