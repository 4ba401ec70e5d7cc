-- ===== src/Events/Service.antt =====
-- backend/internal/events/service.go: SetAttendance and SetNomination. The service reads before the
-- repository writes, and other requests can commit in between, so each read has a snapshot of its
-- own. The permission checker is configured, as the server does.
use team_manager.Base.{
  ℕ, ◌+◌, ◌*◌, Bool, not, ◌||◌, String, str_eq, Option, none, some, ◌==◌, ltb, if◌then◌else◌, ok,
  ◌>>◌, ◌>>=◌, reject_if,
}
use team_manager.Roster.Db.{Db}
use team_manager.Roster.Queries.{user_permissions}
use team_manager.Events.Store.{
  EventRow, AttendanceRow, Tables, Error, status_not_nominated, set_attendance_forbidden,
  event_cancelled, cancel_lead_time_passed, set_nomination_forbidden, Result, get_event,
  event_start_instant, write_attendance, write_nomination,
}

-- What the checks of SetAttendance read, in their order.
pub record Seen : Type 0 where
  pub at_permission : Db
  pub at_event : Tables
  pub at_cutoff : ℕ
  pub at_late : Db

-- jobs.NotificationArgs of the type "attendance".
pub record NotificationArgs : Type 0 where
  pub team_id : ℕ
  pub actor_id : ℕ
  pub event_id : ℕ
  pub event_title : String
  pub event_date : ℕ
  pub status : String

unfoldable pub require_caller_events_write : Db → ℕ → ℕ → Error → Result (Unit {0})
require_caller_events_write db caller team on_denied =
    reject_if (not (str_eq (user_permissions db team caller).events "write")) on_denied

-- `time.Now().After(start.Add(-lead))`
unfoldable pub past_cutoff : (ℕ → ℕ → ℕ) → ℕ → EventRow → ℕ → Bool
past_cutoff berlin now e lead = ltb (event_start_instant berlin e) (now + lead * 60)

unfoldable pub check_cutoff : (ℕ → ℕ → ℕ) → Seen → ℕ → ℕ → EventRow → Result (Unit {0})
check_cutoff berlin seen caller team e = elim e.cancel_lead_minutes [
  | none ↦ ok tt
  | some lead ↦
      if past_cutoff berlin seen.at_cutoff e lead
      then require_caller_events_write seen.at_late caller team cancel_lead_time_passed
      else ok tt
]

unfoldable pub enqueue_attendance_notification : EventRow → ℕ → ℕ → String → Option NotificationArgs
enqueue_attendance_notification e team user status =
    if str_eq status "yes" || str_eq status "no" || str_eq status "maybe"
    then some (record {
      team_id = team;
      actor_id = user;
      event_id = e.id;
      event_title = e.title;
      event_date = e.date;
      status = status;
    })
    else none

-- `now`, `db` and `s` are what the write finds. The result has the notification that is enqueued.
unfoldable pub set_attendance :
    (ℕ → ℕ → ℕ)
    → Seen
    → ℕ
    → Db
    → Tables
    → ℕ
    → ℕ
    → AttendanceRow
    → Result (Tables × Option NotificationArgs)
set_attendance berlin seen now db s caller team new = do
  reject_if (str_eq new.status "not_nominated") status_not_nominated
  if caller == new.user_id
      then ok tt
      else require_caller_events_write seen.at_permission caller team set_attendance_forbidden
  e ← get_event seen.at_event new.event_id team
  reject_if (str_eq e.status "cancelled") event_cancelled
  check_cutoff berlin seen caller team e
  s' ← write_attendance berlin now db s caller team new
  ok (s', enqueue_attendance_notification e team new.user_id new.status)

-- `checked` is the roster that the permission check reads, `db` the one that the write finds.
unfoldable pub set_nomination : Db → Db → Tables → ℕ → ℕ → ℕ → ℕ → ℕ → ℕ → Bool → Result Tables
set_nomination checked db s new_id now event caller user team nominated =
    reject_if (not (str_eq (user_permissions checked team caller).events "write"))
      set_nomination_forbidden
    >> write_nomination db s new_id now event caller user team nominated
