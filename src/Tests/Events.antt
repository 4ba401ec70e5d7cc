-- ===== src/Tests/Events.antt =====
-- A training with a cutoff, at the team of the tests of the roster
-- (backend/internal/events).
use team_manager.Base.{
  ℕ, ◌+◌, ◌*◌, ◌≤◌, ◌<◌, max, ◌≡◌, ◌≢◌, refl, inl, inr, ◌⊎◌, ◌↔◌, true, false, str_eq_iff, [], ◌∷◌,
  String, Option, none, some, In, find, ok, err, arith,
}
use Prim.Native.Nat.{min}
use team_manager.Roster.Queries.{is_member, user_permissions}
use team_manager.Events.Store.{
  EventRow, AttendanceRow, Tables, cancel_lead_time_passed, status_not_nominated, is_response,
  event_scoped_by_any_target_team, event_start_instant, has_write, get_event, not_nominated_row,
  reason_visibilities, check_violation,
}
use team_manager.Events.Service.{Seen, NotificationArgs, set_attendance, set_nomination}
use team_manager.Events.Responses.{OneResponse}
use team_manager.Events.Guards.{WritesEvents, set_attendance_guarded, set_attendance_written}
use team_manager.Events.Series.{series_dates, series_dates_iff}
use team_manager.Events.Accepts.{undisturbed, set_attendance_succeeds}
use team_manager.Events.Nominations.{renominated}
use team_manager.Tests.Roster.{team_db}

-- An hour east of UTC.
abbrev zone : ℕ → ℕ → ℕ
zone date minute = date * 86400 + minute * 60

abbrev training : EventRow
training = record {
  id = 1;
  team_id = 10;
  series_id = none;
  type = "training";
  title = "Training";
  status = "active";
  date = 2;
  end_date = none;
  location = none;
  note = none;
  meet_time = none;
  start_time = some 600;
  end_time = none;
  meet_time_mandatory = false;
  response_mode = "opt_in";
  nominated_role_ids = [];
  cancel_lead_minutes = some 120;
  exclude_from_stats = false;
}

abbrev tables : Tables
tables = record {
  events = training ∷ [];
  series = [];
  event_teams = record { event_id = 1; team_id = 10 } ∷ [];
  attendance = [];
}

-- Ben declines.
abbrev declined : AttendanceRow
declined = record {
  id = 7;
  event_id = 1;
  user_id = 2;
  status = "no";
  reason = some "ill";
  reason_id = none;
  reason_visibility = some "trainers";
  at = 0;
}

abbrev ready : Seen
ready = undisturbed 1000 team_db tables

abbrev sent : Option NotificationArgs
sent = some (record {
  team_id = 10;
  actor_id = 2;
  event_id = 1;
  event_title = "Training";
  event_date = 2;
  status = "no";
})

abbrev after_decline : Tables
after_decline = record tables { attendance = record declined { at = 1000 } ∷ [] }

ben_declines :
    set_attendance zone ready 1000 team_db tables 2 10 declined ≡ ok (after_decline, sent)
unfolding set_attendance get_event event_scoped_by_any_target_team
    team_manager.Events.Service.check_cutoff team_manager.Events.Service.past_cutoff
    event_start_instant team_manager.Events.Store.write_attendance
    team_manager.Events.Store.attendance_allowed team_manager.Events.Store.accepts_response
    team_manager.Events.Store.before_cutoff is_member team_manager.Events.Store.upsert
    team_manager.Events.Service.enqueue_attendance_notification
ben_declines = refl

-- The table takes no other status.
other_status :
    set_attendance zone ready 1000 team_db tables 2 10 (record declined { status = "late" })
    ≡ err check_violation
unfolding set_attendance get_event event_scoped_by_any_target_team
    team_manager.Events.Service.check_cutoff team_manager.Events.Service.past_cutoff
    event_start_instant team_manager.Events.Store.write_attendance
    team_manager.Events.Store.attendance_allowed team_manager.Events.Store.accepts_response
    team_manager.Events.Store.before_cutoff is_member team_manager.Events.Store.upsert
other_status = refl

-- Past the cutoff Ben, who may only read events, is refused.
ben_too_late :
    set_attendance zone (undisturbed 300000 team_db tables) 300000 team_db tables 2 10 declined
    ≡ err cancel_lead_time_passed
unfolding set_attendance get_event event_scoped_by_any_target_team
    team_manager.Events.Service.check_cutoff team_manager.Events.Service.past_cutoff
    event_start_instant team_manager.Events.Service.require_caller_events_write
    team_manager.Roster.Queries.user_permissions
    team_manager.Access.Permissions.effective_permissions team_manager.Access.Permissions.fold_max
    team_manager.Access.Permissions.perm_level_rank
ben_too_late = refl

set_attendance_guarded_example :
    (declined.status ≢ "not_nominated")
    × (is_member team_db 10 2 ≡ true)
    × ((◌≡◌ {A = ℕ} 2 2) ⊎ WritesEvents team_db 10 2)
    × ((e : EventRow) × In e tables.events
        × (e.id ≡ 1)
        × (event_scoped_by_any_target_team tables 10 e ≡ true)
        × (e.status ≢ "cancelled")
        × (((lead : ℕ)
              → e.cancel_lead_minutes ≡ some lead
              → 1000 + lead * 60 ≤ event_start_instant zone e)
            ⊎ WritesEvents team_db 10 2))
set_attendance_guarded_example =
    set_attendance_guarded zone ready 1000 team_db tables 2 10 declined after_decline sent
      ben_declines

set_attendance_written_example :
    ((id : ℕ) × (find (is_response 1 2) after_decline.attendance
        ≡ some (record declined { id = id; at = 1000 })))
    × ((event user : ℕ)
        → is_response event user declined ≡ false
        → find (is_response event user) after_decline.attendance ≡ find (is_response event user) [])
    × OneResponse after_decline.attendance
    × (after_decline.events ≡ tables.events)
    × (after_decline.event_teams ≡ tables.event_teams)
set_attendance_written_example =
    set_attendance_written zone ready 1000 team_db tables 2 10 declined after_decline sent
      (λ event user. omega arith) ben_declines

visible : (v : String) → declined.reason_visibility ≡ some v → In v reason_visibilities
visible v e = inl (cc e)

not_cancelled : training.status ≢ "cancelled"
not_cancelled e = cc ((str_eq_iff "active" "cancelled").1 e)

found_training : get_event tables 1 10 ≡ ok training
unfolding get_event event_scoped_by_any_target_team
found_training = refl

ben_is_member : is_member team_db 10 2 ≡ true
unfolding is_member
ben_is_member = refl

in_time :
    (lead : ℕ)
    → training.cancel_lead_minutes ≡ some lead
    → 1000 + lead * 60 ≤ event_start_instant zone training
unfolding event_start_instant
in_time lead e = let p : lead ≡ 120 = cc e in rw p (omega arith)

set_attendance_succeeds_example :
    (s' : Tables) × (n : Option NotificationArgs) × (set_attendance zone
        (undisturbed 1000 team_db tables)
        1000
        team_db
        tables
        2
        10
        declined
      ≡ ok (s', n))
set_attendance_succeeds_example =
    set_attendance_succeeds zone 1000 team_db tables 2 10 declined training (inr (inl refl)) visible
      found_training not_cancelled (inl in_time) ben_is_member (inl refl)

-- Anna takes Ben's nomination back and gives it again.
abbrev denominated_tables : Tables
denominated_tables = record tables { attendance = not_nominated_row 8 1 2 50 ∷ [] }

take_back : set_nomination team_db team_db tables 8 50 1 1 2 10 false ≡ ok denominated_tables
unfolding set_nomination team_manager.Roster.Queries.user_permissions
    team_manager.Access.Permissions.effective_permissions team_manager.Access.Permissions.fold_max
    team_manager.Access.Permissions.perm_level_rank team_manager.Events.Store.write_nomination
    team_manager.Events.Store.event_in_team event_scoped_by_any_target_team
    team_manager.Events.Store.has_write team_manager.Roster.Queries.holds_role is_member
    team_manager.Events.Store.upsert
take_back = refl

give_again : set_nomination team_db team_db denominated_tables 9 60 1 1 2 10 true ≡ ok tables
unfolding set_nomination team_manager.Roster.Queries.user_permissions
    team_manager.Access.Permissions.effective_permissions team_manager.Access.Permissions.fold_max
    team_manager.Access.Permissions.perm_level_rank team_manager.Events.Store.write_nomination
    team_manager.Events.Store.event_in_team event_scoped_by_any_target_team
    team_manager.Events.Store.has_write team_manager.Roster.Queries.holds_role
give_again = refl

renominated_example :
    WritesEvents team_db 10 1
    × WritesEvents team_db 10 1
    × ((id : ℕ) × (find (is_response 1 2) denominated_tables.attendance
          ≡ some (not_nominated_row id 1 2 50)))
    × (find (is_response 1 2) tables.attendance ≡ none)
    × ((e u : ℕ)
        → ((e ≡ 1) × (u ≡ 2) → ⊥)
        → find (is_response e u) tables.attendance ≡ find (is_response e u) tables.attendance)
renominated_example =
    renominated team_db team_db team_db team_db tables denominated_tables tables 8 9 50 60 1 1 1 2
      10 (λ event user. omega arith) take_back give_again

-- Three weeks of trainings, given by their count and by their end date.
three_weeks : series_dates 5 none 3 ≡ (5 ∷ 12 ∷ 19 ∷ [])
unfolding series_dates team_manager.Events.Series.dates_for team_manager.Events.Series.capped_weeks
three_weeks = refl

until_day_20 : series_dates 5 (some 20) 0 ≡ (5 ∷ 12 ∷ 19 ∷ [])
unfolding series_dates team_manager.Events.Series.dates_until
until_day_20 = refl

series_dates_iff_example :
    ((end_date weeks : ℕ)
      → 5 ≤ end_date
      → (In 19 (series_dates 5 (some end_date) weeks))
        ↔ ((k : ℕ) × (k < 104) × (19 ≡ 5 + k * 7) × (19 ≤ end_date)))
    × ((weeks : ℕ)
        → (In 19 (series_dates 5 none weeks))
          ↔ ((k : ℕ) × (k < min 104 (max 1 weeks)) × (19 ≡ 5 + k * 7)))
series_dates_iff_example = series_dates_iff 5 19
