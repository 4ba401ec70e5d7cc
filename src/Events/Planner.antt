-- ===== src/Events/Planner.antt =====
-- CreateEvent, UpdateEvent and SetStatus of backend/internal/events/service.go. The service checks
-- before the repository writes, so that its checks read a roster of their own, `seen`. A negative count
-- of weeks is refused like 0, which stands for it. The role and permission checkers and the job queue
-- are configured, as the server does; the enqueuing of a notification is best effort.
use team_manager.Base.{
  ℕ, suc, ◌+◌, ◌-◌, ◌/◌, Bool, true, false, not, ◌||◌, String, str_eq, List, [], ◌∷◌, map, Option,
  none, some, any, select, ltb, if◌then◌else◌, or_default, ok, err, ◌>>◌, ◌>>=◌, reject_if, ◌==◌,
}
use team_manager.Roster.Db.{Db}
use team_manager.Roster.Queries.{user_permissions}
use team_manager.Events.Store.{EventRow, Tables}
use team_manager.Events.Series.{max_repeat_weeks}
use team_manager.Events.Creation.{
  Planned, invalid_cross_team_ids, cross_team_write_forbidden,
  multi_day_end_date_on_recurring_event, multi_day_end_date_before_date, multi_day_span_too_long,
  recurrence_end_date_before_date, repeat_weeks_too_large, create_event_no_row,
  max_multi_day_span_days, CreateEventParams, validate_nominated_roles_in_tx, teams_exist,
  dedup_team_ids, create_event, create_series,
}
use team_manager.Events.Changes.{UpdateEventParams, validate_given, update_event}
use team_manager.Events.Removals.{set_status}

-- The body of the request, with the times as the columns take them.
pub record CreateEventBody : Type 0 where
  pub type : String
  pub title : String
  pub date : ℕ
  pub recurring : Option Bool
  pub repeat_weeks : Option ℕ
  pub end_date : Option ℕ
  pub multi_day_end_date : Option ℕ
  pub location : Option String
  pub note : Option String
  pub meet_time : Option ℕ
  pub start_time : Option ℕ
  pub end_time : Option ℕ
  pub meet_time_mandatory : Option Bool
  pub response_mode : Option String
  pub nominated_role_ids : Option (List ℕ)
  pub cross_team_ids : Option (List ℕ)
  pub cancel_lead_minutes : Option ℕ
  pub exclude_from_stats : Option Bool

-- jobs.NotificationArgs of the types "event_created" and "event_cancelled".
pub record EventNotification : Type 0 where
  pub team_id : ℕ
  pub type : String
  pub actor_id : ℕ
  pub event_id : ℕ
  pub event_title : String
  pub event_date : ℕ

unfoldable pub check_multi_day : Bool → ℕ → Option ℕ → Planned (Unit {0})
check_multi_day recurring date none = ok tt
check_multi_day recurring date (some end_date) =
    reject_if recurring multi_day_end_date_on_recurring_event
    >> reject_if (ltb end_date date) multi_day_end_date_before_date
    >> reject_if (ltb (date + max_multi_day_span_days) end_date) multi_day_span_too_long

-- The end of a series that is given by a date; else the count of weeks is checked.
unfoldable pub repeat_end_date_of : Bool → ℕ → Option ℕ → ℕ → Planned (Option ℕ)
repeat_end_date_of true date (some end_date) weeks =
    reject_if (ltb end_date date) recurrence_end_date_before_date
    >> reject_if (ltb max_repeat_weeks (suc ((end_date - date) / 7))) repeat_weeks_too_large
    >> ok (some end_date)
repeat_end_date_of recurring date end_date weeks =
    reject_if (ltb weeks 1 || ltb max_repeat_weeks weeks) repeat_weeks_too_large >> ok none

abbrev pub params_of : CreateEventBody → Bool → ℕ → Option ℕ → CreateEventParams
params_of body recurring weeks repeat_end_date = record {
  type = body.type;
  title = body.title;
  date = body.date;
  end_date = body.multi_day_end_date;
  location = body.location;
  note = body.note;
  meet_time = body.meet_time;
  start_time = body.start_time;
  end_time = body.end_time;
  meet_time_mandatory = body.meet_time_mandatory;
  response_mode = body.response_mode;
  nominated_role_ids = or_default body.nominated_role_ids [];
  cross_team_ids = or_default body.cross_team_ids [];
  recurring = recurring;
  repeat_weeks = weeks;
  repeat_end_date = repeat_end_date;
  cancel_lead_minutes = body.cancel_lead_minutes;
  exclude_from_stats = or_default body.exclude_from_stats false;
}

abbrev pub writes_events_in : Db → ℕ → ℕ → Bool
writes_events_in db caller team = str_eq (user_permissions db team caller).events "write"

unfoldable pub require_events_write_in_teams : Db → ℕ → List ℕ → Planned (Unit {0})
require_events_write_in_teams db caller teams =
    reject_if (any (λ t. not (writes_events_in db caller t)) teams) cross_team_write_forbidden

unfoldable pub validate_cross_team_ids : Db → ℕ → List ℕ → Planned (Unit {0})
validate_cross_team_ids db caller [] = ok tt
validate_cross_team_ids db caller (t ∷ ts) =
    reject_if (not (teams_exist db (t ∷ ts))) invalid_cross_team_ids
    >> require_events_write_in_teams db caller (t ∷ ts)

-- `rows[0]` of a series.
abbrev pub first_row : List EventRow × Tables → Planned (EventRow × Tables)
first_row ([], s) = err create_event_no_row
first_row (e ∷ es, s) = ok (e, s)

unfoldable pub create_rows :
    Db → Tables → ℕ → (ℕ → ℕ) → ℕ → CreateEventParams → Planned (EventRow × Tables)
create_rows db s series_key keys team params =
    if params.recurring
    then (create_series db s series_key keys team params >>= first_row)
    else create_event db s (keys 0) team params

abbrev pub notification : ℕ → EventRow → String → ℕ → EventNotification
notification actor e type team = record {
  team_id = team;
  type = type;
  actor_id = actor;
  event_id = e.id;
  event_title = e.title;
  event_date = e.date;
}

-- One notification for each team that the event is for.
abbrev pub notifications : ℕ → EventRow → String → List ℕ → List EventNotification
notifications actor e type teams = map (notification actor e type) (dedup_team_ids e.team_id teams)

unfoldable pub create :
    Db
    → Db
    → Tables
    → ℕ
    → (ℕ → ℕ)
    → ℕ
    → ℕ
    → CreateEventBody
    → Planned (EventRow × List EventNotification × Tables)
create seen db s series_key keys team caller body = do
  check_multi_day (or_default body.recurring false) body.date body.multi_day_end_date
  repeat_end ←
      repeat_end_date_of (or_default body.recurring false) body.date body.end_date
        (or_default body.repeat_weeks 1)
  validate_nominated_roles_in_tx seen team (or_default body.nominated_role_ids [])
  validate_cross_team_ids seen caller (or_default body.cross_team_ids [])
  made ←
      create_rows db s series_key keys team (
        params_of body (or_default body.recurring false) (or_default body.repeat_weeks 1)
          repeat_end)
  ok (
    made.0,
    notifications caller made.0 "event_created" (or_default body.cross_team_ids []),
    made.1,
  )

-- The handler passes the fields of the body on as `params`.
unfoldable pub update :
    ℕ → Db → Db → Tables → ℕ → ℕ → ℕ → String → UpdateEventParams → Planned (EventRow × Tables)
update today seen db s team caller event scope params =
    validate_given params.nominated_role_ids (validate_nominated_roles_in_tx seen team)
    >> validate_given params.cross_team_ids (validate_cross_team_ids seen caller)
    >> update_event today db s event team params scope

-- The query also sorts by the names of the teams, which only orders the notifications.
abbrev pub get_event_teams : Tables → ℕ → List ℕ
get_event_teams s event = map (λ et. et.team_id) (select (λ et. et.event_id == event) s.event_teams)

-- A cancellation is announced to the teams that the event is for after the write.
unfoldable pub change_status :
    ℕ → Tables → ℕ → ℕ → ℕ → String → String → Planned (EventRow × List EventNotification × Tables)
change_status today s caller event team status scope = do
  changed ← set_status today s event team status scope
  ok (
    changed.0,
    if str_eq status "cancelled"
        then notifications caller changed.0 "event_cancelled"
            (get_event_teams changed.1 changed.0.id)
        else [],
    changed.1,
  )
