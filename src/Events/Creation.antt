-- ===== src/Events/Creation.antt =====
-- CreateEvent and CreateSeries of backend/internal/events/repository.go. The keys of new rows are
-- arguments. An error of the database that the code passes on unmapped is `database_error`.
use team_manager.Base.{
  ℕ, ◌+◌, suc, Bool, true, false, not, ◌&&◌, ◌||◌, String, str_eq, List, [], ◌∷◌, ◌++◌, map, Option,
  none, some, any, count, ◌==◌, ltb, leb, length, if◌then◌else◌, or_default, is_some, contains,
  dedupe_from, Outcome, ok, ◌>>◌, reject_if,
}
use team_manager.Roster.Db.{Db}
use team_manager.Events.Store.{EventRow, EventSeriesRow, EventTeam, Tables}
use team_manager.Events.Series.{series_dates}

pub data PlanningError : Type 0 where
  no_rows database_error : PlanningError
  invalid_nominated_role_ids invalid_cross_team_ids : PlanningError
  end_time_before_start_time : PlanningError
  multi_day_end_date_before_date multi_day_span_too_long : PlanningError
  multi_day_end_date_on_series_event multi_day_end_date_on_recurring_event : PlanningError
  recurrence_end_date_before_date repeat_weeks_too_large : PlanningError
  cross_team_write_forbidden create_event_no_row : PlanningError

abbrev pub Planned {ℓ} : Type ℓ → Type ℓ
Planned A = Outcome PlanningError A

abbrev both : (ℕ → ℕ → Bool) → Option ℕ → Option ℕ → Bool
both p (some a) (some b) = p a b
both p _ _ = false

abbrev pub max_multi_day_span_days : ℕ
max_multi_day_span_days = 1095

abbrev pub is_event_type : String → Bool
is_event_type type = str_eq type "training" || str_eq type "auftritt" || str_eq type "event"

-- The CHECK constraints of the table events, in the order of their names, in which they are tested.
unfoldable pub violation : EventRow → Option PlanningError
violation e =
    if both (λ start end. leb end start) e.start_time e.end_time
    then some end_time_before_start_time
    else if both ltb e.end_date (some e.date)
    then some multi_day_end_date_before_date
    else if both (λ date end. ltb (date + max_multi_day_span_days) end) (some e.date) e.end_date
    then some multi_day_span_too_long
    else if not (str_eq e.response_mode "opt_in" || str_eq e.response_mode "opt_out")
    then some database_error
    else if not (str_eq e.status "active" || str_eq e.status "cancelled")
    then some database_error
    else if not (is_event_type e.type)
    then some database_error
    else none

-- `len(seen)` of a slice of ids.
abbrev pub distinct_ids : List ℕ → ℕ
distinct_ids ids = length (dedupe_from [] ids)

unfoldable pub validate_nominated_roles_in_tx : Db → ℕ → List ℕ → Planned (Unit {0})
validate_nominated_roles_in_tx db team [] = ok tt
validate_nominated_roles_in_tx db team (id ∷ ids) =
    reject_if
      (not (
        count (λ r. contains (id ∷ ids) r.id && r.team_id == team) db.roles
        == distinct_ids (id ∷ ids)))
      invalid_nominated_role_ids

unfoldable pub teams_exist : Db → List ℕ → Bool
teams_exist db [] = true
teams_exist db (id ∷ ids) =
    count (λ t. contains (id ∷ ids) t.id) db.teams == distinct_ids (id ∷ ids)

unfoldable pub validate_cross_team_ids_in_tx : Db → List ℕ → Planned (Unit {0})
validate_cross_team_ids_in_tx db ids = reject_if (not (teams_exist db ids)) invalid_cross_team_ids

unfoldable pub dedup_team_ids : ℕ → List ℕ → List ℕ
dedup_team_ids owning extra = owning ∷ dedupe_from (owning ∷ []) extra

abbrev pub is_target : ℕ → ℕ → EventTeam → Bool
is_target event team et = et.event_id == event && et.team_id == team

-- `ON CONFLICT (event_id, team_id) DO NOTHING`
abbrev pub insert_event_team : ℕ → ℕ → List EventTeam → List EventTeam
insert_event_team event team rows =
    if any (is_target event team) rows
    then rows
    else record { event_id = event; team_id = team } ∷ rows

abbrev pub insert_teams_of : ℕ → List ℕ → List EventTeam → List EventTeam
insert_teams_of event [] rows = rows
insert_teams_of event (team ∷ teams) rows =
    insert_teams_of event teams (insert_event_team event team rows)

-- The cross product of events and teams.
unfoldable pub insert_event_teams : List ℕ → List ℕ → List EventTeam → List EventTeam
insert_event_teams [] teams rows = rows
insert_event_teams (event ∷ events) teams rows =
    insert_event_teams events teams (insert_teams_of event teams rows)

-- The times have passed nullableTime, for which an empty one is NULL.
pub record CreateEventParams : Type 0 where
  pub type : String
  pub title : String
  pub date : ℕ
  pub end_date : Option ℕ
  pub location : Option String
  pub note : Option String
  pub meet_time : Option ℕ
  pub start_time : Option ℕ
  pub end_time : Option ℕ
  pub meet_time_mandatory : Option Bool
  pub response_mode : Option String
  pub nominated_role_ids : List ℕ
  pub cross_team_ids : List ℕ
  pub recurring : Bool
  pub repeat_weeks : ℕ
  pub repeat_end_date : Option ℕ
  pub cancel_lead_minutes : Option ℕ
  pub exclude_from_stats : Bool

abbrev pub new_event : CreateEventParams → ℕ → ℕ → Option ℕ → ℕ → Option ℕ → EventRow
new_event params new_id team series date end_date = record {
  id = new_id;
  team_id = team;
  series_id = series;
  type = params.type;
  title = params.title;
  status = "active";
  date = date;
  end_date = end_date;
  location = params.location;
  note = params.note;
  meet_time = params.meet_time;
  start_time = params.start_time;
  end_time = params.end_time;
  meet_time_mandatory = or_default params.meet_time_mandatory false;
  response_mode = or_default params.response_mode "opt_in";
  nominated_role_ids = params.nominated_role_ids;
  cancel_lead_minutes = params.cancel_lead_minutes;
  exclude_from_stats = params.exclude_from_stats;
}

-- The owning team is referenced by a FOREIGN KEY.
abbrev pub team_exists : Db → ℕ → Bool
team_exists db team = any (λ t. t.id == team) db.teams

abbrev pub validate_in_tx : Db → ℕ → CreateEventParams → Planned (Unit {0})
validate_in_tx db team params =
    validate_nominated_roles_in_tx db team params.nominated_role_ids
    >> validate_cross_team_ids_in_tx db params.cross_team_ids

-- The new rows, each for all the teams.
abbrev pub insert_events : Tables → ℕ → List ℕ → List EventRow → Tables
insert_events s owning cross_team_ids rows = record s {
  events = rows ++ s.events;
  event_teams =
      insert_event_teams (map (λ e. e.id) rows) (dedup_team_ids owning cross_team_ids)
        s.event_teams;
}

-- What the constraints of the tables refuse.
abbrev pub is_refused : Db → ℕ → List EventRow → Bool
is_refused db team rows = not (team_exists db team) || any (λ e. is_some (violation e)) rows

unfoldable pub create_event : Db → Tables → ℕ → ℕ → CreateEventParams → Planned (EventRow × Tables)
create_event db s new_id team params =
    let e = new_event params new_id team none params.date params.end_date in
    validate_in_tx db team params
    >> reject_if (is_refused db team (e ∷ [])) database_error
    >> ok (e, insert_events s team params.cross_team_ids (e ∷ []))

-- One row for each date; `keys` gives the ids.
unfoldable pub occurrences : CreateEventParams → ℕ → ℕ → (ℕ → ℕ) → ℕ → List ℕ → List EventRow
occurrences params team series keys i [] = []
occurrences params team series keys i (date ∷ dates) =
    new_event params (keys i) team (some series) date none
    ∷ occurrences params team series keys (suc i) dates

abbrev pub new_series : ℕ → ℕ → CreateEventParams → ℕ → EventSeriesRow
new_series series_key team params weeks = record {
  id = series_key;
  team_id = team;
  repeat_weeks = weeks;
  repeat_end_date = params.repeat_end_date;
}

abbrev pub insert_series : Tables → EventSeriesRow → Tables
insert_series s x = record s { series = x ∷ s.series }

-- The rows come in the order of their dates, to which the code sorts them.
unfoldable pub create_series :
    Db → Tables → ℕ → (ℕ → ℕ) → ℕ → CreateEventParams → Planned (List EventRow × Tables)
create_series db s series_key keys team params =
    let dates = series_dates params.date params.repeat_end_date params.repeat_weeks in
    let rows = occurrences params team series_key keys 0 dates in
    validate_in_tx db team params
    >> reject_if (is_refused db team rows) database_error
    >> ok (
      rows,
      insert_events (insert_series s (new_series series_key team params (length dates))) team
          params.cross_team_ids rows,
    )
