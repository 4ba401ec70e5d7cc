-- ===== src/Tests/Planning.antt =====
-- A weekly training of two occurrences, at the team of the tests of the roster (backend/internal/events).
use team_manager.Base.{
  ℕ, any, ◌==◌, String, ◌<◌, Bool, Distinct, ◌↔◌, ◌⊎◌, ◌+◌, ◌<◌, ◌≡◌, ◌≢◌, refl, inl, inr, Bool,
  true, false, String, List, [], ◌∷◌, none, some, In, ok, arith,
}
use team_manager.Roster.Db.{Db}
use team_manager.Events.Store.{EventRow, Tables}
use team_manager.Events.Creation.{CreateEventParams, new_event, create_series}
use team_manager.Events.Changes.{UpdateEventParams, update_event}
use team_manager.Events.Removals.{set_status, delete_event}
use team_manager.Events.WellPlanned.{WellPlanned}
use team_manager.Events.NewEvents.{FreshKeys}
use team_manager.Events.Lifecycle.{series_created, empty, next, events-WellPlanned}
use team_manager.Events.Kept.{Kept}
use team_manager.Events.Held.{KeptButFlag}
use team_manager.Events.Past.{past-Kept}
use team_manager.Events.Untouched.{Untouched}
use team_manager.Events.Owners.{other_teams-Kept}
use team_manager.Events.Planner.{CreateEventBody, EventNotification, create}
use team_manager.Events.Announced.{create_announced}
use team_manager.Roster.Queries.{user_permissions}
use team_manager.Events.Remainder.{delete_event_lem}
use team_manager.Events.Changes.{is_owned, of_series}
use team_manager.Tests.Roster.{team_db}

abbrev weekly : CreateEventParams
weekly = record {
  type = "training";
  title = "Training";
  date = 10;
  end_date = none;
  location = none;
  note = none;
  meet_time = none;
  start_time = some 600;
  end_time = some 660;
  meet_time_mandatory = none;
  response_mode = none;
  nominated_role_ids = [];
  cross_team_ids = [];
  recurring = true;
  repeat_weeks = 2;
  repeat_end_date = none;
  cancel_lead_minutes = none;
  exclude_from_stats = false;
}

abbrev no_events : Tables
no_events = record { events = []; series = []; event_teams = []; attendance = [] }

abbrev event_keys : ℕ → ℕ
event_keys i = i + 1

abbrev first : EventRow
first = new_event weekly 1 10 (some 5) 10 none

abbrev second : EventRow
second = new_event weekly 2 10 (some 5) 17 none

abbrev planned : Tables
planned = record {
  events = first ∷ second ∷ [];
  series = record { id = 5; team_id = 10; repeat_weeks = 2; repeat_end_date = none } ∷ [];
  event_teams = record { event_id = 2; team_id = 10 } ∷ record { event_id = 1; team_id = 10 } ∷ [];
  attendance = [];
}

training_planned :
    create_series team_db no_events 5 event_keys 10 weekly ≡ ok (first ∷ second ∷ [], planned)
unfolding create_series team_manager.Events.Creation.validate_nominated_roles_in_tx
    team_manager.Events.Creation.validate_cross_team_ids_in_tx
    team_manager.Events.Creation.teams_exist team_manager.Events.Creation.occurrences
    team_manager.Events.Series.series_dates team_manager.Events.Series.dates_for
    team_manager.Events.Series.capped_weeks team_manager.Events.Creation.violation
    team_manager.Events.Creation.insert_event_teams team_manager.Events.Creation.dedup_team_ids
    team_manager.Base.dedupe_from
training_planned = refl

event_keys-FreshKeys : FreshKeys event_keys []
event_keys-FreshKeys = record {
  different = λ i j lt same. omega (arith, lt, same);
  unused = λ i. refl;
}

planned-WellPlanned : WellPlanned planned
planned-WellPlanned = events-WellPlanned planned (
    next no_events planned empty (
      series_created team_db 5 event_keys 10 weekly (first ∷ second ∷ []) refl event_keys-FreshKeys
        training_planned))

events-WellPlanned_example : WellPlanned planned
events-WellPlanned_example = events-WellPlanned planned (
    next no_events planned empty (
      series_created team_db 5 event_keys 10 weekly (first ∷ second ∷ []) refl event_keys-FreshKeys
        training_planned))

-- On day 15 the rest of the series is changed or deleted by way of the second occurrence.
past-Kept_example :
    ((s' : Tables) → delete_event 15 planned 2 10 "series" ≡ ok s' → Kept planned first s')
    × ((status : String) (r : EventRow) (s' : Tables)
        → set_status 15 planned 2 10 status "series" ≡ ok (r, s')
        → In first s'.events × (s'.attendance ≡ planned.attendance))
    × ((db : Db) (params : UpdateEventParams) (r : EventRow) (s' : Tables)
        → update_event 15 db planned 2 10 params "series" ≡ ok (r, s')
        → KeptButFlag params planned first s')
past-Kept_example =
    past-Kept 15 planned 2 10 "series" first planned-WellPlanned (inl refl) (omega arith)
      (λ e. omega (arith, e))

second_deleted :
    delete_event 15 planned 2 10 "series"
    ≡ ok (record planned {
      events = first ∷ [];
      event_teams = record { event_id = 1; team_id = 10 } ∷ [];
    })
unfolding delete_event team_manager.Events.Removals.delete_series_remainder
    team_manager.Events.Removals.delete_events
second_deleted = refl

other_teams-Kept_example :
    ((db : Db) (params : UpdateEventParams) (r : EventRow) (s' : Tables)
      → update_event 15 db planned 1 11 params "series" ≡ ok (r, s')
      → Untouched planned first s')
    × ((s' : Tables) → delete_event 15 planned 1 11 "series" ≡ ok s' → Kept planned first s')
other_teams-Kept_example =
    other_teams-Kept 15 planned 1 11 "series" first planned-WellPlanned (inl refl)
      (λ e. omega (arith, e))

-- Anna asks for the same trainings, to be shared with her own team once more.
abbrev weekly_body : CreateEventBody
weekly_body = record {
  type = "training";
  title = "Training";
  date = 10;
  recurring = some true;
  repeat_weeks = some 2;
  end_date = none;
  multi_day_end_date = none;
  location = none;
  note = none;
  meet_time = none;
  start_time = some 600;
  end_time = some 660;
  meet_time_mandatory = none;
  response_mode = none;
  nominated_role_ids = none;
  cross_team_ids = some (10 ∷ []);
  cancel_lead_minutes = none;
  exclude_from_stats = none;
}

abbrev announced : List EventNotification
announced =
    record {
      team_id = 10;
      type = "event_created";
      actor_id = 1;
      event_id = 1;
      event_title = "Training";
      event_date = 10;
    }
    ∷ []

anna_plans :
    create team_db team_db no_events 5 event_keys 10 1 weekly_body ≡ ok (first, announced, planned)
unfolding create team_manager.Events.Planner.check_multi_day
    team_manager.Events.Planner.repeat_end_date_of
    team_manager.Events.Creation.validate_nominated_roles_in_tx
    team_manager.Events.Planner.validate_cross_team_ids team_manager.Events.Creation.teams_exist
    team_manager.Base.dedupe_from team_manager.Events.Planner.require_events_write_in_teams
    team_manager.Roster.Queries.user_permissions
    team_manager.Access.Permissions.effective_permissions team_manager.Access.Permissions.fold_max
    team_manager.Access.Permissions.perm_level_rank team_manager.Events.Planner.create_rows
    create_series team_manager.Events.Creation.validate_cross_team_ids_in_tx
    team_manager.Events.Series.series_dates team_manager.Events.Series.dates_for
    team_manager.Events.Series.capped_weeks team_manager.Events.Creation.occurrences
    team_manager.Events.Creation.violation team_manager.Events.Creation.insert_event_teams
    team_manager.Events.Creation.dedup_team_ids
anna_plans = refl

create_announced_example :
    ((t : ℕ) → In t (10 ∷ []) → (user_permissions team_db t 1).events ≡ "write")
    × In first planned.events
    × (first.date ≡ 10)
    × (first.team_id ≡ 10)
    × Distinct (λ n. n.team_id) announced
    × ((t : ℕ)
        → ((n : EventNotification) × In n announced × (n.team_id ≡ t))
          ↔ ((t ≡ 10) ⊎ In t (10 ∷ [])))
create_announced_example =
    create_announced team_db team_db no_events 5 event_keys 10 1 weekly_body first announced planned
      anna_plans

delete_event_lem_example :
    (s' : Tables) × (delete_event 15 planned 2 10 "series" ≡ ok s')
    × ((x : EventRow) → In x s'.events → In x planned.events × (is_owned 2 10 x ≡ false))
    × ((k : ℕ)
        → ◌≡◌ {A = String} "series" "series"
        → second.series_id ≡ some k
        → ((x : EventRow) → In x s'.events → x.team_id ≡ 10 → x.series_id ≡ some k → x.date < 15)
          × (any (λ y. y.id == k) s'.series ≡ true → any (of_series k) s'.events ≡ true))
delete_event_lem_example = delete_event_lem 15 planned 2 10 "series" second refl
