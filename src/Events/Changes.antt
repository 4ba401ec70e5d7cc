-- ===== src/Events/Changes.antt =====
-- UpdateEvent of backend/internal/events/repository.go, one transaction. `today` is CURRENT_DATE.
use team_manager.Base.{
  ℕ, Bool, false, ◌&&◌, ◌||◌, String, str_eq, List, [], ◌∷◌, map, Option, none, some, find, select,
  delete, update, ◌==◌, leb, ltb, if◌then◌else◌, or_default, is_some, contains, ok, err, ◌>>◌,
  ◌>>=◌, reject_if, or_fail,
}
use team_manager.Roster.Db.{Db}
use team_manager.Events.Store.{EventRow, Tables}
use team_manager.Events.Creation.{
  Planned, PlanningError, no_rows, database_error, end_time_before_start_time,
  multi_day_end_date_on_series_event, violation, validate_nominated_roles_in_tx,
  validate_cross_team_ids_in_tx, dedup_team_ids, insert_event_teams,
}

-- `none` is a field that the patch leaves as it is. A time that is given empty is `some none`.
pub record UpdateEventParams : Type 0 where
  pub type : Option String
  pub title : Option String
  pub date : Option ℕ
  pub end_date : Option ℕ
  pub clear_end_date : Bool
  pub location : Option String
  pub note : Option String
  pub meet_time : Option (Option ℕ)
  pub start_time : Option (Option ℕ)
  pub end_time : Option (Option ℕ)
  pub meet_time_mandatory : Option Bool
  pub response_mode : Option String
  pub nominated_role_ids : Option (List ℕ)
  pub cross_team_ids : Option (List ℕ)
  pub cancel_lead_minutes : Option ℕ
  pub exclude_from_stats : Option Bool

-- A nullable column takes the value of the patch if there is one.
abbrev pub or_old {ℓ} : {A : Type ℓ} → Option A → Option A → Option A
or_old (some a) old = some a
or_old none old = old

abbrev pub new_end_date : UpdateEventParams → Option ℕ → Option ℕ
new_end_date params old = if params.clear_end_date then none else or_old params.end_date old

-- The SET clause.
unfoldable pub build_event_update_sets : UpdateEventParams → EventRow → EventRow
build_event_update_sets params e = record e {
  type = or_default params.type e.type;
  title = or_default params.title e.title;
  date = or_default params.date e.date;
  end_date = new_end_date params e.end_date;
  location = or_old params.location e.location;
  note = or_old params.note e.note;
  meet_time = or_default params.meet_time e.meet_time;
  start_time = or_default params.start_time e.start_time;
  end_time = or_default params.end_time e.end_time;
  meet_time_mandatory = or_default params.meet_time_mandatory e.meet_time_mandatory;
  response_mode = or_default params.response_mode e.response_mode;
  nominated_role_ids = or_default params.nominated_role_ids e.nominated_role_ids;
  cancel_lead_minutes = or_old params.cancel_lead_minutes e.cancel_lead_minutes;
  exclude_from_stats = or_default params.exclude_from_stats e.exclude_from_stats;
}

-- What the constraints say of the rows that an UPDATE writes: the first violation.
unfoldable pub first_violation : List EventRow → Option PlanningError
first_violation [] = none
first_violation (e ∷ es) = or_old (violation e) (first_violation es)

abbrev pub refuse : Option PlanningError → Planned (Unit {0})
refuse none = ok tt
refuse (some e) = err e

-- `UPDATE events SET … WHERE p`. For a patch that sets nothing the code runs no statement; here the
-- rows are written as they are.
unfoldable pub update_events : (EventRow → Bool) → (EventRow → EventRow) → Tables → Planned Tables
update_events p f s =
    refuse (first_violation (map f (select p s.events)))
    >> ok (record s { events = update p f s.events })

-- The fields that would make the occurrences of a series coincide are left out.
abbrev pub series_params : UpdateEventParams → UpdateEventParams
series_params params = record params { date = none; end_date = none; clear_end_date = false }

abbrev pub is_key : Option ℕ → ℕ → Bool
is_key none k = false
is_key (some j) k = j == k

abbrev pub of_series : ℕ → EventRow → Bool
of_series series e = is_key e.series_id series

abbrev pub remaining : ℕ → ℕ → EventRow → Bool
remaining today series e = of_series series e && leb today e.date

abbrev pub held : ℕ → ℕ → EventRow → Bool
held today series e = of_series series e && ltb e.date today

abbrev series_error : PlanningError → PlanningError
series_error end_time_before_start_time = end_time_before_start_time
series_error _ = database_error

abbrev pub exclude : Option Bool → EventRow → EventRow
exclude excluded e = record e { exclude_from_stats = or_default excluded e.exclude_from_stats }

abbrev pub exclude_held : ℕ → ℕ → Option Bool → Planned Tables → Planned Tables
exclude_held today series excluded (err e) = err (series_error e)
exclude_held today series excluded (ok s) =
    ok (record s { events = update (held today series) (exclude excluded) s.events })

-- The two statements on the occurrences that remain and on those that were held.
unfoldable pub update_series_events : ℕ → ℕ → UpdateEventParams → Tables → Planned Tables
update_series_events today series params s =
    exclude_held today series params.exclude_from_stats
      (update_events (remaining today series) (build_event_update_sets (series_params params)) s)

unfoldable pub replace_event_teams : List ℕ → ℕ → List ℕ → Tables → Tables
replace_event_teams events owning cross_team_ids s = record s {
  event_teams =
      insert_event_teams events (dedup_team_ids owning cross_team_ids)
        (delete (λ et. contains events et.event_id) s.event_teams);
}

unfoldable pub replace_event_teams_for_series : ℕ → ℕ → List ℕ → Tables → Tables
replace_event_teams_for_series series owning cross_team_ids s =
    replace_event_teams (map (λ e. e.id) (select (of_series series) s.events)) owning cross_team_ids
      s

abbrev pub is_owned : ℕ → ℕ → EventRow → Bool
is_owned event team e = e.id == event && e.team_id == team

abbrev pub retarget : Option (List ℕ) → (List ℕ → Tables → Tables) → Tables → Tables
retarget none f s = s
retarget (some ids) f s = f ids s

-- What scope and patch do to the series of the addressed event, if it is of one.
unfoldable pub update_series :
    ℕ → ℕ → String → UpdateEventParams → Option ℕ → Tables → Planned Tables
update_series today team scope params none s = ok s
update_series today team scope params (some series) s =
    reject_if (is_some params.end_date) multi_day_end_date_on_series_event
    >> (if str_eq scope "series"
        then (update_series_events today series params s >>= λ s'.
            ok (retarget params.cross_team_ids (replace_event_teams_for_series series team) s'))
        else ok s)

unfoldable pub apply_series_scoped_update :
    ℕ → ℕ → ℕ → String → UpdateEventParams → Tables → Planned Tables
apply_series_scoped_update today event team scope params s =
    or_fail (find (is_owned event team) s.events) no_rows >>= λ e.
    update_series today team scope params e.series_id s

-- The UPDATE of the addressed event, and the row that it returns.
unfoldable pub write_or_read_single_event :
    ℕ → ℕ → UpdateEventParams → Tables → Planned (EventRow × Tables)
write_or_read_single_event event team params s = do
  e ← or_fail (find (is_owned event team) s.events) no_rows
  s' ← update_events (is_owned event team) (build_event_update_sets params) s
  ok (build_event_update_sets params e, s')

abbrev pub validate_given : Option (List ℕ) → (List ℕ → Planned (Unit {0})) → Planned (Unit {0})
validate_given none check = ok tt
validate_given (some ids) check = check ids

unfoldable pub update_event :
    ℕ → Db → Tables → ℕ → ℕ → UpdateEventParams → String → Planned (EventRow × Tables)
update_event today db s event team params scope = do
  validate_given params.nominated_role_ids (validate_nominated_roles_in_tx db team)
  validate_given params.cross_team_ids (validate_cross_team_ids_in_tx db)
  s₁ ←
      if str_eq scope "series" || is_some params.end_date
      then apply_series_scoped_update today event team scope params s
      else ok s
  written ← write_or_read_single_event event team params s₁
  ok (written.0, retarget params.cross_team_ids (replace_event_teams (event ∷ []) team) written.1)
