-- ===== src/Events/Removals.antt =====
-- SetStatus and DeleteEvent of backend/internal/events/repository.go. `today` is CURRENT_DATE. Each is
-- one transaction here; only the look-up of the series by DeleteEvent stands before it.
use team_manager.Base.{
  ℕ, Bool, not, ◌&&◌, String, str_eq, map, Option, none, some, any, find, select, delete, ◌==◌,
  if◌then◌else◌, contains, ok, ◌>>◌, ◌>>=◌, reject_if, or_fail,
}
use team_manager.Events.Store.{EventRow, Tables, event_scoped_by_any_target_team}
use team_manager.Events.Creation.{Planned, no_rows}
use team_manager.Events.Changes.{update_events, of_series, remaining, is_owned}

abbrev pub with_status : String → EventRow → EventRow
with_status status e = record e { status = status }

abbrev pub is_reachable : Tables → ℕ → ℕ → EventRow → Bool
is_reachable s event team e = e.id == event && event_scoped_by_any_target_team s team e

-- The series-wide UPDATE, which reaches the occurrences that the team is a target of.
abbrev pub cascade_status : ℕ → ℕ → String → Option ℕ → Tables → Planned Tables
cascade_status today team status none s = ok s
cascade_status today team status (some series) s =
    update_events (λ e. remaining today series e && event_scoped_by_any_target_team s team e)
      (with_status status) s

abbrev pub series_of : Option EventRow → Option ℕ
series_of none = none
series_of (some e) = e.series_id

unfoldable pub set_status : ℕ → Tables → ℕ → ℕ → String → String → Planned (EventRow × Tables)
set_status today s event team status scope = do
  s₁ ←
      if str_eq scope "series"
      then cascade_status today team status (series_of (find (is_reachable s event team) s.events))
          s
      else ok s
  e ← or_fail (find (is_reachable s₁ event team) s₁.events) no_rows
  s₂ ← update_events (is_reachable s₁ event team) (with_status status) s₁
  ok (with_status status e, s₂)

-- `DELETE FROM events WHERE p`, with what refers to the rows (ON DELETE CASCADE).
unfoldable pub delete_events : (EventRow → Bool) → Tables → Tables
delete_events p s =
    let gone = map (λ e. e.id) (select p s.events) in
    record s {
      events = delete p s.events;
      event_teams = delete (λ et. contains gone et.event_id) s.event_teams;
      attendance = delete (λ a. contains gone a.event_id) s.attendance;
    }

-- The series row goes once nothing references it.
abbrev pub drop_series : ℕ → Tables → Tables
drop_series series s = record s {
  series = delete (λ x. x.id == series && not (any (of_series series) s.events)) s.series;
}

unfoldable pub delete_series_remainder : ℕ → ℕ → ℕ → ℕ → Tables → Tables
delete_series_remainder today event team series s = drop_series series (
    delete_events (is_owned event team)
      (delete_events (λ e. remaining today series e && e.team_id == team) s))

abbrev pub delete_single : ℕ → ℕ → Tables → Planned Tables
delete_single event team s =
    reject_if (not (any (is_owned event team) s.events)) no_rows
    >> ok (delete_events (is_owned event team) s)

abbrev pub delete_of : ℕ → ℕ → ℕ → Option ℕ → Tables → Planned Tables
delete_of today event team none s = delete_single event team s
delete_of today event team (some series) s = ok (delete_series_remainder today event team series s)

unfoldable pub delete_event : ℕ → Tables → ℕ → ℕ → String → Planned Tables
delete_event today s event team scope =
    delete_of today event team
      (if str_eq scope "series" then series_of (find (is_owned event team) s.events) else none) s
