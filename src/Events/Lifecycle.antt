-- ===== src/Events/Lifecycle.antt =====
-- Every sequence of operations on events of backend/internal/events, from their creation to their deletion.
use team_manager.Base.{
  ℕ, ◌≡◌, sym, subst, Bool, true, false, String, List, [], any, ◌==◌, ok, >>-eq-ok, ok-injective,
}
use team_manager.Roster.Db.{Db}
use team_manager.Events.Guards.{write_attendance-checked}
use team_manager.Events.Store.{EventRow, AttendanceRow, Tables, write_attendance, write_nomination}
use team_manager.Events.Creation.{CreateEventParams, create_event, create_series}
use team_manager.Events.Changes.{UpdateEventParams, update_event}
use team_manager.Events.Removals.{set_status, delete_event}
use team_manager.Events.WellPlanned.{WellPlanned}
use team_manager.Events.Agenda.{update_event-WellPlanned}
use team_manager.Events.NewEvents.{FreshKeys, create_event-WellPlanned, create_series-WellPlanned}
use team_manager.Events.Endings.{set_status-WellPlanned, delete_event-WellPlanned}

-- One successful operation, under any roster and at any time.
pub data Step (s s' : Tables) : Type 0 where
  event_created :
      (db : Db) (new_id team : ℕ) (params : CreateEventParams) (e : EventRow)
      → any (λ x. x.id == new_id) s.events ≡ false
      → create_event db s new_id team params ≡ ok (e, s')
      → Step s s'
  series_created :
      (db : Db) (series_key : ℕ) (keys : ℕ → ℕ) (team : ℕ) (params : CreateEventParams)
      (rows : List EventRow)
      → any (λ x. x.id == series_key) s.series ≡ false
      → FreshKeys keys s.events
      → create_series db s series_key keys team params ≡ ok (rows, s')
      → Step s s'
  event_updated :
      (today : ℕ) (db : Db) (event team : ℕ) (params : UpdateEventParams) (scope : String)
      (e : EventRow)
      → update_event today db s event team params scope ≡ ok (e, s')
      → Step s s'
  status_set :
      (today event team : ℕ) (status scope : String) (e : EventRow)
      → set_status today s event team status scope ≡ ok (e, s')
      → Step s s'
  event_deleted :
      (today event team : ℕ) (scope : String)
      → delete_event today s event team scope ≡ ok s'
      → Step s s'
  responded :
      (berlin : ℕ → ℕ → ℕ) (now : ℕ) (db : Db) (caller team : ℕ) (new : AttendanceRow)
      → write_attendance berlin now db s caller team new ≡ ok s'
      → Step s s'
  nominated :
      (db : Db) (new_id now event caller user team : ℕ) (on : Bool)
      → write_nomination db s new_id now event caller user team on ≡ ok s'
      → Step s s'

pub data Reached : Tables → Type 0 where
  empty : Reached (record { events = []; series = []; event_teams = []; attendance = [] })
  next : (s s' : Tables) → Reached s → Step s s' → Reached s'

-- What responses change.
attendance-WellPlanned :
    (s : Tables) (rows : List AttendanceRow) (s' : Tables)
    → s' ≡ record s { attendance = rows }
    → WellPlanned s
    → WellPlanned s'
attendance-WellPlanned s rows s' q w =
    subst WellPlanned (sym q) (record { ids = w.ids; series_ids = w.series_ids; event = w.event })

Step-WellPlanned : (s s' : Tables) → Step s s' → WellPlanned s → WellPlanned s'
unfolding write_nomination
Step-WellPlanned s s' (event_created db new_id team params e fresh h) w =
    create_event-WellPlanned db s new_id team params e s' fresh h w
Step-WellPlanned s s' (series_created db series_key keys team params rows f fresh h) w =
    create_series-WellPlanned db s series_key keys team params rows s' f fresh h w
Step-WellPlanned s s' (event_updated today db event team params scope e h) w =
    update_event-WellPlanned today db s event team params scope e s' h w
Step-WellPlanned s s' (status_set today event team status scope e h) w =
    set_status-WellPlanned today s event team status scope e s' h w
Step-WellPlanned s s' (event_deleted today event team scope h) w =
    delete_event-WellPlanned today s event team scope s' h w
Step-WellPlanned s s' (responded berlin now db caller team new h) w =
    let (_, _, _, q) = write_attendance-checked berlin now db s caller team new s' h in
    attendance-WellPlanned s _ s' q w
Step-WellPlanned s s' (nominated db new_id now event caller user team true h) w =
    let (_, last) = >>-eq-ok _ _ s' h in attendance-WellPlanned s _ s' (ok-injective _ s' last) w
Step-WellPlanned s s' (nominated db new_id now event caller user team false h) w =
    let (_, last) = >>-eq-ok _ _ s' h in attendance-WellPlanned s _ s' (ok-injective _ s' last) w

-- In every table of events that the operations reach, an event is for its owning team, meets the CHECK
-- constraints of its times and days, and if it is an occurrence of a series, the series exists, has the
-- same owning team, and the event takes one day only; no two events and no two series share an id.
pub events-WellPlanned : (s : Tables) → Reached s → WellPlanned s
events-WellPlanned s empty = record { ids = tt; series_ids = tt; event = λ e i. elim i [ ] }
events-WellPlanned t (next s s' reached step) =
    Step-WellPlanned s s' step (events-WellPlanned s reached)
