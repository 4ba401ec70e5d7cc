-- ===== src/Events/Past.antt =====
-- What UpdateEvent, SetStatus and DeleteEvent of backend/internal/events/repository.go leave of the
-- occurrences that were held before today.
use team_manager.Base.{arith, ℕ, ◌<◌, ◌≡◌, ◌≢◌, String, In, ok}
use team_manager.Roster.Db.{Db}
use team_manager.Events.Store.{EventRow, Tables}
use team_manager.Events.Changes.{UpdateEventParams, update_event}
use team_manager.Events.Removals.{set_status, delete_event}
use team_manager.Events.WellPlanned.{WellPlanned}
use team_manager.Events.Kept.{Kept, delete_event-spares, past-remaining, set_status-Kept}
use team_manager.Events.Held.{KeptButFlag, update_event-Kept}

-- An occurrence of an earlier day that is not the addressed event survives a DeleteEvent with its
-- responses; its row is unchanged by a SetStatus; and after an UpdateEvent its row differs at most in
-- whether it counts for the statistics, and only if the patch says so. SetStatus and UpdateEvent
-- change no response. Which teams it is for UpdateEvent leaves alone if the patch names no target
-- teams; if it names some, a change of the series does replace those of past occurrences too. The
-- tables are well planned, which every reachable table is.
pub past-Kept :
    (today : ℕ) (s : Tables) (event team : ℕ) (scope : String) (e : EventRow)
    → WellPlanned s
    → In e s.events
    → e.date < today
    → e.id ≢ event
    → ((s' : Tables) → delete_event today s event team scope ≡ ok s' → Kept s e s')
      × ((status : String) (r : EventRow) (s' : Tables)
          → set_status today s event team status scope ≡ ok (r, s')
          → In e s'.events × (s'.attendance ≡ s.attendance))
      × ((db : Db) (params : UpdateEventParams) (r : EventRow) (s' : Tables)
          → update_event today db s event team params scope ≡ ok (r, s')
          → KeptButFlag params s e s')
past-Kept today s event team scope e w i past other = (
  λ s' h.
      delete_event-spares today s event team scope s' e w i (ground (arith, other))
        (λ k. ground (arith, past-remaining today k e past)) h,
  λ status r s' h. set_status-Kept today s event team status scope r s' e i past other h,
  λ db params r s' h. update_event-Kept today db s event team params scope r s' e i past other h,
)
