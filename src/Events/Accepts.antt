-- ===== src/Events/Accepts.antt =====
-- When SetAttendance of backend/internal/events is accepted.
use team_manager.Base.{
  ℕ, ◌+◌, ◌*◌, ◌≤◌, ◌≡◌, refl, ◌⊎◌, inl, inr, Bool, true, false, ◌||◌, str_eq, str_eq_iff, Option,
  some, any, any-In, find-In, ◌==◌, ==_iff, le→leb, Option-cases, if◌then◌else◌, ok, or_fail-ok,
  ◌≢◌, arith, String, List, [], ◌∷◌, In,
}
use team_manager.Roster.Db.{Db}
use team_manager.Roster.Queries.{is_member, user_permissions}
use team_manager.Events.Store.{
  EventRow, AttendanceRow, Tables, event_start_instant, before_cutoff, has_write, accepts_response,
  write_attendance, attendance_statuses, reason_visibilities, attendance_allowed, upsert, get_event,
  set_attendance_forbidden,
}
use team_manager.Events.Service.{
  Seen, NotificationArgs, set_attendance, check_cutoff, past_cutoff,
  enqueue_attendance_notification, require_caller_events_write,
}
use team_manager.Events.Guards.{WritesEvents}
use team_manager.Events.Permissions.{has_write_iff}

-- The reads of the service and the write of the repository, with nothing in between.
abbrev pub undisturbed : ℕ → Db → Tables → Seen
undisturbed now db s = record { at_permission = db; at_event = s; at_cutoff = now; at_late = db }

before_cutoff-true :
    (berlin : ℕ → ℕ → ℕ) (now : ℕ) (e : EventRow)
    → ((lead : ℕ)
        → e.cancel_lead_minutes ≡ some lead
        → now + lead * 60 ≤ event_start_instant berlin e)
    → before_cutoff berlin now e ≡ true
unfolding before_cutoff event_start_instant
before_cutoff-true berlin now e h = elim (Option-cases e.cancel_lead_minutes) [
  | inl q ↦ rw q refl
  | inr (lead, q) ↦ rw q (le→leb (now + lead * 60) (event_start_instant berlin e) (h lead q))
]

check_cutoff-ok :
    (berlin : ℕ → ℕ → ℕ) (now : ℕ) (db : Db) (s : Tables) (caller team : ℕ) (e : EventRow)
    → (before_cutoff berlin now e || has_write db team caller) ≡ true
    → check_cutoff berlin (undisturbed now db s) caller team e ≡ ok tt
unfolding check_cutoff before_cutoff past_cutoff require_caller_events_write
check_cutoff-ok berlin now db s caller team e h = elim (Option-cases e.cancel_lead_minutes) [
  | inl q ↦ rw q refl
  | inr (lead, q) ↦
      let may = has_write_iff db team caller in
      let str = str_eq_iff (user_permissions db team caller).events "write" in
      ground (arith, h, q, may, str)
]

caller_check-ok :
    (db : Db) (team caller user : ℕ)
    → (caller == user || has_write db team caller) ≡ true
    → (if caller == user
        then ok tt
        else require_caller_events_write db caller team set_attendance_forbidden)
      ≡ ok tt
unfolding require_caller_events_write
caller_check-ok db team caller user h =
    let str = str_eq_iff (user_permissions db team caller).events "write" in
    ground (arith, h, has_write_iff db team caller, str)

write_attendance-ok :
    (berlin : ℕ → ℕ → ℕ) (now : ℕ) (db : Db) (s : Tables) (caller team : ℕ) (new : AttendanceRow)
    (e : EventRow)
    → get_event s new.event_id team ≡ ok e
    → str_eq e.status "cancelled" ≡ false
    → (before_cutoff berlin now e || has_write db team caller) ≡ true
    → is_member db team new.user_id ≡ true
    → (caller == new.user_id || has_write db team caller) ≡ true
    → attendance_allowed new ≡ true
    → (s' : Tables) × (write_attendance berlin now db s caller team new ≡ ok s')
unfolding write_attendance get_event accepts_response
write_attendance-ok berlin now db s caller team new e found alive in_time member may allowed =
    let (i, is_event) = find-In _ e s.events (or_fail-ok _ _ e found) in
    let accepted : any (accepts_response berlin now s new.event_id team (has_write db team caller))
          s.events
        ≡ true =
      any-In _ e s.events i (ground (arith, is_event, alive, in_time)) in
    (
      record s { attendance = upsert (record new { at = now }) s.attendance },
      rw (accepted, member, may, allowed) refl,
    )

or_of : (a b : Bool) → (a ≡ true) ⊎ (b ≡ true) → (a || b) ≡ true
or_of a b (inl e) = rw e refl
or_of a b (inr e) = ground (arith, e)

-- The statuses that SetAttendance can set.
abbrev pub answers : List String
answers = "yes" ∷ "no" ∷ "maybe" ∷ "pending" ∷ []

answer-status : (v : String) → In v answers → In v attendance_statuses
answer-status v (inl e) = inl e
answer-status v (inr (inl e)) = inr (inl e)
answer-status v (inr (inr (inl e))) = inr (inr (inl e))
answer-status v (inr (inr (inr (inl e)))) = inr (inr (inr (inl e)))
answer-status v (inr (inr (inr (inr i)))) = elim i [ ]

answer-settable : (v : String) → In v answers → str_eq v "not_nominated" ≡ false
answer-settable v (inl e) = rw e
answer-settable v (inr (inl e)) = rw e
answer-settable v (inr (inr (inl e))) = rw e
answer-settable v (inr (inr (inr (inl e)))) = rw e
answer-settable v (inr (inr (inr (inr i)))) = elim i [ ]

listed : (v : String) (xs : List String) → In v xs → any (str_eq v) xs ≡ true
listed v xs i = any-In (str_eq v) v xs i ((str_eq_iff v v).1 refl)

attendance_allowed-true :
    (new : AttendanceRow)
    → In new.status answers
    → ((v : String) → new.reason_visibility ≡ some v → In v reason_visibilities)
    → attendance_allowed new ≡ true
unfolding attendance_allowed
attendance_allowed-true new i h =
    let status : any (str_eq new.status) attendance_statuses ≡ true =
      listed new.status attendance_statuses (answer-status new.status i) in
    elim (Option-cases new.reason_visibility) [
      | inl q ↦ rw (status, q) refl
      | inr (v, q) ↦ rw (status, q) (listed v reason_visibilities (h v q))
    ]

-- With nothing committed between the checks of the service and the write, and Go and PostgreSQL
-- agreeing on when the event starts, SetAttendance succeeds for every event of the team that is not
-- cancelled, every member, each of the statuses yes, no, maybe and pending, and no reason visibility or
-- one of trainers and team, if the caller is the member or has events:write, and it is before the
-- cutoff of the event or the caller has events:write.
pub set_attendance_succeeds :
    (berlin : ℕ → ℕ → ℕ) (now : ℕ) (db : Db) (s : Tables) (caller team : ℕ) (new : AttendanceRow)
    (e : EventRow)
    → In new.status answers
    → ((v : String) → new.reason_visibility ≡ some v → In v reason_visibilities)
    → get_event s new.event_id team ≡ ok e
    → e.status ≢ "cancelled"
    → ((lead : ℕ)
        → e.cancel_lead_minutes ≡ some lead
        → now + lead * 60 ≤ event_start_instant berlin e)
      ⊎ WritesEvents db team caller
    → is_member db team new.user_id ≡ true
    → (caller ≡ new.user_id) ⊎ WritesEvents db team caller
    → (s' : Tables) × (n : Option NotificationArgs) × (set_attendance berlin
          (undisturbed now db s)
          now
          db
          s
          caller
          team
          new
        ≡ ok (s', n))
unfolding set_attendance
set_attendance_succeeds berlin now db s caller team new e status visibility found alive in_time
      member may =
    let writes : WritesEvents db team caller → has_write db team caller ≡ true =
      (has_write_iff db team caller).1 in
    let open_event : str_eq e.status "cancelled" ≡ false =
      ground (arith, str_eq_iff e.status "cancelled") in
    let settable : str_eq new.status "not_nominated" ≡ false = answer-settable new.status status in
    let early : (before_cutoff berlin now e || has_write db team caller) ≡ true =
      or_of _ _ (elim in_time [
        | inl h ↦ inl (before_cutoff-true berlin now e h)
        | inr w ↦ inr (writes w)
      ]) in
    let allowed : (caller == new.user_id || has_write db team caller) ≡ true =
      or_of _ _
        (elim may [ inl h ↦ inl ((==_iff caller new.user_id).1 h) | inr w ↦ inr (writes w) ]) in
    let (s', w) =
      write_attendance-ok berlin now db s caller team new e found open_event early member allowed
        (attendance_allowed-true new status visibility) in
    (
      s',
      enqueue_attendance_notification e team new.user_id new.status,
      rw
          (
            settable,
            caller_check-ok db team caller new.user_id allowed,
            found,
            open_event,
            check_cutoff-ok berlin now db s caller team e early,
            w,
          )
          refl,
    )
