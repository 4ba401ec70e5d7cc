-- ===== src/Events/Guards.antt =====
-- What a successful SetAttendance or SetNomination of backend/internal/events was allowed to write,
-- whatever the service had read before, and what it wrote.
use team_manager.Base.{
  ℕ, ◌+◌, ◌*◌, ◌≤◌, ◌≡◌, refl, ◌⊎◌, inl, inr, Bool, true, false, ◌||◌, String, str_eq, str_eq_iff,
  Option, some, In, any, any_witness, find, ◌==◌, ==_iff, leb→le, ok, ◌≢◌, arith,
}
use team_manager.Roster.Db.{Db}
use team_manager.Roster.Queries.{is_member, user_permissions}
use team_manager.Events.Store.{
  EventRow, AttendanceRow, Tables, is_response, event_scoped_by_any_target_team,
  event_start_instant, before_cutoff, has_write, accepts_response, write_attendance, upsert,
}
use team_manager.Events.Service.{Seen, NotificationArgs, set_attendance}
use team_manager.Events.Responses.{OneResponse, find-upsert, find-upsert_other, upsert-OneResponse}
use team_manager.Events.Permissions.{has_write_iff}

str_eq_ne : (a b : String) → str_eq a b ≡ false → a ≢ b
str_eq_ne a b h e = ground (arith, str_eq_iff a b)

or_true : (a b : Bool) → (a || b) ≡ true → (a ≡ true) ⊎ (b ≡ true)
or_true true b h = inl refl
or_true false b h = inr h

-- The caller's level on events, as members.GetPermissions reports it.
abbrev pub WritesEvents : Db → ℕ → ℕ → Type 0
WritesEvents db team caller = (user_permissions db team caller).events ≡ "write"

set_attendance-write :
    (berlin : ℕ → ℕ → ℕ) (seen : Seen) (now : ℕ) (db : Db) (s : Tables) (caller team : ℕ)
    (new : AttendanceRow) (s' : Tables) (n : Option NotificationArgs)
    → set_attendance berlin seen now db s caller team new ≡ ok (s', n)
    → (str_eq new.status "not_nominated" ≡ false)
      × (write_attendance berlin now db s caller team new ≡ ok s')
unfolding set_attendance
set_attendance-write berlin seen now db s caller team new s' n h = (ground arith, ground arith)

-- The checks that the write itself makes.
pub write_attendance-checked :
    (berlin : ℕ → ℕ → ℕ) (now : ℕ) (db : Db) (s : Tables) (caller team : ℕ) (new : AttendanceRow)
    (s' : Tables)
    → write_attendance berlin now db s caller team new ≡ ok s'
    → (any (accepts_response berlin now s new.event_id team (has_write db team caller)) s.events
        ≡ true)
      × (is_member db team new.user_id ≡ true)
      × ((caller == new.user_id || has_write db team caller) ≡ true)
      × (s' ≡ record s { attendance = upsert (record new { at = now }) s.attendance })
unfolding write_attendance
write_attendance-checked berlin now db s caller team new s' h =
    (ground arith, ground arith, ground arith, ground arith)

accepts_response-facts :
    (berlin : ℕ → ℕ → ℕ) (now : ℕ) (s : Tables) (event team : ℕ) (write : Bool) (e : EventRow)
    → accepts_response berlin now s event team write e ≡ true
    → (e.id ≡ event)
      × (event_scoped_by_any_target_team s team e ≡ true)
      × (str_eq e.status "cancelled" ≡ false)
      × ((before_cutoff berlin now e || write) ≡ true)
unfolding accepts_response
accepts_response-facts berlin now s event team write e h =
    (ground arith, ground arith, ground arith, ground arith)

before_cutoff-le :
    (berlin : ℕ → ℕ → ℕ) (now : ℕ) (e : EventRow) (lead : ℕ)
    → before_cutoff berlin now e ≡ true
    → e.cancel_lead_minutes ≡ some lead
    → now + lead * 60 ≤ event_start_instant berlin e
unfolding before_cutoff event_start_instant
before_cutoff-le berlin now e lead h q = leb→le _ _ (rw q at h)

-- Whatever the service read before, at the write of a successful SetAttendance the event is one of
-- the team's and not cancelled, the user is a member, the caller is the user or has events:write,
-- and the response is before the cutoff of the event or its caller has events:write. The status that
-- is set is not "not_nominated".
pub set_attendance_guarded :
    (berlin : ℕ → ℕ → ℕ) (seen : Seen) (now : ℕ) (db : Db) (s : Tables) (caller team : ℕ)
    (new : AttendanceRow) (s' : Tables) (n : Option NotificationArgs)
    → set_attendance berlin seen now db s caller team new ≡ ok (s', n)
    → (new.status ≢ "not_nominated")
      × (is_member db team new.user_id ≡ true)
      × ((caller ≡ new.user_id) ⊎ WritesEvents db team caller)
      × ((e : EventRow) × In e s.events
          × (e.id ≡ new.event_id)
          × (event_scoped_by_any_target_team s team e ≡ true)
          × (e.status ≢ "cancelled")
          × (((lead : ℕ)
                → e.cancel_lead_minutes ≡ some lead
                → now + lead * 60 ≤ event_start_instant berlin e)
              ⊎ WritesEvents db team caller))
set_attendance_guarded berlin seen now db s caller team new s' n h =
    let (status, w) = set_attendance-write berlin seen now db s caller team new s' n h in
    let (found, member, may, _) = write_attendance-checked berlin now db s caller team new s' w in
    let (e, i, accepted) = any_witness _ s.events found in
    let (is_event, scoped, alive, in_time) =
      accepts_response-facts berlin now s _ team _ e accepted in
    let writes : has_write db team caller ≡ true → WritesEvents db team caller =
      (has_write_iff db team caller).0 in
    (
      str_eq_ne new.status _ status,
      member,
      elim (or_true _ _ may) [ inl q ↦ inl ((==_iff _ _).0 q) | inr q ↦ inr (writes q) ],
      (
        e,
        i,
        is_event,
        scoped,
        str_eq_ne e.status _ alive,
        elim (or_true _ _ in_time) [
          | inl q ↦ inl (λ lead. before_cutoff-le berlin now e lead q)
          | inr q ↦ inr (writes q)
        ],
      ),
    )

-- After a successful SetAttendance the user's response to the event is the one given, at the time of
-- the write, every other response is what it was, no user has two responses to an event if none had,
-- and events and their teams are unchanged.
pub set_attendance_written :
    (berlin : ℕ → ℕ → ℕ) (seen : Seen) (now : ℕ) (db : Db) (s : Tables) (caller team : ℕ)
    (new : AttendanceRow) (s' : Tables) (n : Option NotificationArgs)
    → OneResponse s.attendance
    → set_attendance berlin seen now db s caller team new ≡ ok (s', n)
    → ((id : ℕ) × (find (is_response new.event_id new.user_id) s'.attendance
          ≡ some (record new { id = id; at = now })))
      × ((event user : ℕ)
          → is_response event user new ≡ false
          → find (is_response event user) s'.attendance
            ≡ find (is_response event user) s.attendance)
      × OneResponse s'.attendance
      × (s'.events ≡ s.events)
      × (s'.event_teams ≡ s.event_teams)
set_attendance_written berlin seen now db s caller team new s' n one h =
    let (_, w) = set_attendance-write berlin seen now db s caller team new s' n h in
    let (_, _, _, e) = write_attendance-checked berlin now db s caller team new s' w in
    let row : AttendanceRow = record new { at = now } in
    rw e (
      find-upsert row s.attendance,
      λ event user. find-upsert_other event user row s.attendance,
      upsert-OneResponse row s.attendance one,
      refl,
      refl,
    )
