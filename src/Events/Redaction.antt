-- ===== src/Events/Redaction.antt =====
-- The rows of other teams in the attendance list of backend/internal/events/service.go.
use team_manager.Base.{
  ℕ, subst, ◌≡◌, ◌≢◌, ◌<◌, refl, sym, ap, ◌∙◌, ◌⊎◌, inl, inr, Bool, true, false, ◌||◌, String,
  str_eq, List, [], ◌∷◌, map, Option, some, none, In, any, any_witness, In-select, select-In,
  In-map, map-In, length, if◌then◌else◌, ◌==◌, ==_iff, ltb, Bool-cases, Option-cases, ok, >>=-eq-ok,
  ok-injective, arith,
}
use team_manager.Roster.Db.{Db}
use team_manager.Events.Attendance.{AttendanceEnriched, ResponseRow, EventTeamRow, MemberTeam}
use team_manager.Events.Listing.{
  can_viewer_see_attendance_reasons, to_gen_attendance_row, badge_from, compute_team_badge,
  redact_foreign_attendee, teams_of, apply_badge, hide_reason, render, list_attendance,
}

badge_from-none :
    (precedes : String → String → Bool) (viewer_team : ℕ) (best : String) (ts : List EventTeamRow)
    → badge_from precedes viewer_team best ts ≡ none
    → any (λ t. t.team_id == viewer_team) ts ≡ true
unfolding badge_from
badge_from-none precedes viewer_team best [] h = cc
badge_from-none precedes viewer_team best (t ∷ ts) h =
    elim (Bool-cases (t.team_id == viewer_team)) [
      | inl e ↦ rw e refl
      | inr e ↦ ground (
        arith,
        e,
        badge_from-none precedes viewer_team
            (if str_eq best "" || precedes t.team_name best then t.team_name else best) ts
            (rw e at h),
      )
    ]

compute_team_badge-none :
    (precedes : String → String → Bool) (viewer_team : ℕ) (ts : List EventTeamRow)
    → compute_team_badge precedes viewer_team ts ≡ none
    → (ts ≡ []) ⊎ (any (λ t. t.team_id == viewer_team) ts ≡ true)
unfolding compute_team_badge
compute_team_badge-none precedes viewer_team [] h = inl refl
compute_team_badge-none precedes viewer_team (t ∷ ts) h =
    inr (badge_from-none precedes viewer_team "" (t ∷ ts) h)

-- A row without what identifies a profile or is free text.
abbrev pub Redacted : ResponseRow → Type 0
Redacted o =
    (o.membership_id ≡ none)
    × (o.group ≡ none)
    × (o.title ≡ none)
    × (o.primary_role ≡ none)
    × (o.reason ≡ none)
    × (o.reason_id ≡ none)
    × (o.reason_visibility ≡ none)
    × (o.auto ≡ none)
    × (o.absent ≡ none)

pub redact_foreign_attendee-Redacted :
    (row : ResponseRow) (badge : Option String) → Redacted (redact_foreign_attendee row badge)
unfolding redact_foreign_attendee
redact_foreign_attendee-Redacted row badge = (refl, refl, refl, refl, refl, refl, refl, refl, refl)

-- Either the row is passed on, and then the event is not shared or the user is in the viewer's team,
-- or it is redacted.
pub apply_badge-cases :
    (precedes : String → String → Bool) (active : Bool) (team : ℕ) (member_teams : List MemberTeam)
    (row : ResponseRow)
    → ((apply_badge precedes active team member_teams row ≡ row)
        × ((active ≡ false)
            ⊎ (any (λ t. t.team_id == team) (teams_of row.user_id member_teams) ≡ true)))
      ⊎ ((badge : Option String) × (apply_badge precedes active team member_teams row
            ≡ redact_foreign_attendee row badge))
unfolding apply_badge
apply_badge-cases precedes false team member_teams row = inl (refl, inl refl)
apply_badge-cases precedes true team member_teams row =
    elim (Bool-cases (any (λ t. t.user_id == row.user_id) member_teams)) [
      | inr e ↦ inr (none, rw e refl)
      | inl e ↦
          elim (Option-cases
            (compute_team_badge precedes team (teams_of row.user_id member_teams))) [
              | inr (badge, q) ↦ inr (some badge, rw (e, q) refl)
              | inl q ↦ inl (rw (e, q) refl, inr (own q (any_witness _ member_teams e)))
            ]
    ]
  where
    own :
        compute_team_badge precedes team (teams_of row.user_id member_teams) ≡ none
        → (t : MemberTeam) × In t member_teams × ((t.user_id == row.user_id) ≡ true)
        → any (λ t. t.team_id == team) (teams_of row.user_id member_teams) ≡ true
    own q (t, i, e) =
        elim (compute_team_badge-none precedes team (teams_of row.user_id member_teams) q) [
          | inl empty ↦
              let here : In t.team (teams_of row.user_id member_teams) =
                In-map (λ (x : MemberTeam). x.team) t _
                  (In-select (λ x. x.user_id == row.user_id) t member_teams i e) in
              absurd (subst (λ ts. In t.team ts) empty here)
          | inr h ↦ h
        ]

pub list_attendance-row :
    (precedes : String → String → Bool) (db : Db) (team viewer : ℕ) (rows : List AttendanceEnriched)
    (event_teams : List EventTeamRow) (member_teams : List MemberTeam) (out : List ResponseRow)
    (o : ResponseRow)
    → list_attendance precedes db team viewer rows event_teams member_teams ≡ ok out
    → In o out
    → (can_see : Bool) × (a : AttendanceEnriched) × (can_viewer_see_attendance_reasons db team
          viewer rows
        ≡ ok can_see)
      × (o ≡ render precedes team viewer event_teams member_teams can_see a)
unfolding list_attendance
list_attendance-row precedes db team viewer rows event_teams member_teams out o h i =
    let (can_see, c, mapped) =
      >>=-eq-ok (can_viewer_see_attendance_reasons db team viewer rows)
        (λ c. ok (map (render precedes team viewer event_teams member_teams c) rows)) out h in
    let (a, _, e) = map-In (render precedes team viewer event_teams member_teams can_see) o rows (
      rw
        (ok-injective (map (render precedes team viewer event_teams member_teams can_see) rows) out
          mapped)
        at i) in
    (can_see, a, c, e)

-- In the list of an event with several teams, the row of a user of whom no membership in the
-- viewer's team is known shows neither membership, group, title and role nor the reason and the
-- absence of the user.
pub list_attendance-Redacted :
    (precedes : String → String → Bool) (db : Db) (team viewer : ℕ) (rows : List AttendanceEnriched)
    (event_teams : List EventTeamRow) (member_teams : List MemberTeam) (out : List ResponseRow)
    (o : ResponseRow)
    → list_attendance precedes db team viewer rows event_teams member_teams ≡ ok out
    → 1 < length event_teams
    → In o out
    → ((t : MemberTeam) → In t member_teams → t.user_id ≡ o.user_id → t.team.team_id ≢ team)
    → Redacted o
unfolding render
list_attendance-Redacted precedes db team viewer rows event_teams member_teams out o h several i
      foreign =
    let (can_see, a, _, e) =
      list_attendance-row precedes db team viewer rows event_teams member_teams out o h i in
    let row = to_gen_attendance_row (hide_reason viewer can_see a) in
    elim (apply_badge-cases precedes (ltb 1 (length event_teams)) team member_teams row) [
      | inl (same, inl single) ↦ absurd (ground (arith, single, several))
      | inl (same, inr own) ↦
          let (et, j, is_team) =
            any_witness (λ t. t.team_id == team) (teams_of row.user_id member_teams) own in
          let (t, k, q) = map-In (λ (x : MemberTeam). x.team) et _ j in
          let (l, is_user) = select-In (λ x. x.user_id == row.user_id) t member_teams k in
          absurd (
            foreign t l
              ((==_iff t.user_id row.user_id).0 is_user
                ∙ sym (ap (λ (x : ResponseRow). x.user_id) (e ∙ same)))
              (sym (ap (λ (x : EventTeamRow). x.team_id) q) ∙ (==_iff et.team_id team).0 is_team))
      | inr (badge, q) ↦ rw (e ∙ q) (redact_foreign_attendee-Redacted row badge)
    ]
