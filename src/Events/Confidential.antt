-- ===== src/Events/Confidential.antt =====
-- What the attendance list of backend/internal/events/service.go keeps from its viewer.
use team_manager.Base.{
  ℕ, ◌≡◌, ◌≢◌, refl, ap, ◌∙◌, ◌⊎◌, inl, inr, Bool, true, false, String, str_eq_iff, List, Option,
  some, none, In, any, any_witness, find-In, select-In, map-In, and_true, contains, contains→In,
  length, ◌==◌, ==_iff, ltb, Bool-cases, ok, >>=-eq-ok, or_fail-ok, arith,
}
use team_manager.Roster.Db.{Db, RoleRow, TeamRow, MembershipRow, Assignment}
use team_manager.Events.Attendance.{AttendanceEnriched, ResponseRow, EventTeamRow, MemberTeam}
use team_manager.Events.Listing.{
  reason_shared_with_team, role_sets_intersect, viewer_role_ids, get_reason_visibility_context,
  needs_redaction_check, can_viewer_see_attendance_reasons, to_gen_attendance_row,
  redact_foreign_attendee, hide_reason, render, list_attendance,
}
use team_manager.Events.Redaction.{
  redact_foreign_attendee-Redacted, apply_badge-cases, list_attendance-row,
}

-- The viewer holds a role of the team that the team lets see reasons.
pub record SeesReasons (db : Db) (team viewer : ℕ) : Type 0 where
  pub of_team : TeamRow
  pub role : RoleRow
  pub is_team : In of_team db.teams × (of_team.id ≡ team)
  pub is_role : In role db.roles × (role.team_id ≡ team)
  pub lets_see : In role.id of_team.reason_visibility_role_ids
  pub held :
      (m : MembershipRow) × (a : Assignment) × In m db.memberships
      × In a db.membership_roles
      × (m.team_id ≡ team)
      × (m.user_id ≡ viewer)
      × (a.membership_id ≡ m.id)
      × (a.role_id ≡ role.id)

viewer_role_ids-held :
    (db : Db) (team viewer k : ℕ)
    → In k (viewer_role_ids db team viewer)
    → (r : RoleRow) × (k ≡ r.id)
      × In r db.roles
      × (r.team_id ≡ team)
      × ((m : MembershipRow) × (a : Assignment) × In m db.memberships
          × In a db.membership_roles
          × (m.team_id ≡ team)
          × (m.user_id ≡ viewer)
          × (a.membership_id ≡ m.id)
          × (a.role_id ≡ r.id))
unfolding viewer_role_ids
viewer_role_ids-held db team viewer k i =
    let (r, j, e) = map-In (λ (x : RoleRow). x.id) k _ i in
    let (l, h) = select-In _ r db.roles j in
    let (of_team, assigned) = and_true (r.team_id == team) _ h in
    let (a, n, ha) = any_witness _ db.membership_roles assigned in
    let (joins, hm) = and_true (a.role_id == r.id) _ ha in
    let (m, o, q) = any_witness _ db.memberships hm in
    (r, e, l, ground arith, (m, a, o, n, ground arith, ground arith, ground arith, ground arith))

can_see-SeesReasons :
    (db : Db) (team viewer : ℕ) (rows : List AttendanceEnriched)
    → can_viewer_see_attendance_reasons db team viewer rows ≡ ok true
    → SeesReasons db team viewer
unfolding can_viewer_see_attendance_reasons get_reason_visibility_context role_sets_intersect
can_see-SeesReasons db team viewer rows h = elim (Bool-cases (needs_redaction_check viewer rows)) [
  | inl e ↦
      let (c, got, both) = >>=-eq-ok _ _ _ (rw e at h) in
      let (t, found, pair) = >>=-eq-ok _ _ _ got in
      let (i, is_team) =
        find-In (λ (x : TeamRow). x.id == team) t db.teams (or_fail-ok _ _ t found) in
      let sees : any (contains t.reason_visibility_role_ids) (viewer_role_ids db team viewer)
          ≡ true =
        ground (arith, both, pair) in
      let (k, j, w) = any_witness _ _ sees in
      let (r, e', l, of_team, held) = viewer_role_ids-held db team viewer k j in
      record {
        of_team = t;
        role = r;
        is_team = (i, (==_iff t.id team).0 is_team);
        is_role = (l, of_team);
        lets_see = contains→In _ r.id (rw e' at w);
        held = held;
      }
  | inr e ↦ absurd (ground (arith, e, h))
]

shared-team : (v : Option String) → reason_shared_with_team v ≡ true → v ≡ some "team"
unfolding reason_shared_with_team
shared-team none h = cc
shared-team (some v) h = ap some ((str_eq_iff v "team").0 h)

to_gen-hidden :
    (viewer : ℕ) (can_see : Bool) (a : AttendanceEnriched)
    → (to_gen_attendance_row (hide_reason viewer can_see a)).user_id ≢ viewer
    → ((to_gen_attendance_row (hide_reason viewer can_see a)).reason_visibility ≡ some "team")
      ⊎ (can_see ≡ true)
      ⊎ (((to_gen_attendance_row (hide_reason viewer can_see a)).reason ≡ none)
          × ((to_gen_attendance_row (hide_reason viewer can_see a)).reason_id ≡ none))
unfolding to_gen_attendance_row hide_reason
to_gen-hidden viewer true a other = inr (inl refl)
to_gen-hidden viewer false a other = elim (Bool-cases (a.user_id == viewer)) [
  | inl e ↦ absurd ((rw e at other) ((==_iff a.user_id viewer).0 e))
  | inr e ↦ elim (Bool-cases (reason_shared_with_team a.effective.reason_visibility)) [
    | inl q ↦ inl (rw (e, q) (shared-team a.effective.reason_visibility q))
    | inr q ↦ inr (inr (rw (e, q) (refl, refl)))
  ]
]

-- In an attendance list the reason, or the reason's id, of another user's response stands only if
-- that user shared it with the team, or if the viewer holds a role of the team to which the team
-- shows reasons.
pub list_attendance-confidential :
    (precedes : String → String → Bool) (db : Db) (team viewer : ℕ) (rows : List AttendanceEnriched)
    (event_teams : List EventTeamRow) (member_teams : List MemberTeam) (out : List ResponseRow)
    (o : ResponseRow)
    → list_attendance precedes db team viewer rows event_teams member_teams ≡ ok out
    → In o out
    → o.user_id ≢ viewer
    → (o.reason ≢ none) ⊎ (o.reason_id ≢ none)
    → (o.reason_visibility ≡ some "team") ⊎ SeesReasons db team viewer
unfolding render
list_attendance-confidential precedes db team viewer rows event_teams member_teams out o h i other
      shown =
    let (can_see, a, c, e) =
      list_attendance-row precedes db team viewer rows event_teams member_teams out o h i in
    let row = to_gen_attendance_row (hide_reason viewer can_see a) in
    elim (apply_badge-cases precedes (ltb 1 (length event_teams)) team member_teams row) [
      | inl (same, _) ↦ elim (to_gen-hidden viewer can_see a (rw (e ∙ same) at other)) [
        | inl q ↦ inl (ap (λ (x : ResponseRow). x.reason_visibility) (e ∙ same) ∙ q)
        | inr (inl q) ↦ inr (can_see-SeesReasons db team viewer rows (c ∙ ap ok q))
        | inr (inr (q, k)) ↦ absurd (nothing o row (e ∙ same) q k shown)
      ]
      | inr (badge, q) ↦
          let hidden = redact_foreign_attendee-Redacted row badge in
          absurd (nothing o (redact_foreign_attendee row badge) (e ∙ q) hidden.4 hidden.5 shown)
    ]
  where
    nothing :
        (o row : ResponseRow)
        → o ≡ row
        → row.reason ≡ none
        → row.reason_id ≡ none
        → (o.reason ≢ none) ⊎ (o.reason_id ≢ none)
        → ⊥
    nothing o row e q k (inl s) = s (ap (λ (x : ResponseRow). x.reason) e ∙ q)
    nothing o row e q k (inr s) = s (ap (λ (x : ResponseRow). x.reason_id) e ∙ k)
