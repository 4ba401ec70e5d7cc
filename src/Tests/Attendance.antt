-- ===== src/Tests/Attendance.antt =====
-- The attendance list of a match that two teams share (backend/internal/events).
use team_manager.Base.{
  ℕ, ◌+◌, ◌≡◌, ◌≢◌, refl, inl, inr, ◌⊎◌, Bool, false, String, List, [], ◌∷◌, Option, none, some, In,
  ok, arith,
}
use team_manager.Events.Attendance.{
  AttendanceEnriched, ResponseRow, EventTeamRow, MemberTeam, compute_effective_attendance,
}
use team_manager.Events.Listing.{list_attendance}
use team_manager.Events.Redaction.{Redacted, list_attendance-Redacted}
use team_manager.Events.Confidential.{SeesReasons, list_attendance-confidential}
use team_manager.Tests.Roster.{team_db}

-- Ben's response as the roster of a match that is shared with team 11 lists it, and Cem's, who is in
-- team 11 only.
abbrev row_of : ℕ → AttendanceEnriched
row_of user = record {
  user_id = user;
  membership_id = 100 + user;
  name = "A player";
  avatar_color = "blue";
  has_photo = false;
  group = none;
  title = some "Captain";
  primary_role = none;
  effective =
      compute_effective_attendance (some "no") (some "ill") none none (some 5) false "opt_in";
}

abbrev both_teams : List EventTeamRow
both_teams =
    record { team_id = 10; team_name = "A" } ∷ record { team_id = 11; team_name = "B" } ∷ []

abbrev memberships_known : List MemberTeam
memberships_known =
    record { user_id = 2; team = record { team_id = 10; team_name = "A" } }
    ∷ record { user_id = 3; team = record { team_id = 11; team_name = "B" } }
    ∷ []

abbrev earlier : String → String → Bool
earlier a b = false

abbrev shown_row : ℕ → Option String → Option String → ResponseRow
shown_row user reason title = record {
  user_id = user;
  membership_id = some (100 + user);
  status = "no";
  name = "A player";
  avatar_color = "blue";
  has_photo = false;
  reason = reason;
  reason_id = none;
  reason_visibility = none;
  group = none;
  title = title;
  primary_role = none;
  auto = some false;
  absent = some false;
  team_name = none;
}

abbrev cems : ResponseRow
cems = record (shown_row 3 none none) {
  membership_id = none;
  auto = none;
  absent = none;
  team_name = some "B";
}

-- Ben sees his own reason; Anna, whose role is not among those that the team shows reasons to, does
-- not.
list_for_ben :
    list_attendance earlier team_db 10 2 (row_of 2 ∷ row_of 3 ∷ []) both_teams memberships_known
    ≡ ok (shown_row 2 (some "ill") (some "Captain") ∷ cems ∷ [])
unfolding list_attendance team_manager.Events.Listing.can_viewer_see_attendance_reasons
    team_manager.Events.Listing.needs_redaction_check compute_effective_attendance
    team_manager.Events.Listing.reason_shared_with_team
    team_manager.Events.Listing.get_reason_visibility_context team_manager.Events.Listing.render
    team_manager.Events.Listing.apply_badge team_manager.Events.Listing.to_gen_attendance_row
    team_manager.Events.Listing.hide_reason team_manager.Events.Listing.compute_team_badge
    team_manager.Events.Listing.role_sets_intersect team_manager.Events.Listing.badge_from
    team_manager.Events.Listing.redact_foreign_attendee
list_for_ben = refl

list_for_anna :
    list_attendance earlier team_db 10 1 (row_of 2 ∷ row_of 3 ∷ []) both_teams memberships_known
    ≡ ok (shown_row 2 none (some "Captain") ∷ cems ∷ [])
unfolding list_attendance team_manager.Events.Listing.can_viewer_see_attendance_reasons
    team_manager.Events.Listing.needs_redaction_check compute_effective_attendance
    team_manager.Events.Listing.reason_shared_with_team
    team_manager.Events.Listing.get_reason_visibility_context team_manager.Events.Listing.render
    team_manager.Events.Listing.apply_badge team_manager.Events.Listing.to_gen_attendance_row
    team_manager.Events.Listing.hide_reason team_manager.Events.Listing.role_sets_intersect
    team_manager.Events.Listing.compute_team_badge team_manager.Events.Listing.badge_from
    team_manager.Events.Listing.redact_foreign_attendee
list_for_anna = refl

cem_is_foreign : (t : MemberTeam) → In t memberships_known → t.user_id ≡ 3 → t.team.team_id ≢ 10
cem_is_foreign t (inl e) h q = absurd (ground (arith, h, e))
cem_is_foreign t (inr (inl e)) h q = ground (arith, q, e)
cem_is_foreign t (inr (inr i)) h q = elim i [ ]

list_attendance-Redacted_example : Redacted cems
list_attendance-Redacted_example =
    list_attendance-Redacted earlier team_db 10 1 (row_of 2 ∷ row_of 3 ∷ []) both_teams
      memberships_known (shown_row 2 none (some "Captain") ∷ cems ∷ []) cems list_for_anna
      (omega arith) (inr (inl refl)) cem_is_foreign

-- Ben reads Dora's reason in team 10 with his role 6.
abbrev doras : ResponseRow
doras = shown_row 4 (some "ill") (some "Captain")

list_with_dora : list_attendance earlier team_db 10 2 (row_of 4 ∷ []) [] [] ≡ ok (doras ∷ [])
unfolding list_attendance team_manager.Events.Listing.can_viewer_see_attendance_reasons
    team_manager.Events.Listing.needs_redaction_check compute_effective_attendance
    team_manager.Events.Listing.reason_shared_with_team
    team_manager.Events.Listing.get_reason_visibility_context team_manager.Events.Listing.render
    team_manager.Events.Listing.apply_badge team_manager.Events.Listing.to_gen_attendance_row
    team_manager.Events.Listing.hide_reason team_manager.Events.Listing.role_sets_intersect
list_with_dora = refl

list_attendance-confidential_example :
    (doras.reason_visibility ≡ some "team") ⊎ SeesReasons team_db 10 2
list_attendance-confidential_example =
    list_attendance-confidential earlier team_db 10 2 (row_of 4 ∷ []) [] [] (doras ∷ []) doras
      list_with_dora (inl refl) (λ e. omega (arith, e)) (inl (λ e. cc e))
