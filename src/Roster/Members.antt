-- ===== src/Roster/Members.antt =====
-- The transactions of backend/internal/members/repository.go that change who holds which role:
-- SetRoles and RemoveMember. The row that SetRoles reads back for display is not modelled.
use team_manager.Base.{
  ℕ, Bool, not, ◌&&◌, str_eq, List, [], ◌++◌, map, ◌==◌, any, delete, dedupe_from, if◌then◌else◌,
  ok, ◌>>◌, reject_if,
}
use team_manager.Roster.Db.{
  Db, no_rows, role_not_in_team, insufficient_permission_to_grant, last_settings_admin,
  cannot_remove_settings_admin, Result,
}
use team_manager.Roster.Queries.{
  settings_write, role_set_has_settings_write, team_has_other_settings_write_member,
  user_permissions, membership_permissions, role_set_effective_permissions, roles_exist_for_team,
}
use team_manager.Roster.Ceilings.{escalates}

unfoldable pub dedupe_strings : List ℕ → List ℕ
dedupe_strings ids = dedupe_from [] ids

unfoldable pub membership_in_team : Db → ℕ → ℕ → Bool
membership_in_team db membership team =
    any (λ m. m.id == membership && m.team_id == team) db.memberships

-- The count of an empty list of ids is 0, so the source's `len(roleIDs) > 0` changes nothing.
unfoldable pub validate_set_roles_inputs : Db → ℕ → ℕ → List ℕ → Result (Unit {0})
unfolding membership_in_team
validate_set_roles_inputs db membership team role_ids =
    reject_if (not (membership_in_team db membership team)) no_rows
    >> reject_if (not (roles_exist_for_team db team role_ids)) role_not_in_team

unfoldable pub enforce_no_permission_escalation : Db → ℕ → ℕ → ℕ → List ℕ → Result (Unit {0})
enforce_no_permission_escalation db team caller membership role_ids =
    reject_if
      (escalates (user_permissions db team caller) (membership_permissions db membership)
        (role_set_effective_permissions db team role_ids))
      insufficient_permission_to_grant

unfoldable pub enforce_settings_admin_guard : Db → ℕ → ℕ → List ℕ → Result (Unit {0})
enforce_settings_admin_guard db team membership role_ids =
    if role_set_has_settings_write db team role_ids
    then ok tt
    else reject_if (not (team_has_other_settings_write_member db team membership))
        last_settings_admin

-- `DELETE FROM membership_roles WHERE membership_id = $1`, then the batch insert.
unfoldable pub replace_assignments : Db → ℕ → List ℕ → Db
replace_assignments db membership role_ids = record db {
  membership_roles =
      map (λ role. record { membership_id = membership; role_id = role }) role_ids
      ++ delete (λ a. a.membership_id == membership) db.membership_roles;
}

unfoldable pub set_roles : Db → ℕ → ℕ → List ℕ → ℕ → Result Db
unfolding dedupe_strings validate_set_roles_inputs enforce_no_permission_escalation
    enforce_settings_admin_guard replace_assignments
set_roles db membership team ids caller =
    let role_ids = dedupe_strings ids in
    validate_set_roles_inputs db membership team role_ids
    >> enforce_no_permission_escalation db team caller membership role_ids
    >> enforce_settings_admin_guard db team membership role_ids
    >> ok (replace_assignments db membership role_ids)

-- The query `isSettingsWriter` of RemoveMember.
unfoldable pub is_settings_writer : Db → ℕ → ℕ → Bool
is_settings_writer db membership team =
    any
      (λ a.
        a.membership_id == membership
        && any (λ r. r.id == a.role_id && r.team_id == team && settings_write r) db.roles)
      db.membership_roles

unfoldable pub guard_removal : Db → ℕ → ℕ → ℕ → Result (Unit {0})
unfolding is_settings_writer
guard_removal db membership team caller =
    if is_settings_writer db membership team
    then reject_if (not (str_eq (user_permissions db team caller).settings "write"))
        cannot_remove_settings_admin
      >> reject_if (not (team_has_other_settings_write_member db team membership))
          last_settings_admin
    else ok tt

-- The foreign key of membership_roles cascades.
unfoldable pub delete_membership : Db → ℕ → ℕ → Db
delete_membership db membership team = record db {
  memberships = delete (λ m. m.id == membership && m.team_id == team) db.memberships;
  membership_roles = delete (λ a. a.membership_id == membership) db.membership_roles;
}

unfoldable pub remove_member : Db → ℕ → ℕ → ℕ → Result Db
unfolding guard_removal delete_membership membership_in_team
remove_member db membership team caller =
    guard_removal db membership team caller
    >> reject_if (not (membership_in_team db membership team)) no_rows
    >> ok (delete_membership db membership team)
