-- ===== src/Tests/Escalation.antt =====
-- The bounds on what may be granted (backend/internal/members and backend/internal/roles), at the
-- team of the tests of the roster.
use team_manager.Base.{◌≤◌, max, ◌≡◌, refl, true, [], ◌∷◌, ◌⊎◌, none, some, In, ok}
use team_manager.Access.Permissions.{
  PermissionsJson, Module, level, effective_permissions, merge_permissions,
}
use team_manager.Access.Levels.{
  rank_at, effective_permissions_greatest, merge_permissions-eq-effective,
}
use team_manager.Roster.Db.{Db, RoleRow}
use team_manager.Roster.Queries.{user_permissions, membership_permissions}
use team_manager.Roster.Roles.{RolePatch, update_role}
use team_manager.Roster.Teams.{admin_perms, member_perms}
use team_manager.Roster.Escalation.{set_roles-no_escalation, update_role-no_escalation}
use team_manager.Tests.Roster.{team_db, promoted_db, trainer_role, team_db-WellFormed, promote_ben}

set_roles-no_escalation_example :
    rank_at (membership_permissions promoted_db 101) Module.settings
    ≤ max
        (rank_at (user_permissions team_db 10 1) Module.settings)
        (rank_at (membership_permissions team_db 101) Module.settings)
set_roles-no_escalation_example =
    set_roles-no_escalation team_db 101 10 (5 ∷ 6 ∷ 5 ∷ []) 1 promoted_db Module.settings
      team_db-WellFormed promote_ben

abbrev treasurer_perms : PermissionsJson
treasurer_perms = record member_perms { finances = "write" }

abbrev treasurer_patch : RolePatch
treasurer_patch = record { name = none; color = none; permissions = some treasurer_perms }

abbrev treasurer_role : RoleRow
treasurer_role = record trainer_role { permissions = treasurer_perms }

abbrev treasurer_db : Db
treasurer_db = record team_db {
  roles =
      record {
        id = 5;
        team_id = 10;
        name = "Admin";
        system = true;
        color = none;
        permissions = admin_perms;
      }
      ∷ treasurer_role
      ∷ [];
}

widen_trainer : update_role team_db 6 10 1 treasurer_patch ≡ ok (treasurer_role, treasurer_db)
unfolding update_role team_manager.Roster.Ceilings.escalates
    team_manager.Access.Permissions.perm_level_rank team_manager.Access.Permissions.fold_max
    user_permissions effective_permissions
    team_manager.Roster.Queries.check_other_roles_have_settings_write
    team_manager.Roster.Queries.holds_role team_manager.Roster.Queries.is_active
widen_trainer = refl

update_role-no_escalation_example :
    rank_at treasurer_role.permissions Module.finances
    ≤ max
        (rank_at (user_permissions team_db 10 1) Module.finances)
        (rank_at trainer_role.permissions Module.finances)
update_role-no_escalation_example =
    update_role-no_escalation team_db 6 10 1 treasurer_patch trainer_role treasurer_role
      treasurer_db Module.finances refl widen_trainer

merge_permissions-eq-effective_example :
    merge_permissions (treasurer_perms ∷ admin_perms ∷ [])
    ≡ effective_permissions (treasurer_perms ∷ admin_perms ∷ [])
merge_permissions-eq-effective_example =
    merge_permissions-eq-effective (treasurer_perms ∷ admin_perms ∷ [])

effective_permissions_greatest_example :
    ((p : PermissionsJson)
      → In p (treasurer_perms ∷ member_perms ∷ [])
      → rank_at p Module.finances
        ≤ rank_at (effective_permissions (treasurer_perms ∷ member_perms ∷ [])) Module.finances)
    × ((level (effective_permissions (treasurer_perms ∷ member_perms ∷ [])) Module.finances
          ≡ "none")
        ⊎ ((p : PermissionsJson) × In p (treasurer_perms ∷ member_perms ∷ [])
            × (level (effective_permissions (treasurer_perms ∷ member_perms ∷ [])) Module.finances
                ≡ level p Module.finances)))
effective_permissions_greatest_example =
    effective_permissions_greatest (treasurer_perms ∷ member_perms ∷ []) Module.finances
