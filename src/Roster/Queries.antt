-- ===== src/Roster/Queries.antt =====
-- The queries that the membership and role transactions share.
use team_manager.Base.{
  ℕ, Bool, not, ◌&&◌, str_eq, List, map, ◌==◌, any, select, count, contains, length,
}
use team_manager.Access.Permissions.{PermissionsJson, effective_permissions}
use team_manager.Roster.Db.{Db, MembershipRow, RoleRow}

-- `r.permissions->>'settings' = 'write'`
abbrev pub settings_write : RoleRow → Bool
settings_write r = str_eq r.permissions.settings "write"

-- `JOIN users u ON u.id = m.user_id … AND u.deleted_at IS NULL`
unfoldable pub is_active : Db → ℕ → Bool
is_active db user = any (λ u. u.id == user && not u.deleted) db.users

-- `JOIN membership_roles mr ON mr.membership_id = m.id JOIN roles r ON r.id = mr.role_id WHERE p r`
unfoldable pub holds_role : Db → MembershipRow → (RoleRow → Bool) → Bool
holds_role db m p =
    any (λ a. a.membership_id == m.id && any (λ r. r.id == a.role_id && p r) db.roles)
      db.membership_roles

-- members.teamHasOtherSettingsWriteMember
unfoldable pub team_has_other_settings_write_member : Db → ℕ → ℕ → Bool
team_has_other_settings_write_member db team exclude =
    any
      (λ m.
        m.team_id == team
        && not (m.id == exclude)
        && holds_role db m (λ r. r.team_id == m.team_id && settings_write r)
        && is_active db m.user_id)
      db.memberships

-- roles.sql CheckOtherRolesHaveSettingsWrite
unfoldable pub check_other_roles_have_settings_write : Db → ℕ → ℕ → Bool
check_other_roles_have_settings_write db team role =
    any
      (λ m.
        m.team_id == team
        && holds_role db m (λ r. not (r.id == role) && r.team_id == m.team_id && settings_write r)
        && is_active db m.user_id)
      db.memberships

-- members.roleSetHasSettingsWrite: `id = ANY($1) AND team_id = $2 AND settings = 'write'`
unfoldable pub role_set_has_settings_write : Db → ℕ → List ℕ → Bool
role_set_has_settings_write db team role_ids =
    any (λ r. contains role_ids r.id && r.team_id == team && settings_write r) db.roles

-- The permissions of the roles assigned to a membership for which `p` holds. (membership_id,
-- role_id) is the primary key of membership_roles, so the join yields each role once.
abbrev pub assigned_permissions : Db → (MembershipRow → RoleRow → Bool) → List PermissionsJson
assigned_permissions db p =
    map (λ r. r.permissions)
      (select
        (λ r.
          any (λ a. a.role_id == r.id && any (λ m. m.id == a.membership_id && p m r) db.memberships)
            db.membership_roles)
        db.roles)

-- members.getEffectivePermissionsByUserQ, roles.getEffectivePermissionsByUserQ, GetPermissions
unfoldable pub user_permissions : Db → ℕ → ℕ → PermissionsJson
user_permissions db team user =
    effective_permissions
      (assigned_permissions db (λ m r. m.team_id == team && m.user_id == user && r.team_id == team))

-- members.getMembershipEffectivePermissionsQ
unfoldable pub membership_permissions : Db → ℕ → PermissionsJson
membership_permissions db membership =
    effective_permissions
      (assigned_permissions db (λ m r. m.id == membership && r.team_id == m.team_id))

-- members.roleSetEffectivePermissions
unfoldable pub role_set_effective_permissions : Db → ℕ → List ℕ → PermissionsJson
role_set_effective_permissions db team role_ids =
    effective_permissions (
      map (λ r. r.permissions) (select (λ r. contains role_ids r.id && r.team_id == team) db.roles))

-- members.IsMember
unfoldable pub is_member : Db → ℕ → ℕ → Bool
is_member db team user = any (λ m. m.team_id == team && m.user_id == user) db.memberships

-- roles.RolesExistForTeam: the number of the team's roles among the ids, against the number of
-- distinct ids; and the identical check of validateSetRolesInputs.
unfoldable pub roles_exist_for_team : Db → ℕ → List ℕ → Bool
roles_exist_for_team db team distinct_ids =
    count (λ r. contains distinct_ids r.id && r.team_id == team) db.roles == length distinct_ids
