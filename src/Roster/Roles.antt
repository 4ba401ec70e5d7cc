-- ===== src/Roster/Roles.antt =====
-- The transactions of backend/internal/roles: CreateRole, UpdateRole and DeleteRole. A role id that
-- the database generates is an argument.
use team_manager.Base.{
  ℕ, Bool, false, not, ◌&&◌, ◌||◌, String, str_eq, List, ◌∷◌, Option, none, some, ◌==◌, leb, count,
  delete, find, update, if◌then◌else◌, is_some, or_default, ok, ◌>>◌, ◌>>=◌, reject_if, or_fail,
}
use team_manager.Access.Permissions.{PermissionsJson}
use team_manager.Roster.Db.{
  Db, RoleRow, Nominating, no_rows, system_role, last_settings_admin,
  insufficient_permission_to_grant, too_many_roles, Result,
}
use team_manager.Roster.Queries.{
  settings_write, check_other_roles_have_settings_write, user_permissions,
}
use team_manager.Roster.Ceilings.{escalates}

pub record RolePatch : Type 0 where
  pub name : Option String
  pub color : Option String
  pub permissions : Option PermissionsJson

abbrev pub max_roles_per_team : ℕ
max_roles_per_team = 500

-- `WHERE id = $1 AND team_id = $2`
abbrev pub is_role : ℕ → ℕ → RoleRow → Bool
is_role role team r = r.id == role && r.team_id == team

-- Service.CreateRole and Repository.CreateRole; `new_id` is the generated key, and `system` is the
-- column's default.
unfoldable pub create_role : Db → ℕ → ℕ → String → Option String → PermissionsJson → Result Db
create_role db new_id team name color permissions =
    reject_if (leb max_roles_per_team (count (λ r. r.team_id == team) db.roles)) too_many_roles
    >> ok (record db {
      roles =
          record {
            id = new_id;
            team_id = team;
            name = name;
            system = false;
            color = color;
            permissions = permissions;
          }
          ∷ db.roles;
    })

unfoldable pub enforce_no_role_escalation :
    Db → ℕ → ℕ → PermissionsJson → PermissionsJson → Result (Unit {0})
enforce_no_role_escalation db team caller current new =
    reject_if (escalates (user_permissions db team caller) current new)
      insufficient_permission_to_grant

-- The part of guardRoleUpdate after the check that the role is no system role.
unfoldable pub guard_permissions :
    Db → ℕ → ℕ → ℕ → PermissionsJson → PermissionsJson → Result (Unit {0})
unfolding enforce_no_role_escalation
guard_permissions db role team caller current new =
    enforce_no_role_escalation db team caller current new
    >> (if str_eq new.settings "write"
        then ok tt
        else if check_other_roles_have_settings_write db team role
        then ok tt
        else reject_if (str_eq current.settings "write") last_settings_admin)

unfoldable pub guard_role_update : Db → ℕ → ℕ → ℕ → RolePatch → Result (Unit {0})
unfolding guard_permissions
guard_role_update db role team caller patch = do
  current ← or_fail (find (is_role role team) db.roles) no_rows
  reject_if current.system system_role
  elim patch.permissions [
    | none ↦ ok tt
    | some new ↦ guard_permissions db role team caller current.permissions new
  ]

-- buildRoleUpdateSets, applied to a row: a column that the patch leaves out stays.
unfoldable pub apply_patch : RolePatch → RoleRow → RoleRow
apply_patch patch r = record r {
  name = or_default patch.name r.name;
  color = if is_some patch.color then patch.color else r.color;
  permissions = or_default patch.permissions r.permissions;
}

abbrev pub needs_guard : RolePatch → Bool
needs_guard patch = is_some patch.name || is_some patch.permissions

abbrev pub is_empty : RolePatch → Bool
is_empty patch = not (is_some patch.name || is_some patch.color || is_some patch.permissions)

-- `UPDATE roles SET … WHERE id = $n AND team_id = $m`
unfoldable pub written : Db → ℕ → ℕ → RolePatch → Db
unfolding apply_patch
written db role team patch = record db {
  roles = update (is_role role team) (apply_patch patch) db.roles;
}

-- The update with its `RETURNING` row.
unfoldable pub write_role : Db → ℕ → ℕ → RolePatch → Result (RoleRow × Db)
unfolding apply_patch written
write_role db role team patch = do
  r ← or_fail (find (is_role role team) db.roles) no_rows
  ok (apply_patch patch r, written db role team patch)

-- GetRoleByID, for a patch that sets nothing.
unfoldable pub read_role : Db → ℕ → ℕ → Result (RoleRow × Db)
read_role db role team = do r ← or_fail (find (is_role role team) db.roles) no_rows; ok (r, db)

unfoldable pub guarded : Db → ℕ → ℕ → ℕ → RolePatch → Result (Unit {0})
unfolding guard_role_update
guarded db role team caller patch =
    if needs_guard patch then guard_role_update db role team caller patch else ok tt

unfoldable pub update_role : Db → ℕ → ℕ → ℕ → RolePatch → Result (RoleRow × Db)
unfolding write_role guarded read_role
update_role db role team caller patch =
    if is_empty patch
    then read_role db role team
    else (guarded db role team caller patch >> write_role db role team patch)

-- `array_remove(ids, $1)`
abbrev pub array_remove : ℕ → List ℕ → List ℕ
array_remove role ids = delete (λ x. x == role) ids

abbrev pub scrub_nominating : ℕ → ℕ → List Nominating → List Nominating
scrub_nominating role team rows =
    update (λ e. e.team_id == team)
      (λ e. record e { nominated_role_ids = array_remove role e.nominated_role_ids }) rows

unfoldable pub scrub_dangling_role_references : Db → ℕ → ℕ → Db
scrub_dangling_role_references db role team = record db {
  teams =
      update (λ t. t.id == team)
        (λ t. record t {
          reason_visibility_role_ids = array_remove role t.reason_visibility_role_ids;
        })
        db.teams;
  events = scrub_nominating role team db.events;
  event_series = scrub_nominating role team db.event_series;
}

-- The foreign key of membership_roles cascades.
unfoldable pub delete_role_row : Db → ℕ → ℕ → Db
delete_role_row db role team = record db {
  roles = delete (is_role role team) db.roles;
  membership_roles = delete (λ a. a.role_id == role) db.membership_roles;
}

unfoldable pub guard_role_deletion : Db → ℕ → ℕ → RoleRow → Result (Unit {0})
guard_role_deletion db role team r =
    reject_if r.system system_role
    >> (if check_other_roles_have_settings_write db team role
        then ok tt
        else reject_if (settings_write r) last_settings_admin)

-- The two queries GetRoleSystem and GetRoleHasSettingsWrite read one row. The row count of the
-- DELETE is 1, since the row was just read under the team's lock.
unfoldable pub delete_role : Db → ℕ → ℕ → Result Db
unfolding guard_role_deletion delete_role_row scrub_dangling_role_references
delete_role db role team = do
  r ← or_fail (find (is_role role team) db.roles) no_rows
  guard_role_deletion db role team r
  ok (scrub_dangling_role_references (delete_role_row db role team) role team)
