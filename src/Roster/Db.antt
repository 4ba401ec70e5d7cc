-- ===== src/Roster/Db.antt =====
-- The tables that the membership and role transactions read and write, each row with the columns
-- that these transactions use (backend/internal/teams/model.go and the schema of
-- backend/internal/db/migrations). Every transaction holds the team's advisory lock, so each is one
-- step from a database to a database; one that returns an error rolls back.
use team_manager.Base.{ℕ, Bool, String, List, Option, Outcome}
use team_manager.Access.Permissions.{PermissionsJson}

pub record User : Type 0 where
  pub id : ℕ
  -- `deleted_at IS NOT NULL`: the account was erased.
  pub deleted : Bool

pub record MembershipRow : Type 0 where
  pub id : ℕ
  pub team_id : ℕ
  pub user_id : ℕ

pub record RoleRow : Type 0 where
  pub id : ℕ
  pub team_id : ℕ
  pub name : String
  pub system : Bool
  pub color : Option String
  pub permissions : PermissionsJson

-- membership_roles
pub record Assignment : Type 0 where
  pub membership_id : ℕ
  pub role_id : ℕ

pub record TeamRow : Type 0 where
  pub id : ℕ
  pub reason_visibility_role_ids : List ℕ

-- A row of events or of event_series: its team and its nominated_role_ids.
pub record Nominating : Type 0 where
  pub id : ℕ
  pub team_id : ℕ
  pub nominated_role_ids : List ℕ

pub record InviteRow : Type 0 where
  pub team_id : ℕ
  pub code : String
  pub expires_at : ℕ

pub record Db : Type 0 where
  pub users : List User
  pub teams : List TeamRow
  pub memberships : List MembershipRow
  pub roles : List RoleRow
  pub membership_roles : List Assignment
  pub events : List Nominating
  pub event_series : List Nominating
  pub invites : List InviteRow

pub data Error : Type 0 where
  no_rows role_not_in_team insufficient_permission_to_grant last_settings_admin : Error
  cannot_remove_settings_admin system_role too_many_roles invite_not_found : Error
  sole_settings_admin : List ℕ → Error

abbrev pub Result {ℓ} : Type ℓ → Type ℓ
Result A = Outcome Error A
