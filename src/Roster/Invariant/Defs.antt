-- ===== src/Roster/Invariant/Defs.antt =====
-- What the database and the transactions of backend/internal/members and backend/internal/roles
-- maintain.
use team_manager.Base.{ℕ, ◌≡◌, false, In, All, Distinct}
use team_manager.Roster.Db.{Db, User, MembershipRow, RoleRow, Assignment}

-- A role is assigned to a membership of its own team.
abbrev pub InOneTeam : Db → Assignment → Type 0
InOneTeam db a =
    (m : MembershipRow) × (r : RoleRow) × In m db.memberships
    × In r db.roles
    × (m.id ≡ a.membership_id)
    × (r.id ≡ a.role_id)
    × (r.team_id ≡ m.team_id)

-- The primary keys of memberships and roles, and the teams of assigned roles.
pub record WellFormed (db : Db) : Type 0 where
  pub membership_keys : Distinct (λ m. m.id) db.memberships
  pub role_keys : Distinct (λ r. r.id) db.roles
  pub assignments : All (InOneTeam db) db.membership_roles

-- Someone can administer the team: an account that is not erased has a membership to which a role
-- of the team with settings:write is assigned.
pub record SettingsAdmin (db : Db) (team : ℕ) : Type 0 where
  pub member : MembershipRow
  pub role : RoleRow
  pub user : User
  pub member_in : In member db.memberships
  pub role_in : In role db.roles
  pub user_in : In user db.users
  pub assigned :
      In {A = Assignment}
        (record { membership_id = member.id; role_id = role.id })
        db.membership_roles
  pub member_team : member.team_id ≡ team
  pub role_team : role.team_id ≡ team
  pub writes : role.permissions.settings ≡ "write"
  pub account : user.id ≡ member.user_id
  pub active : user.deleted ≡ false
