-- ===== src/Roster/Teams.antt =====
-- The transactions of backend/internal/teams/repository.go that make teams and memberships:
-- CreateTeam and AcceptInvite. Generated keys and the clock are arguments; the columns of a team
-- that only its page shows are not modelled.
use team_manager.Base.{
  ℕ, Bool, true, false, ◌&&◌, String, str_eq, [], ◌∷◌, none, some, ◌==◌, ltb, find, ok, ◌>>=◌,
  or_fail,
}
use team_manager.Access.Permissions.{PermissionsJson}
use team_manager.Roster.Db.{
  Db, TeamRow, RoleRow, MembershipRow, InviteRow, no_rows, invite_not_found, Result,
}

-- The keys that the database generates for the rows that CreateTeam inserts.
pub record TeamKeys : Type 0 where
  pub team : ℕ
  pub membership : ℕ
  pub admin_role : ℕ
  pub member_role : ℕ

abbrev pub admin_perms : PermissionsJson
admin_perms = record {
  events = "write";
  members = "write";
  finances = "write";
  news = "write";
  polls = "write";
  settings = "write";
  stats = "write";
}

abbrev pub member_perms : PermissionsJson
member_perms = record {
  events = "read";
  members = "read";
  finances = "none";
  news = "read";
  polls = "read";
  settings = "read";
  stats = "read";
}

abbrev pub admin_row : TeamKeys → RoleRow
admin_row keys = record {
  id = keys.admin_role;
  team_id = keys.team;
  name = "Admin";
  system = true;
  color = none;
  permissions = admin_perms;
}

abbrev pub member_row : TeamKeys → RoleRow
member_row keys = record {
  id = keys.member_role;
  team_id = keys.team;
  name = "Member";
  system = true;
  color = none;
  permissions = member_perms;
}

abbrev pub new_membership : ℕ → ℕ → ℕ → MembershipRow
new_membership new_id team user = record { id = new_id; team_id = team; user_id = user }

unfoldable pub create_team : Db → TeamKeys → ℕ → Db
create_team db keys creator = record db {
  teams = record { id = keys.team; reason_visibility_role_ids = [] } ∷ db.teams;
  memberships = new_membership keys.membership keys.team creator ∷ db.memberships;
  roles = member_row keys ∷ admin_row keys ∷ db.roles;
  membership_roles =
      record { membership_id = keys.membership; role_id = keys.admin_role } ∷ db.membership_roles;
}

-- `SELECT id FROM roles WHERE team_id = $1 AND system = true AND name = 'Member'`
abbrev pub is_member_role : ℕ → RoleRow → Bool
is_member_role team r = r.team_id == team && r.system && str_eq r.name "Member"

-- The insert of a new membership with the system role "Member", if the team has it.
unfoldable pub join_team : Db → ℕ → ℕ → ℕ → Db
join_team db new_id team user =
    let joined = record db { memberships = new_membership new_id team user ∷ db.memberships } in
    elim (find (is_member_role team) db.roles) [
      | none ↦ joined
      | some r ↦ record joined {
        membership_roles = record { membership_id = new_id; role_id = r.id } ∷ db.membership_roles;
      }
    ]

-- `WHERE code = $1 AND expires_at > NOW()`
abbrev pub is_open_invite : ℕ → String → InviteRow → Bool
is_open_invite now code i = str_eq i.code code && ltb now i.expires_at

-- AcceptInvite after the two reads: a member stays one, another user joins.
unfoldable pub admit : Db → ℕ → TeamRow → ℕ → TeamRow × Bool × Db
unfolding join_team
admit db new_id team user =
    elim (find (λ m. m.team_id == team.id && m.user_id == user) db.memberships) [
      | none ↦ (team, false, join_team db new_id team.id user)
      | some m ↦ (team, true, db)
    ]

-- The result is the team, whether the user was a member before, and the database.
unfoldable pub accept_invite : Db → ℕ → ℕ → String → ℕ → Result (TeamRow × Bool × Db)
unfolding admit
accept_invite db now new_id code user = do
  invite ← or_fail (find (is_open_invite now code) db.invites) invite_not_found
  team ← or_fail (find (λ t. t.id == invite.team_id) db.teams) no_rows
  ok (admit db new_id team user)
