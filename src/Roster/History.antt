-- ===== src/Roster/History.antt =====
-- The roster over any sequence of the transactions of backend/internal/members, roles, teams and
-- auth that change users, memberships, roles or who holds a role. Each holds the advisory lock of
-- its team (erasing an account, that of every team of the account), so a history of the database is
-- a sequence of successful transactions.
use team_manager.Base.{ℕ, ◌≡◌, false, Bool, String, List, Option, In, ◌==◌, ok}
use team_manager.Access.Permissions.{PermissionsJson}
use team_manager.Roster.Db.{Db, User, RoleRow, TeamRow}
use team_manager.Roster.Members.{set_roles, remove_member}
use team_manager.Roster.Roles.{RolePatch, create_role, update_role, delete_role}
use team_manager.Roster.Teams.{TeamKeys, create_team, accept_invite}
use team_manager.Roster.Accounts.{erase_user}
use team_manager.Roster.Invariant.{WellFormed, SettingsAdmin}
use team_manager.Roster.Invariant.SetRoles.{set_roles-SettingsAdmin, set_roles-WellFormed}
use team_manager.Roster.Invariant.RemoveMember.{
  remove_member-SettingsAdmin, remove_member-WellFormed,
}
use team_manager.Roster.Invariant.UpdateRole.{update_role-SettingsAdmin, update_role-WellFormed}
use team_manager.Roster.Invariant.DeleteRole.{delete_role-SettingsAdmin, delete_role-WellFormed}
use team_manager.Roster.Invariant.NewTeams.{
  FreshRole, FreshMembership, create_role-SettingsAdmin, create_role-WellFormed,
  create_team-SettingsAdmin, create_team-WellFormed,
}
use team_manager.Roster.Invariant.Invites.{accept_invite-SettingsAdmin, accept_invite-WellFormed}
use team_manager.Roster.Invariant.Erase.{erase_user-SettingsAdmin, erase_user-WellFormed}

-- One committed transaction.
pub data Step (db db' : Db) : Type 0 where
  roles_set :
      (membership team : ℕ) (ids : List ℕ) (caller : ℕ)
      → set_roles db membership team ids caller ≡ ok db'
      → Step db db'
  member_removed :
      (membership team caller : ℕ) → remove_member db membership team caller ≡ ok db' → Step db db'
  role_created :
      (new_id team : ℕ) (name : String) (color : Option String) (permissions : PermissionsJson)
      → FreshRole db new_id
      → create_role db new_id team name color permissions ≡ ok db'
      → Step db db'
  role_updated :
      (role team caller : ℕ) (patch : RolePatch) (r : RoleRow)
      → update_role db role team caller patch ≡ ok (r, db')
      → Step db db'
  role_deleted : (role team : ℕ) → delete_role db role team ≡ ok db' → Step db db'
  team_created :
      (keys : TeamKeys) (creator : User)
      → In creator db.users
      → creator.deleted ≡ false
      → FreshMembership db keys.membership
      → FreshRole db keys.admin_role
      → FreshRole db keys.member_role
      → keys.admin_role == keys.member_role ≡ false
      → create_team db keys creator.id ≡ db'
      → Step db db'
  invite_accepted :
      (now new_id : ℕ) (code : String) (user : ℕ) (t : TeamRow) (was : Bool)
      → FreshMembership db new_id
      → accept_invite db now new_id code user ≡ ok (t, was, db')
      → Step db db'
  user_erased : (user : ℕ) → erase_user db user ≡ ok db' → Step db db'

pub data History (db : Db) : Db → Type 0 where
  start : History db db
  next : (mid db' : Db) → History db mid → Step mid db' → History db db'

Step-WellFormed : (db db' : Db) → Step db db' → WellFormed db → WellFormed db'
Step-WellFormed db db' (roles_set m t ids c h) wf = set_roles-WellFormed db m t ids c db' wf h
Step-WellFormed db db' (member_removed m t c h) wf = remove_member-WellFormed db m t c db' wf h
Step-WellFormed db db' (role_created k t n c p f h) wf =
    create_role-WellFormed db k t n c p db' f wf h
Step-WellFormed db db' (role_updated k t c p r h) wf = update_role-WellFormed db k t c p r db' wf h
Step-WellFormed db db' (role_deleted k t h) wf = delete_role-WellFormed db k t db' wf h
Step-WellFormed db db' (team_created keys u i live fm fa fr ne e) wf =
    subst_wf e (create_team-WellFormed db keys u.id fm fa fr ne wf)
  where
    subst_wf : {x y : Db} → x ≡ y → WellFormed x → WellFormed y
    subst_wf q w = rw (← q) w
Step-WellFormed db db' (invite_accepted n k c u t w f h) wf =
    accept_invite-WellFormed db n k c u t w db' f wf h
Step-WellFormed db db' (user_erased u h) wf = erase_user-WellFormed db u db' wf h

Step-SettingsAdmin :
    (db db' : Db) (team : ℕ)
    → Step db db'
    → WellFormed db
    → SettingsAdmin db team
    → SettingsAdmin db' team
Step-SettingsAdmin db db' team (roles_set m t ids c h) wf s =
    set_roles-SettingsAdmin db m t ids c db' team wf s h
Step-SettingsAdmin db db' team (member_removed m t c h) wf s =
    remove_member-SettingsAdmin db m t c db' team wf s h
Step-SettingsAdmin db db' team (role_created k t n c p f h) wf s =
    create_role-SettingsAdmin db k t n c p db' team s h
Step-SettingsAdmin db db' team (role_updated k t c p r h) wf s =
    update_role-SettingsAdmin db k t c p r db' team wf s h
Step-SettingsAdmin db db' team (role_deleted k t h) wf s =
    delete_role-SettingsAdmin db k t db' team wf s h
Step-SettingsAdmin db db' team (team_created keys u i live fm fa fr ne e) wf s =
    subst_admin e ((create_team-SettingsAdmin db keys u i live).1 team s)
  where
    subst_admin : {x y : Db} → x ≡ y → SettingsAdmin x team → SettingsAdmin y team
    subst_admin q w = rw (← q) w
Step-SettingsAdmin db db' team (invite_accepted n k c u t w f h) wf s =
    accept_invite-SettingsAdmin db n k c u t w db' team s h
Step-SettingsAdmin db db' team (user_erased u h) wf s =
    erase_user-SettingsAdmin db u db' team wf s h

-- Over any sequence of committed transactions (role assignments, removals of members, role
-- creations, updates and deletions, new teams, accepted invites and erased accounts) a well-formed
-- database stays well-formed, and every team that has a settings administrator at the start has one
-- at the end.
pub History-SettingsAdmin :
    (db db' : Db) (team : ℕ)
    → WellFormed db
    → SettingsAdmin db team
    → History db db'
    → WellFormed db' × SettingsAdmin db' team
History-SettingsAdmin db db' team wf s start = (wf, s)
History-SettingsAdmin db db' team wf s (next mid _ h step) =
    let (w, t) = History-SettingsAdmin db mid team wf s h in
    (Step-WellFormed mid db' step w, Step-SettingsAdmin mid db' team step w t)
