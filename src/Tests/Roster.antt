-- ===== src/Tests/Roster.antt =====
-- The transactions of members, roles and teams on a team of two members
-- (backend/internal/members, roles and teams).
use team_manager.Base.{
  ℕ, arith, ◌≡◌, refl, inl, inr, Bool, true, false, List, [], ◌∷◌, none, some, In, ok, err, ◌≢◌,
  contains,
}
use team_manager.Access.Permissions.{PermissionsJson}
use team_manager.Roster.Db.{
  Db, User, MembershipRow, RoleRow, Assignment, TeamRow, last_settings_admin,
}
use team_manager.Roster.Members.{set_roles, remove_member}
use team_manager.Roster.Roles.{delete_role}
use team_manager.Roster.Teams.{TeamKeys, admin_perms, member_perms}
use team_manager.Roster.Invariant.{WellFormed, SettingsAdmin}
use team_manager.Roster.Queries.{user_permissions}
use team_manager.Roster.Invariant.RemoveMember.{remove_member-by_admin}
use team_manager.Roster.Invariant.DeleteRole.{NoneNominates, delete_role-no_reference}
use team_manager.Roster.Roles.{is_role}
use team_manager.Roster.History.{
  roles_set, member_removed, History, start, next, History-SettingsAdmin,
}

abbrev pub admin_role : RoleRow
admin_role = record {
  id = 5;
  team_id = 10;
  name = "Admin";
  system = true;
  color = none;
  permissions = admin_perms;
}

abbrev pub trainer_role : RoleRow
trainer_role = record {
  id = 6;
  team_id = 10;
  name = "Trainer";
  system = false;
  color = none;
  permissions = member_perms;
}

abbrev pub anna : User
anna = record { id = 1; deleted = false }

abbrev pub ben : User
ben = record { id = 2; deleted = false }

abbrev pub anna_member : MembershipRow
anna_member = record { id = 100; team_id = 10; user_id = 1 }

abbrev pub ben_member : MembershipRow
ben_member = record { id = 101; team_id = 10; user_id = 2 }

abbrev pub team_db : Db
team_db = record {
  users = anna ∷ ben ∷ [];
  teams = record { id = 10; reason_visibility_role_ids = 6 ∷ [] } ∷ [];
  memberships = anna_member ∷ ben_member ∷ [];
  roles = admin_role ∷ trainer_role ∷ [];
  membership_roles =
      record { membership_id = 100; role_id = 5 }
      ∷ record { membership_id = 101; role_id = 6 }
      ∷ [];
  events = record { id = 1; team_id = 10; nominated_role_ids = 6 ∷ 5 ∷ [] } ∷ [];
  event_series = [];
  invites = [];
}

-- The same team after both roles are given to Ben, and after Anna is removed.
abbrev pub promoted_db : Db
promoted_db = record team_db {
  membership_roles =
      record { membership_id = 101; role_id = 5 }
      ∷ record { membership_id = 101; role_id = 6 }
      ∷ record { membership_id = 100; role_id = 5 }
      ∷ [];
}

abbrev pub handed_over_db : Db
handed_over_db = record promoted_db {
  memberships = ben_member ∷ [];
  membership_roles =
      record { membership_id = 101; role_id = 5 }
      ∷ record { membership_id = 101; role_id = 6 }
      ∷ [];
}

pub promote_ben : set_roles team_db 101 10 (5 ∷ 6 ∷ 5 ∷ []) 1 ≡ ok promoted_db
unfolding set_roles team_manager.Roster.Queries.roles_exist_for_team team_manager.Base.dedupe_from
    team_manager.Roster.Ceilings.escalates team_manager.Access.Permissions.perm_level_rank
    team_manager.Access.Permissions.fold_max team_manager.Roster.Queries.user_permissions
    team_manager.Access.Permissions.effective_permissions
    team_manager.Roster.Queries.membership_permissions
    team_manager.Roster.Queries.role_set_effective_permissions
    team_manager.Roster.Queries.role_set_has_settings_write
promote_ben = refl

pub remove_anna : remove_member promoted_db 100 10 1 ≡ ok handed_over_db
unfolding remove_member team_manager.Roster.Queries.user_permissions
    team_manager.Access.Permissions.effective_permissions team_manager.Access.Permissions.fold_max
    team_manager.Access.Permissions.perm_level_rank
    team_manager.Roster.Queries.team_has_other_settings_write_member
    team_manager.Roster.Queries.holds_role team_manager.Roster.Queries.is_active
remove_anna = refl

-- The only administrator cannot be removed.
keep_anna : remove_member team_db 100 10 1 ≡ err last_settings_admin
unfolding remove_member team_manager.Roster.Queries.user_permissions
    team_manager.Access.Permissions.effective_permissions team_manager.Access.Permissions.fold_max
    team_manager.Access.Permissions.perm_level_rank
    team_manager.Roster.Queries.team_has_other_settings_write_member
    team_manager.Roster.Queries.holds_role
keep_anna = refl

pub team_db-WellFormed : WellFormed team_db
team_db-WellFormed = record {
  membership_keys = ((λ e. omega (arith, e), tt), (tt, tt));
  role_keys = ((λ e. omega (arith, e), tt), (tt, tt));
  assignments = (
    (anna_member, admin_role, inl refl, inl refl, refl, refl, refl),
    ((ben_member, trainer_role, inr (inl refl), inr (inl refl), refl, refl, refl), tt),
  );
}

team_db-SettingsAdmin : SettingsAdmin team_db 10
team_db-SettingsAdmin = record {
  member = anna_member;
  role = admin_role;
  user = anna;
  member_in = inl refl;
  role_in = inl refl;
  user_in = inl refl;
  assigned = inl refl;
  member_team = refl;
  role_team = refl;
  writes = refl;
  account = refl;
  active = refl;
}

hand_over : History team_db handed_over_db
hand_over =
    next promoted_db handed_over_db
      (next team_db promoted_db start (roles_set 101 10 (5 ∷ 6 ∷ 5 ∷ []) 1 promote_ben))
      (member_removed 100 10 1 remove_anna)

History-SettingsAdmin_example : WellFormed handed_over_db × SettingsAdmin handed_over_db 10
History-SettingsAdmin_example =
    History-SettingsAdmin team_db handed_over_db 10 team_db-WellFormed team_db-SettingsAdmin
      hand_over

abbrev promoted_db_admin : SettingsAdmin promoted_db 10
promoted_db_admin = record {
  member = anna_member;
  role = admin_role;
  user = anna;
  member_in = inl refl;
  role_in = inl refl;
  user_in = inl refl;
  assigned = inr (inr (inl refl));
  member_team = refl;
  role_team = refl;
  writes = refl;
  account = refl;
  active = refl;
}

remove_member-by_admin_example :
    ((user_permissions promoted_db 10 1).settings ≡ "write")
    × ((o : SettingsAdmin promoted_db 10) × (o.member.id ≢ 100))
remove_member-by_admin_example =
    remove_member-by_admin promoted_db 100 10 1 handed_over_db promoted_db_admin refl remove_anna

abbrev without_trainer_db : Db
without_trainer_db = record team_db {
  teams = record { id = 10; reason_visibility_role_ids = [] } ∷ [];
  roles = admin_role ∷ [];
  membership_roles = record { membership_id = 100; role_id = 5 } ∷ [];
  events = record { id = 1; team_id = 10; nominated_role_ids = 5 ∷ [] } ∷ [];
}

delete_trainer : delete_role team_db 6 10 ≡ ok without_trainer_db
unfolding delete_role team_manager.Roster.Queries.check_other_roles_have_settings_write
    team_manager.Roster.Queries.holds_role team_manager.Roster.Queries.is_active
delete_trainer = refl

delete_role-no_reference_example :
    ((r : RoleRow) → In r without_trainer_db.roles → is_role 6 10 r ≡ false)
    × ((a : Assignment) → In a without_trainer_db.membership_roles → a.role_id ≢ 6)
    × NoneNominates 6 10 without_trainer_db.events
    × NoneNominates 6 10 without_trainer_db.event_series
    × ((t : TeamRow)
        → In t without_trainer_db.teams
        → t.id ≡ 10
        → contains t.reason_visibility_role_ids 6 ≡ false)
delete_role-no_reference_example =
    delete_role-no_reference team_db 6 10 without_trainer_db delete_trainer

abbrev new_keys : TeamKeys
new_keys = record { team = 20; membership = 200; admin_role = 7; member_role = 8 }
