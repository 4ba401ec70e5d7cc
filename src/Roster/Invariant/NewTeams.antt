-- ===== src/Roster/Invariant/NewTeams.antt =====
-- roles.CreateRole and teams.CreateTeam keep the invariant of the roster, and a new team has a settings administrator. The keys that the database generates are fresh.
use team_manager.Base.{
  ℕ, ◌≡◌, refl, false, String, Option, In, All, any, All-In, All-of_In, ◌==◌, inl, inr,
  Distinct-cons, ok, >>-eq-ok, ok-injective, leb, count, reject_if, ◌∷◌,
}
use team_manager.Access.Permissions.{PermissionsJson}
use team_manager.Roster.Db.{Db, User, MembershipRow, RoleRow, Assignment, too_many_roles}
use team_manager.Roster.Roles.{create_role, max_roles_per_team}
use team_manager.Roster.Teams.{TeamKeys, admin_row, member_row, new_membership, create_team}
use team_manager.Roster.Invariant.{InOneTeam, WellFormed, SettingsAdmin, assignment}

-- Rows are only added: an administrator stays one.
pub record Grows (db db' : Db) : Type 0 where
  pub memberships : (m : MembershipRow) → In m db.memberships → In m db'.memberships
  pub roles : (r : RoleRow) → In r db.roles → In r db'.roles
  pub users : (u : User) → In u db.users → In u db'.users
  pub membership_roles : (a : Assignment) → In a db.membership_roles → In a db'.membership_roles

pub grown : (db db' : Db) (t : ℕ) → Grows db db' → SettingsAdmin db t → SettingsAdmin db' t
grown db db' t g s = record {
  member = s.member;
  role = s.role;
  user = s.user;
  member_in = g.memberships s.member s.member_in;
  role_in = g.roles s.role s.role_in;
  user_in = g.users s.user s.user_in;
  assigned = g.membership_roles (assignment s.member.id s.role.id) s.assigned;
  member_team = s.member_team;
  role_team = s.role_team;
  writes = s.writes;
  account = s.account;
  active = s.active;
}

pub grown_assignments :
    (db db' : Db) → Grows db db' → WellFormed db → All (InOneTeam db') db.membership_roles
grown_assignments db db' g wf = All-of_In _ _ λ a l.
    let (m, r, i, j, mid, rid, rt) = All-In (InOneTeam db) a db.membership_roles wf.assignments l in
    (m, r, g.memberships m i, g.roles r j, mid, rid, rt)

abbrev pub FreshRole : Db → ℕ → Type 0
FreshRole db k = any (λ r. r.id == k) db.roles ≡ false

abbrev pub FreshMembership : Db → ℕ → Type 0
FreshMembership db k = any (λ m. m.id == k) db.memberships ≡ false

abbrev with_role : Db → RoleRow → Db
with_role db r = record db { roles = r ∷ db.roles }

create_role-Grows : (db : Db) (r : RoleRow) → Grows db (with_role db r)
create_role-Grows db r = record {
  memberships = λ m i. i;
  roles = λ s i. inr i;
  users = λ u i. i;
  membership_roles = λ a i. i;
}

create_role-checked :
    (db : Db) (new_id team : ℕ) (name : String) (color : Option String)
    (permissions : PermissionsJson) (db' : Db)
    → create_role db new_id team name color permissions ≡ ok db'
    → (r : RoleRow) × (r.id ≡ new_id) × (db' ≡ with_role db r)
unfolding create_role
create_role-checked db new_id team name color permissions db' h =
    let r : RoleRow = record {
      id = new_id;
      team_id = team;
      name = name;
      system = false;
      color = color;
      permissions = permissions;
    } in
    let (_, e) =
      >>-eq-ok
        (reject_if (leb max_roles_per_team (count (λ r. r.team_id == team) db.roles))
          too_many_roles)
        (ok (with_role db r)) db' h in
    (r, refl, ok-injective (with_role db r) db' e)

pub create_role-WellFormed :
    (db : Db) (new_id team : ℕ) (name : String) (color : Option String)
    (permissions : PermissionsJson) (db' : Db)
    → FreshRole db new_id
    → WellFormed db
    → create_role db new_id team name color permissions ≡ ok db'
    → WellFormed db'
create_role-WellFormed db new_id team name color permissions db' fresh wf h =
    let (r, e, q) = create_role-checked db new_id team name color permissions db' h in
    rw q (record {
      membership_keys = wf.membership_keys;
      role_keys = Distinct-cons (λ s. s.id) r db.roles (rw e fresh) wf.role_keys;
      assignments = grown_assignments db (with_role db r) (create_role-Grows db r) wf;
    })

pub create_role-SettingsAdmin :
    (db : Db) (new_id team : ℕ) (name : String) (color : Option String)
    (permissions : PermissionsJson) (db' : Db) (t : ℕ)
    → SettingsAdmin db t
    → create_role db new_id team name color permissions ≡ ok db'
    → SettingsAdmin db' t
create_role-SettingsAdmin db new_id team name color permissions db' t s h =
    let (r, _, q) = create_role-checked db new_id team name color permissions db' h in
    rw q (grown db (with_role db r) t (create_role-Grows db r) s)

create_team-Grows :
    (db : Db) (keys : TeamKeys) (creator : ℕ) → Grows db (create_team db keys creator)
unfolding create_team
create_team-Grows db keys creator = record {
  memberships = λ m i. inr i;
  roles = λ r i. inr (inr i);
  users = λ u i. i;
  membership_roles = λ a i. inr i;
}

pub create_team-WellFormed :
    (db : Db) (keys : TeamKeys) (creator : ℕ)
    → FreshMembership db keys.membership
    → FreshRole db keys.admin_role
    → FreshRole db keys.member_role
    → keys.admin_role == keys.member_role ≡ false
    → WellFormed db
    → WellFormed (create_team db keys creator)
unfolding create_team
create_team-WellFormed db keys creator fresh_m fresh_a fresh_r differ wf = record {
  membership_keys =
      Distinct-cons (λ (m : MembershipRow). m.id) (new_membership keys.membership keys.team creator)
        db.memberships fresh_m wf.membership_keys;
  role_keys =
      Distinct-cons (λ (r : RoleRow). r.id) (member_row keys) (admin_row keys ∷ db.roles)
        (rw (differ, fresh_r))
        (Distinct-cons (λ (r : RoleRow). r.id) (admin_row keys) db.roles fresh_a wf.role_keys);
  assignments = (
    (
      new_membership keys.membership keys.team creator,
      admin_row keys,
      inl refl,
      inr (inl refl),
      refl,
      refl,
      refl,
    ),
    grown_assignments db (create_team db keys creator) (create_team-Grows db keys creator) wf,
  );
}

-- CreateTeam by an active account leaves the new team with a settings administrator, and every
-- other team with the one that it had.
pub create_team-SettingsAdmin :
    (db : Db) (keys : TeamKeys) (creator : User)
    → In creator db.users
    → creator.deleted ≡ false
    → SettingsAdmin (create_team db keys creator.id) keys.team
      × ((t : ℕ) → SettingsAdmin db t → SettingsAdmin (create_team db keys creator.id) t)
unfolding create_team
create_team-SettingsAdmin db keys creator i live = (
  record {
    member = new_membership keys.membership keys.team creator.id;
    role = admin_row keys;
    user = creator;
    member_in = inl refl;
    role_in = inr (inl refl);
    user_in = i;
    assigned = inl refl;
    member_team = refl;
    role_team = refl;
    writes = refl;
    account = refl;
    active = live;
  },
  λ t s. grown db _ t (create_team-Grows db keys creator.id) s,
)
