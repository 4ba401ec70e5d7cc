-- ===== src/Roster/Invariant/Joins.antt =====
-- The join queries of the settings-admin guards find administrators, and find every one.
use team_manager.Base.{
  ℕ, ◌≡◌, ◌≢◌, sym, ◌∙◌, true, false, not, Bool, ◌&&◌, In, any, any_witness, any-In, ==_iff,
  ==_refl, ==_ne, and_true, true_and, not-true, ◌==◌, str_eq_iff, arith,
}
use team_manager.Roster.Db.{Db, User, MembershipRow, RoleRow, Assignment}
use team_manager.Roster.Queries.{
  settings_write, is_active, holds_role, team_has_other_settings_write_member,
  check_other_roles_have_settings_write,
}
use team_manager.Roster.Invariant.Defs.{SettingsAdmin}

abbrev pub assignment : ℕ → ℕ → Assignment
assignment m r = record { membership_id = m; role_id = r }

assignment-eq :
    (a : Assignment) (m r : ℕ) → a.membership_id ≡ m → a.role_id ≡ r → a ≡ assignment m r
assignment-eq a m r p q = λ i. record { membership_id = p i; role_id = q i }

pub is_active_witness :
    (db : Db) (user : ℕ)
    → is_active db user ≡ true
    → (u : User) × In u db.users × (u.id ≡ user) × (u.deleted ≡ false)
unfolding is_active
is_active_witness db user h =
    let (u, i, e) = any_witness (λ v. v.id == user && not v.deleted) db.users h in
    (u, i, ground arith, ground arith)

pub is_active_of :
    (db : Db) (u : User) (user : ℕ)
    → In u db.users
    → u.id ≡ user
    → u.deleted ≡ false
    → is_active db user ≡ true
unfolding is_active
is_active_of db u user i e d =
    any-In (λ v. v.id == user && not v.deleted) u db.users i (ground arith)

pub holds_role_witness :
    (db : Db) (m : MembershipRow) (p : RoleRow → Bool)
    → holds_role db m p ≡ true
    → (r : RoleRow) × In r db.roles × In (assignment m.id r.id) db.membership_roles × (p r ≡ true)
unfolding holds_role
holds_role_witness db m p h =
    let (a, i, e) =
      any_witness (λ a. a.membership_id == m.id && any (λ r. r.id == a.role_id && p r) db.roles)
        db.membership_roles h in
    let (e₁, e₂) = and_true (a.membership_id == m.id) _ e in
    let (r, j, k) = any_witness (λ r. r.id == a.role_id && p r) db.roles e₂ in
    let (k₁, k₂) = and_true (r.id == a.role_id) (p r) k in
    (
      r,
      j,
      in_eq
          (assignment-eq a m.id r.id ((==_iff a.membership_id m.id).0 e₁)
            (sym ((==_iff r.id a.role_id).0 k₁)))
          i,
      k₂,
    )
  where
    in_eq : {a b : Assignment} → a ≡ b → In a db.membership_roles → In b db.membership_roles
    in_eq q i = rw (← q) i

pub holds_role_of :
    (db : Db) (m : MembershipRow) (r : RoleRow) (p : RoleRow → Bool)
    → In r db.roles
    → In (assignment m.id r.id) db.membership_roles
    → p r ≡ true
    → holds_role db m p ≡ true
unfolding holds_role
holds_role_of db m r p j i h =
    any-In (λ a. a.membership_id == m.id && any (λ r. r.id == a.role_id && p r) db.roles)
      (assignment m.id r.id) db.membership_roles i
      (true_and _ _ (==_refl m.id)
        (any-In (λ s. s.id == r.id && p s) r db.roles j (true_and _ _ (==_refl r.id) h)))

-- A row that another membership's query finds is an administrator with another membership.
pub other_member_admin :
    (db : Db) (team exclude : ℕ)
    → team_has_other_settings_write_member db team exclude ≡ true
    → (s : SettingsAdmin db team) × (s.member.id ≢ exclude)
unfolding team_has_other_settings_write_member
other_member_admin db team exclude h =
    let (m, i, e) = any_witness _ db.memberships h in
    let (e₁, is_live) = and_true _ (is_active db m.user_id) e in
    let (e₂, holds) = and_true _ (holds_role db m _) e₁ in
    let (in_team, other) = and_true (m.team_id == team) _ e₂ in
    let (r, j, k, w) = holds_role_witness db m _ holds in
    let (same, writes) = and_true (r.team_id == m.team_id) _ w in
    let (u, l, uid, live) = is_active_witness db m.user_id is_live in
    let team_eq = (==_iff m.team_id team).0 in_team in
    (
      record {
        member = m;
        role = r;
        user = u;
        member_in = i;
        role_in = j;
        user_in = l;
        assigned = k;
        member_team = team_eq;
        role_team = (==_iff r.team_id m.team_id).0 same ∙ team_eq;
        writes = (str_eq_iff r.permissions.settings "write").0 writes;
        account = uid;
        active = live;
      },
      ==_ne m.id exclude (not-true (m.id == exclude) other),
    )

-- The same for a role: the administrator that the query finds holds another role.
pub other_role_admin :
    (db : Db) (team role : ℕ)
    → check_other_roles_have_settings_write db team role ≡ true
    → (s : SettingsAdmin db team) × (s.role.id ≢ role)
unfolding check_other_roles_have_settings_write
other_role_admin db team role h =
    let (m, i, e) = any_witness _ db.memberships h in
    let (e₁, is_live) = and_true _ (is_active db m.user_id) e in
    let (in_team, holds) = and_true (m.team_id == team) _ e₁ in
    let (r, j, k, w) = holds_role_witness db m _ holds in
    let (w₁, writes) = and_true _ (settings_write r) w in
    let (other, same) = and_true (not (r.id == role)) _ w₁ in
    let (u, l, uid, live) = is_active_witness db m.user_id is_live in
    let team_eq = (==_iff m.team_id team).0 in_team in
    (
      record {
        member = m;
        role = r;
        user = u;
        member_in = i;
        role_in = j;
        user_in = l;
        assigned = k;
        member_team = team_eq;
        role_team = (==_iff r.team_id m.team_id).0 same ∙ team_eq;
        writes = (str_eq_iff r.permissions.settings "write").0 writes;
        account = uid;
        active = live;
      },
      ==_ne r.id role (not-true (r.id == role) other),
    )

-- Every administrator that holds another role is found.
pub check_other_roles_of :
    (db : Db) (team role : ℕ) (s : SettingsAdmin db team)
    → s.role.id ≢ role
    → check_other_roles_have_settings_write db team role ≡ true
unfolding check_other_roles_have_settings_write
check_other_roles_of db team role s other = any-In _ s.member db.memberships s.member_in (
    true_and _ _
      (true_and _ _ ((==_iff s.member.team_id team).1 s.member_team) (
        holds_role_of db s.member s.role _ s.role_in s.assigned (
          true_and _ _
            (true_and _ _ (ground arith)
              ((==_iff s.role.team_id s.member.team_id).1 (s.role_team ∙ sym s.member_team)))
            ((str_eq_iff s.role.permissions.settings "write").1 s.writes))))
      (is_active_of db s.user s.member.user_id s.user_in s.account s.active))
