-- ===== src/Events/Permissions.antt =====
-- The two ways in which backend/internal/events asks whether a caller has events:write: the queries
-- of repository.go, and the effective permissions that service.go reads.
use team_manager.Base.{
  ℕ, ◌≤◌, ◌≡◌, sym, ◌∙◌, ◌↔◌, inl, inr, Bool, true, ◌&&◌, String, str_eq, str_eq_iff, In, any,
  any-In, any_witness, In-select, select-In, In-map, map-In, and_true, ◌==◌, arith,
}
use team_manager.Access.Permissions.{PermissionsJson, Module, perm_level_rank}
use team_manager.Access.Levels.{effective_permissions_greatest, rank_write}
use team_manager.Roster.Db.{Db, MembershipRow, RoleRow, Assignment}
use team_manager.Roster.Queries.{holds_role, assigned_permissions, user_permissions}
use team_manager.Events.Store.{events_write, has_write}

rank_le_two : (l : String) → perm_level_rank l ≤ 2
unfolding perm_level_rank
rank_le_two l = ground arith

-- Membership `m` of the caller holds the role `r` through the assignment `a`.
record Grant (db : Db) (team caller : ℕ) (m : MembershipRow) (a : Assignment) (r : RoleRow)
    : Type 0 where
  member : In m db.memberships
  assigned : In a db.membership_roles
  role : In r db.roles
  of_caller : (m.team_id == team && m.user_id == caller) ≡ true
  joins : (a.membership_id == m.id && r.id == a.role_id) ≡ true
  in_team : (r.team_id == team) ≡ true
  writes : events_write r ≡ true

has_write-Grant :
    (db : Db) (team caller : ℕ)
    → has_write db team caller ≡ true
    → (m : MembershipRow) × (a : Assignment) × (r : RoleRow) × Grant db team caller m a r
unfolding has_write holds_role
has_write-Grant db team caller h =
    let (m, i, hm) = any_witness _ db.memberships h in
    let (of_caller, holds) = and_true (m.team_id == team && m.user_id == caller) _ hm in
    let (a, j, ha) = any_witness _ db.membership_roles holds in
    let (p, hr) = and_true (a.membership_id == m.id) _ ha in
    let (r, k, hw) = any_witness _ db.roles hr in
    (
      m,
      a,
      r,
      record {
        member = i;
        assigned = j;
        role = k;
        of_caller = of_caller;
        joins = ground arith;
        in_team = ground arith;
        writes = ground arith;
      },
    )

Grant-has_write :
    (db : Db) (team caller : ℕ) (m : MembershipRow) (a : Assignment) (r : RoleRow)
    → Grant db team caller m a r
    → has_write db team caller ≡ true
unfolding has_write holds_role
Grant-has_write db team caller m a r g =
    let role : any (λ x. x.id == a.role_id && (x.team_id == team && events_write x)) db.roles
        ≡ true =
      any-In _ r db.roles g.role (ground (arith, g.joins, g.in_team, g.writes)) in
    let holds : any
          (λ x.
            x.membership_id == m.id
            && any (λ y. y.id == x.role_id && (y.team_id == team && events_write y)) db.roles)
          db.membership_roles
        ≡ true =
      any-In _ a db.membership_roles g.assigned (ground (arith, role, g.joins)) in
    any-In _ m db.memberships g.member (ground (arith, holds, g.of_caller))

abbrev of_user : ℕ → ℕ → MembershipRow → RoleRow → Bool
of_user team caller m r = m.team_id == team && m.user_id == caller && r.team_id == team

Grant-In :
    (db : Db) (team caller : ℕ) (m : MembershipRow) (a : Assignment) (r : RoleRow)
    → Grant db team caller m a r
    → In r.permissions (assigned_permissions db (of_user team caller))
Grant-In db team caller m a r g =
    let here : any (λ x. x.id == a.membership_id && of_user team caller x r) db.memberships ≡ true =
      any-In _ m db.memberships g.member (ground (arith, g.of_caller, g.joins, g.in_team)) in
    In-map (λ (x : RoleRow). x.permissions) r _
      (In-select _ r db.roles g.role
        (any-In _ a db.membership_roles g.assigned (ground (arith, here, g.joins))))

In-Grant :
    (db : Db) (team caller : ℕ) (p : PermissionsJson)
    → In p (assigned_permissions db (of_user team caller))
    → str_eq p.events "write" ≡ true
    → (m : MembershipRow) × (a : Assignment) × (r : RoleRow) × Grant db team caller m a r
In-Grant db team caller p i w =
    let (r, j, e) = map-In (λ (x : RoleRow). x.permissions) p _ i in
    let (k, h) = select-In _ r db.roles j in
    let (a, l, ha) = any_witness _ db.membership_roles h in
    let (joins, hm) = and_true (a.role_id == r.id) _ ha in
    let (m, n, q) = any_witness _ db.memberships hm in
    (
      m,
      a,
      r,
      record {
        member = n;
        assigned = l;
        role = k;
        of_caller = ground arith;
        joins = ground arith;
        in_team = ground arith;
        writes = rw e at w;
      },
    )

-- The EXISTS of the writes of attendance holds exactly when the effective permissions that the
-- service reads have "write" on events.
pub has_write_iff :
    (db : Db) (team caller : ℕ)
    → (has_write db team caller ≡ true) ↔ ((user_permissions db team caller).events ≡ "write")
unfolding user_permissions
has_write_iff db team caller = (
  λ h.
      let (m, a, r, g) = has_write-Grant db team caller h in
      let ps = assigned_permissions db (of_user team caller) in
      let le =
        (effective_permissions_greatest ps Module.events).0 r.permissions
          (Grant-In db team caller m a r g) in
      let two = (rank_write r.permissions.events).0 g.writes in
      (str_eq_iff _ "write").0 ((rank_write _).1 (omega (arith, le, two, rank_le_two _))),
  λ h.
      elim (effective_permissions_greatest (assigned_permissions db (of_user team caller))
        Module.events).1 [
          | inl e ↦ cc
          | inr (p, i, e) ↦
              let (m, a, r, g) =
                In-Grant db team caller p i ((str_eq_iff p.events "write").1 (sym e ∙ h)) in
              Grant-has_write db team caller m a r g
        ],
)
