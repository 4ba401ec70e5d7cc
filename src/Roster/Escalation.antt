-- ===== src/Roster/Escalation.antt =====
-- Nobody grants more than they hold: the permissions after members.SetRoles and roles.UpdateRole.
use team_manager.Base.{
  ℕ, ◌≤◌, max, ◌≡◌, refl, sym, ap, ◌∙◌, true, false, ◌&&◌, List, map, some, In, any_witness, ==_iff,
  and_true, true_and, Option-cases, ◌==◌, inl, inr, arith, Distinct-eq, ok, ◌>>◌, >>-eq-ok,
  reject_if-ok, In-select, select-In, In-map, map-In, In→contains, contains, append-In, delete-In,
  find, if-eq,
}
use team_manager.Access.Permissions.{
  PermissionsJson, Module, effective_permissions, perm_level_rank,
}
use team_manager.Access.Levels.{rank_at, effective_permissions_greatest}
use team_manager.Roster.Db.{
  Db, MembershipRow, RoleRow, Assignment, insufficient_permission_to_grant,
}
use team_manager.Roster.Queries.{
  assigned_permissions, user_permissions, membership_permissions, role_set_effective_permissions,
}
use team_manager.Roster.Ceilings.{escalates, not_escalates}
use team_manager.Roster.Members.{
  dedupe_strings, enforce_no_permission_escalation, replace_assignments, set_roles,
}
use team_manager.Roster.Roles.{
  RolePatch, is_role, apply_patch, write_role, read_role, guarded, enforce_no_role_escalation,
  update_role, is_empty,
}
use team_manager.Roster.Invariant.{WellFormed, assignment}
use team_manager.Roster.Invariant.SetRoles.{set_roles-Checked, valid_member}

rank_none : perm_level_rank "none" ≡ 0
unfolding perm_level_rank
rank_none = refl

-- A member's level ranks at most as high as a bound of the levels of the assigned roles.
effective-le :
    (ps : List PermissionsJson) (k : Module) (bound : ℕ)
    → ((p : PermissionsJson) → In p ps → rank_at p k ≤ bound)
    → rank_at (effective_permissions ps) k ≤ bound
effective-le ps k bound h = elim (effective_permissions_greatest ps k).1 [
  | inl e ↦ omega (arith, ap perm_level_rank e, rank_none)
  | inr (p, i, e) ↦ omega (arith, ap perm_level_rank e, h p i)
]

-- The assignments of a membership after they are replaced are those of the new set.
new_assignment :
    (db : Db) (membership : ℕ) (role_ids : List ℕ) (a : Assignment)
    → In a (replace_assignments db membership role_ids).membership_roles
    → a.membership_id ≡ membership
    → contains role_ids a.role_id ≡ true
unfolding replace_assignments
new_assignment db membership role_ids a i own =
    elim (append-In a (map (assignment membership) role_ids) _ i) [
      | inl new ↦
          let (k, j, e) = map-In (assignment membership) a role_ids new in
          rw e (In→contains role_ids k j)
      | inr kept ↦
          let (_, other) =
            delete-In (λ b. b.membership_id == membership) a db.membership_roles kept in
          absurd (ground arith)
    ]

named_role : (ids : List ℕ) (k j : ℕ) → k ≡ j → contains ids k ≡ true → contains ids j ≡ true
named_role ids k j e h = rw (← e) h

-- A role that gives the membership a permission after the assignments are replaced is one of the
-- new set.
assigned_role :
    (db : Db) (membership : ℕ) (role_ids : List ℕ) (p : PermissionsJson)
    → In p (
        assigned_permissions
          (replace_assignments db membership role_ids)
          (λ m r. m.id == membership && r.team_id == m.team_id))
    → (r : RoleRow) × (m : MembershipRow) × In r db.roles
      × In m db.memberships
      × (p ≡ r.permissions)
      × (contains role_ids r.id ≡ true)
      × (m.id ≡ membership)
      × (r.team_id ≡ m.team_id)
unfolding replace_assignments
assigned_role db membership role_ids p i =
    let (r, j, e) = map-In (λ (r : RoleRow). r.permissions) p _ i in
    let (j', q) = select-In _ r db.roles j in
    let (a, l, h) = any_witness _ _ q in
    let (to_role, of_member) = and_true (a.role_id == r.id) _ h in
    let (m, n, w) = any_witness _ db.memberships of_member in
    let (own, rest) = and_true (m.id == a.membership_id) _ w in
    let (is_m, same) = and_true (m.id == membership) _ rest in
    let m_eq = (==_iff m.id membership).0 is_m in
    (
      r,
      m,
      j',
      n,
      e,
      named_role role_ids a.role_id r.id ((==_iff a.role_id r.id).0 to_role) (
          new_assignment db membership role_ids a l
            (sym ((==_iff m.id a.membership_id).0 own) ∙ m_eq)),
      m_eq,
      (==_iff r.team_id m.team_id).0 same,
    )

granted_bound :
    (db : Db) (membership team : ℕ) (role_ids : List ℕ) (caller : ℕ) (k : Module)
    → enforce_no_permission_escalation db team caller membership role_ids ≡ ok tt
    → rank_at (role_set_effective_permissions db team role_ids) k
      ≤ max
          (rank_at (user_permissions db team caller) k)
          (rank_at (membership_permissions db membership) k)
unfolding enforce_no_permission_escalation
granted_bound db membership team role_ids caller k b =
    not_escalates (user_permissions db team caller) (membership_permissions db membership)
      (role_set_effective_permissions db team role_ids) k
      (reject_if-ok _ insufficient_permission_to_grant b)

granted_level :
    (db : Db) (team : ℕ) (role_ids : List ℕ) (k : Module) (r : RoleRow)
    → In r db.roles
    → contains role_ids r.id ≡ true
    → r.team_id ≡ team
    → rank_at r.permissions k ≤ rank_at (role_set_effective_permissions db team role_ids) k
unfolding role_set_effective_permissions
granted_level db team role_ids k r j new in_team =
    (effective_permissions_greatest _ k).0 r.permissions (
      In-map (λ (x : RoleRow). x.permissions) r _
        (In-select (λ x. contains role_ids x.id && x.team_id == team) r db.roles j
          (true_and _ _ new ((==_iff r.team_id team).1 in_team))))

new_level :
    (db : Db) (membership : ℕ) (role_ids : List ℕ) (k : Module) (bound : ℕ)
    → ((p : PermissionsJson)
        → In p (
            assigned_permissions
              (replace_assignments db membership role_ids)
              (λ m r. m.id == membership && r.team_id == m.team_id))
        → rank_at p k ≤ bound)
    → rank_at (membership_permissions (replace_assignments db membership role_ids) membership) k
      ≤ bound
unfolding membership_permissions
new_level db membership role_ids k bound h = effective-le _ k bound h

-- After a successful SetRoles, the member's effective level on every module ranks at most as high as
-- the greater of the caller's effective level in the team and the member's own level before.
pub set_roles-no_escalation :
    (db : Db) (membership team : ℕ) (ids : List ℕ) (caller : ℕ) (db' : Db) (k : Module)
    → WellFormed db
    → set_roles db membership team ids caller ≡ ok db'
    → rank_at (membership_permissions db' membership) k
      ≤ max
          (rank_at (user_permissions db team caller) k)
          (rank_at (membership_permissions db membership) k)
set_roles-no_escalation db membership team ids caller db' k wf h =
    let role_ids = dedupe_strings ids in
    let (c, e) = set_roles-Checked db membership team ids caller db' h in
    let (m₀, i₀, id₀, team₀) = valid_member db membership team role_ids c.valid in
    rw e (
      new_level db membership role_ids k _ λ p i.
        let (r, m, j, n, is_p, new, m_eq, r_team) = assigned_role db membership role_ids p i in
        let row =
          Distinct-eq (λ x. x.id) m m₀ db.memberships wf.membership_keys n i₀ (m_eq ∙ sym id₀) in
        let in_team = r_team ∙ ap (λ (x : MembershipRow). x.team_id) row ∙ team₀ in
        omega (
          arith,
          granted_level db team role_ids k r j new in_team,
          granted_bound db membership team role_ids caller k c.bounded,
          ap (λ q. rank_at q k) is_p,
        ))

-- The guard of UpdateRole on a patch of permissions.
guarded-bound :
    (db : Db) (role team caller : ℕ) (patch : RolePatch) (current : RoleRow) (new : PermissionsJson)
    → find (is_role role team) db.roles ≡ some current
    → patch.permissions ≡ some new
    → guarded db role team caller patch ≡ ok tt
    → escalates (user_permissions db team caller) current.permissions new ≡ false
unfolding guarded enforce_no_role_escalation
guarded-bound db role team caller patch current new found p h = ground arith

patched :
    (db : Db) (role team caller : ℕ) (patch : RolePatch) (current : RoleRow) (k : Module)
    → find (is_role role team) db.roles ≡ some current
    → guarded db role team caller patch ≡ ok tt
    → rank_at (apply_patch patch current).permissions k
      ≤ max (rank_at (user_permissions db team caller) k) (rank_at current.permissions k)
unfolding apply_patch
patched db role team caller patch current k found guard = elim (Option-cases patch.permissions) [
  | inl e ↦ rw e (omega arith)
  | inr (new, e) ↦ rw e (
      not_escalates (user_permissions db team caller) current.permissions new k
        (guarded-bound db role team caller patch current new found e guard))
]

-- A successful UpdateRole returns a row whose level on every module ranks at most as high as the
-- greater of the caller's effective level in the team and the role's own level before.
pub update_role-no_escalation :
    (db : Db) (role team caller : ℕ) (patch : RolePatch) (current r : RoleRow) (db' : Db)
    (k : Module)
    → find (is_role role team) db.roles ≡ some current
    → update_role db role team caller patch ≡ ok (r, db')
    → rank_at r.permissions k
      ≤ max (rank_at (user_permissions db team caller) k) (rank_at current.permissions k)
unfolding update_role read_role write_role
update_role-no_escalation db role team caller patch current r db' k found h =
    elim (if-eq (is_empty patch) (read_role db role team)
      (guarded db role team caller patch >> write_role db role team patch) (ok (r, db')) h) [
        | inl (_, read) ↦ let e : r ≡ current = ground (arith, found) in rw e (omega arith)
        | inr (_, wrote) ↦
            let (guard, e) =
              >>-eq-ok (guarded db role team caller patch) (write_role db role team patch) (r, db')
                wrote in
            let row : r ≡ apply_patch patch current = ground (arith, found) in
            rw row (patched db role team caller patch current k found guard)
      ]
