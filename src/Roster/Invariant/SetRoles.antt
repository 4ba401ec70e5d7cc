-- ===== src/Roster/Invariant/SetRoles.antt =====
-- members.SetRoles keeps the invariant of the roster.
use team_manager.Base.{
  ℕ, ◌≡◌, ◌≢◌, sym, ap, ◌∙◌, subst, true, not, Bool, ◌&&◌, List, In, any, any_witness, All-In,
  All-of_In, ==_iff, ==_ne, and_true, Bool-cases, ◌==◌, str_eq_iff, inl, inr, arith, Distinct,
  Distinct-eq, ok, Outcome, reject_if, ◌⊎◌, [], >>-eq-ok, reject_if-ok, not-false, ok-injective,
  delete, In-delete, delete-In, In-map, map-In, In-append_left, In-append_right, append-In,
  contains, contains→In, dedupe_from-Distinct, dedupe_from, count_keys-full, map,
}
use team_manager.Roster.Db.{Db, MembershipRow, RoleRow, Error, no_rows, role_not_in_team}
use team_manager.Roster.Queries.{
  settings_write, role_set_has_settings_write, team_has_other_settings_write_member,
  roles_exist_for_team,
}
use team_manager.Roster.Members.{
  dedupe_strings, validate_set_roles_inputs, enforce_no_permission_escalation,
  enforce_settings_admin_guard, replace_assignments, set_roles,
}
use team_manager.Roster.Invariant.{
  InOneTeam, WellFormed, SettingsAdmin, assignment, other_member_admin,
}

-- What a successful SetRoles has checked.
pub record Checked (db : Db) (membership team : ℕ) (role_ids : List ℕ) (caller : ℕ) : Type 0 where
  pub valid : validate_set_roles_inputs db membership team role_ids ≡ ok tt
  pub bounded : enforce_no_permission_escalation db team caller membership role_ids ≡ ok tt
  pub guarded : enforce_settings_admin_guard db team membership role_ids ≡ ok tt

pub set_roles-Checked :
    (db : Db) (membership team : ℕ) (ids : List ℕ) (caller : ℕ) (db' : Db)
    → set_roles db membership team ids caller ≡ ok db'
    → Checked db membership team (dedupe_strings ids) caller
      × (db' ≡ replace_assignments db membership (dedupe_strings ids))
unfolding set_roles
set_roles-Checked db membership team ids caller db' h =
    let (h₁, last) =
      >>-eq-ok _ (ok (replace_assignments db membership (dedupe_strings ids))) db' h in
    let (h₂, guarded) =
      >>-eq-ok _ (enforce_settings_admin_guard db team membership (dedupe_strings ids)) tt h₁ in
    let (valid, bounded) =
      >>-eq-ok (validate_set_roles_inputs db membership team (dedupe_strings ids)) _ tt h₂ in
    (record { valid = valid; bounded = bounded; guarded = guarded }, ok-injective _ db' last)

-- The membership that SetRoles changes is a membership of the team.
pub valid_member :
    (db : Db) (membership team : ℕ) (role_ids : List ℕ)
    → validate_set_roles_inputs db membership team role_ids ≡ ok tt
    → (m : MembershipRow) × In m db.memberships × (m.id ≡ membership) × (m.team_id ≡ team)
unfolding validate_set_roles_inputs
valid_member db membership team role_ids h =
    let (found, _) = >>-eq-ok (reject_if (not in_team) no_rows) reject_if_roles tt h in
    let (m, i, e) =
      any_witness (λ m. m.id == membership && m.team_id == team) db.memberships
        (ground (arith, reject_if-ok (not (in_team)) no_rows found)) in
    (m, i, ground arith, ground arith)
  where
    in_team : Bool
    in_team = any (λ m. m.id == membership && m.team_id == team) db.memberships

    reject_if_roles : Outcome Error (Unit {0})
    reject_if_roles = reject_if (not (roles_exist_for_team db team role_ids)) role_not_in_team

-- Every id of the new set names a role of the team.
pub valid_roles :
    (db : Db) (membership team : ℕ) (ids : List ℕ)
    → Distinct (λ r. r.id) db.roles
    → validate_set_roles_inputs db membership team (dedupe_strings ids) ≡ ok tt
    → (role : ℕ) → In role (dedupe_strings ids)
    → (r : RoleRow) × In r db.roles × (r.id ≡ role) × (r.team_id ≡ team)
unfolding validate_set_roles_inputs roles_exist_for_team dedupe_strings
valid_roles db membership team ids keys h role i =
    let (_, all_found) =
      >>-eq-ok _
        (reject_if (not (roles_exist_for_team db team (dedupe_from [] ids))) role_not_in_team) tt
        h in
    let (r, j, e, q) =
      count_keys-full (λ r. r.id) (λ r. r.team_id == team) (dedupe_from [] ids) db.roles
        (dedupe_from-Distinct [] ids) keys
        ((==_iff _ _).0 (
          not-false (roles_exist_for_team db team (dedupe_from [] ids)) (
            reject_if-ok (not (roles_exist_for_team db team (dedupe_from [] ids))) role_not_in_team
              all_found)))
        role i in
    (r, j, e, (==_iff r.team_id team).0 q)

module _ (db : Db) (membership : ℕ) (role_ids : List ℕ) where
  -- An administrator with another membership stays.
  pub keep_admin :
      (team : ℕ) (s : SettingsAdmin db team)
      → s.member.id ≢ membership
      → SettingsAdmin (replace_assignments db membership role_ids) team
  unfolding replace_assignments
  keep_admin team s other = record {
    member = s.member;
    role = s.role;
    user = s.user;
    member_in = s.member_in;
    role_in = s.role_in;
    user_in = s.user_in;
    assigned =
        In-append_right _ (map (λ r. assignment membership r) role_ids) _
          (In-delete _ _ db.membership_roles s.assigned (ground arith));
    member_team = s.member_team;
    role_team = s.role_team;
    writes = s.writes;
    account = s.account;
    active = s.active;
  }

  -- The administrator whose own roles are replaced keeps settings:write by one of the new roles.
  pub renew_admin :
      (team : ℕ) (s : SettingsAdmin db team)
      → s.member.id ≡ membership
      → role_set_has_settings_write db team role_ids ≡ true
      → SettingsAdmin (replace_assignments db membership role_ids) team
  unfolding replace_assignments role_set_has_settings_write
  renew_admin team s same has =
      let (r, i, e) = any_witness _ db.roles has in
      let (e₁, writes) = and_true _ (settings_write r) e in
      let (chosen, in_team) = and_true (contains role_ids r.id) (r.team_id == team) e₁ in
      record {
        member = s.member;
        role = r;
        user = s.user;
        member_in = s.member_in;
        role_in = i;
        user_in = s.user_in;
        assigned =
            In-append_left (assignment s.member.id r.id)
              (map (λ k. assignment membership k) role_ids)
              (delete (λ a. a.membership_id == membership) db.membership_roles)
              (rw same (
                In-map (λ k. assignment membership k) r.id role_ids
                  (contains→In role_ids r.id chosen)));
        member_team = s.member_team;
        role_team = (==_iff r.team_id team).0 in_team;
        writes = (str_eq_iff r.permissions.settings "write").0 writes;
        account = s.account;
        active = s.active;
      }

-- The guard finds another administrator, or the new roles grant settings:write.
guard_cases :
    (db : Db) (membership team : ℕ) (role_ids : List ℕ)
    → enforce_settings_admin_guard db team membership role_ids ≡ ok tt
    → (role_set_has_settings_write db team role_ids ≡ true)
      ⊎ (team_has_other_settings_write_member db team membership ≡ true)
unfolding enforce_settings_admin_guard
guard_cases db membership team role_ids h = ground arith

-- No SetRoles, of any team, leaves a team without a settings administrator.
pub set_roles-SettingsAdmin :
    (db : Db) (membership team : ℕ) (ids : List ℕ) (caller : ℕ) (db' : Db) (t : ℕ)
    → WellFormed db
    → SettingsAdmin db t
    → set_roles db membership team ids caller ≡ ok db'
    → SettingsAdmin db' t
set_roles-SettingsAdmin db membership team ids caller db' t wf s h =
    let role_ids = dedupe_strings ids in
    let (checked, e) = set_roles-Checked db membership team ids caller db' h in
    let (m, i, same, in_team) = valid_member db membership team role_ids checked.valid in
    rw e (elim (Bool-cases (s.member.id == membership)) [
      | inr other ↦ keep_admin db membership role_ids t s (==_ne s.member.id membership other)
      | inl eq ↦
          let own : s.member.id ≡ membership = (==_iff s.member.id membership).0 eq in
          let row : s.member ≡ m =
            Distinct-eq (λ x. x.id) s.member m db.memberships wf.membership_keys s.member_in i
              (own ∙ sym same) in
          let t_eq : team ≡ t = sym in_team ∙ ap (λ x. x.team_id) (sym row) ∙ s.member_team in
          elim (guard_cases db membership team role_ids checked.guarded) [
            | inl has ↦
                renew_admin db membership role_ids t s own
                  (subst (λ k. role_set_has_settings_write db k role_ids ≡ true) t_eq has)
            | inr others ↦
                let (o, ne) = other_member_admin db team membership others in
                subst (SettingsAdmin (replace_assignments db membership role_ids)) t_eq
                  (keep_admin db membership role_ids team o ne)
          ]
    ])

pub set_roles-WellFormed :
    (db : Db) (membership team : ℕ) (ids : List ℕ) (caller : ℕ) (db' : Db)
    → WellFormed db
    → set_roles db membership team ids caller ≡ ok db'
    → WellFormed db'
unfolding replace_assignments
set_roles-WellFormed db membership team ids caller db' wf h =
    let role_ids = dedupe_strings ids in
    let (checked, e) = set_roles-Checked db membership team ids caller db' h in
    let (m, i, same, in_team) = valid_member db membership team role_ids checked.valid in
    rw e (record {
      membership_keys = wf.membership_keys;
      role_keys = wf.role_keys;
      assignments = All-of_In _ _ λ a l.
          elim (append-In a (map (λ r. assignment membership r) role_ids) _ l) [
            | inl k ↦
                let (role, n, q) = map-In (λ r. assignment membership r) a role_ids k in
                let (r, j, rid, rt) =
                  valid_roles db membership team ids wf.role_keys checked.valid role n in
                (
                  m,
                  r,
                  i,
                  j,
                  same ∙ ap (λ x. x.membership_id) (sym q),
                  rid ∙ ap (λ x. x.role_id) (sym q),
                  rt ∙ sym in_team,
                )
            | inr k ↦
                All-In (InOneTeam db) a db.membership_roles wf.assignments
                  (delete-In _ a db.membership_roles k).0
          ];
    })
