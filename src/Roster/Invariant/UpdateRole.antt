-- ===== src/Roster/Invariant/UpdateRole.antt =====
-- roles.UpdateRole keeps the invariant of the roster.
use team_manager.Base.{
  ℕ, ◌≡◌, ◌≢◌, refl, sym, ap, ◌∙◌, subst, true, false, none, some, All-In, All-of_In, Bool-cases,
  Option-cases, str_eq_iff, inl, inr, ◌⊎◌, arith, Distinct-eq, Distinct-update, ok, >>-eq-ok,
  >>=-eq-ok, or_fail-ok, ok-injective, find, find-In, In-update, if◌then◌else◌, or_fail, if-eq,
  ◌>>◌,
}
use team_manager.Access.Permissions.{PermissionsJson}
use team_manager.Roster.Db.{Db, RoleRow, no_rows}
use team_manager.Roster.Queries.{check_other_roles_have_settings_write}
use team_manager.Roster.Roles.{
  RolePatch, is_role, apply_patch, written, write_role, guarded, read_role, update_role, is_empty,
}
use team_manager.Roster.Invariant.{InOneTeam, WellFormed, SettingsAdmin, other_role_admin}

-- What a successful UpdateRole has done: nothing, or a guarded write of the row that it found.
pub data Done (db : Db) (role team caller : ℕ) (patch : RolePatch) : Db → Type 0 where
  unchanged : Done db role team caller patch db
  patched :
      (current : RoleRow)
      → find (is_role role team) db.roles ≡ some current
      → guarded db role team caller patch ≡ ok tt
      → Done db role team caller patch (written db role team patch)

write_role-ok :
    (db : Db) (role team : ℕ) (patch : RolePatch) (r : RoleRow) (db' : Db)
    → write_role db role team patch ≡ ok (r, db')
    → (current : RoleRow) × (find (is_role role team) db.roles ≡ some current)
      × (db' ≡ written db role team patch)
unfolding write_role
write_role-ok db role team patch r db' h =
    let (current, found, e) =
      >>=-eq-ok (or_fail (find (is_role role team) db.roles) no_rows) _ (r, db') h in
    (
      current,
      or_fail-ok _ no_rows current found,
      ap (λ p. p.1)
          (ok-injective (apply_patch patch current, written db role team patch) (r, db') e),
    )

pub update_role-Done :
    (db : Db) (role team caller : ℕ) (patch : RolePatch) (r : RoleRow) (db' : Db)
    → update_role db role team caller patch ≡ ok (r, db')
    → Done db role team caller patch db'
unfolding update_role
update_role-Done db role team caller patch r db' h =
    elim (if-eq (is_empty patch) (read_role db role team)
      (guarded db role team caller patch >> write_role db role team patch) (ok (r, db')) h) [
        | inl (_, read) ↦ subst (Done db role team caller patch) (sym (read_role-ok read)) unchanged
        | inr (_, wrote) ↦
            let (guard, e) =
              >>-eq-ok (guarded db role team caller patch) (write_role db role team patch) (r, db')
                wrote in
            let (current, found, same) = write_role-ok db role team patch r db' e in
            subst (Done db role team caller patch) (sym same) (patched current found guard)
      ]
  where
    read_role-ok : read_role db role team ≡ ok (r, db') → db' ≡ db
    read_role-ok e =
        let (current, found, q) =
          >>=-eq-ok (or_fail (find (is_role role team) db.roles) no_rows) _ (r, db') e in
        ap (λ p. p.1) (ok-injective (current, db) (r, db') q)

-- What the guard has found about the permissions that a patch takes from a role: it keeps
-- settings:write, or another role with an active holder grants it, or the role did not grant it.
pub guarded_cases :
    (db : Db) (role team caller : ℕ) (patch : RolePatch) (current : RoleRow) (new : PermissionsJson)
    → find (is_role role team) db.roles ≡ some current
    → patch.permissions ≡ some new
    → guarded db role team caller patch ≡ ok tt
    → (new.settings ≡ "write")
      ⊎ (check_other_roles_have_settings_write db team role ≡ true)
      ⊎ (current.permissions.settings ≢ "write")
unfolding guarded
guarded_cases db role team caller patch current new found p h =
    ground (arith, str_eq_iff new.settings "write", str_eq_iff current.permissions.settings "write")

-- The role of an administrator, with its row after the update.
module _ (db : Db) (role team : ℕ) (patch : RolePatch) where
  keep_admin :
      (t : ℕ) (s : SettingsAdmin db t)
      → is_role role team s.role ≡ false
      → SettingsAdmin (written db role team patch) t
  unfolding written
  keep_admin t s other = record {
    member = s.member;
    role = s.role;
    user = s.user;
    member_in = s.member_in;
    role_in =
        rw other at (In-update (is_role role team) (apply_patch patch) s.role db.roles s.role_in);
    user_in = s.user_in;
    assigned = s.assigned;
    member_team = s.member_team;
    role_team = s.role_team;
    writes = s.writes;
    account = s.account;
    active = s.active;
  }

  patched_admin :
      (t : ℕ) (s : SettingsAdmin db t)
      → is_role role team s.role ≡ true
      → (apply_patch patch s.role).permissions.settings ≡ "write"
      → SettingsAdmin (written db role team patch) t
  unfolding written
  patched_admin t s own w = record {
    member = s.member;
    role = apply_patch patch s.role;
    user = s.user;
    member_in = s.member_in;
    role_in =
        rw own at (In-update (is_role role team) (apply_patch patch) s.role db.roles s.role_in);
    user_in = s.user_in;
    assigned = s.assigned;
    member_team = s.member_team;
    role_team = s.role_team;
    writes = w;
    account = s.account;
    active = s.active;
  }

settings-apply_patch-none :
    (patch : RolePatch) (r : RoleRow)
    → patch.permissions ≡ none
    → (apply_patch patch r).permissions ≡ r.permissions
unfolding apply_patch
settings-apply_patch-none patch r h = ground arith

settings-apply_patch-some :
    (patch : RolePatch) (r : RoleRow) (new : PermissionsJson)
    → patch.permissions ≡ some new
    → (apply_patch patch r).permissions ≡ new
unfolding apply_patch
settings-apply_patch-some patch r new h = ground arith

written-SettingsAdmin :
    (db : Db) (role team caller : ℕ) (patch : RolePatch) (current : RoleRow) (t : ℕ)
    → WellFormed db
    → SettingsAdmin db t
    → find (is_role role team) db.roles ≡ some current
    → guarded db role team caller patch ≡ ok tt
    → SettingsAdmin (written db role team patch) t
written-SettingsAdmin db role team caller patch current t wf s found guard =
    elim (Bool-cases (is_role role team s.role)) [
      | inr other ↦ keep_admin db role team patch t s other
      | inl own ↦ elim (Option-cases patch.permissions) [
        | inl none_set ↦
            patched_admin db role team patch t s own
              (ap (λ p. p.settings) (settings-apply_patch-none patch s.role none_set) ∙ s.writes)
        | inr (new, set_to) ↦
            elim (guarded_cases db role team caller patch current new found set_to guard) [
              | inl w ↦
                  patched_admin db role team patch t s own
                    (ap (λ p. p.settings) (settings-apply_patch-some patch s.role new set_to) ∙ w)
              | inr rest ↦ elim rest [
                | inl others ↦
                    let (o, ne) = other_role_admin db team role others in
                    subst (SettingsAdmin (written db role team patch)) (team_eq own)
                      (keep_admin db role team patch team o (ground arith))
                | inr none_before ↦
                    absurd
                      (none_before (ap (λ r. r.permissions.settings) (sym (row own)) ∙ s.writes))
              ]
            ]
      ]
    ]
  where
    team_eq : is_role role team s.role ≡ true → team ≡ t
    team_eq own = ground (arith, s.role_team)

    row : is_role role team s.role ≡ true → s.role ≡ current
    row own =
        let (i, e) = find-In (is_role role team) current db.roles found in
        Distinct-eq (λ r. r.id) s.role current db.roles wf.role_keys s.role_in i (ground arith)

-- No UpdateRole, of any team, leaves a team without a settings administrator.
pub update_role-SettingsAdmin :
    (db : Db) (role team caller : ℕ) (patch : RolePatch) (r : RoleRow) (db' : Db) (t : ℕ)
    → WellFormed db
    → SettingsAdmin db t
    → update_role db role team caller patch ≡ ok (r, db')
    → SettingsAdmin db' t
update_role-SettingsAdmin db role team caller patch r db' t wf s h =
    go db' (update_role-Done db role team caller patch r db' h)
  where
    go : (d : Db) → Done db role team caller patch d → SettingsAdmin d t
    go d unchanged = s
    go d (patched current found guard) =
        written-SettingsAdmin db role team caller patch current t wf s found guard

written-WellFormed :
    (db : Db) (role team : ℕ) (patch : RolePatch)
    → WellFormed db
    → WellFormed (written db role team patch)
unfolding written
written-WellFormed db role team patch wf = record {
  membership_keys = wf.membership_keys;
  role_keys = Distinct-update (λ r. r.id) _ (apply_patch patch) db.roles (λ r. refl) wf.role_keys;
  assignments = All-of_In _ db.membership_roles λ a l.
      let (m, r, i, j, mid, rid, rt) =
        All-In (InOneTeam db) a db.membership_roles wf.assignments l in
      (
        m,
        if is_role role team r then apply_patch patch r else r,
        i,
        In-update (is_role role team) (apply_patch patch) r db.roles j,
        mid,
        ground arith,
        ground arith,
      );
}

pub update_role-WellFormed :
    (db : Db) (role team caller : ℕ) (patch : RolePatch) (r : RoleRow) (db' : Db)
    → WellFormed db
    → update_role db role team caller patch ≡ ok (r, db')
    → WellFormed db'
update_role-WellFormed db role team caller patch r db' wf h =
    go db' (update_role-Done db role team caller patch r db' h)
  where
    go : (d : Db) → Done db role team caller patch d → WellFormed d
    go d unchanged = wf
    go d (patched current found guard) = written-WellFormed db role team patch wf
