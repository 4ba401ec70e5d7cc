-- ===== src/Roster/Invariant/DeleteRole.antt =====
-- roles.DeleteRole keeps the invariant of the roster, and leaves no reference to the role.
use team_manager.Base.{
  ℕ, ◌≡◌, ◌≢◌, ap, subst, true, false, List, In, All-In, All-of_In, ==_ne, Bool-cases, ◌==◌,
  str_eq_iff, inl, inr, ◌⊎◌, arith, some, Distinct-eq, Distinct-select, ok, >>-eq-ok, >>=-eq-ok,
  or_fail-ok, ok-injective, find, find-In, update-In, In-delete, delete-In, or_fail, contains,
  contains→In,
}
use team_manager.Roster.Db.{Db, RoleRow, Assignment, Nominating, TeamRow, no_rows}
use team_manager.Roster.Queries.{check_other_roles_have_settings_write, settings_write}
use team_manager.Roster.Roles.{
  is_role, guard_role_deletion, delete_role_row, scrub_dangling_role_references, scrub_nominating,
  array_remove, delete_role,
}
use team_manager.Roster.Invariant.{InOneTeam, WellFormed, SettingsAdmin, other_role_admin}

abbrev after_delete : Db → ℕ → ℕ → Db
after_delete db role team = scrub_dangling_role_references (delete_role_row db role team) role team

-- What a successful DeleteRole has checked.
pub delete_role-checked :
    (db : Db) (role team : ℕ) (db' : Db)
    → delete_role db role team ≡ ok db'
    → (r : RoleRow) × (find (is_role role team) db.roles ≡ some r)
      × (guard_role_deletion db role team r ≡ ok tt)
      × (db' ≡ after_delete db role team)
unfolding delete_role
delete_role-checked db role team db' h =
    let (r, found, e) = >>=-eq-ok (or_fail (find (is_role role team) db.roles) no_rows) _ db' h in
    let (guard, last) =
      >>-eq-ok (guard_role_deletion db role team r) (ok (after_delete db role team)) db' e in
    (r, or_fail-ok _ no_rows r found, guard, ok-injective (after_delete db role team) db' last)

-- A role that grants settings:write is deleted only if another role with an active holder does.
pub guard_cases :
    (db : Db) (role team : ℕ) (r : RoleRow)
    → guard_role_deletion db role team r ≡ ok tt
    → (r.system ≡ false)
      × ((check_other_roles_have_settings_write db team role ≡ true) ⊎ (settings_write r ≡ false))
unfolding guard_role_deletion
guard_cases db role team r h = ground arith

keep_admin :
    (db : Db) (role team t : ℕ) (s : SettingsAdmin db t)
    → s.role.id ≢ role
    → SettingsAdmin (after_delete db role team) t
unfolding scrub_dangling_role_references delete_role_row
keep_admin db role team t s other = record {
  member = s.member;
  role = s.role;
  user = s.user;
  member_in = s.member_in;
  role_in = In-delete _ s.role db.roles s.role_in (ground arith);
  user_in = s.user_in;
  assigned = In-delete _ _ db.membership_roles s.assigned (ground arith);
  member_team = s.member_team;
  role_team = s.role_team;
  writes = s.writes;
  account = s.account;
  active = s.active;
}

-- No DeleteRole, of any team, leaves a team without a settings administrator.
pub delete_role-SettingsAdmin :
    (db : Db) (role team : ℕ) (db' : Db) (t : ℕ)
    → WellFormed db
    → SettingsAdmin db t
    → delete_role db role team ≡ ok db'
    → SettingsAdmin db' t
delete_role-SettingsAdmin db role team db' t wf s h =
    let (r, found, guard, e) = delete_role-checked db role team db' h in
    let (i, is_r) = find-In (is_role role team) r db.roles found in
    rw e (elim (Bool-cases (s.role.id == role)) [
      | inr other ↦ keep_admin db role team t s (==_ne s.role.id role other)
      | inl eq ↦
          let row : s.role ≡ r =
            Distinct-eq (λ x. x.id) s.role r db.roles wf.role_keys s.role_in i (ground arith) in
          let t_eq : team ≡ t = ground (arith, ap (λ x. x.team_id) row, s.role_team) in
          elim (guard_cases db role team r guard).1 [
            | inl others ↦
                let (o, ne) = other_role_admin db team role others in
                subst (SettingsAdmin (after_delete db role team)) t_eq
                  (keep_admin db role team team o ne)
            | inr no_write ↦ absurd (
                ground (
                  arith,
                  str_eq_iff r.permissions.settings "write",
                  ap (λ x. x.permissions.settings) row,
                  s.writes,
                ))
          ]
    ])

pub delete_role-WellFormed :
    (db : Db) (role team : ℕ) (db' : Db)
    → WellFormed db
    → delete_role db role team ≡ ok db'
    → WellFormed db'
unfolding scrub_dangling_role_references delete_role_row
delete_role-WellFormed db role team db' wf h =
    let (_, _, _, e) = delete_role-checked db role team db' h in
    rw e (record {
      membership_keys = wf.membership_keys;
      role_keys = Distinct-select (λ r. r.id) _ db.roles wf.role_keys;
      assignments = All-of_In _ _ λ a l.
          let (k, other) = delete-In _ a db.membership_roles l in
          let (m, r, i, j, mid, rid, rt) =
            All-In (InOneTeam db) a db.membership_roles wf.assignments k in
          (m, r, i, In-delete _ r db.roles j (ground arith), mid, rid, rt);
    })

not_contains-array_remove :
    (role : ℕ) (ids : List ℕ) → contains (array_remove role ids) role ≡ false
not_contains-array_remove role ids = elim (Bool-cases (contains (array_remove role ids) role)) [
  | inl e ↦
      let (_, other) =
        delete-In (λ x. x == role) role ids (contains→In (array_remove role ids) role e) in
      absurd (ground arith)
  | inr e ↦ e
]

-- No row of the list nominates the role for the team.
abbrev pub NoneNominates : ℕ → ℕ → List Nominating → Type 0
NoneNominates role team rows =
    (e : Nominating) → In e rows → e.team_id ≡ team → contains e.nominated_role_ids role ≡ false

scrub_nominating-None :
    (role team : ℕ) (rows : List Nominating)
    → NoneNominates role team (scrub_nominating role team rows)
scrub_nominating-None role team rows e i same =
    let (x, _, q) = update-In (λ x. x.team_id == team) _ e rows i in
    elim (Bool-cases (x.team_id == team)) [
      | inl own ↦ rw (q, own) (not_contains-array_remove role x.nominated_role_ids)
      | inr other ↦ absurd (ground arith)
    ]

-- After DeleteRole the role is gone: no role of the team has its id, no membership is assigned it,
-- and neither an event nor an event series nor the reason visibility of the team names it.
pub delete_role-no_reference :
    (db : Db) (role team : ℕ) (db' : Db)
    → delete_role db role team ≡ ok db'
    → ((r : RoleRow) → In r db'.roles → is_role role team r ≡ false)
      × ((a : Assignment) → In a db'.membership_roles → a.role_id ≢ role)
      × NoneNominates role team db'.events
      × NoneNominates role team db'.event_series
      × ((t : TeamRow)
          → In t db'.teams
          → t.id ≡ team
          → contains t.reason_visibility_role_ids role ≡ false)
unfolding scrub_dangling_role_references delete_role_row
delete_role-no_reference db role team db' h =
    let (_, _, _, e) = delete_role-checked db role team db' h in
    rw e (
      (λ r i. (delete-In (is_role role team) r db.roles i).1),
      (λ a i. ==_ne a.role_id role (delete-In (λ b. b.role_id == role) a db.membership_roles i).1),
      scrub_nominating-None role team db.events,
      scrub_nominating-None role team db.event_series,
      (λ t i same.
          let (x, _, q) = update-In (λ x. x.id == team) _ t db.teams i in
          elim (Bool-cases (x.id == team)) [
            | inl own ↦ rw (q, own) (not_contains-array_remove role x.reason_visibility_role_ids)
            | inr other ↦ absurd (ground arith)
          ]),
    )
