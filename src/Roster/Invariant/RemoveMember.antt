-- ===== src/Roster/Invariant/RemoveMember.antt =====
-- members.RemoveMember keeps the invariant of the roster.
use team_manager.Base.{
  ℕ, ◌≡◌, ◌≢◌, sym, ap, ◌∙◌, subst, true, not, ◌&&◌, In, any_witness, any-In, All-In, All-of_In,
  ==_iff, ==_refl, ==_ne, true_and, not-false, Bool-cases, ◌==◌, str_eq_iff, inl, inr, arith,
  Distinct-eq, Distinct-select, ok, >>-eq-ok, reject_if-ok, ok-injective, In-delete, delete-In,
  reject_if,
}
use team_manager.Roster.Db.{Db, MembershipRow, no_rows}
use team_manager.Roster.Queries.{
  settings_write, team_has_other_settings_write_member, user_permissions,
}
use team_manager.Roster.Members.{
  guard_removal, is_settings_writer, delete_membership, remove_member, membership_in_team,
}
use team_manager.Roster.Invariant.{
  InOneTeam, WellFormed, SettingsAdmin, assignment, other_member_admin,
}

-- What a successful RemoveMember has checked.
pub remove_member-checked :
    (db : Db) (membership team caller : ℕ) (db' : Db)
    → remove_member db membership team caller ≡ ok db'
    → (guard_removal db membership team caller ≡ ok tt)
      × (membership_in_team db membership team ≡ true)
      × (db' ≡ delete_membership db membership team)
unfolding remove_member
remove_member-checked db membership team caller db' h =
    let (h₁, last) = >>-eq-ok _ (ok (delete_membership db membership team)) db' h in
    let (guard, found) =
      >>-eq-ok (guard_removal db membership team caller)
        (reject_if (not (membership_in_team db membership team)) no_rows) tt h₁ in
    (
      guard,
      not-false _ (reject_if-ok (not (membership_in_team db membership team)) no_rows found),
      ok-injective _ db' last,
    )

-- The membership of an administrator of the team is found to hold settings:write.
pub is_settings_writer_of :
    (db : Db) (team : ℕ) (s : SettingsAdmin db team) → is_settings_writer db s.member.id team ≡ true
unfolding is_settings_writer
is_settings_writer_of db team s =
    any-In _ (assignment s.member.id s.role.id) db.membership_roles s.assigned (
      true_and _ _ (==_refl s.member.id) (
        any-In (λ r. r.id == s.role.id && r.team_id == team && settings_write r) s.role db.roles
          s.role_in
          (true_and _ _
            (true_and _ _ (==_refl s.role.id) ((==_iff s.role.team_id team).1 s.role_team))
            ((str_eq_iff s.role.permissions.settings "write").1 s.writes))))

-- A settings administrator is removed only by a caller with settings:write, and only if another
-- active account administers the team.
pub guard_removal_admin :
    (db : Db) (membership team caller : ℕ)
    → guard_removal db membership team caller ≡ ok tt
    → is_settings_writer db membership team ≡ true
    → ((user_permissions db team caller).settings ≡ "write")
      × (team_has_other_settings_write_member db team membership ≡ true)
unfolding guard_removal
guard_removal_admin db membership team caller h w =
    ground (arith, str_eq_iff (user_permissions db team caller).settings "write")

keep_admin :
    (db : Db) (membership team t : ℕ) (s : SettingsAdmin db t)
    → s.member.id ≢ membership
    → SettingsAdmin (delete_membership db membership team) t
unfolding delete_membership
keep_admin db membership team t s other = record {
  member = s.member;
  role = s.role;
  user = s.user;
  member_in = In-delete _ s.member db.memberships s.member_in (ground arith);
  role_in = s.role_in;
  user_in = s.user_in;
  assigned = In-delete _ _ db.membership_roles s.assigned (ground arith);
  member_team = s.member_team;
  role_team = s.role_team;
  writes = s.writes;
  account = s.account;
  active = s.active;
}

member_of :
    (db : Db) (membership team : ℕ)
    → membership_in_team db membership team ≡ true
    → (m : MembershipRow) × In m db.memberships × (m.id ≡ membership) × (m.team_id ≡ team)
unfolding membership_in_team
member_of db membership team h =
    let (m, i, e) = any_witness (λ m. m.id == membership && m.team_id == team) db.memberships h in
    (m, i, ground arith, ground arith)

-- No RemoveMember, of any team, leaves a team without a settings administrator.
pub remove_member-SettingsAdmin :
    (db : Db) (membership team caller : ℕ) (db' : Db) (t : ℕ)
    → WellFormed db
    → SettingsAdmin db t
    → remove_member db membership team caller ≡ ok db'
    → SettingsAdmin db' t
remove_member-SettingsAdmin db membership team caller db' t wf s h =
    let (guard, found, e) = remove_member-checked db membership team caller db' h in
    let (m, i, same, in_team) = member_of db membership team found in
    rw e (elim (Bool-cases (s.member.id == membership)) [
      | inr other ↦ keep_admin db membership team t s (==_ne s.member.id membership other)
      | inl eq ↦
          let own : s.member.id ≡ membership = (==_iff s.member.id membership).0 eq in
          let row : s.member ≡ m =
            Distinct-eq (λ x. x.id) s.member m db.memberships wf.membership_keys s.member_in i
              (own ∙ sym same) in
          let t_eq : t ≡ team = sym s.member_team ∙ ap (λ x. x.team_id) row ∙ in_team in
          let writer : is_settings_writer db membership team ≡ true =
            subst (λ k. is_settings_writer db k team ≡ true) own
              (subst (λ k. is_settings_writer db s.member.id k ≡ true) t_eq
                (is_settings_writer_of db t s)) in
          let (_, others) = guard_removal_admin db membership team caller guard writer in
          let (o, ne) = other_member_admin db team membership others in
          subst (SettingsAdmin (delete_membership db membership team)) (sym t_eq)
            (keep_admin db membership team team o ne)
    ])

-- Whoever removes a settings administrator of the team has settings:write in it, and the team has
-- another administrator.
pub remove_member-by_admin :
    (db : Db) (membership team caller : ℕ) (db' : Db) (s : SettingsAdmin db team)
    → s.member.id ≡ membership
    → remove_member db membership team caller ≡ ok db'
    → ((user_permissions db team caller).settings ≡ "write")
      × ((o : SettingsAdmin db team) × (o.member.id ≢ membership))
remove_member-by_admin db membership team caller db' s own h =
    let (guard, _, _) = remove_member-checked db membership team caller db' h in
    let (w, others) =
      guard_removal_admin db membership team caller guard
        (subst (λ k. is_settings_writer db k team ≡ true) own (is_settings_writer_of db team s)) in
    (w, other_member_admin db team membership others)

pub remove_member-WellFormed :
    (db : Db) (membership team caller : ℕ) (db' : Db)
    → WellFormed db
    → remove_member db membership team caller ≡ ok db'
    → WellFormed db'
unfolding delete_membership
remove_member-WellFormed db membership team caller db' wf h =
    let (_, _, e) = remove_member-checked db membership team caller db' h in
    rw e (record {
      membership_keys = Distinct-select (λ m. m.id) _ db.memberships wf.membership_keys;
      role_keys = wf.role_keys;
      assignments = All-of_In _ _ λ a l.
          let (k, other) = delete-In _ a db.membership_roles l in
          let (m, r, i, j, mid, rid, rt) =
            All-In (InOneTeam db) a db.membership_roles wf.assignments k in
          (m, r, In-delete _ m db.memberships i (ground arith), j, mid, rid, rt);
    })
