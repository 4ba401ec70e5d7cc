-- ===== src/Roster/Invariant/Erase.antt =====
-- auth.EraseUser keeps the invariant of the roster.
use team_manager.Base.{
  ℕ, ◌≡◌, ◌≢◌, refl, sym, ap, ◌∙◌, subst, true, not, Bool, ◌&&◌, List, [], ◌∷◌, map, In,
  any_witness, All-In, All-of_In, ==_iff, ==_ne, and_true, true_and, not-true, Bool-cases, ◌==◌,
  str_eq_iff, inl, inr, arith, Distinct-eq, ok, ok-injective, select, In-select, In-map, contains,
  In→contains, contains-dedupe_from, update, In-update, Outcome, if◌then◌else◌,
}
use team_manager.Roster.Db.{Db, User, MembershipRow, Error, sole_settings_admin}
use team_manager.Roster.Queries.{settings_write, holds_role, is_active}
use team_manager.Roster.Accounts.{
  other_account_has_settings_write, sole_admin_team_ids, mark_deleted, erase_user,
}
use team_manager.Roster.Invariant.{
  InOneTeam, WellFormed, SettingsAdmin, assignment, is_active_witness, holds_role_witness,
  holds_role_of,
}

-- The account that the subquery finds administers the team.
other_account_admin :
    (db : Db) (team user : ℕ)
    → WellFormed db
    → other_account_has_settings_write db team user ≡ true
    → (s : SettingsAdmin db team) × (s.user.id ≢ user)
unfolding other_account_has_settings_write
other_account_admin db team user wf h =
    let (m, i, e) = any_witness _ db.memberships h in
    let (e₁, is_live) = and_true _ (is_active db m.user_id) e in
    let (e₂, holds) = and_true _ (holds_role db m settings_write) e₁ in
    let (in_team, other) = and_true (m.team_id == team) _ e₂ in
    let (r, j, k, writes) = holds_role_witness db m settings_write holds in
    let (u, l, uid, live) = is_active_witness db m.user_id is_live in
    let (m', r', i', j', mid, rid, rt) =
      All-In (InOneTeam db) (assignment m.id r.id) db.membership_roles wf.assignments k in
    let m_eq = Distinct-eq (λ x. x.id) m' m db.memberships wf.membership_keys i' i mid in
    let r_eq = Distinct-eq (λ x. x.id) r' r db.roles wf.role_keys j' j rid in
    let team_eq = (==_iff m.team_id team).0 in_team in
    (
      record {
        member = m;
        role = r;
        user = u;
        member_in = i;
        role_in = j;
        user_in = l;
        assigned = k;
        member_team = team_eq;
        role_team = sym (ap (λ x. x.team_id) r_eq) ∙ rt ∙ ap (λ x. x.team_id) m_eq ∙ team_eq;
        writes = (str_eq_iff r.permissions.settings "write").0 writes;
        account = uid;
        active = live;
      },
      λ q. ==_ne m.user_id user (not-true (m.user_id == user) other) (sym uid ∙ q),
    )

keep_admin :
    (db : Db) (user t : ℕ) (s : SettingsAdmin db t)
    → s.user.id ≢ user
    → SettingsAdmin (mark_deleted db user) t
unfolding mark_deleted
keep_admin db user t s other = record {
  member = s.member;
  role = s.role;
  user = s.user;
  member_in = s.member_in;
  role_in = s.role_in;
  user_in =
      subst
        (λ u.
          In u (
            update (λ u. u.id == user && not u.deleted) (λ u. record u { deleted = true })
              db.users))
        (unmarked s.user other)
        (In-update (λ u. u.id == user && not u.deleted) (λ u. record u { deleted = true }) s.user
          db.users s.user_in);
  assigned = s.assigned;
  member_team = s.member_team;
  role_team = s.role_team;
  writes = s.writes;
  account = s.account;
  active = s.active;
}
  where
    unmarked :
        (u : User)
        → u.id ≢ user
        → (if u.id == user && not u.deleted then record u { deleted = true } else u) ≡ u
    unmarked u h = ground arith

erase_user-checked :
    (db : Db) (user : ℕ) (db' : Db)
    → erase_user db user ≡ ok db'
    → (sole_admin_team_ids db user ≡ []) × (db' ≡ mark_deleted db user)
unfolding erase_user
erase_user-checked db user db' h = by_ids (sole_admin_team_ids db user) refl h
  where
    by_ids :
        (ids : List ℕ)
        → sole_admin_team_ids db user ≡ ids
        → ◌≡◌ {A = Outcome Error Db}
            (elim ids [
              | [] ↦ ok (mark_deleted db user)
              | team ∷ teams ↦ Outcome.err (sole_settings_admin (team ∷ teams))
            ])
            (ok db')
        → (sole_admin_team_ids db user ≡ []) × (db' ≡ mark_deleted db user)
    by_ids [] e q = (e, ok-injective (mark_deleted db user) db' q)
    by_ids (x ∷ xs) e q = cc

-- An account that is not the sole settings administrator of any team: each team that it administers
-- has another account that does.
not_sole :
    (db : Db) (user t : ℕ) (s : SettingsAdmin db t)
    → sole_admin_team_ids db user ≡ []
    → s.user.id ≡ user
    → other_account_has_settings_write db t user ≡ true
unfolding sole_admin_team_ids
not_sole db user t s none_sole own =
    elim (Bool-cases (other_account_has_settings_write db t user)) [
      | inl e ↦ e
      | inr e ↦
          let sole : MembershipRow → Bool = λ m.
            m.user_id == user
            && holds_role db m settings_write
            && not (other_account_has_settings_write db m.team_id user) in
          let holds =
            holds_role_of db s.member s.role settings_write s.role_in s.assigned
              ((str_eq_iff s.role.permissions.settings "write").1 s.writes) in
          let is_sole : sole s.member ≡ true =
            true_and _ _
              (true_and _ _ ((==_iff s.member.user_id user).1 (sym s.account ∙ own)) holds)
              (rw (s.member_team, e)) in
          let i =
            In-map (λ m. m.team_id) s.member (select sole db.memberships)
              (In-select sole s.member db.memberships s.member_in is_sole) in
          let listed =
            contains-dedupe_from [] (map (λ m. m.team_id) (select sole db.memberships))
              s.member.team_id in
          absurd (
            ground (
              arith,
              ap (λ ids. contains ids s.member.team_id) none_sole,
              listed,
              In→contains _ s.member.team_id i,
            ))
    ]

-- EraseUser leaves every team that had a settings administrator with one.
pub erase_user-SettingsAdmin :
    (db : Db) (user : ℕ) (db' : Db) (t : ℕ)
    → WellFormed db
    → SettingsAdmin db t
    → erase_user db user ≡ ok db'
    → SettingsAdmin db' t
erase_user-SettingsAdmin db user db' t wf s h =
    let (none_sole, e) = erase_user-checked db user db' h in
    rw e (elim (Bool-cases (s.user.id == user)) [
      | inr other ↦ keep_admin db user t s (==_ne s.user.id user other)
      | inl own ↦
          let (o, ne) =
            other_account_admin db t user wf
              (not_sole db user t s none_sole ((==_iff s.user.id user).0 own)) in
          keep_admin db user t o ne
    ])

pub erase_user-WellFormed :
    (db : Db) (user : ℕ) (db' : Db) → WellFormed db → erase_user db user ≡ ok db' → WellFormed db'
unfolding mark_deleted
erase_user-WellFormed db user db' wf h =
    let (_, e) = erase_user-checked db user db' h in
    rw e (record {
      membership_keys = wf.membership_keys;
      role_keys = wf.role_keys;
      assignments =
          All-of_In _ _ λ a l. All-In (InOneTeam db) a db.membership_roles wf.assignments l;
    })
