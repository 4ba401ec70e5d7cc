-- ===== src/Roster/Invariant/Invites.antt =====
-- teams.AcceptInvite keeps the invariant of the roster. The key that the database generates is fresh.
use team_manager.Base.{
  ℕ, ◌≡◌, refl, ap, true, false, Bool, String, ◌==◌, inl, inr, ◌⊎◌, arith, Distinct-cons, ok,
  >>=-eq-ok, ok-injective, find, find-In, or_fail, Option-cases, ◌&&◌, ◌>>=◌,
}
use team_manager.Roster.Db.{Db, MembershipRow, TeamRow, InviteRow, invite_not_found, no_rows}
use team_manager.Roster.Teams.{
  new_membership, join_team, is_member_role, accept_invite, is_open_invite, admit,
}
use team_manager.Roster.Invariant.{WellFormed, SettingsAdmin}
use team_manager.Roster.Invariant.NewTeams.{Grows, grown, grown_assignments, FreshMembership}

join_team-Grows : (db : Db) (new_id team user : ℕ) → Grows db (join_team db new_id team user)
unfolding join_team
join_team-Grows db new_id team user = elim (Option-cases (find (is_member_role team) db.roles)) [
  | inl e ↦
      rw (join_team, e)
        (record {
          memberships = λ m i. inr i;
          roles = λ r i. i;
          users = λ u i. i;
          membership_roles = λ a i. i;
        })
  | inr (r, e) ↦
      rw (join_team, e)
        (record {
          memberships = λ m i. inr i;
          roles = λ r i. i;
          users = λ u i. i;
          membership_roles = λ a i. inr i;
        })
]

join_team-WellFormed :
    (db : Db) (new_id team user : ℕ)
    → FreshMembership db new_id
    → WellFormed db
    → WellFormed (join_team db new_id team user)
unfolding join_team
join_team-WellFormed db new_id team user fresh wf =
    let old =
      grown_assignments db (join_team db new_id team user) (join_team-Grows db new_id team user)
        wf in
    elim (Option-cases (find (is_member_role team) db.roles)) [
      | inl e ↦
          rw (join_team, e)
            (record {
              membership_keys =
                  Distinct-cons (λ (m : MembershipRow). m.id) (new_membership new_id team user)
                    db.memberships fresh wf.membership_keys;
              role_keys = wf.role_keys;
              assignments = rw (join_team, e) at old;
            })
      | inr (r, e) ↦
          let (i, is_r) = find-In (is_member_role team) r db.roles e in
          rw (join_team, e)
            (record {
              membership_keys =
                  Distinct-cons (λ (m : MembershipRow). m.id) (new_membership new_id team user)
                    db.memberships fresh wf.membership_keys;
              role_keys = wf.role_keys;
              assignments = (
                (new_membership new_id team user, r, inl refl, i, refl, refl, ground arith),
                rw (join_team, e) at old,
              );
            })
    ]

-- A successful AcceptInvite finds an unexpired invite and its team, and the database is the old one
-- when the user was a member before, and otherwise has the new membership.
pub accept_invite-cases :
    (db : Db) (now new_id : ℕ) (code : String) (user : ℕ) (t : TeamRow) (was : Bool) (db' : Db)
    → accept_invite db now new_id code user ≡ ok (t, was, db')
    → (team : ℕ) × ((db' ≡ db) ⊎ (db' ≡ join_team db new_id team user))
unfolding accept_invite admit
accept_invite-cases db now new_id code user t was db' h =
    let (invite, _, h₁) =
      >>=-eq-ok (or_fail (find (is_open_invite now code) db.invites) invite_not_found)
        (λ (i : InviteRow). or_fail (find (λ k. k.id == i.team_id) db.teams) no_rows >>= λ k.
          ok (admit db new_id k user))
        (t, was, db') h in
    let (team, _, h₂) =
      >>=-eq-ok (or_fail (find (λ k. k.id == invite.team_id) db.teams) no_rows)
        (λ (k : TeamRow). ok (admit db new_id k user)) (t, was, db') h₁ in
    (
      team.id,
      elim (Option-cases (find (λ m. m.team_id == team.id && m.user_id == user) db.memberships)) [
        | inl e ↦ inr (
            ap (λ (p : TeamRow × Bool × Db). p.2)
              (ok-injective (team, false, join_team db new_id team.id user) (t, was, db')
                (rw (admit, e) at h₂)))
        | inr (m, e) ↦ inl (
            ap (λ (p : TeamRow × Bool × Db). p.2)
              (ok-injective (team, true, db) (t, was, db') (rw (admit, e) at h₂)))
      ],
    )

pub accept_invite-WellFormed :
    (db : Db) (now new_id : ℕ) (code : String) (user : ℕ) (t : TeamRow) (was : Bool) (db' : Db)
    → FreshMembership db new_id
    → WellFormed db
    → accept_invite db now new_id code user ≡ ok (t, was, db')
    → WellFormed db'
accept_invite-WellFormed db now new_id code user t was db' fresh wf h =
    let (team, c) = accept_invite-cases db now new_id code user t was db' h in
    elim c [ inl e ↦ rw e wf | inr e ↦ rw e (join_team-WellFormed db new_id team user fresh wf) ]

pub accept_invite-SettingsAdmin :
    (db : Db) (now new_id : ℕ) (code : String) (user : ℕ) (t : TeamRow) (was : Bool) (db' : Db)
    (k : ℕ)
    → SettingsAdmin db k
    → accept_invite db now new_id code user ≡ ok (t, was, db')
    → SettingsAdmin db' k
accept_invite-SettingsAdmin db now new_id code user t was db' k s h =
    let (team, c) = accept_invite-cases db now new_id code user t was db' h in
    elim c [ inl e ↦ rw e s | inr e ↦ rw e (grown db _ k (join_team-Grows db new_id team user) s) ]
