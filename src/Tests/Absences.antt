-- ===== src/Tests/Absences.antt =====
-- Two absences of a member of a team (backend/internal/absences), at the team of the tests of the
-- roster.
use team_manager.Base.{
  ℕ, ◌≤◌, ◌<◌, ◌≡◌, ◌≢◌, ◌⊎◌, refl, inl, inr, true, [], ◌∷◌, none, In, ok, err, arith,
}
use team_manager.Roster.Queries.{is_member, user_permissions}
use team_manager.Absences.Store.{
  AbsenceRow, overlapping_absence, new_row, create, update_absence, delete_absence,
}
use team_manager.Absences.Service.{set_stats_relevance}
use team_manager.Absences.Overlap.{Bounded}
use team_manager.Absences.Updates.{with_relevance}
use team_manager.Absences.History.{Reached, empty, next, created, one_absence_a_day}
use team_manager.Absences.Rights.{only_own_absences_change}
use team_manager.Tests.Roster.{team_db}

abbrev may : AbsenceRow
may = new_row 1 10 1 20 25 none

abbrev june : AbsenceRow
june = new_row 2 10 1 30 31 none

may_created : create team_db [] 1 10 1 20 25 none ≡ ok (may, may ∷ [])
unfolding create team_manager.Absences.Store.user_has_overlapping_absence is_member
may_created = refl

june_created : create team_db (may ∷ []) 2 10 1 30 31 none ≡ ok (june, june ∷ may ∷ [])
unfolding create team_manager.Absences.Store.user_has_overlapping_absence is_member
june_created = refl

-- An absence that would reach into another one is refused.
create_overlapping : create team_db (may ∷ []) 2 10 1 25 31 none ≡ err overlapping_absence
unfolding create team_manager.Absences.Store.user_has_overlapping_absence
create_overlapping = refl

both_Reached : Reached (june ∷ may ∷ [])
both_Reached =
    next team_db (may ∷ []) (june ∷ may ∷ [])
      (next team_db [] (may ∷ []) empty
        (created 1 10 1 20 25 none may refl (λ e. omega (arith, e)) may_created))
      (created 2 10 1 30 31 none june refl (λ e. omega (arith, e)) june_created)

one_absence_a_day_example :
    ((a : AbsenceRow) → In a (june ∷ may ∷ []) → Bounded a)
    × ((a b : AbsenceRow) (day : ℕ)
        → In a (june ∷ may ∷ [])
        → In b (june ∷ may ∷ [])
        → a.team_id ≡ b.team_id
        → a.user_id ≡ b.user_id
        → (a.from_date ≤ day) × (day ≤ a.to_date)
        → (b.from_date ≤ day) × (day ≤ b.to_date)
        → a ≡ b)
one_absence_a_day_example = one_absence_a_day (june ∷ may ∷ []) both_Reached

apart_from_may :
    (a : AbsenceRow)
    → In a (may ∷ [])
    → a.team_id ≡ 10
    → a.user_id ≡ 1
    → (a.to_date < 30) ⊎ (31 < a.from_date)
apart_from_may a (inl e) t u = inl (rw e (omega arith))
apart_from_may a (inr i) t u = elim i [ ]

ana_is_member : is_member team_db 10 1 ≡ true
unfolding is_member
ana_is_member = refl

-- Ben has one absence, and Anna deletes hers.
abbrev bens : AbsenceRow
bens = new_row 3 10 2 20 25 none

delete_may : delete_absence team_db (may ∷ bens ∷ []) 1 10 1 ≡ ok (bens ∷ [])
unfolding delete_absence is_member
delete_may = refl

only_own_absences_change_example :
    (is_member team_db 10 1 ≡ true)
    × ((a : AbsenceRow)
        → In a (may ∷ bens ∷ [])
        → (a.user_id ≢ 1) ⊎ (a.team_id ≢ 10)
        → In a (bens ∷ []))
only_own_absences_change_example =
    only_own_absences_change team_db (may ∷ bens ∷ []) (bens ∷ []) 1 10 1 none none none
      (inr delete_may)

-- Anna has events:write, so she may mark Ben's absence.
mark_bens :
    set_stats_relevance team_db (bens ∷ []) 3 10 1 true ≡ ok (with_relevance 1 true bens ∷ [])
unfolding set_stats_relevance team_manager.Absences.Store.get_owner user_permissions
    team_manager.Access.Permissions.effective_permissions team_manager.Access.Permissions.fold_max
    team_manager.Access.Permissions.perm_level_rank
    team_manager.Absences.Store.write_stats_relevance
mark_bens = refl
