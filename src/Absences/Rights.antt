-- ===== src/Absences/Rights.antt =====
-- Who may do what to an absence (backend/internal/absences), and when Create succeeds.
use team_manager.Base.{
  ℕ, ◌≤◌, ◌<◌, ◌-◌, ◌≡◌, ◌≢◌, refl, ◌⊎◌, inl, inr, Bool, true, false, not, ◌&&◌, String, str_eq_iff,
  List, ◌∷◌, Option, some, none, In, any, any_witness, ◌==◌, leb, find, find-In, In-update,
  In-delete, Bool-cases, ok, >>-eq-ok, reject_if, ok-injective, arith,
}
use team_manager.Roster.Db.{Db}
use team_manager.Roster.Queries.{is_member, user_permissions}
use team_manager.Absences.Store.{
  AbsenceRow, nil_id, max_span, check_range, new_row, user_has_overlapping_absence, create, is_own,
  coalesce_row, update_absence, delete_absence, is_absence, get_owner, no_rows,
}
use team_manager.Absences.Service.{set_stats_relevance, has_events_write_permission}
use team_manager.Absences.Updates.{update-checked, with_relevance, set_stats_relevance-written}

overlap_witness :
    (rows : List AbsenceRow) (team user exclude from_date to_date : ℕ)
    → user_has_overlapping_absence rows team user exclude from_date to_date ≡ true
    → (a : AbsenceRow) × In a rows
      × ((a.team_id == team
            && a.user_id == user
            && not (a.id == exclude)
            && leb a.from_date to_date
            && leb from_date a.to_date)
          ≡ true)
unfolding user_has_overlapping_absence
overlap_witness rows team user exclude from_date to_date h = any_witness _ rows h

-- A member whose absences in the team are all apart from a range that is ordered and spans at most
-- 1095 days creates an absence with that range, and the table gains the new row.
pub create_succeeds :
    (db : Db) (rows : List AbsenceRow) (new_id team user from_date to_date : ℕ)
    (reason : Option String)
    → is_member db team user ≡ true
    → ((a : AbsenceRow)
        → In a rows
        → a.team_id ≡ team
        → a.user_id ≡ user
        → (a.to_date < from_date) ⊎ (to_date < a.from_date))
    → from_date ≤ to_date
    → to_date - from_date ≤ max_span
    → (row : AbsenceRow) × (create db rows new_id team user from_date to_date reason
        ≡ ok (row, row ∷ rows))
      × (row.user_id ≡ user)
      × (row.from_date ≡ from_date)
      × (row.to_date ≡ to_date)
unfolding create check_range
create_succeeds db rows new_id team user from_date to_date reason member clear le span = (
  new_row new_id team user from_date to_date reason,
  ground (arith, member, no_overlap, le, span),
  refl,
  refl,
  refl,
)
  where
    no_overlap : user_has_overlapping_absence rows team user nil_id from_date to_date ≡ false
    no_overlap =
        elim (Bool-cases (user_has_overlapping_absence rows team user nil_id from_date to_date)) [
          | inl e ↦
              let (a, i, q) = overlap_witness rows team user nil_id from_date to_date e in
              absurd (ground (arith, clear a i))
          | inr e ↦ e
        ]

-- Update and Delete leave every absence of another user, and every absence of another team, as it
-- was, and succeed only for a member of the team.
pub only_own_absences_change :
    (db : Db) (rows rows' : List AbsenceRow) (id team user : ℕ) (from_date to_date : Option ℕ)
    (reason : Option String)
    → (update_absence db rows id team user from_date to_date reason ≡ ok rows')
      ⊎ (delete_absence db rows id team user ≡ ok rows')
    → (is_member db team user ≡ true)
      × ((a : AbsenceRow) → In a rows → (a.user_id ≢ user) ⊎ (a.team_id ≢ team) → In a rows')
unfolding delete_absence
only_own_absences_change db rows rows' id team user from_date to_date reason (inl h) =
    let (_, _, _, member, _, e) =
      update-checked db rows id team user from_date to_date reason rows' h in
    (
      member,
      λ a i other.
          let foreign : is_own id team user a ≡ false = ground arith in
          rw e (
            rw foreign at
              (In-update (is_own id team user) (coalesce_row from_date to_date reason) a rows i)),
    )
only_own_absences_change db rows rows' id team user from_date to_date reason (inr h) =
    let (found, last) =
      >>-eq-ok (reject_if (not (is_member db team user && any (is_own id team user) rows)) no_rows)
        _ rows' h in
    (
      ground arith,
      λ a i other.
          let foreign : is_own id team user a ≡ false = ground arith in
          rw (ok-injective _ rows' last) (In-delete (is_own id team user) a rows i foreign),
    )

-- SetStatsRelevance succeeds only for the owner of the absence or for a caller whose effective
-- permission on events is "write", and then it has recorded the flag and the caller on that absence.
pub set_stats_relevance-authorized :
    (db : Db) (rows rows' : List AbsenceRow) (id team caller : ℕ) (not_relevant : Bool)
    → set_stats_relevance db rows id team caller not_relevant ≡ ok rows'
    → (a : AbsenceRow) × In a rows
      × (a.id ≡ id)
      × (a.team_id ≡ team)
      × ((a.user_id ≡ caller) ⊎ ((user_permissions db team caller).events ≡ "write"))
      × In (with_relevance caller not_relevant a) rows'
unfolding set_stats_relevance get_owner has_events_write_permission
set_stats_relevance-authorized db rows rows' id team caller not_relevant h =
    let (a, e) = found (find (is_absence id team) rows) refl in
    let (i, is_a) = find-In (is_absence id team) a rows e in
    (
      a,
      i,
      ground arith,
      ground arith,
      ground (arith, e, str_eq_iff (user_permissions db team caller).events "write"),
      rw (set_stats_relevance-written db rows id team caller not_relevant rows' h) (
          rw is_a at
            (In-update (is_absence id team) (with_relevance caller not_relevant) a rows i)),
    )
  where
    found :
        (o : Option AbsenceRow)
        → find (is_absence id team) rows ≡ o
        → (a : AbsenceRow) × (find (is_absence id team) rows ≡ some a)
    found none e = absurd (ground (arith, e))
    found (some a) e = (a, e)
