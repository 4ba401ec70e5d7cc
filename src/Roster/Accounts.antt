-- ===== src/Roster/Accounts.antt =====
-- EraseUser of backend/internal/auth/repository.go, as far as it concerns the administration of
-- teams: the check that the account is not the only settings administrator of a team, and the mark
-- deleted_at. The personal data that it overwrites is not modelled.
use team_manager.Base.{
  ℕ, Bool, true, not, ◌&&◌, List, [], ◌∷◌, map, ◌==◌, any, select, update, dedupe_from, ok, err,
}
use team_manager.Roster.Db.{Db, sole_settings_admin, Result}
use team_manager.Roster.Queries.{settings_write, holds_role, is_active}

-- The subquery of EraseUser: another account, not erased, holds settings:write in the team.
unfoldable pub other_account_has_settings_write : Db → ℕ → ℕ → Bool
other_account_has_settings_write db team user =
    any
      (λ m.
        m.team_id == team
        && not (m.user_id == user)
        && holds_role db m settings_write
        && is_active db m.user_id)
      db.memberships

-- `ARRAY_AGG(DISTINCT m.team_id)`
unfoldable pub sole_admin_team_ids : Db → ℕ → List ℕ
unfolding other_account_has_settings_write
sole_admin_team_ids db user = dedupe_from [] (
    map (λ m. m.team_id)
      (select
        (λ m.
          m.user_id == user
          && holds_role db m settings_write
          && not (other_account_has_settings_write db m.team_id user))
        db.memberships))

unfoldable pub mark_deleted : Db → ℕ → Db
mark_deleted db user = record db {
  users = update (λ u. u.id == user && not u.deleted) (λ u. record u { deleted = true }) db.users;
}

unfoldable pub erase_user : Db → ℕ → Result Db
unfolding sole_admin_team_ids mark_deleted
erase_user db user = elim (sole_admin_team_ids db user) [
  | [] ↦ ok (mark_deleted db user)
  | team ∷ teams ↦ err (sole_settings_admin (team ∷ teams))
]
