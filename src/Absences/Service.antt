-- ===== src/Absences/Service.antt =====
-- backend/internal/absences/service.go: SetStatsRelevance, with the permissions that
-- members.GetPermissions reports.
use team_manager.Base.{ℕ, Bool, str_eq, not, List, ◌==◌, if◌then◌else◌, ok, ◌>>◌, ◌>>=◌, reject_if}
use team_manager.Access.Permissions.{PermissionsJson}
use team_manager.Roster.Db.{Db}
use team_manager.Roster.Queries.{user_permissions}
use team_manager.Absences.Store.{
  AbsenceRow, forbidden_stats_relevance, Result, get_owner, write_stats_relevance,
}

unfoldable pub has_events_write_permission : PermissionsJson → Bool
has_events_write_permission p = str_eq p.events "write"

unfoldable pub set_stats_relevance :
    Db → List AbsenceRow → ℕ → ℕ → ℕ → Bool → Result (List AbsenceRow)
unfolding has_events_write_permission
set_stats_relevance db rows id team caller not_relevant = do
  owner ← get_owner rows id team
  if owner == caller
      then ok tt
      else reject_if (not (has_events_write_permission (user_permissions db team caller)))
          forbidden_stats_relevance
  write_stats_relevance rows id team not_relevant caller
