-- ===== src/Roster/Ceilings.antt =====
-- The comparison of enforceNoPermissionEscalation (members/repository.go) and of
-- enforceNoRoleEscalation (roles/repository.go): on every module the granted level may not rank
-- above the greater of the caller's level and the level held before.
use team_manager.Base.{◌≤◌, max, ◌≡◌, Bool, false, ◌||◌, String, List, [], ◌∷◌, ltb, arith}
use team_manager.Access.Permissions.{PermissionsJson, Module, perm_level_rank, fold_max}
use team_manager.Access.Levels.{rank_at, rank-fold_max}

unfoldable pub ceilings : PermissionsJson → PermissionsJson → List String
ceilings caller before =
    fold_max caller.events before.events
    ∷ fold_max caller.members before.members
    ∷ fold_max caller.finances before.finances
    ∷ fold_max caller.news before.news
    ∷ fold_max caller.polls before.polls
    ∷ fold_max caller.settings before.settings
    ∷ fold_max caller.stats before.stats
    ∷ []

unfoldable pub granted : PermissionsJson → List String
granted p = p.events ∷ p.members ∷ p.finances ∷ p.news ∷ p.polls ∷ p.settings ∷ p.stats ∷ []

-- `for i, level := range granted { if permLevelRank(level) > permLevelRank(ceilings[i]) … }`
unfoldable pub any_above : List String → List String → Bool
any_above (l ∷ ls) (c ∷ cs) = ltb (perm_level_rank c) (perm_level_rank l) || any_above ls cs
any_above _ _ = false

-- Whether granting `new` escalates beyond `caller` and `before`.
unfoldable pub escalates : PermissionsJson → PermissionsJson → PermissionsJson → Bool
unfolding ceilings granted any_above
escalates caller before new = any_above (granted new) (ceilings caller before)

pub not_escalates :
    (caller before new : PermissionsJson) (m : Module)
    → escalates caller before new ≡ false
    → rank_at new m ≤ max (rank_at caller m) (rank_at before m)
unfolding escalates
not_escalates caller before new Module.events h =
    ground (arith, rank-fold_max caller.events before.events)
not_escalates caller before new Module.members h =
    ground (arith, rank-fold_max caller.members before.members)
not_escalates caller before new Module.finances h =
    ground (arith, rank-fold_max caller.finances before.finances)
not_escalates caller before new Module.news h =
    ground (arith, rank-fold_max caller.news before.news)
not_escalates caller before new Module.polls h =
    ground (arith, rank-fold_max caller.polls before.polls)
not_escalates caller before new Module.settings h =
    ground (arith, rank-fold_max caller.settings before.settings)
not_escalates caller before new Module.stats h =
    ground (arith, rank-fold_max caller.stats before.stats)
