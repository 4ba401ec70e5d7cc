-- ===== src/Access/Permissions.antt =====
-- The per-module permission levels of a role and their maximum over several roles:
-- teams.PermissionsJSON, permLevelRank, foldMax, foldPermissions, teams.MergePermissions, and the
-- module switches of backend/internal/middleware/authz.go. Levels are strings, as in the JSON column.
use team_manager.Base.{
  ℕ, ltb, Bool, false, ◌||◌, String, str_eq, List, [], ◌∷◌, Option, none, some, if◌then◌else◌,
  or_default,
}

pub record PermissionsJson : Type 0 where
  pub events : String
  pub members : String
  pub finances : String
  pub news : String
  pub polls : String
  pub settings : String
  pub stats : String

-- The seven modules that a role grants levels on.
pub data Module : Type 0 where
  events members finances news polls settings stats : Module

abbrev pub level : PermissionsJson → Module → String
level p Module.events = p.events
level p Module.members = p.members
level p Module.finances = p.finances
level p Module.news = p.news
level p Module.polls = p.polls
level p Module.settings = p.settings
level p Module.stats = p.stats

-- `teams.PermissionsJSON{Events: "none", …}`, the start of every fold.
abbrev pub all_none : PermissionsJson
all_none = record {
  events = "none";
  members = "none";
  finances = "none";
  news = "none";
  polls = "none";
  settings = "none";
  stats = "none";
}

-- none < read < write; any other string counts as none.
unfoldable pub perm_level_rank : String → ℕ
perm_level_rank l = if str_eq l "write" then 2 else if str_eq l "read" then 1 else 0

unfoldable pub fold_max : String → String → String
fold_max cur next = if ltb (perm_level_rank cur) (perm_level_rank next) then next else cur

unfoldable pub fold_permissions : PermissionsJson → PermissionsJson → PermissionsJson
fold_permissions a b = record {
  events = fold_max a.events b.events;
  members = fold_max a.members b.members;
  finances = fold_max a.finances b.finances;
  news = fold_max a.news b.news;
  polls = fold_max a.polls b.polls;
  settings = fold_max a.settings b.settings;
  stats = fold_max a.stats b.stats;
}

-- The loop `eff = foldPermissions(eff, p)` over the rows of a query.
unfoldable pub effective_from : PermissionsJson → List PermissionsJson → PermissionsJson
unfolding fold_permissions
effective_from eff [] = eff
effective_from eff (p ∷ ps) = effective_from (fold_permissions eff p) ps

unfoldable pub effective_permissions : List PermissionsJson → PermissionsJson
unfolding effective_from
effective_permissions ps = effective_from all_none ps

-- `order := map[string]int{"none": 0, "read": 1, "write": 2}`; a missing key reads 0.
lookup_order : String → List (String × ℕ) → Option ℕ
lookup_order l [] = none
lookup_order l ((k, n) ∷ m) = if str_eq k l then some n else lookup_order l m

unfoldable pub order : String → ℕ
unfolding lookup_order
order l = or_default (lookup_order l (("none", 0) ∷ ("read", 1) ∷ ("write", 2) ∷ [])) 0

-- The closure `merge` of MergePermissions.
unfoldable pub merge : String → String → String
merge current candidate = if ltb (order current) (order candidate) then candidate else current

unfoldable pub merge_role : PermissionsJson → PermissionsJson → PermissionsJson
merge_role best p = record {
  events = merge best.events p.events;
  members = merge best.members p.members;
  finances = merge best.finances p.finances;
  news = merge best.news p.news;
  polls = merge best.polls p.polls;
  settings = merge best.settings p.settings;
  stats = merge best.stats p.stats;
}

unfoldable pub merge_from : PermissionsJson → List PermissionsJson → PermissionsJson
unfolding merge_role
merge_from best [] = best
merge_from best (p ∷ ps) = merge_from (merge_role best p) ps

-- teams.MergePermissions over the permissions of the roles.
unfoldable pub merge_permissions : List PermissionsJson → PermissionsJson
unfolding merge_from
merge_permissions ps = merge_from all_none ps

-- `switch module { case "events": level = p.Events … default: return false }`
unfoldable pub module_level : PermissionsJson → String → Option String
module_level p m =
    if str_eq m "events"
    then some p.events
    else if str_eq m "members"
    then some p.members
    else if str_eq m "finances"
    then some p.finances
    else if str_eq m "news"
    then some p.news
    else if str_eq m "polls"
    then some p.polls
    else if str_eq m "settings"
    then some p.settings
    else if str_eq m "stats"
    then some p.stats
    else none

abbrev is_write : Option String → Bool
is_write none = false
is_write (some l) = str_eq l "write"

abbrev is_read_or_write : Option String → Bool
is_read_or_write none = false
is_read_or_write (some l) = str_eq l "read" || str_eq l "write"

unfoldable pub has_write_permission : PermissionsJson → String → Bool
unfolding module_level
has_write_permission p m = is_write (module_level p m)

unfoldable pub has_any_permission : PermissionsJson → String → Bool
unfolding module_level
has_any_permission p m = is_read_or_write (module_level p m)
