-- ===== src/Tests/Access.antt =====
-- A request for the finances of a team (backend/internal/middleware/authz.go).
use team_manager.Base.{
  ℕ, ◌≡◌, refl, inl, inr, ◌↔◌, Bool, true, false, List, [], ◌∷◌, Option, none, some, In, Bytes,
  bytes_eq, if◌then◌else◌,
}
use team_manager.Access.Permissions.{PermissionsJson}
use team_manager.Access.Middleware.{
  RbacRouteEntry, Request, Response, authorize, match_rbac_route, request_segments,
}
use team_manager.Access.Routing.{Serves, match_rbac_route_lem}
use team_manager.Access.Gate.{Authorized, authorize_iff}
use team_manager.Roster.Teams.{member_perms, admin_perms}

-- GET /t/7/a/b for the team "7", and the table with the route GET a/{b}.
abbrev route : RbacRouteEntry
route = record {
  method = "GET";
  segments = (97 ∷ []) ∷ (123 ∷ 98 ∷ 125 ∷ []) ∷ [];
  module_name = "finances";
  self_service = false;
}

abbrev request : Request
request = record {
  team_param = 55 ∷ [];
  user = some 1;
  method = "GET";
  path = 47 ∷ 116 ∷ 47 ∷ 55 ∷ 47 ∷ 97 ∷ 47 ∷ 98 ∷ [];
}

abbrev parse_digit : Bytes → Option ℕ
parse_digit s = if bytes_eq s (55 ∷ []) then some 7 else none

abbrev everyone : ℕ → ℕ → Option Bool
everyone team user = some true

abbrev admins : ℕ → ℕ → Option PermissionsJson
admins team user = some admin_perms

passes : authorize parse_digit (route ∷ []) everyone admins request ≡ Response.next
unfolding authorize team_manager.Base.index_of team_manager.Base.trim_right
    team_manager.Base.trim_left team_manager.Base.split_at
    team_manager.Access.Permissions.has_any_permission
passes = refl

-- A member whose level on finances is "none" is refused.
refused :
    authorize parse_digit (route ∷ []) everyone (λ team user. some member_perms) request
    ≡ Response.forbidden
unfolding authorize team_manager.Base.index_of team_manager.Base.trim_right
    team_manager.Base.trim_left team_manager.Base.split_at
    team_manager.Access.Permissions.has_any_permission
refused = refl

authorize_iff_example :
    (authorize parse_digit (route ∷ []) everyone admins request ≡ Response.next)
    ↔ Authorized parse_digit (route ∷ []) everyone admins request
authorize_iff_example = authorize_iff parse_digit (route ∷ []) everyone admins request 55 [] refl

match_rbac_route_lem_example :
    ((entry : RbacRouteEntry)
      → match_rbac_route (route ∷ []) "GET" (97 ∷ 47 ∷ 98 ∷ []) ≡ some entry
      → In entry (route ∷ []) × Serves entry "GET" (request_segments (97 ∷ 47 ∷ 98 ∷ [])))
    × (match_rbac_route (route ∷ []) "GET" (97 ∷ 47 ∷ 98 ∷ []) ≡ none
        → (entry : RbacRouteEntry) → In entry (route ∷ [])
        → ¬ Serves entry "GET" (request_segments (97 ∷ 47 ∷ 98 ∷ [])))
match_rbac_route_lem_example = match_rbac_route_lem (route ∷ []) "GET" (97 ∷ 47 ∷ 98 ∷ [])
