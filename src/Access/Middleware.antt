-- ===== src/Access/Middleware.antt =====
-- backend/internal/middleware/authz.go: RequireMembership and RequirePermission. The generated route
-- table, uuid.Parse and the two checkers are parameters; a checker that returns an error is `none`.
use team_manager.Base.{
  ℕ, Bool, true, false, not, ◌||◌, String, str_eq, List, [], ◌∷◌, Option, none, some, ◌==◌, length,
  if◌then◌else◌, Bytes, bytes_eq, has_prefix, index_of, trim_left, trim_right, split_at, drop,
}
use team_manager.Access.Permissions.{PermissionsJson, has_write_permission, has_any_permission}

-- rbacRouteEntry
pub record RbacRouteEntry : Type 0 where
  pub method : String
  pub segments : List Bytes
  pub module_name : String
  pub self_service : Bool

-- The parts of an http.Request that the two handlers read: the URL parameter teamId, the user of the
-- context, the method and the path.
pub record Request : Type 0 where
  pub team_param : Bytes
  pub user : Option ℕ
  pub method : String
  pub path : Bytes

pub data Response : Type 0 where
  next : Response
  bad_request unauthorized internal_server_error not_found forbidden : Response

abbrev pub rbac_module_public : String
rbac_module_public = "public"

-- The bytes `{` and `/`.
abbrev pub brace : ℕ
brace = 123

abbrev pub slash : ℕ
slash = 47

-- The lengths are equal at the call, so that the loop never indexes out of range.
unfoldable pub segments_match : List Bytes → List Bytes → Bool
segments_match [] actual = true
segments_match (seg ∷ template) [] = false
segments_match (seg ∷ template) (a ∷ actual) =
    let rest = segments_match template actual in
    if has_prefix seg (brace ∷ []) then rest else if not (bytes_eq seg a) then false else rest

unfoldable pub find_route : String → List Bytes → List RbacRouteEntry → Option RbacRouteEntry
unfolding segments_match
find_route method req [] = none
find_route method req (entry ∷ entries) =
    let rest = find_route method req entries in
    if not (str_eq entry.method method) || not (length entry.segments == length req)
    then rest
    else if segments_match entry.segments req
    then some entry
    else rest

unfoldable pub request_segments : Bytes → List Bytes
request_segments [] = []
request_segments (c ∷ cs) = split_at slash (c ∷ cs)

unfoldable pub match_rbac_route : List RbacRouteEntry → String → Bytes → Option RbacRouteEntry
unfolding find_route request_segments
match_rbac_route routes method sub_path = find_route method (request_segments sub_path) routes

unfoldable pub sub_path_after_team : Bytes → Bytes → Bytes
sub_path_after_team url_path team = elim (index_of url_path team) [
  | none ↦ []
  | some i ↦ trim_right slash (trim_left slash (drop (length team) (drop i url_path)))
]

unfoldable pub has_required_permission : PermissionsJson → RbacRouteEntry → String → Bool
has_required_permission perms entry method =
    let is_read = str_eq method "GET" || str_eq method "HEAD" || str_eq method "OPTIONS" in
    if entry.self_service || is_read
    then has_any_permission perms entry.module_name
    else has_write_permission perms entry.module_name

module _ (parse_uuid : Bytes → Option ℕ) where
  unfoldable pub require_membership : (ℕ → ℕ → Option Bool) → Request → Response
  require_membership is_member r = elim r.team_param [
    | [] ↦ Response.next
    | c ∷ cs ↦ elim (parse_uuid (c ∷ cs)) [
      | none ↦ bad_request
      | some team ↦ elim r.user [
        | none ↦ unauthorized
        | some user ↦ elim (is_member team user) [
          | none ↦ internal_server_error
          | some member ↦ if not member then not_found else Response.next
        ]
      ]
    ]
  ]

  unfoldable pub enforce_team_permission :
      List RbacRouteEntry → (ℕ → ℕ → Option PermissionsJson) → Request → Response
  unfolding match_rbac_route sub_path_after_team has_required_permission
  enforce_team_permission routes get_permissions r = elim (parse_uuid r.team_param) [
    | none ↦ bad_request
    | some team ↦ elim r.user [
      | none ↦ unauthorized
      | some user ↦
          elim (match_rbac_route routes r.method (sub_path_after_team r.path r.team_param)) [
            | none ↦ not_found
            | some entry ↦
                if str_eq entry.module_name rbac_module_public
                then Response.next
                else elim (get_permissions team user) [
                  | none ↦ internal_server_error
                  | some perms ↦
                      if not (has_required_permission perms entry r.method)
                      then forbidden
                      else Response.next
                ]
          ]
    ]
  ]

  unfoldable pub require_permission :
      List RbacRouteEntry → (ℕ → ℕ → Option PermissionsJson) → Request → Response
  unfolding enforce_team_permission
  require_permission routes get_permissions r = elim r.team_param [
    | [] ↦ Response.next
    | c ∷ cs ↦ enforce_team_permission routes get_permissions r
  ]

  -- The two handlers in the order of the router: the second runs when the first calls `next`.
  unfoldable pub authorize :
      List RbacRouteEntry
      → (ℕ → ℕ → Option Bool)
      → (ℕ → ℕ → Option PermissionsJson)
      → Request
      → Response
  unfolding require_membership require_permission
  authorize routes is_member get_permissions r = elim (require_membership is_member r) [
    | Response.next ↦ require_permission routes get_permissions r
    | refused ↦ refused
  ]
