-- ===== src/Access/Gate.antt =====
-- What a request that passes RequireMembership and RequirePermission of
-- backend/internal/middleware/authz.go has been granted.
use team_manager.Base.{
  ℕ, ◌≡◌, refl, ap, ◌∙◌, ◌⊎◌, ◌↔◌, inl, inr, Bool, true, String, str_eq, str_eq_iff, List, [], ◌∷◌,
  Option, some, Option-cases, Bool-cases, Bytes, arith,
}
use team_manager.Access.Permissions.{
  PermissionsJson, module_level, has_write_permission, has_any_permission,
}
use team_manager.Access.Middleware.{
  RbacRouteEntry, Request, Response, rbac_module_public, match_rbac_route, sub_path_after_team,
  has_required_permission, require_membership, enforce_team_permission, require_permission,
  authorize,
}

List-cases : (xs : Bytes) → (xs ≡ []) ⊎ ((c : ℕ) × (cs : Bytes) × (xs ≡ c ∷ cs))
List-cases [] = inl refl
List-cases (c ∷ cs) = inr (c, cs, refl)

abbrev pub IsReadMethod : String → Type 0
IsReadMethod method = (method ≡ "GET") ⊎ (method ≡ "HEAD") ⊎ (method ≡ "OPTIONS")

-- The level on the route's module: "write", or "read" where reading is enough.
abbrev pub Sufficient : PermissionsJson → RbacRouteEntry → String → Type 0
Sufficient perms entry method =
    (module_level perms entry.module_name ≡ some "write")
    ⊎ ((module_level perms entry.module_name ≡ some "read")
        × ((entry.self_service ≡ true) ⊎ IsReadMethod method))

has_write_permission_iff :
    (p : PermissionsJson) (m : String)
    → ((has_write_permission p m ≡ true) → (module_level p m ≡ some "write"))
      × ((module_level p m ≡ some "write") → (has_write_permission p m ≡ true))
unfolding has_write_permission
has_write_permission_iff p m = elim (Option-cases (module_level p m)) [
  | inl e ↦ (λ h. absurd (ground (arith, e)), λ h. absurd (ground (arith, e)))
  | inr (l, e) ↦ (
    λ h. e ∙ ap (λ x. some x) (ground (arith, e, str_eq_iff l "write")),
    λ h. ground (arith, e, str_eq_iff l "write"),
  )
]

has_any_permission_iff :
    (p : PermissionsJson) (m : String)
    → ((has_any_permission p m ≡ true)
        → (module_level p m ≡ some "read") ⊎ (module_level p m ≡ some "write"))
      × ((module_level p m ≡ some "read") ⊎ (module_level p m ≡ some "write")
          → (has_any_permission p m ≡ true))
unfolding has_any_permission
has_any_permission_iff p m = elim (Option-cases (module_level p m)) [
  | inl e ↦ (λ h. absurd (ground (arith, e)), λ h. absurd (ground (arith, e)))
  | inr (l, e) ↦ (
    λ h. elim (Bool-cases (str_eq l "read")) [
      | inl r ↦ inl (e ∙ ap (λ x. some x) ((str_eq_iff l "read").0 r))
      | inr r ↦ inr (e ∙ ap (λ x. some x) (ground (arith, e, str_eq_iff l "write")))
    ],
    λ h. ground (arith, e, str_eq_iff l "write", str_eq_iff l "read"),
  )
]

-- hasRequiredPermission holds exactly when the level on the route's module suffices.
pub has_required_permission_iff :
    (perms : PermissionsJson) (entry : RbacRouteEntry) (method : String)
    → ((has_required_permission perms entry method ≡ true) → Sufficient perms entry method)
      × (Sufficient perms entry method → (has_required_permission perms entry method ≡ true))
unfolding has_required_permission
has_required_permission_iff perms entry method = (
  λ h. ground (
    arith,
    (has_any_permission_iff perms entry.module_name).0,
    (has_write_permission_iff perms entry.module_name).0,
    str_eq_iff method "GET",
    str_eq_iff method "HEAD",
    str_eq_iff method "OPTIONS",
  ),
  λ s. ground (
    arith,
    (has_any_permission_iff perms entry.module_name).1,
    (has_write_permission_iff perms entry.module_name).1,
    str_eq_iff method "GET",
    str_eq_iff method "HEAD",
    str_eq_iff method "OPTIONS",
  ),
)

module _ (parse_uuid : Bytes → Option ℕ) (routes : List RbacRouteEntry)
    (is_member : ℕ → ℕ → Option Bool) (get_permissions : ℕ → ℕ → Option PermissionsJson)
    (r : Request) where
  abbrev route : Option RbacRouteEntry
  route = match_rbac_route routes r.method (sub_path_after_team r.path r.team_param)

  -- A team-scoped request that may proceed: its user is a member of its team, its method and path
  -- have an entry in the table, and the entry is public or the user's level on its module suffices.
  pub record Authorized : Type 0 where
    pub team : ℕ
    pub user : ℕ
    pub entry : RbacRouteEntry
    pub parsed : parse_uuid r.team_param ≡ some team
    pub authenticated : r.user ≡ some user
    pub member : is_member team user ≡ some true
    pub classified :
        match_rbac_route routes r.method (sub_path_after_team r.path r.team_param) ≡ some entry
    pub level :
        (entry.module_name ≡ rbac_module_public)
        ⊎ ((perms : PermissionsJson) × (get_permissions team user ≡ some perms)
            × Sufficient perms entry r.method)

  enforced :
      (team user : ℕ) (entry : RbacRouteEntry)
      → parse_uuid r.team_param ≡ some team
      → r.user ≡ some user
      → match_rbac_route routes r.method (sub_path_after_team r.path r.team_param) ≡ some entry
      → enforce_team_permission parse_uuid routes get_permissions r ≡ Response.next
      → (entry.module_name ≡ rbac_module_public)
        ⊎ ((perms : PermissionsJson) × (get_permissions team user ≡ some perms)
            × Sufficient perms entry r.method)
  unfolding enforce_team_permission
  enforced team user entry p u m h =
      elim (Bool-cases (str_eq entry.module_name rbac_module_public)) [
        | inl e ↦ inl ((str_eq_iff entry.module_name rbac_module_public).0 e)
        | inr e ↦ elim (Option-cases (get_permissions team user)) [
          | inl g ↦ absurd (ground (arith, p, u, m, e, g))
          | inr (perms, g) ↦ inr (
            perms,
            g,
            (has_required_permission_iff perms entry r.method).0 (ground (arith, p, u, m, e, g)),
          )
        ]
      ]

  authorize-Authorized :
      (c : ℕ) (cs : Bytes)
      → r.team_param ≡ c ∷ cs
      → authorize parse_uuid routes is_member get_permissions r ≡ Response.next
      → Authorized
  unfolding authorize require_membership require_permission enforce_team_permission
  authorize-Authorized c cs t h = elim (Option-cases (parse_uuid r.team_param)) [
    | inl p ↦ absurd (ground (arith, t, p))
    | inr (team, p) ↦ elim (Option-cases r.user) [
      | inl u ↦ absurd (ground (arith, t, p, u))
      | inr (user, u) ↦ elim (Option-cases (is_member team user)) [
        | inl m ↦ absurd (ground (arith, t, p, u, m))
        | inr (member, m) ↦ elim (Bool-cases member) [
          | inr refused ↦ absurd (ground (arith, t, p, u, m, refused))
          | inl granted ↦
              let passed : enforce_team_permission parse_uuid routes get_permissions r
                  ≡ Response.next =
                ground (arith, t, p, u, m, granted) in
              elim (Option-cases
                (match_rbac_route routes r.method (sub_path_after_team r.path r.team_param))) [
                  | inl none_found ↦ absurd (ground (arith, passed, p, u, none_found))
                  | inr (entry, found) ↦ record {
                    team = team;
                    user = user;
                    entry = entry;
                    parsed = p;
                    authenticated = u;
                    member = m ∙ ap (λ x. some x) granted;
                    classified = found;
                    level = enforced team user entry p u found passed;
                  }
                ]
        ]
      ]
    ]
  ]

  enforces :
      Authorized → enforce_team_permission parse_uuid routes get_permissions r ≡ Response.next
  unfolding enforce_team_permission
  enforces a = elim a.level [
    | inl public ↦ ground (
      arith,
      a.parsed,
      a.authenticated,
      a.classified,
      str_eq_iff a.entry.module_name rbac_module_public,
    )
    | inr granted ↦
        let (perms, g, sufficient) = granted in
        let required = (has_required_permission_iff perms a.entry r.method).1 sufficient in
        ground (arith, a.parsed, a.authenticated, a.classified, g, required)
  ]

  Authorized-authorize :
      Authorized → authorize parse_uuid routes is_member get_permissions r ≡ Response.next
  unfolding authorize require_membership require_permission
  Authorized-authorize a = elim (List-cases r.team_param) [
    | inl e ↦ ground (arith, e)
    | inr (c, cs, e) ↦ ground (arith, e, a.parsed, a.authenticated, a.member, enforces a)
  ]

  -- A request with a team parameter passes RequireMembership and RequirePermission exactly when its
  -- team parameter parses, it carries a user, the user is a member of the team, the method and path
  -- are in the route table, and the route is public or the user's effective level on its module is
  -- "write", or is "read" and the route is self-service or the method reads.
  pub authorize_iff :
      (c : ℕ) (cs : Bytes)
      → r.team_param ≡ c ∷ cs
      → (authorize parse_uuid routes is_member get_permissions r ≡ Response.next) ↔ Authorized
  authorize_iff c cs t = (authorize-Authorized c cs t, Authorized-authorize)
