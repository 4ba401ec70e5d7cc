-- ===== src/Access/Routing.antt =====
-- matchRBACRoute of backend/internal/middleware/authz.go against a relation of matching.
use team_manager.Base.{
  ◌≡◌, refl, inl, inr, true, not, ◌||◌, String, str_eq, str_eq_iff, List, [], ◌∷◌, none, some, In,
  ◌==◌, length, Bool-cases, Bytes, bytes_eq_iff, bytes_eq_refl, has_prefix, arith,
}
use team_manager.Access.Middleware.{
  RbacRouteEntry, brace, segments_match, find_route, match_rbac_route, request_segments,
}

-- A segment of a template that stands for any value of a path parameter.
abbrev pub IsParameter : Bytes → Type 0
IsParameter seg = has_prefix seg (brace ∷ []) ≡ true

-- A template matches a path: as many segments, and each is a parameter or the segment itself. A
-- parameter takes any segment, an empty one too, as segmentsMatch does.
pub data Matches : List Bytes → List Bytes → Type 0 where
  done : Matches [] []
  parameter :
      (seg a : Bytes) (template actual : List Bytes)
      → IsParameter seg
      → Matches template actual
      → Matches (seg ∷ template) (a ∷ actual)
  literal :
      (seg : Bytes) (template actual : List Bytes)
      → Matches template actual
      → Matches (seg ∷ template) (seg ∷ actual)

literal_of :
    (seg a : Bytes) (template actual : List Bytes)
    → seg ≡ a
    → Matches template actual
    → Matches (seg ∷ template) (a ∷ actual)
literal_of seg a template actual e m = rw (← e) (literal seg template actual m)

segments_match-Matches :
    (template actual : List Bytes)
    → length template ≡ length actual
    → segments_match template actual ≡ true
    → Matches template actual
unfolding segments_match
segments_match-Matches [] [] n h = done
segments_match-Matches [] (a ∷ actual) n h = absurd (omega arith)
segments_match-Matches (seg ∷ template) [] n h = absurd (omega arith)
segments_match-Matches (seg ∷ template) (a ∷ actual) n h =
    elim (Bool-cases (has_prefix seg (brace ∷ []))) [
      | inl e ↦
          parameter seg a template actual e
            (segments_match-Matches template actual (omega arith) (ground arith))
      | inr e ↦
          literal_of seg a template actual (bytes_eq_iff seg a (ground arith))
            (segments_match-Matches template actual (omega arith) (ground arith))
    ]

Matches-segments_match :
    (template actual : List Bytes)
    → Matches template actual
    → (length template ≡ length actual) × (segments_match template actual ≡ true)
unfolding segments_match
Matches-segments_match _ _ done = (refl, refl)
Matches-segments_match _ _ (parameter seg a template actual p m) =
    let (n, h) = Matches-segments_match template actual m in (omega arith, ground arith)
Matches-segments_match _ _ (literal seg template actual m) =
    let (n, h) = Matches-segments_match template actual m in
    (omega arith, ground (arith, bytes_eq_refl seg))

abbrev pub Serves : RbacRouteEntry → String → List Bytes → Type 0
Serves entry method req = (entry.method ≡ method) × Matches entry.segments req

find_route-some :
    (method : String) (req : List Bytes) (routes : List RbacRouteEntry) (entry : RbacRouteEntry)
    → find_route method req routes ≡ some entry
    → In entry routes × Serves entry method req
unfolding find_route
find_route-some method req [] entry h = cc
find_route-some method req (e ∷ es) entry h =
    elim (Bool-cases (not (str_eq e.method method) || not (length e.segments == length req))) [
      | inl skip ↦ let (i, s) = find_route-some method req es entry (ground arith) in (inr i, s)
      | inr same ↦ elim (Bool-cases (segments_match e.segments req)) [
        | inl hit ↦
            let q : entry ≡ e = ground arith in
            rw q (
              inl refl,
              (
                ground (arith, str_eq_iff e.method method),
                segments_match-Matches e.segments req (ground arith) hit,
              ),
            )
        | inr miss ↦ let (i, s) = find_route-some method req es entry (ground arith) in (inr i, s)
      ]
    ]

find_route-none :
    (method : String) (req : List Bytes) (routes : List RbacRouteEntry) (entry : RbacRouteEntry)
    → find_route method req routes ≡ none
    → In entry routes
    → ¬ Serves entry method req
unfolding find_route
find_route-none method req [] entry h i s = elim i [ ]
find_route-none method req (e ∷ es) entry h (inl q) s =
    let (m, on_path) = s in
    let (n, hit) = Matches-segments_match entry.segments req on_path in
    ground (arith, str_eq_iff e.method method)
find_route-none method req (e ∷ es) entry h (inr i) s =
    find_route-none method req es entry (ground arith) i s

-- A route that matchRBACRoute returns is an entry of the table with the request's method, and its
-- template matches the path segment by segment; when it returns none, no entry of the table does. A
-- parameter of a template matches any segment, also an empty one, which the comments of
-- matchRBACRoute and segmentsMatch exclude: a path with an empty segment in the place of a parameter
-- gets a route as well.
pub match_rbac_route_lem :
    (routes : List RbacRouteEntry) (method : String) (sub_path : Bytes)
    → ((entry : RbacRouteEntry)
        → match_rbac_route routes method sub_path ≡ some entry
        → In entry routes × Serves entry method (request_segments sub_path))
      × (match_rbac_route routes method sub_path ≡ none
          → (entry : RbacRouteEntry) → In entry routes
          → ¬ Serves entry method (request_segments sub_path))
unfolding match_rbac_route
match_rbac_route_lem routes method sub_path = (
  find_route-some method (request_segments sub_path) routes,
  λ h entry. find_route-none method (request_segments sub_path) routes entry h,
)
