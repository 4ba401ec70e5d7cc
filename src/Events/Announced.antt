-- ===== src/Events/Announced.antt =====
-- A successful CreateEvent of backend/internal/events/service.go.
use team_manager.Base.{
  ℕ, All-of_In, All-In, map-In, In-map, ◌≡◌, ◌∙◌, ◌⊎◌, ◌↔◌, refl, sym, ap, subst, false, not,
  String, str_eq_iff, List, [], ◌∷◌, map, In, any-false, contains→In, In→contains,
  contains-dedupe_from, dedupe_from, dedupe_from-Distinct, Distinct, or_default, arith, ok,
  >>-eq-ok, >>=-eq-ok, ok-injective, reject_if, reject_if-ok,
}
use team_manager.Roster.Db.{Db}
use team_manager.Roster.Queries.{user_permissions}
use team_manager.Events.Store.{EventRow, Tables}
use team_manager.Events.Creation.{
  dedup_team_ids, cross_team_write_forbidden, invalid_cross_team_ids, teams_exist,
  validate_nominated_roles_in_tx,
}
use team_manager.Events.Planner.{
  CreateEventBody, EventNotification, check_multi_day, repeat_end_date_of, params_of,
  writes_events_in, require_events_write_in_teams, validate_cross_team_ids, create_rows,
  notification, notifications, create,
}
use team_manager.Events.FirstRow.{create_rows-InTable}

validate_cross_team_ids-ok :
    (db : Db) (caller : ℕ) (teams : List ℕ) (t : ℕ)
    → validate_cross_team_ids db caller teams ≡ ok tt
    → In t teams
    → (user_permissions db t caller).events ≡ "write"
unfolding validate_cross_team_ids require_events_write_in_teams
validate_cross_team_ids-ok db caller [] t h i = elim i [ ]
validate_cross_team_ids-ok db caller (x ∷ xs) t h i =
    let (_, allowed) =
      >>-eq-ok (reject_if (not (teams_exist db (x ∷ xs))) invalid_cross_team_ids) _ tt h in
    let none_lacks = reject_if-ok _ cross_team_write_forbidden allowed in
    let out = any-false (λ y. not (writes_events_in db caller y)) t (x ∷ xs) none_lacks i in
    (str_eq_iff (user_permissions db t caller).events "write").0 (ground (arith, out))

-- The owning team and the others, each once.
dedup_team_ids_iff :
    (owning : ℕ) (extra : List ℕ) (t : ℕ)
    → In t (dedup_team_ids owning extra) ↔ ((t ≡ owning) ⊎ In t extra)
unfolding dedup_team_ids dedupe_from
dedup_team_ids_iff owning extra t =
    let same = contains-dedupe_from [] (owning ∷ extra) t in
    (
      λ i.
          contains→In (owning ∷ extra) t
            (ground (arith, same, In→contains (dedup_team_ids owning extra) t i)),
      λ i.
          contains→In (dedup_team_ids owning extra) t
            (ground (arith, same, In→contains (owning ∷ extra) t i)),
    )

dedup_team_ids-Distinct :
    (owning : ℕ) (extra : List ℕ) → Distinct (λ t. t) (dedup_team_ids owning extra)
unfolding dedup_team_ids dedupe_from
dedup_team_ids-Distinct owning extra = dedupe_from-Distinct [] (owning ∷ extra)

notification-Distinct :
    (actor : ℕ) (e : EventRow) (type : String) (teams : List ℕ)
    → Distinct (λ t. t) teams
    → Distinct (λ n. n.team_id) (map (notification actor e type) teams)
notification-Distinct actor e type [] d = tt
notification-Distinct actor e type (t ∷ ts) d = (
  All-of_In _ (map (notification actor e type) ts) (λ n i.
      let (u, j, q) = map-In (notification actor e type) n ts i in
      λ same. All-In _ u ts d.0 j (same ∙ ap (λ (x : EventNotification). x.team_id) q)),
  notification-Distinct actor e type ts d.1,
)

notifications_iff :
    (actor : ℕ) (e : EventRow) (type : String) (team : ℕ) (teams : List ℕ) (t : ℕ)
    → e.team_id ≡ team
    → ((n : EventNotification) × In n (notifications actor e type teams) × (n.team_id ≡ t))
      ↔ ((t ≡ team) ⊎ In t teams)
notifications_iff actor e type team teams t owned = (
  λ (n, i, same).
      let (u, j, q) = map-In (notification actor e type) n (dedup_team_ids e.team_id teams) i in
      let t_u : t ≡ u = sym same ∙ ap (λ (x : EventNotification). x.team_id) q in
      rw (← owned) ((dedup_team_ids_iff e.team_id teams t).0 (rw t_u j)),
  λ either. (
    notification actor e type t,
    In-map (notification actor e type) t (dedup_team_ids e.team_id teams)
        ((dedup_team_ids_iff e.team_id teams t).1 (rw owned either)),
    refl,
  ),
)

-- When CreateEvent succeeds, the service has seen that the caller has "write" on events in every further
-- team that the body names; the event that is returned stands in the table, on the day of the body and
-- owned by the team; and the owning team and the further teams get one notification each, and no other
-- team gets one. This holds for a single event and for a series.
pub create_announced :
    (seen db : Db) (s : Tables) (series_key : ℕ) (keys : ℕ → ℕ) (team caller : ℕ)
    (body : CreateEventBody) (e : EventRow) (sent : List EventNotification) (s' : Tables)
    → create seen db s series_key keys team caller body ≡ ok (e, sent, s')
    → ((t : ℕ)
        → In t (or_default body.cross_team_ids [])
        → (user_permissions seen t caller).events ≡ "write")
      × In e s'.events
      × (e.date ≡ body.date)
      × (e.team_id ≡ team)
      × Distinct (λ n. n.team_id) sent
      × ((t : ℕ)
          → ((n : EventNotification) × In n sent × (n.team_id ≡ t))
            ↔ ((t ≡ team) ⊎ In t (or_default body.cross_team_ids [])))
unfolding create
create_announced seen db s series_key keys team caller body e sent s' h =
    let recurring = or_default body.recurring false in
    let weeks = or_default body.repeat_weeks 1 in
    let teams = or_default body.cross_team_ids [] in
    let (_, h₁) =
      >>-eq-ok (check_multi_day recurring body.date body.multi_day_end_date) _ (e, sent, s') h in
    let (repeat_end, _, h₂) =
      >>=-eq-ok (repeat_end_date_of recurring body.date body.end_date weeks) _ (e, sent, s') h₁ in
    let (_, h₃) =
      >>-eq-ok (validate_nominated_roles_in_tx seen team (or_default body.nominated_role_ids [])) _
        (e, sent, s') h₂ in
    let (allowed, h₄) = >>-eq-ok (validate_cross_team_ids seen caller teams) _ (e, sent, s') h₃ in
    let params = params_of body recurring weeks repeat_end in
    let (made, made_rows, last) =
      >>=-eq-ok (create_rows db s series_key keys team params) _ (e, sent, s') h₄ in
    let (there, day, owned) = create_rows-InTable db s series_key keys team params made made_rows in
    let result : EventRow × List EventNotification × Tables =
      (made.0, notifications caller made.0 "event_created" teams, made.1) in
    let same = ok-injective result (e, sent, s') last in
    let rows = ap (λ (x : EventRow × List EventNotification × Tables). x.1) same in
    let row = ap (λ (x : EventRow × List EventNotification × Tables). x.0) same in
    let tables = ap (λ (x : EventRow × List EventNotification × Tables). x.2) same in
    (
      λ t i. validate_cross_team_ids-ok seen caller teams t allowed i,
      subst (λ x. In x s'.events) (sym row)
          (subst (λ (x : Tables). In made.0 x.events) (sym tables) there),
      ap (λ (x : EventRow). x.date) row ∙ day,
      ap (λ (x : EventRow). x.team_id) row ∙ owned,
      subst (Distinct (λ n. n.team_id)) (sym rows) (
          notification-Distinct caller made.0 "event_created" (dedup_team_ids made.0.team_id teams)
            (dedup_team_ids-Distinct made.0.team_id teams)),
      λ t.
          subst
            (λ ns.
              ((n : EventNotification) × In n ns × (n.team_id ≡ t)) ↔ ((t ≡ team) ⊎ In t teams))
            (sym rows) (notifications_iff caller made.0 "event_created" team teams t owned),
    )
