-- ===== src/Events/Owners.antt =====
-- UpdateEvent and DeleteEvent of backend/internal/events/repository.go on the events of other teams.
use team_manager.Base.{
  ℕ, ◌≡◌, ◌≢◌, ◌∙◌, refl, sym, ap, subst, inl, inr, true, false, ◌||◌, String, str_eq, [], ◌∷◌, map,
  Option, none, some, In, any, find, find-In, select, update, Bool-cases, contains, arith, ok,
  ◌>>=◌, >>-eq-ok, >>=-eq-ok, ok-injective, or_fail, or_fail-ok, is_some, reject_if,
}
use team_manager.Roster.Db.{Db}
use team_manager.Events.Store.{EventRow, Tables}
use team_manager.Events.Creation.{no_rows, multi_day_end_date_on_series_event}
use team_manager.Events.Changes.{
  UpdateEventParams, build_event_update_sets, series_params, of_series, remaining, held, exclude,
  update_series_events, replace_event_teams, replace_event_teams_for_series, is_owned, retarget,
  update_series, apply_series_scoped_update, update_event,
}
use team_manager.Events.Removals.{delete_event}
use team_manager.Events.WellPlanned.{WellPlanned, is_series_of, delete_events-spares}
use team_manager.Events.Planning.{
  update_series_events-ok, update_series_events-WellPlanned, series_team, of_series-id,
  update_events-WellPlanned, build_event_update_sets-SameEvent,
}
use team_manager.Events.Agenda.{
  scoped, update_event-runs, scoped-WellPlanned, new_end_date-none, addressed_team, owned-eq,
}
use team_manager.Events.Kept.{Kept, delete_event-spares}
use team_manager.Events.Untouched.{
  Untouched, then_Untouched, update-Untouched, update_events-Untouched,
  replace_event_teams-Untouched, retarget-Untouched,
}

-- An event of another team is no occurrence of a series of the team.
not_of_series :
    (series team : ℕ) (s : Tables) (e : EventRow)
    → WellPlanned s
    → any (is_series_of series team) s.series ≡ true
    → In e s.events
    → e.team_id ≢ team
    → of_series series e ≡ false
not_of_series series team s e w owner i other = elim (Bool-cases (of_series series e)) [
  | inl q ↦ absurd (
      other (
        series_team series e.team_id team s w
          ((w.event e i).in_series series (of_series-id series e q)) owner))
  | inr q ↦ q
]

update_series_events-Untouched :
    (today series team : ℕ) (params : UpdateEventParams) (s s' : Tables) (e : EventRow)
    → WellPlanned s
    → any (is_series_of series team) s.series ≡ true
    → In e s.events
    → e.team_id ≢ team
    → update_series_events today series params s ≡ ok s'
    → Untouched s e s'
update_series_events-Untouched today series team params s s' e w owner i other h =
    let (s₁, updated, excluded) = update_series_events-ok today series params s s' h in
    let out = not_of_series series team s e w owner i other in
    let s₂ = record s₁ {
      events = update (held today series) (exclude params.exclude_from_stats) s₁.events;
    } in
    let u =
      update_events-Untouched (remaining today series)
        (build_event_update_sets (series_params params)) s s₁ e updated i (ground (arith, out)) in
    subst (Untouched s e) (sym excluded) (
      then_Untouched s s₁ s₂ e u (
        update-Untouched (held today series) (exclude params.exclude_from_stats) s₁ e u.0
          (ground (arith, out))))

update_series-Untouched :
    (today team : ℕ) (scope : String) (params : UpdateEventParams) (o : Option ℕ) (s s' : Tables)
    (e : EventRow)
    → WellPlanned s
    → ((k : ℕ) → o ≡ some k → any (is_series_of k team) s.series ≡ true)
    → In e s.events
    → e.team_id ≢ team
    → update_series today team scope params o s ≡ ok s'
    → Untouched s e s'
unfolding update_series replace_event_teams_for_series
update_series-Untouched today team scope params none s s' e w owner i other h =
    subst (Untouched s e) (sym (ok-injective s s' h)) (i, λ t. refl)
update_series-Untouched today team scope params (some series) s s' e w owner i other h =
    let (_, rest) =
      >>-eq-ok (reject_if (is_some params.end_date) multi_day_end_date_on_series_event) _ s' h in
    elim (Bool-cases (str_eq scope "series")) [
      | inl c ↦ go (rw c at rest)
      | inr c ↦ subst (Untouched s e) (sym (ok-injective s s' (rw c at rest))) (i, λ t. refl)
    ]
  where
    go :
        (update_series_events today series params s >>= λ x.
        ok (retarget params.cross_team_ids (replace_event_teams_for_series series team) x))
          ≡ ok s'
        → Untouched s e s'
    go q =
        let (s₁, updated, last) =
          >>=-eq-ok (update_series_events today series params s)
            (λ x.
              ok (retarget params.cross_team_ids (replace_event_teams_for_series series team) x))
            s' q in
        let (w₁, same) = update_series_events-WellPlanned today series params s s₁ updated w in
        let u =
          update_series_events-Untouched today series team params s s₁ e w (owner series refl) i
            other updated in
        let out =
          not_of_series series team s₁ e w₁
            (ap (any (is_series_of series team)) same ∙ owner series refl) u.0 other in
        subst (Untouched s e) (sym (ok-injective _ s' last)) (
          then_Untouched s s₁
            (retarget params.cross_team_ids (replace_event_teams_for_series series team) s₁) e u
            (retarget-Untouched params.cross_team_ids (replace_event_teams_for_series series team)
              s₁ e u.0
              (λ ids.
                replace_event_teams-Untouched
                  (map (λ x. x.id) (select (of_series series) s₁.events)) team ids s₁ e u.0
                  (delete_events-spares (of_series series) s₁ e w₁.ids u.0 out))))

scoped-Untouched :
    (today event team : ℕ) (params : UpdateEventParams) (scope : String) (s s' : Tables)
    (e : EventRow)
    → WellPlanned s
    → In e s.events
    → e.team_id ≢ team
    → scoped today event team params scope s ≡ ok s'
    → Untouched s e s'
unfolding apply_series_scoped_update
scoped-Untouched today event team params scope s s' e w i other h =
    elim (Bool-cases (str_eq scope "series" || is_some params.end_date)) [
      | inl c ↦
          let (x, found, rest) =
            >>=-eq-ok (or_fail (find (is_owned event team) s.events) no_rows)
              (λ x. update_series today team scope params x.series_id s) s' (rw c at h) in
          let (j, owned) =
            find-In (is_owned event team) x s.events (or_fail-ok _ no_rows x found) in
          update_series-Untouched today team scope params x.series_id s s' e w
            (λ k r.
              subst (λ t. any (is_series_of k t) s.series ≡ true) (owned-eq event team x owned).1
                ((w.event x j).in_series k r))
            i other rest
      | inr c ↦ subst (Untouched s e) (sym (ok-injective s s' (rw c at h))) (i, λ t. refl)
    ]

update_event-Untouched :
    (today : ℕ) (db : Db) (s : Tables) (event team : ℕ) (params : UpdateEventParams)
    (scope : String) (r : EventRow) (s' : Tables) (e : EventRow)
    → WellPlanned s
    → In e s.events
    → e.team_id ≢ team
    → update_event today db s event team params scope ≡ ok (r, s')
    → Untouched s e s'
update_event-Untouched today db s event team params scope r s' e w i other h =
    let (s₁, s₂, old, first, found, updated, last) =
      update_event-runs today db s event team params scope r s' h in
    let (w₁, free) = scoped-WellPlanned today event team params scope s s₁ first w in
    let u₁ = scoped-Untouched today event team params scope s s₁ e w i other first in
    let u₂ =
      update_events-Untouched (is_owned event team) (build_event_update_sets params) s₁ s₂ e updated
        u₁.0 (ground (arith, other)) in
    let w₂ =
      update_events-WellPlanned (is_owned event team) (build_event_update_sets params) s₁ s₂
        (build_event_update_sets-SameEvent params)
        (λ x k j o r. new_end_date-none params x (free x k j o r) ((w₁.event x j).single_day k r))
        updated w₁ in
    let not_addressed : contains (event ∷ []) e.id ≡ false =
      elim (Bool-cases (contains (event ∷ []) e.id)) [
        | inl q ↦
            absurd (other (addressed_team event team params s₁ s₂ old found updated w₂ e u₂.0 q))
        | inr q ↦ q
      ] in
    subst (Untouched s e) (sym last) (
      then_Untouched s s₂
        (retarget params.cross_team_ids (replace_event_teams (event ∷ []) team) s₂) e
        (then_Untouched s s₁ s₂ e u₁ u₂)
        (retarget-Untouched params.cross_team_ids (replace_event_teams (event ∷ []) team) s₂ e u₂.0
          (λ ids. replace_event_teams-Untouched (event ∷ []) team ids s₂ e u₂.0 not_addressed)))

-- A team changes and deletes its own events only: an event of another team stands after an UpdateEvent
-- as it was and is for the same teams, also where it is shared with the team or is addressed, and it
-- survives a DeleteEvent with its responses. The tables are well planned, which every reachable table
-- is.
pub other_teams-Kept :
    (today : ℕ) (s : Tables) (event team : ℕ) (scope : String) (e : EventRow)
    → WellPlanned s
    → In e s.events
    → e.team_id ≢ team
    → ((db : Db) (params : UpdateEventParams) (r : EventRow) (s' : Tables)
        → update_event today db s event team params scope ≡ ok (r, s')
        → Untouched s e s')
      × ((s' : Tables) → delete_event today s event team scope ≡ ok s' → Kept s e s')
other_teams-Kept today s event team scope e w i other = (
  λ db params r s' h. update_event-Untouched today db s event team params scope r s' e w i other h,
  λ s' h.
      delete_event-spares today s event team scope s' e w i (ground (arith, other))
        (λ k. ground (arith, other)) h,
)
