-- ===== src/Events/Held.antt =====
-- What UpdateEvent of backend/internal/events/repository.go leaves of the occurrences that were held
-- before today.
use team_manager.Base.{
  ℕ, ◌<◌, ◌≡◌, ◌≢◌, ◌∙◌, refl, sym, ap, subst, inl, inr, Bool, ◌||◌, String, str_eq, List, [], ◌∷◌,
  Option, none, some, In, find, In-update, if◌then◌else◌, Bool-cases, arith, ok, ◌>>=◌, >>-eq-ok,
  >>=-eq-ok, ok-injective, or_fail, or_default, is_some, reject_if,
}
use team_manager.Roster.Db.{Db}
use team_manager.Events.Store.{EventRow, Tables}
use team_manager.Events.Creation.{Planned, no_rows, multi_day_end_date_on_series_event}
use team_manager.Events.Changes.{
  UpdateEventParams, build_event_update_sets, series_params, remaining, held, exclude,
  update_series_events, replace_event_teams, replace_event_teams_for_series, is_owned, retarget,
  update_series, apply_series_scoped_update, update_event,
}
use team_manager.Events.Planning.{update_series_events-ok}
use team_manager.Events.Agenda.{scoped, update_event-runs}
use team_manager.Events.Kept.{update_events-Kept, update_events-event_teams, past-remaining}

-- Its row is as it was but for the mark whether it counts, its responses are, and where the patch
-- names no target teams, those of all events are, too.
abbrev pub KeptButFlag : UpdateEventParams → Tables → EventRow → Tables → Type 0
KeptButFlag params s e s' =
    (x : Bool) × In (record e { exclude_from_stats = x }) s'.events
    × (params.exclude_from_stats ≡ none → x ≡ e.exclude_from_stats)
    × (s'.attendance ≡ s.attendance)
    × (params.cross_team_ids ≡ none → s'.event_teams ≡ s.event_teams)

-- New target teams that the patch names are no part of it.
retarget-KeptButFlag :
    (params : UpdateEventParams) (s : Tables) (e : EventRow) (s' : Tables)
    (f : List ℕ → Tables → Tables)
    → ((ids : List ℕ) → (f ids s').events ≡ s'.events)
    → ((ids : List ℕ) → (f ids s').attendance ≡ s'.attendance)
    → (o : Option (List ℕ)) → params.cross_team_ids ≡ o
    → KeptButFlag params s e s'
    → KeptButFlag params s e (retarget o f s')
retarget-KeptButFlag params s e s' f events attendance none named kept = kept
retarget-KeptButFlag params s e s' f events attendance (some ids) named (x, i, flag, a, teams) = (
  x,
  subst (In _) (sym (events ids)) i,
  flag,
  attendance ids ∙ a,
  λ unnamed. absurd (ground (arith, unnamed, named)),
)

update_series_events-KeptButFlag :
    (today series : ℕ) (params : UpdateEventParams) (s s' : Tables) (e : EventRow)
    → In e s.events
    → e.date < today
    → update_series_events today series params s ≡ ok s'
    → KeptButFlag params s e s'
update_series_events-KeptButFlag today series params s s' e i past h =
    let (s₁, updated, excluded) = update_series_events-ok today series params s s' h in
    let (i₁, a₁) =
      update_events-Kept (remaining today series) (build_event_update_sets (series_params params)) s
        s₁ e updated i (past-remaining today series e past) in
    let j : In (if held today series e then exclude params.exclude_from_stats e else e) s'.events =
      subst
        (λ (z : Tables).
          In (if held today series e then exclude params.exclude_from_stats e else e) z.events)
        (sym excluded)
        (In-update (held today series) (exclude params.exclude_from_stats) e s₁.events i₁) in
    let a = ap (λ (z : Tables). z.attendance) excluded ∙ a₁ in
    let teams : s'.event_teams ≡ s.event_teams =
      ap (λ (z : Tables). z.event_teams) excluded
      ∙ update_events-event_teams (remaining today series)
          (build_event_update_sets (series_params params)) s s₁ updated in
    elim (Bool-cases (held today series e)) [
      | inl c ↦ (
        or_default params.exclude_from_stats e.exclude_from_stats,
        rw c at j,
        λ q. rw q,
        a,
        λ q. teams,
      )
      | inr c ↦ (e.exclude_from_stats, rw c at j, λ q. refl, a, λ q. teams)
    ]

scoped-KeptButFlag :
    (today event team : ℕ) (params : UpdateEventParams) (scope : String) (s s' : Tables)
    (e : EventRow)
    → In e s.events
    → e.date < today
    → scoped today event team params scope s ≡ ok s'
    → KeptButFlag params s e s'
unfolding apply_series_scoped_update update_series replace_event_teams_for_series
    replace_event_teams
scoped-KeptButFlag today event team params scope s s' e i past h =
    elim (Bool-cases (str_eq scope "series" || is_some params.end_date)) [
      | inl c ↦
          let (x, _, rest) =
            >>=-eq-ok (or_fail (find (is_owned event team) s.events) no_rows)
              (λ x. update_series today team scope params x.series_id s) s' (rw c at h) in
          go x.series_id rest
      | inr c ↦ same (rw c at h)
    ]
  where
    same : ◌≡◌ {A = Planned Tables} (ok s) (ok s') → KeptButFlag params s e s'
    same q =
        let eq = ok-injective s s' q in
        (
          e.exclude_from_stats,
          subst (λ (z : Tables). In e z.events) (sym eq) i,
          λ r. refl,
          ap (λ (z : Tables). z.attendance) eq,
          λ r. ap (λ (z : Tables). z.event_teams) eq,
        )

    series :
        (k : ℕ)
        → (update_series_events today k params s >>= λ x.
            ok (retarget params.cross_team_ids (replace_event_teams_for_series k team) x))
          ≡ ok s'
        → KeptButFlag params s e s'
    series k q =
        let (s₁, updated, last) =
          >>=-eq-ok (update_series_events today k params s)
            (λ x. ok (retarget params.cross_team_ids (replace_event_teams_for_series k team) x)) s'
            q in
        subst (KeptButFlag params s e) (sym (ok-injective _ s' last)) (
          retarget-KeptButFlag params s e s₁ (replace_event_teams_for_series k team) (λ ids. refl)
            (λ ids. refl) params.cross_team_ids refl
            (update_series_events-KeptButFlag today k params s s₁ e i past updated))

    go :
        (o : Option ℕ)
        → update_series today team scope params o s ≡ ok s'
        → KeptButFlag params s e s'
    go none q = same q
    go (some k) q =
        let (_, rest) =
          >>-eq-ok (reject_if (is_some params.end_date) multi_day_end_date_on_series_event) _ s'
            q in
        elim (Bool-cases (str_eq scope "series")) [
          | inl c ↦ series k (rw c at rest)
          | inr c ↦ same (rw c at rest)
        ]

pub update_event-Kept :
    (today : ℕ) (db : Db) (s : Tables) (event team : ℕ) (params : UpdateEventParams)
    (scope : String) (r : EventRow) (s' : Tables) (e : EventRow)
    → In e s.events
    → e.date < today
    → e.id ≢ event
    → update_event today db s event team params scope ≡ ok (r, s')
    → KeptButFlag params s e s'
unfolding replace_event_teams
update_event-Kept today db s event team params scope r s' e i past other h =
    let (s₁, s₂, old, first, _, updated, last) =
      update_event-runs today db s event team params scope r s' h in
    let (x, i₁, flag, a₁, t₁) =
      scoped-KeptButFlag today event team params scope s s₁ e i past first in
    let (i₂, a₂) =
      update_events-Kept (is_owned event team) (build_event_update_sets params) s₁ s₂
        (record e { exclude_from_stats = x }) updated i₁ (ground (arith, other)) in
    subst (KeptButFlag params s e) (sym last) (
      retarget-KeptButFlag params s e s₂ (replace_event_teams (event ∷ []) team) (λ ids. refl)
        (λ ids. refl) params.cross_team_ids refl
        (
          x,
          i₂,
          flag,
          a₂ ∙ a₁,
          λ q.
              update_events-event_teams (is_owned event team) (build_event_update_sets params) s₁ s₂
                updated
              ∙ t₁ q,
        ))
