-- ===== src/Events/Planning.antt =====
-- The operations on events of backend/internal/events/repository.go, one after another: what the tables
-- keep.
use team_manager.Base.{
  ℕ, ◌≡◌, ◌∙◌, ◌⊎◌, refl, sym, ap, subst, inl, inr, Bool, true, false, String, str_eq, List, map,
  Option, none, some, In, any, any_witness, select, select-In, update, map-In, ==_iff, Bool-cases,
  contains, contains→In, arith, Distinct-eq, ok, err, ◌>>=◌, >>-eq-ok, >>=-eq-ok, ok-injective,
  is_some, reject_if, reject_if-ok,
}
use team_manager.Events.Store.{EventRow, EventSeriesRow, Tables}
use team_manager.Events.Creation.{Planned, violation, multi_day_end_date_on_series_event}
use team_manager.Events.Changes.{
  UpdateEventParams, build_event_update_sets, series_params, update_events, is_key, of_series,
  remaining, held, exclude, exclude_held, update_series_events, replace_event_teams_for_series,
  retarget, update_series,
}
use team_manager.Events.WellPlanned.{
  WellPlanned, SameEvent, is_series_of, update_events-ok, update-WellPlanned,
  replace_event_teams-WellPlanned,
}

pub update_events-WellPlanned :
    (p : EventRow → Bool) (f : EventRow → EventRow) (s s' : Tables)
    → SameEvent f
    → ((e : EventRow) (k : ℕ)
        → In e s.events
        → p e ≡ true
        → e.series_id ≡ some k
        → (f e).end_date ≡ none)
    → update_events p f s ≡ ok s'
    → WellPlanned s
    → WellPlanned s'
update_events-WellPlanned p f s s' same single h w =
    let (written, valid) = update_events-ok p f s s' h in
    subst WellPlanned (sym written) (update-WellPlanned p f s same valid single w)

pub build_event_update_sets-SameEvent :
    (params : UpdateEventParams) → SameEvent (build_event_update_sets params)
unfolding build_event_update_sets
build_event_update_sets-SameEvent params = record {
  id = λ e. refl;
  team = λ e. refl;
  series = λ e. refl;
}

exclude-valid : (x : Option Bool) (e : EventRow) → violation (exclude x e) ≡ violation e
unfolding violation
exclude-valid x e = refl

-- An update of the rest of a series writes its remaining rows, then the flag of those that were held.
pub update_series_events-ok :
    (today series : ℕ) (params : UpdateEventParams) (s s' : Tables)
    → update_series_events today series params s ≡ ok s'
    → (s₁ : Tables) × (update_events
          (remaining today series)
          (build_event_update_sets (series_params params))
          s
        ≡ ok s₁)
      × (s' ≡ record s₁ {
        events = update (held today series) (exclude params.exclude_from_stats) s₁.events;
      })
unfolding update_series_events
update_series_events-ok today series params s s' h =
    go (update_events (remaining today series) (build_event_update_sets (series_params params)) s) h
  where
    go :
        (r : Planned Tables)
        → exclude_held today series params.exclude_from_stats r ≡ ok s'
        → (s₁ : Tables) × (r ≡ ok s₁)
          × (s' ≡ record s₁ {
            events = update (held today series) (exclude params.exclude_from_stats) s₁.events;
          })
    go (ok s₁) q = (s₁, refl, cc)
    go (err e) q = cc

series_params-end_date :
    (params : UpdateEventParams) (e : EventRow)
    → (build_event_update_sets (series_params params) e).end_date ≡ e.end_date
unfolding build_event_update_sets
series_params-end_date params e = refl

pub of_series-id :
    (series : ℕ) (e : EventRow) → of_series series e ≡ true → e.series_id ≡ some series
of_series-id series e h = go e.series_id h
  where
    go : (o : Option ℕ) → is_key o series ≡ true → o ≡ some series
    go none q = cc
    go (some j) q = ap some ((==_iff j series).0 q)

-- A series has one owning team.
pub series_team :
    (k t t' : ℕ) (s : Tables)
    → WellPlanned s
    → any (is_series_of k t) s.series ≡ true
    → any (is_series_of k t') s.series ≡ true
    → t ≡ t'
series_team k t t' s w h h' =
    let (x, i, q) = any_witness (is_series_of k t) s.series h in
    let (y, j, r) = any_witness (is_series_of k t') s.series h' in
    let same = Distinct-eq (λ z. z.id) x y s.series w.series_ids i j (ground (arith, q, r)) in
    ground (arith, q, r, ap (λ (z : EventSeriesRow). z.team_id) same)

pub update_series_events-WellPlanned :
    (today series : ℕ) (params : UpdateEventParams) (s s' : Tables)
    → update_series_events today series params s ≡ ok s'
    → WellPlanned s
    → WellPlanned s' × (s'.series ≡ s.series)
update_series_events-WellPlanned today series params s s' h w =
    let (s₁, updated, excluded) = update_series_events-ok today series params s s' h in
    let w₁ =
      update_events-WellPlanned (remaining today series)
        (build_event_update_sets (series_params params)) s s₁
        (build_event_update_sets-SameEvent (series_params params))
        (λ e k i q r. series_params-end_date params e ∙ (w.event e i).single_day k r) updated w in
    (
      subst WellPlanned (sym excluded) (
          update-WellPlanned (held today series) (exclude params.exclude_from_stats) s₁
            (record { id = λ e. refl; team = λ e. refl; series = λ e. refl })
            (λ e i q. exclude-valid params.exclude_from_stats e ∙ (w₁.event e i).valid)
            (λ e k i q. (w₁.event e i).single_day k) w₁),
      ap (λ (x : Tables). x.series) excluded
          ∙ ap (λ (x : Tables). x.series)
              (update_events-ok (remaining today series)
                (build_event_update_sets (series_params params)) s s₁ updated).0,
    )

series_events_owned :
    (series team : ℕ) (s : Tables)
    → WellPlanned s
    → any (is_series_of series team) s.series ≡ true
    → (e : EventRow) → In e s.events
    → contains (map (λ x. x.id) (select (of_series series) s.events)) e.id ≡ true
    → e.team_id ≡ team
series_events_owned series team s w owner e i h =
    let (x, j, q) =
      map-In (λ x. x.id) e.id (select (of_series series) s.events)
        (contains→In (map (λ x. x.id) (select (of_series series) s.events)) e.id h) in
    let (k, of) = select-In (of_series series) x s.events j in
    let same = Distinct-eq (λ x. x.id) e x s.events w.ids i k q in
    let key = of_series-id series e (rw same of) in
    series_team series e.team_id team s w ((w.event e i).in_series series key) owner

pub retarget-WellPlanned :
    (o : Option (List ℕ)) (f : List ℕ → Tables → Tables) (s : Tables)
    → ((ids : List ℕ) → WellPlanned (f ids s))
    → WellPlanned s
    → WellPlanned (retarget o f s)
retarget-WellPlanned none f s replaced w = w
retarget-WellPlanned (some ids) f s replaced w = replaced ids

pub is_some-false : {A : Type 0} (o : Option A) → is_some o ≡ false → o ≡ none
is_some-false none h = refl
is_some-false (some a) h = cc

-- What an update by series keeps, and that a patch with an end date is not applied to an occurrence.
pub update_series-WellPlanned :
    (today team : ℕ) (scope : String) (params : UpdateEventParams) (o : Option ℕ) (s s' : Tables)
    → ((k : ℕ) → o ≡ some k → any (is_series_of k team) s.series ≡ true)
    → update_series today team scope params o s ≡ ok s'
    → WellPlanned s
    → WellPlanned s' × (((o ≡ none) × (s' ≡ s)) ⊎ (params.end_date ≡ none))
unfolding update_series replace_event_teams_for_series
update_series-WellPlanned today team scope params none s s' owner h w =
    (subst WellPlanned (ok-injective s' s (sym h)) w, inl (refl, ok-injective s s' h))
update_series-WellPlanned today team scope params (some series) s s' owner h w =
    let (single, rest) =
      >>-eq-ok (reject_if (is_some params.end_date) multi_day_end_date_on_series_event) _ s' h in
    (
      elim (Bool-cases (str_eq scope "series")) [
        | inl e ↦ go (rw e at rest)
        | inr e ↦ subst WellPlanned (ok-injective s' s (sym (rw e at rest))) w
      ],
      inr (is_some-false params.end_date (reject_if-ok _ _ single)),
    )
  where
    go :
        (update_series_events today series params s >>= λ x.
        ok (retarget params.cross_team_ids (replace_event_teams_for_series series team) x))
          ≡ ok s'
        → WellPlanned s'
    go q =
        let (s₁, updated, last) =
          >>=-eq-ok (update_series_events today series params s)
            (λ x.
              ok (retarget params.cross_team_ids (replace_event_teams_for_series series team) x))
            s' q in
        let (w₁, same) = update_series_events-WellPlanned today series params s s₁ updated w in
        let owned =
          series_events_owned series team s₁ w₁
            (ap (any (is_series_of series team)) same ∙ owner series refl) in
        subst WellPlanned (ok-injective s' _ (sym last)) (
          retarget-WellPlanned params.cross_team_ids (replace_event_teams_for_series series team) s₁
            (λ ids.
              replace_event_teams-WellPlanned
                (map (λ x. x.id) (select (of_series series) s₁.events)) team ids s₁ owned w₁)
            w₁)
