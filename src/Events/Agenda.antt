-- ===== src/Events/Agenda.antt =====
-- UpdateEvent of backend/internal/events/repository.go: what it keeps.
use team_manager.Base.{
  ℕ, ◌≡◌, ◌∙◌, sym, ap, subst, inl, inr, true, ◌||◌, String, str_eq, [], ◌∷◌, none, some, In, any,
  update, In-update, find, find-In, if◌then◌else◌, Bool-cases, contains, arith, Distinct-eq, ok,
  ◌>>=◌, >>-eq-ok, >>=-eq-ok, ok-injective, is_some, or_fail, or_fail-ok,
}
use team_manager.Roster.Db.{Db}
use team_manager.Events.Store.{EventRow, Tables}
use team_manager.Events.Creation.{
  Planned, no_rows, validate_nominated_roles_in_tx, validate_cross_team_ids_in_tx,
}
use team_manager.Events.Changes.{
  UpdateEventParams, build_event_update_sets, update_events, is_owned, retarget,
  replace_event_teams, update_series, apply_series_scoped_update, write_or_read_single_event,
  update_event, validate_given,
}
use team_manager.Events.WellPlanned.{
  WellPlanned, is_series_of, update_events-ok, replace_event_teams-WellPlanned,
}
use team_manager.Events.Planning.{
  update_events-WellPlanned, build_event_update_sets-SameEvent, update_series-WellPlanned,
  retarget-WellPlanned, is_some-false,
}

abbrev pub scoped : ℕ → ℕ → ℕ → UpdateEventParams → String → Tables → Planned Tables
scoped today event team params scope s =
    if str_eq scope "series" || is_some params.end_date
    then apply_series_scoped_update today event team scope params s
    else ok s

-- The UPDATE of the addressed event found it.
write_or_read_single_event-ok :
    (event team : ℕ) (params : UpdateEventParams) (s : Tables) (r : EventRow × Tables)
    → write_or_read_single_event event team params s ≡ ok r
    → (old : EventRow) × (find (is_owned event team) s.events ≡ some old)
      × (update_events (is_owned event team) (build_event_update_sets params) s ≡ ok r.1)
unfolding write_or_read_single_event
write_or_read_single_event-ok event team params s r h =
    let (old, found, h₁) =
      >>=-eq-ok (or_fail (find (is_owned event team) s.events) no_rows) _ r h in
    let (s₂, updated, same) =
      >>=-eq-ok (update_events (is_owned event team) (build_event_update_sets params) s) _ r h₁ in
    let row = ok-injective (build_event_update_sets params old, s₂) r same in
    (
      old,
      or_fail-ok (find (is_owned event team) s.events) no_rows old found,
      updated ∙ ap (λ (x : EventRow × Tables). ok x.1) (sym row),
    )

-- The steps of a successful UpdateEvent.
pub update_event-runs :
    (today : ℕ) (db : Db) (s : Tables) (event team : ℕ) (params : UpdateEventParams)
    (scope : String) (e : EventRow) (s' : Tables)
    → update_event today db s event team params scope ≡ ok (e, s')
    → (s₁ : Tables) × (s₂ : Tables) × (old : EventRow) × (scoped today event team params scope s
        ≡ ok s₁)
      × (find (is_owned event team) s₁.events ≡ some old)
      × (update_events (is_owned event team) (build_event_update_sets params) s₁ ≡ ok s₂)
      × (s' ≡ retarget params.cross_team_ids (replace_event_teams (event ∷ []) team) s₂)
unfolding update_event
update_event-runs today db s event team params scope e s' h =
    let (_, h₁) =
      >>-eq-ok (validate_given params.nominated_role_ids (validate_nominated_roles_in_tx db team)) _
        (e, s') h in
    let (_, h₂) =
      >>-eq-ok (validate_given params.cross_team_ids (validate_cross_team_ids_in_tx db)) _ (e, s')
        h₁ in
    let (s₁, first, h₃) = >>=-eq-ok (scoped today event team params scope s) _ (e, s') h₂ in
    let (r, written, last) =
      >>=-eq-ok (write_or_read_single_event event team params s₁) _ (e, s') h₃ in
    let (old, found, updated) = write_or_read_single_event-ok event team params s₁ r written in
    (
      s₁,
      r.1,
      old,
      first,
      found,
      updated,
      ap (λ (x : EventRow × Tables). x.1) (ok-injective _ (e, s') last),
    )

pub owned-eq :
    (event team : ℕ) (e : EventRow)
    → is_owned event team e ≡ true
    → (e.id ≡ event) × (e.team_id ≡ team)
owned-eq event team e h = (ground (arith, h), ground (arith, h))

-- The first part of UpdateEvent, and that no occurrence of a series is then given an end date.
pub scoped-WellPlanned :
    (today event team : ℕ) (params : UpdateEventParams) (scope : String) (s s₁ : Tables)
    → scoped today event team params scope s ≡ ok s₁
    → WellPlanned s
    → WellPlanned s₁
      × ((e : EventRow) (k : ℕ)
          → In e s₁.events
          → is_owned event team e ≡ true
          → e.series_id ≡ some k
          → params.end_date ≡ none)
unfolding apply_series_scoped_update
scoped-WellPlanned today event team params scope s s₁ h w =
    elim (Bool-cases (str_eq scope "series" || is_some params.end_date)) [
      | inl e ↦ go (rw e at h)
      | inr e ↦ (
        subst WellPlanned (ok-injective s₁ s (sym (rw e at h))) w,
        λ x k i q r. is_some-false params.end_date (ground (arith, e)),
      )
    ]
  where
    go :
        (or_fail (find (is_owned event team) s.events) no_rows >>= λ x.
        update_series today team scope params x.series_id s)
          ≡ ok s₁
        → WellPlanned s₁
          × ((e : EventRow) (k : ℕ)
              → In e s₁.events
              → is_owned event team e ≡ true
              → e.series_id ≡ some k
              → params.end_date ≡ none)
    go q =
        let (x, found, rest) =
          >>=-eq-ok (or_fail (find (is_owned event team) s.events) no_rows) _ s₁ q in
        let (i, owned) = find-In (is_owned event team) x s.events (or_fail-ok _ no_rows x found) in
        let (of_event, of_team) = owned-eq event team x owned in
        let (w₁, either) =
          update_series-WellPlanned today team scope params x.series_id s s₁
            (λ k r.
              subst (λ t. any (is_series_of k t) s.series ≡ true) of_team
                ((w.event x i).in_series k r))
            rest w in
        (
          w₁,
          λ e k j o r. elim either [
            | inl (none_of, same) ↦
                let j' : In e s.events = subst (λ (z : Tables). In e z.events) same j in
                let (e_event, _) = owned-eq event team e o in
                let eq = Distinct-eq (λ z. z.id) e x s.events w.ids j' i (e_event ∙ sym of_event) in
                absurd (cc (eq, r, none_of))
            | inr p ↦ p
          ],
        )

pub new_end_date-none :
    (params : UpdateEventParams) (e : EventRow)
    → params.end_date ≡ none
    → e.end_date ≡ none
    → (build_event_update_sets params e).end_date ≡ none
unfolding build_event_update_sets
new_end_date-none params e h q = elim (Bool-cases params.clear_end_date) [
  | inl c ↦ rw c
  | inr c ↦ rw (c, h, q)
]

-- The event with the id is one of the team.
pub addressed_team :
    (event team : ℕ) (params : UpdateEventParams) (s s' : Tables) (old : EventRow)
    → find (is_owned event team) s.events ≡ some old
    → update_events (is_owned event team) (build_event_update_sets params) s ≡ ok s'
    → WellPlanned s'
    → (e : EventRow) → In e s'.events
    → contains (event ∷ []) e.id ≡ true
    → e.team_id ≡ team
addressed_team event team params s s' old found updated w e i h =
    let f = build_event_update_sets params in
    let same = build_event_update_sets-SameEvent params in
    let (written, _) = update_events-ok (is_owned event team) f s s' updated in
    let (j, owned) = find-In (is_owned event team) old s.events found in
    let (of_event, of_team) = owned-eq event team old owned in
    let there : In (f old) s'.events =
      subst (λ (z : Tables). In (f old) z.events) (sym written)
        (subst (λ b. In (if b then f old else old) (update (is_owned event team) f s.events)) owned
          (In-update (is_owned event team) f old s.events j)) in
    let e_event : e.id ≡ event = ground (arith, h) in
    let eq =
      Distinct-eq (λ x. x.id) e (f old) s'.events w.ids i there
        (e_event ∙ sym (same.id old ∙ of_event)) in
    ap (λ (x : EventRow). x.team_id) eq ∙ same.team old ∙ of_team

pub update_event-WellPlanned :
    (today : ℕ) (db : Db) (s : Tables) (event team : ℕ) (params : UpdateEventParams)
    (scope : String) (e : EventRow) (s' : Tables)
    → update_event today db s event team params scope ≡ ok (e, s')
    → WellPlanned s
    → WellPlanned s'
update_event-WellPlanned today db s event team params scope e s' h w =
    let (s₁, s₂, old, first, found, updated, last) =
      update_event-runs today db s event team params scope e s' h in
    let (w₁, free) = scoped-WellPlanned today event team params scope s s₁ first w in
    let w₂ =
      update_events-WellPlanned (is_owned event team) (build_event_update_sets params) s₁ s₂
        (build_event_update_sets-SameEvent params)
        (λ x k i o r. new_end_date-none params x (free x k i o r) ((w₁.event x i).single_day k r))
        updated w₁ in
    subst WellPlanned (sym last) (
      retarget-WellPlanned params.cross_team_ids (replace_event_teams (event ∷ []) team) s₂
        (λ ids.
          replace_event_teams-WellPlanned (event ∷ []) team ids s₂
            (addressed_team event team params s₁ s₂ old found updated w₂) w₂)
        w₂)
