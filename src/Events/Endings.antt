-- ===== src/Events/Endings.antt =====
-- SetStatus and DeleteEvent of backend/internal/events/repository.go: what each keeps.
use team_manager.Base.{
  ℕ, ◌≡◌, ◌∙◌, refl, sym, ap, subst, inl, inr, Bool, ◌&&◌, String, str_eq, Option, none, some, find,
  ◌==◌, if◌then◌else◌, Bool-cases, ok, >>-eq-ok, >>=-eq-ok, ok-injective, or_fail, reject_if,
}
use team_manager.Events.Store.{EventRow, Tables}
use team_manager.Events.Creation.{Planned, no_rows}
use team_manager.Events.Changes.{update_events, is_owned, remaining}
use team_manager.Events.Removals.{
  with_status, cascade_status, is_reachable, series_of, set_status, delete_series_remainder,
  delete_event, delete_of,
}
use team_manager.Events.WellPlanned.{
  WellPlanned, delete_events-WellPlanned, drop_series-WellPlanned,
}
use team_manager.Events.Planning.{update_events-WellPlanned}

status-WellPlanned :
    (p : EventRow → Bool) (status : String) (s s' : Tables)
    → update_events p (with_status status) s ≡ ok s'
    → WellPlanned s
    → WellPlanned s'
status-WellPlanned p status s s' h w =
    update_events-WellPlanned p (with_status status) s s'
      (record { id = λ e. refl; team = λ e. refl; series = λ e. refl })
      (λ e k i q. (w.event e i).single_day k) h w

abbrev pub cascaded : ℕ → ℕ → ℕ → String → String → Tables → Planned Tables
cascaded today event team status scope s =
    if str_eq scope "series"
    then cascade_status today team status (series_of (find (is_reachable s event team) s.events)) s
    else ok s

-- The steps of a successful SetStatus.
pub set_status-runs :
    (today : ℕ) (s : Tables) (event team : ℕ) (status scope : String) (e : EventRow) (s' : Tables)
    → set_status today s event team status scope ≡ ok (e, s')
    → (s₁ : Tables) × (cascaded today event team status scope s ≡ ok s₁)
      × (update_events (is_reachable s₁ event team) (with_status status) s₁ ≡ ok s')
unfolding set_status
set_status-runs today s event team status scope e s' h =
    let (s₁, first, h₁) = >>=-eq-ok (cascaded today event team status scope s) _ (e, s') h in
    let (old, _, h₂) =
      >>=-eq-ok (or_fail (find (is_reachable s₁ event team) s₁.events) no_rows) _ (e, s') h₁ in
    let (s₂, updated, last) =
      >>=-eq-ok (update_events (is_reachable s₁ event team) (with_status status) s₁) _ (e, s') h₂ in
    (
      s₁,
      first,
      updated ∙ ap (λ (x : EventRow × Tables). ok x.1) (sym (ok-injective _ (e, s') last)),
    )

pub set_status-WellPlanned :
    (today : ℕ) (s : Tables) (event team : ℕ) (status scope : String) (e : EventRow) (s' : Tables)
    → set_status today s event team status scope ≡ ok (e, s')
    → WellPlanned s
    → WellPlanned s'
set_status-WellPlanned today s event team status scope e s' h w =
    let (s₁, first, updated) = set_status-runs today s event team status scope e s' h in
    status-WellPlanned (is_reachable s₁ event team) status s₁ s' updated
      (elim (Bool-cases (str_eq scope "series")) [
        | inl q ↦ go (series_of (find (is_reachable s event team) s.events)) s₁ (rw q at first)
        | inr q ↦ subst WellPlanned (ok-injective s₁ s (sym (rw q at first))) w
      ])
  where
    go :
        (o : Option ℕ) (s₁ : Tables) → cascade_status today team status o s ≡ ok s₁ → WellPlanned s₁
    go none s₁ q = subst WellPlanned (ok-injective s₁ s (sym q)) w
    go (some series) s₁ q = status-WellPlanned _ status s s₁ q w

pub delete_event-WellPlanned :
    (today : ℕ) (s : Tables) (event team : ℕ) (scope : String) (s' : Tables)
    → delete_event today s event team scope ≡ ok s'
    → WellPlanned s
    → WellPlanned s'
unfolding delete_event delete_series_remainder
delete_event-WellPlanned today s event team scope s' h w = go _ h
  where
    go : (o : Option ℕ) → delete_of today event team o s ≡ ok s' → WellPlanned s'
    go none q =
        let (_, last) = >>-eq-ok (reject_if _ no_rows) _ s' q in
        subst WellPlanned (ok-injective s' _ (sym last))
          (delete_events-WellPlanned (is_owned event team) s w)
    go (some series) q = subst WellPlanned (ok-injective s' _ (sym q)) (
        drop_series-WellPlanned series _ (
          delete_events-WellPlanned (is_owned event team) _
            (delete_events-WellPlanned (λ x. remaining today series x && x.team_id == team) s w)))
