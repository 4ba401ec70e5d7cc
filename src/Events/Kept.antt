-- ===== src/Events/Kept.antt =====
-- What SetStatus and DeleteEvent of backend/internal/events/repository.go leave of the occurrences
-- that were held before today.
use team_manager.Base.{
  ℕ, ◌<◌, ◌≡◌, ◌≢◌, ◌∙◌, sym, ap, subst, inl, inr, Bool, false, ◌&&◌, String, str_eq, map, Option,
  none, some, In, find, select, update, In-update, In-delete, ◌==◌, if◌then◌else◌, Bool-cases,
  contains, arith, ok, >>-eq-ok, ok-injective, reject_if,
}
use team_manager.Events.Store.{EventRow, AttendanceRow, Tables}
use team_manager.Events.Creation.{no_rows}
use team_manager.Events.Changes.{update_events, remaining, is_owned}
use team_manager.Events.Removals.{
  with_status, cascade_status, is_reachable, series_of, set_status, delete_events, drop_series,
  delete_series_remainder, delete_event, delete_of,
}
use team_manager.Events.WellPlanned.{
  WellPlanned, update_events-ok, delete_events-spares, delete_events-WellPlanned,
}
use team_manager.Events.Endings.{cascaded, set_status-runs}

-- The event stands in the table with its responses.
abbrev pub Kept : Tables → EventRow → Tables → Type 0
Kept s e s' =
    In e s'.events
    × ((a : AttendanceRow) → In a s.attendance → a.event_id ≡ e.id → In a s'.attendance)

delete_events-Kept :
    (p : EventRow → Bool) (s : Tables) (e : EventRow)
    → WellPlanned s
    → In e s.events
    → p e ≡ false
    → Kept s e (delete_events p s)
unfolding delete_events
delete_events-Kept p s e w i out = (
  In-delete p e s.events i out,
  λ a j of_e.
      In-delete (λ x. contains (map (λ y. y.id) (select p s.events)) x.event_id) a s.attendance j
        (rw of_e (delete_events-spares p s e w.ids i out)),
)

-- The responses are left, and so are the events outside the update.
pub update_events-Kept :
    (p : EventRow → Bool) (f : EventRow → EventRow) (s s' : Tables) (e : EventRow)
    → update_events p f s ≡ ok s'
    → In e s.events
    → p e ≡ false
    → In e s'.events × (s'.attendance ≡ s.attendance)
update_events-Kept p f s s' e h i out =
    let (written, _) = update_events-ok p f s s' h in
    (
      subst (λ (z : Tables). In e z.events) (sym written)
          (subst (λ b. In (if b then f e else e) (update p f s.events)) out
            (In-update p f e s.events i)),
      ap (λ (z : Tables). z.attendance) written,
    )

pub update_events-event_teams :
    (p : EventRow → Bool) (f : EventRow → EventRow) (s s' : Tables)
    → update_events p f s ≡ ok s'
    → s'.event_teams ≡ s.event_teams
update_events-event_teams p f s s' h =
    ap (λ (z : Tables). z.event_teams) (update_events-ok p f s s' h).0

pub past-remaining :
    (today series : ℕ) (e : EventRow) → e.date < today → remaining today series e ≡ false
past-remaining today series e past = ground (arith, past)

-- An event that neither is addressed nor belongs to the rest of a series of the team.
pub delete_event-spares :
    (today : ℕ) (s : Tables) (event team : ℕ) (scope : String) (s' : Tables) (e : EventRow)
    → WellPlanned s
    → In e s.events
    → is_owned event team e ≡ false
    → ((k : ℕ) → (remaining today k e && e.team_id == team) ≡ false)
    → delete_event today s event team scope ≡ ok s'
    → Kept s e s'
unfolding delete_event delete_series_remainder
delete_event-spares today s event team scope s' e w i not_owned not_remaining h = go _ h
  where
    go : (o : Option ℕ) → delete_of today event team o s ≡ ok s' → Kept s e s'
    go none q =
        let (_, last) =
          >>-eq-ok (reject_if _ no_rows) (ok (delete_events (is_owned event team) s)) s' q in
        subst (Kept s e) (sym (ok-injective (delete_events (is_owned event team) s) s' last))
          (delete_events-Kept (is_owned event team) s e w i not_owned)
    go (some series) q =
        let p : EventRow → Bool = λ x. remaining today series x && x.team_id == team in
        let s₁ = delete_events p s in
        let (i₁, a₁) = delete_events-Kept p s e w i (not_remaining series) in
        let (i₂, a₂) =
          delete_events-Kept (is_owned event team) s₁ e (delete_events-WellPlanned p s w) i₁
            not_owned in
        subst (Kept s e)
          (sym (ok-injective (drop_series series (delete_events (is_owned event team) s₁)) s' q))
          (i₂, λ a j of_e. a₂ a (a₁ a j of_e) of_e)

pub set_status-Kept :
    (today : ℕ) (s : Tables) (event team : ℕ) (status scope : String) (r : EventRow) (s' : Tables)
    (e : EventRow)
    → In e s.events
    → e.date < today
    → e.id ≢ event
    → set_status today s event team status scope ≡ ok (r, s')
    → In e s'.events × (s'.attendance ≡ s.attendance)
set_status-Kept today s event team status scope r s' e i past other h =
    let (s₁, first, updated) = set_status-runs today s event team status scope r s' h in
    let (i₁, a₁) = rest s₁ first in
    let (i₂, a₂) =
      update_events-Kept (is_reachable s₁ event team) (with_status status) s₁ s' e updated i₁
        (ground (arith, other)) in
    (i₂, a₂ ∙ a₁)
  where
    go :
        (o : Option ℕ) (s₁ : Tables)
        → cascade_status today team status o s ≡ ok s₁
        → In e s₁.events × (s₁.attendance ≡ s.attendance)
    go none s₁ q =
        let same = ok-injective s s₁ q in
        (subst (λ (z : Tables). In e z.events) (sym same) i, ap (λ (z : Tables). z.attendance) same)
    go (some series) s₁ q =
        update_events-Kept _ (with_status status) s s₁ e q i
          (ground (arith, past-remaining today series e past))

    rest :
        (s₁ : Tables)
        → cascaded today event team status scope s ≡ ok s₁
        → In e s₁.events × (s₁.attendance ≡ s.attendance)
    rest s₁ q = elim (Bool-cases (str_eq scope "series")) [
      | inl c ↦ go (series_of (find (is_reachable s event team) s.events)) s₁ (rw c at q)
      | inr c ↦ go none s₁ (rw c at q)
    ]
