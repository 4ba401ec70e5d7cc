-- ===== src/Events/WellPlanned.antt =====
-- What the tables of events keep, whatever is created, changed and deleted
-- (backend/internal/events/repository.go): one lemma for each kind of statement.
use team_manager.Base.{
  ℕ, ◌≡◌, ◌∙◌, refl, sym, ap, subst, inl, inr, Bool, true, false, not, ◌&&◌, List, [], ◌∷◌, map,
  Option, none, some, In, any, any-In, select, In-select, select-In, delete-In, update, update-In,
  In-map, map-In, ◌==◌, ==_refl, Bool-cases, contains, contains→In, arith, Distinct, Distinct-eq,
  Distinct-select, Distinct-update, ok, >>-eq-ok, ok-injective,
}
use team_manager.Events.Store.{EventRow, EventSeriesRow, EventTeam, Tables}
use team_manager.Events.Creation.{PlanningError, violation, dedup_team_ids}
use team_manager.Events.Changes.{
  first_violation, refuse, or_old, update_events, replace_event_teams, of_series,
}
use team_manager.Events.Removals.{delete_events, drop_series}
use team_manager.Events.Targets.{
  Targets, insert_event_teams-keeps, insert_event_teams-owning, any-delete, Targets-delete,
}

-- The series of a team.
abbrev pub is_series_of : ℕ → ℕ → EventSeriesRow → Bool
is_series_of series team x = x.id == series && x.team_id == team

-- An event is for its owning team, meets the CHECK constraints, and if it is an occurrence of a series,
-- takes one day only and has the owning team of the series.
pub record EventOk (targets : List EventTeam) (series : List EventSeriesRow) (e : EventRow)
    : Type 0 where
  pub targeted : Targets targets e.id e.team_id
  pub valid : violation e ≡ none
  pub single_day : (k : ℕ) → e.series_id ≡ some k → e.end_date ≡ none
  pub in_series : (k : ℕ) → e.series_id ≡ some k → any (is_series_of k e.team_id) series ≡ true

pub record WellPlanned (s : Tables) : Type 0 where
  pub ids : Distinct (λ e. e.id) s.events
  pub series_ids : Distinct (λ x. x.id) s.series
  pub event : (e : EventRow) → In e s.events → EventOk s.event_teams s.series e

-- The part of a row that no UPDATE changes.
pub record SameEvent (f : EventRow → EventRow) : Type 0 where
  pub id : (e : EventRow) → (f e).id ≡ e.id
  pub team : (e : EventRow) → (f e).team_id ≡ e.team_id
  pub series : (e : EventRow) → (f e).series_id ≡ e.series_id

first_violation-In :
    (e : EventRow) (es : List EventRow) → first_violation es ≡ none → In e es → violation e ≡ none
unfolding first_violation
first_violation-In e [] h i = elim i [ ]
first_violation-In e (x ∷ es) h (inl q) = rw q (head (violation x) (first_violation es) h)
  where
    head : (a b : Option PlanningError) → or_old a b ≡ none → a ≡ none
    head none b h = refl
    head (some x) b h = cc
first_violation-In e (x ∷ es) h (inr i) =
    first_violation-In e es (tail (violation x) (first_violation es) h) i
  where
    tail : (a b : Option PlanningError) → or_old a b ≡ none → b ≡ none
    tail none b h = h
    tail (some x) b h = cc

refuse-ok : (o : Option PlanningError) → refuse o ≡ ok tt → o ≡ none
refuse-ok none h = refl
refuse-ok (some e) h = cc

-- A successful UPDATE wrote the rows, and they meet the constraints.
pub update_events-ok :
    (p : EventRow → Bool) (f : EventRow → EventRow) (s s' : Tables)
    → update_events p f s ≡ ok s'
    → (s' ≡ record s { events = update p f s.events })
      × ((e : EventRow) → In e s.events → p e ≡ true → violation (f e) ≡ none)
unfolding update_events
update_events-ok p f s s' h =
    let (allowed, written) =
      >>-eq-ok (refuse (first_violation (map f (select p s.events)))) _ s' h in
    (
      ok-injective (record s { events = update p f s.events }) s' written,
      λ e i q.
          first_violation-In (f e) (map f (select p s.events)) (refuse-ok _ allowed)
            (In-map f e (select p s.events) (In-select p e s.events i q)),
    )

-- The rows may be changed in the columns that are left.
pub update-WellPlanned :
    (p : EventRow → Bool) (f : EventRow → EventRow) (s : Tables)
    → SameEvent f
    → ((e : EventRow) → In e s.events → p e ≡ true → violation (f e) ≡ none)
    → ((e : EventRow) (k : ℕ)
        → In e s.events
        → p e ≡ true
        → e.series_id ≡ some k
        → (f e).end_date ≡ none)
    → WellPlanned s
    → WellPlanned (record s { events = update p f s.events })
update-WellPlanned p f s same valid single w = record {
  ids = Distinct-update (λ e. e.id) p f s.events same.id w.ids;
  series_ids = w.series_ids;
  event = λ e i.
      let (x, j, q) = update-In p f e s.events i in
      subst (EventOk s.event_teams s.series) (sym q)
        (elim (Bool-cases (p x)) [ inl h ↦ rw h (written x j h) | inr h ↦ rw h (w.event x j) ]);
}
  where
    written : (x : EventRow) → In x s.events → p x ≡ true → EventOk s.event_teams s.series (f x)
    written x j h =
        let old = w.event x j in
        record {
          targeted = rw (same.id x, same.team x) old.targeted;
          valid = valid x j h;
          single_day = λ k q. single x k j h (sym (same.series x) ∙ q);
          in_series = λ k q. rw (same.team x) (old.in_series k (sym (same.series x) ∙ q));
        }

-- The target teams of events of one team may be replaced.
pub replace_event_teams-WellPlanned :
    (events : List ℕ) (owning : ℕ) (cross_team_ids : List ℕ) (s : Tables)
    → ((e : EventRow) → In e s.events → contains events e.id ≡ true → e.team_id ≡ owning)
    → WellPlanned s
    → WellPlanned (replace_event_teams events owning cross_team_ids s)
unfolding replace_event_teams
replace_event_teams-WellPlanned events owning cross_team_ids s owned w = record {
  ids = w.ids;
  series_ids = w.series_ids;
  event = λ e i.
      let old = w.event e i in
      record {
        targeted = elim (Bool-cases (contains events e.id)) [
          | inl h ↦ rw (owned e i h) (
              insert_event_teams-owning events owning cross_team_ids e.id _
                (contains→In events e.id h))
          | inr h ↦
              insert_event_teams-keeps events (dedup_team_ids owning cross_team_ids) e.id e.team_id
                _ (Targets-delete events e.id e.team_id s.event_teams h ∙ old.targeted)
        ];
        valid = old.valid;
        single_day = old.single_day;
        in_series = old.in_series;
      };
}

-- Of the events that stay, none has the id of one that goes.
pub delete_events-spares :
    (p : EventRow → Bool) (s : Tables) (e : EventRow)
    → Distinct (λ x. x.id) s.events
    → In e s.events
    → p e ≡ false
    → contains (map (λ x. x.id) (select p s.events)) e.id ≡ false
delete_events-spares p s e d i out =
    elim (Bool-cases (contains (map (λ x. x.id) (select p s.events)) e.id)) [
      | inl h ↦
          let (x, j, q) =
            map-In (λ x. x.id) e.id (select p s.events)
              (contains→In (map (λ x. x.id) (select p s.events)) e.id h) in
          let (k, chosen) = select-In p x s.events j in
          let same = Distinct-eq (λ x. x.id) e x s.events d i k q in
          absurd (ground (arith, ap p same, chosen, out))
      | inr h ↦ h
    ]

pub delete_events-WellPlanned :
    (p : EventRow → Bool) (s : Tables) → WellPlanned s → WellPlanned (delete_events p s)
unfolding delete_events
delete_events-WellPlanned p s w = record {
  ids = Distinct-select (λ e. e.id) (λ e. not (p e)) s.events w.ids;
  series_ids = w.series_ids;
  event = λ e i.
      let (j, out) = delete-In p e s.events i in
      let old = w.event e j in
      record {
        targeted =
            Targets-delete (map (λ x. x.id) (select p s.events)) e.id e.team_id s.event_teams
              (delete_events-spares p s e w.ids j out)
            ∙ old.targeted;
        valid = old.valid;
        single_day = old.single_day;
        in_series = old.in_series;
      };
}

pub drop_series-WellPlanned :
    (series : ℕ) (s : Tables) → WellPlanned s → WellPlanned (drop_series series s)
drop_series-WellPlanned series s w = record {
  ids = w.ids;
  series_ids = Distinct-select (λ x. x.id) _ s.series w.series_ids;
  event = λ e i.
      let old = w.event e i in
      record {
        targeted = old.targeted;
        valid = old.valid;
        single_day = old.single_day;
        in_series = λ k q.
            any-delete (is_series_of k e.team_id) _ s.series (spared e i k q) ∙ old.in_series k q;
      };
}
  where
    spared :
        (e : EventRow)
        → In e s.events
        → (k : ℕ) → e.series_id ≡ some k
        → (x : EventSeriesRow) → is_series_of k e.team_id x ≡ true
        → (x.id == series && not (any (of_series series) s.events)) ≡ false
    spared e i k q x h = elim (Bool-cases (x.id == series)) [
      | inl a ↦
          let eq : k ≡ series = ground (arith, a, h) in
          let of : of_series series e ≡ true = rw (q, eq) (==_refl series) in
          rw (a, any-In (of_series series) e s.events i of)
      | inr a ↦ rw a
    ]
