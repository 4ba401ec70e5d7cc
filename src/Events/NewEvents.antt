-- ===== src/Events/NewEvents.antt =====
-- CreateEvent and CreateSeries of backend/internal/events/repository.go: what each keeps.
use team_manager.Base.{
  ℕ, suc, ◌<◌, ◌≤◌, ◌≡◌, ◌≢◌, ◌∙◌, sym, ap, subst, inl, inr, true, false, List, [], ◌∷◌, ◌++◌, map,
  none, some, In, In-map, append-In, All-of_In, any, any-false, ◌==◌, arith, Distinct,
  Distinct-cons, ok, ◌>>◌, >>-eq-ok, ok-injective, is_some, length, reject_if, reject_if-ok,
}
use team_manager.Roster.Db.{Db}
use team_manager.Events.Store.{EventRow, EventSeriesRow, Tables}
use team_manager.Events.Series.{series_dates}
use team_manager.Events.Creation.{
  CreateEventParams, database_error, violation, new_event, create_event, occurrences, create_series,
  dedup_team_ids, Planned, validate_in_tx, is_refused, insert_events, insert_series, new_series,
}
use team_manager.Events.Targets.{insert_event_teams-keeps, insert_event_teams-owning}
use team_manager.Events.WellPlanned.{WellPlanned, is_series_of}
use team_manager.Events.Planning.{is_some-false}

-- New rows of one team that meet the constraints and are occurrences of its series, if of any.
insert_events-WellPlanned :
    (db : Db) (s : Tables) (team : ℕ) (cross_team_ids : List ℕ) (rows : List EventRow)
    → Distinct (λ e. e.id) (rows ++ s.events)
    → is_refused db team rows ≡ false
    → ((e : EventRow) → In e rows → e.team_id ≡ team)
    → ((e : EventRow) (k : ℕ) → In e rows → e.series_id ≡ some k → e.end_date ≡ none)
    → ((e : EventRow) (k : ℕ)
        → In e rows
        → e.series_id ≡ some k
        → any (is_series_of k team) s.series ≡ true)
    → WellPlanned s
    → WellPlanned (insert_events s team cross_team_ids rows)
insert_events-WellPlanned db s team cross_team_ids rows d allowed owned single series w = record {
  ids = d;
  series_ids = w.series_ids;
  event = λ e i. elim (append-In e rows s.events i) [
    | inl m ↦ record {
      targeted = rw (owned e m) (
          insert_event_teams-owning (map (λ x. x.id) rows) team cross_team_ids e.id s.event_teams
            (In-map (λ x. x.id) e rows m));
      valid = is_some-false (violation e) (any-false (λ x. is_some (violation x)) e rows valid m);
      single_day = λ k r. single e k m r;
      in_series = λ k r. rw (owned e m) (series e k m r);
    }
    | inr m ↦
        let old = w.event e m in
        record {
          targeted =
              insert_event_teams-keeps (map (λ x. x.id) rows) (dedup_team_ids team cross_team_ids)
                e.id e.team_id s.event_teams old.targeted;
          valid = old.valid;
          single_day = old.single_day;
          in_series = old.in_series;
        }
  ];
}
  where
    valid : any (λ x. is_some (violation x)) rows ≡ false
    valid = ground (arith, allowed)

pub create_event-WellPlanned :
    (db : Db) (s : Tables) (new_id team : ℕ) (params : CreateEventParams) (e : EventRow)
    (s' : Tables)
    → any (λ x. x.id == new_id) s.events ≡ false
    → create_event db s new_id team params ≡ ok (e, s')
    → WellPlanned s
    → WellPlanned s'
unfolding create_event
create_event-WellPlanned db s new_id team params e s' fresh h w =
    let row = new_event params new_id team none params.date params.end_date in
    let written : EventRow × Tables =
      (row, insert_events s team params.cross_team_ids (row ∷ [])) in
    let check : Planned (Unit {0}) = reject_if (is_refused db team (row ∷ [])) database_error in
    let (checks, last) = >>-eq-ok (validate_in_tx db team params >> check) (ok written) (e, s') h in
    let (_, allowed) = >>-eq-ok (validate_in_tx db team params) check tt checks in
    subst WellPlanned
      (sym (ap (λ (x : EventRow × Tables). x.1) (ok-injective written (e, s') last)))
      (insert_events-WellPlanned db s team params.cross_team_ids (row ∷ [])
        (Distinct-cons (λ x. x.id) row s.events fresh w.ids)
        (reject_if-ok (is_refused db team (row ∷ [])) database_error allowed)
        (λ x i. elim i [ inl q ↦ ap (λ (z : EventRow). z.team_id) q | inr j ↦ elim j [ ] ])
        (λ x k i r. elim i [
          | inl q ↦ cc (ap (λ (z : EventRow). z.series_id) q, r)
          | inr j ↦ elim j [ ]
        ])
        (λ x k i r. elim i [
          | inl q ↦ cc (ap (λ (z : EventRow). z.series_id) q, r)
          | inr j ↦ elim j [ ]
        ])
        w)

-- The generated keys are all different, and none of them is in use.
pub record FreshKeys (keys : ℕ → ℕ) (rows : List EventRow) : Type 0 where
  pub different : (i j : ℕ) → i < j → keys i ≢ keys j
  pub unused : (i : ℕ) → any (λ e. e.id == keys i) rows ≡ false

occurrences-In :
    (params : CreateEventParams) (team series : ℕ) (keys : ℕ → ℕ) (i : ℕ) (dates : List ℕ)
    (e : EventRow)
    → In e (occurrences params team series keys i dates)
    → (j : ℕ) × (date : ℕ) × (i ≤ j) × (e ≡ new_event params (keys j) team (some series) date none)
unfolding occurrences
occurrences-In params team series keys i [] e m = elim m [ ]
occurrences-In params team series keys i (date ∷ dates) e (inl q) = (i, date, omega arith, q)
occurrences-In params team series keys i (date ∷ dates) e (inr m) =
    let (j, day, le, q) = occurrences-In params team series keys (suc i) dates e m in
    (j, day, omega (arith, le), q)

occurrences-Distinct :
    (params : CreateEventParams) (team series : ℕ) (keys : ℕ → ℕ) (i : ℕ) (dates : List ℕ)
    (rows : List EventRow)
    → FreshKeys keys rows
    → Distinct (λ e. e.id) rows
    → Distinct (λ e. e.id) (occurrences params team series keys i dates ++ rows)
unfolding occurrences
occurrences-Distinct params team series keys i [] rows fresh d = d
occurrences-Distinct params team series keys i (date ∷ dates) rows fresh d = (
  All-of_In (λ e. keys i ≢ e.id) (occurrences params team series keys (suc i) dates ++ rows)
      (λ e m. elim (append-In e (occurrences params team series keys (suc i) dates) rows m) [
        | inl k ↦
            let (j, day, le, q) = occurrences-In params team series keys (suc i) dates e k in
            λ same. fresh.different i j (omega (arith, le)) (same ∙ ap (λ (x : EventRow). x.id) q)
        | inr k ↦ λ same.
            let out = any-false (λ x. x.id == keys i) e rows (fresh.unused i) k in
            absurd (ground (arith, out, same))
      ]),
  occurrences-Distinct params team series keys (suc i) dates rows fresh d,
)

insert_series-WellPlanned :
    (s : Tables) (new : EventSeriesRow)
    → any (λ x. x.id == new.id) s.series ≡ false
    → WellPlanned s
    → WellPlanned (insert_series s new)
insert_series-WellPlanned s new fresh w = record {
  ids = w.ids;
  series_ids = Distinct-cons (λ x. x.id) new s.series fresh w.series_ids;
  event = λ e i.
      let old = w.event e i in
      record {
        targeted = old.targeted;
        valid = old.valid;
        single_day = old.single_day;
        in_series = λ k r. ground (arith, old.in_series k r);
      };
}

pub create_series-WellPlanned :
    (db : Db) (s : Tables) (series_key : ℕ) (keys : ℕ → ℕ) (team : ℕ) (params : CreateEventParams)
    (rows : List EventRow) (s' : Tables)
    → any (λ x. x.id == series_key) s.series ≡ false
    → FreshKeys keys s.events
    → create_series db s series_key keys team params ≡ ok (rows, s')
    → WellPlanned s
    → WellPlanned s'
unfolding create_series
create_series-WellPlanned db s series_key keys team params rows s' fresh_series fresh h w =
    let dates = series_dates params.date params.repeat_end_date params.repeat_weeks in
    let made = occurrences params team series_key keys 0 dates in
    let new = new_series series_key team params (length dates) in
    let s₁ = insert_series s new in
    let written : List EventRow × Tables =
      (made, insert_events s₁ team params.cross_team_ids made) in
    let check : Planned (Unit {0}) = reject_if (is_refused db team made) database_error in
    let (checks, last) =
      >>-eq-ok (validate_in_tx db team params >> check) (ok written) (rows, s') h in
    let (_, allowed) = >>-eq-ok (validate_in_tx db team params) check tt checks in
    let of = occurrences-In params team series_key keys 0 dates in
    subst WellPlanned
      (sym (ap (λ (x : List EventRow × Tables). x.1) (ok-injective written (rows, s') last)))
      (insert_events-WellPlanned db s₁ team params.cross_team_ids made
        (occurrences-Distinct params team series_key keys 0 dates s.events fresh w.ids)
        (reject_if-ok (is_refused db team made) database_error allowed)
        (λ e i. let (j, day, _, q) = of e i in ap (λ (z : EventRow). z.team_id) q)
        (λ e k i r. let (j, day, _, q) = of e i in ap (λ (z : EventRow). z.end_date) q)
        (λ e k i r.
          let (j, day, _, q) = of e i in
          let key : series_key ≡ k = cc (ap (λ (z : EventRow). z.series_id) q, r) in
          ground (arith, key))
        (insert_series-WellPlanned s new fresh_series w))
