-- ===== src/Events/FirstRow.antt =====
-- The row that CreateEvent of backend/internal/events/service.go returns.
use team_manager.Base.{
  ℕ, if-eq, length, zero, suc, ◌+◌, ◌≡◌, ◌≢◌, ◌∙◌, refl, sym, ap, subst, inl, inr, List, [], ◌∷◌,
  Option, none, some, In, Bool-cases, arith, ok, ◌>>◌, ◌>>=◌, >>-eq-ok, >>=-eq-ok, ok-injective,
  reject_if, ltb,
}
use team_manager.Roster.Db.{Db}
use team_manager.Events.Store.{EventRow, Tables}
use team_manager.Events.Series.{series_dates, dates_until, dates_for, capped_weeks}
use team_manager.Events.Creation.{
  CreateEventParams, database_error, new_event, create_event, create_series, occurrences,
  validate_in_tx, is_refused, insert_events, insert_series, new_series,
}
use team_manager.Events.Planner.{first_row, create_rows}

dates_for-first : (n date : ℕ) → n ≢ 0 → (ds : List ℕ) × (dates_for n 0 date ≡ date ∷ ds)
unfolding dates_for
dates_for-first zero date h = absurd (h refl)
dates_for-first (suc n) date h =
    (dates_for n 1 date, ap (λ d. d ∷ dates_for n 1 date) (omega arith))

-- A series starts on the day that was asked for.
series_dates-first :
    (date : ℕ) (end_date : Option ℕ) (weeks : ℕ)
    → (ds : List ℕ) × (series_dates date end_date weeks ≡ date ∷ ds)
unfolding series_dates dates_until capped_weeks
series_dates-first date none weeks = dates_for-first (capped_weeks weeks) date (ground arith)
series_dates-first date (some end_date) weeks = elim (Bool-cases (ltb end_date date)) [
  | inl q ↦ ([], rw q)
  | inr q ↦ (dates_until 103 (date + 7) end_date, rw q)
]

-- The row stands in the table, with its day and owning team.
abbrev pub InTable : ℕ → ℕ → EventRow × Tables → Type 0
InTable date team r = In r.0 r.1.events × (r.0.date ≡ date) × (r.0.team_id ≡ team)

create_event-InTable :
    (db : Db) (s : Tables) (new_id team : ℕ) (params : CreateEventParams) (r : EventRow × Tables)
    → create_event db s new_id team params ≡ ok r
    → InTable params.date team r
unfolding create_event
create_event-InTable db s new_id team params r h =
    let row = new_event params new_id team none params.date params.end_date in
    let written : EventRow × Tables =
      (row, insert_events s team params.cross_team_ids (row ∷ [])) in
    let (_, last) =
      >>-eq-ok
        (validate_in_tx db team params >> reject_if (is_refused db team (row ∷ [])) database_error)
        (ok written) r h in
    subst (InTable params.date team) (sym (ok-injective written r last)) (inl refl, refl, refl)

first_row-InTable :
    (params : CreateEventParams) (team series_key : ℕ) (keys : ℕ → ℕ) (s : Tables)
    (dates ds : List ℕ) (r : EventRow × Tables)
    → dates ≡ params.date ∷ ds
    → first_row (
      occurrences params team series_key keys 0 dates,
      insert_events s team params.cross_team_ids (occurrences params team series_key keys 0 dates),
    )
      ≡ ok r
    → InTable params.date team r
unfolding occurrences
first_row-InTable params team series_key keys s [] ds r first h = cc
first_row-InTable params team series_key keys s (date ∷ dates) ds r first h =
    subst (InTable params.date team) (sym (ok-injective _ r h)) (inl refl, cc first, refl)

create_series-InTable :
    (db : Db) (s : Tables) (series_key : ℕ) (keys : ℕ → ℕ) (team : ℕ) (params : CreateEventParams)
    (r : EventRow × Tables)
    → (create_series db s series_key keys team params >>= first_row) ≡ ok r
    → InTable params.date team r
unfolding create_series
create_series-InTable db s series_key keys team params r h =
    let dates = series_dates params.date params.repeat_end_date params.repeat_weeks in
    let rows = occurrences params team series_key keys 0 dates in
    let s₁ = insert_series s (new_series series_key team params (length dates)) in
    let written : List EventRow × Tables =
      (rows, insert_events s₁ team params.cross_team_ids rows) in
    let (made, series_made, first) =
      >>=-eq-ok (create_series db s series_key keys team params) first_row r h in
    let (_, last) =
      >>-eq-ok (validate_in_tx db team params >> reject_if (is_refused db team rows) database_error)
        (ok written) made series_made in
    let (ds, starts) = series_dates-first params.date params.repeat_end_date params.repeat_weeks in
    first_row-InTable params team series_key keys s₁ dates ds r starts
      (ap first_row (sym (ok-injective written made last)) ∙ first)

pub create_rows-InTable :
    (db : Db) (s : Tables) (series_key : ℕ) (keys : ℕ → ℕ) (team : ℕ) (params : CreateEventParams)
    (r : EventRow × Tables)
    → create_rows db s series_key keys team params ≡ ok r
    → InTable params.date team r
unfolding create_rows
create_rows-InTable db s series_key keys team params r h =
    elim (if-eq params.recurring (create_series db s series_key keys team params >>= first_row)
      (create_event db s (keys 0) team params) (ok r) h) [
        | inl (_, q) ↦ create_series-InTable db s series_key keys team params r q
        | inr (_, q) ↦ create_event-InTable db s (keys 0) team params r q
      ]
