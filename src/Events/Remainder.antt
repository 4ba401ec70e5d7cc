-- ===== src/Events/Remainder.antt =====
-- What DeleteEvent of backend/internal/events/repository.go removes.
use team_manager.Base.{
  ℕ, ◌<◌, ◌≡◌, ◌∙◌, sym, refl, Bool, true, false, not, ◌&&◌, String, str_eq, str_eq_iff, List,
  Option, none, some, In, any, any-In, any_witness, find, find-In, delete-In, ◌==◌, ==_refl,
  if◌then◌else◌, arith, ok,
}
use team_manager.Events.Store.{EventRow, EventSeriesRow, Tables}
use team_manager.Events.Changes.{of_series, remaining, is_owned}
use team_manager.Events.Removals.{
  series_of, delete_events, drop_series, delete_series_remainder, delete_of, delete_event,
}

-- The addressed event and, for a series, its rest are gone; nothing is new; and the row of the series
-- stands only while an occurrence refers to it.
abbrev Removed : ℕ → ℕ → ℕ → Tables → Option ℕ → Tables → Type 0
Removed today event team s o s' =
    ((x : EventRow) → In x s'.events → In x s.events × (is_owned event team x ≡ false))
    × ((k : ℕ)
        → o ≡ some k
        → ((x : EventRow)
            → In x s'.events
            → x.team_id ≡ team
            → x.series_id ≡ some k
            → x.date < today)
          × (any (λ y. y.id == k) s'.series ≡ true → any (of_series k) s'.events ≡ true))

of_series-eq : (k : ℕ) (x : EventRow) → x.series_id ≡ some k → of_series k x ≡ true
of_series-eq k x q = rw q (==_refl k)

-- A series row that the last DELETE kept is still referred to.
still_used :
    (rows : List EventRow) (k series id : ℕ)
    → (id == k) ≡ true
    → (id == series && not (any (of_series series) rows)) ≡ false
    → k ≡ series
    → any (of_series k) rows ≡ true
still_used rows k series id key kept q = rw q (ground (arith, key, kept, q))

delete_of-Removed :
    (today event team : ℕ) (s : Tables) (o : Option ℕ)
    → any (is_owned event team) s.events ≡ true
    → (s' : Tables) × (delete_of today event team o s ≡ ok s') × Removed today event team s o s'
unfolding delete_events delete_series_remainder
delete_of-Removed today event team s none there = (
  delete_events (is_owned event team) s,
  rw there,
  (λ x i. delete-In (is_owned event team) x s.events i, λ k q. cc),
)
delete_of-Removed today event team s (some series) there =
    let p : EventRow → Bool = λ x. remaining today series x && x.team_id == team in
    let s₁ = delete_events p s in
    let s₂ = delete_events (is_owned event team) s₁ in
    (
      drop_series series s₂,
      refl,
      (
        λ x i. let (j, out) = delete_In₂ x i in ((delete-In p x s.events j).0, out),
        λ k q. (
          λ x i of_team of_k.
              let (j, _) = delete_In₂ x i in
              let (_, out) = delete-In p x s.events j in
              ground (arith, out, of_team, of_series-eq series x (of_k ∙ sym q)),
          λ h.
              let (y, j, key) = any_witness (λ (z : EventSeriesRow). z.id == k) _ h in
              let (_, kept) = delete-In _ y s.series j in
              still_used s₂.events k series y.id key kept (cc q),
        ),
      ),
    )
  where
    delete_In₂ :
        (x : EventRow)
        → In x
            (delete_events
              (is_owned event team)
              (delete_events (λ y. remaining today series y && y.team_id == team) s)).events
        → In x (delete_events (λ y. remaining today series y && y.team_id == team) s).events
          × (is_owned event team x ≡ false)
    delete_In₂ x i = delete-In (is_owned event team) x _ i

-- DeleteEvent succeeds if the event is one of the team's. Then the addressed event is gone and every
-- event that is left stood there before. With scope "series" on an occurrence of a series, the events of
-- the team in that series that are left are of days before today, and the row of the series is left only
-- if an occurrence still refers to it.
pub delete_event_lem :
    (today : ℕ) (s : Tables) (event team : ℕ) (scope : String) (e : EventRow)
    → find (is_owned event team) s.events ≡ some e
    → (s' : Tables) × (delete_event today s event team scope ≡ ok s')
      × ((x : EventRow) → In x s'.events → In x s.events × (is_owned event team x ≡ false))
      × ((k : ℕ)
          → scope ≡ "series"
          → e.series_id ≡ some k
          → ((x : EventRow)
              → In x s'.events
              → x.team_id ≡ team
              → x.series_id ≡ some k
              → x.date < today)
            × (any (λ y. y.id == k) s'.series ≡ true → any (of_series k) s'.events ≡ true))
unfolding delete_event
delete_event_lem today s event team scope e found =
    let (i, owned) = find-In (is_owned event team) e s.events found in
    let series =
      if str_eq scope "series" then series_of (find (is_owned event team) s.events) else none in
    let (s', done, (gone, rest)) =
      delete_of-Removed today event team s series
        (any-In (is_owned event team) e s.events i owned) in
    (s', done, gone, λ k q r. rest k (rw ((str_eq_iff scope "series").1 q, found) r))
