-- ===== src/Events/Series.antt =====
-- seriesDates of backend/internal/events/repository.go: the days of the occurrences of a weekly
-- series. A count of weeks below 1, negative ones included, counts as 1; here 0 stands for them.
use team_manager.Base.{
  ℕ, suc, zero, ◌+◌, ◌*◌, ◌≤◌, ◌<◌, max, ◌≡◌, inl, inr, ◌↔◌, List, [], ◌∷◌, Option, none, some, In,
  if◌then◌else◌, ltb, Bool-cases, arith,
}
use Prim.Native.Nat.{min}

-- maxRepeatWeeks
abbrev pub max_repeat_weeks : ℕ
max_repeat_weeks = 104

-- The loop up to the end date, with what is left of the bound.
unfoldable pub dates_until : ℕ → ℕ → ℕ → List ℕ
dates_until zero d end_date = []
dates_until (suc n) d end_date =
    let rest = dates_until n (d + 7) end_date in if ltb end_date d then [] else d ∷ rest

-- The loop over the count of weeks: the dates from the `i`-th on.
unfoldable pub dates_for : ℕ → ℕ → ℕ → List ℕ
dates_for zero i date = []
dates_for (suc n) i date = (date + i * 7) ∷ dates_for n (suc i) date

abbrev pub or_first : ℕ → List ℕ → List ℕ
or_first date [] = date ∷ []
or_first date (d ∷ ds) = d ∷ ds

unfoldable pub capped_weeks : ℕ → ℕ
capped_weeks weeks =
    let at_least_one = if ltb weeks 1 then 1 else weeks in
    if ltb max_repeat_weeks at_least_one then max_repeat_weeks else at_least_one

unfoldable pub series_dates : ℕ → Option ℕ → ℕ → List ℕ
series_dates date (some end_date) weeks = or_first date (dates_until max_repeat_weeks date end_date)
series_dates date none weeks = dates_for (capped_weeks weeks) 0 date

dates_until-In :
    (n d end_date day : ℕ)
    → In day (dates_until n d end_date)
    → (k : ℕ) × (k < n) × (day ≡ d + k * 7) × (day ≤ end_date)
unfolding dates_until
dates_until-In zero d end_date day i = elim i [ ]
dates_until-In (suc n) d end_date day i = elim (Bool-cases (ltb end_date d)) [
  | inl e ↦ elim (rw e at i) [ ]
  | inr e ↦ elim (rw e at i) [
    | inl q ↦ (0, omega arith, omega (arith, q), ground (arith, e, q))
    | inr j ↦
        let (k, lt, q, le) = dates_until-In n (d + 7) end_date day j in
        (suc k, omega (arith, lt), omega (arith, q), le)
  ]
]

In-dates_until :
    (n d end_date day k : ℕ)
    → k < n
    → day ≡ d + k * 7
    → day ≤ end_date
    → In day (dates_until n d end_date)
unfolding dates_until
In-dates_until zero d end_date day k lt q le = absurd (omega (arith, lt))
In-dates_until (suc n) d end_date day k lt q le = elim (Bool-cases (ltb end_date d)) [
  | inl e ↦ absurd (ground (arith, e, q, le))
  | inr e ↦ rw e (later k lt q (λ j less p. In-dates_until n (d + 7) end_date day j less p le))
]
  where
    later :
        (k : ℕ)
        → k < suc n
        → day ≡ d + k * 7
        → ((j : ℕ) → j < n → day ≡ (d + 7) + j * 7 → In day (dates_until n (d + 7) end_date))
        → In day (d ∷ dates_until n (d + 7) end_date)
    later zero lt q rest = inl (omega (arith, q))
    later (suc k) lt q rest = inr (rest k (omega (arith, lt)) (omega (arith, q)))

dates_for-In :
    (n i date day : ℕ)
    → In day (dates_for n i date)
    → (k : ℕ) × (k < n) × (day ≡ date + (i + k) * 7)
unfolding dates_for
dates_for-In zero i date day m = elim m [ ]
dates_for-In (suc n) i date day (inl q) = (0, omega arith, omega (arith, q))
dates_for-In (suc n) i date day (inr m) =
    let (k, lt, q) = dates_for-In n (suc i) date day m in
    (suc k, omega (arith, lt), omega (arith, q))

In-dates_for : (n i date day k : ℕ) → k < n → day ≡ date + (i + k) * 7 → In day (dates_for n i date)
unfolding dates_for
In-dates_for zero i date day k lt q = absurd (omega (arith, lt))
In-dates_for (suc n) i date day zero lt q = inl (omega (arith, q))
In-dates_for (suc n) i date day (suc k) lt q =
    inr (In-dates_for n (suc i) date day k (omega (arith, lt)) (omega (arith, q)))

or_first-In :
    (date : ℕ) (ds : List ℕ) (day : ℕ) → In date ds → (In day (or_first date ds)) ↔ (In day ds)
or_first-In date [] day i = elim i [ ]
or_first-In date (d ∷ ds) day i = (λ j. j, λ j. j)

capped_weeks-eq : (weeks : ℕ) → capped_weeks weeks ≡ min 104 (max 1 weeks)
unfolding capped_weeks
capped_weeks-eq weeks = ground arith

-- With an end date that is not before the first day, a series takes place every seventh day from the
-- first one up to and including the end date, and at most 104 times. Without one it takes place
-- every seventh day, as often as the weeks given, but at least once and at most 104 times.
pub series_dates_iff :
    (date day : ℕ)
    → ((end_date weeks : ℕ)
        → date ≤ end_date
        → (In day (series_dates date (some end_date) weeks))
          ↔ ((k : ℕ) × (k < 104) × (day ≡ date + k * 7) × (day ≤ end_date)))
      × ((weeks : ℕ)
          → (In day (series_dates date none weeks))
            ↔ ((k : ℕ) × (k < min 104 (max 1 weeks)) × (day ≡ date + k * 7)))
unfolding series_dates
series_dates_iff date day = (
  λ end_date weeks le.
      let first : In date (dates_until 104 date end_date) =
        In-dates_until 104 date end_date date 0 (omega arith) (omega arith) le in
      let same = or_first-In date (dates_until 104 date end_date) day first in
      (
        λ i. dates_until-In 104 date end_date day (same.0 i),
        λ (k, lt, q, until_end). same.1 (In-dates_until 104 date end_date day k lt q until_end),
      ),
  λ weeks. rw (capped_weeks-eq weeks) (
    λ i.
        let (k, lt, q) = dates_for-In (min 104 (max 1 weeks)) 0 date day i in
        (k, lt, omega (arith, q)),
    λ (k, lt, q). In-dates_for (min 104 (max 1 weeks)) 0 date day k lt (omega (arith, q)),
  ),
)
