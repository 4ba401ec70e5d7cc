-- ===== src/Absences/Overlap.antt =====
-- The ranges of a user's absences in a team stay apart and within the bound, over every operation
-- of backend/internal/absences.
use team_manager.Base.{
  ℕ, ◌≤◌, ◌<◌, ◌-◌, ◌≡◌, ◌≢◌, sym, ap, ◌∙◌, ◌⊎◌, inl, inr, true, false, not, ◌&&◌, String, List,
  ◌∷◌, Option, In, any, any-false, Distinct, Distinct-cons, ◌==◌, leb, ok, arith,
}
use team_manager.Roster.Db.{Db}
use team_manager.Roster.Queries.{is_member}
use team_manager.Absences.Store.{
  AbsenceRow, nil_id, max_span, check_range, user_has_overlapping_absence, create,
}

abbrev pub Bounded : AbsenceRow → Type 0
Bounded a = (a.from_date ≤ a.to_date) × (a.to_date - a.from_date ≤ max_span)

-- Two different absences of one user in one team share no day.
abbrev pub Apart : AbsenceRow → AbsenceRow → Type 0
Apart a b =
    a.team_id ≡ b.team_id
    → a.user_id ≡ b.user_id
    → a.id ≢ b.id
    → (a.to_date < b.from_date) ⊎ (b.to_date < a.from_date)

pub record IsValid (rows : List AbsenceRow) : Type 0 where
  pub keys : Distinct (λ a. a.id) rows
  pub no_nil : (a : AbsenceRow) → In a rows → a.id ≢ nil_id
  pub bounded : (a : AbsenceRow) → In a rows → Bounded a
  pub apart : (a b : AbsenceRow) → In a rows → In b rows → Apart a b

pub Apart-sym : (a b : AbsenceRow) → Apart a b → Apart b a
Apart-sym a b h t u d = elim (h (sym t) (sym u) (λ e. d (sym e))) [ inl x ↦ inr x | inr x ↦ inl x ]

pub check_range-Bounded :
    (from_date to_date : ℕ)
    → check_range from_date to_date ≡ ok tt
    → (from_date ≤ to_date) × (to_date - from_date ≤ max_span)
unfolding check_range
check_range-Bounded from_date to_date h = (ground arith, ground arith)

-- A range that no other absence of the user overlaps is apart from all of them.
pub no_overlap :
    (rows : List AbsenceRow) (team user exclude from_date to_date : ℕ) (b : AbsenceRow)
    → user_has_overlapping_absence rows team user exclude from_date to_date ≡ false
    → In b rows
    → b.team_id ≡ team
    → b.user_id ≡ user
    → b.id ≢ exclude
    → (to_date < b.from_date) ⊎ (b.to_date < from_date)
unfolding user_has_overlapping_absence
no_overlap rows team user exclude from_date to_date b h i t u d =
    let e =
      any-false
        (λ a.
          a.team_id == team
          && a.user_id == user
          && not (a.id == exclude)
          && leb a.from_date to_date
          && leb from_date a.to_date)
        b rows h i in
    ground arith

-- What a successful Create has checked.
create-checked :
    (db : Db) (rows : List AbsenceRow) (new_id team user from_date to_date : ℕ)
    (reason : Option String) (row : AbsenceRow) (rows' : List AbsenceRow)
    → create db rows new_id team user from_date to_date reason ≡ ok (row, rows')
    → (user_has_overlapping_absence rows team user nil_id from_date to_date ≡ false)
      × (is_member db team user ≡ true)
      × (check_range from_date to_date ≡ ok tt)
      × ((row.id ≡ new_id)
          × (row.team_id ≡ team)
          × (row.user_id ≡ user)
          × (row.from_date ≡ from_date)
          × (row.to_date ≡ to_date))
      × (rows' ≡ row ∷ rows)
unfolding create
create-checked db rows new_id team user from_date to_date reason row rows' h =
    (ground arith, ground arith, ground arith, ground arith, ground arith)

pub create-IsValid :
    (db : Db) (rows : List AbsenceRow) (new_id team user from_date to_date : ℕ)
    (reason : Option String) (row : AbsenceRow) (rows' : List AbsenceRow)
    → any (λ a. a.id == new_id) rows ≡ false
    → new_id ≢ nil_id
    → IsValid rows
    → create db rows new_id team user from_date to_date reason ≡ ok (row, rows')
    → IsValid rows'
create-IsValid db rows new_id team user from_date to_date reason row rows' fresh real v h =
    let (clear, _, range, (e_id, e_team, e_user, e_from, e_to), e) =
      create-checked db rows new_id team user from_date to_date reason row rows' h in
    let (le, span) = check_range-Bounded from_date to_date range in
    let new_apart : (b : AbsenceRow) → In b rows → Apart row b = λ b i t u d.
      let o =
        no_overlap rows team user nil_id from_date to_date b clear i (sym t ∙ e_team)
          (sym u ∙ e_user) (v.no_nil b i) in
      ground (arith, o, e_from, e_to) in
    rw e (record {
      keys = Distinct-cons (λ a. a.id) row rows (rw e_id fresh) v.keys;
      no_nil = λ a i. elim i [
        | inl q ↦ λ z. real (sym e_id ∙ sym (ap (λ (x : AbsenceRow). x.id) q) ∙ z)
        | inr j ↦ v.no_nil a j
      ];
      bounded = λ a i. elim i [ inl q ↦ rw (q, e_from, e_to) (le, span) | inr j ↦ v.bounded a j ];
      apart = λ a b i j. elim i [
        | inl q ↦ elim j [
          | inl q' ↦ λ t u d. absurd (d (ap (λ (x : AbsenceRow). x.id) (q ∙ sym q')))
          | inr j' ↦ rw q (new_apart b j')
        ]
        | inr i' ↦ elim j [
          | inl q' ↦ rw q' (Apart-sym row a (new_apart a i'))
          | inr j' ↦ v.apart a b i' j'
        ]
      ];
    })
