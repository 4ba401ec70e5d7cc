-- ===== src/Events/Responses.antt =====
-- The table of attendance after an upsert and after a deletion (backend/internal/events/repository.go).
use team_manager.Base.{
  ℕ, ◌≤◌, ◌≡◌, refl, inl, inr, Bool, true, false, not, List, [], ◌∷◌, some, none, any, count, find,
  select, delete, update, Bool-cases, arith,
}
use team_manager.Events.Store.{AttendanceRow, is_response, overwrite, upsert}

-- The unique constraint: one response of a user to an event.
abbrev pub OneResponse : List AttendanceRow → Type 0
OneResponse rows = (event user : ℕ) → count (is_response event user) rows ≤ 1

module _ (p q : AttendanceRow → Bool) (f : AttendanceRow → AttendanceRow) where
  find-update_same :
      (rows : List AttendanceRow)
      → ((a : AttendanceRow) → p (f a) ≡ true)
      → any p rows ≡ true
      → (old : AttendanceRow) × (find p (update p f rows) ≡ some (f old))
  find-update_same [] keep h = cc
  find-update_same (a ∷ rows) keep h = elim (Bool-cases (p a)) [
    | inl e ↦ (a, ground (arith, keep a, e))
    | inr e ↦
        let (old, found) = find-update_same rows keep (ground (arith, e, h)) in
        (old, ground (arith, found, e))
  ]

  find-update_other :
      (rows : List AttendanceRow)
      → ((a : AttendanceRow) → p a ≡ true → (q a ≡ false) × (q (f a) ≡ false))
      → find q (update p f rows) ≡ find q rows
  find-update_other [] other = refl
  find-update_other (a ∷ rows) other = elim (Bool-cases (p a)) [
    | inl e ↦ let (was, now) = other a e in rw (e, was, now) (find-update_other rows other)
    | inr e ↦ ground (arith, e, find-update_other rows other)
  ]

  count-update :
      (rows : List AttendanceRow)
      → ((a : AttendanceRow) → p a ≡ true → q (f a) ≡ q a)
      → count q (update p f rows) ≡ count q rows
  count-update [] same = refl
  count-update (a ∷ rows) same = elim (Bool-cases (p a)) [
    | inl e ↦ ground (arith, e, same a e, count-update rows same)
    | inr e ↦ ground (arith, e, count-update rows same)
  ]

count-any :
    (p : AttendanceRow → Bool) (rows : List AttendanceRow) → any p rows ≡ false → count p rows ≡ 0
count-any p [] h = refl
count-any p (a ∷ rows) h = ground (arith, count-any p rows)

find-select_other :
    (q r : AttendanceRow → Bool) (rows : List AttendanceRow)
    → ((a : AttendanceRow) → q a ≡ true → r a ≡ true)
    → find q (select r rows) ≡ find q rows
find-select_other q r [] keep = refl
find-select_other q r (a ∷ rows) keep = elim (Bool-cases (r a)) [
  | inl e ↦ ground (arith, e, find-select_other q r rows keep)
  | inr e ↦ ground (arith, e, keep a, find-select_other q r rows keep)
]

count-select :
    (q r : AttendanceRow → Bool) (rows : List AttendanceRow)
    → count q (select r rows) ≤ count q rows
count-select q r [] = omega arith
count-select q r (a ∷ rows) = ground (arith, count-select q r rows)

-- The response of the user of `new` to its event is `new`, under the id of the row that it replaces.
pub find-upsert :
    (new : AttendanceRow) (rows : List AttendanceRow)
    → (id : ℕ) × (find (is_response new.event_id new.user_id) (upsert new rows)
        ≡ some (record new { id = id }))
unfolding upsert
find-upsert new rows = elim (Bool-cases (any (is_response new.event_id new.user_id) rows)) [
  | inl e ↦
      let (old, found) =
        find-update_same (is_response new.event_id new.user_id) (λ a. true) (overwrite new) rows
          (λ a. ground arith) e in
      (old.id, ground (arith, e, found))
  | inr e ↦ (new.id, ground (arith, e))
]

pub find-upsert_other :
    (event user : ℕ) (new : AttendanceRow) (rows : List AttendanceRow)
    → is_response event user new ≡ false
    → find (is_response event user) (upsert new rows) ≡ find (is_response event user) rows
unfolding upsert
find-upsert_other event user new rows other =
    elim (Bool-cases (any (is_response new.event_id new.user_id) rows)) [
      | inl e ↦ rw e (
          find-update_other (is_response new.event_id new.user_id) (is_response event user)
            (overwrite new) rows (λ a h. (ground arith, other)))
      | inr e ↦ rw (e, other) refl
    ]

pub upsert-OneResponse :
    (new : AttendanceRow) (rows : List AttendanceRow)
    → OneResponse rows
    → OneResponse (upsert new rows)
unfolding upsert
upsert-OneResponse new rows one event user =
    elim (Bool-cases (any (is_response new.event_id new.user_id) rows)) [
      | inl e ↦ rw e (
          omega (
            arith,
            one event user,
            count-update (is_response new.event_id new.user_id) (is_response event user)
                (overwrite new) rows (λ a h. ground arith),
          ))
      | inr e ↦ elim (Bool-cases (is_response event user new)) [
        | inl m ↦ ground (arith, e, m, count-any (is_response event user) rows)
        | inr m ↦ rw (e, m) (one event user)
      ]
    ]

pub delete-OneResponse :
    (r : AttendanceRow → Bool) (rows : List AttendanceRow)
    → OneResponse rows
    → OneResponse (delete r rows)
delete-OneResponse r rows one event user =
    omega (arith, one event user, count-select (is_response event user) (λ a. not (r a)) rows)

pub find-delete_other :
    (q r : AttendanceRow → Bool) (rows : List AttendanceRow)
    → ((a : AttendanceRow) → q a ≡ true → r a ≡ false)
    → find q (delete r rows) ≡ find q rows
find-delete_other q r rows apart =
    find-select_other q (λ a. not (r a)) rows (λ a h. rw (apart a h) refl)

find-count_zero :
    (q r : AttendanceRow → Bool) (rows : List AttendanceRow)
    → count q rows ≡ 0
    → find q (select r rows) ≡ none
find-count_zero q r [] h = refl
find-count_zero q r (a ∷ rows) h = elim (Bool-cases (q a)) [
  | inl e ↦ absurd (ground (arith, e, h))
  | inr e ↦ ground (arith, e, h, find-count_zero q r rows)
]

-- A deletion that hits the only response of a user to an event leaves none.
pub find-delete_hit :
    (event user : ℕ) (r : AttendanceRow → Bool) (a : AttendanceRow) (rows : List AttendanceRow)
    → OneResponse rows
    → find (is_response event user) rows ≡ some a
    → r a ≡ true
    → find (is_response event user) (delete r rows) ≡ none
find-delete_hit event user r a [] one h hit = refl
find-delete_hit event user r a (b ∷ rows) one h hit = elim (Bool-cases (is_response event user b)) [
  | inl e ↦
      let same : b ≡ a = cc (h, e) in
      let zero : count (is_response event user) rows ≡ 0 = ground (arith, one event user, e) in
      rw (same, hit) (find-count_zero (is_response event user) (λ x. not (r x)) rows zero)
  | inr e ↦
      let rest =
        find-delete_hit event user r a rows (λ f u. ground (arith, one f u)) (ground (arith, h, e))
          hit in
      ground (arith, rest, e)
]
