-- ===== src/Events/Nominations.antt =====
-- SetNomination of backend/internal/events: taking a nomination back and giving it again.
use team_manager.Base.{
  ℕ, ◌≡◌, sym, ap, inl, inr, true, false, ◌&&◌, some, none, find, delete, ◌==◌, ==_iff, and_true,
  Bool-cases, ok, arith,
}
use team_manager.Roster.Db.{Db}
use team_manager.Roster.Queries.{is_member}
use team_manager.Events.Store.{
  Tables, is_response, is_not_nominated, has_write, upsert, not_nominated_row, event_in_team,
  write_nomination,
}
use team_manager.Events.Service.{set_nomination}
use team_manager.Events.Responses.{
  OneResponse, find-upsert, find-upsert_other, upsert-OneResponse, find-delete_other,
  find-delete_hit,
}
use team_manager.Events.Guards.{WritesEvents}
use team_manager.Events.Permissions.{has_write_iff}

denominated :
    (checked db : Db) (s : Tables) (new_id now event caller user team : ℕ) (s' : Tables)
    → set_nomination checked db s new_id now event caller user team false ≡ ok s'
    → (event_in_team s event team ≡ true)
      × (has_write db team caller ≡ true)
      × (is_member db team user ≡ true)
      × (s'
          ≡ record s { attendance = upsert (not_nominated_row new_id event user now) s.attendance })
unfolding set_nomination write_nomination
denominated checked db s new_id now event caller user team s' h =
    (ground arith, ground arith, ground arith, ground arith)

nominated :
    (checked db : Db) (s : Tables) (new_id now event caller user team : ℕ) (s' : Tables)
    → set_nomination checked db s new_id now event caller user team true ≡ ok s'
    → (event_in_team s event team ≡ true)
      × (has_write db team caller ≡ true)
      × (s' ≡ record s { attendance = delete (is_not_nominated event user) s.attendance })
unfolding set_nomination write_nomination
nominated checked db s new_id now event caller user team s' h =
    (ground arith, ground arith, ground arith)

-- A member whose nomination is taken back and then given again, each time by whoever holds
-- events:write when it is written and whatever the checks before it read, has no response to the
-- event: the user is pending again, with no reason left. In between the response is not_nominated
-- with no reason. The responses of others and to other events are as at the start.
pub renominated :
    (checked₁ db₁ checked₂ db₂ : Db) (s s₁ s₂ : Tables)
    (new_id₁ new_id₂ now₁ now₂ event caller₁ caller₂ user team : ℕ)
    → OneResponse s.attendance
    → set_nomination checked₁ db₁ s new_id₁ now₁ event caller₁ user team false ≡ ok s₁
    → set_nomination checked₂ db₂ s₁ new_id₂ now₂ event caller₂ user team true ≡ ok s₂
    → WritesEvents db₁ team caller₁
      × WritesEvents db₂ team caller₂
      × ((id : ℕ) × (find (is_response event user) s₁.attendance
            ≡ some (not_nominated_row id event user now₁)))
      × (find (is_response event user) s₂.attendance ≡ none)
      × ((e u : ℕ)
          → ((e ≡ event) × (u ≡ user) → ⊥)
          → find (is_response e u) s₂.attendance ≡ find (is_response e u) s.attendance)
renominated checked₁ db₁ checked₂ db₂ s s₁ s₂ k₁ k₂ now₁ now₂ event c₁ c₂ user team one h₁ h₂ =
    let (_, w₁, _, e₁) = denominated checked₁ db₁ s k₁ now₁ event c₁ user team s₁ h₁ in
    let (_, w₂, e₂) = nominated checked₂ db₂ s₁ k₂ now₂ event c₂ user team s₂ h₂ in
    let row = not_nominated_row k₁ event user now₁ in
    let (id, found) = find-upsert row s.attendance in
    let found₁ : find (is_response event user) s₁.attendance
        ≡ some (not_nominated_row id event user now₁) =
      rw e₁ found in
    let one₁ : OneResponse s₁.attendance = rw e₁ (upsert-OneResponse row s.attendance one) in
    (
      (has_write_iff db₁ team c₁).0 w₁,
      (has_write_iff db₂ team c₂).0 w₂,
      (id, found₁),
      rw e₂ (
          find-delete_hit event user (is_not_nominated event user)
            (not_nominated_row id event user now₁) s₁.attendance one₁ found₁ (ground arith)),
      λ e u other.
          rw
            (
              e₂,
              ← find-upsert_other e u row s.attendance (elsewhere e u other),
              ← ap (λ (t : Tables). t.attendance) e₁,
            )
            (find-delete_other (is_response e u) (is_not_nominated event user) s₁.attendance
              (λ a q. ground (arith, q, elsewhere e u other))),
    )
  where
    elsewhere : (e u : ℕ) → ((e ≡ event) × (u ≡ user) → ⊥) → (event == e && user == u) ≡ false
    elsewhere e u other = elim (Bool-cases (event == e && user == u)) [
      | inl h ↦
          let (p, q) = and_true (event == e) (user == u) h in
          absurd (other (sym ((==_iff event e).0 p), sym ((==_iff user u).0 q)))
      | inr h ↦ h
    ]
