-- ===== src/Events/Targets.antt =====
-- The rows of event_teams that insertEventTeams and the replacements of
-- backend/internal/events/repository.go leave.
use team_manager.Base.{
  ℕ, ◌≡◌, ◌≢◌, ◌∙◌, refl, inl, inr, Bool, true, false, List, [], ◌∷◌, In, any, delete, Bool-cases,
  contains, arith, dedupe_from,
}
use team_manager.Events.Store.{EventTeam, Tables}
use team_manager.Events.Changes.{replace_event_teams}
use team_manager.Events.Creation.{
  is_target, insert_event_team, insert_teams_of, insert_event_teams, dedup_team_ids,
}

-- The event is for the team.
abbrev pub Targets : List EventTeam → ℕ → ℕ → Type 0
Targets rows event team = any (is_target event team) rows ≡ true

insert_event_team-keeps :
    (e t event team : ℕ) (rows : List EventTeam)
    → Targets rows event team
    → Targets (insert_event_team e t rows) event team
insert_event_team-keeps e t event team rows h = elim (Bool-cases (any (is_target e t) rows)) [
  | inl q ↦ rw q h
  | inr q ↦ rw q (ground (arith, h))
]

insert_event_team-adds :
    (event team : ℕ) (rows : List EventTeam)
    → Targets (insert_event_team event team rows) event team
insert_event_team-adds event team rows = elim (Bool-cases (any (is_target event team) rows)) [
  | inl q ↦ rw (q, q)
  | inr q ↦ rw q (ground arith)
]

insert_teams_of-keeps :
    (e : ℕ) (teams : List ℕ) (event team : ℕ) (rows : List EventTeam)
    → Targets rows event team
    → Targets (insert_teams_of e teams rows) event team
insert_teams_of-keeps e [] event team rows h = h
insert_teams_of-keeps e (t ∷ ts) event team rows h =
    insert_teams_of-keeps e ts event team (insert_event_team e t rows)
      (insert_event_team-keeps e t event team rows h)

pub insert_event_teams-keeps :
    (es teams : List ℕ) (event team : ℕ) (rows : List EventTeam)
    → Targets rows event team
    → Targets (insert_event_teams es teams rows) event team
unfolding insert_event_teams
insert_event_teams-keeps [] teams event team rows h = h
insert_event_teams-keeps (e ∷ es) teams event team rows h =
    insert_event_teams-keeps es teams event team (insert_teams_of e teams rows)
      (insert_teams_of-keeps e teams event team rows h)

-- Every event of the list is for its owning team afterwards.
pub insert_event_teams-owning :
    (es : List ℕ) (owning : ℕ) (extra : List ℕ) (event : ℕ) (rows : List EventTeam)
    → In event es
    → Targets (insert_event_teams es (dedup_team_ids owning extra) rows) event owning
unfolding insert_event_teams dedup_team_ids
insert_event_teams-owning [] owning extra event rows i = elim i [ ]
insert_event_teams-owning (e ∷ es) owning extra event rows (inl q) =
    insert_event_teams-keeps es (owning ∷ dedupe_from (owning ∷ []) extra) event owning
      (insert_teams_of e (owning ∷ dedupe_from (owning ∷ []) extra) rows)
      (insert_teams_of-keeps e (dedupe_from (owning ∷ []) extra) event owning
        (insert_event_team e owning rows) (rw q (insert_event_team-adds e owning rows)))
insert_event_teams-owning (e ∷ es) owning extra event rows (inr i) =
    insert_event_teams-owning es owning extra event
      (insert_teams_of e (owning ∷ dedupe_from (owning ∷ []) extra) rows) i

-- A deletion that spares the rows of a query does not change its answer.
pub any-delete :
    {A : Type 0} (p q : A → Bool) (xs : List A)
    → ((x : A) → p x ≡ true → q x ≡ false)
    → any p (delete q xs) ≡ any p xs
any-delete p q [] spare = refl
any-delete p q (x ∷ xs) spare = elim (Bool-cases (q x)) [
  | inl e ↦ elim (Bool-cases (p x)) [
    | inl h ↦ absurd (ground (arith, e, spare x h))
    | inr h ↦ rw (e, h) (any-delete p q xs spare)
  ]
  | inr e ↦ rw e (rw (any-delete p q xs spare))
]

-- Rows of other events are spared.
pub Targets-delete :
    (gone : List ℕ) (event team : ℕ) (rows : List EventTeam)
    → contains gone event ≡ false
    → any (is_target event team) (delete (λ et. contains gone et.event_id) rows)
      ≡ any (is_target event team) rows
Targets-delete gone event team rows out =
    any-delete (is_target event team) (λ et. contains gone et.event_id) rows
      λ x h. let same : x.event_id ≡ event = ground (arith, h) in rw same out

insert_event_team-other :
    (e t event team : ℕ) (rows : List EventTeam)
    → e ≢ event
    → any (is_target event team) (insert_event_team e t rows) ≡ any (is_target event team) rows
insert_event_team-other e t event team rows ne = elim (Bool-cases (any (is_target e t) rows)) [
  | inl q ↦ rw q
  | inr q ↦ rw q (ground (arith, ne))
]

insert_teams_of-other :
    (e : ℕ) (teams : List ℕ) (event team : ℕ) (rows : List EventTeam)
    → e ≢ event
    → any (is_target event team) (insert_teams_of e teams rows) ≡ any (is_target event team) rows
insert_teams_of-other e [] event team rows ne = refl
insert_teams_of-other e (t ∷ ts) event team rows ne =
    insert_teams_of-other e ts event team (insert_event_team e t rows) ne
    ∙ insert_event_team-other e t event team rows ne

insert_event_teams-other :
    (es teams : List ℕ) (event team : ℕ) (rows : List EventTeam)
    → contains es event ≡ false
    → any (is_target event team) (insert_event_teams es teams rows)
      ≡ any (is_target event team) rows
unfolding insert_event_teams
insert_event_teams-other [] teams event team rows out = refl
insert_event_teams-other (e ∷ es) teams event team rows out =
    insert_event_teams-other es teams event team (insert_teams_of e teams rows)
      (ground (arith, out))
    ∙ insert_teams_of-other e teams event team rows (ground (arith, out))

-- The target teams of another event are not replaced.
pub replace_event_teams-other :
    (es : List ℕ) (owning : ℕ) (cross_team_ids : List ℕ) (s : Tables) (event team : ℕ)
    → contains es event ≡ false
    → any (is_target event team) (replace_event_teams es owning cross_team_ids s).event_teams
      ≡ any (is_target event team) s.event_teams
unfolding replace_event_teams
replace_event_teams-other es owning cross_team_ids s event team out =
    insert_event_teams-other es (dedup_team_ids owning cross_team_ids) event team _ out
    ∙ Targets-delete es event team s.event_teams out
