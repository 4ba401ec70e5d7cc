-- ===== src/Events/Untouched.antt =====
-- Statements of UpdateEvent (backend/internal/events/repository.go) that leave an event alone.
use team_manager.Base.{
  ℕ, ◌≡◌, ◌∙◌, refl, sym, subst, Bool, false, List, Option, none, some, In, any, update, In-update,
  if◌then◌else◌, contains, ok,
}
use team_manager.Events.Store.{EventRow, Tables}
use team_manager.Events.Creation.{is_target}
use team_manager.Events.Changes.{update_events, replace_event_teams, retarget}
use team_manager.Events.Targets.{replace_event_teams-other}
use team_manager.Events.WellPlanned.{update_events-ok}

-- The event stands in the table as it was, and is for the same teams.
abbrev pub Untouched : Tables → EventRow → Tables → Type 0
Untouched s e s' =
    In e s'.events
    × ((t : ℕ) → any (is_target e.id t) s'.event_teams ≡ any (is_target e.id t) s.event_teams)

pub then_Untouched :
    (s s₁ s' : Tables) (e : EventRow) → Untouched s e s₁ → Untouched s₁ e s' → Untouched s e s'
then_Untouched s s₁ s' e (i, a) (j, b) = (j, λ t. b t ∙ a t)

pub update-Untouched :
    (p : EventRow → Bool) (f : EventRow → EventRow) (s : Tables) (e : EventRow)
    → In e s.events
    → p e ≡ false
    → Untouched s e (record s { events = update p f s.events })
update-Untouched p f s e i out = (
  subst (λ b. In (if b then f e else e) (update p f s.events)) out (In-update p f e s.events i),
  λ t. refl,
)

pub update_events-Untouched :
    (p : EventRow → Bool) (f : EventRow → EventRow) (s s' : Tables) (e : EventRow)
    → update_events p f s ≡ ok s'
    → In e s.events
    → p e ≡ false
    → Untouched s e s'
update_events-Untouched p f s s' e h i out =
    subst (Untouched s e) (sym (update_events-ok p f s s' h).0) (update-Untouched p f s e i out)

pub replace_event_teams-Untouched :
    (es : List ℕ) (owning : ℕ) (ids : List ℕ) (s : Tables) (e : EventRow)
    → In e s.events
    → contains es e.id ≡ false
    → Untouched s e (replace_event_teams es owning ids s)
unfolding replace_event_teams
replace_event_teams-Untouched es owning ids s e i out =
    (i, λ t. replace_event_teams-other es owning ids s e.id t out)

pub retarget-Untouched :
    (o : Option (List ℕ)) (f : List ℕ → Tables → Tables) (s : Tables) (e : EventRow)
    → In e s.events
    → ((ids : List ℕ) → Untouched s e (f ids s))
    → Untouched s e (retarget o f s)
retarget-Untouched none f s e i replaced = (i, λ t. refl)
retarget-Untouched (some ids) f s e i replaced = replaced ids
