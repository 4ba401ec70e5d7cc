-- ===== src/Polls/Store.antt =====
-- backend/internal/polls/model.go and repository.go: the tables of polls, options and votes.
-- Memberships are those of the roster; the columns of the voters' accounts that the page shows
-- (name, colour, photo) are not modelled.
use team_manager.Base.{
  ℕ, suc, Bool, not, ◌&&◌, String, List, [], ◌∷◌, ◌++◌, Option, none, some, ◌==◌, leb, any, count,
  select, delete, find, if◌then◌else◌, Outcome, ok, err, ◌>>◌, reject_if, or_fail, dedupe_from,
}
use team_manager.Roster.Db.{Db}
use team_manager.Roster.Queries.{is_member}

pub record PollRow : Type 0 where
  pub id : ℕ
  pub team_id : ℕ
  pub creator_id : ℕ
  pub question : String
  pub multiple : Bool
  pub anonymous : Bool
  pub created_at : ℕ

pub record PollOptionRow : Type 0 where
  pub id : ℕ
  pub poll_id : ℕ
  pub text : String
  pub sort_order : ℕ

pub record PollVoteRow : Type 0 where
  pub poll_id : ℕ
  pub option_id : ℕ
  pub user_id : ℕ

pub record Store : Type 0 where
  pub polls : List PollRow
  pub options : List PollOptionRow
  pub votes : List PollVoteRow

pub data Error : Type 0 where
  no_rows option_not_in_poll single_choice_multiple_options too_many_polls : Error

abbrev pub Result {ℓ} : Type ℓ → Type ℓ
Result A = Outcome Error A

-- `WHERE id = $1 AND team_id = $2`
abbrev pub is_poll : ℕ → ℕ → PollRow → Bool
is_poll poll team p = p.id == poll && p.team_id == team

unfoldable pub find_by_id : Store → ℕ → ℕ → Result PollRow
find_by_id s poll team = or_fail (find (is_poll poll team) s.polls) no_rows

unfoldable pub count_by_team : Store → ℕ → ℕ
count_by_team s team = count (λ p. p.team_id == team) s.polls

-- The rows of the options loop of Create: the sort order is the index, and `keys` are the ids that
-- the database generates.
unfoldable pub option_rows : ℕ → (ℕ → ℕ) → ℕ → List String → List PollOptionRow
option_rows poll keys i [] = []
option_rows poll keys i (text ∷ texts) =
    record { id = keys i; poll_id = poll; text = text; sort_order = i }
    ∷ option_rows poll keys (suc i) texts

unfoldable pub insert_poll : Store → PollRow → (ℕ → ℕ) → List String → Store
unfolding option_rows
insert_poll s poll keys texts = record s {
  polls = poll ∷ s.polls;
  options = option_rows poll.id keys 0 texts ++ s.options;
}

-- The foreign keys of poll_options and poll_votes cascade.
unfoldable pub delete_poll : Store → ℕ → ℕ → Result Store
delete_poll s poll team =
    reject_if (not (any (is_poll poll team) s.polls)) no_rows
    >> ok (record s {
      polls = delete (is_poll poll team) s.polls;
      options = delete (λ o. o.poll_id == poll) s.options;
      votes = delete (λ v. v.poll_id == poll) s.votes;
    })

-- `ORDER BY sort_order`
unfoldable pub insert_option : PollOptionRow → List PollOptionRow → List PollOptionRow
insert_option o [] = o ∷ []
insert_option o (p ∷ ps) =
    let rest = insert_option o ps in if leb o.sort_order p.sort_order then o ∷ p ∷ ps else p ∷ rest

unfoldable pub order_options : List PollOptionRow → List PollOptionRow
unfolding insert_option
order_options [] = []
order_options (o ∷ os) = insert_option o (order_options os)

unfoldable pub list_options : Store → ℕ → List PollOptionRow
unfolding order_options
list_options s poll = order_options (select (λ o. o.poll_id == poll) s.options)

unfoldable pub list_votes : Store → ℕ → List PollVoteRow
list_votes s poll = select (λ v. v.poll_id == poll) s.votes

abbrev pub option_in_poll : List PollOptionRow → ℕ → ℕ → Bool
option_in_poll options poll option = any (λ o. o.id == option && o.poll_id == poll) options

-- `memberships m JOIN polls p ON p.team_id = m.team_id WHERE p.id = $1 AND m.user_id = $3`
abbrev pub is_poll_member : Db → List PollRow → ℕ → ℕ → Bool
is_poll_member db polls poll user = any (λ p. p.id == poll && is_member db p.team_id user) polls

-- The primary key (poll_id, option_id, user_id) of poll_votes.
abbrev pub has_vote : List PollVoteRow → ℕ → ℕ → ℕ → Bool
has_vote votes poll option user =
    any (λ v. v.poll_id == poll && v.option_id == option && v.user_id == user) votes

abbrev pub new_vote : ℕ → ℕ → ℕ → PollVoteRow
new_vote poll user option = record { poll_id = poll; option_id = option; user_id = user }

-- The guarded INSERT … ON CONFLICT DO NOTHING; `none` is a row count of 0.
unfoldable pub insert_vote : Db → Store → ℕ → ℕ → ℕ → Option Store
insert_vote db s poll user option =
    if option_in_poll s.options poll option
      && is_poll_member db s.polls poll user
      && not (has_vote s.votes poll option user)
    then some (record s { votes = new_vote poll user option ∷ s.votes })
    else none

unfoldable pub diagnose_replace_votes_rejection : Db → Store → ℕ → ℕ → Error
diagnose_replace_votes_rejection db s poll user =
    if any (λ p. p.id == poll) s.polls
    then if is_poll_member db s.polls poll user then option_not_in_poll else no_rows
    else no_rows

-- The loop over the options of ReplaceVotes.
unfoldable pub insert_votes : Db → Store → ℕ → ℕ → List ℕ → Result Store
unfolding insert_vote diagnose_replace_votes_rejection
insert_votes db s poll user [] = ok s
insert_votes db s poll user (option ∷ options) = elim (insert_vote db s poll user option) [
  | none ↦ err (diagnose_replace_votes_rejection db s poll user)
  | some s' ↦ insert_votes db s' poll user options
]

unfoldable pub dedupe_uuids : List ℕ → List ℕ
dedupe_uuids ids = dedupe_from [] ids

-- `DELETE FROM poll_votes WHERE poll_id = $1 AND user_id = $2`
unfoldable pub clear_votes : Store → ℕ → ℕ → Store
clear_votes s poll user = record s {
  votes = delete (λ v. v.poll_id == poll && v.user_id == user) s.votes;
}

-- An error rolls the transaction back.
unfoldable pub replace_votes : Db → Store → ℕ → ℕ → List ℕ → Result Store
unfolding insert_votes clear_votes dedupe_uuids
replace_votes db s poll user ids =
    insert_votes db (clear_votes s poll user) poll user (dedupe_uuids ids)
