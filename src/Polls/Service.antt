-- ===== src/Polls/Service.antt =====
-- backend/internal/polls/service.go: Create, Vote, Delete and buildPoll. The notification that
-- Create enqueues is not modelled.
use team_manager.Base.{
  ℕ, Bool, false, not, ◌&&◌, String, List, Option, leb, ltb, length, or_default, ok, ◌>>=◌,
  reject_if, ◌>>◌,
}
use team_manager.Roster.Db.{Db}
use team_manager.Polls.Store.{
  Store, PollRow, Result, single_choice_multiple_options, too_many_polls, find_by_id, count_by_team,
  insert_poll, list_options, list_votes, dedupe_uuids, replace_votes,
}
use team_manager.Polls.Assemble.{Poll, assemble_poll}

abbrev pub max_polls_per_team : ℕ
max_polls_per_team = 50000

unfoldable pub build_poll : Store → PollRow → ℕ → Poll
build_poll s pr me = assemble_poll pr (list_options s pr.id) (list_votes s pr.id) me

-- `new_id`, `now` and `keys` are what the database generates.
unfoldable pub create :
    Store
    → ℕ
    → ℕ
    → (ℕ → ℕ)
    → ℕ
    → ℕ
    → String
    → Option Bool
    → Option Bool
    → List String
    → Result (Poll × Store)
unfolding build_poll
create s new_id now keys team creator question multiple anonymous texts = do
  reject_if (leb max_polls_per_team (count_by_team s team)) too_many_polls
  let row : PollRow = record {
    id = new_id;
    team_id = team;
    creator_id = creator;
    question = question;
    multiple = or_default multiple false;
    anonymous = or_default anonymous false;
    created_at = now;
  }
  let s' = insert_poll s row keys texts
  pr ← find_by_id s' new_id team
  ok (build_poll s' pr creator, s')

unfoldable pub vote : Db → Store → ℕ → ℕ → ℕ → List ℕ → Result (Poll × Store)
unfolding build_poll
vote db s poll team user ids = do
  pr ← find_by_id s poll team
  let option_ids = dedupe_uuids ids
  reject_if (not pr.multiple && ltb 1 (length option_ids)) single_choice_multiple_options
  s' ← replace_votes db s poll user option_ids
  fresh ← find_by_id s' poll team
  ok (build_poll s' fresh user, s')
