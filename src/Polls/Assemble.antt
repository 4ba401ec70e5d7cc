-- ===== src/Polls/Assemble.antt =====
-- assemblePoll of backend/internal/polls/service.go: the loop over the votes, whose maps are
-- functions, and the poll that is reported. The percentage of an option, a float32, and the voters'
-- names and photos are not modelled.
use team_manager.Base.{
  ℕ, suc, Bool, String, List, [], ◌∷◌, ◌++◌, map, Option, none, some, ◌==◌, contains, length,
  if◌then◌else◌,
}
use team_manager.Polls.Store.{PollRow, PollOptionRow, PollVoteRow}

-- The variables of the loop: voteCounts, votersByOption, totalVoters and myVoteIDs.
pub record Tally : Type 0 where
  pub vote_counts : ℕ → ℕ
  pub voters_by_option : ℕ → List PollVoteRow
  pub total_voters : List ℕ
  pub my_vote_ids : List ℕ

abbrev pub empty_tally : Tally
empty_tally = record {
  vote_counts = λ o. 0;
  voters_by_option = λ o. [];
  total_voters = [];
  my_vote_ids = [];
}

unfoldable pub tally_vote : ℕ → Tally → PollVoteRow → Tally
tally_vote me t v = record {
  vote_counts = λ o. if o == v.option_id then suc (t.vote_counts o) else t.vote_counts o;
  voters_by_option =
      λ o. if o == v.option_id then t.voters_by_option o ++ (v ∷ []) else t.voters_by_option o;
  total_voters =
      if contains t.total_voters v.user_id then t.total_voters else v.user_id ∷ t.total_voters;
  my_vote_ids = if v.user_id == me then t.my_vote_ids ++ (v.option_id ∷ []) else t.my_vote_ids;
}

unfoldable pub tally_votes : ℕ → Tally → List PollVoteRow → Tally
unfolding tally_vote
tally_votes me t [] = t
tally_votes me t (v ∷ vs) = tally_votes me (tally_vote me t v) vs

-- gen.PollOption and gen.Poll, the parts of them that the model has.
pub record PollOption : Type 0 where
  pub id : ℕ
  pub text : String
  pub count : ℕ
  pub voters : Option (List ℕ)

pub record Poll : Type 0 where
  pub id : ℕ
  pub question : String
  pub multiple : Bool
  pub anonymous : Bool
  pub created_at : ℕ
  pub options : List PollOption
  pub total_votes : ℕ
  pub my_vote : List ℕ

unfoldable pub assemble_option : PollRow → Tally → PollOptionRow → PollOption
assemble_option pr t opt = record {
  id = opt.id;
  text = opt.text;
  count = t.vote_counts opt.id;
  voters = if pr.anonymous then none else some (map (λ v. v.user_id) (t.voters_by_option opt.id));
}

unfoldable pub assemble_poll : PollRow → List PollOptionRow → List PollVoteRow → ℕ → Poll
unfolding tally_votes assemble_option
assemble_poll pr options votes me =
    let t = tally_votes me empty_tally votes in
    record {
      id = pr.id;
      question = pr.question;
      multiple = pr.multiple;
      anonymous = pr.anonymous;
      created_at = pr.created_at;
      options = map (assemble_option pr t) options;
      total_votes = length t.total_voters;
      my_vote = t.my_vote_ids;
    }
