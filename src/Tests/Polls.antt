-- ===== src/Tests/Polls.antt =====
-- A single-choice poll with one vote (backend/internal/polls), at the team of the tests of the roster.
use team_manager.Base.{
  ℕ, ◌+◌, ◌*◌, ◌≤◌, ◌≡◌, refl, inl, inr, true, false, [], ◌∷◌, map, none, some, In, ok, err, arith,
  count, select, length, dedupe_from, ◌==◌,
}
use team_manager.Polls.Store.{
  Store, PollRow, PollOptionRow, PollVoteRow, is_poll, is_poll_member, option_in_poll, dedupe_uuids,
  single_choice_multiple_options, option_not_in_poll,
}
use team_manager.Polls.Assemble.{Poll, assemble_poll, empty_tally, tally_votes}
use team_manager.Polls.Service.{build_poll, create, vote}
use team_manager.Polls.Tally.{tally_votes_lem}
use team_manager.Polls.Anonymity.{renamed, assemble_poll-anonymous}
use team_manager.Polls.Votes.{Replaced}
use team_manager.Polls.Voting.{vote_lem, vote_succeeds}
use team_manager.Polls.SingleChoice.{
  Reached, empty, next, empty_store, created, voted, single_choice,
}
use team_manager.Tests.Roster.{team_db}

abbrev poll : PollRow
poll = record {
  id = 1;
  team_id = 10;
  creator_id = 1;
  question = "When?";
  multiple = false;
  anonymous = true;
  created_at = 9;
}

abbrev option_keys : ℕ → ℕ
option_keys i = i + 70

abbrev new_store : Store
new_store = record {
  polls = poll ∷ [];
  options =
      record { id = 70; poll_id = 1; text = "Mon"; sort_order = 0 }
      ∷ record { id = 71; poll_id = 1; text = "Tue"; sort_order = 1 }
      ∷ [];
  votes = [];
}

abbrev bens_vote : PollVoteRow
bens_vote = record { poll_id = 1; option_id = 71; user_id = 2 }

abbrev voted_store : Store
voted_store = record new_store { votes = bens_vote ∷ [] }

poll_created :
    create empty_store 1 9 option_keys 10 1 "When?" none (some true) ("Mon" ∷ "Tue" ∷ [])
    ≡ ok (build_poll new_store poll 1, new_store)
unfolding create team_manager.Polls.Store.count_by_team team_manager.Polls.Store.find_by_id
    team_manager.Polls.Store.insert_poll
poll_created = refl

ben_votes :
    vote team_db new_store 1 10 2 (71 ∷ 71 ∷ []) ≡ ok (build_poll voted_store poll 2, voted_store)
unfolding vote team_manager.Polls.Store.find_by_id dedupe_uuids dedupe_from
    team_manager.Polls.Store.replace_votes team_manager.Roster.Queries.is_member
ben_votes = refl

-- Two options on a single-choice poll, and an option of no poll, are refused.
ben_votes_twice : vote team_db new_store 1 10 2 (70 ∷ 71 ∷ []) ≡ err single_choice_multiple_options
unfolding vote team_manager.Polls.Store.find_by_id dedupe_uuids dedupe_from
ben_votes_twice = refl

ben_votes_elsewhere : vote team_db new_store 1 10 2 (72 ∷ []) ≡ err option_not_in_poll
unfolding vote team_manager.Polls.Store.find_by_id dedupe_uuids dedupe_from
    team_manager.Polls.Store.replace_votes team_manager.Roster.Queries.is_member
ben_votes_elsewhere = refl

voted_Reached : Reached voted_store
voted_Reached =
    next new_store voted_store
      (next empty_store new_store empty (
        created 1 9 option_keys 10 1 "When?" none (some true) ("Mon" ∷ "Tue" ∷ [])
          (build_poll new_store poll 1) refl poll_created))
      (voted team_db 1 10 2 (71 ∷ 71 ∷ []) (build_poll voted_store poll 2) ben_votes)

single_choice_example : bens_vote.option_id ≡ bens_vote.option_id
single_choice_example =
    single_choice voted_store poll bens_vote bens_vote voted_Reached (inl refl) refl (inl refl)
      (inl refl) refl refl refl

vote_lem_example : Replaced new_store voted_store 1 2 (71 ∷ 71 ∷ [])
vote_lem_example =
    vote_lem team_db new_store 1 10 2 (71 ∷ 71 ∷ []) (build_poll voted_store poll 2) voted_store
      ben_votes

poll_found : is_poll_member team_db new_store.polls 1 2 ≡ true
unfolding is_poll_member team_manager.Roster.Queries.is_member
poll_found = refl

valid_options : (o : ℕ) → In o (71 ∷ 71 ∷ []) → option_in_poll new_store.options 1 o ≡ true
valid_options o (inl e) = rw e
valid_options o (inr (inl e)) = rw e
valid_options o (inr (inr i)) = elim i [ ]

one_choice : length (dedupe_uuids (71 ∷ 71 ∷ [])) ≤ 1
unfolding dedupe_uuids dedupe_from
one_choice = omega arith

vote_succeeds_example :
    (p : Poll) × (s' : Store) × (vote team_db new_store 1 10 2 (71 ∷ 71 ∷ []) ≡ ok (p, s'))
vote_succeeds_example =
    vote_succeeds team_db new_store 1 10 2 (71 ∷ 71 ∷ []) poll refl poll_found valid_options
      (inr one_choice)

tally_votes_lem_example :
    ((o : ℕ)
      → ((tally_votes 2 empty_tally (bens_vote ∷ [])).vote_counts o
          ≡ count (λ v. o == v.option_id) (bens_vote ∷ []))
        × ((tally_votes 2 empty_tally (bens_vote ∷ [])).voters_by_option o
            ≡ select (λ v. o == v.option_id) (bens_vote ∷ [])))
    × (length (tally_votes 2 empty_tally (bens_vote ∷ [])).total_voters
        ≡ length (dedupe_from [] (map (λ v. v.user_id) (bens_vote ∷ []))))
    × ((tally_votes 2 empty_tally (bens_vote ∷ [])).my_vote_ids
        ≡ map (λ v. v.option_id) (select (λ v. v.user_id == 2) (bens_vote ∷ [])))
tally_votes_lem_example = tally_votes_lem 2 (bens_vote ∷ [])

-- Another numbering of the voters, in which user 0 keeps its number.
abbrev swapped : ℕ → ℕ
swapped n = n * 3

swapped_injective : (a b : ℕ) → swapped a ≡ swapped b → a ≡ b
swapped_injective a b e = omega arith

assemble_poll-anonymous_example :
    assemble_poll poll new_store.options (map (renamed swapped) (bens_vote ∷ [])) 0
    ≡ assemble_poll poll new_store.options (bens_vote ∷ []) 0
assemble_poll-anonymous_example =
    assemble_poll-anonymous poll new_store.options (bens_vote ∷ []) 0 swapped refl swapped_injective
      refl
