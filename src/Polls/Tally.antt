-- ===== src/Polls/Tally.antt =====
-- What the loop of assemblePoll (backend/internal/polls/service.go) computes.
use team_manager.Base.{
  ℕ, ◌+◌, ◌≡◌, refl, sym, ap, ◌∙◌, Bool, true, false, List, [], ◌∷◌, ◌++◌, map, count, select,
  contains, length, ◌==◌, Bool-cases, if◌then◌else◌, dedupe_from, arith, inl, inr,
}
use team_manager.Polls.Store.{PollVoteRow}
use team_manager.Polls.Assemble.{Tally, empty_tally, tally_vote, tally_votes}

append_assoc : {A : Type 0} (xs ys zs : List A) → (xs ++ ys) ++ zs ≡ xs ++ (ys ++ zs)
append_assoc [] ys zs = refl
append_assoc (x ∷ xs) ys zs = ap (λ r. x ∷ r) (append_assoc xs ys zs)

append_nil : {A : Type 0} (xs : List A) → xs ++ [] ≡ xs
append_nil [] = refl
append_nil (x ∷ xs) = ap (λ r. x ∷ r) (append_nil xs)

count_step :
    (me : ℕ) (t : Tally) (vs : List PollVoteRow) (o : ℕ)
    → (tally_votes me t vs).vote_counts o ≡ t.vote_counts o + count (λ v. o == v.option_id) vs
unfolding tally_votes tally_vote
count_step me t [] o = omega arith
count_step me t (v ∷ vs) o = elim (Bool-cases (o == v.option_id)) [
  | inl e ↦ ground (arith, count_step me (tally_vote me t v) vs o)
  | inr e ↦ ground (arith, count_step me (tally_vote me t v) vs o)
]

voters_step :
    (me : ℕ) (t : Tally) (vs : List PollVoteRow) (o : ℕ)
    → (tally_votes me t vs).voters_by_option o
      ≡ t.voters_by_option o ++ select (λ v. o == v.option_id) vs
unfolding tally_votes tally_vote
voters_step me t [] o = sym (append_nil (t.voters_by_option o))
voters_step me t (v ∷ vs) o =
    let rest = voters_step me (tally_vote me t v) vs o in
    elim (Bool-cases (o == v.option_id)) [
      | inl e ↦
          (rw e at rest)
          ∙ append_assoc (t.voters_by_option o) (v ∷ []) (select (λ w. o == w.option_id) vs)
          ∙ rw e
      | inr e ↦ rw e (rw e at rest)
    ]

mine_append :
    (c : Bool) (mine : List ℕ) (v : PollVoteRow) (vs : List PollVoteRow)
    → (if c then mine ++ (v.option_id ∷ []) else mine) ++ map (λ w. w.option_id) vs
      ≡ mine ++ map (λ (w : PollVoteRow). w.option_id) (if c then v ∷ vs else vs)
mine_append true mine v vs = append_assoc mine (v.option_id ∷ []) (map (λ w. w.option_id) vs)
mine_append false mine v vs = refl

mine_step :
    (me : ℕ) (t : Tally) (vs : List PollVoteRow)
    → (tally_votes me t vs).my_vote_ids
      ≡ t.my_vote_ids ++ map (λ v. v.option_id) (select (λ v. v.user_id == me) vs)
unfolding tally_votes tally_vote
mine_step me t [] = sym (append_nil t.my_vote_ids)
mine_step me t (v ∷ vs) =
    mine_step me (tally_vote me t v) vs
    ∙ mine_append (v.user_id == me) t.my_vote_ids v (select (λ w. w.user_id == me) vs)

total_step :
    (me : ℕ) (t : Tally) (vs : List PollVoteRow)
    → length (tally_votes me t vs).total_voters
      ≡ length t.total_voters + length (dedupe_from t.total_voters (map (λ v. v.user_id) vs))
unfolding tally_votes tally_vote dedupe_from
total_step me t [] = omega arith
total_step me t (v ∷ vs) = elim (Bool-cases (contains t.total_voters v.user_id)) [
  | inl e ↦ ground (arith, total_step me (tally_vote me t v) vs)
  | inr e ↦ ground (arith, total_step me (tally_vote me t v) vs)
]

-- The loop of assemblePoll computes, for every option, the number and the list of the votes for it,
-- the number of distinct voters, and the options that the current user chose, in the order of the
-- votes.
pub tally_votes_lem :
    (me : ℕ) (vs : List PollVoteRow)
    → ((o : ℕ)
        → ((tally_votes me empty_tally vs).vote_counts o ≡ count (λ v. o == v.option_id) vs)
          × ((tally_votes me empty_tally vs).voters_by_option o
              ≡ select (λ v. o == v.option_id) vs))
      × (length (tally_votes me empty_tally vs).total_voters
          ≡ length (dedupe_from [] (map (λ v. v.user_id) vs)))
      × ((tally_votes me empty_tally vs).my_vote_ids
          ≡ map (λ v. v.option_id) (select (λ v. v.user_id == me) vs))
tally_votes_lem me vs = (
  λ o. (omega (arith, count_step me empty_tally vs o), voters_step me empty_tally vs o),
  omega (arith, total_step me empty_tally vs),
  mine_step me empty_tally vs,
)
