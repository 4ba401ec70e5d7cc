-- ===== src/Polls/Voting.antt =====
-- Vote, Create and Delete of backend/internal/polls/service.go: what they leave, when Vote succeeds,
-- and that a single-choice poll holds at most one vote of a user.
use team_manager.Base.{
  ℕ, ◌≤◌, ◌≡◌, sym, ap, ◌∙◌, ◌⊎◌, inl, inr, true, false, not, ◌&&◌, List, [], ◌∷◌, some, In, any,
  any-In, ◌==◌, ==_iff, Bool-cases, find, find-In, ltb, length, Distinct, ok, >>-eq-ok, >>=-eq-ok,
  or_fail, or_fail-ok, reject_if, reject_if-ok, ok-injective, arith, Distinct-eq,
}
use team_manager.Roster.Db.{Db}
use team_manager.Polls.Store.{
  Store, PollRow, PollVoteRow, no_rows, single_choice_multiple_options, is_poll, find_by_id,
  option_in_poll, is_poll_member, dedupe_uuids, replace_votes,
}
use team_manager.Polls.Assemble.{Poll}
use team_manager.Polls.Service.{build_poll, vote}
use team_manager.Polls.Votes.{
  Replaced, replace_votes-Replaced, replace_votes_succeeds, dedupe_uuids-In, In-dedupe_uuids,
}

-- What a successful Vote has done.
pub vote-checked :
    (db : Db) (s : Store) (poll team user : ℕ) (ids : List ℕ) (p : Poll) (s' : Store)
    → vote db s poll team user ids ≡ ok (p, s')
    → (pr : PollRow) × (find (is_poll poll team) s.polls ≡ some pr)
      × ((not pr.multiple && ltb 1 (length (dedupe_uuids ids))) ≡ false)
      × (replace_votes db s poll user (dedupe_uuids ids) ≡ ok s')
unfolding vote find_by_id
vote-checked db s poll team user ids p s' h =
    let (pr, found, h₁) =
      >>=-eq-ok (or_fail (find (is_poll poll team) s.polls) no_rows) _ (p, s') h in
    let (single, h₂) =
      >>-eq-ok
        (reject_if (not pr.multiple && ltb 1 (length (dedupe_uuids ids)))
          single_choice_multiple_options)
        _ (p, s') h₁ in
    let (t, replaced, h₃) =
      >>=-eq-ok (replace_votes db s poll user (dedupe_uuids ids)) _ (p, s') h₂ in
    let (fresh, _, h₄) =
      >>=-eq-ok (or_fail (find (is_poll poll team) t.polls) no_rows)
        (λ (f : PollRow). ok (build_poll t f user, t)) (p, s') h₃ in
    let same : s' ≡ t =
      ap (λ (r : Poll × Store). r.1) (ok-injective (build_poll t fresh user, t) (p, s') h₄) in
    (
      pr,
      or_fail-ok _ no_rows pr found,
      reject_if-ok _ single_choice_multiple_options single,
      replaced ∙ ap (λ (x : Store). ok x) (sym same),
    )

given-Replaced :
    (s s' : Store) (poll user : ℕ) (ids : List ℕ)
    → Replaced s s' poll user (dedupe_uuids ids)
    → Replaced s s' poll user ids
given-Replaced s s' poll user ids r = record {
  polls = r.polls;
  options = r.options;
  others = r.others;
  chosen = λ o i. r.chosen o (In-dedupe_uuids ids o i);
  only_chosen = λ v i p u. dedupe_uuids-In ids v.option_id (r.only_chosen v i p u);
  valid = λ o i. r.valid o (In-dedupe_uuids ids o i);
}

-- After a successful Vote each given option is one of the poll and has a vote of the user, the user
-- has no other vote on the poll, and every vote on another poll or of another user is what it was,
-- as are polls and options.
pub vote_lem :
    (db : Db) (s : Store) (poll team user : ℕ) (ids : List ℕ) (p : Poll) (s' : Store)
    → vote db s poll team user ids ≡ ok (p, s')
    → Replaced s s' poll user ids
vote_lem db s poll team user ids p s' h =
    let (_, _, _, replaced) = vote-checked db s poll team user ids p s' h in
    given-Replaced s s' poll user ids
      (replace_votes-Replaced db s poll user (dedupe_uuids ids) s' replaced)

-- Vote succeeds for a poll of the team, a member of the poll's team, and any options of the poll,
-- repeated or not, of which there are not two different ones if the poll is single-choice.
pub vote_succeeds :
    (db : Db) (s : Store) (poll team user : ℕ) (ids : List ℕ) (pr : PollRow)
    → find (is_poll poll team) s.polls ≡ some pr
    → is_poll_member db s.polls poll user ≡ true
    → ((o : ℕ) → In o ids → option_in_poll s.options poll o ≡ true)
    → (pr.multiple ≡ true) ⊎ (length (dedupe_uuids ids) ≤ 1)
    → (p : Poll) × (s' : Store) × (vote db s poll team user ids ≡ ok (p, s'))
unfolding vote find_by_id
vote_succeeds db s poll team user ids pr found member valid single =
    let (s', replaced) =
      replace_votes_succeeds db s poll user (dedupe_uuids ids) member
        (λ o i. valid o (dedupe_uuids-In ids o i)) in
    let r = replace_votes-Replaced db s poll user (dedupe_uuids ids) s' replaced in
    let choices : (not pr.multiple && ltb 1 (length (dedupe_uuids ids))) ≡ false = ground arith in
    let again : find (is_poll poll team) s'.polls ≡ some pr = rw r.polls found in
    (build_poll s' pr user, s', rw (found, choices, replaced, again))

-- Votes are for polls that exist, and on a single-choice poll of one user for one option.
pub record IsValid (s : Store) : Type 0 where
  pub keys : Distinct (λ p. p.id) s.polls
  pub exists : (v : PollVoteRow) → In v s.votes → any (λ p. p.id == v.poll_id) s.polls ≡ true
  pub single :
      (p : PollRow) (v w : PollVoteRow)
      → In p s.polls
      → p.multiple ≡ false
      → In v s.votes
      → In w s.votes
      → v.poll_id ≡ p.id
      → w.poll_id ≡ p.id
      → v.user_id ≡ w.user_id
      → v.option_id ≡ w.option_id

at_most_one : (ids : List ℕ) (a b : ℕ) → length ids ≤ 1 → In a ids → In b ids → a ≡ b
at_most_one [] a b h i j = elim i [ ]
at_most_one (x ∷ []) a b h (inl p) (inl q) = p ∙ sym q
at_most_one (x ∷ []) a b h (inl p) (inr j) = elim j [ ]
at_most_one (x ∷ []) a b h (inr i) j = elim i [ ]
at_most_one (x ∷ y ∷ ys) a b h i j = absurd (omega arith)

pub vote-IsValid :
    (db : Db) (s : Store) (poll team user : ℕ) (ids : List ℕ) (p : Poll) (s' : Store)
    → IsValid s
    → vote db s poll team user ids ≡ ok (p, s')
    → IsValid s'
vote-IsValid db s poll team user ids p s' v h =
    let (pr, found, choices, replaced) = vote-checked db s poll team user ids p s' h in
    let r = replace_votes-Replaced db s poll user (dedupe_uuids ids) s' replaced in
    let (i, is_pr) = find-In (is_poll poll team) pr s.polls found in
    record {
      keys = rw r.polls v.keys;
      exists = λ x j. elim (Bool-cases (x.poll_id == poll && x.user_id == user)) [
        | inl own ↦ rw r.polls (any_of x pr i (ground arith))
        | inr other ↦ rw r.polls (v.exists x ((r.others x (ground arith)).1 j))
      ];
      single = λ q x y k one a b on_x on_y same.
          let k' = in_eq q r.polls k in
          elim (Bool-cases (x.poll_id == poll && x.user_id == user)) [
            | inl own ↦
                let row : q ≡ pr =
                  Distinct-eq (λ z. z.id) q pr s.polls v.keys k' i (ground arith) in
                let few : length (dedupe_uuids ids) ≤ 1 =
                  ground (arith, ap (λ (z : PollRow). z.multiple) row) in
                at_most_one (dedupe_uuids ids) x.option_id y.option_id few
                  (r.only_chosen x a (ground arith) (ground arith))
                  (r.only_chosen y b (ground arith) (ground arith))
            | inr other ↦
                v.single q x y k' one ((r.others x (ground arith)).1 a)
                  ((r.others y (ground arith)).1 b) on_x on_y same
          ];
    }
  where
    in_eq : {xs ys : List PollRow} (q : PollRow) → xs ≡ ys → In q xs → In q ys
    in_eq q e i = rw (← e) i

    any_of :
        (x : PollVoteRow) (q : PollRow)
        → In q s.polls
        → q.id ≡ x.poll_id
        → any (λ z. z.id == x.poll_id) s.polls ≡ true
    any_of x q i e = any-In (λ z. z.id == x.poll_id) q s.polls i ((==_iff q.id x.poll_id).1 e)
