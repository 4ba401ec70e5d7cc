-- ===== src/Polls/Votes.antt =====
-- ReplaceVotes of backend/internal/polls/repository.go: when the loop of inserts succeeds, and the
-- votes that it leaves.
use team_manager.Base.{
  ℕ, ◌≡◌, ◌≢◌, refl, ap, ◌∙◌, ◌⊎◌, inl, inr, Bool, true, false, ◌&&◌, List, [], ◌∷◌, Option, some,
  none, In, any_witness, ◌==◌, Bool-cases, delete, delete-In, In-delete, Distinct, dedupe_from,
  dedupe_from-Distinct, contains→In, In→contains, contains-dedupe_from, Outcome, ok, err,
  ok-injective, arith, All-In,
}
use team_manager.Roster.Db.{Db}
use team_manager.Polls.Store.{
  Store, PollVoteRow, Error, option_in_poll, is_poll_member, has_vote, new_vote, insert_vote,
  insert_votes, diagnose_replace_votes_rejection, clear_votes, dedupe_uuids, replace_votes,
}

-- The votes for the options on top of those there are, as the loop leaves them.
abbrev pub pushed : ℕ → ℕ → List ℕ → List PollVoteRow → List PollVoteRow
pushed poll user [] votes = votes
pushed poll user (o ∷ os) votes = pushed poll user os (new_vote poll user o ∷ votes)

abbrev pub with_votes : Store → List PollVoteRow → Store
with_votes s votes = record s { votes = votes }

pub insert_vote-some :
    (db : Db) (s : Store) (poll user o : ℕ) (s' : Store)
    → insert_vote db s poll user o ≡ some s'
    → (option_in_poll s.options poll o ≡ true)
      × (is_poll_member db s.polls poll user ≡ true)
      × (s' ≡ with_votes s (new_vote poll user o ∷ s.votes))
unfolding insert_vote
insert_vote-some db s poll user o s' h = (ground arith, ground arith, ground arith)

pub insert_votes-ok :
    (db : Db) (s : Store) (poll user : ℕ) (os : List ℕ) (s' : Store)
    → insert_votes db s poll user os ≡ ok s'
    → (s' ≡ with_votes s (pushed poll user os s.votes))
      × ((o : ℕ)
          → In o os
          → (option_in_poll s.options poll o ≡ true) × (is_poll_member db s.polls poll user ≡ true))
unfolding insert_votes
insert_votes-ok db s poll user [] s' h = (ok-injective s s' h, λ o i. elim i [ ])
insert_votes-ok db s poll user (o ∷ os) s' h =
    go (λ t q. insert_votes-ok db t poll user os s' q) (insert_vote db s poll user o) refl h
  where
    go :
        ((t : Store)
          → insert_votes db t poll user os ≡ ok s'
          → (s' ≡ with_votes t (pushed poll user os t.votes))
            × ((k : ℕ)
                → In k os
                → (option_in_poll t.options poll k ≡ true)
                  × (is_poll_member db t.polls poll user ≡ true)))
        → (r : Option Store) → insert_vote db s poll user o ≡ r
        → ◌≡◌ {A = Outcome Error Store}
            (elim r [
              | none ↦ err (diagnose_replace_votes_rejection db s poll user)
              | some t ↦ insert_votes db t poll user os
            ])
            (ok s')
        → (s' ≡ with_votes s (pushed poll user (o ∷ os) s.votes))
          × ((k : ℕ)
              → In k (o ∷ os)
              → (option_in_poll s.options poll k ≡ true)
                × (is_poll_member db s.polls poll user ≡ true))
    go rec none e q = cc
    go rec (some t) e q =
        let (valid, member, same) = insert_vote-some db s poll user o t e in
        let (done, all) = rec t q in
        (
          done ∙ ap (λ (x : Store). with_votes x (pushed poll user os x.votes)) same,
          λ k i. elim i [
            | inl p ↦ rw p (valid, member)
            | inr j ↦ (rw (ap (λ (x : Store). x.options) same) at (all k j).0, member)
          ],
        )

insert_vote_fresh :
    (db : Db) (s : Store) (poll user o : ℕ)
    → option_in_poll s.options poll o ≡ true
    → is_poll_member db s.polls poll user ≡ true
    → has_vote s.votes poll o user ≡ false
    → insert_vote db s poll user o ≡ some (with_votes s (new_vote poll user o ∷ s.votes))
unfolding insert_vote
insert_vote_fresh db s poll user o valid member fresh = rw (valid, member, fresh)

-- Every insert succeeds when the options are distinct options of the poll and the user, a member of
-- its team, has no vote for them.
pub insert_votes_succeeds :
    (db : Db) (s : Store) (poll user : ℕ) (os : List ℕ)
    → Distinct (λ o. o) os
    → is_poll_member db s.polls poll user ≡ true
    → ((o : ℕ) → In o os → option_in_poll s.options poll o ≡ true)
    → ((o : ℕ) → In o os → has_vote s.votes poll o user ≡ false)
    → insert_votes db s poll user os ≡ ok (with_votes s (pushed poll user os s.votes))
unfolding insert_votes
insert_votes_succeeds db s poll user [] d member valid fresh = refl
insert_votes_succeeds db s poll user (o ∷ os) d member valid fresh =
    let rest =
      insert_votes_succeeds db (with_votes s (new_vote poll user o ∷ s.votes)) poll user os d.1
        member (λ k i. valid k (inr i)) (λ k i. still_fresh k i) in
    rw
      (
        insert_votes,
        insert_vote_fresh db s poll user o (valid o (inl refl)) member (fresh o (inl refl)),
      )
      rest
  where
    still_fresh : (k : ℕ) → In k os → has_vote (new_vote poll user o ∷ s.votes) poll k user ≡ false
    still_fresh k i = ground (arith, fresh k (inr i), All-In (λ y. o ≢ y) k os d.0 i)

pushed-In :
    (poll user : ℕ) (os : List ℕ) (votes : List PollVoteRow) (v : PollVoteRow)
    → In v (pushed poll user os votes)
    → In v votes ⊎ ((v.poll_id ≡ poll) × (v.user_id ≡ user) × In v.option_id os)
pushed-In poll user [] votes v i = inl i
pushed-In poll user (o ∷ os) votes v i =
    elim (pushed-In poll user os (new_vote poll user o ∷ votes) v i) [
      | inl j ↦ elim j [
        | inl e ↦ inr (
          ap (λ (x : PollVoteRow). x.poll_id) e,
          ap (λ (x : PollVoteRow). x.user_id) e,
          inl (ap (λ (x : PollVoteRow). x.option_id) e),
        )
        | inr k ↦ inl k
      ]
      | inr w ↦ let (p, u, k) = w in inr (p, u, inr k)
    ]

In-pushed_old :
    (poll user : ℕ) (os : List ℕ) (votes : List PollVoteRow) (v : PollVoteRow)
    → In v votes
    → In v (pushed poll user os votes)
In-pushed_old poll user [] votes v i = i
In-pushed_old poll user (o ∷ os) votes v i =
    In-pushed_old poll user os (new_vote poll user o ∷ votes) v (inr i)

In-pushed_new :
    (poll user : ℕ) (os : List ℕ) (votes : List PollVoteRow) (o : ℕ)
    → In o os
    → In (new_vote poll user o) (pushed poll user os votes)
In-pushed_new poll user [] votes o i = elim i [ ]
In-pushed_new poll user (k ∷ os) votes o (inl e) =
    In-pushed_old poll user os (new_vote poll user k ∷ votes) (new_vote poll user o)
      (inl (ap (new_vote poll user) e))
In-pushed_new poll user (k ∷ os) votes o (inr i) =
    In-pushed_new poll user os (new_vote poll user k ∷ votes) o i

pub dedupe_uuids-In : (ids : List ℕ) (x : ℕ) → In x (dedupe_uuids ids) → In x ids
unfolding dedupe_uuids
dedupe_uuids-In ids x i =
    contains→In ids x
      (ground (arith, contains-dedupe_from [] ids x, In→contains (dedupe_from [] ids) x i))

pub In-dedupe_uuids : (ids : List ℕ) (x : ℕ) → In x ids → In x (dedupe_uuids ids)
unfolding dedupe_uuids
In-dedupe_uuids ids x i =
    contains→In (dedupe_from [] ids) x
      (ground (arith, contains-dedupe_from [] ids x, In→contains ids x i))

-- What a successful ReplaceVotes leaves: polls and options as they were, on the poll the user's
-- votes for exactly the given options, and every other vote as it was.
pub record Replaced (s s' : Store) (poll user : ℕ) (ids : List ℕ) : Type 0 where
  pub polls : s'.polls ≡ s.polls
  pub options : s'.options ≡ s.options
  pub others :
      (v : PollVoteRow)
      → (v.poll_id ≢ poll) ⊎ (v.user_id ≢ user)
      → (In v s.votes → In v s'.votes) × (In v s'.votes → In v s.votes)
  pub chosen : (o : ℕ) → In o ids → In (new_vote poll user o) s'.votes
  pub only_chosen :
      (v : PollVoteRow) → In v s'.votes → v.poll_id ≡ poll → v.user_id ≡ user → In v.option_id ids
  pub valid : (o : ℕ) → In o ids → option_in_poll s.options poll o ≡ true

pub replace_votes-Replaced :
    (db : Db) (s : Store) (poll user : ℕ) (ids : List ℕ) (s' : Store)
    → replace_votes db s poll user ids ≡ ok s'
    → Replaced s s' poll user ids
unfolding replace_votes clear_votes
replace_votes-Replaced db s poll user ids s' h =
    let own : PollVoteRow → Bool = λ v. v.poll_id == poll && v.user_id == user in
    let (e, all) = insert_votes-ok db (clear_votes s poll user) poll user (dedupe_uuids ids) s' h in
    let kept : (v : PollVoteRow) → In v (delete own s.votes) → In v s.votes × (own v ≡ false) =
      λ v i. delete-In own v s.votes i in
    rw e (record {
      polls = refl;
      options = refl;
      others = λ v other. (
        λ i.
            In-pushed_old poll user (dedupe_uuids ids) (delete own s.votes) v
              (In-delete own v s.votes i (ground arith)),
        λ i. elim (pushed-In poll user (dedupe_uuids ids) (delete own s.votes) v i) [
          | inl j ↦ (kept v j).0
          | inr w ↦ let (p, u, _) = w in absurd (ground arith)
        ],
      );
      chosen = λ o i.
          In-pushed_new poll user (dedupe_uuids ids) (delete own s.votes) o
            (In-dedupe_uuids ids o i);
      only_chosen = λ v i p u.
          elim (pushed-In poll user (dedupe_uuids ids) (delete own s.votes) v i) [
            | inl j ↦ let (_, not_own) = kept v j in absurd (ground arith)
            | inr w ↦ let (_, _, k) = w in dedupe_uuids-In ids v.option_id k
          ];
      valid = λ o i. (all o (In-dedupe_uuids ids o i)).0;
    })

-- ReplaceVotes succeeds for a member of the poll's team and options of the poll, with any
-- repetitions among them.
pub replace_votes_succeeds :
    (db : Db) (s : Store) (poll user : ℕ) (ids : List ℕ)
    → is_poll_member db s.polls poll user ≡ true
    → ((o : ℕ) → In o ids → option_in_poll s.options poll o ≡ true)
    → (s' : Store) × (replace_votes db s poll user ids ≡ ok s')
unfolding replace_votes clear_votes dedupe_uuids
replace_votes_succeeds db s poll user ids member valid = (
  _,
  insert_votes_succeeds db (clear_votes s poll user) poll user (dedupe_uuids ids) distinct member
      (λ o i. valid o (dedupe_uuids-In ids o i)) (λ o i. no_vote o),
)
  where
    distinct : Distinct (λ o. o) (dedupe_uuids ids)
    distinct = dedupe_from-Distinct [] ids

    no_vote : (o : ℕ) → has_vote (clear_votes s poll user).votes poll o user ≡ false
    no_vote o = elim (Bool-cases (has_vote (clear_votes s poll user).votes poll o user)) [
      | inl e ↦
          let (v, i, q) = any_witness _ (clear_votes s poll user).votes e in
          let (_, other) = delete-In (λ v. v.poll_id == poll && v.user_id == user) v s.votes i in
          absurd (ground arith)
      | inr e ↦ e
    ]
