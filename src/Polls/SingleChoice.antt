-- ===== src/Polls/SingleChoice.antt =====
-- Create and Delete of backend/internal/polls/service.go, and every sequence of Create, Vote and
-- Delete: a single-choice poll holds at most one vote of a user.
use team_manager.Base.{
  ℕ, ◌≡◌, ap, inl, inr, Bool, false, not, String, List, [], Option, In, any, any-In, any-false,
  any_witness, ◌==◌, delete-In, In-delete, find, leb, or_default, Distinct-cons, Distinct-select,
  ok, >>-eq-ok, >>=-eq-ok, or_fail, reject_if, ok-injective, arith,
}
use team_manager.Roster.Db.{Db}
use team_manager.Polls.Store.{
  Store, PollRow, PollVoteRow, no_rows, too_many_polls, is_poll, find_by_id, count_by_team,
  insert_poll, delete_poll,
}
use team_manager.Polls.Assemble.{Poll}
use team_manager.Polls.Service.{max_polls_per_team, build_poll, create, vote}
use team_manager.Polls.Voting.{IsValid, vote-IsValid}

abbrev new_poll : ℕ → ℕ → ℕ → ℕ → String → Option Bool → Option Bool → PollRow
new_poll new_id now team creator question multiple anonymous = record {
  id = new_id;
  team_id = team;
  creator_id = creator;
  question = question;
  multiple = or_default multiple false;
  anonymous = or_default anonymous false;
  created_at = now;
}

create-checked :
    (s : Store) (new_id now : ℕ) (keys : ℕ → ℕ) (team creator : ℕ) (question : String)
    (multiple anonymous : Option Bool) (texts : List String) (p : Poll) (s' : Store)
    → create s new_id now keys team creator question multiple anonymous texts ≡ ok (p, s')
    → s' ≡ insert_poll s (new_poll new_id now team creator question multiple anonymous) keys texts
unfolding create find_by_id
create-checked s new_id now keys team creator question multiple anonymous texts p s' h =
    let (_, h₁) =
      >>-eq-ok (reject_if (leb max_polls_per_team (count_by_team s team)) too_many_polls) _ (p, s')
        h in
    let t =
      insert_poll s (new_poll new_id now team creator question multiple anonymous) keys texts in
    let (pr, _, h₂) =
      >>=-eq-ok (or_fail (find (is_poll new_id team) t.polls) no_rows)
        (λ (x : PollRow). ok (build_poll t x creator, t)) (p, s') h₁ in
    ap (λ (r : Poll × Store). r.1) (ok-injective (build_poll t pr creator, t) (p, s') h₂)

create-IsValid :
    (s : Store) (new_id now : ℕ) (keys : ℕ → ℕ) (team creator : ℕ) (question : String)
    (multiple anonymous : Option Bool) (texts : List String) (p : Poll) (s' : Store)
    → any (λ q. q.id == new_id) s.polls ≡ false
    → IsValid s
    → create s new_id now keys team creator question multiple anonymous texts ≡ ok (p, s')
    → IsValid s'
unfolding insert_poll
create-IsValid s new_id now keys team creator question multiple anonymous texts p s' fresh v h =
    let row = new_poll new_id now team creator question multiple anonymous in
    rw (create-checked s new_id now keys team creator question multiple anonymous texts p s' h)
      (record {
        keys = Distinct-cons (λ q. q.id) row s.polls fresh v.keys;
        exists = λ x i. ground (arith, v.exists x i);
        single = λ q x y k one a b on_x on_y same. elim k [
          | inl e ↦
              let (z, j, is_z) = any_witness (λ r. r.id == x.poll_id) s.polls (v.exists x a) in
              let other = any-false (λ r. r.id == new_id) z s.polls fresh j in
              absurd (ground (arith, ap (λ (r : PollRow). r.id) e))
          | inr k' ↦ v.single q x y k' one a b on_x on_y same
        ];
      })

delete-IsValid :
    (s : Store) (poll team : ℕ) (s' : Store)
    → IsValid s
    → delete_poll s poll team ≡ ok s'
    → IsValid s'
unfolding delete_poll
delete-IsValid s poll team s' v h =
    let (_, last) = >>-eq-ok (reject_if (not (any (is_poll poll team) s.polls)) no_rows) _ s' h in
    let old : (x : PollVoteRow) → In x _ → In x s.votes × ((x.poll_id == poll) ≡ false) =
      λ x i. delete-In (λ w. w.poll_id == poll) x s.votes i in
    rw (ok-injective _ s' last) (record {
      keys = Distinct-select (λ q. q.id) _ s.polls v.keys;
      exists = λ x i.
          let (j, other) = old x i in
          let (q, k, is_q) = any_witness (λ r. r.id == x.poll_id) s.polls (v.exists x j) in
          any-In (λ r. r.id == x.poll_id) q _
            (In-delete (is_poll poll team) q s.polls k (ground arith)) is_q;
      single = λ q x y k one a b.
          v.single q x y (delete-In (is_poll poll team) q s.polls k).0 one (old x a).0 (old y b).0;
    })

-- One successful operation of the service, under any roster.
pub data Step (s s' : Store) : Type 0 where
  created :
      (new_id now : ℕ) (keys : ℕ → ℕ) (team creator : ℕ) (question : String)
      (multiple anonymous : Option Bool) (texts : List String) (p : Poll)
      → any (λ q. q.id == new_id) s.polls ≡ false
      → create s new_id now keys team creator question multiple anonymous texts ≡ ok (p, s')
      → Step s s'
  voted :
      (db : Db) (poll team user : ℕ) (ids : List ℕ) (p : Poll)
      → vote db s poll team user ids ≡ ok (p, s')
      → Step s s'
  deleted : (poll team : ℕ) → delete_poll s poll team ≡ ok s' → Step s s'

abbrev pub empty_store : Store
empty_store = record { polls = []; options = []; votes = [] }

pub data Reached : Store → Type 0 where
  empty : Reached empty_store
  next : (s s' : Store) → Reached s → Step s s' → Reached s'

Step-IsValid : (s s' : Store) → Step s s' → IsValid s → IsValid s'
Step-IsValid s s' (created k n ks t c q m a os p fresh h) v =
    create-IsValid s k n ks t c q m a os p s' fresh v h
Step-IsValid s s' (voted db poll t u ids p h) v = vote-IsValid db s poll t u ids p s' v h
Step-IsValid s s' (deleted poll t h) v = delete-IsValid s poll t s' v h

Reached-IsValid : (s : Store) → Reached s → IsValid s
Reached-IsValid _ empty = record {
  keys = tt;
  exists = λ x i. elim i [ ];
  single = λ q x y k. elim k [ ];
}
Reached-IsValid s (next before _ r step) = Step-IsValid before s step (Reached-IsValid before r)

-- However polls are created, voted on and deleted, any two votes of one user on a poll that is not
-- multiple-choice are for the same option.
pub single_choice :
    (s : Store) (p : PollRow) (v w : PollVoteRow)
    → Reached s
    → In p s.polls
    → p.multiple ≡ false
    → In v s.votes
    → In w s.votes
    → v.poll_id ≡ p.id
    → w.poll_id ≡ p.id
    → v.user_id ≡ w.user_id
    → v.option_id ≡ w.option_id
single_choice s p v w r = (Reached-IsValid s r).single p v w
