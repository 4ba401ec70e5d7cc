-- ===== src/Polls/Anonymity.antt =====
-- What a poll reveals of its voters (backend/internal/polls/service.go).
use team_manager.Base.{
  ℕ, ◌≡◌, refl, sym, ap, ◌∙◌, true, false, List, [], ◌∷◌, map, count, select, contains, length,
  ◌==◌, ==_iff, Bool-cases, dedupe_from, arith, inl, inr,
}
use team_manager.Polls.Store.{PollRow, PollOptionRow, PollVoteRow}
use team_manager.Polls.Assemble.{
  Tally, empty_tally, tally_votes, Poll, PollOption, assemble_option, assemble_poll,
}
use team_manager.Polls.Tally.{tally_votes_lem}

-- The vote with another voter in place of its own.
abbrev pub renamed : (ℕ → ℕ) → PollVoteRow → PollVoteRow
renamed f v = record v { user_id = f v.user_id }

count-renamed :
    (f : ℕ → ℕ) (o : ℕ) (vs : List PollVoteRow)
    → count (λ v. o == v.option_id) (map (renamed f) vs) ≡ count (λ v. o == v.option_id) vs
count-renamed f o [] = refl
count-renamed f o (v ∷ vs) = ground (arith, count-renamed f o vs)

module _ (f : ℕ → ℕ) (injective : (a b : ℕ) → f a ≡ f b → a ≡ b) where
  contains-map : (xs : List ℕ) (x : ℕ) → contains (map f xs) (f x) ≡ contains xs x
  contains-map [] x = refl
  contains-map (y ∷ ys) x = elim (Bool-cases (y == x)) [
    | inl e ↦ ground (arith, ap f ((==_iff y x).0 e), contains-map ys x)
    | inr e ↦ ground (arith, injective y x, contains-map ys x)
  ]

  length-dedupe_from :
      (seen xs : List ℕ)
      → length (dedupe_from (map f seen) (map f xs)) ≡ length (dedupe_from seen xs)
  unfolding dedupe_from
  length-dedupe_from seen [] = refl
  length-dedupe_from seen (x ∷ xs) = elim (Bool-cases (contains seen x)) [
    | inl e ↦ ground (arith, contains-map seen x, length-dedupe_from seen xs)
    | inr e ↦ ground (arith, contains-map seen x, length-dedupe_from (x ∷ seen) xs)
  ]

  mine-renamed :
      (me : ℕ) (vs : List PollVoteRow)
      → f me ≡ me
      → map (λ v. v.option_id) (select (λ v. v.user_id == me) (map (renamed f) vs))
        ≡ map (λ v. v.option_id) (select (λ v. v.user_id == me) vs)
  mine-renamed me [] fixed = refl
  mine-renamed me (v ∷ vs) fixed = elim (Bool-cases (v.user_id == me)) [
    | inl e ↦
        let q : (f v.user_id == me) ≡ true =
          (==_iff (f v.user_id) me).1 (ap f ((==_iff v.user_id me).0 e) ∙ fixed) in
        rw (e, q) (ap (λ r. v.option_id ∷ r) (mine-renamed me vs fixed))
    | inr e ↦
        let q : (f v.user_id == me) ≡ false = ground (arith, injective v.user_id me) in
        rw (e, q) (mine-renamed me vs fixed)
  ]

users-renamed :
    (f : ℕ → ℕ) (vs : List PollVoteRow)
    → map (λ v. v.user_id) (map (renamed f) vs) ≡ map f (map (λ v. v.user_id) vs)
users-renamed f [] = refl
users-renamed f (v ∷ vs) = ap (λ r. f v.user_id ∷ r) (users-renamed f vs)

-- An option of an anonymous poll is reported by its count alone.
assemble_option_anonymous :
    (pr : PollRow) (t t' : Tally) (options : List PollOptionRow)
    → pr.anonymous ≡ true
    → ((o : ℕ) → t.vote_counts o ≡ t'.vote_counts o)
    → map (assemble_option pr t) options ≡ map (assemble_option pr t') options
unfolding assemble_option
assemble_option_anonymous pr t t' [] anon same = refl
assemble_option_anonymous pr t t' (o ∷ os) anon same =
    let rest = assemble_option_anonymous pr t t' os anon same in
    ap (λ r. r ∷ map (assemble_option pr t) os) (one o) ∙ ap (λ r. assemble_option pr t' o ∷ r) rest
  where
    one : (x : PollOptionRow) → assemble_option pr t x ≡ assemble_option pr t' x
    one x = rw (anon, same x.id)

poll_eq :
    (pr : PollRow) (os os' : List PollOption) (n n' : ℕ) (mine mine' : List ℕ)
    → os ≡ os'
    → n ≡ n'
    → mine ≡ mine'
    → ◌≡◌ {A = Poll}
        (record {
          id = pr.id;
          question = pr.question;
          multiple = pr.multiple;
          anonymous = pr.anonymous;
          created_at = pr.created_at;
          options = os;
          total_votes = n;
          my_vote = mine;
        })
        (record {
          id = pr.id;
          question = pr.question;
          multiple = pr.multiple;
          anonymous = pr.anonymous;
          created_at = pr.created_at;
          options = os';
          total_votes = n';
          my_vote = mine';
        })
poll_eq pr os os' n n' mine mine' p q r = λ i. record {
  id = pr.id;
  question = pr.question;
  multiple = pr.multiple;
  anonymous = pr.anonymous;
  created_at = pr.created_at;
  options = p i;
  total_votes = q i;
  my_vote = r i;
}

-- An anonymous poll does not reveal who voted for what: if the voters are exchanged for others by
-- any injective renaming that leaves the current user alone, the assembled poll is the same.
pub assemble_poll-anonymous :
    (pr : PollRow) (options : List PollOptionRow) (votes : List PollVoteRow) (me : ℕ) (f : ℕ → ℕ)
    → pr.anonymous ≡ true
    → ((a b : ℕ) → f a ≡ f b → a ≡ b)
    → f me ≡ me
    → assemble_poll pr options (map (renamed f) votes) me ≡ assemble_poll pr options votes me
unfolding assemble_poll
assemble_poll-anonymous pr options votes me f anon injective fixed =
    let (each, total, mine) = tally_votes_lem me votes in
    let (each', total', mine') = tally_votes_lem me (map (renamed f) votes) in
    poll_eq pr _ _ _ _ _ _
      (assemble_option_anonymous pr (tally_votes me empty_tally (map (renamed f) votes))
        (tally_votes me empty_tally votes) options anon
        (λ o. (each' o).0 ∙ count-renamed f o votes ∙ sym (each o).0))
      (total'
        ∙ ap (λ us. length (dedupe_from [] us)) (users-renamed f votes)
        ∙ length-dedupe_from f injective [] (map (λ v. v.user_id) votes)
        ∙ sym total)
      (mine' ∙ mine-renamed f injective me votes fixed ∙ sym mine)
