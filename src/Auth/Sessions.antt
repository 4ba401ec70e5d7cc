-- ===== src/Auth/Sessions.antt =====
-- The table of sessions of backend/internal/auth/repository.go as a function from token hashes to
-- owners and expiry times.
use team_manager.Base.{
  ℕ, ◌≡◌, ◌≢◌, ◌⊎◌, refl, ap, subst, is_some, ◌∙◌, inl, inr, Bool, true, false, ◌&&◌, str_eq,
  String, List, [], ◌∷◌, Option, some, none, All, any, find, delete, Distinct, Distinct-cons,
  Distinct-select, Bool-cases, ◌==◌, ==_iff, if◌then◌else◌, arith, ltb,
}
use mathlib.Core.Path.{fun_ext}
use team_manager.Auth.Store.{Session, Auth}
use team_manager.Auth.Statements.{
  create_session, delete_session, delete_sessions_for_user, find_session,
}

pub record Holder : Type 0 where
  pub user_id : ℕ
  pub expires_at : ℕ

abbrev pub Holders : Type 0
Holders = ℕ → Option Holder

abbrev holder_of : Option Session → Option Holder
holder_of none = none
holder_of (some r) = some (record { user_id = r.user_id; expires_at = r.expires_at })

-- What a table of sessions says: the owner of a token hash.
abbrev pub holders : List Session → Holders
holders rows h = holder_of (find (λ r. r.token_hash == h) rows)

abbrev pub OneHolder : List Session → Type 0
OneHolder rows = Distinct (λ r. r.token_hash) rows

pub data SessionOp : Type 0 where
  created : ℕ → ℕ → ℕ → String → SessionOp
  deleted : ℕ → SessionOp
  deleted_for_user : ℕ → SessionOp

-- The statements, run one after another; one that fails changes nothing.
unfoldable pub run : List SessionOp → Auth → Auth
run [] s = s
run (created user h expires provider ∷ ops) s = run ops (create_session user h expires provider s).0
run (deleted h ∷ ops) s = run ops (delete_session h s).0
run (deleted_for_user user ∷ ops) s = run ops (delete_sessions_for_user user s).0

-- The same on a function: a token hash is never given a second owner.
abbrev claim : ℕ → ℕ → ℕ → Option Holder → Option Holder → ℕ → Option Holder
claim user h expires (some _) old k = old
claim user h expires none old k =
    if h == k then some (record { user_id = user; expires_at = expires }) else old

abbrev pub granted : ℕ → ℕ → ℕ → Holders → Holders
granted user h expires f k = claim user h expires (f h) (f k) k

abbrev pub revoked : ℕ → Holders → Holders
revoked h f k = if h == k then none else f k

abbrev drop_owner : ℕ → Option Holder → Option Holder
drop_owner user none = none
drop_owner user (some x) = if x.user_id == user then none else some x

abbrev pub revoked_for : ℕ → Holders → Holders
revoked_for user f k = drop_owner user (f k)

unfoldable pub replay : List SessionOp → Holders → Holders
replay [] f = f
replay (created user h expires provider ∷ ops) f = replay ops (granted user h expires f)
replay (deleted h ∷ ops) f = replay ops (revoked h f)
replay (deleted_for_user user ∷ ops) f = replay ops (revoked_for user f)

find-any :
    (h : ℕ) (rows : List Session)
    → ((any (λ r. r.token_hash == h) rows ≡ true)
        × ((r : Session) × (find (λ r. r.token_hash == h) rows ≡ some r)))
      ⊎ ((any (λ r. r.token_hash == h) rows ≡ false) × (find (λ r. r.token_hash == h) rows ≡ none))
find-any h [] = inr (refl, refl)
find-any h (r ∷ rows) = elim (Bool-cases (r.token_hash == h)) [
  | inl e ↦ inl (rw e refl, (r, rw e refl))
  | inr e ↦ rw e (find-any h rows)
]

holders-delete :
    (h k : ℕ) (rows : List Session)
    → holders (delete (λ r. r.token_hash == h) rows) k ≡ revoked h (holders rows) k
holders-delete h k [] = ground arith
holders-delete h k (r ∷ rows) = ground (arith, holders-delete h k rows)

find-absent :
    (h user : ℕ) (rows : List Session)
    → All (λ r. h ≢ r.token_hash) rows
    → find (λ r. r.token_hash == h) (delete (λ r. r.user_id == user) rows) ≡ none
find-absent h user [] a = refl
find-absent h user (r ∷ rows) a = ground (arith, a.0, find-absent h user rows a.1)

holders-delete_for :
    (user k : ℕ) (rows : List Session)
    → OneHolder rows
    → holders (delete (λ r. r.user_id == user) rows) k ≡ revoked_for user (holders rows) k
holders-delete_for user k [] d = refl
holders-delete_for user k (r ∷ rows) d = elim (Bool-cases (r.user_id == user)) [
  | inl q ↦ elim (Bool-cases (r.token_hash == k)) [
    | inl e ↦ simp (q, e, absent e)
    | inr e ↦ simp (q, e, holders-delete_for user k rows d.1)
  ]
  | inr q ↦ elim (Bool-cases (r.token_hash == k)) [
    | inl e ↦ simp (q, e)
    | inr e ↦ simp (q, e, holders-delete_for user k rows d.1)
  ]
]
  where
    absent :
        (r.token_hash == k) ≡ true
        → find (λ x. x.token_hash == k) (delete (λ x. x.user_id == user) rows) ≡ none
    absent e = find-absent k user rows (
        subst (λ h. All (λ (x : Session). h ≢ x.token_hash) rows) ((==_iff r.token_hash k).0 e) d.0)

holders-create :
    (user h expires : ℕ) (provider : String) (s : Auth)
    → (k : ℕ)
    → holders (create_session user h expires provider s).0.sessions k
      ≡ granted user h expires (holders s.sessions) k
unfolding create_session
holders-create user h expires provider s k = elim (find-any h s.sessions) [
  | inl (here, (r, e)) ↦ rw (here, e) refl
  | inr (free, e) ↦ elim (Bool-cases (h == k)) [
    | inl q ↦ rw (free, e, q) refl
    | inr q ↦ rw (free, e, q) refl
  ]
]

abbrev stored : ℕ → ℕ → ℕ → String → Session
stored user h expires provider = record {
  user_id = user;
  token_hash = h;
  provider = if str_eq provider "" then "password" else provider;
  expires_at = expires;
}

create-OneHolder :
    (user h expires : ℕ) (provider : String) (s : Auth)
    → OneHolder s.sessions
    → OneHolder (create_session user h expires provider s).0.sessions
unfolding create_session
create-OneHolder user h expires provider s d = elim (find-any h s.sessions) [
  | inl (here, (r, e)) ↦ rw here d
  | inr (free, e) ↦ rw free (
      Distinct-cons (λ (x : Session). x.token_hash) (stored user h expires provider) s.sessions free
        d)
]

abbrev pub grants : ℕ → Option Holder → Bool
grants now none = false
grants now (some x) = ltb now x.expires_at

live_absent :
    (now h : ℕ) (rows : List Session)
    → All (λ r. h ≢ r.token_hash) rows
    → find (λ r. r.token_hash == h && ltb now r.expires_at) rows ≡ none
live_absent now h [] a = refl
live_absent now h (r ∷ rows) a = ground (arith, a.0, live_absent now h rows a.1)

-- A request at a time finds a session by a hash when the hash has an owner and has not expired.
find_live :
    (now h : ℕ) (rows : List Session)
    → OneHolder rows
    → is_some (find (λ r. r.token_hash == h && ltb now r.expires_at) rows)
      ≡ grants now (holders rows h)
find_live now h [] d = refl
find_live now h (r ∷ rows) d = elim (Bool-cases (r.token_hash == h)) [
  | inl e ↦ elim (Bool-cases (ltb now r.expires_at)) [
    | inl q ↦ simp (e, q)
    | inr q ↦ simp (e, q, absent e)
  ]
  | inr e ↦ simp (e, find_live now h rows d.1)
]
  where
    absent :
        (r.token_hash == h) ≡ true
        → find (λ x. x.token_hash == h && ltb now x.expires_at) rows ≡ none
    absent e = live_absent now h rows (
        subst (λ k. All (λ (x : Session). k ≢ x.token_hash) rows) ((==_iff r.token_hash h).0 e) d.0)

run-replayed :
    (ops : List SessionOp) (s : Auth)
    → OneHolder s.sessions
    → OneHolder (run ops s).sessions
      × (holders (run ops s).sessions ≡ replay ops (holders s.sessions))
unfolding run replay delete_session delete_sessions_for_user
run-replayed [] s d = (d, refl)
run-replayed (created user h expires provider ∷ ops) s d =
    let (one, e) = run-replayed ops _ (create-OneHolder user h expires provider s d) in
    (one, e ∙ ap (replay ops) (fun_ext (holders-create user h expires provider s)))
run-replayed (deleted h ∷ ops) s d =
    let (one, e) =
      run-replayed ops _ (Distinct-select (λ (x : Session). x.token_hash) _ s.sessions d) in
    (one, e ∙ ap (replay ops) (fun_ext (λ k. holders-delete h k s.sessions)))
run-replayed (deleted_for_user user ∷ ops) s d =
    let (one, e) =
      run-replayed ops _ (Distinct-select (λ (x : Session). x.token_hash) _ s.sessions d) in
    (one, e ∙ ap (replay ops) (fun_ext (λ k. holders-delete_for user k s.sessions d)))

-- Any sequence of session statements keeps one owner per token hash, and reads as the same sequence on
-- the function from token hashes to owners and expiry times: a request finds a session by a hash
-- exactly when that function has an owner for it and the time is before the expiry.
pub run-replay :
    (ops : List SessionOp) (s : Auth)
    → OneHolder s.sessions
    → OneHolder (run ops s).sessions
      × (holders (run ops s).sessions ≡ replay ops (holders s.sessions))
      × ((now h : ℕ)
          → is_some (find_session now h (run ops s))
            ≡ grants now (replay ops (holders s.sessions) h))
unfolding find_session
run-replay ops s d =
    let (one, e) = run-replayed ops s d in
    (
      one,
      e,
      λ now h. find_live now h (run ops s).sessions one ∙ ap (λ (f : Holders). grants now (f h)) e,
    )
