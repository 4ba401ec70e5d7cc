-- ===== src/Auth/Reset.antt =====
-- What a successful ResetPassword of backend/internal/auth leaves.
use team_manager.Base.{
  ℕ, subst, ◌+◌, ◌≡◌, ◌≢◌, ◌↔◌, sym, ap, ◌∙◌, inl, inr, true, str_eq, String, ◌∷◌, some, In, any,
  find-In, delete, delete-In, In-delete, In-update_other, update, update-In, Bool-cases,
  Option-cases, ◌==◌, if◌then◌else◌, ok, arith, Bytes, ltb, length,
}
use team_manager.Auth.Run.{return, ◌>>◌, >>=-eq-ok, ok_pair}
use team_manager.Auth.Store.{Account, Session, TokenRow, Auth, Platform, Bcrypt, Config}
use team_manager.Auth.Statements.{
  AuthRun, is_active_user, find_user_by_id, create_session, delete_sessions_for_user,
  update_user_password, is_unconsumed, consume, find_password_reset_token,
  consume_password_reset_token, stored_hash,
}
use team_manager.Auth.Service.{
  hash_password, create_session_and_sign, session_for, set_password, reset_password,
}

-- The tables after the statements of ResetPassword.
abbrev with_password : String → Account → Account
with_password h u = record u { password_hash = some h }

abbrev session_of : ℕ → ℕ → ℕ → Session
session_of user token_hash expires_at = record {
  user_id = user;
  token_hash = token_hash;
  provider = "password";
  expires_at = expires_at;
}

-- The state before the new session is stored.
abbrev reset_state : Platform → ℕ → ℕ → Bytes → TokenRow → Auth → Auth
reset_state p salt token password row s = record s {
  accounts = update (is_active_user row.user_id) (with_password (p.hash salt password)) s.accounts;
  sessions = delete (λ r. r.user_id == row.user_id) s.sessions;
  reset_tokens = consume (p.sha256_hex token) s.reset_tokens;
}

pub create_session_and_sign-ok :
    (p : Platform) (cfg : Config) (now raw : ℕ) (u : Account) (provider : String) (s s' : Auth)
    (signed : Bytes)
    → create_session_and_sign p cfg now raw u provider s ≡ (s', ok signed)
    → s' ≡ record s {
      sessions =
          record {
            user_id = u.id;
            token_hash = p.sha256_hex raw;
            provider = if str_eq provider "" then "password" else provider;
            expires_at = now + cfg.session_ttl;
          }
          ∷ s.sessions;
    }
unfolding create_session_and_sign create_session
create_session_and_sign-ok p cfg now raw u provider s s' signed h =
    elim (Bool-cases (any (λ r. r.token_hash == p.sha256_hex raw) s.sessions)) [
      | inl e ↦ cc (rw e at h)
      | inr e ↦ cc (rw e at h)
    ]

-- The state after the session of `u` is stored.
abbrev signed_in : Platform → Config → ℕ → ℕ → Account → Auth → Auth
signed_in p cfg now raw u s = record s {
  sessions = session_of u.id (p.sha256_hex raw) (now + cfg.session_ttl) ∷ s.sessions;
}

pub session_for-ok :
    (p : Platform) (cfg : Config) (now raw user : ℕ) (s s' : Auth) (signed : Bytes) (u : Account)
    → session_for p cfg now raw user s ≡ (s', ok (signed, u))
    → (find_user_by_id user s ≡ some u) × (s' ≡ signed_in p cfg now raw u s)
unfolding session_for
session_for-ok p cfg now raw user s s' signed u h = elim (Option-cases (find_user_by_id user s)) [
  | inl m ↦ cc (rw m at h)
  | inr (v, m) ↦
      let (s₁, g, made, last) =
        >>=-eq-ok (create_session_and_sign p cfg now raw v "password") (λ g. return (g, v)) s s'
          (signed, u) (rw m at h) in
      let (ends, same) = ok_pair s₁ s' g signed v u last in
      (
        m ∙ ap some same,
        sym ends
            ∙ create_session_and_sign-ok p cfg now raw v "password" s s₁ g made
            ∙ ap (λ x. signed_in p cfg now raw x s) same,
      )
]

abbrev password_set : Platform → ℕ → ℕ → Bytes → Auth → Auth
password_set p salt user password s = record s {
  accounts = update (is_active_user user) (with_password (p.hash salt password)) s.accounts;
  sessions = delete (λ r. r.user_id == user) s.sessions;
}

set_password-ok :
    (p : Platform) (salt user : ℕ) (password : Bytes) (s s' : Auth) (u : Unit {0})
    → set_password p salt user password s ≡ (s', ok u)
    → s' ≡ password_set p salt user password s
unfolding set_password hash_password update_user_password delete_sessions_for_user
set_password-ok p salt user password s s' u h = elim (Bool-cases (ltb 72 (length password))) [
  | inl e ↦ cc (rw e at h)
  | inr e ↦ elim (Bool-cases (any (is_active_user user) s.accounts)) [
    | inl k ↦ cc (simp (e, k) at h)
    | inr k ↦ cc (simp (e, k) at h)
  ]
]

consume-ok :
    (h : ℕ) (s s' : Auth) (u : Unit {0})
    → consume_password_reset_token h s ≡ (s', ok u)
    → s' ≡ record s { reset_tokens = consume h s.reset_tokens }
unfolding consume_password_reset_token
consume-ok h s s' u q = elim (Bool-cases (any (is_unconsumed h) s.reset_tokens)) [
  | inl e ↦ cc (rw e at q)
  | inr e ↦ cc (rw e at q)
]

-- ResetPassword once the token's row is found.
abbrev redeem : Platform → Config → ℕ → ℕ → ℕ → ℕ → Bytes → TokenRow → AuthRun (Bytes × Account)
redeem p cfg now raw salt token password row = do
  consume_password_reset_token (p.sha256_hex token)
  set_password p salt row.user_id password
  session_for p cfg now raw row.user_id

redeem-runs :
    (p : Platform) (cfg : Config) (now raw salt token : ℕ) (password : Bytes) (row : TokenRow)
    (s s' : Auth) (r : Bytes × Account)
    → redeem p cfg now raw salt token password row s ≡ (s', ok r)
    → session_for p cfg now raw row.user_id (reset_state p salt token password row s) ≡ (s', ok r)
redeem-runs p cfg now raw salt token password row s s' r h =
    let (s₁, u, one, rest) =
      >>=-eq-ok (consume_password_reset_token (p.sha256_hex token))
        (λ _. set_password p salt row.user_id password >> session_for p cfg now raw row.user_id) s
        s' r h in
    let (s₂, v, two, three) =
      >>=-eq-ok (set_password p salt row.user_id password)
        (λ _. session_for p cfg now raw row.user_id) s₁ s' r rest in
    let e₁ = consume-ok (p.sha256_hex token) s s₁ u one in
    let e₂ = set_password-ok p salt row.user_id password s₁ s₂ v two in
    subst (λ x. session_for p cfg now raw row.user_id x ≡ (s', ok r))
      (e₂ ∙ ap (password_set p salt row.user_id password) e₁) three

reset_password-runs :
    (p : Platform) (cfg : Config) (now raw salt token : ℕ) (password : Bytes) (s s' : Auth)
    (signed : Bytes) (u : Account)
    → reset_password p cfg now raw salt token password s ≡ (s', ok (signed, u))
    → (row : TokenRow) × (find_password_reset_token now (p.sha256_hex token) s ≡ some row)
      × (find_user_by_id row.user_id (reset_state p salt token password row s) ≡ some u)
      × (s' ≡ signed_in p cfg now raw u (reset_state p salt token password row s))
unfolding reset_password
reset_password-runs p cfg now raw salt token password s s' signed u h =
    elim (Bool-cases (ltb 72 (length password))) [
      | inl e ↦ cc (rw e at h)
      | inr e ↦ elim (Option-cases (find_password_reset_token now (p.sha256_hex token) s)) [
        | inl q ↦ cc (simp (e, q) at h)
        | inr (row, q) ↦
            let (account, state) =
              session_for-ok p cfg now raw row.user_id (reset_state p salt token password row s) s'
                signed u
                (redeem-runs p cfg now raw salt token password row s s' (signed, u)
                  (simp (e, q) at h)) in
            (row, q, account, state)
      ]
    ]

-- After a successful ResetPassword the returned account, the owner of the token, has the new password
-- and one session only, the new one. The sessions of other users and the other accounts are as before.
pub reset_password_lem :
    (p : Platform) (cfg : Config) (now raw salt token : ℕ) (password : Bytes) (s s' : Auth)
    (signed : Bytes) (u : Account)
    → Bcrypt p
    → reset_password p cfg now raw salt token password s ≡ (s', ok (signed, u))
    → ((row : TokenRow) × (find_password_reset_token now (p.sha256_hex token) s ≡ some row)
        × (row.user_id ≡ u.id))
      × In u s'.accounts
      × (p.verify (stored_hash u) password ≡ true)
      × ((r : Session)
          → In r s'.sessions
          → r.user_id ≡ u.id
          → (r.token_hash ≡ p.sha256_hex raw) × (r.expires_at ≡ now + cfg.session_ttl))
      × ((r : Session) → r.user_id ≢ u.id → In r s.sessions ↔ In r s'.sessions)
      × ((v : Account) → v.id ≢ u.id → In v s.accounts ↔ In v s'.accounts)
unfolding find_user_by_id
reset_password_lem p cfg now raw salt token password s s' signed u b h =
    let (row, found, account, state) =
      reset_password-runs p cfg now raw salt token password s s' signed u h in
    let (i, active) = find-In (is_active_user row.user_id) u _ account in
    let owner : u.id ≡ row.user_id = ground arith in
    let (old, j, changed) =
      update-In (is_active_user row.user_id) (with_password (p.hash salt password)) u s.accounts
        i in
    (
      (row, found, sym owner),
      rw state i,
      elim (Bool-cases (is_active_user row.user_id old)) [
        | inl e ↦ rw (rw e at changed) (b.hash_verifies salt password)
        | inr e ↦ absurd (ground (arith, active, e, rw e at changed))
      ],
      (λ r k mine. elim (rw state at k) [
        | inl e ↦ (ap (λ (x : Session). x.token_hash) e, ap (λ (x : Session). x.expires_at) e)
        | inr k ↦
            let (_, other) = delete-In (λ (x : Session). x.user_id == row.user_id) r s.sessions k in
            absurd (ground (arith, other, mine, owner))
      ]),
      (λ r other. (
        λ k. rw state (
            inr (
              In-delete (λ (x : Session). x.user_id == row.user_id) r s.sessions k
                (ground (arith, other, owner)))),
        λ k. elim (rw state at k) [
          | inl e ↦ absurd (other (ap (λ (x : Session). x.user_id) e))
          | inr k ↦ (delete-In (λ (x : Session). x.user_id == row.user_id) r s.sessions k).0
        ],
      )),
      (λ v other. rw state (
          In-update_other (is_active_user row.user_id) (with_password (p.hash salt password)) v
            s.accounts (λ y q. q) (ground (arith, other, owner)))),
    )
