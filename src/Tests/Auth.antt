-- ===== src/Tests/Auth.antt =====
-- Logins, tokens and sessions of two accounts (backend/internal/auth).
use team_manager.Base.{
  ℕ, ◌≡◌, ◌≤◌, ◌↔◌, ◌≢◌, refl, inl, inr, true, false, String, str_eq, List, [], ◌∷◌, none, some, In,
  ok, err, arith, Bytes, length, Bool-cases, if◌then◌else◌, ◌==◌, ◌+◌, is_some,
}
use team_manager.Auth.Store.{
  Platform, Bcrypt, Config, Account, Session, TokenRow, Auth, invalid_credentials, no_rows,
  invalid_verification_token, invalid_reset_token,
}
use team_manager.Auth.Statements.{
  stored_hash, find_session, find_password_reset_token, consume_email_verification_token,
  consume_password_reset_token, find_user_by_email, find_user_by_oidc_subject, find_user_by_id,
}
use team_manager.Auth.Service.{
  login, register, verify_email, reset_password, resend_verification, forgot_password,
  login_with_oidc, OidcClaims, linked, hash_password, set_password, session_for,
}
use team_manager.Auth.Traces.{none_left}
use team_manager.Auth.SingleUse.{token_once}
use team_manager.Auth.Reset.{reset_password_lem}
use team_manager.Auth.Sessions.{
  SessionOp, created, deleted, run, replay, holders, OneHolder, grants, run-replay,
}
use team_manager.Auth.Uniform.{same_answers}
use team_manager.Auth.Adoption.{oidc_disarms}

-- A hash that tells passwords of three bytes from the others.
abbrev hash_of : Bytes → String
hash_of password = if length password == 3 then "three" else "other"

abbrev platform : Platform
platform = record {
  hash = λ salt password. hash_of password;
  verify = λ stored password. str_eq stored (hash_of password);
  sha256_hex = λ raw. raw;
  normalize = λ email. email;
  equal_fold = str_eq;
  sign = λ claims. claims.user_id ∷ [];
  parse = λ now token. none;
}

hash_of_refl : (password : Bytes) → str_eq (hash_of password) (hash_of password) ≡ true
hash_of_refl password = elim (Bool-cases (length password == 3)) [ inl e ↦ simp e | inr e ↦ simp e ]

hash_of_filled : (password : Bytes) → str_eq "" (hash_of password) ≡ false
hash_of_filled password = elim (Bool-cases (length password == 3)) [
  | inl e ↦ simp e
  | inr e ↦ simp e
]

platform-Bcrypt : Bcrypt platform
platform-Bcrypt = record {
  hash_verifies = λ salt password. hash_of_refl password;
  empty_verifies_none = hash_of_filled;
}

abbrev config : Config
config = record {
  session_ttl = 100;
  email_verification_ttl = 50;
  password_reset_ttl = 20;
  self_registration_enabled = true;
}

abbrev ana : Account
ana = record {
  id = 1;
  email = "ana@club.org";
  password_hash = some "other";
  verified = true;
  deleted = false;
}

abbrev pending : Account
pending = record {
  id = 2;
  email = "ben@club.org";
  password_hash = some "three";
  verified = false;
  deleted = false;
}

abbrev reset_token : TokenRow
reset_token = record { user_id = 1; token_hash = 70; expires_at = 30; consumed = false }

abbrev anas_session : Session
anas_session = record { user_id = 1; token_hash = 40; provider = "password"; expires_at = 90 }

abbrev store : Auth
store = record {
  accounts = ana ∷ pending ∷ [];
  sessions = anas_session ∷ [];
  verification_tokens = [];
  reset_tokens = reset_token ∷ [];
  oidc_accounts = [];
  mails = [];
}

abbrev new_ana : Account
new_ana = record ana { password_hash = some "three" }

abbrev after_reset : Auth
after_reset = record store {
  accounts = new_ana ∷ pending ∷ [];
  sessions = record { user_id = 1; token_hash = 41; provider = "password"; expires_at = 110 } ∷ [];
  reset_tokens = record reset_token { consumed = true } ∷ [];
}

ana_resets :
    reset_password platform config 10 41 0 70 (1 ∷ 2 ∷ 3 ∷ []) store
    ≡ (after_reset, ok (1 ∷ [], new_ana))
unfolding reset_password find_password_reset_token consume_password_reset_token set_password
    hash_password team_manager.Auth.Statements.update_user_password
    team_manager.Auth.Statements.delete_sessions_for_user session_for find_user_by_id
    team_manager.Auth.Service.create_session_and_sign team_manager.Auth.Statements.create_session
ana_resets = refl

reset_password_lem_example :
    ((row : TokenRow) × (find_password_reset_token 10 70 store ≡ some row) × (row.user_id ≡ 1))
    × In new_ana after_reset.accounts
    × (platform.verify (stored_hash new_ana) (1 ∷ 2 ∷ 3 ∷ []) ≡ true)
    × ((r : Session)
        → In r after_reset.sessions
        → r.user_id ≡ 1
        → (r.token_hash ≡ 41) × (r.expires_at ≡ 10 + 100))
    × ((r : Session) → r.user_id ≢ 1 → In r store.sessions ↔ In r after_reset.sessions)
    × ((v : Account) → v.id ≢ 1 → In v store.accounts ↔ In v after_reset.accounts)
reset_password_lem_example =
    reset_password_lem platform config 10 41 0 70 (1 ∷ 2 ∷ 3 ∷ []) store after_reset (1 ∷ [])
      new_ana platform-Bcrypt ana_resets

abbrev after_consume : Auth
after_consume = record store { reset_tokens = record reset_token { consumed = true } ∷ [] }

reset_consumed : consume_password_reset_token 70 store ≡ (after_consume, ok tt)
unfolding consume_password_reset_token
reset_consumed = refl

token_once_example :
    (consume_email_verification_token 70 store ≡ (after_consume, ok tt)
      → (consume_email_verification_token 70 after_consume ≡ (after_consume, err no_rows))
        × ((now raw : ℕ)
            → verify_email platform config now raw 70 after_consume
              ≡ (after_consume, err invalid_verification_token)))
    × (consume_password_reset_token 70 store ≡ (after_consume, ok tt)
        → (consume_password_reset_token 70 after_consume ≡ (after_consume, err no_rows))
          × ((now raw salt : ℕ) (password : Bytes)
              → length password ≤ 72
              → reset_password platform config now raw salt 70 password after_consume
                ≡ (after_consume, err invalid_reset_token)))
token_once_example =
    token_once platform config 70 store after_consume after_consume (none_left after_consume)

abbrev ops : List SessionOp
ops = created 2 41 80 "google" ∷ deleted 40 ∷ created 1 41 90 "password" ∷ []

store-OneHolder : OneHolder store.sessions
store-OneHolder = ground arith

run-replay_example :
    OneHolder (run ops store).sessions
    × (holders (run ops store).sessions ≡ replay ops (holders store.sessions))
    × ((now h : ℕ)
        → is_some (find_session now h (run ops store))
          ≡ grants now (replay ops (holders store.sessions) h))
run-replay_example = run-replay ops store store-OneHolder

same_answers_example :
    ((register platform config 10 50 0 9 "ana@club.org" (1 ∷ []) store).1
      ≡ (register platform config 10 50 0 9 "ana@club.org"
          (1 ∷ [])
          (record store { accounts = [] })).1)
    × ((resend_verification platform config 10 50 "ana@club.org" store).1
        ≡ (resend_verification platform config 10 50 "ana@club.org"
            (record store { accounts = [] })).1)
    × ((forgot_password platform config 10 50 "ana@club.org" store).1
        ≡ (forgot_password platform config 10 50 "ana@club.org" (record store { accounts = [] })).1)
same_answers_example =
    same_answers platform config 10 50 0 9 "ana@club.org" (1 ∷ []) store
      (record store { accounts = [] }) (λ u i gone. ground arith) (λ u i gone. elim i [ ])
      (refl, refl) (refl, refl)

abbrev claims : OidcClaims
claims = record { subject = "ben-1"; email = "ben@club.org"; email_verified = true }

abbrev adopted : Account
adopted = record pending { password_hash = none; verified = true }

abbrev after_sign_in : Auth
after_sign_in = record store {
  accounts = ana ∷ adopted ∷ [];
  sessions =
      record { user_id = 2; token_hash = 41; provider = "google"; expires_at = 110 }
      ∷ anas_session
      ∷ [];
  oidc_accounts = record { user_id = 2; provider = "google"; subject = "ben-1" } ∷ [];
}

ben_signs_in :
    login_with_oidc platform config 10 41 9 "google" claims store
    ≡ (after_sign_in, ok (2 ∷ [], adopted, linked))
unfolding login_with_oidc team_manager.Auth.Service.resolve_oidc_user find_user_by_oidc_subject
    find_user_by_email team_manager.Auth.Service.link_existing
    team_manager.Auth.Service.verify_and_link team_manager.Auth.Statements.clear_password
    team_manager.Auth.Statements.mark_email_verified team_manager.Auth.Statements.link_oidc_account
    find_user_by_id team_manager.Auth.Service.create_session_and_sign
    team_manager.Auth.Statements.create_session
ben_signs_in = refl

no_link : find_user_by_oidc_subject "google" "ben-1" store ≡ none
unfolding find_user_by_oidc_subject
no_link = refl

pending_found : find_user_by_email platform "ben@club.org" store ≡ some pending
unfolding find_user_by_email
pending_found = refl

oidc_disarms_example :
    login platform config 11 42 "ben@club.org" (1 ∷ 2 ∷ 3 ∷ []) after_sign_in
    ≡ (after_sign_in, err invalid_credentials)
oidc_disarms_example =
    oidc_disarms platform config 10 41 9 "google" claims store after_sign_in
      (2 ∷ [], adopted, linked) pending platform-Bcrypt no_link pending_found refl ben_signs_in 11
      42 (1 ∷ 2 ∷ 3 ∷ [])
