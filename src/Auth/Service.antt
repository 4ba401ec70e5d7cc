-- ===== src/Auth/Service.antt =====
-- backend/internal/auth/service.go. The random token of a call, the salt of a hash, the key of a new
-- row and the time are arguments. A function runs its statements one by one, outside a transaction.
use team_manager.Base.{
  ℕ, ◌+◌, Bool, not, ◌||◌, String, str_eq, none, some, length, Bytes, if◌then◌else◌, ltb, ok, err,
}
use team_manager.Roster.Db.{Db}
use team_manager.Roster.Db as RosterDb
use team_manager.Roster.Accounts.{erase_user}
use team_manager.Auth.Run.{return, ◌>>=◌, ◌>>◌, throw_if, found_or, from_row, ask}
use team_manager.Auth.Store.{
  Claims, Platform, Config, Account, verification_email, reset_email, no_rows, invalid_credentials,
  email_not_verified, self_registration_disabled, password_too_long, invalid_verification_token,
  invalid_reset_token, unparsable_token, missing_jti_claim, erasure_confirmation, oidc_state,
  oidc_email_unverified, oidc_account_deleted, sole_settings_admin,
}
use team_manager.Auth.Statements.{
  AuthRun, find_user_by_email, create_unverified_user, find_user_by_id, stored_hash, create_session,
  find_session, delete_session, delete_sessions_for_user, find_user_by_oidc_subject,
  link_oidc_account, mark_email_verified, update_user_password, clear_password,
  create_email_verification_token, find_email_verification_token, consume_email_verification_token,
  create_password_reset_token, find_password_reset_token, consume_password_reset_token,
  anonymize_user,
}

abbrev pub max_password_bytes : ℕ
max_password_bytes = 72

pub record OidcClaims : Type 0 where
  pub subject : String
  pub email : String
  pub email_verified : Bool

pub data OidcLoginOutcome : Type 0 where
  existing linked provisioned : OidcLoginOutcome

module _ (p : Platform) where
  unfoldable pub hash_password : ℕ → Bytes → AuthRun String
  hash_password salt password =
      throw_if (ltb max_password_bytes (length password)) password_too_long
      >> return (p.hash salt password)

  unfoldable pub create_session_and_sign : Config → ℕ → ℕ → Account → String → AuthRun Bytes
  create_session_and_sign cfg now raw user provider =
      let expires_at = now + cfg.session_ttl in
      let claims : Claims = record { user_id = user.id; id = some raw; expires_at = expires_at } in
      create_session user.id (p.sha256_hex raw) expires_at provider >> return (p.sign claims)

  -- The end of VerifyEmail and of ResetPassword.
  unfoldable pub session_for : Config → ℕ → ℕ → ℕ → AuthRun (Bytes × Account)
  session_for cfg now raw user_id = do
    user ← found_or (find_user_by_id user_id) no_rows
    signed ← create_session_and_sign cfg now raw user "password"
    return (signed, user)

  unfoldable pub login : Config → ℕ → ℕ → String → Bytes → AuthRun (Bytes × Account)
  login cfg now raw email password = do
    throw_if (ltb max_password_bytes (length password)) invalid_credentials
    user ← found_or (find_user_by_email p email) invalid_credentials
    throw_if (not (p.verify (stored_hash user) password)) invalid_credentials
    throw_if (not user.verified) email_not_verified
    signed ← create_session_and_sign cfg now raw user "password"
    return (signed, user)

  unfoldable pub issue_verification_token : Config → ℕ → ℕ → Account → AuthRun (Unit {0})
  issue_verification_token cfg now raw user =
      create_email_verification_token user.id (p.sha256_hex raw) (now + cfg.email_verification_ttl)
        (verification_email user.email raw)

  -- ErrEmailTaken: the account is left as it is, and a pending one gets a new token.
  unfoldable pub registered_before : Config → ℕ → ℕ → String → AuthRun (Unit {0})
  registered_before cfg now raw email = do
    existing_user ← found_or (find_user_by_email p email) no_rows
    if existing_user.verified then return tt else issue_verification_token cfg now raw existing_user

  unfoldable pub register : Config → ℕ → ℕ → ℕ → ℕ → String → Bytes → AuthRun (Unit {0})
  register cfg now raw salt new_id email password = do
    throw_if (not cfg.self_registration_enabled) self_registration_disabled
    throw_if (ltb max_password_bytes (length password)) password_too_long
    hashed ← hash_password salt password
    created ← create_unverified_user p new_id (p.normalize email) hashed
    elim created [
      | none ↦ registered_before cfg now raw (p.normalize email)
      | some user ↦ issue_verification_token cfg now raw user
    ]

  unfoldable pub verify_email : Config → ℕ → ℕ → ℕ → AuthRun (Bytes × Account)
  verify_email cfg now raw token = do
    row ←
        found_or (find_email_verification_token now (p.sha256_hex token)) invalid_verification_token
    consume_email_verification_token (p.sha256_hex token)
    mark_email_verified row.user_id
    session_for cfg now raw row.user_id

  unfoldable pub resend_verification : Config → ℕ → ℕ → String → AuthRun (Unit {0})
  resend_verification cfg now raw email = do
    found ← ask (find_user_by_email p (p.normalize email))
    elim found [
      | none ↦ return tt
      | some user ↦ if user.verified then return tt else issue_verification_token cfg now raw user
    ]

  unfoldable pub issue_password_reset_token : Config → ℕ → ℕ → Account → AuthRun (Unit {0})
  issue_password_reset_token cfg now raw user =
      create_password_reset_token user.id (p.sha256_hex raw) (now + cfg.password_reset_ttl)
        (reset_email user.email raw)

  unfoldable pub forgot_password : Config → ℕ → ℕ → String → AuthRun (Unit {0})
  forgot_password cfg now raw email = do
    found ← ask (find_user_by_email p (p.normalize email))
    elim found [
      | none ↦ return tt
      | some user ↦
          if str_eq (stored_hash user) ""
          then return tt
          else issue_password_reset_token cfg now raw user
    ]

  -- The password is replaced and every session of the account ends.
  unfoldable pub set_password : ℕ → ℕ → Bytes → AuthRun (Unit {0})
  set_password salt user_id new_password = do
    hashed ← hash_password salt new_password
    update_user_password user_id hashed
    delete_sessions_for_user user_id

  unfoldable pub reset_password : Config → ℕ → ℕ → ℕ → ℕ → Bytes → AuthRun (Bytes × Account)
  reset_password cfg now raw salt token new_password = do
    throw_if (ltb max_password_bytes (length new_password)) password_too_long
    row ← found_or (find_password_reset_token now (p.sha256_hex token)) invalid_reset_token
    consume_password_reset_token (p.sha256_hex token)
    set_password salt row.user_id new_password
    session_for cfg now raw row.user_id

  -- An empty `jti` is `none`.
  unfoldable pub validate_token : ℕ → Bytes → AuthRun Account
  validate_token now token = do
    claims ← from_row unparsable_token (p.parse now token)
    raw ← from_row missing_jti_claim claims.id
    session ← found_or (find_session now (p.sha256_hex raw)) no_rows
    found_or (find_user_by_id claims.user_id) no_rows

  unfoldable pub logout : ℕ → AuthRun (Unit {0})
  logout token_hash = delete_session token_hash

  unfoldable pub verify_and_link : Account → String → String → AuthRun Account
  verify_and_link user provider subject =
      (if user.verified then return tt else clear_password user.id >> mark_email_verified user.id)
      >> link_oidc_account user.id provider subject
      >> found_or (find_user_by_id user.id) no_rows

  unfoldable pub link_existing : Account → String → String → AuthRun (Account × OidcLoginOutcome)
  link_existing user provider subject = do
    fresh ← verify_and_link user provider subject
    return (fresh, linked)

  unfoldable pub resolve_email_conflict : String → OidcClaims → AuthRun (Account × OidcLoginOutcome)
  resolve_email_conflict provider claims = do
    user ← found_or (find_user_by_email p claims.email) oidc_account_deleted
    link_existing user provider claims.subject

  unfoldable pub provision : ℕ → String → OidcClaims → AuthRun (Account × OidcLoginOutcome)
  provision new_id provider claims = do
    created ← create_unverified_user p new_id claims.email ""
    elim created [
      | none ↦ resolve_email_conflict provider claims
      | some user ↦
          verify_and_link user provider claims.subject >>= λ fresh. return (fresh, provisioned)
    ]

  unfoldable pub resolve_oidc_user : ℕ → String → OidcClaims → AuthRun (Account × OidcLoginOutcome)
  resolve_oidc_user new_id provider claims = do
    by_subject ← ask (find_user_by_oidc_subject provider claims.subject)
    elim by_subject [
      | some user ↦ return (user, existing)
      | none ↦ ask (find_user_by_email p claims.email) >>= λ by_email. elim by_email [
        | some user ↦ link_existing user provider claims.subject
        | none ↦ provision new_id provider claims
      ]
    ]

  unfoldable pub login_with_oidc :
      Config → ℕ → ℕ → ℕ → String → OidcClaims → AuthRun (Bytes × Account × OidcLoginOutcome)
  login_with_oidc cfg now raw new_id provider claims = do
    throw_if (not claims.email_verified || str_eq claims.email "") oidc_email_unverified
    throw_if (str_eq claims.subject "") oidc_state
    resolved ← resolve_oidc_user new_id provider claims
    signed ← create_session_and_sign cfg now raw resolved.0 provider
    return (signed, resolved.0, resolved.1)

-- What EraseUser decides by the roster, and the error that it returns.
abbrev pub erase_from_roster : Db → ℕ → AuthRun Db
erase_from_roster db user s = elim (erase_user db user) [
  | ok db' ↦ (s, ok db')
  | err (RosterDb.sole_settings_admin teams) ↦ (s, err (sole_settings_admin teams))
  | err _ ↦ (s, err no_rows)
]

-- The roster and the accounts are changed by one transaction. The photo in the object store is not
-- modelled.
unfoldable pub erase_account : Platform → Db → ℕ → String → String → AuthRun Db
erase_account p db user placeholder confirm_email = do
  account ← found_or (find_user_by_id user) invalid_credentials
  throw_if (not (p.equal_fold confirm_email account.email)) erasure_confirmation
  db' ← erase_from_roster db user
  anonymize_user user placeholder
  return db'
