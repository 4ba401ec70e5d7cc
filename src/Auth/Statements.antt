-- ===== src/Auth/Statements.antt =====
-- backend/internal/auth/repository.go: one function per statement. Columns that are only displayed
-- (name, phone, birthday, address, photo) are not modelled. A key that a UNIQUE constraint refuses is
-- an error of the statement.
use team_manager.Base.{
  ℕ, Bool, true, false, not, ◌&&◌, String, str_eq, List, ◌∷◌, ◌++◌, [], Option, none, some, any,
  delete, find, update, if◌then◌else◌, ◌==◌, ltb, or_default, ok, err,
}
use team_manager.Auth.Run.{Run}
use team_manager.Auth.Store.{
  Account, Session, TokenRow, OidcAccount, Mail, Auth, Error, no_rows, unique_violation, Platform,
}

abbrev pub AuthRun {ℓ} : Type ℓ → Type ℓ
AuthRun A = Run Auth Error A

module _ (p : Platform) where
  -- `WHERE email = $1 AND deleted_at IS NULL`
  unfoldable pub find_user_by_email : String → Auth → Option Account
  find_user_by_email email s =
      find (λ u. str_eq u.email (p.normalize email) && not u.deleted) s.accounts

  abbrev pub new_account : ℕ → String → String → Account
  new_account new_id email password_hash = record {
    id = new_id;
    email = p.normalize email;
    password_hash = some password_hash;
    verified = false;
    deleted = false;
  }

  -- `ON CONFLICT (email) DO NOTHING`; `none` is ErrEmailTaken.
  unfoldable pub create_unverified_user : ℕ → String → String → AuthRun (Option Account)
  create_unverified_user new_id email password_hash s =
      let row = new_account new_id email password_hash in
      if any (λ u. str_eq u.email (p.normalize email)) s.accounts
      then (s, ok none)
      else (record s { accounts = row ∷ s.accounts }, ok (some row))

abbrev pub is_active_user : ℕ → Account → Bool
is_active_user id u = u.id == id && not u.deleted

unfoldable pub find_user_by_id : ℕ → Auth → Option Account
find_user_by_id id s = find (is_active_user id) s.accounts

-- `COALESCE(password_hash, '')`
abbrev pub stored_hash : Account → String
stored_hash u = or_default u.password_hash ""

unfoldable pub create_session : ℕ → ℕ → ℕ → String → AuthRun (Unit {0})
create_session user token_hash expires_at provider s =
    if any (λ r. r.token_hash == token_hash) s.sessions then (s, err unique_violation) else (
      record s {
        sessions =
            record {
              user_id = user;
              token_hash = token_hash;
              provider = if str_eq provider "" then "password" else provider;
              expires_at = expires_at;
            }
            ∷ s.sessions;
      },
      ok tt,
    )

-- `WHERE token_hash = $1 AND expires_at > now()`
unfoldable pub find_session : ℕ → ℕ → Auth → Option Session
find_session now token_hash s =
    find (λ r. r.token_hash == token_hash && ltb now r.expires_at) s.sessions

unfoldable pub delete_session : ℕ → AuthRun (Unit {0})
delete_session token_hash s =
    (record s { sessions = delete (λ r. r.token_hash == token_hash) s.sessions }, ok tt)

unfoldable pub delete_sessions_for_user : ℕ → AuthRun (Unit {0})
delete_sessions_for_user user s =
    (record s { sessions = delete (λ r. r.user_id == user) s.sessions }, ok tt)

abbrev pub link_of : String → String → OidcAccount → Bool
link_of provider subject o = str_eq o.provider provider && str_eq o.subject subject

unfoldable pub find_user_by_oidc_subject : String → String → Auth → Option Account
find_user_by_oidc_subject provider subject s =
    find
      (λ u.
        not u.deleted && any (λ o. o.user_id == u.id && link_of provider subject o) s.oidc_accounts)
      s.accounts

-- `ON CONFLICT (provider, subject) DO NOTHING`
unfoldable pub link_oidc_account : ℕ → String → String → AuthRun (Unit {0})
link_oidc_account user provider subject s =
    if any (link_of provider subject) s.oidc_accounts then (s, ok tt) else (
      record s {
        oidc_accounts =
            record { user_id = user; provider = provider; subject = subject } ∷ s.oidc_accounts;
      },
      ok tt,
    )

unfoldable pub mark_email_verified : ℕ → AuthRun (Unit {0})
mark_email_verified user s = (
  record s {
    accounts =
        update (λ u. u.id == user && not u.verified) (λ u. record u { verified = true }) s.accounts;
  },
  ok tt,
)

unfoldable pub update_user_password : ℕ → String → AuthRun (Unit {0})
update_user_password user password_hash s =
    if any (is_active_user user) s.accounts
    then (
      record s {
        accounts =
            update (is_active_user user) (λ u. record u { password_hash = some password_hash })
              s.accounts;
      },
      ok tt,
    )
    else (s, err no_rows)

unfoldable pub clear_password : ℕ → AuthRun (Unit {0})
clear_password user s = (
  record s {
    accounts = update (is_active_user user) (λ u. record u { password_hash = none }) s.accounts;
  },
  ok tt,
)

abbrev pub new_token : ℕ → ℕ → ℕ → TokenRow
new_token user token_hash expires_at = record {
  user_id = user;
  token_hash = token_hash;
  expires_at = expires_at;
  consumed = false;
}

abbrev pub has_hash : ℕ → TokenRow → Bool
has_hash token_hash t = t.token_hash == token_hash

-- `WHERE token_hash = $1 AND expires_at > now() AND consumed_at IS NULL`
abbrev pub find_token : ℕ → ℕ → List TokenRow → Option TokenRow
find_token now token_hash rows =
    find (λ t. has_hash token_hash t && ltb now t.expires_at && not t.consumed) rows

-- `WHERE token_hash = $1 AND consumed_at IS NULL`
abbrev pub is_unconsumed : ℕ → TokenRow → Bool
is_unconsumed token_hash t = has_hash token_hash t && not t.consumed

abbrev pub consume : ℕ → List TokenRow → List TokenRow
consume token_hash rows = update (is_unconsumed token_hash) (λ t. record t { consumed = true }) rows

-- The insertion of the token and of the mail's job is one transaction.
unfoldable pub create_email_verification_token : ℕ → ℕ → ℕ → Mail → AuthRun (Unit {0})
create_email_verification_token user token_hash expires_at mail s =
    if any (has_hash token_hash) s.verification_tokens then (s, err unique_violation) else (
      record s {
        verification_tokens = new_token user token_hash expires_at ∷ s.verification_tokens;
        mails = s.mails ++ (mail ∷ []);
      },
      ok tt,
    )

unfoldable pub find_email_verification_token : ℕ → ℕ → Auth → Option TokenRow
find_email_verification_token now token_hash s = find_token now token_hash s.verification_tokens

unfoldable pub consume_email_verification_token : ℕ → AuthRun (Unit {0})
consume_email_verification_token token_hash s =
    if any (is_unconsumed token_hash) s.verification_tokens
    then (record s { verification_tokens = consume token_hash s.verification_tokens }, ok tt)
    else (s, err no_rows)

unfoldable pub create_password_reset_token : ℕ → ℕ → ℕ → Mail → AuthRun (Unit {0})
create_password_reset_token user token_hash expires_at mail s =
    if any (has_hash token_hash) s.reset_tokens then (s, err unique_violation) else (
      record s {
        reset_tokens = new_token user token_hash expires_at ∷ s.reset_tokens;
        mails = s.mails ++ (mail ∷ []);
      },
      ok tt,
    )

unfoldable pub find_password_reset_token : ℕ → ℕ → Auth → Option TokenRow
find_password_reset_token now token_hash s = find_token now token_hash s.reset_tokens

unfoldable pub consume_password_reset_token : ℕ → AuthRun (Unit {0})
consume_password_reset_token token_hash s =
    if any (is_unconsumed token_hash) s.reset_tokens
    then (record s { reset_tokens = consume token_hash s.reset_tokens }, ok tt)
    else (s, err no_rows)

-- The steps of EraseUser on these tables. `placeholder` is 'deleted+' || id || '@invalid'.
unfoldable pub anonymize_user : ℕ → String → AuthRun (Unit {0})
anonymize_user user placeholder s = (
  record s {
    accounts =
        update (is_active_user user)
          (λ u. record u { email = placeholder; password_hash = none; deleted = true }) s.accounts;
    sessions = delete (λ r. r.user_id == user) s.sessions;
    oidc_accounts = delete (λ o. o.user_id == user) s.oidc_accounts;
  },
  ok tt,
)
