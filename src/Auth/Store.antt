-- ===== src/Auth/Store.antt =====
-- The tables of backend/internal/auth (model.go) and what the service takes from elsewhere: bcrypt,
-- SHA-256, JSON web tokens and the normalisation of addresses. Instants are numbers, random tokens too.
use team_manager.Base.{ℕ, ◌≡◌, Bool, true, false, String, List, Option, Bytes}

pub record Claims : Type 0 where
  pub user_id : ℕ
  -- The raw session token, the claim `jti`.
  pub id : Option ℕ
  pub expires_at : ℕ

-- bcrypt.GenerateFromPassword with its salt, bcrypt.CompareHashAndPassword, sha256Hex,
-- strings.ToLower(strings.TrimSpace(email)), strings.EqualFold of trimmed strings, and the signing and
-- parsing of JSON web tokens at a time.
pub record Platform : Type 0 where
  pub hash : ℕ → Bytes → String
  pub verify : String → Bytes → Bool
  pub sha256_hex : ℕ → ℕ
  pub normalize : String → String
  pub equal_fold : String → String → Bool
  pub sign : Claims → Bytes
  pub parse : ℕ → Bytes → Option Claims

-- What the code relies on: a hash verifies the password that it was made from, and the empty string is
-- no hash.
pub record Bcrypt (p : Platform) : Type 0 where
  pub hash_verifies :
      (salt : ℕ) (password : Bytes) → p.verify (p.hash salt password) password ≡ true
  pub empty_verifies_none : (password : Bytes) → p.verify "" password ≡ false

pub record Config : Type 0 where
  pub session_ttl : ℕ
  pub email_verification_ttl : ℕ
  pub password_reset_ttl : ℕ
  pub self_registration_enabled : Bool

-- users; `email_verified_at IS NOT NULL` and `deleted_at IS NOT NULL` are Booleans.
pub record Account : Type 0 where
  pub id : ℕ
  pub email : String
  pub password_hash : Option String
  pub verified : Bool
  pub deleted : Bool

pub record Session : Type 0 where
  pub user_id : ℕ
  pub token_hash : ℕ
  pub provider : String
  pub expires_at : ℕ

-- A row of email_verification_tokens or of password_reset_tokens.
pub record TokenRow : Type 0 where
  pub user_id : ℕ
  pub token_hash : ℕ
  pub expires_at : ℕ
  pub consumed : Bool

pub record OidcAccount : Type 0 where
  pub user_id : ℕ
  pub provider : String
  pub subject : String

-- A job that sends the raw token to an address.
pub data Mail : Type 0 where
  verification_email reset_email : String → ℕ → Mail

pub record Auth : Type 0 where
  pub accounts : List Account
  pub sessions : List Session
  pub verification_tokens : List TokenRow
  pub reset_tokens : List TokenRow
  pub oidc_accounts : List OidcAccount
  pub mails : List Mail

pub data Error : Type 0 where
  no_rows unique_violation invalid_credentials email_not_verified : Error
  self_registration_disabled password_too_long : Error
  invalid_verification_token invalid_reset_token : Error
  unparsable_token missing_jti_claim erasure_confirmation : Error
  oidc_state oidc_email_unverified oidc_account_deleted : Error
  sole_settings_admin : List ℕ → Error
