-- ===== src/Auth/Traces.antt =====
-- Sequences of the statements of backend/internal/auth/repository.go, from any number of requests, in
-- any order.
use team_manager.Base.{ℕ, ◌≡◌, String, Option, Outcome}
use team_manager.Auth.Store.{Account, Mail, Auth, Error, Platform}
use team_manager.Auth.Statements.{
  create_unverified_user, create_session, delete_session, delete_sessions_for_user,
  link_oidc_account, mark_email_verified, update_user_password, clear_password,
  create_email_verification_token, consume_email_verification_token, create_password_reset_token,
  consume_password_reset_token, anonymize_user,
}

-- One statement of some request, whether it succeeds or not.
pub data Statement (p : Platform) (s s' : Auth) : Type 0 where
  user_created :
      (k : ℕ) (e h : String) (r : Outcome Error (Option Account))
      → create_unverified_user p k e h s ≡ (s', r)
      → Statement p s s'
  session_created :
      (u h e : ℕ) (pr : String) (r : Outcome Error (Unit {0}))
      → create_session u h e pr s ≡ (s', r)
      → Statement p s s'
  session_deleted :
      (h : ℕ) (r : Outcome Error (Unit {0})) → delete_session h s ≡ (s', r) → Statement p s s'
  sessions_deleted :
      (u : ℕ) (r : Outcome Error (Unit {0}))
      → delete_sessions_for_user u s ≡ (s', r)
      → Statement p s s'
  oidc_linked :
      (u : ℕ) (pr sub : String) (r : Outcome Error (Unit {0}))
      → link_oidc_account u pr sub s ≡ (s', r)
      → Statement p s s'
  verified :
      (u : ℕ) (r : Outcome Error (Unit {0})) → mark_email_verified u s ≡ (s', r) → Statement p s s'
  password_updated :
      (u : ℕ) (h : String) (r : Outcome Error (Unit {0}))
      → update_user_password u h s ≡ (s', r)
      → Statement p s s'
  password_cleared :
      (u : ℕ) (r : Outcome Error (Unit {0})) → clear_password u s ≡ (s', r) → Statement p s s'
  verification_created :
      (u h e : ℕ) (m : Mail) (r : Outcome Error (Unit {0}))
      → create_email_verification_token u h e m s ≡ (s', r)
      → Statement p s s'
  verification_consumed :
      (h : ℕ) (r : Outcome Error (Unit {0}))
      → consume_email_verification_token h s ≡ (s', r)
      → Statement p s s'
  reset_created :
      (u h e : ℕ) (m : Mail) (r : Outcome Error (Unit {0}))
      → create_password_reset_token u h e m s ≡ (s', r)
      → Statement p s s'
  reset_consumed :
      (h : ℕ) (r : Outcome Error (Unit {0}))
      → consume_password_reset_token h s ≡ (s', r)
      → Statement p s s'
  user_anonymized :
      (u : ℕ) (e : String) (r : Outcome Error (Unit {0}))
      → anonymize_user u e s ≡ (s', r)
      → Statement p s s'

pub data Statements (p : Platform) : Auth → Auth → Type 0 where
  none_left : (s : Auth) → Statements p s s
  followed : (s₁ s₂ s₃ : Auth) → Statement p s₁ s₂ → Statements p s₂ s₃ → Statements p s₁ s₃
