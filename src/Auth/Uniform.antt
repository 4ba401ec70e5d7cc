-- ===== src/Auth/Uniform.antt =====
-- Register, ResendVerification and ForgotPassword of backend/internal/auth/service.go answer the same,
-- whatever accounts there are.
use team_manager.Base.{
  ℕ, ◌≡◌, refl, sym, ◌∙◌, inl, inr, true, false, not, String, str_eq, some, In, any, any_witness,
  find-none, Bool-cases, Option-cases, if◌then◌else◌, Outcome, ok, err, arith, Bytes, ltb, length,
}
use team_manager.Auth.Store.{
  Account, Auth, Error, Platform, Config, self_registration_disabled, password_too_long,
}
use team_manager.Auth.Statements.{
  find_user_by_email, create_unverified_user, stored_hash, has_hash,
  create_email_verification_token, create_password_reset_token,
}
use team_manager.Auth.Service.{
  hash_password, issue_verification_token, registered_before, register, resend_verification,
  issue_password_reset_token, forgot_password,
}

-- No erased account holds the address, as EraseUser overwrites it.
abbrev pub NoGhost : Platform → String → Auth → Type 0
NoGhost p email s =
    (u : Account) → In u s.accounts → u.deleted ≡ true → str_eq u.email (p.normalize email) ≡ false

-- The hash of the random token of the call is new.
abbrev pub Fresh : Platform → ℕ → Auth → Type 0
Fresh p raw s =
    (any (has_hash (p.sha256_hex raw)) s.verification_tokens ≡ false)
    × (any (has_hash (p.sha256_hex raw)) s.reset_tokens ≡ false)

issue_verification_token-ok :
    (p : Platform) (cfg : Config) (now raw : ℕ) (u : Account) (s : Auth)
    → any (has_hash (p.sha256_hex raw)) s.verification_tokens ≡ false
    → (issue_verification_token p cfg now raw u s).1 ≡ ok tt
unfolding issue_verification_token create_email_verification_token
issue_verification_token-ok p cfg now raw u s h = rw h refl

issue_password_reset_token-ok :
    (p : Platform) (cfg : Config) (now raw : ℕ) (u : Account) (s : Auth)
    → any (has_hash (p.sha256_hex raw)) s.reset_tokens ≡ false
    → (issue_password_reset_token p cfg now raw u s).1 ≡ ok tt
unfolding issue_password_reset_token create_password_reset_token
issue_password_reset_token-ok p cfg now raw u s h = rw h refl

-- An address that is taken is that of an account that a query finds.
find-taken :
    (p : Platform) (email : String) (s : Auth)
    → NoGhost p email s
    → any (λ u. str_eq u.email (p.normalize email)) s.accounts ≡ true
    → (u : Account) × (find_user_by_email p email s ≡ some u)
unfolding find_user_by_email
find-taken p email s ghost taken = elim (Option-cases (find_user_by_email p email s)) [
  | inr found ↦ found
  | inl e ↦
      let (u, i, same) = any_witness (λ u. str_eq u.email (p.normalize email)) s.accounts taken in
      absurd (ground (arith, find-none _ u s.accounts e i, same, ghost u i))
]

registered_before-ok :
    (p : Platform) (cfg : Config) (now raw : ℕ) (email : String) (s : Auth) (u : Account)
    → find_user_by_email p email s ≡ some u
    → any (has_hash (p.sha256_hex raw)) s.verification_tokens ≡ false
    → (registered_before p cfg now raw email s).1 ≡ ok tt
unfolding registered_before
registered_before-ok p cfg now raw email s u found fresh = elim (Bool-cases u.verified) [
  | inl v ↦ simp (found, v)
  | inr v ↦ simp (found, v, issue_verification_token-ok p cfg now raw u s fresh)
]

resend_verification-ok :
    (p : Platform) (cfg : Config) (now raw : ℕ) (email : String) (s : Auth)
    → any (has_hash (p.sha256_hex raw)) s.verification_tokens ≡ false
    → (resend_verification p cfg now raw email s).1 ≡ ok tt
unfolding resend_verification
resend_verification-ok p cfg now raw email s fresh =
    elim (Option-cases (find_user_by_email p (p.normalize email) s)) [
      | inl e ↦ simp e
      | inr (u, e) ↦ elim (Bool-cases u.verified) [
        | inl v ↦ simp (e, v)
        | inr v ↦ simp (e, v, issue_verification_token-ok p cfg now raw u s fresh)
      ]
    ]

forgot_password-ok :
    (p : Platform) (cfg : Config) (now raw : ℕ) (email : String) (s : Auth)
    → any (has_hash (p.sha256_hex raw)) s.reset_tokens ≡ false
    → (forgot_password p cfg now raw email s).1 ≡ ok tt
unfolding forgot_password
forgot_password-ok p cfg now raw email s fresh =
    elim (Option-cases (find_user_by_email p (p.normalize email) s)) [
      | inl e ↦ simp e
      | inr (u, e) ↦ elim (Bool-cases (str_eq (stored_hash u) "")) [
        | inl v ↦ simp (e, v)
        | inr v ↦ simp (e, v, issue_password_reset_token-ok p cfg now raw u s fresh)
      ]
    ]

abbrev register_answer : Config → Bytes → Outcome Error (Unit {0})
register_answer cfg password =
    if not cfg.self_registration_enabled
    then err self_registration_disabled
    else if ltb 72 (length password)
    then err password_too_long
    else ok tt

register-eq-answer :
    (p : Platform) (cfg : Config) (now raw salt new_id : ℕ) (email : String) (password : Bytes)
    (s : Auth)
    → NoGhost p (p.normalize email) s
    → any (has_hash (p.sha256_hex raw)) s.verification_tokens ≡ false
    → (register p cfg now raw salt new_id email password s).1 ≡ register_answer cfg password
unfolding register hash_password create_unverified_user
register-eq-answer p cfg now raw salt new_id email password s ghost fresh =
    elim (Bool-cases cfg.self_registration_enabled) [
      | inr off ↦ simp off
      | inl on ↦ elim (Bool-cases (ltb 72 (length password))) [
        | inl e ↦ simp (on, e)
        | inr e ↦
            elim (Bool-cases
              (any (λ u. str_eq u.email (p.normalize (p.normalize email))) s.accounts)) [
                | inl taken ↦
                    let (u, found) = find-taken p (p.normalize email) s ghost taken in
                    simp (
                      on,
                      e,
                      taken,
                      registered_before-ok p cfg now raw (p.normalize email) s u found fresh,
                    )
                | inr free ↦ simp (on, e, free, issue_verification_token-ok p cfg now raw _ _ fresh)
              ]
      ]
    ]

-- Two states may differ in every account, verified or not, with a password or without: as long as the
-- random token is new in both and no erased account holds the address, Register, ResendVerification
-- and ForgotPassword answer the same in both, so that an answer does not tell whether an address is
-- registered.
pub same_answers :
    (p : Platform) (cfg : Config) (now raw salt new_id : ℕ) (email : String) (password : Bytes)
    (s t : Auth)
    → NoGhost p (p.normalize email) s
    → NoGhost p (p.normalize email) t
    → Fresh p raw s
    → Fresh p raw t
    → ((register p cfg now raw salt new_id email password s).1
        ≡ (register p cfg now raw salt new_id email password t).1)
      × ((resend_verification p cfg now raw email s).1
          ≡ (resend_verification p cfg now raw email t).1)
      × ((forgot_password p cfg now raw email s).1 ≡ (forgot_password p cfg now raw email t).1)
same_answers p cfg now raw salt new_id email password s t gs gt fs ft = (
  register-eq-answer p cfg now raw salt new_id email password s gs fs.0
      ∙ sym (register-eq-answer p cfg now raw salt new_id email password t gt ft.0),
  resend_verification-ok p cfg now raw email s fs.0
      ∙ sym (resend_verification-ok p cfg now raw email t ft.0),
  forgot_password-ok p cfg now raw email s fs.1
      ∙ sym (forgot_password-ok p cfg now raw email t ft.1),
)
