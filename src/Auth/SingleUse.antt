-- ===== src/Auth/SingleUse.antt =====
-- The tokens of backend/internal/auth are for a single use, whatever statements of other requests run
-- in between.
use team_manager.Base.{
  ℕ, ◌≤◌, length, ◌≡◌, refl, inl, inr, true, false, List, [], ◌∷◌, none, any, Bool-cases, ◌==◌, ok,
  err, arith, Bytes, ltb,
}
use team_manager.Auth.Store.{
  TokenRow, Auth, no_rows, Platform, Config, invalid_reset_token, invalid_verification_token,
}
use team_manager.Auth.Traces.{
  Statement, user_created, session_created, session_deleted, sessions_deleted, oidc_linked,
  verified, password_updated, password_cleared, verification_created, verification_consumed,
  reset_created, reset_consumed, user_anonymized, Statements, none_left, followed,
}
use team_manager.Auth.Service.{verify_email, reset_password}
use team_manager.Auth.Statements.{
  create_unverified_user, create_session, delete_session, delete_sessions_for_user,
  link_oidc_account, mark_email_verified, update_user_password, clear_password, new_token, has_hash,
  is_unconsumed, consume, find_token, create_email_verification_token,
  find_email_verification_token, consume_email_verification_token, create_password_reset_token,
  find_password_reset_token, consume_password_reset_token, anonymize_user,
}

-- What a statement does to a table of tokens.
data Moved (rows rows' : List TokenRow) : Type 0 where
  kept : rows' ≡ rows → Moved rows rows'
  added :
      (u h e : ℕ)
      → any (has_hash h) rows ≡ false
      → rows' ≡ (new_token u h e ∷ rows)
      → Moved rows rows'
  used : (h : ℕ) → rows' ≡ consume h rows → Moved rows rows'

-- The hash stands in the table, and in no row that is not consumed.
abbrev pub Spent : ℕ → List TokenRow → Type 0
Spent h rows = (any (has_hash h) rows ≡ true) × (any (is_unconsumed h) rows ≡ false)

any_hash-consume :
    (h k : ℕ) (rows : List TokenRow) → any (has_hash h) (consume k rows) ≡ any (has_hash h) rows
any_hash-consume h k [] = refl
any_hash-consume h k (t ∷ rows) = elim (Bool-cases (is_unconsumed k t)) [
  | inl e ↦ ground (arith, e, any_hash-consume h k rows)
  | inr e ↦ ground (arith, e, any_hash-consume h k rows)
]

unconsumed-consume :
    (h k : ℕ) (rows : List TokenRow)
    → any (is_unconsumed h) rows ≡ false
    → any (is_unconsumed h) (consume k rows) ≡ false
unconsumed-consume h k [] e = refl
unconsumed-consume h k (t ∷ rows) e = elim (Bool-cases (is_unconsumed k t)) [
  | inl q ↦ ground (arith, q, e, unconsumed-consume h k rows)
  | inr q ↦ ground (arith, q, e, unconsumed-consume h k rows)
]

consume_all : (h : ℕ) (rows : List TokenRow) → any (is_unconsumed h) (consume h rows) ≡ false
consume_all h [] = refl
consume_all h (t ∷ rows) = elim (Bool-cases (is_unconsumed h t)) [
  | inl q ↦ ground (arith, q, consume_all h rows)
  | inr q ↦ ground (arith, q, consume_all h rows)
]

unconsumed-hash :
    (h : ℕ) (rows : List TokenRow)
    → any (is_unconsumed h) rows ≡ true
    → any (has_hash h) rows ≡ true
unconsumed-hash h [] e = cc
unconsumed-hash h (t ∷ rows) e = ground (arith, e, unconsumed-hash h rows)

consume-Spent :
    (h : ℕ) (rows : List TokenRow) → any (is_unconsumed h) rows ≡ true → Spent h (consume h rows)
consume-Spent h rows e =
    (rw (any_hash-consume h h rows) (unconsumed-hash h rows e), consume_all h rows)

Moved-Spent : (h : ℕ) (rows rows' : List TokenRow) → Moved rows rows' → Spent h rows → Spent h rows'
Moved-Spent h rows rows' (kept e) sp = rw e sp
Moved-Spent h rows rows' (used k e) (here, gone) =
    rw e (rw (any_hash-consume h k rows) here, unconsumed-consume h k rows gone)
Moved-Spent h rows rows' (added u k e fresh q) (here, gone) = rw q (elim (Bool-cases (k == h)) [
  | inl same ↦ absurd (ground (arith, same, fresh, here))
  | inr other ↦ (ground (arith, here), ground (arith, other, gone))
])

find_token-Spent :
    (now h : ℕ) (rows : List TokenRow)
    → any (is_unconsumed h) rows ≡ false
    → find_token now h rows ≡ none
find_token-Spent now h [] e = refl
find_token-Spent now h (t ∷ rows) e = ground (arith, e, find_token-Spent now h rows)

verification-Moved :
    (p : Platform) (s s' : Auth)
    → Statement p s s'
    → Moved s.verification_tokens s'.verification_tokens
unfolding create_unverified_user create_session delete_session delete_sessions_for_user
    link_oidc_account mark_email_verified update_user_password clear_password
    create_email_verification_token consume_email_verification_token create_password_reset_token
    consume_password_reset_token anonymize_user
verification-Moved p s s' (user_created k e h r q) = kept (ground arith)
verification-Moved p s s' (session_created u h e pr r q) = kept (ground arith)
verification-Moved p s s' (session_deleted h r q) = kept (ground arith)
verification-Moved p s s' (sessions_deleted u r q) = kept (ground arith)
verification-Moved p s s' (oidc_linked u pr sub r q) = kept (ground arith)
verification-Moved p s s' (verified u r q) = kept (ground arith)
verification-Moved p s s' (password_updated u h r q) = kept (ground arith)
verification-Moved p s s' (password_cleared u r q) = kept (ground arith)
verification-Moved p s s' (reset_created u h e m r q) = kept (ground arith)
verification-Moved p s s' (reset_consumed h r q) = kept (ground arith)
verification-Moved p s s' (user_anonymized u e r q) = kept (ground arith)
verification-Moved p s s' (verification_created u h e m r q) =
    elim (Bool-cases (any (has_hash h) s.verification_tokens)) [
      | inl b ↦ kept (ground (arith, b))
      | inr b ↦ added u h e b (ground (arith, b))
    ]
verification-Moved p s s' (verification_consumed h r q) =
    elim (Bool-cases (any (is_unconsumed h) s.verification_tokens)) [
      | inl b ↦ used h (ground (arith, b))
      | inr b ↦ kept (ground (arith, b))
    ]

reset-Moved : (p : Platform) (s s' : Auth) → Statement p s s' → Moved s.reset_tokens s'.reset_tokens
unfolding create_unverified_user create_session delete_session delete_sessions_for_user
    link_oidc_account mark_email_verified update_user_password clear_password
    create_email_verification_token consume_email_verification_token create_password_reset_token
    consume_password_reset_token anonymize_user
reset-Moved p s s' (user_created k e h r q) = kept (ground arith)
reset-Moved p s s' (session_created u h e pr r q) = kept (ground arith)
reset-Moved p s s' (session_deleted h r q) = kept (ground arith)
reset-Moved p s s' (sessions_deleted u r q) = kept (ground arith)
reset-Moved p s s' (oidc_linked u pr sub r q) = kept (ground arith)
reset-Moved p s s' (verified u r q) = kept (ground arith)
reset-Moved p s s' (password_updated u h r q) = kept (ground arith)
reset-Moved p s s' (password_cleared u r q) = kept (ground arith)
reset-Moved p s s' (verification_created u h e m r q) = kept (ground arith)
reset-Moved p s s' (verification_consumed h r q) = kept (ground arith)
reset-Moved p s s' (user_anonymized u e r q) = kept (ground arith)
reset-Moved p s s' (reset_created u h e m r q) =
    elim (Bool-cases (any (has_hash h) s.reset_tokens)) [
      | inl b ↦ kept (ground (arith, b))
      | inr b ↦ added u h e b (ground (arith, b))
    ]
reset-Moved p s s' (reset_consumed h r q) =
    elim (Bool-cases (any (is_unconsumed h) s.reset_tokens)) [
      | inl b ↦ used h (ground (arith, b))
      | inr b ↦ kept (ground (arith, b))
    ]

still-Spent :
    (p : Platform) (h : ℕ) (table : Auth → List TokenRow)
    → ((s s' : Auth) → Statement p s s' → Moved (table s) (table s'))
    → (s s' : Auth) → Statements p s s'
    → Spent h (table s)
    → Spent h (table s')
still-Spent p h table moved s _ (none_left _) sp = sp
still-Spent p h table moved s s' (followed _ s₁ _ st rest) sp =
    still-Spent p h table moved s₁ s' rest (Moved-Spent h (table s) (table s₁) (moved s s₁ st) sp)

-- Once a statement has consumed a verification token or a reset token, then after any statements of
-- any requests, in any order, neither is the token found nor can it be consumed: VerifyEmail or
-- ResetPassword with it fails and changes nothing.
pub token_once :
    (p : Platform) (cfg : Config) (token : ℕ) (s s₁ s₂ : Auth)
    → Statements p s₁ s₂
    → (consume_email_verification_token (p.sha256_hex token) s ≡ (s₁, ok tt)
        → (consume_email_verification_token (p.sha256_hex token) s₂ ≡ (s₂, err no_rows))
          × ((now raw : ℕ)
              → verify_email p cfg now raw token s₂ ≡ (s₂, err invalid_verification_token)))
      × (consume_password_reset_token (p.sha256_hex token) s ≡ (s₁, ok tt)
          → (consume_password_reset_token (p.sha256_hex token) s₂ ≡ (s₂, err no_rows))
            × ((now raw salt : ℕ) (password : Bytes)
                → length password ≤ 72
                → reset_password p cfg now raw salt token password s₂
                  ≡ (s₂, err invalid_reset_token)))
unfolding consume_email_verification_token consume_password_reset_token verify_email reset_password
    find_email_verification_token find_password_reset_token
token_once p cfg token s s₁ s₂ between =
    let h = p.sha256_hex token in
    (
      λ used_up.
          let was : any (is_unconsumed h) s.verification_tokens ≡ true = ground (arith, used_up) in
          let rows : s₁.verification_tokens ≡ consume h s.verification_tokens =
            ground (arith, used_up, was) in
          let spent : Spent h s₁.verification_tokens =
            rw rows (consume-Spent h s.verification_tokens was) in
          let after =
            still-Spent p h (λ t. t.verification_tokens) (verification-Moved p) s₁ s₂ between
              spent in
          (
            rw after.1 refl,
            λ now raw. rw (find_token-Spent now h s₂.verification_tokens after.1) refl,
          ),
      λ used_up.
          let was : any (is_unconsumed h) s.reset_tokens ≡ true = ground (arith, used_up) in
          let rows : s₁.reset_tokens ≡ consume h s.reset_tokens = ground (arith, used_up, was) in
          let spent : Spent h s₁.reset_tokens = rw rows (consume-Spent h s.reset_tokens was) in
          let after = still-Spent p h (λ t. t.reset_tokens) (reset-Moved p) s₁ s₂ between spent in
          (
            rw after.1 refl,
            λ now raw salt password short.
                let fits : ltb 72 (length password) ≡ false = ground (arith, short) in
                simp (fits, find_token-Spent now h s₂.reset_tokens after.1),
          ),
    )
