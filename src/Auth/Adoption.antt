-- ===== src/Auth/Adoption.antt =====
-- LoginWithOIDC of backend/internal/auth/service.go, where it adopts an account whose address was never
-- verified.
use team_manager.Base.{
  ℕ, ◌≡◌, refl, sym, ap, ◌∙◌, inl, inr, Bool, true, false, not, ◌&&◌, ◌||◌, String, str_eq, List,
  [], ◌∷◌, some, none, find, find-In, update, Bool-cases, ◌==◌, if◌then◌else◌, Outcome, ok, err,
  arith, Bytes, ltb, length,
}
use team_manager.Auth.Run.{return, ◌>>=◌, ◌>>◌, >>=-eq-ok, found_or, found_or-ok}
use team_manager.Auth.Store.{
  Account, Auth, Error, Platform, Bcrypt, Config, invalid_credentials, no_rows,
}
use team_manager.Auth.Statements.{
  AuthRun, is_active_user, find_user_by_email, find_user_by_id, find_user_by_oidc_subject,
  link_oidc_account, mark_email_verified, clear_password,
}
use team_manager.Auth.Service.{
  create_session_and_sign, login, verify_and_link, link_existing, resolve_oidc_user,
  login_with_oidc, OidcClaims, OidcLoginOutcome, linked,
}
use team_manager.Auth.Reset.{create_session_and_sign-ok}

abbrev without_password : Account → Account
without_password u = record u { password_hash = none }

abbrev with_verified : Account → Account
with_verified u = record u { verified = true }

-- The accounts after ClearPassword and MarkEmailVerified.
abbrev disarmed : ℕ → List Account → List Account
disarmed user rows =
    update (λ u. u.id == user && not u.verified) with_verified
      (update (is_active_user user) without_password rows)

-- An update that keeps what a query looks at changes the row that the query finds.
find-update_same :
    (q p : Account → Bool) (f : Account → Account) (rows : List Account) (u : Account)
    → ((x : Account) → q (f x) ≡ q x)
    → find q rows ≡ some u
    → find q (update p f rows) ≡ some (if p u then f u else u)
find-update_same q p f [] u keep h = cc
find-update_same q p f (x ∷ rows) u keep h = elim (Bool-cases (q x)) [
  | inl e ↦ ground (arith, e, h, keep x)
  | inr e ↦ elim (Bool-cases (p x)) [
    | inl k ↦ ground (arith, e, k, keep x, find-update_same q p f rows u keep (rw e at h))
    | inr k ↦ ground (arith, e, k, find-update_same q p f rows u keep (rw e at h))
  ]
]

link-accounts :
    (user : ℕ) (provider subject : String) (s : Auth)
    → (link_oidc_account user provider subject s).0.accounts ≡ s.accounts
unfolding link_oidc_account
link-accounts user provider subject s = ground arith

abbrev disarmed_state : ℕ → Auth → Auth
disarmed_state user s = record s { accounts = disarmed user s.accounts }

verify_and_link-runs :
    (p : Platform) (u : Account) (provider subject : String) (s s' : Auth) (v : Account)
    → u.verified ≡ false
    → verify_and_link p u provider subject s ≡ (s', ok v)
    → s'.accounts ≡ disarmed u.id s.accounts
unfolding verify_and_link clear_password mark_email_verified
verify_and_link-runs p u provider subject s s' v unverified h =
    let (s₁, w, done, last) =
      >>=-eq-ok
        ((clear_password u.id >> mark_email_verified u.id)
          >> link_oidc_account u.id provider subject)
        (λ _. found_or (find_user_by_id u.id) no_rows) s s' v (rw unverified at h) in
    let (_, same) = found_or-ok (find_user_by_id u.id) no_rows s₁ s' v last in
    ap (λ (x : Auth). x.accounts) same
    ∙ ap (λ (x : Auth × Outcome Error (Unit {0})). x.0.accounts) (sym done)
    ∙ link-accounts u.id provider subject (disarmed_state u.id s)

link_existing-runs :
    (p : Platform) (u : Account) (provider subject : String) (s s' : Auth)
    (r : Account × OidcLoginOutcome)
    → u.verified ≡ false
    → link_existing p u provider subject s ≡ (s', ok r)
    → s'.accounts ≡ disarmed u.id s.accounts
unfolding link_existing
link_existing-runs p u provider subject s s' r unverified h =
    let (s₁, v, adopted, last) =
      >>=-eq-ok (verify_and_link p u provider subject) (λ v. return (v, linked)) s s' r h in
    ap (λ (x : Auth × Outcome Error (Account × OidcLoginOutcome)). x.0.accounts) (sym last)
    ∙ verify_and_link-runs p u provider subject s s₁ v unverified adopted

abbrev sign_in :
    Platform
    → Config
    → ℕ
    → ℕ
    → String
    → Account × OidcLoginOutcome
    → AuthRun (Bytes × Account × OidcLoginOutcome)
sign_in p cfg now raw provider resolved =
    create_session_and_sign p cfg now raw resolved.0 provider >>= λ signed.
    return (signed, resolved.0, resolved.1)

sign_in-accounts :
    (p : Platform) (cfg : Config) (now raw : ℕ) (provider : String)
    (resolved : Account × OidcLoginOutcome) (s s' : Auth) (r : Bytes × Account × OidcLoginOutcome)
    → sign_in p cfg now raw provider resolved s ≡ (s', ok r)
    → s'.accounts ≡ s.accounts
sign_in-accounts p cfg now raw provider resolved s s' r h =
    let (s₁, g, signed, last) =
      >>=-eq-ok (create_session_and_sign p cfg now raw resolved.0 provider)
        (λ g. return (g, resolved.0, resolved.1)) s s' r h in
    ap (λ (x : Auth × Outcome Error (Bytes × Account × OidcLoginOutcome)). x.0.accounts) (sym last)
    ∙ ap (λ (x : Auth). x.accounts)
        (create_session_and_sign-ok p cfg now raw resolved.0 provider s s₁ g signed)

login_with_oidc-adopts :
    (p : Platform) (cfg : Config) (now raw new_id : ℕ) (provider : String) (claims : OidcClaims)
    (s s' : Auth) (r : Bytes × Account × OidcLoginOutcome) (u : Account)
    → find_user_by_oidc_subject provider claims.subject s ≡ none
    → find_user_by_email p claims.email s ≡ some u
    → u.verified ≡ false
    → login_with_oidc p cfg now raw new_id provider claims s ≡ (s', ok r)
    → s'.accounts ≡ disarmed u.id s.accounts
unfolding login_with_oidc resolve_oidc_user
login_with_oidc-adopts p cfg now raw new_id provider claims s s' r u no_link found unverified h =
    elim (Bool-cases (not claims.email_verified || str_eq claims.email "")) [
      | inl e ↦ cc (rw e at h)
      | inr e ↦ elim (Bool-cases (str_eq claims.subject "")) [
        | inl q ↦ cc (simp (e, q) at h)
        | inr q ↦ go (simp (e, q, no_link, found) at h)
      ]
    ]
  where
    go :
        (link_existing p u provider claims.subject >>= sign_in p cfg now raw provider) s
          ≡ (s', ok r)
        → s'.accounts ≡ disarmed u.id s.accounts
    go h =
        let (s₁, v, adopted, rest) =
          >>=-eq-ok (link_existing p u provider claims.subject) (sign_in p cfg now raw provider) s
            s' r h in
        sign_in-accounts p cfg now raw provider v s₁ s' r rest
        ∙ link_existing-runs p u provider claims.subject s s₁ v unverified adopted

-- The row that an address leads to after the adoption.
disarmed-found :
    (p : Platform) (email : String) (s s' : Auth) (u : Account)
    → find_user_by_email p email s ≡ some u
    → s'.accounts ≡ disarmed u.id s.accounts
    → (v : Account) × (find_user_by_email p email s' ≡ some v) × (v.password_hash ≡ none)
unfolding find_user_by_email
disarmed-found p email s s' u found same =
    let q : Account → Bool = λ x. str_eq x.email (p.normalize email) && not x.deleted in
    let cleared =
      find-update_same q (is_active_user u.id) without_password s.accounts u (λ x. refl) found in
    let (_, active) = find-In q u s.accounts found in
    let is_u : is_active_user u.id u ≡ true = ground (arith, active) in
    let verified =
      find-update_same q (λ x. x.id == u.id && not x.verified) with_verified
        (update (is_active_user u.id) without_password s.accounts) (without_password u) (λ x. refl)
        (simp is_u at cleared) in
    (_, ap (find q) same ∙ verified, no_hash (u.id == u.id && not u.verified))
  where
    no_hash :
        (b : Bool)
        → (if b then with_verified (without_password u) else without_password u).password_hash
          ≡ none
    no_hash true = refl
    no_hash false = refl

login-no_password :
    (p : Platform) (cfg : Config) (now raw : ℕ) (email : String) (password : Bytes) (s : Auth)
    (v : Account)
    → Bcrypt p
    → find_user_by_email p email s ≡ some v
    → v.password_hash ≡ none
    → login p cfg now raw email password s ≡ (s, err invalid_credentials)
unfolding login
login-no_password p cfg now raw email password s v law found empty =
    elim (Bool-cases (ltb 72 (length password))) [
      | inl e ↦ simp e
      | inr e ↦ simp (e, found, empty, law.empty_verifies_none password)
    ]

-- When a sign-in through a provider succeeds for a subject that no account is linked to, with an
-- address that leads to an account whose address was never verified, then in the state that it leaves
-- no login with that address and any password, at any time, succeeds: each answers
-- invalid_credentials and changes nothing. So a password chosen by whoever registered the address
-- first does not open the adopted account.
pub oidc_disarms :
    (p : Platform) (cfg : Config) (now raw new_id : ℕ) (provider : String) (claims : OidcClaims)
    (s s' : Auth) (r : Bytes × Account × OidcLoginOutcome) (u : Account)
    → Bcrypt p
    → find_user_by_oidc_subject provider claims.subject s ≡ none
    → find_user_by_email p claims.email s ≡ some u
    → u.verified ≡ false
    → login_with_oidc p cfg now raw new_id provider claims s ≡ (s', ok r)
    → (later fresh : ℕ) (password : Bytes)
    → login p cfg later fresh claims.email password s' ≡ (s', err invalid_credentials)
oidc_disarms p cfg now raw new_id provider claims s s' r u law no_link found unverified h later
      fresh password =
    let adopted =
      login_with_oidc-adopts p cfg now raw new_id provider claims s s' r u no_link found unverified
        h in
    let (v, found', empty) = disarmed-found p claims.email s s' u found adopted in
    login-no_password p cfg later fresh claims.email password s' v law found' empty
