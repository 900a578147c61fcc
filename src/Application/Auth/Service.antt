-- ===== src/Application/Auth/Service.antt =====
-- The operations of backend/internal/application/auth/service.go.
use llm_dating_app.Prelude.{
  ℕ, ◌+◌, Bool, true, false, not, Option, none, some, List, [], ◌∷◌, ◌==◌, if◌then◌else◌, Action,
  ◌>>=◌, ◌>>◌, pure, fail, try, ignore, or_else, or_fail, fail_if, Result, ok, err, Text,
  is_empty_text, is_below,
}
use llm_dating_app.Domain.User
use llm_dating_app.Domain.User.{User, Status, age, underage, email_taken, is_active}
use llm_dating_app.Domain.Session
use llm_dating_app.Domain.Session.{RefreshToken, is_expired, reused, RevokeReason}
use llm_dating_app.Application.Auth.{
  Error, infra, Tokens, invalid_refresh_token, UserRepository, SessionRepository, PasswordHasher,
  Denylist, RateLimiter, Texts, RateScope, RegisterInput, IssuedToken, optional_text, AuthResult,
  LoginInput, RefreshInput, dependency_unavailable, rate_limited, of_user, Moment,
  invalid_credentials, normalize_email, register_ip, login_ip, is_valid_password, login_email,
  weak_password, rehash, verdict, minimum_age,
}

abbrev pub invalid_unless_infra : Session.Error → Error
invalid_unless_infra Session.Error.not_found = invalid_refresh_token
invalid_unless_infra _ = infra

abbrev pub invalid_if_unknown : User.Error → Error
invalid_if_unknown User.Error.not_found = invalid_refresh_token
invalid_if_unknown _ = infra

module _ {W : Type 0} (users : UserRepository W) (sessions : SessionRepository W)
    (hasher : PasswordHasher) (tokens : Tokens) (denylist : Denylist W) (limiter : RateLimiter W)
    (texts : Texts) (refresh_ttl : ℕ) where
  unfoldable pub check_rate_limit : List RateScope → Action W Error (Unit {0})
  check_rate_limit [] = pure tt
  check_rate_limit (scope ∷ scopes) = do
    (allowed, retry_after) ← or_else (λ _. dependency_unavailable) (limiter.allowed scope)
    fail_if (not allowed) (rate_limited retry_after)
    check_rate_limit scopes

  unfoldable pub record_failures : List RateScope → Action W Error (Unit {0})
  record_failures [] = pure tt
  record_failures (scope ∷ scopes) = do
    or_else (λ _. dependency_unavailable) (limiter.record_failure scope)
    record_failures scopes

  -- A refusal counts as a failure first.
  unfoldable pub refuse_if : Bool → List RateScope → Error → Action W Error (Unit {0})
  refuse_if false scopes e = pure tt
  refuse_if true scopes e = do record_failures scopes; fail e

  unfoldable pub after_create : RateScope → Result User.Error User → Action W Error User
  after_create scope (ok u) = do or_else (λ _. dependency_unavailable) (limiter.reset scope); pure u
  after_create scope (err email_taken) = do record_failures (scope ∷ []); fail (of_user email_taken)
  after_create scope (err e) = fail (of_user e)

  abbrev pub new_user : RegisterInput → Text → Moment → ℕ → User
  new_user input password_hash now id = record {
    id = id;
    email = normalize_email texts input.email;
    password_hash = password_hash;
    display_name = input.display_name;
    birth_date = input.birth_date;
    gender = input.gender;
    status = Status.active;
    email_verified_at = none;
    password_changed_at = now.time;
    created_at = 0;
    updated_at = 0;
  }

  unfoldable pub register : RegisterInput → Moment → ℕ → Action W Error User
  register input now id = do
    let scope = register_ip input.ip
    check_rate_limit (scope ∷ [])
    refuse_if (not (is_valid_password texts input.password (normalize_email texts input.email)))
        (scope ∷ []) weak_password
    refuse_if (is_below minimum_age (age (new_user input [] now id) now.day)) (scope ∷ [])
        (of_user underage)
    password_hash ← or_fail (hasher.hash input.password) infra
    created ← try (users.create (new_user input password_hash now id))
    after_create scope created

  abbrev pub result_of : User → IssuedToken → Text → ℕ → AuthResult
  result_of u access refresh_token expires_at = record {
    user = u;
    access_token = access.signed;
    access_token_expires_at = access.expires_at;
    refresh_token = refresh_token;
    refresh_token_expires_at = expires_at;
  }

  -- The fields that the repository does not store are left empty.
  abbrev pub new_refresh_token : ℕ → ℕ → ℕ → ℕ → Option Text → Text → Text → ℕ → RefreshToken
  new_refresh_token id user family token_hash device_label user_agent ip now = record {
    id = id;
    user_id = user;
    family_id = family;
    token_hash = token_hash;
    replaced_by = none;
    device_label = device_label;
    user_agent = optional_text user_agent;
    ip = texts.parse_addr ip;
    expires_at = now + refresh_ttl;
    last_used_at = none;
    revoked_at = none;
    revoke_reason = none;
    created_at = 0;
  }

  unfoldable pub issue_session : User → ℕ → Text → Text → Text → ℕ → ℕ → Action W Error AuthResult
  issue_session u family ip user_agent device_label now id = do
    access ← or_fail (tokens.issue u.id) infra
    or_else (λ _. dependency_unavailable)
        (denylist.register_active u.id access.jti access.expires_at)
    (token, token_hash) ← or_fail tokens.fresh infra
    or_else (λ _. infra)
        (sessions.create (
          new_refresh_token id u.id family token_hash (optional_text device_label) user_agent ip
            now))
    pure (result_of u access token (now + refresh_ttl))

  -- The stored hash is replaced where it is out of date; an error of that is dropped.
  unfoldable pub store_rehash : User → Option Text → ℕ → Action W Error (Unit {0})
  store_rehash u none now = pure tt
  store_rehash u (some password_hash) now =
      ignore (users.update_password_hash u.id password_hash now)

  unfoldable pub after_verdict :
      LoginInput → List RateScope → Option User → ℕ → ℕ → ℕ → Action W Error AuthResult
  after_verdict input scopes none now family id = do
    record_failures scopes
    fail invalid_credentials
  after_verdict input scopes (some u) now family id = do
    or_else (λ _. dependency_unavailable) (limiter.reset (login_ip input.ip))
    or_else (λ _. dependency_unavailable)
        (limiter.reset (login_email (normalize_email texts input.email)))
    store_rehash u (rehash hasher input.password u.password_hash) now
    issue_session u family input.ip input.user_agent input.device_label now id

  unfoldable pub login : LoginInput → ℕ → ℕ → ℕ → Action W Error AuthResult
  login input now family id = do
    let email = normalize_email texts input.email
    let scopes = login_ip input.ip ∷ login_email email ∷ []
    check_rate_limit scopes
    found ← try (users.find_by_email email)
    valid ← or_fail (verdict hasher input.password found) infra
    after_verdict input scopes valid now family id

  -- The end of a refresh, by what the rotation answered.
  unfoldable pub after_rotate :
      User → ℕ → Text → ℕ → Result Session.Error (Unit {0}) → Action W Error AuthResult
  after_rotate u owner token expires_at (err reused) = do
    or_else (λ _. dependency_unavailable) (denylist.denylist_all_active owner)
    fail invalid_refresh_token
  after_rotate u owner token expires_at (err e) = fail (invalid_unless_infra e)
  after_rotate u owner token expires_at (ok _) = do
    access ← or_fail (tokens.issue u.id) infra
    or_else (λ _. dependency_unavailable)
        (denylist.register_active u.id access.jti access.expires_at)
    pure (result_of u access token expires_at)

  unfoldable pub refresh_current : RefreshInput → RefreshToken → ℕ → ℕ → Action W Error AuthResult
  refresh_current input current now id = do
    fail_if (is_expired current now) invalid_refresh_token
    u ← or_else invalid_if_unknown (users.find_by_id current.user_id)
    fail_if (not (is_active u)) invalid_refresh_token
    (token, token_hash) ← or_fail tokens.fresh infra
    let next =
        new_refresh_token id current.user_id current.family_id token_hash current.device_label
          input.user_agent input.ip now
    rotated ← try (sessions.rotate current.id next)
    after_rotate u current.user_id token next.expires_at rotated

  unfoldable pub refresh : RefreshInput → ℕ → ℕ → Action W Error AuthResult
  refresh input now id = do
    token_hash ← or_fail (tokens.hash input.refresh_token) invalid_refresh_token
    current ← or_else invalid_unless_infra (sessions.find_by_hash token_hash)
    refresh_current input current now id

  unfoldable pub revoke_presented :
      ℕ → ℕ → Result Session.Error RefreshToken → Action W Error (Unit {0})
  revoke_presented user now (err e) = pure tt
  revoke_presented user now (ok current) =
      if current.user_id == user
      then or_else (λ _. infra) (sessions.revoke_family current.family_id RevokeReason.logout now)
      else pure tt

  -- The family of a presented token of the user is revoked; any other token does not block a logout.
  unfoldable pub logout_presented : ℕ → Option ℕ → ℕ → Action W Error (Unit {0})
  logout_presented user none now = pure tt
  logout_presented user (some token_hash) now = do
    found ← try (sessions.find_by_hash token_hash)
    revoke_presented user now found

  unfoldable pub logout : ℕ → ℕ → ℕ → Text → ℕ → Action W Error (Unit {0})
  logout user jti expires_at refresh_token now = do
    or_else (λ _. dependency_unavailable) (denylist.denylist jti expires_at)
    if is_empty_text refresh_token
        then pure tt
        else logout_presented user (tokens.hash refresh_token) now

  unfoldable pub logout_all : ℕ → ℕ → Action W Error (Unit {0})
  logout_all user now = do
    or_else (λ _. dependency_unavailable) (denylist.denylist_all_active user)
    or_else (λ _. infra) (sessions.revoke_all_for_user user RevokeReason.logout_all now)

  unfoldable pub me : ℕ → Action W User.Error User
  me user = users.find_by_id user
