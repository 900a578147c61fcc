-- ===== src/Application/Auth/Enumeration.antt =====
-- Login of application/auth/service.go: what its refusals tell.
use llm_dating_app.Prelude.{
  ℕ, ◌≡◌, refl, ◌⊎◌, false, none, some, List, [], ◌∷◌, arith, Action, ◌>>◌, fail, try, Result, ok,
  err, Text,
}
use llm_dating_app.Domain.User
use llm_dating_app.Domain.User.{User, is_active}
use llm_dating_app.Application.Auth.{
  Error, Tokens, PasswordHasher, verdict, UserRepository, SessionRepository, Denylist, RateLimiter,
  Texts, LoginInput, RateScope, normalize_email, AuthResult, login_ip, login_email,
  invalid_credentials,
}
use llm_dating_app.Application.Auth.Service.{
  login, after_verdict, check_rate_limit, record_failures,
}

-- What makes a login fail: no account, one that is not active, or another password.
abbrev pub IsRefused : PasswordHasher → Text → Result User.Error User → Type 0
IsRefused hasher password (err e) = Unit
IsRefused hasher password (ok u) =
    (is_active u ≡ false) ⊎ (hasher.verify password u.password_hash ≡ some false)

verdict-IsRefused :
    (hasher : PasswordHasher) (password : Text) (found : Result User.Error User)
    → IsRefused hasher password found
    → verdict hasher password found ≡ some none
unfolding verdict
verdict-IsRefused hasher password (err e) h = refl
verdict-IsRefused hasher password (ok u) h = ground arith

module _ {W : Type 0} (users : UserRepository W) (sessions : SessionRepository W)
    (hasher : PasswordHasher) (tokens : Tokens) (denylist : Denylist W) (limiter : RateLimiter W)
    (texts : Texts) (refresh_ttl : ℕ) where
  abbrev pub scopes_of : LoginInput → List RateScope
  scopes_of input = login_ip input.ip ∷ login_email (normalize_email texts input.email) ∷ []

  abbrev pub checked : LoginInput → Action W Error (Unit {0})
  checked input =
      check_rate_limit users sessions hasher tokens denylist limiter texts refresh_ttl
        (scopes_of input)

  abbrev pub looked_up : LoginInput → Action W Error (Result User.Error User)
  looked_up input = try (users.find_by_email (normalize_email texts input.email))

  -- One refusal for all: the scopes are checked, the account is looked up, a failure is counted.
  abbrev pub refused : LoginInput → Action W Error AuthResult
  refused input = do
    checked input
    looked_up input
    record_failures users sessions hasher tokens denylist limiter texts refresh_ttl
        (scopes_of input)
    fail invalid_credentials

  -- A login whose lookup finds no account, an inactive one, or one with another password does the same
  -- in each case: the same answer and the same effect, errors of the counters included.
  pub login-refused :
      (input : LoginInput) (now family id : ℕ) (w : W)
      → let w1 = (checked input w).1 in
        IsRefused hasher input.password
          (users.find_by_email (normalize_email texts input.email) w1).0
        → login users sessions hasher tokens denylist limiter texts refresh_ttl input now family id
            w
          ≡ refused input w
  unfolding login after_verdict
  login-refused input now family id w h = ground (
    arith,
    verdict-IsRefused hasher input.password
        (users.find_by_email (normalize_email texts input.email) (checked input w).1).0 h,
  )
