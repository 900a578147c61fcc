-- ===== src/Http/Auth.antt =====
-- backend/internal/adapters/http/auth/handler.go over the service.
use llm_dating_app.Prelude.{
  ℕ, Bool, true, false, not, ◌||◌, Option, none, some, List, [], ◌∷◌, Action, ◌>>=◌, ◌>>◌, pure,
  or_else, or_fail, fail_if, any, Text, text_eq, is_empty_text, trim_space,
}
use llm_dating_app.Middleware.{Identity}
use llm_dating_app.Domain.User
use llm_dating_app.Domain.User.{User, Date}
use llm_dating_app.Application.Auth
use llm_dating_app.Application.Auth.{RegisterInput, LoginInput, RefreshInput, AuthResult}
use llm_dating_app.Http.{
  Cookie, write_error, Response, write_json, Handler, require_identity, Code, read_body,
  origin_not_allowed, write_no_content, with_retry_after, internal_error, validation_error,
  unauthorized, auth_dependency_unavailable,
}
use llm_dating_app.Http.Responses.{user_response, login_response, LoginResponse, UserResponse}

-- The operations of the service, at the clock of the call.
pub record Service (W : Type 0) : Type 0 where
  pub register : RegisterInput → Action W Auth.Error User
  pub login : LoginInput → Action W Auth.Error AuthResult
  pub refresh : RefreshInput → Action W Auth.Error AuthResult
  pub logout : Identity → Text → Action W Auth.Error (Unit {0})
  pub logout_all : ℕ → Action W Auth.Error (Unit {0})
  pub me : ℕ → Action W User.Error User

pub record RegisterRequest : Type 0 where
  pub email : Text
  pub password : Text
  pub display_name : Text
  pub birth_date : Text
  pub gender : Text

pub record LoginRequest : Type 0 where
  pub email : Text
  pub password : Text

-- The path of the cookie, whether it needs TLS, and the origins that are allowed.
pub record HandlerConfig : Type 0 where
  pub cookie_path : Text
  pub cookie_secure : Bool
  pub allowed_origins : List Text

-- What a handler reads of the headers: the peer, the agent, Origin (empty where there is none) and the
-- refresh cookie.
pub record Headers : Type 0 where
  pub client_ip : Text
  pub user_agent : Text
  pub origin : Text
  pub refresh_cookie : Option Text

unfoldable pub origin_allowed : HandlerConfig → Text → Bool
origin_allowed config origin =
    is_empty_text origin || any (λ o. text_eq o origin) config.allowed_origins

unfoldable pub set_refresh_cookie : HandlerConfig → Text → ℕ → Cookie
set_refresh_cookie config content expires_at = record {
  content = content;
  path = config.cookie_path;
  is_secure = config.cookie_secure;
  expires = some expires_at;
  is_cleared = false;
}

unfoldable pub clear_refresh_cookie : HandlerConfig → Cookie
clear_refresh_cookie config = record {
  content = [];
  path = config.cookie_path;
  is_secure = config.cookie_secure;
  expires = none;
  is_cleared = true;
}

-- The wait of a lockout is in whole seconds.
unfoldable pub handle_register_error : {B : Type 0} → Auth.Error → Response B
unfolding write_error
handle_register_error (Auth.Error.rate_limited wait) =
    with_retry_after wait (write_error 429 Code.rate_limited)
handle_register_error (Auth.Error.of_user User.Error.email_taken) = write_error 409 Code.email_taken
handle_register_error (Auth.Error.of_user User.Error.underage) = write_error 422 Code.underage
handle_register_error Auth.Error.weak_password = write_error 422 Code.weak_password
handle_register_error Auth.Error.dependency_unavailable =
    write_error 503 auth_dependency_unavailable
handle_register_error _ = write_error 500 internal_error

unfoldable pub handle_auth_error : {B : Type 0} → Auth.Error → Response B
unfolding write_error
handle_auth_error (Auth.Error.rate_limited wait) =
    with_retry_after wait (write_error 429 Code.rate_limited)
handle_auth_error Auth.Error.invalid_credentials = write_error 401 Code.invalid_credentials
handle_auth_error Auth.Error.invalid_refresh_token = write_error 401 unauthorized
handle_auth_error Auth.Error.dependency_unavailable = write_error 503 auth_dependency_unavailable
handle_auth_error _ = write_error 500 internal_error

abbrev pub me_error : {B : Type 0} → User.Error → Response B
me_error User.Error.not_found = write_error 404 Code.not_found
me_error _ = write_error 500 internal_error

abbrev pub with_cookie : {B : Type 0} → Cookie → Response B → Response B
with_cookie c r = record r { cookie = some c }

-- The value of the refresh cookie that `Refresh` accepts.
abbrev pub presented : Option Text → Option Text
presented none = none
presented (some []) = none
presented (some (c ∷ s)) = some (c ∷ s)

abbrev pub cookie_or_empty : Option Text → Text
cookie_or_empty none = []
cookie_or_empty (some s) = s

module _ {W : Type 0} (service : Service W) (config : HandlerConfig)
    (parse_date : Text → Option Date) (sanitize : Text → Text) where
  unfoldable pub register :
      Headers → Option RegisterRequest → (RegisterRequest → Bool) → Handler W UserResponse
  unfolding write_json handle_register_error user_response
  register headers decoded is_valid = do
    request ← read_body decoded is_valid
    birth_date ← or_fail (parse_date request.birth_date) (write_error 400 validation_error)
    u ← or_else handle_register_error (
        service.register (record {
          email = request.email;
          password = request.password;
          display_name = trim_space (sanitize request.display_name);
          birth_date = birth_date;
          gender = trim_space (sanitize request.gender);
          ip = headers.client_ip;
        }))
    pure (write_json 201 (user_response u))

  unfoldable pub logged_in : AuthResult → Response LoginResponse
  unfolding write_json set_refresh_cookie login_response
  logged_in result =
      with_cookie (set_refresh_cookie config result.refresh_token result.refresh_token_expires_at)
        (write_json 200 (login_response result))

  unfoldable pub login :
      Headers → Option LoginRequest → (LoginRequest → Bool) → Handler W LoginResponse
  unfolding logged_in handle_auth_error
  login headers decoded is_valid = do
    request ← read_body decoded is_valid
    result ← or_else handle_auth_error (
        service.login (record {
          email = request.email;
          password = request.password;
          ip = headers.client_ip;
          user_agent = headers.user_agent;
          device_label = [];
        }))
    pure (logged_in result)

  -- Any error of the service clears the cookie.
  unfoldable pub refresh : Headers → Handler W LoginResponse
  unfolding logged_in handle_auth_error clear_refresh_cookie origin_allowed
  refresh headers = do
    fail_if (not (origin_allowed config headers.origin)) (write_error 403 origin_not_allowed)
    token ← or_fail (presented headers.refresh_cookie) (write_error 401 unauthorized)
    result ←
        or_else (λ e. with_cookie (clear_refresh_cookie config) (handle_auth_error e))
          (service.refresh (record {
            refresh_token = token;
            ip = headers.client_ip;
            user_agent = headers.user_agent;
          }))
    pure (logged_in result)

  unfoldable pub logout : Headers → Option Identity → Handler W (Unit {0})
  unfolding require_identity write_no_content handle_auth_error clear_refresh_cookie origin_allowed
  logout headers identity = do
    fail_if (not (origin_allowed config headers.origin)) (write_error 403 origin_not_allowed)
    who ← require_identity identity
    or_else handle_auth_error (service.logout who (cookie_or_empty headers.refresh_cookie))
    pure (with_cookie (clear_refresh_cookie config) write_no_content)

  unfoldable pub logout_all : Headers → Option Identity → Handler W (Unit {0})
  unfolding require_identity write_no_content handle_auth_error clear_refresh_cookie origin_allowed
  logout_all headers identity = do
    fail_if (not (origin_allowed config headers.origin)) (write_error 403 origin_not_allowed)
    who ← require_identity identity
    or_else handle_auth_error (service.logout_all who.user_id)
    pure (with_cookie (clear_refresh_cookie config) write_no_content)

  unfoldable pub me : Option Identity → Handler W UserResponse
  unfolding require_identity write_json user_response
  me identity = do
    who ← require_identity identity
    u ← or_else me_error (service.me who.user_id)
    pure (write_json 200 (user_response u))
