-- ===== src/Http.antt =====
-- backend/internal/adapters/http: the handlers. A response has its status, the headers that a client
-- acts on, and a body: an error's code, or the value that the fields of the JSON body are written from.
-- The reading of JSON bodies, the checks of `validate` tags and the readers of UUIDs and numbers are
-- parameters; the messages of errors are left out.
pub mod Responses
pub mod Matching
pub mod Messaging
pub mod Auth
pub mod Health
pub mod Sanitizing
pub mod Profile
pub mod Account
pub mod Errors
pub mod Cookies
pub mod Requests
pub mod Swiping
use llm_dating_app.Prelude.{
  ℕ, ◌+◌, ◌/◌, max, Bool, not, Option, none, some, Action, ◌>>=◌, ◌>>◌, pure, or_fail, fail_if,
  Result, ok, err, Text,
}
use llm_dating_app.Middleware.{Identity}

pub data Code : Type 0 where
  unauthorized invalid_body validation_error not_found internal_error : Code
  daily_swipe_limit discovery_not_ready dependency_unavailable : Code
  rate_limited messaging_dependency_unavailable match_not_found invalid_cursor : Code
  invalid_page_size content_too_long empty_content : Code
  origin_not_allowed email_taken underage weak_password auth_dependency_unavailable : Code
  invalid_credentials : Code
  profile_not_found onboarding_incomplete incomplete_coordinates conflicting_location : Code
  preferences_not_found consent_required photo_too_large unsupported_mime_type : Code
  photo_limit_reached invalid_photo_order : Code
  unsupported_consent_purpose consent_already_active consent_not_found : Code

pub data Body (B : Type 0) : Type 0 where
  no_content : Body B
  problem : Code → Body B
  value : B → Body B

-- The refresh cookie that a response sets: always with HttpOnly and SameSite=Strict. `expires` is none
-- and `max_age` is -1 in one that is cleared.
pub record Cookie : Type 0 where
  pub content : Text
  pub path : Text
  pub is_secure : Bool
  pub expires : Option ℕ
  pub is_cleared : Bool

pub record Response (B : Type 0) : Type 0 where
  pub status : ℕ
  pub retry_after : Option ℕ
  pub cookie : Option Cookie
  pub body : Body B

-- A handler that may return early: the response comes back either way.
abbrev pub Handler : Type 0 → Type 0 → Type 0
Handler W B = Action W (Response B) (Response B)

abbrev pub response_of : {B : Type 0} → Result (Response B) (Response B) → Response B
response_of (ok r) = r
response_of (err r) = r

-- What the client gets, and the state.
abbrev pub respond : {W B : Type 0} → Handler W B → W → Response B × W
respond h w = let (r, w') = h w in (response_of r, w')

-- `writeJSON`, `WriteHeader(http.StatusNoContent)` and `writeError`
unfoldable pub write_json : {B : Type 0} → ℕ → B → Response B
write_json status b = record { status = status; retry_after = none; cookie = none; body = value b }

unfoldable pub write_no_content : {B : Type 0} → Response B
write_no_content = record { status = 204; retry_after = none; cookie = none; body = no_content }

unfoldable pub write_error : {B : Type 0} → ℕ → Code → Response B
write_error status code = record {
  status = status;
  retry_after = none;
  cookie = none;
  body = problem code;
}

abbrev pub with_retry_after : {B : Type 0} → ℕ → Response B → Response B
with_retry_after seconds r = record r { retry_after = some seconds }

-- `max(1, int(math.Ceil(wait.Seconds())))`, of a wait in milliseconds.
unfoldable pub retry_seconds : ℕ → ℕ
retry_seconds wait = max 1 ((wait + 999) / 1000)

-- `requireIdentity`
unfoldable pub require_identity : {W B : Type 0} → Option Identity → Action W (Response B) Identity
unfolding write_error
require_identity identity = or_fail identity (write_error 401 unauthorized)

-- The body that `decodeJSON` reads and the validator accepts.
abbrev pub read_body : {W B Q : Type 0} → Option Q → (Q → Bool) → Action W (Response B) Q
read_body decoded is_valid = do
  request ← or_fail decoded (write_error 400 invalid_body)
  fail_if (not (is_valid request)) (write_error 400 validation_error)
  pure request

-- `uuid.Parse` of a field or of a part of the path.
abbrev pub read_id : {W B : Type 0} → Option ℕ → Action W (Response B) ℕ
read_id parsed = or_fail parsed (write_error 400 validation_error)
