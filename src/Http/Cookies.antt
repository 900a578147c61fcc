-- ===== src/Http/Cookies.antt =====
-- The refresh cookie in the responses of the auth handler.
use llm_dating_app.Prelude.{
  ◌≡◌, ◌⊎◌, inl, inr, true, false, Option, none, some, [], ◌∷◌, arith, ◌==◌, if◌then◌else◌,
  Bool-cases, Result-cases, is_ok, Result, ok, err, any, Text,
}
use llm_dating_app.Http.Auth
use llm_dating_app.Http.Auth.{
  Service, HandlerConfig, Headers, presented, set_refresh_cookie, clear_refresh_cookie,
  origin_allowed,
}
use llm_dating_app.Domain.User.{Date}
use llm_dating_app.Application.Auth.{RefreshInput, Error, AuthResult}
use llm_dating_app.Http.{respond, write_json, write_error, Cookie}

-- The cookie that the outcome of a refresh asks for, on the configured path: the new token until it
-- expires, or one that is cleared.
abbrev pub cookie_after : HandlerConfig → Result Error AuthResult → Cookie
cookie_after config (ok result) = record {
  content = result.refresh_token;
  path = config.cookie_path;
  is_secure = config.cookie_secure;
  expires = some result.refresh_token_expires_at;
  is_cleared = false;
}
cookie_after config (err e) = record {
  content = [];
  path = config.cookie_path;
  is_secure = config.cookie_secure;
  expires = none;
  is_cleared = true;
}

module _ {W : Type 0} (service : Service W) (config : HandlerConfig)
    (parse_date : Text → Option Date) (sanitize : Text → Text) where
  -- What the service is given of a refresh request.
  abbrev pub refresh_input : Headers → Text → RefreshInput
  refresh_input headers token = record {
    refresh_token = token;
    ip = headers.client_ip;
    user_agent = headers.user_agent;
  }

  -- A refresh from an allowed origin with a cookie does what the service does to the state, and the
  -- cookie that it sets is the new token with a 200 where the service gives one; where the service fails
  -- the cookie is cleared, and the status is 401, 429, 500 or 503.
  pub refresh-cookie :
      (headers : Headers) (token : Text) (w : W)
      → origin_allowed config headers.origin ≡ true
      → presented headers.refresh_cookie ≡ some token
      → let (r, w') = respond (Auth.refresh service config parse_date sanitize headers) w in
        let (x, w2) = service.refresh (refresh_input headers token) w in
        (w' ≡ w2)
        × (r.cookie ≡ some (cookie_after config x))
        × ((r.status == 200) ≡ is_ok x)
        × (any (λ n. n == r.status) (200 ∷ 401 ∷ 429 ∷ 500 ∷ 503 ∷ []) ≡ true)
  unfolding Auth.refresh Auth.logged_in Auth.handle_auth_error set_refresh_cookie
      clear_refresh_cookie write_json write_error
  refresh-cookie headers token w o h =
      elim (Result-cases (service.refresh (refresh_input headers token) w).0) [
        | inl (result, e) ↦ ground (arith, o, h, e)
        | inr (x, e) ↦ ground (arith, o, h, e)
      ]

  -- A refresh from an origin that is not allowed is a 403, and one without a cookie is a 401: neither
  -- sets a cookie nor reaches the service.
  pub refresh-refused :
      (headers : Headers) (w : W)
      → (origin_allowed config headers.origin ≡ false) ⊎ (presented headers.refresh_cookie ≡ none)
      → let (r, w') = respond (Auth.refresh service config parse_date sanitize headers) w in
        (w' ≡ w)
        × (r.cookie ≡ none)
        × (r.status ≡ (if origin_allowed config headers.origin then 401 else 403))
  unfolding Auth.refresh write_error
  refresh-refused headers w h = elim (Bool-cases (origin_allowed config headers.origin)) [
    | inl o ↦ ground (arith, o, h)
    | inr o ↦ ground (arith, o)
  ]
