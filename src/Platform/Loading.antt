-- ===== src/Platform/Loading.antt =====
-- `Load` of config.go, with the readers of single variables.
use llm_dating_app.Prelude.{
  ℕ, Bool, true, false, not, ◌&&◌, Option, none, some, List, [], ◌∷◌, if◌then◌else◌, Action, ◌>>=◌,
  ◌>>◌, pure, fail, fail_if, ok, err, Text, is_empty_text, trim_space, split_at, is_below, is_le, ℤ,
  pos,
}
use llm_dating_app.Platform.{
  matching_weight_activity, Config, RawConfig, Error, System, Variable, Float, finite, unit,
  is_less, add_float, is_at_most_zero, is_production, invalid_value, app_env, missing,
  invalid_environment, http_addr, jwt_private_key_file, db_min_conns, jwt_public_key_file,
  db_max_conns, cors_allowed_origins, min_exceeds_max, readiness_timeout, shutdown_timeout,
  access_token_ttl, refresh_token_ttl, auth_check_timeout, photo_storage_s3_path_style,
  matching_daily_swipe_limit, matching_weight_interests, matching_weight_questionnaire,
  matching_weight_distance, no_weight, messaging_ticket_ttl, messaging_rate_window,
  messaging_rate_limit, messaging_socket_queue_size, messaging_socket_read_limit_bytes,
  messaging_socket_write_timeout, messaging_socket_ping_interval, messaging_socket_read_timeout,
  messaging_client_events_per_minute, ping_not_shorter,
}
use llm_dating_app.Platform.Checks.{
  validate_urls, validate_origins, validate_photo_storage, validate_rsa_key_pair,
}

abbrev default_address : Text
default_address = b':' ∷ b'8' ∷ b'0' ∷ b'8' ∷ b'0' ∷ []

abbrev default_level : Text
default_level = b'i' ∷ b'n' ∷ b'f' ∷ b'o' ∷ []

abbrev default_issuer : Text
default_issuer = b'l' ∷ b'l' ∷ b'm' ∷ b'a' ∷ b't' ∷ b'c' ∷ b'h' ∷ b'-' ∷ b'v' ∷ b'2' ∷ []

abbrev default_audience : Text
default_audience =
    b'l' ∷ b'l' ∷ b'm' ∷ b'a' ∷ b't' ∷ b'c' ∷ b'h' ∷ b'-' ∷ b'v' ∷ b'2' ∷ b'-' ∷ b'c' ∷ b'l' ∷ b'i'
    ∷ b'e' ∷ b'n' ∷ b't' ∷ b's' ∷ []

abbrev default_driver : Text
default_driver = b'l' ∷ b'o' ∷ b'c' ∷ b'a' ∷ b'l' ∷ []

abbrev default_dir : Text
default_dir =
    b'.' ∷ b'/' ∷ b'd' ∷ b'a' ∷ b't' ∷ b'a' ∷ b'/' ∷ b'p' ∷ b'h' ∷ b'o' ∷ b't' ∷ b'o' ∷ b's' ∷ []

abbrev pub or_default : Text → Text → Text
or_default [] fallback = fallback
or_default (c ∷ s) fallback = c ∷ s

unfoldable pub trimmed_parts : List Text → List Text
trimmed_parts [] = []
trimmed_parts (part ∷ parts) =
    let rest = trimmed_parts parts in
    if is_empty_text (trim_space part) then rest else trim_space part ∷ rest

unfoldable pub split_and_trim : Text → List Text
unfolding trimmed_parts
split_and_trim value = trimmed_parts (split_at b',' value)

module _ (sys : System) where
  -- `strings.TrimSpace(os.Getenv(key))`
  abbrev pub variable : Variable → Text
  variable key = trim_space (sys.getenv key)

  abbrev pub get_env : Variable → Text → Text
  get_env key fallback = or_default (variable key) fallback

  abbrev pub value_env :
      {A : Type 0} → Variable → A → (Text → Option A) → (A → Bool) → Action (Unit {0}) Error A
  value_env key fallback parse accepts w =
      if is_empty_text (variable key) then (ok fallback, w) else elim (parse (variable key)) [
        | none ↦ (err (invalid_value key), w)
        | some x ↦ if accepts x then (ok x, w) else (err (invalid_value key), w)
      ]

  unfoldable pub duration_env : Variable → ℕ → Action (Unit {0}) Error ℤ
  duration_env key fallback =
      value_env key (pos fallback) sys.parse_duration (λ d. not (is_le d (pos 0)))

  unfoldable pub bool_env : Variable → Bool → Action (Unit {0}) Error Bool
  bool_env key fallback = value_env key fallback sys.parse_bool (λ b. true)

  unfoldable pub int32_env : Variable → ℕ → ℕ → ℕ → Action (Unit {0}) Error ℤ
  int32_env key fallback low high =
      value_env key (pos fallback) sys.parse_int (λ n. not (is_below low n) && is_le n (pos high))

  -- Of the values below the minimum or above the maximum; NaN is neither.
  unfoldable pub float64_env : Variable → ℕ → ℕ → ℕ → Action (Unit {0}) Error Float
  float64_env key fallback low high =
      value_env key (finite (pos fallback)) sys.parse_float
        (λ x. not (is_less x (finite (pos low))) && not (is_less (finite (pos high)) x))

  abbrev pub add_missing : Variable → Text → List Variable → List Variable
  add_missing key value rest = if is_empty_text value then key ∷ rest else rest

  abbrev pub raw_config : RawConfig
  raw_config = record {
    environment = variable app_env;
    http_address = get_env http_addr default_address;
    log_level = get_env Variable.log_level default_level;
    database_url = variable Variable.database_url;
    redis_url = variable Variable.redis_url;
    jwt_private_key = variable jwt_private_key_file;
    jwt_public_key = variable jwt_public_key_file;
    allowed_origins = variable cors_allowed_origins;
  }

  unfoldable pub missing_required_variables : RawConfig → List Variable
  missing_required_variables raw = add_missing app_env raw.environment (
      add_missing Variable.database_url raw.database_url (
        add_missing Variable.redis_url raw.redis_url (
          add_missing jwt_private_key_file raw.jwt_private_key (
            add_missing jwt_public_key_file raw.jwt_public_key
              (add_missing cors_allowed_origins raw.allowed_origins [])))))

  abbrev pub fail_if_missing : List Variable → Action (Unit {0}) Error (Unit {0})
  fail_if_missing [] = pure tt
  fail_if_missing (key ∷ keys) = fail (missing (key ∷ keys))

  -- `Load` up to the checks.
  unfoldable pub read_config : Action (Unit {0}) Error Config
  read_config = do
    let raw = raw_config
    fail_if_missing (missing_required_variables raw)
    fail_if (not (sys.is_valid_raw raw)) invalid_environment
    min_conns ← int32_env db_min_conns 2 0 100
    max_conns ← int32_env db_max_conns 10 1 200
    fail_if (not (is_le min_conns max_conns)) min_exceeds_max
    readiness ← duration_env readiness_timeout 2_000_000_000
    shutdown ← duration_env shutdown_timeout 10_000_000_000
    access ← duration_env access_token_ttl 900_000_000_000
    refresh ← duration_env refresh_token_ttl 2_592_000_000_000_000
    check_timeout ← duration_env auth_check_timeout 300_000_000
    path_style ← bool_env photo_storage_s3_path_style false
    daily ← int32_env matching_daily_swipe_limit 100 1 10_000
    interests ← float64_env matching_weight_interests 350_000 0 unit
    questionnaire ← float64_env matching_weight_questionnaire 300_000 0 unit
    distance ← float64_env matching_weight_distance 200_000 0 unit
    activity ← float64_env matching_weight_activity 150_000 0 unit
    fail_if
        (is_at_most_zero
          (add_float (add_float (add_float interests questionnaire) distance) activity))
        no_weight
    ticket ← duration_env messaging_ticket_ttl 30_000_000_000
    rate_window ← duration_env messaging_rate_window 60_000_000_000
    rate_limit ← int32_env messaging_rate_limit 60 1 10_000
    queue_size ← int32_env messaging_socket_queue_size 64 1 10_000
    read_limit ← int32_env messaging_socket_read_limit_bytes 32_768 1024 1_048_576
    write_timeout ← duration_env messaging_socket_write_timeout 10_000_000_000
    ping ← duration_env messaging_socket_ping_interval 25_000_000_000
    read_timeout ← duration_env messaging_socket_read_timeout 300_000_000_000
    client_events ← int32_env messaging_client_events_per_minute 120 1 10_000
    fail_if (is_le read_timeout ping) ping_not_shorter
    pure (record {
      environment = raw.environment;
      http_address = raw.http_address;
      log_level = raw.log_level;
      database_url = raw.database_url;
      database_min_conns = min_conns;
      database_max_conns = max_conns;
      redis_url = raw.redis_url;
      jwt_private_key = raw.jwt_private_key;
      jwt_public_key = raw.jwt_public_key;
      jwt_issuer = get_env Variable.jwt_issuer default_issuer;
      jwt_audience = get_env Variable.jwt_audience default_audience;
      access_token_ttl = access;
      refresh_token_ttl = refresh;
      auth_check_timeout = check_timeout;
      allowed_origins = split_and_trim raw.allowed_origins;
      readiness_timeout = readiness;
      shutdown_timeout = shutdown;
      photo_storage_driver = get_env Variable.photo_storage_driver default_driver;
      photo_storage_local_dir = get_env Variable.photo_storage_local_dir default_dir;
      photo_storage_s3_bucket = variable Variable.photo_storage_s3_bucket;
      photo_storage_s3_region = variable Variable.photo_storage_s3_region;
      photo_storage_s3_endpoint = variable Variable.photo_storage_s3_endpoint;
      photo_storage_s3_path_style = path_style;
      matching_daily_swipe_limit = daily;
      matching_weight_interests = interests;
      matching_weight_questionnaire = questionnaire;
      matching_weight_distance = distance;
      matching_weight_activity = activity;
      messaging_ticket_ttl = ticket;
      messaging_rate_window = rate_window;
      messaging_rate_limit = rate_limit;
      messaging_socket_queue_size = queue_size;
      messaging_socket_read_limit_bytes = read_limit;
      messaging_socket_write_timeout = write_timeout;
      messaging_socket_ping_interval = ping;
      messaging_socket_read_timeout = read_timeout;
      messaging_client_events_per_minute = client_events;
    })

  unfoldable pub load : Action (Unit {0}) Error Config
  load = do
    c ← read_config
    validate_urls sys c
    validate_origins sys c
    validate_rsa_key_pair sys c.jwt_private_key c.jwt_public_key (is_production c)
    validate_photo_storage sys c
    pure c
