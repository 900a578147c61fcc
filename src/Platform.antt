-- ===== src/Platform.antt =====
-- backend/internal/platform/config/config.go: the environment of the process. Duration, number, URL and
-- key parsers, the validator package and the files are parameters.
pub mod Checks
pub mod Loading
pub mod Production
use llm_dating_app.Prelude.{
  ℕ, ◌+◌, Bool, true, false, not, Option, List, [], ◌∷◌, Text, text_eq, sub_ℕ, is_le, ℤ, pos,
  negsuc,
}

-- The variables, by name.
pub data Variable : Type 0 where
  app_env http_addr log_level database_url redis_url jwt_private_key_file : Variable
  jwt_public_key_file cors_allowed_origins db_min_conns db_max_conns readiness_timeout : Variable
  shutdown_timeout access_token_ttl refresh_token_ttl auth_check_timeout : Variable
  photo_storage_s3_path_style photo_storage_driver photo_storage_local_dir : Variable
  photo_storage_s3_bucket photo_storage_s3_region photo_storage_s3_endpoint : Variable
  jwt_issuer jwt_audience matching_daily_swipe_limit matching_weight_interests : Variable
  matching_weight_questionnaire matching_weight_distance matching_weight_activity : Variable
  messaging_ticket_ttl messaging_rate_window messaging_rate_limit : Variable
  messaging_socket_queue_size messaging_socket_read_limit_bytes : Variable
  messaging_socket_write_timeout messaging_socket_ping_interval : Variable
  messaging_socket_read_timeout messaging_client_events_per_minute : Variable

-- A `float64`: not a number, an infinity, or a whole number of some small fraction, of which 1 has
-- `unit`.
pub data Float : Type 0 where
  nan neg_infinity pos_infinity : Float
  finite : ℤ → Float

abbrev pub unit : ℕ
unit = 1_000_000

-- `<`, which is false with NaN.
abbrev pub is_less : Float → Float → Bool
is_less nan b = false
is_less neg_infinity nan = false
is_less neg_infinity neg_infinity = false
is_less neg_infinity _ = true
is_less pos_infinity b = false
is_less (finite a) nan = false
is_less (finite a) neg_infinity = false
is_less (finite a) pos_infinity = true
is_less (finite a) (finite b) = not (is_le b a)

abbrev pub add_int : ℤ → ℤ → ℤ
add_int (pos a) (pos b) = pos (a + b)
add_int (pos a) (negsuc b) = sub_ℕ a (b + 1)
add_int (negsuc a) (pos b) = sub_ℕ b (a + 1)
add_int (negsuc a) (negsuc b) = negsuc (a + b + 1)

abbrev pub add_float : Float → Float → Float
add_float nan b = nan
add_float neg_infinity nan = nan
add_float neg_infinity pos_infinity = nan
add_float neg_infinity _ = neg_infinity
add_float pos_infinity nan = nan
add_float pos_infinity neg_infinity = nan
add_float pos_infinity _ = pos_infinity
add_float (finite a) nan = nan
add_float (finite a) neg_infinity = neg_infinity
add_float (finite a) pos_infinity = pos_infinity
add_float (finite a) (finite b) = finite (add_int a b)

-- `<= 0`
abbrev pub is_at_most_zero : Float → Bool
is_at_most_zero nan = false
is_at_most_zero neg_infinity = true
is_at_most_zero pos_infinity = false
is_at_most_zero (finite a) = is_le a (pos 0)

pub record UserInfo : Type 0 where
  pub username : Text
  pub password : Option Text

-- What is read of a `url.URL`.
pub record Url : Type 0 where
  pub scheme : Text
  pub user : Option UserInfo
  pub host : Text
  pub sslmode : Text

-- What is read of an RSA key.
pub record RsaKey : Type 0 where
  pub bits : ℕ
  pub modulus : ℕ
  pub exponent : ℕ

pub record RawConfig : Type 0 where
  pub environment : Text
  pub http_address : Text
  pub log_level : Text
  pub database_url : Text
  pub redis_url : Text
  pub jwt_private_key : Text
  pub jwt_public_key : Text
  pub allowed_origins : Text

-- The packages that the source calls, and the files. Durations are nanoseconds.
pub record System : Type 0 where
  pub getenv : Variable → Text
  pub is_valid_raw : RawConfig → Bool
  pub parse_duration : Text → Option ℤ
  pub parse_bool : Text → Option Bool
  pub parse_int : Text → Option ℤ
  pub parse_float : Text → Option Float
  pub parse_url : Text → Option Url
  pub to_lower : ℕ → ℕ
  pub read_file : Text → Option Text
  pub parse_private_key : Text → Option RsaKey
  pub parse_public_key : Text → Option RsaKey

pub data Error : Type 0 where
  missing : List Variable → Error
  invalid_environment min_exceeds_max no_weight ping_not_shorter : Error
  invalid_value : Variable → Error
  invalid_database_url no_user superuser invalid_redis_url no_password weak_password no_tls : Error
  invalid_origin invalid_key key_too_short key_mismatch invalid_storage : Error

pub record Config : Type 0 where
  pub environment : Text
  pub http_address : Text
  pub log_level : Text
  pub database_url : Text
  pub database_min_conns : ℤ
  pub database_max_conns : ℤ
  pub redis_url : Text
  pub jwt_private_key : Text
  pub jwt_public_key : Text
  pub jwt_issuer : Text
  pub jwt_audience : Text
  pub access_token_ttl : ℤ
  pub refresh_token_ttl : ℤ
  pub auth_check_timeout : ℤ
  pub allowed_origins : List Text
  pub readiness_timeout : ℤ
  pub shutdown_timeout : ℤ
  pub photo_storage_driver : Text
  pub photo_storage_local_dir : Text
  pub photo_storage_s3_bucket : Text
  pub photo_storage_s3_region : Text
  pub photo_storage_s3_endpoint : Text
  pub photo_storage_s3_path_style : Bool
  pub matching_daily_swipe_limit : ℤ
  pub matching_weight_interests : Float
  pub matching_weight_questionnaire : Float
  pub matching_weight_distance : Float
  pub matching_weight_activity : Float
  pub messaging_ticket_ttl : ℤ
  pub messaging_rate_window : ℤ
  pub messaging_rate_limit : ℤ
  pub messaging_socket_queue_size : ℤ
  pub messaging_socket_read_limit_bytes : ℤ
  pub messaging_socket_write_timeout : ℤ
  pub messaging_socket_ping_interval : ℤ
  pub messaging_socket_read_timeout : ℤ
  pub messaging_client_events_per_minute : ℤ

abbrev pub production : Text
production = b'p' ∷ b'r' ∷ b'o' ∷ b'd' ∷ b'u' ∷ b'c' ∷ b't' ∷ b'i' ∷ b'o' ∷ b'n' ∷ []

abbrev pub is_production : Config → Bool
is_production c = text_eq c.environment production
