-- ===== src/Tests/Platform.antt =====
-- A production environment that sets what has no default.
use llm_dating_app.Prelude.{
  ◌≡◌, refl, true, false, Option, none, some, [], ◌∷◌, ◌==◌, if◌then◌else◌, ok, Text, text_eq,
  trim_space, cut_prefix, split_at, pos,
}
use llm_dating_app.Platform.{
  System, Variable, Config, Url, RsaKey, finite, production, app_env, database_url, redis_url,
  jwt_private_key_file, jwt_public_key_file, cors_allowed_origins, photo_storage_driver,
  photo_storage_s3_bucket, photo_storage_s3_region,
}
use llm_dating_app.Platform.Checks
use llm_dating_app.Platform.Checks.{postgres, rediss, https, s3, verify_full, contains}
use llm_dating_app.Platform.Loading
use llm_dating_app.Platform.Production.{IsHardened, load-IsHardened}
use llm_dating_app.Application.Auth.{byte_length}

abbrev long_password : Text
long_password = 1 ∷ 1 ∷ 1 ∷ 1 ∷ 1 ∷ 1 ∷ 1 ∷ 1 ∷ 1 ∷ 1 ∷ 1 ∷ 1 ∷ 1 ∷ 1 ∷ 1 ∷ 1 ∷ []

abbrev environment : Variable → Text
environment app_env = production
environment database_url = 1 ∷ []
environment redis_url = 2 ∷ []
environment jwt_private_key_file = 3 ∷ []
environment jwt_public_key_file = 4 ∷ []
environment cors_allowed_origins = 5 ∷ []
environment photo_storage_driver = s3
environment photo_storage_s3_bucket = 6 ∷ []
environment photo_storage_s3_region = 7 ∷ []
environment _ = []

abbrev url_of : Text → Text → Url
url_of scheme user = record {
  scheme = scheme;
  user = some (record { username = user; password = some long_password });
  host = 8 ∷ [];
  sslmode = verify_full;
}

abbrev url_at : Text → Option Url
url_at [] = none
url_at (c ∷ s) =
    some (url_of (if c == 1 then postgres else if c == 2 then rediss else https) (8 ∷ []))

abbrev some_key : RsaKey
some_key = record { bits = 4096; modulus = 15; exponent = 3 }

abbrev process : System
process = record {
  getenv = environment;
  is_valid_raw = λ raw. true;
  parse_duration = λ s. none;
  parse_bool = λ s. none;
  parse_int = λ s. none;
  parse_float = λ s. none;
  parse_url = url_at;
  to_lower = λ c. c;
  read_file = λ path. some path;
  parse_private_key = λ content. some some_key;
  parse_public_key = λ content. some some_key;
}

abbrev loaded : Config
loaded = record {
  environment = production;
  http_address = b':' ∷ b'8' ∷ b'0' ∷ b'8' ∷ b'0' ∷ [];
  log_level = b'i' ∷ b'n' ∷ b'f' ∷ b'o' ∷ [];
  database_url = 1 ∷ [];
  database_min_conns = pos 2;
  database_max_conns = pos 10;
  redis_url = 2 ∷ [];
  jwt_private_key = 3 ∷ [];
  jwt_public_key = 4 ∷ [];
  jwt_issuer = b'l' ∷ b'l' ∷ b'm' ∷ b'a' ∷ b't' ∷ b'c' ∷ b'h' ∷ b'-' ∷ b'v' ∷ b'2' ∷ [];
  jwt_audience =
      b'l' ∷ b'l' ∷ b'm' ∷ b'a' ∷ b't' ∷ b'c' ∷ b'h' ∷ b'-' ∷ b'v' ∷ b'2' ∷ b'-' ∷ b'c' ∷ b'l'
      ∷ b'i' ∷ b'e' ∷ b'n' ∷ b't' ∷ b's' ∷ [];
  access_token_ttl = pos 900_000_000_000;
  refresh_token_ttl = pos 2_592_000_000_000_000;
  auth_check_timeout = pos 300_000_000;
  allowed_origins = (5 ∷ []) ∷ [];
  readiness_timeout = pos 2_000_000_000;
  shutdown_timeout = pos 10_000_000_000;
  photo_storage_driver = s3;
  photo_storage_local_dir =
      b'.' ∷ b'/' ∷ b'd' ∷ b'a' ∷ b't' ∷ b'a' ∷ b'/' ∷ b'p' ∷ b'h' ∷ b'o' ∷ b't' ∷ b'o' ∷ b's' ∷ [];
  photo_storage_s3_bucket = 6 ∷ [];
  photo_storage_s3_region = 7 ∷ [];
  photo_storage_s3_endpoint = [];
  photo_storage_s3_path_style = false;
  matching_daily_swipe_limit = pos 100;
  matching_weight_interests = finite (pos 350_000);
  matching_weight_questionnaire = finite (pos 300_000);
  matching_weight_distance = finite (pos 200_000);
  matching_weight_activity = finite (pos 150_000);
  messaging_ticket_ttl = pos 30_000_000_000;
  messaging_rate_window = pos 60_000_000_000;
  messaging_rate_limit = pos 60;
  messaging_socket_queue_size = pos 64;
  messaging_socket_read_limit_bytes = pos 32_768;
  messaging_socket_write_timeout = pos 10_000_000_000;
  messaging_socket_ping_interval = pos 25_000_000_000;
  messaging_socket_read_timeout = pos 300_000_000_000;
  messaging_client_events_per_minute = pos 120;
}

loads : (Loading.load process tt).0 ≡ ok loaded
unfolding Loading.load Loading.read_config Loading.int32_env Loading.duration_env Loading.bool_env
    Loading.float64_env Loading.split_and_trim Loading.missing_required_variables
    Checks.validate_urls Checks.validate_production_urls Checks.validate_origins
    Checks.validate_each Checks.validate_rsa_key_pair Checks.validate_photo_storage contains
    byte_length text_eq trim_space cut_prefix split_at
loads = refl

load-IsHardened_example : IsHardened process loaded
unfolding text_eq
load-IsHardened_example = load-IsHardened process loaded loads refl
