-- ===== src/Platform/Checks.antt =====
-- The checks of a configuration: validateURLs, validateOrigins, validatePhotoStorage and
-- validateRSAKeyPair.
use llm_dating_app.Prelude.{
  Bool, true, false, not, ◌&&◌, ◌||◌, Option, none, some, List, [], ◌∷◌, map, ltb, ◌==◌,
  if◌then◌else◌, is_some, Action, ◌>>=◌, ◌>>◌, pure, fail, or_fail, fail_if, Text, text_eq,
  is_empty_text, cut_prefix,
}
use llm_dating_app.Platform.{
  Config, Error, System, Url, UserInfo, is_production, weak_password, invalid_database_url,
  invalid_origin, invalid_storage, invalid_key, no_tls, no_password, key_too_short, superuser,
  key_mismatch, invalid_redis_url, no_user,
}
use llm_dating_app.Application.Auth.{byte_length, weak_password}

abbrev pub postgres : Text
postgres = b'p' ∷ b'o' ∷ b's' ∷ b't' ∷ b'g' ∷ b'r' ∷ b'e' ∷ b's' ∷ []

abbrev pub postgresql : Text
postgresql = b'p' ∷ b'o' ∷ b's' ∷ b't' ∷ b'g' ∷ b'r' ∷ b'e' ∷ b's' ∷ b'q' ∷ b'l' ∷ []

abbrev pub admin : Text
admin = b'a' ∷ b'd' ∷ b'm' ∷ b'i' ∷ b'n' ∷ []

abbrev pub migrator : Text
migrator = b'm' ∷ b'i' ∷ b'g' ∷ b'r' ∷ b'a' ∷ b't' ∷ b'o' ∷ b'r' ∷ []

abbrev pub redis : Text
redis = b'r' ∷ b'e' ∷ b'd' ∷ b'i' ∷ b's' ∷ []

abbrev pub rediss : Text
rediss = b'r' ∷ b'e' ∷ b'd' ∷ b'i' ∷ b's' ∷ b's' ∷ []

abbrev pub verify_full : Text
verify_full = b'v' ∷ b'e' ∷ b'r' ∷ b'i' ∷ b'f' ∷ b'y' ∷ b'-' ∷ b'f' ∷ b'u' ∷ b'l' ∷ b'l' ∷ []

abbrev pub star : Text
star = b'*' ∷ []

abbrev pub http : Text
http = b'h' ∷ b't' ∷ b't' ∷ b'p' ∷ []

abbrev pub https : Text
https = b'h' ∷ b't' ∷ b't' ∷ b'p' ∷ b's' ∷ []

abbrev pub local : Text
local = b'l' ∷ b'o' ∷ b'c' ∷ b'a' ∷ b'l' ∷ []

abbrev pub s3 : Text
s3 = b's' ∷ b'3' ∷ []

abbrev pub is_empty : List Text → Bool
is_empty [] = true
is_empty (x ∷ xs) = false

-- `strings.Contains`
unfoldable pub contains : Text → Text → Bool
contains [] part = is_some (cut_prefix part [])
contains (c ∷ s) part = is_some (cut_prefix part (c ∷ s)) || contains s part

abbrev pub is_superuser : Text → Bool
is_superuser name = text_eq name postgres || contains name admin || contains name migrator

-- The password of a URL, empty where there is none.
abbrev pub password_or_empty : Option Text → Text
password_or_empty none = []
password_or_empty (some p) = p

abbrev pub password_of : Option UserInfo → Text
password_of none = []
password_of (some u) = password_or_empty u.password

abbrev pub is_one_of : Text → Text → Text → Bool
is_one_of s a b = text_eq s a || text_eq s b

module _ {W : Type 0} (sys : System) where
  -- The part of `validateURLs` for production.
  unfoldable pub validate_production_urls : Url → Url → Action W Error (Unit {0})
  validate_production_urls database redis_url = do
    fail_if
        (ltb (byte_length (password_of database.user)) 16
          || ltb (byte_length (password_of redis_url.user)) 16)
        weak_password
    fail_if (not (text_eq database.sslmode verify_full)) no_tls
    fail_if (not (text_eq redis_url.scheme rediss)) no_tls

  unfoldable pub validate_urls : Config → Action W Error (Unit {0})
  validate_urls c = do
    database ← or_fail (sys.parse_url c.database_url) invalid_database_url
    fail_if (not (is_one_of database.scheme postgres postgresql)) invalid_database_url
    user ← or_fail database.user no_user
    fail_if (is_superuser (map sys.to_lower user.username)) superuser
    fail_if (is_empty_text (password_or_empty user.password)) no_password
    redis_url ← or_fail (sys.parse_url c.redis_url) invalid_redis_url
    fail_if (not (is_one_of redis_url.scheme redis rediss)) invalid_redis_url
    fail_if (is_empty_text (password_of redis_url.user)) no_password
    if is_production c then validate_production_urls database redis_url else pure tt

  unfoldable pub validate_each : Bool → List Text → Action W Error (Unit {0})
  validate_each strict [] = pure tt
  validate_each strict (origin ∷ origins) = do
    fail_if (text_eq origin star) invalid_origin
    parsed ← or_fail (sys.parse_url origin) invalid_origin
    fail_if (is_empty_text parsed.host || not (is_one_of parsed.scheme http https)) invalid_origin
    fail_if (strict && not (text_eq parsed.scheme https)) no_tls
    validate_each strict origins

  unfoldable pub validate_origins : Config → Action W Error (Unit {0})
  validate_origins c = do
    fail_if (is_empty c.allowed_origins) invalid_origin
    validate_each (is_production c) c.allowed_origins

  unfoldable pub validate_photo_storage : Config → Action W Error (Unit {0})
  validate_photo_storage c =
      if text_eq c.photo_storage_driver local
      then fail_if (is_production c) invalid_storage
      else if text_eq c.photo_storage_driver s3
      then fail_if
          (is_empty_text c.photo_storage_s3_bucket || is_empty_text c.photo_storage_s3_region)
          invalid_storage
      else fail invalid_storage

  unfoldable pub validate_rsa_key_pair : Text → Text → Bool → Action W Error (Unit {0})
  validate_rsa_key_pair private_path public_path strict = do
    private_data ← or_fail (sys.read_file private_path) invalid_key
    public_data ← or_fail (sys.read_file public_path) invalid_key
    private_key ← or_fail (sys.parse_private_key private_data) invalid_key
    public_key ← or_fail (sys.parse_public_key public_data) invalid_key
    fail_if (ltb private_key.bits (if strict then 3072 else 2048)) key_too_short
    fail_if
        (not (private_key.exponent == public_key.exponent)
          || not (private_key.modulus == public_key.modulus))
        key_mismatch
