-- ===== src/Platform/Production.antt =====
-- What Load of config.go demands of a process in production.
use llm_dating_app.Prelude.{
  ◌≡◌, Bool, true, false, not, ◌&&◌, Option, none, some, List, [], ◌∷◌, map, arith, leb, ◌==◌, ok,
  All, Text, text_eq,
}
use llm_dating_app.Platform.{Config, System, Url, RsaKey, is_production, UserInfo}
use llm_dating_app.Platform.Checks
use llm_dating_app.Platform.Loading
use llm_dating_app.Platform.Checks.{password_of, star, https, s3, rediss, verify_full, is_superuser}
use llm_dating_app.Application.Auth.{byte_length}

module _ (sys : System) where
  abbrev pub is_strong_password : Text → Bool
  is_strong_password p = leb 16 (byte_length p)

  abbrev pub is_account : Option UserInfo → Bool
  is_account none = false
  is_account (some u) = not (is_superuser (map sys.to_lower u.username))

  abbrev pub are_safe_stores : Option Url → Option Url → Bool
  are_safe_stores none r = false
  are_safe_stores (some d) none = false
  are_safe_stores (some d) (some r) =
      is_account d.user
      && is_strong_password (password_of d.user)
      && is_strong_password (password_of r.user)
      && text_eq d.sslmode verify_full
      && text_eq r.scheme rediss

  -- PostgreSQL and Redis over TLS, with passwords of sixteen bytes at least and no superuser.
  abbrev pub has_safe_stores : Config → Bool
  has_safe_stores c = are_safe_stores (sys.parse_url c.database_url) (sys.parse_url c.redis_url)

  abbrev pub is_https : Option Url → Bool
  is_https none = false
  is_https (some u) = text_eq u.scheme https

  abbrev pub is_safe_origin : Text → Bool
  is_safe_origin o = not (text_eq o star) && is_https (sys.parse_url o)

  abbrev pub has_origins : List Text → Bool
  has_origins [] = false
  has_origins (o ∷ os) = true

  abbrev pub key_of : (Text → Option RsaKey) → Option Text → Option RsaKey
  key_of parse none = none
  key_of parse (some content) = parse content

  abbrev pub are_strong_keys : Option RsaKey → Option RsaKey → Bool
  are_strong_keys none b = false
  are_strong_keys (some a) none = false
  are_strong_keys (some a) (some b) =
      leb 3072 a.bits && a.modulus == b.modulus && a.exponent == b.exponent

  -- One RSA key of 3072 bits at least, in both files.
  abbrev pub has_strong_keys : Config → Bool
  has_strong_keys c =
      are_strong_keys (key_of sys.parse_private_key (sys.read_file c.jwt_private_key))
        (key_of sys.parse_public_key (sys.read_file c.jwt_public_key))

  abbrev pub IsHardened : Config → Type 0
  IsHardened c =
      (has_safe_stores c ≡ true)
      × (has_origins c.allowed_origins ≡ true)
      × All (λ o. is_safe_origin o ≡ true) c.allowed_origins
      × (has_strong_keys c ≡ true)
      × (text_eq c.photo_storage_driver s3 ≡ true)

  validate_urls-has_safe_stores :
      (c : Config)
      → (Checks.validate_urls {W = Unit {0}} sys c tt).0 ≡ ok tt
      → is_production c ≡ true
      → has_safe_stores c ≡ true
  unfolding Checks.validate_urls Checks.validate_production_urls
  validate_urls-has_safe_stores c e p = ground arith

  validate_each-is_safe_origin :
      (origins : List Text)
      → (Checks.validate_each {W = Unit {0}} sys true origins tt).0 ≡ ok tt
      → All (λ o. is_safe_origin o ≡ true) origins
  unfolding Checks.validate_each
  validate_each-is_safe_origin [] e = tt
  validate_each-is_safe_origin (o ∷ os) e =
      (ground arith, validate_each-is_safe_origin os (ground arith))

  validate_rsa_key_pair-has_strong_keys :
      (c : Config)
      → (Checks.validate_rsa_key_pair {W = Unit {0}} sys c.jwt_private_key c.jwt_public_key true
          tt).0
        ≡ ok tt
      → has_strong_keys c ≡ true
  unfolding Checks.validate_rsa_key_pair
  validate_rsa_key_pair-has_strong_keys c e = ground arith

  validate_photo_storage-s3 :
      (c : Config)
      → (Checks.validate_photo_storage {W = Unit {0}} sys c tt).0 ≡ ok tt
      → is_production c ≡ true
      → text_eq c.photo_storage_driver s3 ≡ true
  unfolding Checks.validate_photo_storage
  validate_photo_storage-s3 c e p = ground arith

  -- A configuration that is loaded has passed every check.
  load-checked :
      (c : Config)
      → (Loading.load sys tt).0 ≡ ok c
      → ((Checks.validate_urls {W = Unit {0}} sys c tt).0 ≡ ok tt)
        × ((Checks.validate_origins {W = Unit {0}} sys c tt).0 ≡ ok tt)
        × ((Checks.validate_rsa_key_pair {W = Unit {0}} sys c.jwt_private_key c.jwt_public_key
              (is_production c)
              tt).0
            ≡ ok tt)
        × ((Checks.validate_photo_storage {W = Unit {0}} sys c tt).0 ≡ ok tt)
  unfolding Loading.load
  load-checked c e = ground arith

  validate_origins-has_origins :
      (c : Config)
      → (Checks.validate_origins {W = Unit {0}} sys c tt).0 ≡ ok tt
      → (has_origins c.allowed_origins ≡ true)
        × ((Checks.validate_each {W = Unit {0}} sys (is_production c) c.allowed_origins tt).0
            ≡ ok tt)
  unfolding Checks.validate_origins
  validate_origins-has_origins c e = ground arith

  -- A process that starts in production talks to PostgreSQL and Redis over TLS, with passwords of sixteen
  -- bytes at least and not as a superuser, has origins, all of them with https and none a wildcard, signs
  -- with one RSA key of 3072 bits at least whose two halves belong together, and keeps photos in S3.
  pub load-IsHardened :
      (c : Config) → (Loading.load sys tt).0 ≡ ok c → is_production c ≡ true → IsHardened c
  load-IsHardened c e p =
      let (urls, origins, keys, photos) = load-checked c e in
      let (some', each) = validate_origins-has_origins c origins in
      (
        validate_urls-has_safe_stores c urls p,
        some',
        validate_each-is_safe_origin c.allowed_origins (rw (← p) each),
        validate_rsa_key_pair-has_strong_keys c (rw (← p) keys),
        validate_photo_storage-s3 c photos p,
      )
