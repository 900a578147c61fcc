-- ===== src/Application/Auth.antt =====
-- backend/internal/application/auth: the service over its ports (ports.go, domain/user/repository.go and
-- domain/session/repository.go). What a call draws (identifiers, readings of the clock, a new refresh
-- token, the text of a password's hash) is an argument or an answer of the port.
pub mod Service
pub mod Enumeration
pub mod Reuse
pub mod SignOut
pub mod Registration
pub mod Live
use llm_dating_app.Prelude.{
  ℕ, ◌+◌, Bool, not, ◌&&◌, Option, none, some, [], ◌∷◌, map, ltb, leb, if◌then◌else◌, Action,
  Result, ok, err, Text, text_eq, trim_space,
}
use llm_dating_app.Domain.User
use llm_dating_app.Domain.User.{User, Date, is_active}
use llm_dating_app.Domain.Session
use llm_dating_app.Domain.Session.{RefreshToken, RevokeReason}
use llm_dating_app.Redis.Keys.{Failure}

pub data Error : Type 0 where
  invalid_credentials invalid_refresh_token weak_password dependency_unavailable infra : Error
  rate_limited : ℕ → Error
  of_user : User.Error → Error

-- The scopes that the service counts failures under. Their prefixes keep them apart.
pub data RateScope : Type 0 where
  register_ip login_ip login_email : Text → RateScope

pub record RegisterInput : Type 0 where
  pub email : Text
  pub password : Text
  pub display_name : Text
  pub birth_date : Date
  pub gender : Text
  pub ip : Text

pub record LoginInput : Type 0 where
  pub email : Text
  pub password : Text
  pub ip : Text
  pub user_agent : Text
  pub device_label : Text

pub record RefreshInput : Type 0 where
  pub refresh_token : Text
  pub ip : Text
  pub user_agent : Text

pub record AuthResult : Type 0 where
  pub user : User
  pub access_token : Text
  pub access_token_expires_at : ℕ
  pub refresh_token : Text
  pub refresh_token_expires_at : ℕ

-- A reading of the clock, with its day.
pub record Moment : Type 0 where
  pub time : ℕ
  pub day : Date

pub record UserRepository (W : Type 0) : Type 0 where
  pub create : User → Action W User.Error User
  pub find_by_email : Text → Action W User.Error User
  pub find_by_id : ℕ → Action W User.Error User
  pub update_password_hash : ℕ → Text → ℕ → Action W User.Error (Unit {0})

pub record SessionRepository (W : Type 0) : Type 0 where
  pub create : RefreshToken → Action W Session.Error (Unit {0})
  pub find_by_hash : ℕ → Action W Session.Error RefreshToken
  pub rotate : ℕ → RefreshToken → Action W Session.Error (Unit {0})
  pub revoke_family : ℕ → RevokeReason → ℕ → Action W Session.Error (Unit {0})
  pub revoke_all_for_user : ℕ → RevokeReason → ℕ → Action W Session.Error (Unit {0})

-- none is an error.
pub record PasswordHasher : Type 0 where
  pub hash : Text → Option Text
  pub verify : Text → Text → Option Bool
  pub needs_rehash : Text → Option Bool

pub record IssuedToken : Type 0 where
  pub signed : Text
  pub jti : ℕ
  pub expires_at : ℕ

-- The access token that is issued for a user, a new refresh token with its hash, and the hash of a
-- token that a client presents.
pub record Tokens : Type 0 where
  pub issue : ℕ → Option IssuedToken
  pub fresh : Option (Text × ℕ)
  pub hash : Text → Option ℕ

pub record Denylist (W : Type 0) : Type 0 where
  pub register_active : ℕ → ℕ → ℕ → Action W Failure (Unit {0})
  pub denylist : ℕ → ℕ → Action W Failure (Unit {0})
  pub denylist_all_active : ℕ → Action W Failure (Unit {0})

pub record RateLimiter (W : Type 0) : Type 0 where
  pub allowed : RateScope → Action W Failure (Bool × ℕ)
  pub record_failure : RateScope → Action W Failure ℕ
  pub reset : RateScope → Action W Failure (Unit {0})

-- Go's Unicode tables, by rune: `unicode.ToLower`, and one representative for the runes that
-- `strings.EqualFold` takes for equal; and `netip.ParseAddr`.
pub record Texts : Type 0 where
  pub to_lower : ℕ → ℕ
  pub fold : ℕ → ℕ
  pub parse_addr : Text → Option ℕ

-- `len`: the bytes of a rune in UTF-8, and of a text.
abbrev pub rune_length : ℕ → ℕ
rune_length c = if ltb c 0x80 then 1 else if ltb c 0x800 then 2 else if ltb c 0x1_0000 then 3 else 4

unfoldable pub byte_length : Text → ℕ
byte_length [] = 0
byte_length (c ∷ s) = rune_length c + byte_length s

abbrev pub min_password_length : ℕ
min_password_length = 12

abbrev pub max_password_length : ℕ
max_password_length = 128

abbrev pub minimum_age : ℕ
minimum_age = 18

unfoldable pub normalize_email : Texts → Text → Text
normalize_email x email = map x.to_lower (trim_space email)

-- Whether `validatePassword` accepts.
unfoldable pub is_valid_password : Texts → Text → Text → Bool
is_valid_password x password email =
    leb min_password_length (byte_length password)
    && leb (byte_length password) max_password_length
    && not (text_eq (map x.fold password) (map x.fold email))

unfoldable pub optional_text : Text → Option Text
optional_text [] = none
optional_text (c ∷ s) = some (c ∷ s)

abbrev pub checked_user : User → Option Bool → Option (Option User)
checked_user u none = none
checked_user u (some valid) = some (if valid then some u else none)

-- Whether a login goes on, with its user; none outside is an error of the hasher.
unfoldable pub verdict : PasswordHasher → Text → Result User.Error User → Option (Option User)
verdict hasher password (err e) = some none
verdict hasher password (ok u) =
    if is_active u then checked_user u (hasher.verify password u.password_hash) else some none

-- The hash to store when a password is to be hashed anew.
unfoldable pub rehash : PasswordHasher → Text → Text → Option Text
rehash hasher password old = elim (hasher.needs_rehash old) [
  | none ↦ none
  | some needed ↦ if needed then hasher.hash password else none
]
