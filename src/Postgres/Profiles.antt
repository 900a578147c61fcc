-- ===== src/Postgres/Profiles.antt =====
-- backend/internal/adapters/postgres/repositories/{profile,consent}_repository.go, over the tables of
-- migrations/000003_profiles.up.sql and the statements of sqlc/{profiles,privacy}.sql.go.
pub mod Photos
pub mod Repository
pub mod Ordering
pub mod Consenting
pub mod Validity
pub mod Updates
pub mod Limit
use llm_dating_app.Prelude.{
  ℕ, Bool, true, false, not, ◌&&◌, ◌||◌, Option, none, some, List, [], ◌∷◌, ltb, leb, ◌==◌,
  if◌then◌else◌, Action, ◌>>=◌, ◌>>◌, fail_if, length, find, any, update_where, Text,
}
use llm_dating_app.Domain.Profile.{
  Error, infra, Profile, Photo, Consent, Preferences, Coordinates, is_purpose, Purpose,
  is_active_consent,
}
use llm_dating_app.Connection.{Conn, statement}

pub record Tables : Type 0 where
  pub users : List ℕ
  pub profiles : List Profile
  pub preferences : List Preferences
  pub photos : List Photo
  pub consents : List Consent

abbrev pub is_user : ℕ → Tables → Bool
is_user user t = any (λ u. u == user) t.users

-- A statement that a constraint may refuse.
abbrev pub exec_checked : (Tables → Bool × Tables) → Action (Conn Tables) Error (Unit {0})
exec_checked f = do done ← statement infra f; fail_if (not done) infra

-- What a row keeps of the coordinates: whether there are any to keep, and which.
abbrev pub location_after : Option Coordinates → Bool → Option Coordinates → Option Coordinates
location_after old true new = none
location_after old false none = old
location_after old false (some l) = some l

unfoldable pub get_profile : ℕ → Tables → Option Profile
get_profile user t = find (λ p. p.user_id == user) t.profiles

-- The width of the columns and the foreign key come first.
unfoldable pub upsert_profile : ℕ → Profile → Tables → Bool × Tables
upsert_profile at p t =
    if ltb 500 (length p.bio) || ltb 120 (length p.city) || not (is_user p.user_id t)
    then (false, t)
    else if any (λ q. q.user_id == p.user_id) t.profiles
    then (
      true,
      record t {
        profiles =
            update_where (λ q. q.user_id == p.user_id)
              (λ q. record q {
                bio = p.bio;
                interests = p.interests;
                city = p.city;
                location = location_after q.location p.clear_location p.location;
                questionnaire = p.questionnaire;
                onboarding_completed = p.onboarding_completed;
                updated_at = at;
              })
              t.profiles;
      },
    )
    else (true, record t { profiles = record p { created_at = at; updated_at = at } ∷ t.profiles })

unfoldable pub get_preferences : ℕ → Tables → Option Preferences
get_preferences user t = find (λ p. p.user_id == user) t.preferences

-- `user_preferences_age_range_check` and `user_preferences_distance_check`
abbrev pub is_coherent : Preferences → Bool
is_coherent p =
    leb 18 p.min_age
    && leb p.min_age p.max_age
    && leb p.max_age 100
    && leb 1 p.max_distance_km
    && leb p.max_distance_km 500

-- A new row has no genders, and an old one keeps its own.
unfoldable pub upsert_preferences : ℕ → Preferences → Tables → Bool × Tables
upsert_preferences at p t =
    if not (is_coherent p) || not (is_user p.user_id t)
    then (false, t)
    else if any (λ q. q.user_id == p.user_id) t.preferences
    then (
      true,
      record t {
        preferences =
            update_where (λ q. q.user_id == p.user_id)
              (λ q. record q {
                min_age = p.min_age;
                max_age = p.max_age;
                max_distance_km = p.max_distance_km;
                updated_at = at;
              })
              t.preferences;
      },
    )
    else (
      true,
      record t {
        preferences = record p { genders = []; created_at = at; updated_at = at } ∷ t.preferences;
      },
    )

unfoldable pub update_genders : ℕ → ℕ → List Text → Tables → Tables
update_genders at user genders t = record t {
  preferences =
      update_where (λ q. q.user_id == user) (λ q. record q { genders = genders; updated_at = at })
        t.preferences;
}

unfoldable pub clear_genders : ℕ → ℕ → Tables → Tables
unfolding update_genders
clear_genders at user t = update_genders at user [] t

abbrev pub is_active_for : ℕ → Purpose → Consent → Bool
is_active_for user purpose c =
    c.user_id == user && is_purpose c.purpose purpose && is_active_consent c

pub data Granted : Type 0 where
  granted : Consent → Granted
  already refused : Granted

-- The database draws the id and stamps the row; at most one consent of a purpose is active, and that
-- is checked before the foreign key.
unfoldable pub grant_consent : ℕ → ℕ → Consent → Tables → Granted × Tables
grant_consent at id c t =
    let row : Consent = record c {
      id = id;
      granted_at = at;
      withdrawn_at = none;
      created_at = at;
    } in
    if any (is_active_for c.user_id c.purpose) t.consents
    then (already, t)
    else if is_user c.user_id t
    then (granted row, record t { consents = row ∷ t.consents })
    else (refused, t)

unfoldable pub find_active_consent : ℕ → Purpose → Tables → Option Consent
find_active_consent user purpose t = find (is_active_for user purpose) t.consents

unfoldable pub withdraw_active_consent : ℕ → Purpose → ℕ → Tables → Tables
withdraw_active_consent user purpose at t = record t {
  consents =
      update_where (is_active_for user purpose) (λ c. record c { withdrawn_at = some at })
        t.consents;
}
