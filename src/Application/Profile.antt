-- ===== src/Application/Profile.antt =====
-- backend/internal/application/profile and backend/internal/application/account: the services over their
-- ports (domain/profile/{repository,storage}.go, domain/account/repository.go). The clean-up of a blob
-- that DeletePhoto leaves to a goroutine is its last step.
pub mod Service
pub mod Live
pub mod Photos
pub mod Consents
use llm_dating_app.Prelude.{
  ℕ, ◌*◌, Bool, true, false, not, ◌&&◌, Option, none, some, List, [], ◌∷◌, ◌==◌, if◌then◌else◌,
  Action, pure, fail, Result, ok, err, length, any, Text, is_below, is_within, is_le, ℤ, pos,
}
use llm_dating_app.Domain.Profile.{
  Error, Profile, Photo, Consent, Purpose, gender_preferences, degree, Preferences, MimeType,
  incomplete_coordinates, Coordinates, consent_not_found, conflicting_location,
}

pub record Repository (W : Type 0) : Type 0 where
  pub get_profile : ℕ → Action W Error Profile
  pub upsert_profile : Profile → Action W Error (Unit {0})
  pub get_preferences : ℕ → Action W Error Preferences
  pub upsert_preferences : Preferences → Action W Error (Unit {0})
  pub update_genders : ℕ → List Text → Action W Error (Unit {0})
  pub count_active_photos : ℕ → Action W Error ℕ
  pub list_photos : ℕ → Action W Error (List Photo)
  pub get_photo : ℕ → Action W Error Photo
  pub create_photo : Photo → Action W Error Photo
  pub reorder_photos : ℕ → List ℕ → Action W Error (Unit {0})
  pub set_primary_photo : ℕ → ℕ → Action W Error (Unit {0})
  pub soft_delete_photo : ℕ → ℕ → Action W Error (Unit {0})

pub record Storage (W : Type 0) : Type 0 where
  pub put : Text → MimeType → Text → Action W Error (Unit {0})
  pub get : Text → Action W Error Text
  pub delete : Text → Action W Error (Unit {0})

pub record ConsentRepository (W : Type 0) : Type 0 where
  pub grant : Consent → Action W Error Consent
  pub find_active : ℕ → Purpose → Action W Error Consent
  pub withdraw_gender_preference_consent : ℕ → ℕ → Action W Error (Unit {0})

pub record UpdateProfileInput : Type 0 where
  pub bio : Text
  pub interests : List Text
  pub city : Text
  pub latitude : Option ℤ
  pub longitude : Option ℤ
  pub clear_location : Bool
  pub questionnaire : ℕ
  pub onboarding_completed : Bool

pub record UpdatePreferencesInput : Type 0 where
  pub min_age : ℤ
  pub max_age : ℤ
  pub max_distance_km : ℤ
  -- none leaves the genders as they are.
  pub genders : Option (List Text)

pub record NewPhotoInput : Type 0 where
  pub mime_type : MimeType
  pub width : ℕ
  pub height : ℕ
  pub byte_size : ℕ
  pub content : Text

-- What `validateLocationIntent` refuses with, if it refuses.
unfoldable pub validate_location_intent : Option ℤ → Option ℤ → Bool → Option Error
validate_location_intent none none clear = none
validate_location_intent none (some longitude) clear = some incomplete_coordinates
validate_location_intent (some latitude) none clear = some incomplete_coordinates
validate_location_intent (some latitude) (some longitude) clear =
    if clear
    then some conflicting_location
    else if is_within (90 * degree) latitude && is_within (180 * degree) longitude
    then none
    else some incomplete_coordinates

abbrev pub coordinates_of : Option ℤ → Option ℤ → Option Coordinates
coordinates_of none longitude = none
coordinates_of (some latitude) none = none
coordinates_of (some latitude) (some longitude) =
    some (record { latitude = latitude; longitude = longitude })

abbrev pub reject : {W : Type 0} → Option Error → Action W Error (Unit {0})
reject none = pure tt
reject (some e) = fail e

abbrev pub are_ages : ℤ → ℤ → Bool
are_ages low high = not (is_below 18 low) && is_le low high && is_le high (pos 100)

abbrev pub is_distance : ℤ → Bool
is_distance km = not (is_below 1 km) && is_le km (pos 500)

-- The loop of ReorderPhotos: every id is a photo that is there and was not seen before.
unfoldable pub is_order_of : List Photo → List ℕ → List ℕ → Bool
is_order_of existing seen [] = true
is_order_of existing seen (id ∷ ids) =
    any (λ p. p.id == id) existing
    && not (any (λ i. i == id) seen)
    && is_order_of existing (id ∷ seen) ids

-- The check of ReorderPhotos.
unfoldable pub is_photo_order : List Photo → List ℕ → Bool
unfolding is_order_of
is_photo_order existing ids = length ids == length existing && is_order_of existing [] ids

-- "2026-08-05"
abbrev pub current_privacy_policy_version : Text
current_privacy_policy_version =
    b'2' ∷ b'0' ∷ b'2' ∷ b'6' ∷ b'-' ∷ b'0' ∷ b'8' ∷ b'-' ∷ b'0' ∷ b'5' ∷ []

module _ {W : Type 0} (consents : ConsentRepository W) where
  unfoldable pub grant_gender_preference_consent : ℕ → Text → Action W Error Consent
  grant_gender_preference_consent user source = consents.grant (record {
    id = 0;
    user_id = user;
    purpose = gender_preferences;
    policy_version = current_privacy_policy_version;
    granted_at = 0;
    withdrawn_at = none;
    source = source;
    created_at = 0;
  })

  unfoldable pub withdraw_gender_preference_consent : ℕ → ℕ → Action W Error (Unit {0})
  withdraw_gender_preference_consent user now = consents.withdraw_gender_preference_consent user now

  unfoldable pub get_active_gender_preference_consent : ℕ → Action W Error Consent
  get_active_gender_preference_consent user = consents.find_active user gender_preferences

  abbrev pub is_found : Result Error Consent → Result Error Bool
  is_found (ok c) = ok true
  is_found (err consent_not_found) = ok false
  is_found (err e) = err e

  unfoldable pub has_active_gender_preference_consent : ℕ → Action W Error Bool
  has_active_gender_preference_consent user w =
      let (r, w') = consents.find_active user gender_preferences w in (is_found r, w')
