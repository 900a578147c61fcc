-- ===== src/Application/Profile/Service.antt =====
-- The operations of backend/internal/application/profile/service.go.
use llm_dating_app.Prelude.{
  ℕ, Bool, false, not, ◌||◌, Option, none, some, List, [], ◌∷◌, leb, ◌==◌, if◌then◌else◌, Action,
  ◌>>=◌, ◌>>◌, pure, fail, try, ignore, fail_if, Result, ok, err, Text, is_empty_text, trim_space,
  pos_part, pos,
}
use llm_dating_app.Domain.Profile.{
  Error, Profile, Photo, Preferences, max_photos, consent_required, photo_not_found, MimeType,
  onboarding_incomplete, photo_limit_reached, invalid_photo_order, invalid_age_range,
  invalid_distance,
}
use llm_dating_app.Application.Profile.{
  Repository, Storage, UpdateProfileInput, UpdatePreferencesInput, NewPhotoInput, is_photo_order,
  MimeType, reject, are_ages, validate_location_intent, coordinates_of, is_distance,
}

-- `key_of` writes "photos/<user>/<photo>"; `has_consent` is the port to the consents.
module _ {W : Type 0} (profiles : Repository W) (storage : Storage W)
    (has_consent : ℕ → Action W Error Bool) (key_of : ℕ → ℕ → Text) where
  unfoldable pub check_onboarding : ℕ → UpdateProfileInput → Action W Error (Unit {0})
  check_onboarding user input = do
    count ← profiles.count_active_photos user
    fail_if (is_empty_text (trim_space input.bio) || count == 0) onboarding_incomplete

  unfoldable pub update_profile : ℕ → UpdateProfileInput → Action W Error Profile
  update_profile user input = do
    reject (validate_location_intent input.latitude input.longitude input.clear_location)
    if input.onboarding_completed then check_onboarding user input else pure tt
    profiles.upsert_profile (record {
      user_id = user;
      bio = input.bio;
      interests = input.interests;
      city = input.city;
      location = coordinates_of input.latitude input.longitude;
      clear_location = input.clear_location;
      has_location = false;
      questionnaire = input.questionnaire;
      onboarding_completed = input.onboarding_completed;
      created_at = 0;
      updated_at = 0;
    })
    profiles.get_profile user

  unfoldable pub change_genders : ℕ → Option (List Text) → Action W Error (Unit {0})
  change_genders user none = pure tt
  change_genders user (some genders) = do
    consented ← has_consent user
    fail_if (not consented) consent_required
    profiles.update_genders user genders

  unfoldable pub update_preferences : ℕ → UpdatePreferencesInput → Action W Error Preferences
  update_preferences user input = do
    fail_if (not (are_ages input.min_age input.max_age)) invalid_age_range
    fail_if (not (is_distance input.max_distance_km)) invalid_distance
    profiles.upsert_preferences (record {
      user_id = user;
      min_age = pos_part input.min_age;
      max_age = pos_part input.max_age;
      max_distance_km = pos_part input.max_distance_km;
      genders = [];
      created_at = 0;
      updated_at = 0;
    })
    change_genders user input.genders
    profiles.get_preferences user

  -- A photo of another user is as good as none.
  unfoldable pub own_photo : ℕ → ℕ → Action W Error Photo
  own_photo user id = do
    found ← profiles.get_photo id
    fail_if (not (found.user_id == user)) photo_not_found
    pure found

  unfoldable pub get_photo_content : ℕ → ℕ → Action W Error (Text × MimeType)
  get_photo_content user id = do
    found ← own_photo user id
    content ← storage.get found.storage_key
    pure (content, found.mime_type)

  -- The blob of a photo that was not recorded is deleted.
  unfoldable pub after_create : Text → Result Error Photo → Action W Error Photo
  after_create key (ok p) = pure p
  after_create key (err e) = do ignore (storage.delete key); fail e

  abbrev pub new_photo : ℕ → NewPhotoInput → ℕ → ℕ → Photo
  new_photo user input id count = record {
    id = id;
    user_id = user;
    storage_key = key_of user id;
    mime_type = input.mime_type;
    byte_size = input.byte_size;
    width = input.width;
    height = input.height;
    position = pos count;
    is_primary = count == 0;
    created_at = 0;
    deleted_at = none;
  }

  unfoldable pub create_photo : ℕ → NewPhotoInput → ℕ → Action W Error Photo
  create_photo user input id = do
    count ← profiles.count_active_photos user
    fail_if (leb max_photos count) photo_limit_reached
    storage.put (key_of user id) input.mime_type input.content
    created ← try (profiles.create_photo (new_photo user input id count))
    after_create (key_of user id) created

  unfoldable pub reorder_photos : ℕ → List ℕ → Action W Error (Unit {0})
  reorder_photos user ids = do
    existing ← profiles.list_photos user
    fail_if (not (is_photo_order existing ids)) invalid_photo_order
    profiles.reorder_photos user ids

  unfoldable pub set_primary_photo : ℕ → ℕ → Action W Error (Unit {0})
  set_primary_photo user id = do own_photo user id; profiles.set_primary_photo user id

  unfoldable pub promote : ℕ → Result Error (List Photo) → Action W Error (Unit {0})
  promote user (err e) = pure tt
  promote user (ok []) = pure tt
  promote user (ok (p ∷ ps)) = ignore (profiles.set_primary_photo user p.id)

  -- The first of the remaining photos becomes the primary one; errors of that are dropped.
  unfoldable pub promote_first : ℕ → Action W Error (Unit {0})
  promote_first user = do remaining ← try (profiles.list_photos user); promote user remaining

  unfoldable pub delete_photo : ℕ → ℕ → ℕ → Action W Error (Unit {0})
  delete_photo user id now = do
    found ← own_photo user id
    profiles.soft_delete_photo id now
    if found.is_primary then promote_first user else pure tt
    ignore (storage.delete found.storage_key)
