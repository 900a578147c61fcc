-- ===== src/Http/Profile.antt =====
-- backend/internal/adapters/http/profile/handler.go over the service.
use llm_dating_app.Prelude.{
  ℕ, ◌*◌, Bool, Option, none, some, List, [], ◌∷◌, map, ltb, Action, ◌>>=◌, ◌>>◌, pure, or_else,
  or_fail, fail_if, length, Text, ℤ,
}
use llm_dating_app.Middleware.{Identity}
use llm_dating_app.Domain.Profile.{Error, Profile, Preferences, Photo, MimeType}
use llm_dating_app.Application.Profile.{UpdateProfileInput, UpdatePreferencesInput, NewPhotoInput}
use llm_dating_app.Http.Sanitizing.{
  Fields, no_fields, sanitize_list, sanitize_questionnaire, sanitize,
}
use llm_dating_app.Http.{
  write_error, Code, require_identity, internal_error, validation_error, write_json,
  write_no_content, Handler, read_body, invalid_body, read_id, unsupported_mime_type,
}
use llm_dating_app.Http.Responses.Personal.{
  profile_response, preferences_response, photo_response, ProfileResponse, PreferencesResponse,
  PhotoResponse,
}
pub mod Images
pub mod Failures
use llm_dating_app.Http.Profile.Images.{ImageConfig, detect_image}
use llm_dating_app.Http.Profile.Failures.{
  update_profile_error, update_preferences_error, get_profile_error, get_preferences_error,
  photo_error, create_photo_error, reorder_error,
}

-- The operations of the service, at the clock of the call.
pub record Service (W : Type 0) : Type 0 where
  pub get_profile : ℕ → Action W Error Profile
  pub update_profile : ℕ → UpdateProfileInput → Action W Error Profile
  pub get_preferences : ℕ → Action W Error Preferences
  pub update_preferences : ℕ → UpdatePreferencesInput → Action W Error Preferences
  pub list_photos : ℕ → Action W Error (List Photo)
  pub create_photo : ℕ → NewPhotoInput → Action W Error Photo
  pub get_photo_content : ℕ → ℕ → Action W Error (Text × MimeType)
  pub reorder_photos : ℕ → List ℕ → Action W Error (Unit {0})
  pub set_primary_photo : ℕ → ℕ → Action W Error (Unit {0})
  pub delete_photo : ℕ → ℕ → Action W Error (Unit {0})

pub record UpdateProfileRequest : Type 0 where
  pub bio : Text
  pub interests : List Text
  pub city : Text
  pub latitude : Option ℤ
  pub longitude : Option ℤ
  pub clear_location : Bool
  pub questionnaire : Option Fields
  pub onboarding_completed : Bool

abbrev pub max_photo_bytes : ℕ
max_photo_bytes = 10 * 1024 * 1024

-- The file of a multipart form: what a reader bounded by one byte more than the limit gives, if it
-- gives anything.
pub record Upload : Type 0 where
  pub file : Option (Option Text)

abbrev pub fields_or_empty : Option Fields → Fields
fields_or_empty none = no_fields
fields_or_empty (some fs) = fs

abbrev pub cons_id : Option ℕ → Option (List ℕ) → Option (List ℕ)
cons_id none ids = none
cons_id (some id) none = none
cons_id (some id) (some ids) = some (id ∷ ids)

-- Every id of a list, unless one is not a UUID.
unfoldable pub parse_ids : (Text → Option ℕ) → List Text → Option (List ℕ)
parse_ids parse_uuid [] = some []
parse_ids parse_uuid (s ∷ ss) = cons_id (parse_uuid s) (parse_ids parse_uuid ss)

-- `code` is the opaque number of a questionnaire.
module _ {W : Type 0} (service : Service W) (parse_uuid : Text → Option ℕ) (strip : Text → Text)
    (code : Fields → ℕ) (decode_config : Text → Option ImageConfig) where
  unfoldable pub get_profile : Option Identity → Handler W ProfileResponse
  unfolding require_identity write_json profile_response
  get_profile identity = do
    who ← require_identity identity
    p ← or_else get_profile_error (service.get_profile who.user_id)
    pure (write_json 200 (profile_response p))

  unfoldable pub update_profile :
      Option Identity
      → Option UpdateProfileRequest
      → (UpdateProfileRequest → Bool)
      → Handler W ProfileResponse
  unfolding require_identity write_json profile_response update_profile_error sanitize_list
      sanitize_questionnaire
  update_profile identity decoded is_valid = do
    who ← require_identity identity
    request ← read_body decoded is_valid
    p ← or_else update_profile_error (
        service.update_profile who.user_id (record {
          bio = sanitize strip request.bio;
          interests = sanitize_list strip request.interests;
          city = sanitize strip request.city;
          latitude = request.latitude;
          longitude = request.longitude;
          clear_location = request.clear_location;
          questionnaire =
              code (sanitize_questionnaire strip (fields_or_empty request.questionnaire));
          onboarding_completed = request.onboarding_completed;
        }))
    pure (write_json 200 (profile_response p))

  unfoldable pub get_preferences : Option Identity → Handler W PreferencesResponse
  unfolding require_identity write_json preferences_response
  get_preferences identity = do
    who ← require_identity identity
    p ← or_else get_preferences_error (service.get_preferences who.user_id)
    pure (write_json 200 (preferences_response p))

  -- The request has the fields of the service's input, and genders that are left out or null are none.
  unfoldable pub update_preferences :
      Option Identity
      → Option UpdatePreferencesInput
      → (UpdatePreferencesInput → Bool)
      → Handler W PreferencesResponse
  unfolding require_identity write_json preferences_response update_preferences_error
  update_preferences identity decoded is_valid = do
    who ← require_identity identity
    request ← read_body decoded is_valid
    p ← or_else update_preferences_error (service.update_preferences who.user_id request)
    pure (write_json 200 (preferences_response p))

  unfoldable pub list_photos : Option Identity → Handler W (List PhotoResponse)
  unfolding require_identity write_json photo_response
  list_photos identity = do
    who ← require_identity identity
    photos ← or_else (λ _. write_error 500 internal_error) (service.list_photos who.user_id)
    pure (write_json 200 (map photo_response photos))

  -- The form is none where `ParseMultipartForm` fails, whatever the reason.
  unfoldable pub create_photo : Option Identity → Option Upload → Handler W PhotoResponse
  unfolding require_identity write_json photo_response detect_image
  create_photo identity form = do
    who ← require_identity identity
    upload ← or_fail form (write_error 413 Code.photo_too_large)
    file ← or_fail upload.file (write_error 400 invalid_body)
    content ← or_fail file (write_error 400 invalid_body)
    fail_if (ltb max_photo_bytes (length content)) (write_error 413 Code.photo_too_large)
    image ← or_fail (detect_image decode_config content) (write_error 422 unsupported_mime_type)
    p ← or_else create_photo_error (
        service.create_photo who.user_id (record {
          mime_type = image.mime_type;
          width = image.width;
          height = image.height;
          byte_size = length content;
          content = content;
        }))
    pure (write_json 201 (photo_response p))

  -- With `Cache-Control: private, max-age=3600`.
  unfoldable pub get_photo_content : Option Identity → Text → Handler W (Text × MimeType)
  unfolding require_identity write_json
  get_photo_content identity photo_id = do
    who ← require_identity identity
    id ← read_id (parse_uuid photo_id)
    content ← or_else photo_error (service.get_photo_content who.user_id id)
    pure (write_json 200 content)

  unfoldable pub reorder_photos :
      Option Identity → Option (List Text) → (List Text → Bool) → Handler W (Unit {0})
  unfolding require_identity write_no_content parse_ids
  reorder_photos identity decoded is_valid = do
    who ← require_identity identity
    request ← read_body decoded is_valid
    ids ← or_fail (parse_ids parse_uuid request) (write_error 400 validation_error)
    or_else reorder_error (service.reorder_photos who.user_id ids)
    pure write_no_content

  unfoldable pub set_primary_photo : Option Identity → Text → Handler W (Unit {0})
  unfolding require_identity write_no_content
  set_primary_photo identity photo_id = do
    who ← require_identity identity
    id ← read_id (parse_uuid photo_id)
    or_else photo_error (service.set_primary_photo who.user_id id)
    pure write_no_content

  unfoldable pub delete_photo : Option Identity → Text → Handler W (Unit {0})
  unfolding require_identity write_no_content
  delete_photo identity photo_id = do
    who ← require_identity identity
    id ← read_id (parse_uuid photo_id)
    or_else photo_error (service.delete_photo who.user_id id)
    pure write_no_content
