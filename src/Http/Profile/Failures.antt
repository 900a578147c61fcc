-- ===== src/Http/Profile/Failures.antt =====
-- What the handlers of backend/internal/adapters/http/profile/handler.go answer to the errors of the
-- service.
use llm_dating_app.Domain.Profile.{Error, photo_not_found, invalid_age_range, invalid_distance}
use llm_dating_app.Http.{write_error, Response, Code, internal_error, validation_error}

unfoldable pub update_profile_error : {B : Type 0} → Error → Response B
unfolding write_error
update_profile_error Error.onboarding_incomplete = write_error 422 Code.onboarding_incomplete
update_profile_error Error.incomplete_coordinates = write_error 400 Code.incomplete_coordinates
update_profile_error Error.conflicting_location = write_error 400 Code.conflicting_location
update_profile_error _ = write_error 500 internal_error

unfoldable pub update_preferences_error : {B : Type 0} → Error → Response B
unfolding write_error
update_preferences_error Error.consent_required = write_error 422 Code.consent_required
update_preferences_error invalid_age_range = write_error 422 validation_error
update_preferences_error invalid_distance = write_error 422 validation_error
update_preferences_error _ = write_error 500 internal_error

abbrev pub get_profile_error : {B : Type 0} → Error → Response B
get_profile_error Error.not_found = write_error 404 Code.profile_not_found
get_profile_error _ = write_error 500 internal_error

abbrev pub get_preferences_error : {B : Type 0} → Error → Response B
get_preferences_error Error.preferences_not_found = write_error 404 Code.preferences_not_found
get_preferences_error _ = write_error 500 internal_error

abbrev pub photo_error : {B : Type 0} → Error → Response B
photo_error photo_not_found = write_error 404 Code.not_found
photo_error _ = write_error 500 internal_error

abbrev pub create_photo_error : {B : Type 0} → Error → Response B
create_photo_error Error.photo_limit_reached = write_error 422 Code.photo_limit_reached
create_photo_error _ = write_error 500 internal_error

abbrev pub reorder_error : {B : Type 0} → Error → Response B
reorder_error Error.invalid_photo_order = write_error 422 Code.invalid_photo_order
reorder_error _ = write_error 500 internal_error
