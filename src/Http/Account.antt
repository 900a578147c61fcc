-- ===== src/Http/Account.antt =====
-- backend/internal/adapters/http/account/handler.go over the service.
use llm_dating_app.Prelude.{
  ℕ, Bool, true, false, not, Option, [], ◌∷◌, Action, ◌>>=◌, ◌>>◌, pure, or_else, fail_if, Text,
}
use llm_dating_app.Middleware.{Identity}
use llm_dating_app.Domain.Profile.{
  Error, Consent, Purpose, other_purpose, gender_preferences, consent_active,
}
use llm_dating_app.Http.{
  Response, require_identity, write_error, write_json, write_no_content, consent_already_active,
  Code, Handler, internal_error, read_body, unsupported_consent_purpose,
}
use llm_dating_app.Http.Responses.Personal.{consent_response, ConsentResponse}

pub record Service (W : Type 0) : Type 0 where
  pub grant_gender_preference_consent : ℕ → Text → Action W Error Consent
  pub get_active_gender_preference_consent : ℕ → Action W Error Consent
  pub withdraw_gender_preference_consent : ℕ → Action W Error (Unit {0})

-- `consentSourceAPI`
abbrev pub consent_source_api : Text
consent_source_api = b'a' ∷ b'p' ∷ b'i' ∷ []

abbrev pub is_supported : Purpose → Bool
is_supported gender_preferences = true
is_supported (other_purpose _) = false

abbrev pub grant_error : {B : Type 0} → Error → Response B
grant_error consent_active = write_error 409 consent_already_active
grant_error _ = write_error 500 internal_error

abbrev pub get_consent_error : {B : Type 0} → Error → Response B
get_consent_error Error.consent_not_found = write_error 404 Code.consent_not_found
get_consent_error _ = write_error 500 internal_error

module _ {W : Type 0} (service : Service W) where
  unfoldable pub grant_consent :
      Option Identity → Option Purpose → (Purpose → Bool) → Handler W ConsentResponse
  unfolding require_identity write_json consent_response
  grant_consent identity decoded is_valid = do
    who ← require_identity identity
    purpose ← read_body decoded is_valid
    fail_if (not (is_supported purpose)) (write_error 422 unsupported_consent_purpose)
    c ← or_else grant_error (service.grant_gender_preference_consent who.user_id consent_source_api)
    pure (write_json 201 (consent_response c))

  unfoldable pub get_consent : Option Identity → Purpose → Handler W ConsentResponse
  unfolding require_identity write_json consent_response
  get_consent identity purpose = do
    who ← require_identity identity
    fail_if (not (is_supported purpose)) (write_error 422 unsupported_consent_purpose)
    c ← or_else get_consent_error (service.get_active_gender_preference_consent who.user_id)
    pure (write_json 200 (consent_response c))

  unfoldable pub withdraw_consent : Option Identity → Purpose → Handler W (Unit {0})
  unfolding require_identity write_no_content
  withdraw_consent identity purpose = do
    who ← require_identity identity
    fail_if (not (is_supported purpose)) (write_error 422 unsupported_consent_purpose)
    or_else (λ _. write_error 500 internal_error)
        (service.withdraw_gender_preference_consent who.user_id)
    pure write_no_content
