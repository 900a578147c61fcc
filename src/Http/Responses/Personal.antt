-- ===== src/Http/Responses/Personal.antt =====
-- The bodies of the responses of backend/internal/adapters/http/{profile,account}.
use llm_dating_app.Prelude.{ℕ, Bool, List, Text, ℤ}
use llm_dating_app.Domain.Profile.{Profile, Photo, Preferences, Consent, MimeType, Purpose}

-- Neither the coordinates nor whether they are to be cleared.
pub record ProfileResponse : Type 0 where
  pub user_id : ℕ
  pub bio : Text
  pub interests : List Text
  pub city : Text
  pub has_location : Bool
  pub questionnaire : ℕ
  pub onboarding_completed : Bool
  pub created_at : ℕ
  pub updated_at : ℕ

unfoldable pub profile_response : Profile → ProfileResponse
profile_response p = record {
  user_id = p.user_id;
  bio = p.bio;
  interests = p.interests;
  city = p.city;
  has_location = p.has_location;
  questionnaire = p.questionnaire;
  onboarding_completed = p.onboarding_completed;
  created_at = p.created_at;
  updated_at = p.updated_at;
}

pub record PreferencesResponse : Type 0 where
  pub min_age : ℕ
  pub max_age : ℕ
  pub max_distance_km : ℕ
  pub genders : List Text

unfoldable pub preferences_response : Preferences → PreferencesResponse
preferences_response p = record {
  min_age = p.min_age;
  max_age = p.max_age;
  max_distance_km = p.max_distance_km;
  genders = p.genders;
}

pub record PhotoResponse : Type 0 where
  pub id : ℕ
  pub mime_type : MimeType
  pub byte_size : ℕ
  pub width : ℕ
  pub height : ℕ
  pub position : ℤ
  pub is_primary : Bool
  pub created_at : ℕ

unfoldable pub photo_response : Photo → PhotoResponse
photo_response p = record {
  id = p.id;
  mime_type = p.mime_type;
  byte_size = p.byte_size;
  width = p.width;
  height = p.height;
  position = p.position;
  is_primary = p.is_primary;
  created_at = p.created_at;
}

pub record ConsentResponse : Type 0 where
  pub purpose : Purpose
  pub policy_version : Text
  pub granted_at : ℕ

unfoldable pub consent_response : Consent → ConsentResponse
consent_response c = record {
  purpose = c.purpose;
  policy_version = c.policy_version;
  granted_at = c.granted_at;
}
