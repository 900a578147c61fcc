-- ===== src/Domain/Profile.antt =====
-- backend/internal/domain/profile and backend/internal/domain/account: profiles, preferences, photos,
-- consents and their errors. Coordinates are whole numbers of a small fraction of a degree, of which a
-- degree has `degree`; a questionnaire is opaque.
use llm_dating_app.Prelude.{ℕ, Bool, true, false, not, Option, List, is_some, Text, text_eq, ℤ}

abbrev pub max_photos : ℕ
max_photos = 6

abbrev pub degree : ℕ
degree = 1_000_000_000

pub record Coordinates : Type 0 where
  pub latitude : ℤ
  pub longitude : ℤ

pub record Profile : Type 0 where
  pub user_id : ℕ
  pub bio : Text
  pub interests : List Text
  pub city : Text
  pub location : Option Coordinates
  pub clear_location : Bool
  pub has_location : Bool
  pub questionnaire : ℕ
  pub onboarding_completed : Bool
  pub created_at : ℕ
  pub updated_at : ℕ

pub record Preferences : Type 0 where
  pub user_id : ℕ
  pub min_age : ℕ
  pub max_age : ℕ
  pub max_distance_km : ℕ
  pub genders : List Text
  pub created_at : ℕ
  pub updated_at : ℕ

-- A `string` in the source: any text but the three that the table allows is `other_type`.
pub data MimeType : Type 0 where
  jpeg png webp : MimeType
  other_type : Text → MimeType

pub record Photo : Type 0 where
  pub id : ℕ
  pub user_id : ℕ
  pub storage_key : Text
  pub mime_type : MimeType
  pub byte_size : ℕ
  pub width : ℕ
  pub height : ℕ
  pub position : ℤ
  pub is_primary : Bool
  pub created_at : ℕ
  pub deleted_at : Option ℕ

abbrev pub is_deleted : Photo → Bool
is_deleted p = is_some p.deleted_at

-- `errors.go` of the profile, those of its service and those of the account; `infra` is any error that
-- no code tells apart from others.
pub data Error : Type 0 where
  not_found preferences_not_found photo_not_found photo_limit_reached consent_required : Error
  invalid_age_range invalid_distance incomplete_coordinates conflicting_location : Error
  onboarding_incomplete invalid_photo_order consent_not_found consent_active infra : Error

-- Any text but the one purpose that is defined is `other_purpose`.
pub data Purpose : Type 0 where
  gender_preferences : Purpose
  other_purpose : Text → Purpose

abbrev pub is_purpose : Purpose → Purpose → Bool
is_purpose gender_preferences gender_preferences = true
is_purpose gender_preferences (other_purpose b) = false
is_purpose (other_purpose a) gender_preferences = false
is_purpose (other_purpose a) (other_purpose b) = text_eq a b

pub record Consent : Type 0 where
  pub id : ℕ
  pub user_id : ℕ
  pub purpose : Purpose
  pub policy_version : Text
  pub granted_at : ℕ
  pub withdrawn_at : Option ℕ
  pub source : Text
  pub created_at : ℕ

abbrev pub is_active_consent : Consent → Bool
is_active_consent c = not (is_some c.withdrawn_at)
