-- ===== src/Postgres/Schema.antt =====
-- The tables of backend/migrations that matching and messaging share, as lists of rows. Locations and
-- dates are opaque: PostGIS measures the ones, and PostgreSQL's `age` the others.
use llm_dating_app.Prelude.{ℕ, Bool, Option, List, Text}
use llm_dating_app.Domain.Messaging.{Message}
use llm_dating_app.Domain.User.{Status}
use llm_dating_app.Domain.Matching.{Swipe, Match, Report, RankingWeights, ScoreBreakdown}

pub record Postgis : Type 0 where
  -- Whole years from a birth date to a moment.
  pub age_years : ℕ → ℕ → ℕ
  -- `ST_DWithin`, in metres.
  pub within : ℕ → ℕ → ℕ → Bool

pub record ProfileRow : Type 0 where
  pub onboarding_completed : Bool
  pub location : Option ℕ
  pub bio : Text
  pub city : Text
  pub interests : List Text
  -- The JSON object of the answers.
  pub questionnaire : ℕ

pub record PreferencesRow : Type 0 where
  pub min_age : ℕ
  pub max_age : ℕ
  pub max_distance_km : ℕ
  pub genders : List ℕ

-- A row of `photos`, as far as matching reads it.
pub record PhotoRow : Type 0 where
  pub id : ℕ
  pub storage_key : Text
  pub mime_type : Text

-- A user with the rows that hang on the user's id.
pub record Member : Type 0 where
  pub id : ℕ
  pub status : Status
  pub display_name : Text
  pub gender : ℕ
  pub birth_date : ℕ
  pub last_active_at : ℕ
  pub profile : Option ProfileRow
  pub preferences : Option PreferencesRow
  -- An active consent to matching by gender preferences.
  pub has_consent : Bool
  -- A primary photo that is not deleted.
  pub primary_photo : Option PhotoRow

pub record Block : Type 0 where
  pub blocker_id : ℕ
  pub blocked_id : ℕ
  pub created_at : ℕ

pub record Tables : Type 0 where
  pub members : List Member
  pub swipes : List Swipe
  pub matches : List Match
  pub blocks : List Block
  pub reports : List Report
  pub messages : List Message

-- What the discovery query computes in float8: the distance of two locations in kilometres, and the
-- scores of a candidate for a viewer, of the weights, the moment and the hours after which activity
-- counts for nothing. Every number stands for its place in the order of the float8 numbers.
pub record Ranking : Type 0 where
  pub distance_km : ℕ → ℕ → ℕ
  pub score : RankingWeights → ℕ → ℕ → Member → Member → ScoreBreakdown
