-- ===== src/Domain/Matching.antt =====
-- backend/internal/domain/matching: swipes, matches, blocks and reports. Identifiers are the 128-bit
-- numbers of their UUIDs, whose order is that of their text and of SQL's `uuid`.
use llm_dating_app.Platform.{Float, add_float}
use llm_dating_app.Prelude.{ℕ, Bool, true, false, Option, List, ltb, if◌then◌else◌, Text}

-- A `string` in the source: any text but the three is `other_action`.
pub data SwipeAction : Type 0 where
  like dislike superlike : SwipeAction
  other_action : Text → SwipeAction

unfoldable pub is_valid_action : SwipeAction → Bool
is_valid_action like = true
is_valid_action dislike = true
is_valid_action superlike = true
is_valid_action (other_action _) = false

unfoldable pub is_positive : SwipeAction → Bool
is_positive like = true
is_positive dislike = false
is_positive superlike = true
is_positive (other_action _) = false

pub record Swipe : Type 0 where
  pub id : ℕ
  pub actor_id : ℕ
  pub target_id : ℕ
  pub action : SwipeAction
  pub created_at : ℕ

pub record Match : Type 0 where
  pub id : ℕ
  pub user_low_id : ℕ
  pub user_high_id : ℕ
  pub matched_at : ℕ
  pub unmatched_at : Option ℕ
  pub unmatched_by : Option ℕ

unfoldable pub ordered_pair : ℕ → ℕ → ℕ × ℕ
ordered_pair first second = if ltb first second then (first, second) else (second, first)

pub record SwipeOutcome : Type 0 where
  pub swipe : Swipe
  pub match_made : Option Match
  pub created : Bool

-- The float64 numbers of the weights and scores are opaque: a number stands for its place in their
-- order.
pub record RankingWeights : Type 0 where
  pub interests : Float
  pub questionnaire : Float
  pub distance : Float
  pub activity : Float

unfoldable pub total : RankingWeights → Float
total w = add_float (add_float (add_float w.interests w.questionnaire) w.distance) w.activity

pub record ScoreBreakdown : Type 0 where
  pub interests : ℕ
  pub questionnaire : ℕ
  pub distance : ℕ
  pub activity : ℕ
  pub total : ℕ

pub record Candidate : Type 0 where
  pub user_id : ℕ
  pub display_name : Text
  pub age : ℕ
  pub gender : ℕ
  pub bio : Text
  pub interests : List Text
  pub city : Text
  pub distance_km : ℕ
  pub last_active_at : ℕ
  pub primary_photo_id : ℕ
  pub score : ScoreBreakdown

pub record MatchSummary : Type 0 where
  pub match_row : Match
  pub other_user_id : ℕ
  pub display_name : Text
  pub bio : Text
  pub city : Text
  pub primary_photo_id : ℕ
  pub other_last_active : ℕ

pub record DiscoveryCursor : Type 0 where
  pub as_of : ℕ
  pub score : ℕ
  pub user_id : ℕ

pub record MatchCursor : Type 0 where
  pub matched_at : ℕ
  pub match_id : ℕ

pub record DiscoveryParams : Type 0 where
  pub viewer_id : ℕ
  pub as_of : ℕ
  pub limit : ℕ
  pub cursor : Option DiscoveryCursor
  pub weights : RankingWeights

pub record MatchListParams : Type 0 where
  pub user_id : ℕ
  pub limit : ℕ
  pub cursor : Option MatchCursor

pub record VisiblePhoto : Type 0 where
  pub id : ℕ
  pub owner_id : ℕ
  pub storage_key : Text
  pub mime_type : Text

pub data ReportReason : Type 0 where
  harassment spam inappropriate_content impersonation underage other : ReportReason
  other_reason : Text → ReportReason

unfoldable pub is_valid_reason : ReportReason → Bool
is_valid_reason (other_reason _) = false
is_valid_reason harassment = true
is_valid_reason _ = true

pub data ReportStatus : Type 0 where
  pending reviewing resolved dismissed : ReportStatus

pub record Report : Type 0 where
  pub id : ℕ
  pub reporter_id : ℕ
  pub reported_id : ℕ
  pub reason : ReportReason
  pub description : Text
  pub status : ReportStatus
  pub created_at : ℕ
  pub resolved_at : Option ℕ

-- `errors.go`, and the errors of the service; `daily_limit` carries the wait in milliseconds and
-- `infra` is any error that no code tells apart from others.
pub data Error : Type 0 where
  not_found swipe_not_found match_not_found photo_not_found discovery_not_ready : Error
  invalid_swipe_action invalid_report_reason report_too_long self_interaction : Error
  interaction_blocked dependency_unavailable invalid_cursor invalid_page_size infra : Error
  daily_limit : ℕ → Error
