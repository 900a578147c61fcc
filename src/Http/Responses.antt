-- ===== src/Http/Responses.antt =====
-- The bodies of the responses (dto.go of the packages under backend/internal/adapters/http, and the
-- functions of their handlers that fill them). An identifier or a time stands for its text.
use llm_dating_app.Prelude.{ℕ, Option, none, some, List, ◌==◌, if◌then◌else◌, Text}
use llm_dating_app.Domain.User.{User, Status, Date}
use llm_dating_app.Domain.Matching.{
  Candidate, SwipeOutcome, MatchSummary, Report, ScoreBreakdown, SwipeAction, Match, ReportReason,
  ReportStatus,
}
use llm_dating_app.Domain.Messaging.{Message, MessageType, ConversationSummary}
use llm_dating_app.Application.Auth.{AuthResult}
pub mod Personal

pub record UserResponse : Type 0 where
  pub id : ℕ
  pub email : Text
  pub display_name : Text
  pub birth_date : Date
  pub gender : Text
  pub status : Status
  pub email_verified_at : Option ℕ
  pub created_at : ℕ

unfoldable pub user_response : User → UserResponse
user_response u = record {
  id = u.id;
  email = u.email;
  display_name = u.display_name;
  birth_date = u.birth_date;
  gender = u.gender;
  status = u.status;
  email_verified_at = u.email_verified_at;
  created_at = u.created_at;
}

pub record LoginResponse : Type 0 where
  pub access_token : Text
  pub access_token_expires_at : ℕ
  pub user : UserResponse

unfoldable pub login_response : AuthResult → LoginResponse
unfolding user_response
login_response r = record {
  access_token = r.access_token;
  access_token_expires_at = r.access_token_expires_at;
  user = user_response r.user;
}

-- The photo's id stands for the URL of its content.
pub record CandidateResponse : Type 0 where
  pub user_id : ℕ
  pub display_name : Text
  pub age : ℕ
  pub gender : ℕ
  pub bio : Text
  pub interests : List Text
  pub city : Text
  pub distance_km : ℕ
  pub last_active_at : ℕ
  pub photo_url : ℕ
  pub score : ScoreBreakdown

unfoldable pub candidate_response : Candidate → CandidateResponse
candidate_response c = record {
  user_id = c.user_id;
  display_name = c.display_name;
  age = c.age;
  gender = c.gender;
  bio = c.bio;
  interests = c.interests;
  city = c.city;
  distance_km = c.distance_km;
  last_active_at = c.last_active_at;
  photo_url = c.primary_photo_id;
  score = c.score;
}

pub record CreatedMatchResponse : Type 0 where
  pub id : ℕ
  pub matched_at : ℕ

pub record SwipeResponse : Type 0 where
  pub id : ℕ
  pub target_id : ℕ
  pub action : SwipeAction
  pub created_at : ℕ
  pub match_made : Option CreatedMatchResponse

abbrev pub created_match : Option Match → Option CreatedMatchResponse
created_match none = none
created_match (some m) = some (record { id = m.id; matched_at = m.matched_at })

unfoldable pub swipe_response : SwipeOutcome → SwipeResponse
swipe_response o = record {
  id = o.swipe.id;
  target_id = o.swipe.target_id;
  action = o.swipe.action;
  created_at = o.swipe.created_at;
  match_made = created_match o.match_made;
}

pub record MatchResponse : Type 0 where
  pub id : ℕ
  pub other_user_id : ℕ
  pub display_name : Text
  pub bio : Text
  pub city : Text
  pub photo_url : ℕ
  pub matched_at : ℕ
  pub last_active_at : ℕ

unfoldable pub match_response : MatchSummary → MatchResponse
match_response s = record {
  id = s.match_row.id;
  other_user_id = s.other_user_id;
  display_name = s.display_name;
  bio = s.bio;
  city = s.city;
  photo_url = s.primary_photo_id;
  matched_at = s.match_row.matched_at;
  last_active_at = s.other_last_active;
}

pub record ReportResponse : Type 0 where
  pub id : ℕ
  pub reported_id : ℕ
  pub reason : ReportReason
  pub description : Text
  pub status : ReportStatus
  pub created_at : ℕ

unfoldable pub report_response : Report → ReportResponse
report_response r = record {
  id = r.id;
  reported_id = r.reported_id;
  reason = r.reason;
  description = r.description;
  status = r.status;
  created_at = r.created_at;
}

-- The nonce is left out where it is the nil UUID.
pub record MessageResponse : Type 0 where
  pub id : ℕ
  pub match_id : ℕ
  pub sender_id : ℕ
  pub client_nonce : Option ℕ
  pub type : MessageType
  pub content : Text
  pub storage_key : Text
  pub read_at : Option ℕ
  pub created_at : ℕ

unfoldable pub message_response : Message → MessageResponse
message_response m = record {
  id = m.id;
  match_id = m.match_id;
  sender_id = m.sender_id;
  client_nonce = if m.client_nonce == 0 then none else some m.client_nonce;
  type = m.type;
  content = m.content;
  storage_key = m.storage_key;
  read_at = m.read_at;
  created_at = m.created_at;
}

pub record ConversationResponse : Type 0 where
  pub match_id : ℕ
  pub other_user_id : ℕ
  pub display_name : Text
  pub primary_photo_id : Option ℕ
  pub last_message : Option MessageResponse
  pub unread_count : ℕ
  pub matched_at : ℕ

abbrev pub last_response : Option Message → Option MessageResponse
last_response none = none
last_response (some m) = some (message_response m)

unfoldable pub conversation_response : ConversationSummary → ConversationResponse
unfolding message_response
conversation_response c = record {
  match_id = c.match_id;
  other_user_id = c.other_user_id;
  display_name = c.display_name;
  primary_photo_id = if c.primary_photo_id == 0 then none else some c.primary_photo_id;
  last_message = last_response c.last_message;
  unread_count = c.unread_count;
  matched_at = c.matched_at;
}

-- A page of a listing, and the text of its next cursor.
pub record PageResponse (A C : Type 0) : Type 0 where
  pub entries : List A
  pub next_cursor : C
