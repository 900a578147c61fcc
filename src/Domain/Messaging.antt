-- ===== src/Domain/Messaging.antt =====
-- backend/internal/domain/messaging: messages, conversations and their errors. Identifiers are the
-- 128-bit numbers of their UUIDs, whose order is that of their text and of SQL's `uuid`.
use llm_dating_app.Prelude.{ℕ, Bool, true, false, ◌||◌, Option, ◌==◌, if◌then◌else◌, is_some, Text}

abbrev pub max_content_length : ℕ
max_content_length = 2000

pub data MessageType : Type 0 where
  text image gif : MessageType

unfoldable pub is_media : MessageType → Bool
is_media text = false
is_media image = true
is_media gif = true

pub record Message : Type 0 where
  pub id : ℕ
  pub match_id : ℕ
  pub sender_id : ℕ
  pub client_nonce : ℕ
  pub type : MessageType
  pub content : Text
  pub storage_key : Text
  pub read_at : Option ℕ
  pub created_at : ℕ
  pub deleted_at : Option ℕ

unfoldable pub is_deleted : Message → Bool
is_deleted m = is_some m.deleted_at

unfoldable pub is_read : Message → Bool
is_read m = is_some m.read_at

pub record Cursor : Type 0 where
  pub created_at : ℕ
  pub message_id : ℕ

pub record HistoryParams : Type 0 where
  pub match_id : ℕ
  pub limit : ℕ
  pub before : Option Cursor

pub record SendResult : Type 0 where
  pub message : Message
  pub created : Bool

pub record Participants : Type 0 where
  pub match_id : ℕ
  pub user_low_id : ℕ
  pub user_high_id : ℕ
  pub matched_at : ℕ

unfoldable pub includes : Participants → ℕ → Bool
includes p user = p.user_low_id == user || p.user_high_id == user

unfoldable pub other : Participants → ℕ → ℕ
other p user = if p.user_low_id == user then p.user_high_id else p.user_low_id

-- An active match in the list of chats. The zero UUID stands for no photo.
pub record ConversationSummary : Type 0 where
  pub match_id : ℕ
  pub other_user_id : ℕ
  pub display_name : Text
  pub primary_photo_id : ℕ
  pub last_message : Option Message
  pub unread_count : ℕ
  pub matched_at : ℕ

-- `errors.go`; `infra` is any error that no code tells apart from others.
pub data Error : Type 0 where
  match_not_accessible invalid_message_type empty_content content_too_long : Error
  invalid_cursor invalid_page_size invalid_nonce dependency_unavailable ticket_invalid : Error
  rate_limited : ℕ → Error
  infra : Error
