-- ===== src/Application/Messaging.antt =====
-- backend/internal/application/messaging: the service over its ports (ports.go and
-- domain/messaging/repository.go). Identifiers and the clock's reading that a call draws are its
-- arguments.
pub mod Live
pub mod Delivery
pub mod Ordering
pub mod Following
pub mod Access
pub mod Retrying
use llm_dating_app.Prelude.{
  ℕ, ◌+◌, Bool, not, Option, none, List, [], ◌∷◌, ltb, ◌==◌, if◌then◌else◌, Action, ◌>>=◌, ◌>>◌,
  pure, ignore, or_else, or_fail, fail_if, length, Text, is_empty_text, trim_space, ℤ,
}
use llm_dating_app.Domain.Messaging.{
  Error, MessageType, Message, Participants, SendResult, Cursor, dependency_unavailable,
  ticket_invalid, HistoryParams, rate_limited, invalid_nonce, empty_content, invalid_page_size,
  max_content_length, invalid_cursor, content_too_long, ConversationSummary,
}
use llm_dating_app.Redis.Keys.{Failure}
use llm_dating_app.Application.Paging.{normalize_page_size}
use llm_dating_app.Keyset.{Page, page_of}

-- `MessagePayload` has the fields of the message but for its receipt and deletion.
pub record MessagePayload : Type 0 where
  pub id : ℕ
  pub match_id : ℕ
  pub sender_id : ℕ
  pub client_nonce : ℕ
  pub type : MessageType
  pub content : Text
  pub storage_key : Text
  pub created_at : ℕ

unfoldable pub new_message_payload : Message → MessagePayload
new_message_payload m = record {
  id = m.id;
  match_id = m.match_id;
  sender_id = m.sender_id;
  client_nonce = m.client_nonce;
  type = m.type;
  content = m.content;
  storage_key = m.storage_key;
  created_at = m.created_at;
}

pub record MessageEvent : Type 0 where
  pub match_id : ℕ
  pub recipients : List ℕ
  pub message : MessagePayload

pub record Repository (W : Type 0) : Type 0 where
  pub get_active_participants : ℕ → ℕ → Action W Error Participants
  pub send : Message → Action W Error SendResult
  pub list_history : HistoryParams → Action W Error (List Message)
  pub mark_read : ℕ → ℕ → ℕ → Action W Error ℕ
  pub list_conversations : ℕ → ℕ → Action W Error (List ConversationSummary)

pub record TicketStore (W : Type 0) : Type 0 where
  pub issue : Text → ℕ → ℕ → Action W Error (Unit {0})
  pub consume : Text → Action W Error ℕ

pub record SendTextInput : Type 0 where
  pub match_id : ℕ
  pub sender_id : ℕ
  pub client_nonce : ℕ
  pub content : Text

abbrev pub HistoryPage : Type 0
HistoryPage = Page Message Cursor

abbrev pub history_cursor : Message → Cursor
history_cursor m = record { created_at = m.created_at; message_id = m.id }

pub record Ticket : Type 0 where
  pub value : Text
  pub expires_at : ℕ

module _ {W : Type 0} (messages : Repository W) (tickets : TicketStore W)
    (publish : MessageEvent → Action W Failure (Unit {0}))
    (allow : ℕ → Action W Failure (Bool × ℕ)) where
  unfoldable pub authorize : ℕ → ℕ → Action W Error Participants
  authorize match_id viewer = messages.get_active_participants match_id viewer

  unfoldable pub admit : ℕ → ℕ → Action W Error Participants
  admit match_id sender = do
    participants ← messages.get_active_participants match_id sender
    (allowed, retry) ← or_else (λ _. dependency_unavailable) (allow sender)
    fail_if (not allowed) (rate_limited retry)
    pure participants

  unfoldable pub persist_and_publish : Participants → Message → Action W Error SendResult
  persist_and_publish participants message = do
    result ← messages.send message
    if result.created
        then ignore (
            publish (record {
              match_id = message.match_id;
              recipients = participants.user_low_id ∷ participants.user_high_id ∷ [];
              message = new_message_payload result.message;
            }))
        else pure tt
    pure result

  -- The zero time stands for no time: the database stamps the message.
  unfoldable pub send_text : SendTextInput → ℕ → Action W Error SendResult
  send_text input id = do
    fail_if (input.client_nonce == 0) invalid_nonce
    let content = trim_space input.content
    fail_if (is_empty_text content) empty_content
    fail_if (ltb max_content_length (length content)) content_too_long
    participants ← admit input.match_id input.sender_id
    persist_and_publish participants (record {
      id = id;
      match_id = input.match_id;
      sender_id = input.sender_id;
      client_nonce = input.client_nonce;
      type = MessageType.text;
      content = content;
      storage_key = [];
      read_at = none;
      created_at = 0;
      deleted_at = none;
    })

  -- The cursor is what `decodeCursor` made of the request's text: absent, refused or a position.
  unfoldable pub history : ℕ → ℕ → Option (Option Cursor) → ℤ → Action W Error HistoryPage
  unfolding normalize_page_size
  history match_id viewer cursor limit = do
    messages.get_active_participants match_id viewer
    size ← or_fail (normalize_page_size limit) invalid_page_size
    before ← or_fail cursor invalid_cursor
    listed ←
        messages.list_history (record { match_id = match_id; limit = size + 1; before = before })
    pure (page_of history_cursor size listed)

  unfoldable pub mark_read : ℕ → ℕ → ℕ → Action W Error ℕ
  mark_read match_id viewer now = do
    messages.get_active_participants match_id viewer
    messages.mark_read match_id viewer now

  unfoldable pub conversations : ℕ → ℤ → Action W Error (List ConversationSummary)
  unfolding normalize_page_size
  conversations viewer limit = do
    size ← or_fail (normalize_page_size limit) invalid_page_size
    messages.list_conversations viewer size

  unfoldable pub issue_ticket : ℕ → Text → ℕ → ℕ → Action W Error Ticket
  issue_ticket user value ttl now = do
    or_else (λ _. dependency_unavailable) (tickets.issue value user ttl)
    pure (record { value = value; expires_at = now + ttl })

  unfoldable pub consume_ticket : Text → Action W Error ℕ
  consume_ticket ticket = do
    fail_if (is_empty_text (trim_space ticket)) ticket_invalid
    tickets.consume ticket
