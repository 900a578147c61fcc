-- ===== src/Http/Messaging.antt =====
-- backend/internal/adapters/http/messaging/handler.go over the service.
use llm_dating_app.Prelude.{
  ℕ, max, Bool, Option, some, List, map, if◌then◌else◌, Action, ◌>>=◌, pure, or_else, or_fail, Text,
  is_empty_text, trim_space, ℤ, pos,
}
use llm_dating_app.Middleware.{Identity}
use llm_dating_app.Domain.Messaging.{
  Error, SendResult, match_not_accessible, invalid_message_type, invalid_nonce, Cursor,
  ConversationSummary,
}
use llm_dating_app.Application.Messaging.{HistoryPage, SendTextInput, Ticket}
use llm_dating_app.Http.{
  write_error, require_identity, Response, write_json, with_retry_after, read_id, Handler, Code,
  read_body, messaging_dependency_unavailable, match_not_found, validation_error, internal_error,
}
use llm_dating_app.Http.Responses.{
  message_response, PageResponse, MessageResponse, conversation_response, ConversationResponse,
}

-- The operations of the service, at the clock of the call.
pub record Service (W : Type 0) : Type 0 where
  pub history : ℕ → ℕ → Text → ℤ → Action W Error HistoryPage
  pub send_text : SendTextInput → Action W Error SendResult
  pub mark_read : ℕ → ℕ → Action W Error ℕ
  pub issue_ticket : ℕ → Action W Error Ticket
  pub conversations : ℕ → ℤ → Action W Error (List ConversationSummary)

pub record SendMessageRequest : Type 0 where
  pub client_nonce : Text
  pub type : Text
  pub content : Text

-- `writeServiceError`. The wait is in whole seconds, which `math.Ceil` keeps.
unfoldable pub write_service_error : {B : Type 0} → Error → Response B
unfolding write_error
write_service_error (Error.rate_limited wait) =
    with_retry_after (max 1 wait) (write_error 429 Code.rate_limited)
write_service_error Error.dependency_unavailable = write_error 503 messaging_dependency_unavailable
write_service_error match_not_accessible = write_error 404 match_not_found
write_service_error Error.invalid_cursor = write_error 400 Code.invalid_cursor
write_service_error Error.invalid_page_size = write_error 400 Code.invalid_page_size
write_service_error Error.content_too_long = write_error 422 Code.content_too_long
write_service_error Error.empty_content = write_error 422 Code.empty_content
write_service_error invalid_message_type = write_error 422 validation_error
write_service_error invalid_nonce = write_error 422 validation_error
write_service_error Error.ticket_invalid = write_error 500 internal_error
write_service_error Error.infra = write_error 500 internal_error

-- `parseLimit`: the text of the query is not trimmed.
unfoldable pub parse_limit : (Text → Option ℤ) → Text → Option ℤ
parse_limit atoi raw = if is_empty_text raw then some (pos 0) else atoi raw

-- `parseMatchID`
unfoldable pub parse_match_id : {W B : Type 0} → Option ℕ → Action W (Response B) ℕ
unfolding write_error
parse_match_id parsed = read_id parsed

module _ {W : Type 0} (service : Service W) (parse_uuid : Text → Option ℕ) (atoi : Text → Option ℤ)
    (sanitize : Text → Text) where
  unfoldable pub list_conversations : Option Identity → Text → Handler W (List ConversationResponse)
  unfolding require_identity parse_limit write_service_error write_json conversation_response
  list_conversations identity limit_text = do
    who ← require_identity identity
    limit ← or_fail (parse_limit atoi limit_text) (write_error 400 Code.invalid_page_size)
    listed ← or_else write_service_error (service.conversations who.user_id limit)
    pure (write_json 200 (map conversation_response listed))

  unfoldable pub history :
      Option Identity
      → Text
      → Text
      → Text
      → Handler W (PageResponse MessageResponse (Option Cursor))
  unfolding require_identity parse_match_id parse_limit write_service_error write_json
      message_response
  history identity match_text cursor limit_text = do
    who ← require_identity identity
    match_id ← parse_match_id (parse_uuid match_text)
    limit ← or_fail (parse_limit atoi limit_text) (write_error 400 Code.invalid_page_size)
    page ← or_else write_service_error (service.history match_id who.user_id cursor limit)
    pure (
        write_json 200
          (record { entries = map message_response page.entries; next_cursor = page.next_cursor }))

  -- The sender is the identity's user, and never one of the body.
  unfoldable pub send :
      Option Identity
      → Text
      → Option SendMessageRequest
      → (SendMessageRequest → Bool)
      → Handler W MessageResponse
  unfolding require_identity parse_match_id write_service_error write_json message_response
  send identity match_text decoded is_valid = do
    who ← require_identity identity
    match_id ← parse_match_id (parse_uuid match_text)
    request ← read_body decoded is_valid
    nonce ← read_id (parse_uuid request.client_nonce)
    result ← or_else write_service_error (
        service.send_text (record {
          match_id = match_id;
          sender_id = who.user_id;
          client_nonce = nonce;
          content = trim_space (sanitize request.content);
        }))
    pure (write_json (if result.created then 201 else 200) (message_response result.message))

  unfoldable pub mark_read : Option Identity → Text → Handler W ℕ
  unfolding require_identity parse_match_id write_service_error write_json
  mark_read identity match_text = do
    who ← require_identity identity
    match_id ← parse_match_id (parse_uuid match_text)
    updated ← or_else write_service_error (service.mark_read match_id who.user_id)
    pure (write_json 200 updated)

  unfoldable pub issue_ticket : Option Identity → Handler W Ticket
  unfolding require_identity write_service_error write_json
  issue_ticket identity = do
    who ← require_identity identity
    ticket ← or_else write_service_error (service.issue_ticket who.user_id)
    pure (write_json 201 ticket)
