-- ===== src/Tests/Messaging.antt =====
-- A conversation of the users 1 and 2, and one message in it.
use llm_dating_app.Postgres.Matching.{block}
use llm_dating_app.Postgres.Messaging.Listed.{mark_read-conversation_rows}
use llm_dating_app.Postgres.Messaging.Conversations.{
  conversation_rows, conversation, last_message, unread,
}
use llm_dating_app.Keyset.{insert_by}
use llm_dating_app.Postgres.Queries.{is_blocked}
use llm_dating_app.Prelude.{
  ℕ, ◌≡◌, refl, inr, true, none, some, [], ◌∷◌, map, arith, ◌==◌, if◌then◌else◌, ok, select, All,
  Text,
}
use llm_dating_app.Domain.Messaging.{MessageType, Participants, Message}
use llm_dating_app.Postgres.Messaging.{
  mark_read, mark_messages_read, send, insert_message, get_active_participants_row,
  get_active_participants, is_visible, comes_first,
}
use llm_dating_app.Connection.{Conn}
use llm_dating_app.Tests.Matching.{pair, conn, matched, member}
use llm_dating_app.Application.Messaging.Following.{history_page, follow-visible}
use llm_dating_app.Websocket.{typing}
use llm_dating_app.Websocket.Client.{new_client}
use llm_dating_app.Websocket.Hub.{Sockets, handle_client_event}
use llm_dating_app.Websocket.Typing.{block-handle_client_event}
use llm_dating_app.Postgres.Schema.{Tables}
use llm_dating_app.Postgres.Queries.{insert_block, unmatch_pair_for_block}
use llm_dating_app.Keyset.{sort_by}
use llm_dating_app.Keyset.Following.{follow}

abbrev message : ℕ → Text → Message
message id content = record {
  id = id;
  match_id = 30;
  sender_id = 1;
  client_nonce = 77;
  type = MessageType.text;
  content = content;
  storage_key = [];
  read_at = none;
  created_at = 60;
  deleted_at = none;
}

abbrev open_conversation : Conn Tables
open_conversation = conn matched

abbrev after_send : Conn Tables
after_send = (send 60 (message 40 (72 ∷ [])) open_conversation).1

sent :
    (send 60 (message 40 (72 ∷ [])) open_conversation).0
    ≡ ok (record { message = message 40 (72 ∷ []); created = true })
unfolding send insert_message
sent = refl

open_row : get_active_participants_row 30 1 matched ≡ some pair
unfolding get_active_participants_row
open_row = refl

-- User 3 blocks user 2, which leaves the conversation of 1 and 2 open.
abbrev blocked_by_3 : Conn Tables
blocked_by_3 =
    (block 3 2 60 (conn (record matched { members = member 1 ∷ member 2 ∷ member 3 ∷ [] }))).1

abbrev participants : Participants
participants = record { match_id = 30; user_low_id = 1; user_high_id = 2; matched_at = 50 }

block_by_3 :
    (block 3 2 60 (conn (record matched { members = member 1 ∷ member 2 ∷ member 3 ∷ [] }))).0
    ≡ ok tt
unfolding block insert_block unmatch_pair_for_block
block_by_3 = refl

still_open : (get_active_participants 30 1 blocked_by_3).0 ≡ ok participants
unfolding get_active_participants get_active_participants_row block insert_block
    unmatch_pair_for_block
still_open = refl

-- Users 2 and 3 are online when 2 types to 3.
abbrev online : Sockets
online = record { connected = λ u. some (1 ∷ []); clients = λ s. new_client 4 }

block-handle_client_event_example :
    (handle_client_event get_active_participants
        (λ s. true)
        (record { user_id = 2; id = 1 })
        (typing (some 30))
        70
        blocked_by_3
        online).1.clients
      (record { user_id = 3; id = 1 })
    ≡ new_client 4
block-handle_client_event_example =
    block-handle_client_event 3 2 60 30 70 (λ s. true) (record { user_id = 2; id = 1 })
      (record { user_id = 3; id = 1 })
      (conn (record matched { members = member 1 ∷ member 2 ∷ member 3 ∷ [] })) online (omega arith)
      block_by_3 (inr (refl, refl))

abbrev five_messages : Tables
five_messages = record matched {
  messages = message 7 [] ∷ message 9 [] ∷ message 8 [] ∷ message 6 [] ∷ message 5 [] ∷ [];
}

follow-visible_example :
    follow (history_page 2 30 five_messages) 6 none
    ≡ sort_by comes_first (select (is_visible 30) five_messages.messages)
follow-visible_example =
    follow-visible 2 30 6 five_messages (omega arith) (ground arith) (omega arith)

-- User 2 is listed the five unread messages of user 1 before they read them.
listed_before : map (λ s. s.unread_count) (conversation_rows 2 20 five_messages) ≡ 5 ∷ []
unfolding conversation_rows conversation is_blocked last_message unread sort_by insert_by
listed_before = refl

reported : (mark_read 30 2 70 (conn five_messages)).0 ≡ ok 5
unfolding mark_read mark_messages_read
reported = refl

mark_read-conversation_rows_example :
    (5 ≡ unread 30 2 five_messages)
    × All
        (λ s. s.unread_count ≡ (if s.match_id == 30 then 0 else unread s.match_id 2 five_messages))
        (conversation_rows 2 20 (mark_read 30 2 70 (conn five_messages)).1.tables)
mark_read-conversation_rows_example =
    mark_read-conversation_rows 30 2 70 20 (conn five_messages) 5 (ground arith) reported
