-- ===== src/Postgres/Messaging.antt =====
-- backend/internal/adapters/postgres/repositories/messaging_repository.go, with the statements of
-- sqlc/messages.sql.go: conversations of active matches. A text that is empty stands for SQL's NULL,
-- as `toPgText` and `fromPgText` have it.
pub mod Sending
pub mod Receipts
pub mod Conversations
pub mod Listed
use llm_dating_app.Prelude.{
  ℕ, Bool, true, false, not, ◌&&◌, ◌||◌, Option, none, some, List, ◌∷◌, ltb, leb, ◌==◌,
  if◌then◌else◌, is_some, Action, ◌>>=◌, ◌>>◌, pure, fail, or_fail, length, take, find, any, select,
  update_where, count_where, Text, is_empty_text,
}
use llm_dating_app.Domain.Messaging.{
  Error, infra, Message, MessageType, Cursor, HistoryParams, Participants, SendResult,
  match_not_accessible,
}
use llm_dating_app.Postgres.Schema.{Tables}
use llm_dating_app.Connection.{Conn, query, statement}
use llm_dating_app.Domain.Matching.{Match}
use llm_dating_app.Postgres.Queries.{is_member, is_open, takes_part, blocks_pair}
use llm_dating_app.Keyset.{sort_by}

unfoldable pub get_active_participants_row : ℕ → ℕ → Tables → Option Match
get_active_participants_row match_id viewer t =
    find
      (λ m.
        m.id == match_id
        && is_open m
        && takes_part viewer m
        && not (any (blocks_pair m.user_low_id m.user_high_id) t.blocks))
      t.matches

unfoldable pub get_active_participants : ℕ → ℕ → Action (Conn Tables) Error Participants
get_active_participants match_id viewer = do
  row ← query infra (get_active_participants_row match_id viewer)
  m ← or_fail row match_not_accessible
  pure (record {
    match_id = m.id;
    user_low_id = m.user_low_id;
    user_high_id = m.user_high_id;
    matched_at = m.matched_at;
  })

pub data Inserted : Type 0 where
  stored : Message → Inserted
  conflict refused : Inserted

abbrev pub has_nonce : ℕ → ℕ → Message → Bool
has_nonce sender nonce m = m.sender_id == sender && m.client_nonce == nonce

-- `messages_payload_coherence_check`, and the width of the column.
abbrev pub is_coherent : MessageType → Text → Text → Bool
is_coherent MessageType.text content key =
    not (is_empty_text content) && leb (length content) 2000 && is_empty_text key
is_coherent MessageType.image content key = not (is_empty_text key) && is_empty_text content
is_coherent MessageType.gif content key = not (is_empty_text key) && is_empty_text content

-- The row that is stored, with the time of the database.
abbrev pub stamped : ℕ → Message → Message
stamped at m = record m { created_at = at; read_at = none; deleted_at = none }

-- The checks of the row come first, then the conflict, then the foreign keys.
unfoldable pub insert_message : ℕ → Message → Tables → Inserted × Tables
insert_message at m t =
    if not (is_coherent m.type m.content m.storage_key)
    then (refused, t)
    else if any (has_nonce m.sender_id m.client_nonce) t.messages
    then (conflict, t)
    else if any (λ x. x.id == m.match_id) t.matches && is_member m.sender_id t
    then (stored (stamped at m), record t { messages = stamped at m ∷ t.messages })
    else (refused, t)

unfoldable pub get_message_by_nonce : ℕ → ℕ → Tables → Option Message
get_message_by_nonce sender nonce t = find (has_nonce sender nonce) t.messages

unfoldable pub send_after : Message → Inserted → Action (Conn Tables) Error SendResult
send_after m (stored row) = pure (record { message = row; created = true })
send_after m conflict = do
  found ← query infra (get_message_by_nonce m.sender_id m.client_nonce)
  existing ← or_fail found infra
  pure (record { message = existing; created = false })
send_after m refused = fail infra

unfoldable pub send : ℕ → Message → Action (Conn Tables) Error SendResult
unfolding send_after
send at m = do result ← statement infra (insert_message at m); send_after m result

-- `created_at DESC, id DESC`: whether the first message comes before the second.
abbrev pub comes_first : Message → Message → Bool
comes_first a b = ltb b.created_at a.created_at || (a.created_at == b.created_at && ltb b.id a.id)

-- `(created_at, id)` before the cursor.
abbrev pub is_before : Option Cursor → Message → Bool
is_before none m = true
is_before (some c) m =
    ltb m.created_at c.created_at || (m.created_at == c.created_at && ltb m.id c.message_id)

abbrev pub is_visible : ℕ → Message → Bool
is_visible match_id m = m.match_id == match_id && not (is_some m.deleted_at)

unfoldable pub list_messages_before : HistoryParams → Tables → List Message
list_messages_before p t =
    take p.limit (
      sort_by comes_first
        (select (λ m. is_visible p.match_id m && is_before p.before m) t.messages))

unfoldable pub list_history : HistoryParams → Action (Conn Tables) Error (List Message)
list_history p = query infra (list_messages_before p)

abbrev pub is_unread : ℕ → ℕ → ℕ → Message → Bool
is_unread match_id viewer at m =
    m.match_id == match_id
    && not (m.sender_id == viewer)
    && not (is_some m.read_at)
    && not (is_some m.deleted_at)
    && leb m.created_at at

unfoldable pub mark_messages_read : ℕ → ℕ → ℕ → Tables → ℕ × Tables
mark_messages_read match_id viewer at t = (
  count_where (is_unread match_id viewer at) t.messages,
  record t {
    messages =
        update_where (is_unread match_id viewer at) (λ m. record m { read_at = some at })
          t.messages;
  },
)

unfoldable pub mark_read : ℕ → ℕ → ℕ → Action (Conn Tables) Error ℕ
mark_read match_id viewer at = statement infra (mark_messages_read match_id viewer at)
